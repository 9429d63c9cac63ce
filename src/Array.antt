-- ===== src/Array.antt =====
-- The arrays of strings that callers hand in: `_genders_put_in_array` of
-- src/libgenders/genders_util.c, and the create, clear and destroy functions of genders.c.
-- A cell is `none` for a NULL pointer and otherwise holds the string in its buffer. The sizes of
-- the buffers are not modelled. A read past the end of an array is taken for a NULL pointer.
pub mod Writes
use genders.Base.{
  ℕ, zero, suc, ◌+◌, Bool, Option, none, some, List, [], ◌∷◌, ℤ, pos, ltb_ℤ, if◌then◌else◌,
  get_elem?, set, replicate, ltb, Str,
}
use genders.Handle.{
  Handle, M, pure, fail_with, done_with, gets, ◌>>=◌, ◌>>◌, err_overflow, err_nullptr,
  err_parameters, err_success,
}
use genders.Handle.Checks.{loaded_handle_error_check}

abbrev pub Array : Type 0
Array = List (Option Str)

-- `_genders_put_in_array`
unfoldable pub put_in_array : Str → Array → ℕ → ℤ → M Array
put_in_array str list index len =
    if ltb_ℤ (pos index) len
    then elim (get_elem? list index) [
      | none ↦ fail_with err_nullptr
      | some cell ↦ elim cell [
        | none ↦ fail_with err_nullptr
        | some _ ↦ pure (set list index (some str))
      ]
    ]
    else fail_with err_overflow

-- `_genders_list_create`. The flag says that `list` is not NULL; the array is `none` where `*list`
-- is left as it is.
unfoldable pub list_create : Bool → ℕ → M (Option Array × ℕ)
list_create given len =
    if ltb 0 len
    then if given
      then done_with err_success (some (replicate len (some [])), len)
      else fail_with err_parameters
    else done_with err_success (none, len)

-- The loop of `_genders_list_clear` over the first cells.
unfoldable pub clear_cells : ℕ → Array → M Array
clear_cells zero list = done_with err_success list
clear_cells (suc n) [] = fail_with err_nullptr
clear_cells (suc n) (none ∷ list) = fail_with err_nullptr
clear_cells (suc n) (some _ ∷ list) = do rest ← clear_cells n list; pure (some [] ∷ rest)

-- `_genders_list_clear`
unfoldable pub list_clear : Option Array → ℕ → M (Option Array)
list_clear list len =
    if ltb 0 len
    then elim list [
      | none ↦ fail_with err_parameters
      | some cells ↦ do cleared ← clear_cells len cells; pure (some cleared)
    ]
    else done_with err_success list

-- `_genders_list_destroy`
unfoldable pub list_destroy : Option Array → ℕ → M (Unit {0})
list_destroy list len =
    if ltb 0 len
    then elim list [ none ↦ fail_with err_parameters | some _ ↦ done_with err_success tt ]
    else done_with err_success tt

-- The three entry points of each kind of list. The lengths of the buffers of a new list are
-- `maxnodelen`, `maxattrlen` and `maxvallen`, plus one.
unfoldable pub nodelist_create : Bool → M (Option Array × ℕ)
nodelist_create given = do loaded_handle_error_check; list_create given (← gets (λ h. h.numnodes))

unfoldable pub nodelist_clear : Option Array → M (Option Array)
nodelist_clear list = do loaded_handle_error_check; list_clear list (← gets (λ h. h.numnodes))

unfoldable pub nodelist_destroy : Option Array → M (Unit {0})
nodelist_destroy list = do loaded_handle_error_check; list_destroy list (← gets (λ h. h.numnodes))

unfoldable pub attrlist_create : Bool → M (Option Array × ℕ)
attrlist_create given = do loaded_handle_error_check; list_create given (← gets (λ h. h.numattrs))

unfoldable pub attrlist_clear : Option Array → M (Option Array)
attrlist_clear list = do loaded_handle_error_check; list_clear list (← gets (λ h. h.numattrs))

unfoldable pub attrlist_destroy : Option Array → M (Unit {0})
attrlist_destroy list = do loaded_handle_error_check; list_destroy list (← gets (λ h. h.numattrs))

unfoldable pub vallist_create : Bool → M (Option Array × ℕ)
vallist_create given = do loaded_handle_error_check; list_create given (← gets (λ h. h.numattrs))

unfoldable pub vallist_clear : Option Array → M (Option Array)
vallist_clear list = do loaded_handle_error_check; list_clear list (← gets (λ h. h.numattrs))

unfoldable pub vallist_destroy : Option Array → M (Unit {0})
vallist_destroy list = do loaded_handle_error_check; list_destroy list (← gets (λ h. h.numattrs))
