-- ===== src/Lookup.antt =====
-- src/libgenders/genders.c: the questions about one node, one attribute or one value. Text
-- arguments that may be NULL are options.
pub mod Correct
pub mod Values
pub mod AnyNode
use genders.Base.{
  ℕ, ◌+◌, Bool, true, false, not, ◌&&◌, ◌||◌, Option, none, some, List, [], ◌∷◌, ℤ, pos, ltb_ℤ,
  ◌==◌, if◌then◌else◌, length, is_some, Str, str_eq, is_missing,
}
use genders.Libcommon.{Hash, Hostlist, hash_find, hostlist_has}
use genders.Handle.{
  Handle, Hosts, Attrval, M, pure, fail_with, done_with, ◌>>=◌, ◌>>◌, err_overflow, err_parameters,
  err_success, err_notfound,
}
use genders.Handle.Checks.{loaded_handle_error_check}
use genders.Value.{get_valptr}

-- `if (!node || !strlen(node)) node = handle->nodename;`
abbrev pub or_nodename : Option Str → Handle → Str
or_nodename none h = h.nodename
or_nodename (some []) h = h.nodename
or_nodename (some (c ∷ s)) h = c ∷ s

-- `if (attr && !strlen(attr)) attr = NULL;`
abbrev pub or_null : Option Str → Option Str
or_null none = none
or_null (some []) = none
or_null (some (c ∷ s)) = some (c ∷ s)

abbrev pub text : Option Str → Str
text none = []
text (some s) = s

-- The index, behind a test that it exists.
abbrev pub or_empty : Option (Hash Hostlist) → Hash Hostlist
or_empty none = []
or_empty (some index) = index

-- `!strcmp(handle->attrval_index_attr, attr)`, where an index exists.
abbrev pub index_is_on : Handle → Str → Bool
index_is_on h attr = str_eq (text h.attrval_index_attr) attr

-- `genders_getnodename`. The flag says that `node` is not NULL; the result is the text written.
unfoldable pub getnodename : Bool → ℤ → M Str
getnodename given len = do
  loaded_handle_error_check
  λ h.
      (if not given || ltb_ℤ len (pos 0)
          then fail_with err_parameters
          else if ltb_ℤ len (pos (length h.nodename + 1))
          then fail_with err_overflow
          else done_with err_success h.nodename)
        h

-- `genders_isnode`. The last return leaves the error code as it stands.
unfoldable pub isnode : Option Str → M Bool
isnode node = do
  loaded_handle_error_check
  λ h.
      (if h.numnodes == 0
          then done_with err_success false
          else pure (hostlist_has h.hostnames (or_nodename node h)))
        h

-- `genders_isattr`
unfoldable pub isattr : Option Str → M Bool
isattr attr = do
  loaded_handle_error_check
  λ h.
      (if is_missing attr
          then fail_with err_parameters
          else if h.numattrs == 0
          then done_with err_success false
          else done_with err_success (is_some (hash_find h.attrs (text attr))))
        h

-- What `genders_testattr` does with the value that it found: the text that it copies into `val`,
-- `none` where `val` is NULL and nothing is copied.
unfoldable pub copy_val : Bool → ℤ → Str → Attrval → M (Bool × Option Str)
copy_val wanted len node av =
    if wanted
    then elim av.val [
      | none ↦ pure (true, some [])
      | some v ↦ do
        valptr ← get_valptr node v av.val_contains_subst
        (if ltb_ℤ len (pos (length valptr.0 + 1))
            then fail_with err_overflow
            else pure (true, some valptr.0))
    ]
    else pure (true, none)

-- What it does on a line of the node, `next` being the rest of the loop.
unfoldable pub test_found :
    Bool → ℤ → Str → Option Attrval → M (Bool × Option Str) → M (Bool × Option Str)
test_found wanted len node none next = next
test_found wanted len node (some av) next = copy_val wanted len node av

-- The loop of `genders_testattr` over the lines of the database.
unfoldable pub testattr_hosts : Bool → ℤ → Str → Str → List Hosts → M (Bool × Option Str)
testattr_hosts wanted len node attr [] = pure (false, none)
testattr_hosts wanted len node attr (gh ∷ hosts) =
    let next = testattr_hosts wanted len node attr hosts in
    if hostlist_has gh.hl node
    then test_found wanted len node (hash_find gh.attrval_index attr) next
    else next

-- `genders_testattr`. The flag says that `val` is not NULL.
unfoldable pub testattr : Option Str → Option Str → Bool → ℤ → M (Bool × Option Str)
testattr node attr wanted len = do
  loaded_handle_error_check
  λ h.
      (if is_missing attr || wanted && ltb_ℤ len (pos 0)
          then fail_with err_parameters
          else if h.numnodes == 0
          then fail_with err_notfound
          else if hostlist_has h.hostnames (or_nodename node h)
          then (do
            found ← testattr_hosts wanted len (or_nodename node h) (text attr) h.genders_hosts
            done_with err_success found)
          else fail_with err_notfound)
        h

-- `genders_testattrval`. The buffer starts out as the empty text.
unfoldable pub testattrval : Option Str → Option Str → Option Str → M Bool
testattrval node attr val = do
  loaded_handle_error_check
  λ h.
      (if is_missing attr then fail_with err_parameters else do
        found ← testattr node attr true (pos (h.maxvallen + 1))
        done_with err_success (found.0 && (is_missing val || str_eq (text found.1) (text val))))
        h

-- The loop of `genders_isattrval` over the nodes of a line.
unfoldable pub isattrval_nodes : Str → Str → Bool → Hostlist → M Bool
isattrval_nodes val v contains_subst [] = pure false
isattrval_nodes val v contains_subst (node ∷ nodes) = do
  valptr ← get_valptr node v contains_subst
  if str_eq valptr.0 val then pure true else isattrval_nodes val v contains_subst nodes

-- What it does on a line, `next` being the rest of the loop.
unfoldable pub isattrval_found : Str → Str → Hosts → Option Attrval → M Bool → M Bool
isattrval_found attr val gh none next = next
isattrval_found attr val gh (some av) next =
    if str_eq av.attr attr
    then elim av.val [
      | none ↦ next
      | some v ↦ do
        found ← isattrval_nodes val v av.val_contains_subst gh.hl
        if found then pure true else next
    ]
    else next

-- The loop of `genders_isattrval` over the lines of the database.
unfoldable pub isattrval_hosts : Str → Str → List Hosts → M Bool
isattrval_hosts attr val [] = pure false
isattrval_hosts attr val (gh ∷ hosts) =
    isattrval_found attr val gh (hash_find gh.attrval_index attr) (isattrval_hosts attr val hosts)

-- `genders_isattrval`
unfoldable pub isattrval : Option Str → Option Str → M Bool
isattrval attr val = do
  loaded_handle_error_check
  λ h.
      (if is_missing attr || is_missing val
          then fail_with err_parameters
          else if is_some h.attrval_index && index_is_on h (text attr)
          then done_with err_success (is_some (hash_find (or_empty h.attrval_index) (text val)))
          else if h.numattrs == 0
          then done_with err_success false
          else do
            found ← isattrval_hosts (text attr) (text val) h.genders_hosts
            done_with err_success found)
        h
