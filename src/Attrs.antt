-- ===== src/Attrs.antt =====
-- src/libgenders/genders.c: `genders_getattr` and `genders_getattr_all`, with the functions that
-- they run over the items of a hash.
pub mod Items
pub mod Stored
pub mod All
use genders.Base.{
  ℕ, zero, ◌+◌, Bool, true, false, not, ◌&&◌, ◌||◌, Option, none, some, List, [], ◌∷◌, ℤ, pos,
  ltb_ℤ, ◌==◌, if◌then◌else◌, length, is_some, Str,
}
use genders.Libcommon.{hash_for_each, hostlist_has}
use genders.Handle.{
  Handle, Hosts, Attrval, M, pure, fail_with, done_with, ◌>>=◌, ◌>>◌, err_parameters, err_success,
  err_notfound, err_overflow,
}
use genders.Handle.Checks.{loaded_handle_error_check}
use genders.Value.{get_valptr}
use genders.Array.{Array, put_in_array}
use genders.Lookup.{or_nodename}
use genders.Nodes.{cells}

-- `struct getattr_container`, with the handle that it points to. `vals` is `none` for NULL.
pub record Container : Type 0 where
  pub handle : Handle
  pub attrs : Array
  pub vals : Option Array
  pub index : ℕ
  pub errnum : ℤ

-- `if (!gc->errnum) gc->errnum = gc->handle->errnum;`
abbrev pub save_errnum : ℤ → ℤ → ℤ
save_errnum (pos zero) e = e
save_errnum saved e = saved

-- What `_store_attr_val` puts into the arrays, in order.
unfoldable pub store_both :
    ℤ → Str → Str → Attrval → Array → Option Array → ℕ → M (Array × Option Array)
store_both len node key av attrs vals index = do
  attrs' ← put_in_array key attrs index len
  elim vals [
    | none ↦ pure (attrs', none)
    | some list ↦ elim av.val [
      | none ↦ pure (attrs', some list)
      | some v ↦ do
        valptr ← get_valptr node v av.val_contains_subst
        list' ← put_in_array valptr.0 list index len
        pure (attrs', some list')
    ]
  ]

-- The container after those calls.
abbrev pub after_both : Container → Option (Array × Option Array) × Handle → Container × Bool
after_both gc (none, h) = (record gc { handle = h; errnum = save_errnum gc.errnum h.errnum }, false)
after_both gc (some stored, h) =
    (record gc { handle = h; attrs = stored.0; vals = stored.1; index = gc.index + 1 }, true)

-- `_store_attr_val`
unfoldable pub store_attr_val : ℤ → Str → Str → Attrval → Container → Container × Bool
store_attr_val len node key av gc =
    after_both gc (store_both len node key av gc.attrs gc.vals gc.index gc.handle)

-- The loop of `genders_getattr` over the lines of the database; `none` where a line could not be
-- stored.
unfoldable pub getattr_hosts : ℤ → Str → List Hosts → Container → Option Container × Handle
getattr_hosts len node [] gc = (some gc, gc.handle)
getattr_hosts len node (gh ∷ hosts) gc =
    let (gc', count) = hash_for_each (store_attr_val len node) gh.attrval_index gc in
    let next = getattr_hosts len node hosts gc' in
    let past = getattr_hosts len node hosts gc in
    if hostlist_has gh.hl node
    then if count == length gh.attrval_index
      then next
      else (none, record gc'.handle { errnum = gc'.errnum })
    else past

-- `genders_getattr`. The result is the count and the two arrays.
unfoldable pub getattr : Option Array → Option Array → ℤ → Option Str → M (ℕ × Array × Option Array)
getattr attrs vals len node = do
  loaded_handle_error_check
  λ h.
      (if not (is_some attrs) && ltb_ℤ (pos 0) len || ltb_ℤ len (pos 0)
          then fail_with err_parameters
          else if h.numnodes == 0
          then fail_with err_notfound
          else if hostlist_has h.hostnames (or_nodename node h)
          then (do
            gc ← λ h'. getattr_hosts len (or_nodename node h) h.genders_hosts (record {
              handle = h';
              attrs = cells attrs;
              vals = vals;
              index = 0;
              errnum = pos 0;
            })
            done_with err_success (gc.index, gc.attrs, gc.vals))
          else fail_with err_notfound)
        h

-- `struct getattr_all_container`
pub record AllContainer : Type 0 where
  pub handle : Handle
  pub attrs : Array
  pub index : ℕ
  pub errnum : ℤ

-- `_store_attr`. The index grows also where the call fails.
unfoldable pub store_attr : ℤ → Str → Str → AllContainer → AllContainer × Bool
store_attr len key attr gac =
    let (stored, h) = put_in_array key gac.attrs gac.index len gac.handle in
    elim stored [
      | none ↦ (
        record gac { handle = h; index = gac.index + 1; errnum = save_errnum gac.errnum h.errnum },
        false,
      )
      | some attrs' ↦ (record gac { handle = h; attrs = attrs'; index = gac.index + 1 }, true)
    ]

-- `genders_getattr_all`
unfoldable pub getattr_all : Option Array → ℤ → M (ℕ × Array)
getattr_all attrs len = do
  loaded_handle_error_check
  λ h.
      (if not (is_some attrs) && ltb_ℤ (pos 0) len || ltb_ℤ len (pos 0)
          then fail_with err_parameters
          else if ltb_ℤ len (pos h.numattrs)
          then fail_with err_overflow
          else λ h'.
              let (gac, ret) =
                hash_for_each (store_attr len) h'.attrs
                  (record { handle = h'; attrs = cells attrs; index = 0; errnum = pos 0 }) in
              (if ret == h'.numattrs
                  then done_with err_success (h'.numattrs, gac.attrs)
                  else fail_with gac.errnum)
                gac.handle)
        h
