-- ===== src/Copy.antt =====
-- src/libgenders/genders.c: `genders_copy`, with the functions that it runs over the items of a
-- hash. The handle of the monad is the one that is copied.
pub mod Lines
pub mod Correct
use genders.Base.{
  ℕ, Bool, true, false, Option, none, some, List, [], ◌∷◌, ℤ, pos, ◌==◌, if◌then◌else◌, length,
  is_some, Str,
}
use genders.Libcommon.{Libcommon, Hash, hash_find, hash_for_each}
use genders.Handle.{
  Handle, Hosts, Attrval, M, pure, fail_with, done_with, ◌>>=◌, ◌>>◌, err_success, err_internal,
  err_outmem,
}
use genders.Handle.Checks.{loaded_handle_error_check}
use genders.Attrs.{save_errnum}
use genders.Load.{handle_create}
use genders.Index.{index_attrvals}

-- `struct genders_copy_attrvals_container` and `struct genders_copy_attrs_container`: the handle,
-- the new table and the first error.
pub record Copying (V : Type 0) : Type 0 where
  pub handle : Handle
  pub table : Hash V
  pub errnum : ℤ

module _ (L : Libcommon) where
  open L use {place}

  -- `hash_insert` of a copied item, which fails for a key that the table has, and what both
  -- functions do with its result.
  unfoldable pub copy_item : (V : Type 0) → ℕ → Str → V → ℤ → Copying V → Copying V × Bool
  copy_item V size k v e c =
      if is_some (hash_find c.table k)
      then (
        record c { handle = record c.handle { errnum = e }; errnum = save_errnum c.errnum e },
        false,
      )
      else (record c { table = place V size k v c.table }, true)

  -- `_copy_attrvals`
  unfoldable pub copy_attrvals : ℕ → Str → Attrval → Copying Attrval → Copying Attrval × Bool
  copy_attrvals size key av c = copy_item Attrval size av.attr av err_internal c

  -- `_copy_attr`
  unfoldable pub copy_attr : ℕ → Str → Str → Copying Str → Copying Str × Bool
  copy_attr size key attr c = copy_item Str size key key err_outmem c

  -- The test of the count that `hash_for_each` returns.
  unfoldable pub copied_all : {V : Type 0} → ℕ → Copying V × ℕ → Option (Hash V) × Handle
  copied_all count (c, ret) =
      if ret == count
      then (some c.table, c.handle)
      else (none, record c.handle { errnum = c.errnum })

  -- The loop of `_genders_copy_genders_hosts`.
  unfoldable pub copy_hosts : List Hosts → M (List Hosts)
  copy_hosts [] = pure []
  copy_hosts (gh ∷ hosts) = do
    index ← λ h. copied_all (length gh.attrval_index) (
        hash_for_each (copy_attrvals gh.attrval_index_size) gh.attrval_index
          (record { handle = h; table = []; errnum = pos 0 }))
    rest ← copy_hosts hosts
    pure (
        record { hl = gh.hl; attrval_index = index; attrval_index_size = gh.attrval_index_size }
        ∷ rest)

  -- `_genders_copy_attrs`, into the table of a new handle.
  unfoldable pub copy_attrs : M (Hash Str)
  copy_attrs h = copied_all h.numattrs (
      hash_for_each (copy_attr handle_create.attrs_size) h.attrs
        (record { handle = h; table = []; errnum = pos 0 }))

  -- What `genders_copy` has filled before it makes the index.
  abbrev pub filled : Handle → List Hosts → Hash Str → Handle
  filled h hosts attrs' = record handle_create {
    is_loaded = h.is_loaded;
    flags = h.flags;
    numnodes = h.numnodes;
    numattrs = h.numattrs;
    maxnodelen = h.maxnodelen;
    maxattrlen = h.maxattrlen;
    maxvallen = h.maxvallen;
    nodename = h.nodename;
    genders_hosts = hosts;
    hostnames = h.hostnames;
    attrs = attrs';
    valbuf = some [];
  }

  -- The index of the copy, made anew for the attribute of the original.
  unfoldable pub copy_index : Option (Hash (List Str)) → Handle → M Handle
  copy_index none copy h = done_with err_success copy h
  copy_index (some index) copy h =
      let (r, copy') = index_attrvals L h.attrval_index_attr copy in
      elim r [ none ↦ fail_with err_internal h | some _ ↦ done_with err_success copy' h ]

  -- `genders_copy`. The push of the host names has no effect on an empty list.
  unfoldable pub copy : M Handle
  copy = do
    loaded_handle_error_check
    hosts ← λ h. copy_hosts h.genders_hosts h
    attrs ← copy_attrs
    λ h. copy_index h.attrval_index (filled h hosts attrs) h
