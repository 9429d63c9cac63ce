-- ===== src/Index.antt =====
-- src/libgenders/genders.c: `genders_index_attrvals`, which builds a hash from the values of one
-- attribute to the nodes that have them.
pub mod Table
pub mod Correct
pub mod Agree
use genders.Base.{
  ℕ, Bool, true, false, not, Option, none, some, List, [], ◌∷◌, ◌++◌, ◌==◌, ◌&&◌, if◌then◌else◌,
  is_some, Str, is_missing,
}
use genders.Libcommon.{Libcommon, Hash, Hostlist, hash_find, hash_store}
use genders.Handle.{
  Handle, Hosts, Attrval, M, pure, require, fail_with, done_with, ◌>>=◌, ◌>>◌, err_parameters,
  err_success, err_notfound, err_internal, novalue,
}
use genders.Handle.Checks.{loaded_handle_error_check}
use genders.Value.{get_valptr}
use genders.Lookup.{text, index_is_on, isattr}

-- `attrval_index` and `attrval_buflist` while they are built.
pub record IndexTable : Type 0 where
  pub index : Hash Hostlist
  pub buflist : List Str

-- `av->val ? av->val : GENDERS_NOVALUE`
abbrev pub or_novalue : Option Str → Str
or_novalue none = novalue
or_novalue (some v) = v

module _ (L : Libcommon) where
  open L use {place}

  -- On what `hash_find` gives for the key: a new empty hostlist under the key if that is NULL,
  -- and then the hosts pushed at the end of the hostlist. The flag says that the key is a copied
  -- buffer.
  unfoldable pub push_found : ℕ → Bool → Str → Hostlist → IndexTable → Option Hostlist → IndexTable
  push_found size copied key hosts table (some hl) = record table {
    index = hash_store table.index key (hl ++ hosts);
  }
  push_found size copied key hosts table none = record {
    index = hash_store (place Hostlist size key [] table.index) key hosts;
    buflist = if copied then table.buflist ++ key ∷ [] else table.buflist;
  }

  unfoldable pub push_under : ℕ → Bool → Str → Hostlist → IndexTable → IndexTable
  push_under size copied key hosts table =
      push_found size copied key hosts table (hash_find table.index key)

  -- The loop over the nodes of a line whose value holds a substitution.
  unfoldable pub index_nodes : ℕ → Str → Hostlist → IndexTable → M IndexTable
  index_nodes size v [] table = pure table
  index_nodes size v (node ∷ nodes) table = do
    valptr ← get_valptr node v true
    index_nodes size v nodes (push_under size valptr.1 valptr.0 (node ∷ []) table)

  -- The push of a whole line. `hostlist_push_list` returns 0 for an empty list.
  unfoldable pub index_list : ℕ → Str → Hostlist → IndexTable → M IndexTable
  index_list size key [] table = fail_with err_internal
  index_list size key (n ∷ ns) table = pure (push_under size false key (n ∷ ns) table)

  -- A line that has the attribute.
  unfoldable pub index_line : ℕ → Hosts → Attrval → IndexTable → M IndexTable
  index_line size gh av table =
      if av.val_contains_subst
      then index_nodes size (text av.val) gh.hl table
      else index_list size (or_novalue av.val) gh.hl table

  -- The loop over the lines of the database.
  unfoldable pub index_hosts : ℕ → Str → List Hosts → IndexTable → M IndexTable
  index_hosts size attr [] table = pure table
  index_hosts size attr (gh ∷ hosts) table = elim (hash_find gh.attrval_index attr) [
    | none ↦ index_hosts size attr hosts table
    | some av ↦ do table' ← index_line size gh av table; index_hosts size attr hosts table'
  ]

  -- The new index takes the place of the previous one.
  abbrev install : Str → IndexTable → M (Unit {0})
  install attr table h = (
    some tt,
    record h {
      errnum = err_success;
      attrval_index = some table.index;
      attrval_index_attr = some attr;
      attrval_buflist = some table.buflist;
    },
  )

  -- The index of an attribute, where the database has nodes.
  unfoldable pub build_index : Str → M (Unit {0})
  build_index attr h =
      (do
        table ← index_hosts h.numnodes attr h.genders_hosts (record { index = []; buflist = [] })
        install attr table)
        h

  -- `genders_index_attrvals`
  unfoldable pub index_attrvals : Option Str → M (Unit {0})
  index_attrvals attr = do
    loaded_handle_error_check
    require (not (is_missing attr)) err_parameters
    known ← isattr attr
    require known err_notfound
    λ h.
        (if is_some h.attrval_index && index_is_on h (text attr)
            then done_with err_success tt
            else if h.numnodes == 0
            then done_with err_success tt
            else build_index (text attr))
          h
