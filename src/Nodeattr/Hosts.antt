-- ===== src/Nodeattr/Hosts.antt =====
-- src/nodeattr/nodeattr.c: the hash from attributes to hosts, and `list_attrs`.
pub mod Table
use genders.Base.{
  ℕ, zero, suc, ◌+◌, ◌*◌, ℤ, pos, Bool, true, false, Option, none, some, List, [], ◌∷◌, ◌++◌, Str,
  codes, if◌then◌else◌,
}
use genders.Libcommon.{Libcommon, Hash, Hostlist, hash_find, hash_store}
use genders.Array.{Array, attrlist_create, attrlist_destroy, vallist_create, vallist_destroy}
use genders.Array.Writes.{stored}
use genders.Attrs.{getattr, getattr_all}
use genders.Load.{getnumattrs}
use genders.Nodeattr.Process.{
  World, P, pure, exit, ◌>>=◌, ◌>>◌, printf, eprintf, call, call_only, or_failed,
}
use genders.Nodeattr.Diff.{refilled, cells_of}
use genders.Nodeattr.Values.{print_lines}

-- The key that `_hash_attrval` writes.
abbrev pub hash_key : Str → Str → Str
hash_key attr [] = attr
hash_key attr (c ∷ val) = attr ++ b'=' ∷ c ∷ val

-- The strings of `_flatten_attrsvals` behind its loop over the arrays.
unfoldable pub attr_strings : List Str → List Str → List Str
attr_strings (attr ∷ attrs) (val ∷ vals) = hash_key attr val ∷ attr_strings attrs vals
attr_strings _ _ = []

abbrev pub hash_keys {ℓ} : {V : Type ℓ} → Hash V → List Str
hash_keys [] = []
hash_keys ((k, v) ∷ h) = k ∷ hash_keys h

module _ (L : Libcommon) where
  open L use {place, hosts_of}

  -- The hosts of a key, and more; the key is new where no item has it.
  abbrev pub add_under : ℕ → Str → Hostlist → Option Hostlist → Hash Hostlist → Hash Hostlist
  add_under size key hosts none hash = place Hostlist size key hosts hash
  add_under size key hosts (some hl) hash = hash_store hash key (hl ++ hosts)

  abbrev pub put_pushed : ℕ → Str → Option Hostlist → Hash Hostlist → Option (Hash Hostlist)
  put_pushed size key none hash = none
  put_pushed size key (some hosts) hash = some (add_under size key hosts (hash_find hash key) hash)

  -- `_hash_allattrvals`, and `_hash_attrval` behind the making of its key; `none` where
  -- `hostlist_push` returns 0.
  unfoldable pub hash_allattrvals : ℕ → Str → Str → Hash Hostlist → Option (Hash Hostlist)
  hash_allattrvals size node key hash = put_pushed size key (hosts_of node) hash

  -- `_hash_attrval`
  abbrev pub hash_attrval : ℕ → Str → Str → Str → Hash Hostlist → Option (Hash Hostlist)
  hash_attrval size node attr val hash = hash_allattrvals size node (hash_key attr val) hash

  -- The loop of `_hash_attrval` over the attributes and values of a node.
  unfoldable pub hash_attrvals : ℕ → Str → List Str → List Str → Hash Hostlist → P (Hash Hostlist)
  hash_attrvals size node (attr ∷ attrs) (val ∷ vals) hash = do
    hash' ← or_failed (codes "hostlist_push") (hash_attrval size node attr val hash)
    hash_attrvals size node attrs vals hash'
  hash_attrvals size node _ _ hash = pure hash

  -- The loop of `list_attrs` over the hosts of its argument. The two arrays are not cleared.
  unfoldable pub attrs_of_hosts :
      ℕ → ℕ → List Str → Option Array → Option Array → Hash Hostlist → P (Hash Hostlist)
  attrs_of_hosts size len [] attrs vals hash = pure hash
  attrs_of_hosts size len (anode ∷ anodes) attrs vals hash = do
    got ← call (getattr attrs vals (pos len) (some anode)) (codes "genders_getattr")
    hash' ← hash_attrvals size anode (stored got.0 got.1) (stored got.0 (cells_of got.2)) hash
    attrs_of_hosts size len anodes (refilled attrs got.1) got.2 hash'

  -- The order of `hostlist_pop`, from the last host on.
  abbrev pub popped : Hostlist → Hostlist → Hostlist
  popped [] acc = acc
  popped (n ∷ ns) acc = popped ns (n ∷ acc)

  -- `list_attrs`, for a node text that `hostlist_create` can read.
  unfoldable pub list_attrs : Option Hostlist → P (Unit {0})
  list_attrs nodelist = do
    attrs ← call (attrlist_create true) (codes "genders_attrlist_create")
    vals ← call (vallist_create true) (codes "genders_vallist_create")
    numattrs ← call getnumattrs (codes "genders_getnumattrs")
    elim nodelist [
      | some hosts ↦ (do
        hash ← attrs_of_hosts ((numattrs + 1) * 4) attrs.1 (popped hosts []) attrs.0 vals.0 []
        print_lines (hash_keys hash))
      | none ↦ (do
        all ← call (getattr_all attrs.0 (pos attrs.1)) (codes "genders_getattr_all")
        print_lines (stored all.0 all.1))
    ]
    call_only (attrlist_destroy attrs.0)
    call_only (vallist_destroy vals.0)
