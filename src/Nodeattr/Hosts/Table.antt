-- ===== src/Nodeattr/Hosts/Table.antt =====
-- The hash from attributes to hosts, after the attributes of a node were put into it.
use genders.Base.{
  ℕ, Bool, ◌&&◌, ◌||◌, Option, none, some, List, [], ◌∷◌, ◌++◌, inl, inr, ◌≡◌, refl, ap, ◌∙◌, arith,
  Str, any, str_eq, str_eq_iff, Bool-cases,
}
use genders.Libcommon.{
  Libcommon, HashLaws, Hash, Hostlist, hash_find, hash_find-store, hosts_under, hostlist_has,
  hostlist_has-append,
}
use genders.Nodeattr.Process.{World, or_failed}
use genders.Nodeattr.Hosts.{hash_key, attr_strings, add_under, hash_allattrvals, hash_attrvals}

-- The hosts of a key.
abbrev pub is_under : Hash Hostlist → Str → Str → Bool
is_under hash key n = hostlist_has (hosts_under (hash_find hash key)) n

or_and_both : (a b c h : Bool) → (a || b && h || c && h) ≡ (a || (b || c) && h)
or_and_both a b c h = ground arith

module _ (L : Libcommon) (laws : HashLaws L) where
  add_under-under :
      (size : ℕ) (key : Str) (hosts : Hostlist) (found : Option Hostlist) (hash : Hash Hostlist)
      (j n : Str)
      → hash_find hash key ≡ found
      → is_under (add_under L size key hosts found hash) j n
        ≡ (is_under hash j n || str_eq key j && hostlist_has hosts n)
  add_under-under size key hosts none hash j n e = elim (Bool-cases (str_eq key j)) [
    | inl same ↦
        let equal : key ≡ j = (str_eq_iff key j).0 same in
        rw (laws.find-place Hostlist size key hosts hash j e, same, rw equal at e) refl
    | inr other ↦ rw (laws.find-place Hostlist size key hosts hash j e, other) (ground arith)
  ]
  add_under-under size key hosts (some hl) hash j n e = elim (Bool-cases (str_eq key j)) [
    | inl same ↦
        let equal : key ≡ j = (str_eq_iff key j).0 same in
        rw (hash_find-store hash key (hl ++ hosts) hl j e, same, rw equal at e)
          (hostlist_has-append hl hosts n)
    | inr other ↦ rw (hash_find-store hash key (hl ++ hosts) hl j e, other) (ground arith)
  ]

  -- The loop of `_hash_attrval` over the attributes and values of a node that `hostlist_push` can
  -- read: it ends, changes neither the databases nor the output, and a host then stands under a key
  -- exactly if it stood there before, or is a host of the node and the key is the text of one of
  -- the attributes with its value.
  pub hash_attrvals-under :
      (size : ℕ) (node : Str) (hosts : Hostlist) (attrs vals : List Str) (hash : Hash Hostlist)
      (w : World)
      → L.hosts_of node ≡ some hosts
      → (hash' : Hash Hostlist) × (hash_attrvals L size node attrs vals hash w ≡ (inr hash', w))
        × ((key n : Str)
            → is_under hash' key n ≡ (
                is_under hash key n
                || any (λ k. str_eq k key) (attr_strings attrs vals) && hostlist_has hosts n))
  unfolding hash_attrvals attr_strings hash_allattrvals or_failed
  hash_attrvals-under size node hosts (attr ∷ attrs) (val ∷ vals) hash w e =
      let key' = hash_key attr val in
      let next = add_under L size key' hosts (hash_find hash key') hash in
      let (hash', run, under) = hash_attrvals-under size node hosts attrs vals next w e in
      (
        hash',
        rw e run,
        λ key n.
            under key n
            ∙ ap
                (λ b.
                  b || any (λ k. str_eq k key) (attr_strings attrs vals) && hostlist_has hosts n)
                (add_under-under size key' hosts (hash_find hash key') hash key n refl)
            ∙ or_and_both (is_under hash key n) (str_eq key' key)
                (any (λ k. str_eq k key) (attr_strings attrs vals)) (hostlist_has hosts n),
      )
  hash_attrvals-under size node hosts [] vals hash w e = (hash, refl, λ key n. ground arith)
  hash_attrvals-under size node hosts (attr ∷ attrs) [] hash w e =
      (hash, refl, λ key n. ground arith)
