-- ===== src/Parse/Lengths/Checks.antt =====
-- What the duplicate checks, which change the error code and the output only, leave alone.
use genders.Base.{
  Bool, true, false, ℕ, ℤ, List, [], ◌∷◌, ◌==◌, ltb, Bool-cases, inl, inr, Str, length, is_some,
  if◌then◌else◌,
}
use genders.Libcommon.{Hash, Hostlist, hash_find, hash_for_each}
use genders.Handle.{Hosts, Attrval, err_parse}
use genders.Parse.State.{Parser, Message}
use genders.Parse.Duplicates.{
  hostlist_intersect, attr_lookup, attrval_intersect, duplicate_attr_checks,
}

-- A property that reads neither.
module _ (Q : Parser → Type 0)
    (same : (p : Parser) (e : ℤ) (s : List (ℕ × Message))
      → Q p
      → Q (record p { errnum = e; stream = s })) where
  attr_lookup_keeps :
      (lookup : Hash Attrval) (line_num : ℕ) (k : Str) (v : Attrval) (p : Parser)
      → Q p
      → Q (attr_lookup lookup line_num k v p).0
  unfolding attr_lookup
  attr_lookup_keeps lookup line_num k v p q = elim (Bool-cases (is_some (hash_find lookup k))) [
    | inr e ↦ rw e q
    | inl e ↦
        rw e (elim (Bool-cases (line_num == 0)) [
          | inl z ↦ rw z q
          | inr z ↦ rw z (same p p.errnum _ q)
        ])
  ]

  lookups_keep :
      (index lookup : Hash Attrval) (line_num : ℕ) (p : Parser)
      → Q p
      → Q (hash_for_each (attr_lookup lookup line_num) index p).0
  lookups_keep [] lookup line_num p q = q
  lookups_keep ((k, v) ∷ index) lookup line_num p q =
      lookups_keep index lookup line_num _ (attr_lookup_keeps lookup line_num k v p q)

  counted_keep :
      (ret : ℕ) (p : Parser)
      → Q p
      → let r : Bool × Parser =
          if ret == 0 then (false, p) else (true, record p { errnum = err_parse }) in
        Q r.1
  counted_keep ret p q = elim (Bool-cases (ret == 0)) [
    | inl e ↦ rw e q
    | inr e ↦ rw e (same p err_parse p.stream q)
  ]

  attrval_intersect_keeps :
      (index1 index2 : Hash Attrval) (line_num : ℕ) (p : Parser)
      → Q p
      → Q (attrval_intersect index1 index2 line_num p).1
  unfolding attrval_intersect
  attrval_intersect_keeps index1 index2 line_num p q =
      elim (Bool-cases (ltb (length index2) (length index1))) [
        | inl e ↦ rw e (
            counted_keep (hash_for_each (attr_lookup index1 line_num) index2 p).1 _
              (lookups_keep index2 index1 line_num p q))
        | inr e ↦ rw e (
            counted_keep (hash_for_each (attr_lookup index2 line_num) index1 p).1 _
              (lookups_keep index1 index2 line_num p q))
      ]

  pub duplicate_attr_checks_keep :
      (hosts : List Hosts) (hl : Hostlist) (index : Hash Attrval) (line_num : ℕ) (p : Parser)
      → Q p
      → Q (duplicate_attr_checks hosts hl index line_num p).1
  unfolding duplicate_attr_checks
  duplicate_attr_checks_keep [] hl index line_num p q = q
  duplicate_attr_checks_keep (gh ∷ rest) hl index line_num p q =
      let q' = attrval_intersect_keeps gh.attrval_index index line_num p q in
      elim (Bool-cases (hostlist_intersect gh.hl hl)) [
        | inr apart ↦ rw apart (duplicate_attr_checks_keep rest hl index line_num p q)
        | inl meet ↦
            rw meet (elim (Bool-cases (attrval_intersect gh.attrval_index index line_num p).0) [
              | inr fresh ↦ rw fresh (duplicate_attr_checks_keep rest hl index line_num _ q')
              | inl twice ↦
                  rw twice (elim (Bool-cases (line_num == 0)) [ inl z ↦ rw z q' | inr z ↦ rw z q' ])
            ])
      ]
