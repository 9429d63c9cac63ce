-- ===== src/Parse/Accepts.antt =====
-- `_duplicate_attr_checks` accepts exactly the lines that have nothing in common with the earlier
-- ones.
use genders.Base.{
  ℕ, ◌↔◌, Bool, true, false, List, [], ◌∷◌, ◌≡◌, refl, arith, any, length, is_some, ltb, ◌==◌,
  Bool-cases, inl, inr, Str, str_eq, str_eq_refl,
}
use genders.Libcommon.{Hash, Hostlist, hash_find, hash_for_each, hostlist_has}
use genders.Handle.{Hosts, Attrval}
use genders.Parse.State.{Parser, ok}
use genders.Parse.Duplicates.{
  hostlist_intersect, attr_lookup, attrval_intersect, duplicate_attr_checks,
}
use genders.Parse.Disjoint.{AllDisjoint, duplicate_attr_checks-AllDisjoint}

any_host :
    (p : Str → Bool) (hl : Hostlist)
    → any p hl ≡ true
    → (n : Str) × (hostlist_has hl n ≡ true) × (p n ≡ true)
any_host p [] e = absurd cc
any_host p (x ∷ hl) e = elim (Bool-cases (p x)) [
  | inl here ↦ (x, ground (arith, str_eq_refl x), here)
  | inr away ↦ let (n, h, pn) = any_host p hl (rw away at e) in (n, ground arith, pn)
]

-- Lists that meet have a host in common.
intersect_host :
    (hl1 hl2 : Hostlist)
    → hostlist_intersect hl1 hl2 ≡ true
    → (n : Str) × (hostlist_has hl1 n ≡ true) × (hostlist_has hl2 n ≡ true)
unfolding hostlist_intersect
intersect_host hl1 hl2 e = elim (Bool-cases (ltb (length hl2) (length hl1))) [
  | inl s ↦ let (n, h2, h1) = any_host (hostlist_has hl1) hl2 (rw s at e) in (n, h1, h2)
  | inr s ↦ any_host (hostlist_has hl2) hl1 (rw s at e)
]

-- A search that counts an item has found an attribute in both tables.
lookup_attr :
    (index lookup : Hash Attrval) (line_num : ℕ) (p : Parser)
    → ((hash_for_each (attr_lookup lookup line_num) index p).1 == 0) ≡ false
    → (a : Str) × (is_some (hash_find index a) ≡ true) × (is_some (hash_find lookup a) ≡ true)
unfolding attr_lookup
lookup_attr [] lookup line_num p e = absurd cc
lookup_attr ((k, v) ∷ index) lookup line_num p e =
    elim (Bool-cases (is_some (hash_find lookup k))) [
      | inl here ↦ (k, rw (str_eq_refl k) refl, here)
      | inr away ↦
          let (a, i, l) = lookup_attr index lookup line_num p (rw away at e) in
          (a, elim (Bool-cases (str_eq k a)) [ inl s ↦ rw s refl | inr s ↦ rw s i ], l)
    ]

intersect_attr :
    (index1 index2 : Hash Attrval) (line_num : ℕ) (p : Parser)
    → (attrval_intersect index1 index2 line_num p).0 ≡ true
    → (a : Str) × (is_some (hash_find index1 a) ≡ true) × (is_some (hash_find index2 a) ≡ true)
unfolding attrval_intersect
intersect_attr index1 index2 line_num p e =
    elim (Bool-cases (ltb (length index2) (length index1))) [
      | inl s ↦ let (a, i, l) = lookup_attr index2 index1 line_num p (ground arith) in (a, l, i)
      | inr s ↦ lookup_attr index1 index2 line_num p (ground arith)
    ]

duplicate_attr_checks-accepts :
    (hosts : List Hosts) (hl : Hostlist) (index : Hash Attrval) (line_num : ℕ) (p : Parser)
    → AllDisjoint hosts hl index
    → (duplicate_attr_checks hosts hl index line_num p).0 ≡ ok tt
unfolding duplicate_attr_checks
duplicate_attr_checks-accepts [] hl index line_num p d = refl
duplicate_attr_checks-accepts (gh ∷ rest) hl index line_num p d =
    elim (Bool-cases (hostlist_intersect gh.hl hl)) [
      | inr apart ↦ rw apart (duplicate_attr_checks-accepts rest hl index line_num p d.1)
      | inl meet ↦ elim (Bool-cases (attrval_intersect gh.attrval_index index line_num p).0) [
        | inl duplicate ↦
            let (n, h1, h2) = intersect_host gh.hl hl meet in
            let (a, a1, a2) = intersect_attr gh.attrval_index index line_num p duplicate in
            absurd (d.0 n a h1 h2 a1 a2)
        | inr fresh ↦
            rw (meet, fresh)
              (duplicate_attr_checks-accepts rest hl index line_num
                (attrval_intersect gh.attrval_index index line_num p).1 d.1)
      ]
    ]

-- A line passes the checks exactly if no earlier line has both a host and an attribute in common
-- with it.
pub duplicate_attr_checks_iff :
    (hosts : List Hosts) (hl : Hostlist) (index : Hash Attrval) (line_num : ℕ) (p : Parser)
    → ((duplicate_attr_checks hosts hl index line_num p).0 ≡ ok tt) ↔ AllDisjoint hosts hl index
duplicate_attr_checks_iff hosts hl index line_num p = (
  duplicate_attr_checks-AllDisjoint hosts hl index line_num p,
  duplicate_attr_checks-accepts hosts hl index line_num p,
)
