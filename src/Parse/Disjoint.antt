-- ===== src/Parse/Disjoint.antt =====
-- `_duplicate_attr_checks`: what a line that passes them has in common with the earlier lines.
use genders.Base.{
  ℕ, true, List, [], ◌∷◌, ◌≡◌, ◌≢◌, refl, ◌∙◌, arith, any, is_some, Bool-cases, inl, inr, Str,
  str_eq, str_eq_iff,
}
use genders.Libcommon.{Hash, Hostlist, hash_find, hash_for_each, hostlist_has}
use genders.Handle.{Hosts, Attrval}
use genders.Parse.State.{Parser, ok}
use genders.Parse.Duplicates.{
  hostlist_intersect, attr_lookup, attrval_intersect, duplicate_attr_checks,
}

-- No node gets an attribute from both lines.
abbrev pub AreDisjoint : Hosts → Hostlist → Hash Attrval → Type 0
AreDisjoint gh hl index =
    (n a : Str)
    → hostlist_has gh.hl n ≡ true
    → hostlist_has hl n ≡ true
    → is_some (hash_find gh.attrval_index a) ≡ true
    → is_some (hash_find index a) ≡ true
    → ⊥

-- A host in both lists makes a search of one in the other succeed.
any_common :
    (hl1 hl2 : Hostlist) (n : Str)
    → hostlist_has hl1 n ≡ true
    → hostlist_has hl2 n ≡ true
    → any (hostlist_has hl2) hl1 ≡ true
any_common [] hl2 n e f = cc
any_common (x ∷ hl1) hl2 n e f = elim (Bool-cases (str_eq x n)) [
  | inl s ↦ let same : x ≡ n = (str_eq_iff x n).0 s in rw same (ground arith)
  | inr d ↦ ground (arith, any_common hl1 hl2 n)
]

intersect_common :
    (hl1 hl2 : Hostlist) (n : Str)
    → hostlist_has hl1 n ≡ true
    → hostlist_has hl2 n ≡ true
    → hostlist_intersect hl1 hl2 ≡ true
unfolding hostlist_intersect
intersect_common hl1 hl2 n e f = ground (arith, any_common hl1 hl2 n e f, any_common hl2 hl1 n f e)

-- An attribute in both tables is counted.
lookup_common :
    (index lookup : Hash Attrval) (line_num : ℕ) (p : Parser) (a : Str)
    → is_some (hash_find index a) ≡ true
    → is_some (hash_find lookup a) ≡ true
    → (hash_for_each (attr_lookup lookup line_num) index p).1 ≢ 0
unfolding attr_lookup
lookup_common [] lookup line_num p a e f = cc
lookup_common ((k, v) ∷ index) lookup line_num p a e f =
    let p' = (attr_lookup lookup line_num k v p).0 in
    elim (Bool-cases (is_some (hash_find lookup k))) [
      | inl here ↦ rw here (omega arith)
      | inr away ↦ elim (Bool-cases (str_eq k a)) [
        | inl s ↦
            let known : is_some (hash_find lookup k) ≡ true = rw ((str_eq_iff k a).0 s) f in cc
        | inr d ↦ rw away (lookup_common index lookup line_num p a (rw d at e) f)
      ]
    ]

attrval_intersect_common :
    (index1 index2 : Hash Attrval) (line_num : ℕ) (p : Parser) (a : Str)
    → is_some (hash_find index1 a) ≡ true
    → is_some (hash_find index2 a) ≡ true
    → (attrval_intersect index1 index2 line_num p).0 ≡ true
unfolding attrval_intersect
attrval_intersect_common index1 index2 line_num p a e f = ground (
  arith,
  lookup_common index1 index2 line_num p a e f,
  lookup_common index2 index1 line_num p a f e,
)

-- A line that passes the checks is disjoint from all earlier lines.
abbrev pub AllDisjoint : List Hosts → Hostlist → Hash Attrval → Type 0
AllDisjoint [] hl index = Unit
AllDisjoint (gh ∷ rest) hl index = AreDisjoint gh hl index × AllDisjoint rest hl index

pub duplicate_attr_checks-AllDisjoint :
    (hosts : List Hosts) (hl : Hostlist) (index : Hash Attrval) (line_num : ℕ) (p : Parser)
    → (duplicate_attr_checks hosts hl index line_num p).0 ≡ ok tt
    → AllDisjoint hosts hl index
unfolding duplicate_attr_checks
duplicate_attr_checks-AllDisjoint [] hl index line_num p e = tt
duplicate_attr_checks-AllDisjoint (gh ∷ rest) hl index line_num p e =
    let p' = (attrval_intersect gh.attrval_index index line_num p).1 in
    elim (Bool-cases (hostlist_intersect gh.hl hl)) [
      | inr apart ↦ (
        λ n a h1 h2 a1 a2. let both = intersect_common gh.hl hl n h1 h2 in cc,
        duplicate_attr_checks-AllDisjoint rest hl index line_num p (rw apart at e),
      )
      | inl meet ↦ elim (Bool-cases (attrval_intersect gh.attrval_index index line_num p).0) [
        | inl duplicate ↦ absurd (ground arith)
        | inr fresh ↦ (
          λ n a h1 h2 a1 a2.
              let both = attrval_intersect_common gh.attrval_index index line_num p a a1 a2 in cc,
          duplicate_attr_checks-AllDisjoint rest hl index line_num p' (rw (meet, fresh) at e),
        )
      ]
    ]

-- The checks print and set the error code, and change nothing else.
lookups-hosts :
    (index lookup : Hash Attrval) (line_num : ℕ) (p : Parser)
    → let q = (hash_for_each (attr_lookup lookup line_num) index p).0 in
      (q.genders_hosts ≡ p.genders_hosts) × (q.attrs ≡ p.attrs)
unfolding attr_lookup
lookups-hosts [] lookup line_num p = (refl, refl)
lookups-hosts ((k, v) ∷ index) lookup line_num p =
    let p' = (attr_lookup lookup line_num k v p).0 in
    let (e1, e2) = lookups-hosts index lookup line_num p' in (e1 ∙ ground arith, e2 ∙ ground arith)

attrval_intersect-hosts :
    (index1 index2 : Hash Attrval) (line_num : ℕ) (p : Parser)
    → let q = (attrval_intersect index1 index2 line_num p).1 in
      (q.genders_hosts ≡ p.genders_hosts) × (q.attrs ≡ p.attrs)
unfolding attrval_intersect
attrval_intersect-hosts index1 index2 line_num p =
    ground (arith, lookups-hosts index1 index2 line_num p, lookups-hosts index2 index1 line_num p)

pub duplicate_attr_checks-hosts :
    (hosts : List Hosts) (hl : Hostlist) (index : Hash Attrval) (line_num : ℕ) (p : Parser)
    → let q = (duplicate_attr_checks hosts hl index line_num p).1 in
      (q.genders_hosts ≡ p.genders_hosts) × (q.attrs ≡ p.attrs)
unfolding duplicate_attr_checks
duplicate_attr_checks-hosts [] hl index line_num p = (refl, refl)
duplicate_attr_checks-hosts (gh ∷ rest) hl index line_num p =
    let p' = (attrval_intersect gh.attrval_index index line_num p).1 in
    ground (
      arith,
      attrval_intersect-hosts gh.attrval_index index line_num p,
      duplicate_attr_checks-hosts rest hl index line_num p,
      duplicate_attr_checks-hosts rest hl index line_num p',
    )
