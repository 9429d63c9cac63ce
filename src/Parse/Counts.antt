-- ===== src/Parse/Counts.antt =====
-- In a loading run the number of attributes is counted right.
use genders.Base.{
  ℕ, ◌+◌, ◌*◌, not, Option, none, some, List, [], ◌∷◌, ◌≡◌, refl, ◌∙◌, arith, ltb, ◌==◌, ◌||◌, ◌&&◌,
  length, any, is_some, Bool-cases, inl, inr, Str, strstr, codes,
}
use genders.Libcommon.{Libcommon, HashLaws, Hash, Hostlist, hash_find, hash_for_each}
use genders.Parse.Disjoint.{duplicate_attr_checks-hosts}
use genders.Handle.{Hosts, Attrval, maxhostnamelen}
use genders.Parse.State.{Parser, P, Outcome, ok, bug, failed, proceed}
use genders.Parse.Text.{skip_space, strip_comment, strip_trailing, strsep, attr_tokens}
use genders.Parse.Duplicates.{attr_lookup, attrval_intersect, duplicate_attr_checks}
use genders.Parse.Attributes.{
  LineAttrs, genders_max, split_attr, count_attr, grow, insert_attrval, insert_attr, add_attr,
  parse_value, parse_attr, parse_attrs,
}
use genders.Parse.Line.{
  check_nodes, count_subst, no_attrs, parse_rest, add_hosts, add_read, parse_fields, parse_line,
}
use genders.Parse.Rehash.{length-reinsert}

-- The counter is the number of items of the table.
abbrev pub IsCounted : Parser → Type 0
IsCounted p = p.numattrs ≡ length p.attrs

-- It is after a call that does not return -1.
abbrev pub Counts {ℓ} : {A : Type ℓ} → Outcome A × Parser → Type 0
Counts (ok a, p) = IsCounted p
Counts (bug, p) = IsCounted p
Counts (failed, p) = Unit

proceed-Counts {ℓ κ} :
    {A : Type ℓ} {B : Type κ} (r : Outcome A × Parser) (f : A → P B)
    → Counts r
    → ((a : A) (p : Parser) → IsCounted p → Counts (f a p))
    → Counts (proceed r f)
proceed-Counts (ok a, p) f c k = k a p c
proceed-Counts (bug, p) f c k = c
proceed-Counts (failed, p) f c k = tt

-- Nodes and lines leave both alone.
check_nodes-Counts :
    (nodes : Hostlist) (m : ℕ) (p : Parser) → IsCounted p → Counts (check_nodes nodes 0 m p)
unfolding check_nodes
check_nodes-Counts [] m p c = c
check_nodes-Counts (node ∷ nodes) m p c = elim (Bool-cases (ltb maxhostnamelen (length node))) [
  | inl e ↦ rw e tt
  | inr e ↦ rw e (
      check_nodes-Counts nodes (genders_max (length node) m)
        (record p { maxnodelen = genders_max (length node) p.maxnodelen }) c)
]

same-Counts {ℓ} :
    {A : Type ℓ} (r : Outcome A × Parser) (p : Parser)
    → r.1.numattrs ≡ p.numattrs
    → r.1.attrs ≡ p.attrs
    → IsCounted p
    → Counts r
same-Counts (ok a, q) p en ea c = rw (en, ea) c
same-Counts (bug, q) p en ea c = rw (en, ea) c
same-Counts (failed, q) p en ea c = tt

lookups-numattrs :
    (index lookup : Hash Attrval) (line_num : ℕ) (p : Parser)
    → (hash_for_each (attr_lookup lookup line_num) index p).0.numattrs ≡ p.numattrs
unfolding attr_lookup
lookups-numattrs [] lookup line_num p = refl
lookups-numattrs ((k, v) ∷ index) lookup line_num p =
    lookups-numattrs index lookup line_num (attr_lookup lookup line_num k v p).0 ∙ ground arith

attrval_intersect-numattrs :
    (index1 index2 : Hash Attrval) (line_num : ℕ) (p : Parser)
    → (attrval_intersect index1 index2 line_num p).1.numattrs ≡ p.numattrs
unfolding attrval_intersect
attrval_intersect-numattrs index1 index2 line_num p =
    ground
      (arith, lookups-numattrs index1 index2 line_num p, lookups-numattrs index2 index1 line_num p)

duplicate_attr_checks-numattrs :
    (hosts : List Hosts) (hl : Hostlist) (index : Hash Attrval) (line_num : ℕ) (p : Parser)
    → (duplicate_attr_checks hosts hl index line_num p).1.numattrs ≡ p.numattrs
unfolding duplicate_attr_checks
duplicate_attr_checks-numattrs [] hl index line_num p = refl
duplicate_attr_checks-numattrs (gh ∷ rest) hl index line_num p =
    let p' = (attrval_intersect gh.attrval_index index line_num p).1 in
    ground (
      arith,
      attrval_intersect-numattrs gh.attrval_index index line_num p,
      duplicate_attr_checks-numattrs rest hl index line_num p,
      duplicate_attr_checks-numattrs rest hl index line_num p',
    )

duplicate_attr_checks-Counts :
    (hosts : List Hosts) (hl : Hostlist) (index : Hash Attrval) (p : Parser)
    → IsCounted p
    → Counts (duplicate_attr_checks hosts hl index 0 p)
duplicate_attr_checks-Counts hosts hl index p c =
    same-Counts (duplicate_attr_checks hosts hl index 0 p) p
      (duplicate_attr_checks-numattrs hosts hl index 0 p)
      (duplicate_attr_checks-hosts hosts hl index 0 p).1 c

count_subst-IsCounted : (n m : ℕ) (p : Parser) → IsCounted p → IsCounted (count_subst 0 n m p)
unfolding count_subst
count_subst-IsCounted n m p c = elim (Bool-cases (n == 0)) [ inl e ↦ rw e c | inr e ↦ rw e c ]

-- The counts of an attribute.
count_attr-Counts :
    (attr : Str) (val : Option Str) (inserted : ℕ) (line : LineAttrs) (p : Parser)
    → p.numattrs + inserted ≡ length p.attrs
    → Counts (count_attr attr val inserted line p)
unfolding count_attr
count_attr-Counts attr none inserted line p e = e
count_attr-Counts attr (some v) inserted line p e =
    elim (Bool-cases (strstr v (codes "%n") && not (strstr v (codes "%%n")))) [
      | inl s ↦ rw s e
      | inr s ↦ rw s e
    ]

module _ (L : Libcommon) (laws : HashLaws L) where
  length-grow : (V : Type 0) (h : Hash V) (size : ℕ) → length (grow L V h size).0 ≡ length h
  unfolding grow
  length-grow V h size = elim (Bool-cases (ltb (size * 2) (length h))) [
    | inr e ↦ rw e refl
    | inl e ↦ rw e (omega (arith, length-reinsert L laws V (size * 2) h []))
  ]

  -- The number that `_insert_attr` returns is how much the table has grown.
  insert_attr-length :
      (attr : Str) (p : Parser)
      → (n : ℕ) × (q : Parser) × (insert_attr L attr p ≡ (ok n, q))
        × (q.numattrs ≡ p.numattrs)
        × (length q.attrs ≡ length p.attrs + n)
  unfolding insert_attr
  insert_attr-length attr p = elim (Bool-cases (is_some (hash_find p.attrs attr))) [
    | inl e ↦ (0, p, rw e refl, refl, omega arith)
    | inr e ↦
        let (attrs, size) = grow L Str p.attrs p.attrs_size in
        (
          1,
          record p { attrs = L.place Str size attr attr attrs; attrs_size = size },
          rw e refl,
          refl,
          omega (
            arith,
            laws.length-place Str size attr attr attrs,
            length-grow Str p.attrs p.attrs_size,
          ),
        )
  ]

  add_attr-Counts :
      (attr : Str) (val : Option Str) (line : LineAttrs) (p : Parser)
      → IsCounted p
      → Counts (add_attr L attr val 0 line p)
  unfolding add_attr insert_attrval
  add_attr-Counts attr val line p c =
      let index = (grow L Attrval line.attrval_index line.attrval_index_size).0 in
      let (n, q, done, same, more) = insert_attr-length attr p in
      elim (Bool-cases (is_some (hash_find index attr))) [
        | inl e ↦ rw e tt
        | inr e ↦ rw (e, done) (count_attr-Counts attr val n _ q (omega (arith, same, more, c)))
      ]

  parse_value-Counts :
      (attr : Str) (val : Option Str) (line : LineAttrs) (p : Parser)
      → IsCounted p
      → Counts (parse_value L attr val 0 line p)
  unfolding parse_value
  parse_value-Counts attr none line p c = add_attr-Counts attr none line p c
  parse_value-Counts attr (some v) line p c = elim (Bool-cases (length v == 0)) [
    | inl e ↦ rw e tt
    | inr e ↦ rw e (add_attr-Counts attr (some v) line p c)
  ]

  parse_attr-Counts :
      (token : Str) (line : LineAttrs) (p : Parser)
      → IsCounted p
      → Counts (parse_attr L token 0 line p)
  unfolding parse_attr
  parse_attr-Counts token line p c =
      let (attr, val) = split_attr token in
      elim (Bool-cases (length attr == 0)) [
        | inl e ↦ rw e tt
        | inr e ↦ rw e (parse_value-Counts attr val line p c)
      ]

  parse_attrs-Counts :
      (tokens : List Str) (line : LineAttrs) (p : Parser)
      → IsCounted p
      → Counts (parse_attrs L tokens 0 line p)
  unfolding parse_attrs
  parse_attrs-Counts [] line p c = c
  parse_attrs-Counts (token ∷ tokens) line p c =
      proceed-Counts (parse_attr L token 0 line p) (λ line'. parse_attrs L tokens 0 line')
        (parse_attr-Counts token line p c) (parse_attrs-Counts tokens)

  add_hosts-Counts :
      (hl : Hostlist) (line : LineAttrs) (p : Parser)
      → IsCounted p
      → Counts (add_hosts L hl 0 line p)
  unfolding add_hosts
  add_hosts-Counts hl line p c =
      proceed-Counts (duplicate_attr_checks p.genders_hosts hl line.attrval_index 0 p) _
        (duplicate_attr_checks-Counts p.genders_hosts hl line.attrval_index p c)
        (λ _ q cq.
          proceed-Counts (check_nodes hl 0 0 q) _ (check_nodes-Counts hl 0 q cq)
            (λ m r cr. count_subst-IsCounted line.max_n_subst_vallen m r cr))

  add_read-Counts :
      (read : Option Hostlist) (line : LineAttrs) (p : Parser)
      → IsCounted p
      → Counts (add_read L read 0 line p)
  unfolding add_read
  add_read-Counts none line p c = tt
  add_read-Counts (some hl) line p c = add_hosts-Counts hl line p c

  parse_rest-Counts :
      (rest : Option Str) (p : Parser) → IsCounted p → Counts (parse_rest L rest 0 p)
  unfolding parse_rest
  parse_rest-Counts none p c = c
  parse_rest-Counts (some rest) p c =
      let line = skip_space rest in
      elim (Bool-cases (length line == 0)) [
        | inl e ↦ rw e c
        | inr e ↦
            rw e (elim (Bool-cases (any (λ c. c == b' ') line || any (λ c. c == b'\t') line)) [
              | inl blank ↦ rw blank tt
              | inr plain ↦ rw plain (parse_attrs-Counts (attr_tokens line) no_attrs p c)
            ])
      ]

  pub parse_line-Counts : (line : Str) (p : Parser) → IsCounted p → Counts (parse_line L line 0 p)
  unfolding parse_line parse_fields
  parse_line-Counts line p c =
      let kept = strip_trailing (strip_comment line) in
      let (nodenames, rest) = strsep (skip_space kept) (b' ' ∷ b'\t' ∷ []) in
      elim (Bool-cases (length kept == 0)) [
        | inl e ↦ rw e c
        | inr e ↦ rw e (
            proceed-Counts (parse_rest L rest 0 p) _ (parse_rest-Counts rest p c) (λ line' q cq.
              elim (Bool-cases (any (λ c. c == b'.') nodenames)) [
                | inl dot ↦ rw dot tt
                | inr short ↦ rw short (add_read-Counts (L.hosts_of nodenames) line' q cq)
              ]))
      ]
