-- ===== src/Parse/Lengths/Attributes.antt =====
-- The attributes of a line, in a loading run: each keeps within the lengths that are counted.
use genders.Base.{
  ℕ, ◌≤◌, not, ◌&&◌, Option, none, some, List, [], ◌∷◌, ◌≡◌, refl, ◌∙◌, sym, arith, length, is_some,
  Str, strstr, codes, str_eq, str_eq_iff, Bool-cases, inl, inr, if◌then◌else◌, ◌==◌,
}
use mathlib.Core.Option.{some-injective}
use genders.Libcommon.{Libcommon, HashLaws, Hash, hash_find, HasDistinctKeys}
use genders.Handle.{Attrval}
use genders.Parse.State.{Parser, ok}
use genders.Parse.Attributes.{
  LineAttrs, genders_max, contains_subst, insert_attrval, insert_attr, count_attr, add_attr,
  parse_value, parse_attr, parse_attrs, grow, split_attr,
}
use genders.Parse.Rehash.{grow-find}
use genders.Parse.Invariant.{placed-find}
use genders.Parse.Lengths.{
  PlainWithin, ItemsWithin, ItemsWithin-mono, Bounds, Bounds-mono, HasBounds, Keeps, proceed-Keeps,
  LineWithin, le-genders_max,
}

-- The length of the longest value, as `count_attr` leaves it.
abbrev counted_max : Option Str → ℕ → ℕ
counted_max none m = m
counted_max (some v) m =
    if strstr v (codes "%n") && not (strstr v (codes "%%n")) then m else genders_max (length v) m

le-counted_max : (val : Option Str) (m : ℕ) → m ≤ counted_max val m
le-counted_max none m = omega arith
le-counted_max (some v) m = ground arith

counted-PlainWithin :
    (val : Option Str) (m : ℕ) → PlainWithin (counted_max val m) (contains_subst val) val
unfolding contains_subst
counted-PlainWithin none m = tt
counted-PlainWithin (some v) m = λ e. ground arith

-- A table with one item more keeps within the larger bounds.
ItemsWithin-placed :
    (attr : Str) (val : Option Str) (av : Attrval) (ma mv : ℕ) (index index' : Hash Attrval)
    → PlainWithin (counted_max val mv) av.val_contains_subst av.val
    → ItemsWithin ma mv index
    → ((j : Str) → hash_find index' j ≡ (if str_eq attr j then some av else hash_find index j))
    → ItemsWithin (genders_max (length attr) ma) (counted_max val mv) index'
ItemsWithin-placed attr val av ma mv index index' plain w find a found e =
    elim (Bool-cases (str_eq attr a)) [
      | inl s ↦
          let same : attr ≡ a = (str_eq_iff attr a).0 s in
          let here : av ≡ found = let f = sym (find a) ∙ e in some-injective _ _ (rw s at f) in
          (rw (← same) (le-genders_max (length attr) ma).0, rw (← here) plain)
      | inr d ↦
          let f = sym (find a) ∙ e in
          ItemsWithin-mono ma (genders_max (length attr) ma) mv (counted_max val mv) index
            (le-genders_max (length attr) ma).1 (le-counted_max val mv) w a found (rw d at f)
    ]

-- `count_attr` raises the two lengths to those bounds.
count_attr-Keeps :
    (attr : Str) (val : Option Str) (n : ℕ) (line : LineAttrs) (p : Parser)
    → Bounds p.maxnodelen
        (genders_max (length attr) p.maxattrlen)
        (counted_max val p.maxvallen)
        p.hostnames
        p.genders_hosts
        p.attrs
    → HasDistinctKeys line.attrval_index
    → ItemsWithin
        (genders_max (length attr) p.maxattrlen)
        (counted_max val p.maxvallen)
        line.attrval_index
    → Keeps LineWithin (count_attr attr val n line p)
unfolding count_attr
count_attr-Keeps attr none n line p b d w = (b, (d, w))
count_attr-Keeps attr (some v) n line p b d w =
    elim (Bool-cases (strstr v (codes "%n") && not (strstr v (codes "%%n")))) [
      | inl e ↦ rw e (rw e at b, (d, rw e at w))
      | inr e ↦ rw e (rw e at b, (d, rw e at w))
    ]

module _ (L : Libcommon) (laws : HashLaws L) where
  insert_attr-Bounds :
      (attr : Str) (p : Parser) (mv : ℕ)
      → Bounds p.maxnodelen p.maxattrlen mv p.hostnames p.genders_hosts p.attrs
      → (n : ℕ) × (q : Parser) × (insert_attr L attr p ≡ (ok n, q))
        × (q.maxattrlen ≡ p.maxattrlen)
        × (q.maxvallen ≡ p.maxvallen)
        × Bounds q.maxnodelen
            (genders_max (length attr) p.maxattrlen)
            mv
            q.hostnames
            q.genders_hosts
            q.attrs
  unfolding insert_attr
  insert_attr-Bounds attr p mv b =
      let ma = genders_max (length attr) p.maxattrlen in
      let b' =
        Bounds-mono p.maxnodelen p.maxnodelen p.maxattrlen ma mv mv p.hostnames p.genders_hosts
          p.attrs (omega arith) (le-genders_max (length attr) p.maxattrlen).1 (omega arith) b in
      elim (Bool-cases (is_some (hash_find p.attrs attr))) [
        | inl old ↦ (0, p, rw old refl, refl, refl, b')
        | inr new ↦
            let (find, d) = placed-find L laws Str attr attr p.attrs p.attrs_size b.distinct new in
            let (attrs, size) = grow L Str p.attrs p.attrs_size in
            (
              1,
              record p { attrs = L.place Str size attr attr attrs; attrs_size = size },
              rw new refl,
              refl,
              refl,
              record {
                names = b'.names;
                lines = b'.lines;
                keys = λ a s e. elim (Bool-cases (str_eq attr a)) [
                  | inl k ↦
                      let same : attr ≡ a = (str_eq_iff attr a).0 k in
                      rw (← same) (le-genders_max (length attr) p.maxattrlen).0
                  | inr k ↦ let f = sym (find a) ∙ e in b'.keys a s (rw k at f)
                ];
                distinct = d;
              },
            )
      ]

  add_attr-Keeps :
      (attr : Str) (val : Option Str) (line : LineAttrs) (p : Parser)
      → HasBounds p
      → LineWithin line p
      → Keeps LineWithin (add_attr L attr val 0 line p)
  unfolding add_attr insert_attrval
  add_attr-Keeps attr val line p b (d, w) =
      let index = line.attrval_index in
      let (g, size) = grow L Attrval index line.attrval_index_size in
      let (same, _, _) = grow-find L laws Attrval index line.attrval_index_size d in
      let av : Attrval = record {
        attr = attr;
        val = val;
        val_contains_subst = contains_subst val;
      } in
      elim (Bool-cases (is_some (hash_find g attr))) [
        | inl old ↦ rw old tt
        | inr new ↦
            let (find, d') =
              placed-find L laws Attrval attr av index line.attrval_index_size d
                (rw (same attr) at new) in
            let (n, q, done, ea, ev, b') = insert_attr-Bounds attr p (counted_max val p.maxvallen) (
              Bounds-mono p.maxnodelen p.maxnodelen p.maxattrlen p.maxattrlen p.maxvallen
                (counted_max val p.maxvallen) p.hostnames p.genders_hosts p.attrs (omega arith)
                (omega arith) (le-counted_max val p.maxvallen) b) in
            rw (new, done)
              (count_attr-Keeps attr val n _ q (rw (ea, ev) b') d' (
                rw (ea, ev)
                  (ItemsWithin-placed attr val av p.maxattrlen p.maxvallen index _
                    (counted-PlainWithin val p.maxvallen) w find)))
      ]

  parse_value-Keeps :
      (attr : Str) (val : Option Str) (line : LineAttrs) (p : Parser)
      → HasBounds p
      → LineWithin line p
      → Keeps LineWithin (parse_value L attr val 0 line p)
  unfolding parse_value
  parse_value-Keeps attr none line p b w = add_attr-Keeps attr none line p b w
  parse_value-Keeps attr (some v) line p b w = elim (Bool-cases (length v == 0)) [
    | inl e ↦ rw e tt
    | inr e ↦ rw e (add_attr-Keeps attr (some v) line p b w)
  ]

  parse_attr-Keeps :
      (token : Str) (line : LineAttrs) (p : Parser)
      → HasBounds p
      → LineWithin line p
      → Keeps LineWithin (parse_attr L token 0 line p)
  unfolding parse_attr
  parse_attr-Keeps token line p b w =
      let (attr, val) = split_attr token in
      elim (Bool-cases (length attr == 0)) [
        | inl e ↦ rw e tt
        | inr e ↦ rw e (parse_value-Keeps attr val line p b w)
      ]

  pub parse_attrs-Keeps :
      (tokens : List Str) (line : LineAttrs) (p : Parser)
      → HasBounds p
      → LineWithin line p
      → Keeps LineWithin (parse_attrs L tokens 0 line p)
  unfolding parse_attrs
  parse_attrs-Keeps [] line p b w = (b, w)
  parse_attrs-Keeps (token ∷ tokens) line p b w =
      proceed-Keeps LineWithin LineWithin (parse_attr L token 0 line p) _
        (parse_attr-Keeps token line p b w) (parse_attrs-Keeps tokens)
