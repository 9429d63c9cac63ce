-- ===== src/Parse/Invariant.antt =====
-- What every line keeps true of the database, whether it is accepted or not.
use genders.Base.{
  ℕ, Bool, true, false, not, Option, none, some, List, [], ◌∷◌, ◌≡◌, refl, ◌∙◌, if◌then◌else◌,
  length, is_some, ◌==◌, Bool-cases, inl, inr, Str, str_eq, strstr, codes, ◌&&◌, str_eq_iff,
  str_eq_refl,
}
use genders.Libcommon.{Libcommon, HashLaws, Hash, hash_find, HasDistinctKeys}
use genders.Handle.{Hosts, Attrval}
use genders.Parse.State.{
  Parser, P, Outcome, ok, bug, failed, parse_error, proceed, Message, duplicate_attribute,
  empty_attribute, no_value,
}
use genders.Parse.Attributes.{
  LineAttrs, contains_subst, insert_attrval, insert_attr, count_attr, add_attr, parse_value,
  parse_attr, parse_attrs, grow, split_attr,
}
use genders.Parse.Rehash.{grow-find, none_of_not_some}
use genders.Parse.Disjoint.{AreDisjoint}

-- Every attribute of a table is in the table of all attributes.
abbrev pub KnownIn : Hash Str → Hash Attrval → Type 0
KnownIn attrs index =
    (a : Str) → is_some (hash_find index a) ≡ true → is_some (hash_find attrs a) ≡ true

-- Each line's attributes are known, and no two lines give one attribute to one node. The lines
-- stand in file order, so each is compared with the lines behind it.
abbrev pub AllKnown : Hash Str → List Hosts → Type 0
AllKnown attrs [] = Unit
AllKnown attrs (gh ∷ rest) = KnownIn attrs gh.attrval_index × AllKnown attrs rest

abbrev pub BehindDisjoint : Hosts → List Hosts → Type 0
BehindDisjoint gh [] = Unit
BehindDisjoint gh (g ∷ rest) = AreDisjoint gh g.hl g.attrval_index × BehindDisjoint gh rest

abbrev pub NoDuplicates : List Hosts → Type 0
NoDuplicates [] = Unit
NoDuplicates (gh ∷ rest) = BehindDisjoint gh rest × NoDuplicates rest

pub record IsWellFormed (attrs : Hash Str) (hosts : List Hosts) : Type 0 where
  pub distinct : HasDistinctKeys attrs
  pub known : AllKnown attrs hosts
  pub disjoint : NoDuplicates hosts

-- The state that a call leaves is well formed, and where the call succeeds its result has a
-- property too.
abbrev pub Ensures : {A : Type 0} → (A → Parser → Type 0) → Outcome A × Parser → Type 0
Ensures post (ok a, p) = IsWellFormed p.attrs p.genders_hosts × post a p
Ensures post (bug, p) = IsWellFormed p.attrs p.genders_hosts
Ensures post (failed, p) = IsWellFormed p.attrs p.genders_hosts

pub proceed-Ensures :
    {A B : Type 0} (post : A → Parser → Type 0) (post' : B → Parser → Type 0)
    (r : Outcome A × Parser) (f : A → P B)
    → Ensures post r
    → ((a : A) (p : Parser)
        → IsWellFormed p.attrs p.genders_hosts
        → post a p
        → Ensures post' (f a p))
    → Ensures post' (proceed r f)
proceed-Ensures post post' (ok a, p) f e k = k a p e.0 e.1
proceed-Ensures post post' (bug, p) f e k = e
proceed-Ensures post post' (failed, p) f e k = e

pub parse_error-Ensures :
    {A : Type 0} (post : A → Parser → Type 0) (line_num : ℕ) (m : Message) (p : Parser)
    → IsWellFormed p.attrs p.genders_hosts
    → Ensures post (parse_error line_num m p)
parse_error-Ensures post line_num m p w = elim (Bool-cases (line_num == 0)) [
  | inl e ↦ rw e w
  | inr e ↦ rw e w
]

-- A line under construction: its keys are distinct and known.
pub record LineFits (index : Hash Attrval) (attrs : Hash Str) : Type 0 where
  pub keys : HasDistinctKeys index
  pub known : KnownIn attrs index

abbrev pub FitsAfter : LineAttrs → Parser → Type 0
FitsAfter line p = LineFits line.attrval_index p.attrs

is_some_if {ℓ} :
    {A : Type ℓ} (b : Bool) (a : A) (o : Option A)
    → is_some o ≡ true
    → is_some (if b then some a else o) ≡ true
is_some_if true a o e = refl
is_some_if false a o e = e

-- A larger table of attributes knows what a smaller one knows.
AllKnown-more :
    (attrs attrs' : Hash Str) (hosts : List Hosts)
    → ((a : Str) → is_some (hash_find attrs a) ≡ true → is_some (hash_find attrs' a) ≡ true)
    → AllKnown attrs hosts
    → AllKnown attrs' hosts
AllKnown-more attrs attrs' [] more k = tt
AllKnown-more attrs attrs' (gh ∷ hosts) more k =
    ((λ a e. more a (k.0 a e)), AllKnown-more attrs attrs' hosts more k.1)

module _ (L : Libcommon) (laws : HashLaws L) where
  open laws use {find-place, place-HasDistinctKeys}

  -- `hash_insert` of a new key behind the test for growth.
  pub placed-find :
      (V : Type 0) (k : Str) (v : V) (h : Hash V) (size : ℕ)
      → HasDistinctKeys h
      → is_some (hash_find h k) ≡ false
      → let (g, s) = grow L V h size in
        ((j : Str)
          → hash_find (L.place V s k v g) j ≡ (if str_eq k j then some v else hash_find h j))
        × HasDistinctKeys (L.place V s k v g)
  placed-find V k v h size d fresh =
      let (g, s) = grow L V h size in
      let (same, dg, _) = grow-find L laws V h size d in
      let absent : hash_find g k ≡ none = same k ∙ none_of_not_some (hash_find h k) fresh in
      (λ j. find-place V s k v g j absent ∙ rw (same j), place-HasDistinctKeys V s k v g absent dg)

  -- A new attribute is known afterwards, and the others stay known.
  insert_attr-Ensures :
      (attr : Str) (index : Hash Attrval) (p : Parser)
      → IsWellFormed p.attrs p.genders_hosts
      → KnownIn p.attrs index
      → Ensures
          (λ _ q. KnownIn q.attrs index × (is_some (hash_find q.attrs attr) ≡ true))
          (insert_attr L attr p)
  unfolding insert_attr
  insert_attr-Ensures attr index p w k = elim (Bool-cases (is_some (hash_find p.attrs attr))) [
    | inl old ↦ rw old (w, (k, old))
    | inr new ↦
        let (find, d) = placed-find Str attr attr p.attrs p.attrs_size w.distinct new in
        let more : (a : Str)
            → is_some (hash_find p.attrs a) ≡ true
            → is_some (
                hash_find
                  (L.place Str (grow L Str p.attrs p.attrs_size).1 attr attr
                    (grow L Str p.attrs p.attrs_size).0)
                  a)
              ≡ true =
          λ a e. rw (find a) (is_some_if (str_eq attr a) attr (hash_find p.attrs a) e) in
        rw new (
          record {
            distinct = d;
            known = AllKnown-more p.attrs _ p.genders_hosts more w.known;
            disjoint = w.disjoint;
          },
          ((λ a e. more a (k a e)), rw (find attr, str_eq_refl attr)),
        )
  ]

  -- A table with one more key.
  abbrev Extends : Str → Hash Attrval → Hash Attrval → Type 0
  Extends attr old new =
      (a : Str)
      → is_some (hash_find new a) ≡ true
      → str_eq attr a ≡ false
      → is_some (hash_find old a) ≡ true

  insert_attrval-Ensures :
      (attr : Str) (val : Option Str) (line_num : ℕ) (line : LineAttrs) (p : Parser)
      → IsWellFormed p.attrs p.genders_hosts
      → FitsAfter line p
      → Ensures
          (λ line' q.
            KnownIn q.attrs line.attrval_index
            × HasDistinctKeys line'.attrval_index
            × Extends attr line.attrval_index line'.attrval_index)
          (insert_attrval L attr val line_num line p)
  unfolding insert_attrval
  insert_attrval-Ensures attr val line_num line p w fits =
      let (g, size) = grow L Attrval line.attrval_index line.attrval_index_size in
      let (same, _, _) =
        grow-find L laws Attrval line.attrval_index line.attrval_index_size fits.keys in
      elim (Bool-cases (is_some (hash_find g attr))) [
        | inl old ↦ rw old (parse_error-Ensures _ line_num (duplicate_attribute attr) p w)
        | inr new ↦
            let av : Attrval = record {
              attr = attr;
              val = val;
              val_contains_subst = contains_subst val;
            } in
            let (find, d) =
              placed-find Attrval attr av line.attrval_index line.attrval_index_size fits.keys
                (rw (same attr) at new) in
            rw new (w, (fits.known, d, λ a e ne. rw ne at (rw (find a) at e)))
      ]

  count_attr-Ensures :
      (attr : Str) (val : Option Str) (n : ℕ) (line : LineAttrs) (p : Parser)
      → IsWellFormed p.attrs p.genders_hosts
      → FitsAfter line p
      → Ensures FitsAfter (count_attr attr val n line p)
  unfolding count_attr
  count_attr-Ensures attr none n line p w fits = (w, fits)
  count_attr-Ensures attr (some v) n line p w fits =
      elim (Bool-cases (strstr v (codes "%n") && not (strstr v (codes "%%n")))) [
        | inl e ↦ rw e (w, fits)
        | inr e ↦ rw e (w, fits)
      ]

  add_attr-Ensures :
      (attr : Str) (val : Option Str) (line_num : ℕ) (line : LineAttrs) (p : Parser)
      → IsWellFormed p.attrs p.genders_hosts
      → FitsAfter line p
      → Ensures FitsAfter (add_attr L attr val line_num line p)
  unfolding add_attr
  add_attr-Ensures attr val line_num line p w fits =
      proceed-Ensures _ FitsAfter (insert_attrval L attr val line_num line p) _
        (insert_attrval-Ensures attr val line_num line p w fits)
        (λ line' q w' (known, keys, extends).
          proceed-Ensures _ FitsAfter (insert_attr L attr q) _
            (insert_attr-Ensures attr line.attrval_index q w' known)
            (λ n r w'' (known', here).
              let fits' : FitsAfter line' r = record {
                keys = keys;
                known = λ a e. elim (Bool-cases (str_eq attr a)) [
                  | inl s ↦ rw ((str_eq_iff attr a).0 s) at here
                  | inr d ↦ known' a (extends a e d)
                ];
              } in
              elim (Bool-cases (line_num == 0)) [
                | inl z ↦ rw z (count_attr-Ensures attr val n line' r w'' fits')
                | inr z ↦ rw z (w'', fits')
              ]))

  parse_value-Ensures :
      (attr : Str) (val : Option Str) (line_num : ℕ) (line : LineAttrs) (p : Parser)
      → IsWellFormed p.attrs p.genders_hosts
      → FitsAfter line p
      → Ensures FitsAfter (parse_value L attr val line_num line p)
  unfolding parse_value
  parse_value-Ensures attr none line_num line p w fits =
      add_attr-Ensures attr none line_num line p w fits
  parse_value-Ensures attr (some v) line_num line p w fits = elim (Bool-cases (length v == 0)) [
    | inl e ↦ rw e (parse_error-Ensures FitsAfter line_num (no_value attr) p w)
    | inr e ↦ rw e (add_attr-Ensures attr (some v) line_num line p w fits)
  ]

  parse_attr-Ensures :
      (token : Str) (line_num : ℕ) (line : LineAttrs) (p : Parser)
      → IsWellFormed p.attrs p.genders_hosts
      → FitsAfter line p
      → Ensures FitsAfter (parse_attr L token line_num line p)
  unfolding parse_attr
  parse_attr-Ensures token line_num line p w fits =
      let (attr, val) = split_attr token in
      elim (Bool-cases (length attr == 0)) [
        | inl e ↦ rw e (parse_error-Ensures FitsAfter line_num empty_attribute p w)
        | inr e ↦ rw e (parse_value-Ensures attr val line_num line p w fits)
      ]

  pub parse_attrs-Ensures :
      (tokens : List Str) (line_num : ℕ) (line : LineAttrs) (p : Parser)
      → IsWellFormed p.attrs p.genders_hosts
      → FitsAfter line p
      → Ensures FitsAfter (parse_attrs L tokens line_num line p)
  unfolding parse_attrs
  parse_attrs-Ensures [] line_num line p w fits = (w, fits)
  parse_attrs-Ensures (token ∷ tokens) line_num line p w fits =
      proceed-Ensures FitsAfter FitsAfter (parse_attr L token line_num line p) _
        (parse_attr-Ensures token line_num line p w fits)
        (λ line' q w' fits'. parse_attrs-Ensures tokens line_num line' q w' fits')
