-- ===== src/Nodeattr/Values/Unique.antt =====
-- The option `-U` of `list_attr_val`.
use genders.Base.{
  ℕ, ◌+◌, ℤ, pos, Bool, true, false, ◌||◌, Option, some, List, [], ◌∷◌, ◌++◌, ◌⊎◌, inl, inr, ◌≡◌,
  refl, sym, ap, ◌∙◌, arith, Str, codes, any, any-append, str_eq, str_eq_comm, str_eq_iff,
  Bool-cases,
}
use genders.Lookup.{text, testattr}
use genders.Nodeattr.Process.{World, P, proceed, call}
use genders.Nodeattr.Values.{store_value, values_loop}

-- No text stands twice.
abbrev pub AreDistinct : List Str → Type 0
AreDistinct [] = Unit {0}
AreDistinct (s ∷ ss) = (any (str_eq s) ss ≡ false) × AreDistinct ss

-- The same texts, without repetition.
abbrev pub IsSetOf : List Str → List Str → Type 0
IsSetOf unique vals = AreDistinct unique × ((s : Str) → any (str_eq s) unique ≡ any (str_eq s) vals)

AreDistinct-snoc :
    (ss : List Str) (s : Str)
    → AreDistinct ss
    → any (str_eq s) ss ≡ false
    → AreDistinct (ss ++ s ∷ [])
AreDistinct-snoc [] s d e = (refl, tt)
AreDistinct-snoc (t ∷ ss) s (f, d) e = (
  ground (arith, any-append (str_eq t) ss (s ∷ []), str_eq_comm s t, f, e),
  AreDistinct-snoc ss s d (ground (arith, e)),
)

already_there :
    (s val : Str) (unique vals : List Str)
    → any (str_eq val) unique ≡ true
    → any (str_eq s) unique ≡ any (str_eq s) vals
    → any (str_eq s) unique ≡ any (str_eq s) (vals ++ val ∷ [])
already_there s val unique vals e h = elim (Bool-cases (str_eq s val)) [
  | inl same ↦
      let equal : s ≡ val = (str_eq_iff s val).0 same in
      rw (any-append (str_eq s) vals (val ∷ []), ← h, same) (ground (arith, rw (← equal) at e))
  | inr other ↦ rw (any-append (str_eq s) vals (val ∷ []), ← h, other) (ground arith)
]

store_value-IsSetOf :
    (ret : Bool) (val : Str) (unique vals : List Str)
    → IsSetOf unique vals
    → IsSetOf (store_value true ret val unique) (store_value false ret val vals)
unfolding store_value
store_value-IsSetOf ret [] unique vals h = h
store_value-IsSetOf false (c ∷ val) unique vals h = h
store_value-IsSetOf true (c ∷ val) unique vals (d, h) =
    elim (Bool-cases (any (str_eq (c ∷ val)) unique)) [
      | inl e ↦ rw e (d, λ s. already_there s (c ∷ val) unique vals e (h s))
      | inr e ↦ rw e (
        AreDistinct-snoc unique (c ∷ val) d e,
        λ s.
            any-append (str_eq s) unique ((c ∷ val) ∷ [])
            ∙ ap (λ b. b || (str_eq s (c ∷ val) || false)) (h s)
            ∙ sym (any-append (str_eq s) vals ((c ∷ val) ∷ [])),
      )
    ]

-- A run of the loop with `-U` beside one without it, from the results of the calls on.
abbrev SameRun : (ℤ ⊎ List Str) × World → (ℤ ⊎ List Str) × World → Type 0
SameRun (inl status, w) (inl status', w') = (status ≡ status') × (w ≡ w')
SameRun (inr unique, w) (inr vals, w') = IsSetOf unique vals × (w ≡ w')
SameRun (inl status, w) (inr vals, w') = ⊥
SameRun (inr unique, w) (inl status, w') = ⊥

SameRun-proceed :
    (x : (ℤ ⊎ (Bool × Option Str)) × World) (f g : Bool × Option Str → P (List Str))
    → ((found : Bool × Option Str) (w : World) → SameRun (f found w) (g found w))
    → SameRun (proceed x f) (proceed x g)
SameRun-proceed (inl status, w) f g h = (refl, refl)
SameRun-proceed (inr found, w) f g h = h found w

values_loop-SameRun :
    (attr : Str) (maxvallen : ℕ) (nodes unique vals : List Str) (w : World)
    → IsSetOf unique vals
    → SameRun
        (values_loop attr true maxvallen nodes unique w)
        (values_loop attr false maxvallen nodes vals w)
unfolding values_loop
values_loop-SameRun attr maxvallen [] unique vals w h = (h, refl)
values_loop-SameRun attr maxvallen (node ∷ nodes) unique vals w h =
    SameRun-proceed
      (call (testattr (some node) (some attr) true (pos (maxvallen + 1))) (codes "genders_testattr")
        w)
      (λ found.
        values_loop attr true maxvallen nodes (store_value true found.0 (text found.1) unique))
      (λ found.
        values_loop attr false maxvallen nodes (store_value false found.0 (text found.1) vals))
      λ found w'.
        values_loop-SameRun attr maxvallen nodes _ _ w'
          (store_value-IsSetOf found.0 (text found.1) unique vals h)

inl_ne_inr {ℓ κ} : {A : Type ℓ} {B : Type κ} {a : A} {b : B} → ¬ (◌≡◌ {A = A ⊎ B} (inl a) (inr b))
inl_ne_inr e = absurd (cc)

inr_injective {ℓ κ} : {A : Type ℓ} {B : Type κ} {a b : B} → ◌≡◌ {A = A ⊎ B} (inr a) (inr b) → a ≡ b
inr_injective e = cc

SameRun-inr :
    (x y : (ℤ ⊎ List Str) × World) (vals : List Str) (w : World)
    → SameRun x y
    → y ≡ (inr vals, w)
    → (unique : List Str) × (x ≡ (inr unique, w)) × IsSetOf unique vals
SameRun-inr (inl status, w1) (inl status', w2) vals w r e = absurd (inl_ne_inr (ap (λ p. p.0) e))
SameRun-inr (inr unique, w1) (inr vals', w2) vals w (h, same) e =
    let same_vals : vals' ≡ vals = inr_injective (ap (λ p. p.0) e) in
    let same_world : w1 ≡ w = same ∙ ap (λ p. p.1) e in
    (unique, rw same_world refl, rw same_vals at h)
SameRun-inr (inl status, w1) (inr vals', w2) vals w r e = absurd r
SameRun-inr (inr unique, w1) (inl status, w2) vals w r e = absurd r

-- The loop of `list_attr_val` with `-U` on nodes whose values it lists without the option: it makes
-- the same calls, leaves the same state, and lists the same values, each of them once.
pub values_loop_unique :
    (attr : Str) (maxvallen : ℕ) (nodes vals : List Str) (w w' : World)
    → values_loop attr false maxvallen nodes [] w ≡ (inr vals, w')
    → (unique : List Str) × (values_loop attr true maxvallen nodes [] w ≡ (inr unique, w'))
      × IsSetOf unique vals
values_loop_unique attr maxvallen nodes vals w w' e =
    SameRun-inr _ _ vals w' (values_loop-SameRun attr maxvallen nodes [] [] w (tt, λ s. refl)) e
