-- ===== src/Parse/Rehash.antt =====
-- `_genders_rehash`: a larger table finds what the smaller one found.
use genders.Base.{
  ℕ, ◌+◌, ◌*◌, true, false, Option, none, some, [], ◌∷◌, ◌≡◌, refl, ◌∙◌, arith, length, is_some,
  ltb, Bool-cases, inl, inr, Str, str_eq, str_eq_iff, str_eq_comm,
}
use genders.Libcommon.{Libcommon, HashLaws, Hash, hash_find, HasDistinctKeys}
use genders.Parse.Attributes.{reinsert, grow}

-- The first table that holds a key.
abbrev pub or_else {ℓ} : {A : Type ℓ} → Option A → Option A → Option A
or_else (some a) other = some a
or_else none other = other

pub or_else-none {ℓ} : {A : Type ℓ} (o : Option A) → or_else o none ≡ o
or_else-none none = refl
or_else-none (some a) = refl

pub none_of_not_some {ℓ} : {A : Type ℓ} (o : Option A) → is_some o ≡ false → o ≡ none
none_of_not_some none h = refl
none_of_not_some (some a) h = cc

module _ (L : Libcommon) (laws : HashLaws L) where
  open laws use {find-place, length-place, place-HasDistinctKeys}

  -- No key of the first table is in the second.
  abbrev pub Apart : (V : Type 0) → Hash V → Hash V → Type 0
  Apart V [] new = Unit
  Apart V ((k, v) ∷ h) new = (is_some (hash_find new k) ≡ false) × Apart V h new

  pub Apart-place :
      (V : Type 0) (size : ℕ) (k : Str) (v : V) (h new : Hash V)
      → is_some (hash_find h k) ≡ false
      → is_some (hash_find new k) ≡ false
      → Apart V h new
      → Apart V h (L.place V size k v new)
  Apart-place V size k v [] new nk fresh a = tt
  Apart-place V size k v ((j, w) ∷ h) new nk fresh a = elim (Bool-cases (str_eq j k)) [
    | inl e ↦ let impossible : true ≡ false = rw e at nk in cc
    | inr e ↦ (
      rw (find-place V size k v new j (none_of_not_some (hash_find new k) fresh))
          (rw (str_eq_comm k j) (rw e a.0)),
      Apart-place V size k v h new (rw e at nk) fresh a.1,
    )
  ]

  pub find-reinsert :
      (V : Type 0) (size : ℕ) (h new : Hash V) (j : Str)
      → HasDistinctKeys h
      → Apart V h new
      → hash_find (reinsert L V size h new) j ≡ or_else (hash_find h j) (hash_find new j)
  unfolding reinsert
  find-reinsert V size [] new j d a = refl
  find-reinsert V size ((k, v) ∷ h) new j d a =
      find-reinsert V size h (L.place V size k v new) j d.1
        (Apart-place V size k v h new d.0 a.0 a.1)
      ∙ rw (find-place V size k v new j (none_of_not_some (hash_find new k) a.0))
          (elim (Bool-cases (str_eq k j)) [
            | inl e ↦
                let gone : hash_find h j ≡ none =
                  rw ((str_eq_iff k j).0 e) at (none_of_not_some (hash_find h k) d.0) in
                rw (e, gone)
            | inr e ↦ rw e
          ])

  reinsert-HasDistinctKeys :
      (V : Type 0) (size : ℕ) (h new : Hash V)
      → HasDistinctKeys h
      → HasDistinctKeys new
      → Apart V h new
      → HasDistinctKeys (reinsert L V size h new)
  unfolding reinsert
  reinsert-HasDistinctKeys V size [] new d d' a = d'
  reinsert-HasDistinctKeys V size ((k, v) ∷ h) new d d' a =
      reinsert-HasDistinctKeys V size h (L.place V size k v new) d.1
        (place-HasDistinctKeys V size k v new (none_of_not_some (hash_find new k) a.0) d')
        (Apart-place V size k v h new d.0 a.0 a.1)

  pub length-reinsert :
      (V : Type 0) (size : ℕ) (h new : Hash V)
      → length (reinsert L V size h new) ≡ length h + length new
  unfolding reinsert
  length-reinsert V size [] new = omega arith
  length-reinsert V size ((k, v) ∷ h) new =
      omega (arith, length-reinsert V size h (L.place V size k v new), length-place V size k v new)

  pub Apart-nil : (V : Type 0) (h : Hash V) → Apart V h []
  Apart-nil V [] = tt
  Apart-nil V ((k, v) ∷ h) = (refl, Apart-nil V h)

  -- Growing a table with distinct keys changes no lookup, keeps the keys distinct and keeps the
  -- number of items.
  pub grow-find :
      (V : Type 0) (h : Hash V) (size : ℕ)
      → HasDistinctKeys h
      → ((j : Str) → hash_find (grow L V h size).0 j ≡ hash_find h j)
        × HasDistinctKeys (grow L V h size).0
        × (length (grow L V h size).0 ≡ length h)
  unfolding grow
  grow-find V h size d = elim (Bool-cases (ltb (size * 2) (length h))) [
    | inr e ↦ rw e (λ j. refl, d, refl)
    | inl e ↦ rw e (
      λ j. find-reinsert V (size * 2) h [] j d (Apart-nil V h) ∙ or_else-none (hash_find h j),
      reinsert-HasDistinctKeys V (size * 2) h [] d tt (Apart-nil V h),
      omega (arith, length-reinsert V (size * 2) h []),
    )
  ]
