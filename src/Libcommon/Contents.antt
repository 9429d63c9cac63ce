-- ===== src/Libcommon/Contents.antt =====
-- The contents of hashes and hostlists, and the calls that the contents alone determine.
use genders.Base.{
  ℕ, ◌+◌, Bool, ◌||◌, Option, none, some, List, [], ◌∷◌, ◌++◌, ◌≡◌, refl, arith, Str, str_eq,
  str_eq_iff, if◌then◌else◌, any, any-append, select, ◌&&◌, Bool-cases, inl, inr, str_eq_refl,
}

-- `hash_t` with string keys.
abbrev pub Hash {ℓ} : Type ℓ → Type ℓ
Hash V = List (Str × V)

abbrev pub Hostlist : Type 0
Hostlist = List Str

module _ {ℓ} {V : Type ℓ} where
  -- `hash_find`
  abbrev pub hash_find : Hash V → Str → Option V
  hash_find [] k = none
  hash_find ((j, v) ∷ h) k = if str_eq j k then some v else hash_find h k

  -- `hash_for_each`: every item is visited; the result counts the calls that return true.
  abbrev pub hash_for_each {κ} : {S : Type κ} → (Str → V → S → S × Bool) → Hash V → S → S × ℕ
  hash_for_each f [] s = (s, 0)
  hash_for_each f ((k, v) ∷ h) s =
      let (s', good) = f k v s in
      let (s'', n) = hash_for_each f h s' in (s'', if good then n + 1 else n)

  -- A change of the data that an item points to; the item keeps its place.
  abbrev pub hash_store : Hash V → Str → V → Hash V
  hash_store [] k v = []
  hash_store ((j, w) ∷ h) k v = if str_eq j k then (j, v) ∷ h else (j, w) ∷ hash_store h k v

pub hash_find-store {ℓ} :
    {V : Type ℓ} (h : Hash V) (k : Str) (v w : V) (j : Str)
    → hash_find h k ≡ some w
    → hash_find (hash_store h k v) j ≡ (if str_eq k j then some v else hash_find h j)
hash_find-store [] k v w j e = cc
hash_find-store ((i, u) ∷ h) k v w j e =
    ground (arith, str_eq_iff i k, str_eq_iff i j, str_eq_iff k j, hash_find-store h k v w j)

-- The hosts of an item that may be absent.
abbrev pub hosts_under : Option Hostlist → Hostlist
hosts_under none = []
hosts_under (some hl) = hl

-- `hostlist_find(hl, host) >= 0`
abbrev pub hostlist_has : Hostlist → Str → Bool
hostlist_has hl host = any (λ x. str_eq x host) hl

pub hostlist_has-append :
    (xs ys : Hostlist) (n : Str)
    → hostlist_has (xs ++ ys) n ≡ (hostlist_has xs n || hostlist_has ys n)
hostlist_has-append xs ys n = any-append _ xs ys

-- The hosts that pass a test, as a test on hosts.
pub hostlist_has-select :
    (p : Str → Bool) (hl : Hostlist) (n : Str)
    → hostlist_has (select p hl) n ≡ (hostlist_has hl n && p n)
hostlist_has-select p [] n = refl
hostlist_has-select p (x ∷ hl) n = elim (Bool-cases (str_eq x n)) [
  | inl e ↦
      let same : x ≡ n = (str_eq_iff x n).0 e in
      rw (← same) (ground (arith, str_eq_refl x, rw (← same) at (hostlist_has-select p hl n)))
  | inr e ↦ ground (arith, hostlist_has-select p hl n)
]
