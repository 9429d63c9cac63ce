-- ===== src/Nodeattr/Compress/Buffer.antt =====
-- The buffer of `compress_hosts` holds what `_flatten_attrsvals` writes into it.
use native.Mathlib.Nat.{ℕ_set, mul-suc, mul-le-mul_left, le_trans}
use mathlib.Core.Logic.{∥∥₁_elim}
use mathlib.Core.List.{Perm, Permᴰ}
use genders.Base.{
  ℕ, suc, ◌+◌, ◌*◌, ◌≤◌, List, [], ◌∷◌, ◌≡◌, refl, ◌∙◌, arith, Str, length, length-append, ℤ,
}
use genders.Nodeattr.Calls.{Calls}
use genders.Nodeattr.Hosts.{hash_key, attr_strings}
use genders.Nodeattr.Compress.{strcmp, with_commas}

-- `list_sort` puts the items into another order.
abbrev pub Sorts : Calls → Type 1
Sorts C = (A : Type 0) (cmp : A → A → ℤ) (l : List A) → Perm (C.list_sort A cmp l) l

length-with_commas_one :
    (s : Str) (ss : List Str)
    → length (with_commas (s ∷ ss)) ≡ length s + suc (length (with_commas ss))
unfolding with_commas
length-with_commas_one s ss = length-append s (b',' ∷ with_commas ss)

length-with_commas_cons :
    (s : Str) (xs ys : List Str)
    → length (with_commas xs) ≡ length (with_commas ys)
    → length (with_commas (s ∷ xs)) ≡ length (with_commas (s ∷ ys))
length-with_commas_cons s xs ys e =
    omega (arith, e, length-with_commas_one s xs, length-with_commas_one s ys)

length-with_commas_swap :
    (a b : Str) (l : List Str) → length (with_commas (a ∷ b ∷ l)) ≡ length (with_commas (b ∷ a ∷ l))
length-with_commas_swap a b l = omega (
  arith,
  length-with_commas_one a (b ∷ l),
  length-with_commas_one b l,
  length-with_commas_one b (a ∷ l),
  length-with_commas_one a l,
)

length-with_commas_reordered :
    {xs ys : List Str} → Permᴰ xs ys → length (with_commas xs) ≡ length (with_commas ys)
length-with_commas_reordered Permᴰ.nil = refl
length-with_commas_reordered (Permᴰ.cons {a} {b} {l₁ = xs} {l₂ = ys} e p) =
    rw e (length-with_commas_cons b xs ys (length-with_commas_reordered p))
length-with_commas_reordered (Permᴰ.swap {a' = a} {b' = b} {l} e f) =
    rw (e, f) (length-with_commas_swap b a l)
length-with_commas_reordered (Permᴰ.trans p q) =
    length-with_commas_reordered p ∙ length-with_commas_reordered q

length-with_commas_Perm :
    {xs ys : List Str} → Perm xs ys → length (with_commas xs) ≡ length (with_commas ys)
length-with_commas_Perm p = ∥∥₁_elim p (ℕ_set _ _) length-with_commas_reordered

-- The attributes and values of a node are no longer than the counters say.
abbrev pub AreWithin : ℕ → ℕ → List Str → List Str → Type 0
AreWithin maxattrlen maxvallen (attr ∷ attrs) (val ∷ vals) =
    (length attr ≤ maxattrlen)
    × (length val ≤ maxvallen)
    × AreWithin maxattrlen maxvallen attrs vals
AreWithin maxattrlen maxvallen _ _ = Unit {0}

length-hash_key :
    (attr val : Str) (a v : ℕ)
    → length attr ≤ a
    → length val ≤ v
    → length (hash_key attr val) ≤ a + 1 + v
length-hash_key attr [] a v ha hv = omega (arith, ha)
length-hash_key attr (c ∷ val) a v ha hv =
    let sum : length (hash_key attr (c ∷ val)) ≡ length attr + suc (suc (length val)) =
      length-append attr (b'=' ∷ c ∷ val) in
    omega (arith, sum)

length-with_commas :
    (a v : ℕ) (attrs vals : List Str)
    → AreWithin a v attrs vals
    → length (with_commas (attr_strings attrs vals)) ≤ (a + 2 + v) * length attrs
unfolding with_commas attr_strings
length-with_commas a v (attr ∷ attrs) (val ∷ vals) (ha, hv, h) = omega (
  arith,
  length-with_commas_one (hash_key attr val) (attr_strings attrs vals),
  length-hash_key attr val a v ha hv,
  length-with_commas a v attrs vals h,
  mul-suc (a + 2 + v) (length attrs),
)
length-with_commas a v [] vals h = omega arith
length-with_commas a v (attr ∷ attrs) [] h = omega arith

-- `_flatten_attrsvals` for a node of no more than `numattrs` attributes, which are no longer than
-- `maxattrlen` with values no longer than `maxvallen`: what its loop writes, with a comma behind
-- each attribute, fits the buffer of (maxattrlen + 2 + maxvallen) * numattrs bytes.
pub with_commas-fits :
    (C : Calls) (maxattrlen maxvallen numattrs : ℕ) (attrs vals : List Str)
    → Sorts C
    → length attrs ≤ numattrs
    → AreWithin maxattrlen maxvallen attrs vals
    → length (with_commas (C.list_sort Str strcmp (attr_strings attrs vals)))
      ≤ (maxattrlen + 2 + maxvallen) * numattrs
with_commas-fits C maxattrlen maxvallen numattrs attrs vals sorts few within =
    let same = length-with_commas_Perm (sorts Str strcmp (attr_strings attrs vals)) in
    rw same (
      le_trans (length-with_commas maxattrlen maxvallen attrs vals within)
        (mul-le-mul_left (maxattrlen + 2 + maxvallen) few))
