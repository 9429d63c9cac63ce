-- ===== src/Value/Bounds.antt =====
-- The size of the text that `_genders_get_valptr` writes into `handle->valbuf`, a buffer of
-- `maxvallen + 1` bytes.
use genders.Base.{
  ℕ, zero, suc, ◌+◌, ◌-◌, ◌*◌, ◌≤◌, ◌<◌, Bool, true, false, not, ◌&&◌, some, Option, [], ◌∷◌, ◌==◌,
  ◌≡◌, ap, arith, length, Bool-cases, inl, inr, Str,
}
use genders.Handle.{Handle}
use genders.Value.{subst_fits, raw_values, get_valptr}
use genders.Value.Expand.{
  expand, names, percents, length-expand, shown, is_readable, get_valptr-shown,
}

-- Every "%n" and every "%%" takes two bytes of the value.
names-percents-le : (v : Str) → 2 * names v + 2 * percents v ≤ length v
unfolding names percents
names-percents-le [] = omega arith
names-percents-le (c ∷ []) = omega arith
names-percents-le (c ∷ d ∷ v) = elim (Bool-cases (c == b'%')) [
  | inr e ↦ rw e (omega (arith, names-percents-le (d ∷ v)))
  | inl e ↦ rw e (elim (Bool-cases (d == b'%')) [
    | inl e' ↦ rw e' (omega (arith, names-percents-le v))
    | inr e' ↦ rw e' (elim (Bool-cases (d == b'n')) [
      | inl e'' ↦ rw e'' (omega (arith, names-percents-le v))
      | inr e'' ↦ rw e'' (omega (arith, names-percents-le (d ∷ v)))
    ])
  ])
]

-- With at most one "%n", the text is no longer than the value, or than the value with the node
-- in the place of the "%n".
length-expand-le :
    (node v : Str) (n : ℕ)
    → names v ≤ 1
    → length v ≤ n
    → length v - 2 + length node ≤ n
    → length (expand node v) ≤ n
length-expand-le node v n one short fits = elim (Bool-cases (names v == 0)) [
  | inl e ↦
      let z : names v ≡ 0 = ground arith in
      omega (arith, length-expand node v, ap (λ (t : ℕ). t * length node) z)
  | inr e ↦
      let o : names v ≡ 1 = ground arith in
      omega (arith, length-expand node v, names-percents-le v, ap (λ (t : ℕ). t * length node) o)
]

-- What passes the size test is readable.
readable_of_le :
    (h : Handle) (node v : Str) (contains_subst : Bool)
    → length v - 2 + length node ≤ h.maxvallen + 1
    → is_readable h node v contains_subst ≡ true
unfolding subst_fits
readable_of_le h node v contains_subst fits = ground arith

-- A value with at most one "%n" whose length, and whose length with the node put in, is within
-- `maxvallen` is returned, and the text returned is within `maxvallen`.
get_valptr_bounded :
    (h : Handle) (node v : Str) (contains_subst : Bool)
    → names v ≤ 1
    → length v ≤ h.maxvallen
    → length v - 2 + length node ≤ h.maxvallen
    → (w : Str) × (substituted : Bool) × (b : Option Str) × (get_valptr node v contains_subst h
        ≡ (some (w, substituted), record h { valbuf = b }))
      × (length w ≤ h.maxvallen)
get_valptr_bounded h node v contains_subst one short fits =
    let (b, e) =
      get_valptr-shown h node v contains_subst
        (readable_of_le h node v contains_subst (omega arith)) in
    (
      shown h node v contains_subst,
      contains_subst && not (raw_values h),
      b,
      e,
      ground (arith, length-expand-le node v h.maxvallen one short fits),
    )

-- The size test lets one byte too many pass: for a value with one "%n" and no "%%" whose text has
-- `maxvallen + 1` bytes the call succeeds, and its text fills the buffer of `maxvallen + 1` bytes
-- with no room for the terminating NUL.
get_valptr_fills_buffer :
    (h : Handle) (node v : Str)
    → raw_values h ≡ false
    → names v ≡ 1
    → percents v ≡ 0
    → length v - 2 + length node ≡ h.maxvallen + 1
    → (w : Str) × (b : Option Str) × (get_valptr node v true h
        ≡ (some (w, true), record h { valbuf = b }))
      × (length w ≡ h.maxvallen + 1)
get_valptr_fills_buffer h node v cooked one plain full =
    let (b, e) = get_valptr-shown h node v true (readable_of_le h node v true (omega arith)) in
    (
      expand node v,
      b,
      rw cooked at e,
      omega (arith, length-expand node v, names-percents-le v, ap (λ (t : ℕ). t * length node) one),
    )

-- Each further "%n" adds the node less two bytes.
overrun_lem :
    (n node v w : ℕ)
    → w + 2 * n ≡ v + n * node
    → 2 ≤ n
    → 4 ≤ node
    → 2 * n ≤ v
    → v - 2 + node + 1 < w
overrun_lem (suc (suc k)) node v w e two four le = grind arith
overrun_lem (suc zero) node v w e two four le = absurd (omega arith)
overrun_lem zero node v w e two four le = absurd (omega arith)

-- The size test counts one "%n" only. For a value with more than one, no "%%", and a node of four
-- bytes at least, where `maxvallen` is the length that the parser counts for the value and this
-- node: the call succeeds, and it has written more than the `maxvallen + 1` bytes of the buffer.
pub get_valptr_overruns :
    (h : Handle) (node v : Str)
    → raw_values h ≡ false
    → 2 ≤ names v
    → percents v ≡ 0
    → 4 ≤ length node
    → h.maxvallen ≡ length v - 2 + length node
    → (w : Str) × (b : Option Str) × (get_valptr node v true h
        ≡ (some (w, true), record h { valbuf = b }))
      × (h.maxvallen + 1 < length w)
get_valptr_overruns h node v cooked more plain long counted =
    let (b, e) = get_valptr-shown h node v true (readable_of_le h node v true (omega arith)) in
    (
      expand node v,
      b,
      rw cooked at e,
      rw counted (
          overrun_lem (names v) (length node) (length v) (length (expand node v))
            (omega (arith, length-expand node v)) more long (omega (arith, names-percents-le v))),
    )
