-- ===== src/Value/Expand.antt =====
-- `_genders_get_valptr` against a definition of the substitution with no buffer.
use genders.Base.{
  ℕ, ◌+◌, ◌*◌, ◌<◌, Bool, true, false, not, ◌||◌, ◌&&◌, Option, none, some, [], ◌∷◌, ◌++◌, ◌==◌,
  ◌≡◌, refl, arith, if◌then◌else◌, length, length-append, Bool-cases, inl, inr, append-nil,
  append_assoc, Str,
}
use genders.Handle.{Handle, err_internal}
use genders.Value.{subst_loop, subst_fits, raw_values, get_valptr}

-- The value with every "%%" read as "%" and every "%n" as the node, from left to right.
unfoldable pub expand : Str → Str → Str
expand node [] = []
expand node (c ∷ []) = c ∷ []
expand node (c ∷ d ∷ v) =
    let short = expand node v in
    let long = expand node (d ∷ v) in
    if c == b'%'
    then if d == b'%' then b'%' ∷ short else if d == b'n' then node ++ short else c ∷ long
    else c ∷ long

-- How many "%n", and how many "%%", that reading meets.
unfoldable pub names : Str → ℕ
names [] = 0
names (c ∷ []) = 0
names (c ∷ d ∷ v) =
    let short = names v in
    let long = names (d ∷ v) in
    if c == b'%' then if d == b'%' then short else if d == b'n' then short + 1 else long else long

unfoldable pub percents : Str → ℕ
percents [] = 0
percents (c ∷ []) = 0
percents (c ∷ d ∷ v) =
    let short = percents v in
    let long = percents (d ∷ v) in
    if c == b'%' then if d == b'%' then short + 1 else if d == b'n' then short else long else long

-- With the size test passed the loop appends the expanded value to the buffer.
subst_loop-expand : (node v buf : Str) → subst_loop true node v buf ≡ (true, buf ++ expand node v)
unfolding subst_loop expand
subst_loop-expand node [] buf = rw append-nil
subst_loop-expand node (c ∷ []) buf = refl
subst_loop-expand node (c ∷ d ∷ v) buf = ground (
  arith,
  subst_loop-expand node v (buf ++ b'%' ∷ []),
  subst_loop-expand node v (buf ++ node),
  subst_loop-expand node (d ∷ v) (buf ++ c ∷ []),
  append_assoc buf (b'%' ∷ []) (expand node v),
  append_assoc buf node (expand node v),
  append_assoc buf (c ∷ []) (expand node (d ∷ v)),
)

-- A value without "%n" never meets the size test.
subst_loop-unused :
    (fits : Bool) (node v buf : Str)
    → names v ≡ 0
    → subst_loop fits node v buf ≡ (true, buf ++ expand node v)
unfolding subst_loop expand names
subst_loop-unused fits node [] buf h = rw append-nil
subst_loop-unused fits node (c ∷ []) buf h = refl
subst_loop-unused fits node (c ∷ d ∷ v) buf h = ground (
  arith,
  subst_loop-unused fits node v (buf ++ b'%' ∷ []),
  subst_loop-unused fits node (d ∷ v) (buf ++ c ∷ []),
  append_assoc buf (b'%' ∷ []) (expand node v),
  append_assoc buf (c ∷ []) (expand node (d ∷ v)),
)

-- With the size test failed the loop stops at the first "%n".
subst_loop-refused : (node v buf : Str) → 0 < names v → (subst_loop false node v buf).0 ≡ false
unfolding subst_loop names
subst_loop-refused node [] buf h = elim h [ ]
subst_loop-refused node (c ∷ []) buf h = absurd (omega arith)
subst_loop-refused node (c ∷ d ∷ v) buf h = ground (
  arith,
  subst_loop-refused node v (buf ++ b'%' ∷ []),
  subst_loop-refused node (d ∷ v) (buf ++ c ∷ []),
)

-- The length of the expanded value: each "%n" gives way to the node, each "%%" to one byte.
pub length-expand :
    (node v : Str)
    → length (expand node v) + 2 * names v + percents v ≡ length v + names v * length node
unfolding expand names percents
length-expand node [] = omega arith
length-expand node (c ∷ []) = omega arith
length-expand node (c ∷ d ∷ v) = elim (Bool-cases (c == b'%')) [
  | inr e ↦ rw e (omega (arith, length-expand node (d ∷ v)))
  | inl e ↦ rw e (elim (Bool-cases (d == b'%')) [
    | inl e' ↦ rw e' (omega (arith, length-expand node v))
    | inr e' ↦ rw e' (elim (Bool-cases (d == b'n')) [
      | inl e'' ↦ rw e'' (omega (arith, length-expand node v, length-append node (expand node v)))
      | inr e'' ↦ rw e'' (omega (arith, length-expand node (d ∷ v)))
    ])
  ])
]

-- What a reader of a value sees for one node.
abbrev pub shown : Handle → Str → Str → Bool → Str
shown h node v contains_subst = if not contains_subst || raw_values h then v else expand node v

-- The call can be made: no substitution is done, or there is no "%n", or the size test passes.
abbrev pub is_readable : Handle → Str → Str → Bool → Bool
is_readable h node v contains_subst =
    not contains_subst || raw_values h || (names v == 0) || subst_fits h.maxvallen node v

-- A readable value is returned as a reader sees it; the only change to the handle is the buffer,
-- and the error code stays.
pub get_valptr-shown :
    (h : Handle) (node v : Str) (contains_subst : Bool)
    → is_readable h node v contains_subst ≡ true
    → (b : Option Str) × (get_valptr node v contains_subst h ≡ (
      some (shown h node v contains_subst, contains_subst && not (raw_values h)),
      record h { valbuf = b },
    ))
unfolding get_valptr
get_valptr-shown h node v false e = (h.valbuf, refl)
get_valptr-shown h node v true e = elim (Bool-cases (raw_values h)) [
  | inl raw ↦ (h.valbuf, ground (arith))
  | inr cooked ↦ (
    some (expand node v),
    ground (
      arith,
      subst_loop-unused (subst_fits h.maxvallen node v) node v [],
      subst_loop-expand node v [],
    ),
  )
]

-- A value that is not readable is refused with GENDERS_ERR_INTERNAL.
get_valptr-refused :
    (h : Handle) (node v : Str) (contains_subst : Bool)
    → is_readable h node v contains_subst ≡ false
    → let (r, h') = get_valptr node v contains_subst h in (r ≡ none) × (h'.errnum ≡ err_internal)
unfolding get_valptr
get_valptr-refused h node v contains_subst e = ground (arith, subst_loop-refused node v [])
