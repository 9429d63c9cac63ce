-- ===== src/Nodeattr/Calls/Buffer.antt =====
-- The loop that doubles a buffer until the call for the text succeeds.
use genders.Base.{ℕ, zero, suc, ◌+◌, Option, none, some, List, [], ◌∷◌, ◌≡◌, refl, ap, ◌∙◌, Str}
use genders.Libcommon.{Hostlist}
use genders.Nodeattr.Calls.{
  Calls, Format, fmt_comma, fmt_nl, fmt_space, fmt_hostlist, grow_buffer, doublings, rangestr,
  replaced,
}

-- The powers of 2 from 2 ^ 16 to 2 ^ 30.
abbrev pub buffer_sizes : List ℕ
buffer_sizes =
    65536 ∷ 131072 ∷ 262144 ∷ 524288 ∷ 1048576 ∷ 2097152 ∷ 4194304 ∷ 8388608 ∷ 16777216 ∷ 33554432
    ∷ 67108864 ∷ 134217728 ∷ 268435456 ∷ 536870912 ∷ 1073741824 ∷ []

-- The first text that a call gives for one of the sizes.
abbrev pub first_given : (ℕ → Option Str) → List ℕ → Option Str
first_given call [] = none
first_given call (n ∷ ns) = elim (call n) [ none ↦ first_given call ns | some s ↦ some s ]

abbrev pub text_given : Calls → Hostlist → Format → Option Str
text_given C hl fmt_hostlist = first_given (C.hostlist_ranged_string hl) buffer_sizes
text_given C hl fmt = replaced C fmt (first_given (C.hostlist_deranged_string hl) buffer_sizes)

abbrev doubled : ℕ → ℕ → List ℕ
doubled zero size = size ∷ []
doubled (suc n) size = size ∷ doubled n (size + size)

or_nothing : (o : Option Str) → o ≡ elim o as (λ _. Option Str) [ none ↦ none | some s ↦ some s ]
or_nothing none = refl
or_nothing (some s) = refl

or_larger :
    (o larger larger' : Option Str)
    → larger ≡ larger'
    → elim o as (λ _. Option Str) [ none ↦ larger | some s ↦ some s ]
      ≡ elim o as (λ _. Option Str) [ none ↦ larger' | some s ↦ some s ]
or_larger none larger larger' e = e
or_larger (some s) larger larger' e = refl

grow_buffer-doubled :
    (n : ℕ) (call : ℕ → Option Str) (size : ℕ)
    → grow_buffer n call size ≡ first_given call (doubled n size)
unfolding grow_buffer
grow_buffer-doubled zero call size = or_nothing (call size)
grow_buffer-doubled (suc n) call size =
    or_larger (call size) _ _ (grow_buffer-doubled n call (size + size))

doubled_sizes : doubled doublings 65536 ≡ buffer_sizes
doubled_sizes = refl

grow_buffer-first_given :
    (call : ℕ → Option Str) → grow_buffer doublings call 65536 ≡ first_given call buffer_sizes
grow_buffer-first_given call =
    grow_buffer-doubled doublings call 65536 ∙ ap (first_given call) doubled_sizes

pub rangestr-first_given :
    (C : Calls) (hl : Hostlist) (fmt : Format) → rangestr C hl fmt ≡ text_given C hl fmt
unfolding rangestr
rangestr-first_given C hl fmt_hostlist = grow_buffer-first_given (C.hostlist_ranged_string hl)
rangestr-first_given C hl fmt_comma =
    ap (replaced C fmt_comma) (grow_buffer-first_given (C.hostlist_deranged_string hl))
rangestr-first_given C hl fmt_nl =
    ap (replaced C fmt_nl) (grow_buffer-first_given (C.hostlist_deranged_string hl))
rangestr-first_given C hl fmt_space =
    ap (replaced C fmt_space) (grow_buffer-first_given (C.hostlist_deranged_string hl))
