-- ===== src/Base/Text.antt =====
-- C strings as the lists of their bytes, without the terminating NUL.
use Prim.Native.Nat.{ℕ}
use Prim.Native.Char.{code}
use Prim.Native.String.{String}
use mathlib.Core.Path.{◌≡◌, refl, sym}
use mathlib.Core.Logic.{◌↔◌}
use mathlib.Core.Bool.{Bool, true, false, ◌&&◌, ◌||◌}
use mathlib.Core.List.{List, [], ◌∷◌}
use mathlib.Core.Option.{Option, none, some}
use native.Mathlib.Omega.{arith}
use genders.Base.Tests.{◌==◌, if◌then◌else◌, Bool-eq_of_iff}

abbrev pub Str : Type 0
Str = List ℕ

-- The bytes of an ASCII text.
abbrev pub codes : String → Str
codes String.[] = []
codes (String.◌∷◌ c s) = code c ∷ codes s

-- `!strcmp(a, b)`
unfoldable pub str_eq : Str → Str → Bool
str_eq [] [] = true
str_eq (x ∷ xs) (y ∷ ys) = x == y && str_eq xs ys
str_eq _ _ = false

pub str_eq_iff : (a b : Str) → (str_eq a b ≡ true) ↔ (a ≡ b)
unfolding str_eq
str_eq_iff (x ∷ a) (y ∷ b) = ground (arith, str_eq_iff a b)
str_eq_iff _ _ = ground arith

pub str_eq_refl : (a : Str) → str_eq a a ≡ true
str_eq_refl a = (str_eq_iff a a).1 refl

pub str_eq_comm : (a b : Str) → str_eq a b ≡ str_eq b a
str_eq_comm a b =
    Bool-eq_of_iff _ _ (λ e. (str_eq_iff b a).1 (sym ((str_eq_iff a b).0 e)))
      (λ e. (str_eq_iff a b).1 (sym ((str_eq_iff b a).0 e)))

-- `!s || !strlen(s)`
abbrev pub is_missing : Option Str → Bool
is_missing none = true
is_missing (some []) = true
is_missing (some (_ ∷ _)) = false

-- `strchr(s, c)`: what stands before the first `c`, and what stands behind it.
unfoldable pub strchr : Str → ℕ → Option (Str × Str)
strchr [] c = none
strchr (x ∷ s) c =
    let rest = strchr s c in
    if x == c
    then some ([], s)
    else elim rest [ none ↦ none | some (before, behind) ↦ some (x ∷ before, behind) ]

-- Whether `s` begins with `prefix`.
unfoldable pub starts_with : Str → Str → Bool
starts_with [] s = true
starts_with (x ∷ prefix) [] = false
starts_with (x ∷ prefix) (y ∷ s) = x == y && starts_with prefix s

-- `strstr(s, needle)`, for a needle that is not empty.
unfoldable pub strstr : Str → Str → Bool
unfolding starts_with
strstr [] needle = false
strstr (x ∷ s) needle = starts_with needle (x ∷ s) || strstr s needle
