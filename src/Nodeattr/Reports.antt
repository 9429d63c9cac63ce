-- ===== src/Nodeattr/Reports.antt =====
-- Parts of `_diff` whose result counts their messages.
use genders.Base.{
  ℕ, ◌+◌, ℤ, pos, Bool, true, false, Option, none, some, List, [], ◌∷◌, ◌⊎◌, inl, inr, ◌≡◌, refl,
  arith, Str, length, length-append, if◌then◌else◌,
}
use genders.Handle.{Handle, M}
use genders.Nodeattr.Process.{
  World, P, pure, exit, proceed, ◌>>=◌, ◌>>◌, eprintf, gend_error_exit, or_exit, call, call_other,
  call_only, call_only_other,
}
use genders.Nodeattr.Compare.{call_misreported, call_other_misreported, report, report_missing}

-- Where a call returns, the messages since `n` of them, and `c` more, are those of its result.
abbrev pub Reported {ℓ} : {A : Type ℓ} → ℕ → ℕ → (A → ℕ) → (ℤ ⊎ A) × World → Type 0
Reported c n f (inl status, w) = Unit {0}
Reported c n f (inr a, w) = length w.err + c ≡ n + f a

abbrev pub Counts {ℓ} : {A : Type ℓ} → ℕ → P A → (A → ℕ) → Type 0
Counts c m f = (w : World) → Reported c (length w.err) f (m w)

module _ {ℓ} {A : Type ℓ} where
  Reported-shift :
      (c d m n : ℕ) (f : A → ℕ) (x : (ℤ ⊎ A) × World)
      → Reported (c + d) m f x
      → m ≡ n + d
      → Reported c n f x
  Reported-shift c d m n f (inl status, w) r e = tt
  Reported-shift c d m n f (inr a, w) r e = omega (arith, r, e)

  pub Counts-pure : (c : ℕ) (a : A) (f : A → ℕ) → c ≡ f a → Counts c (pure a) f
  Counts-pure c a f e w = omega (arith, e)

  exit_after :
      (b : Bool) (s : Str) (c n : ℕ) (f : A → ℕ) (w : World)
      → Reported c n f (((if b then eprintf s else pure tt) >> exit (pos 1)) w)
  exit_after true s c n f w = tt
  exit_after false s c n f w = tt

  Reported-gend_error_exit :
      (h : Handle) (msg : Str) (c n : ℕ) (f : A → ℕ) (w : World)
      → Reported c n f (gend_error_exit h msg w)
  unfolding gend_error_exit
  Reported-gend_error_exit h msg c n f w = exit_after _ _ c n f _

  Reported-or_exit :
      (r : Option A) (h : Handle) (msg : Str) (w : World)
      → Reported 0 (length w.err) (λ _. 0) (or_exit r h msg w)
  unfolding or_exit
  Reported-or_exit none h msg w = Reported-gend_error_exit h msg 0 (length w.err) (λ _. 0) w
  Reported-or_exit (some a) h msg w = refl

  -- The calls of the library print no message of their own.
  pub Counts-call : (m : M A) (msg : Str) → Counts 0 (call m msg) (λ _. 0)
  unfolding call
  Counts-call m msg w = Reported-or_exit (m w.handle).0 _ msg _

  pub Counts-call_other : (m : M A) (msg : Str) → Counts 0 (call_other m msg) (λ _. 0)
  unfolding call_other
  Counts-call_other m msg w = Reported-or_exit (m w.other).0 _ msg _

  pub Counts-call_misreported : (m : M A) (msg : Str) → Counts 0 (call_misreported m msg) (λ _. 0)
  unfolding call_misreported
  Counts-call_misreported m msg w = Reported-or_exit (m w.handle).0 _ msg _

  pub Counts-call_other_misreported :
      (m : M A) (msg : Str) → Counts 0 (call_other_misreported m msg) (λ _. 0)
  unfolding call_other_misreported
  Counts-call_other_misreported m msg w = Reported-or_exit (m w.other).0 _ msg _

  Counts-call_only : (m : M A) → Counts 0 (call_only m) (λ _. 0)
  unfolding call_only
  Counts-call_only m w = refl

  Counts-call_only_other : (m : M A) → Counts 0 (call_only_other m) (λ _. 0)
  unfolding call_only_other
  Counts-call_only_other m w = refl

  pub Counts-if :
      (b : Bool) (c : ℕ) (m k : P A) (f : A → ℕ)
      → Counts c m f
      → Counts c k f
      → Counts c (if b then m else k) f
  Counts-if true c m k f hm hk = hm
  Counts-if false c m k f hm hk = hk

module _ {ℓ κ} {A : Type ℓ} {B : Type κ} where
  Reported-bind :
      (c n : ℕ) (f : A → ℕ) (g : B → ℕ) (k : A → P B) (x : (ℤ ⊎ A) × World)
      → Reported 0 n f x
      → ((a : A) → Counts (c + f a) (k a) g)
      → Reported c n g (proceed x k)
  Reported-bind c n f g k (inl status, w) r h = tt
  Reported-bind c n f g k (inr a, w) r h =
      Reported-shift c (f a) (length w.err) n g (k a w) (h a w) (omega (arith, r))

  pub Counts-bind :
      (c : ℕ) (m : P A) (k : A → P B) (f : A → ℕ) (g : B → ℕ)
      → Counts 0 m f
      → ((a : A) → Counts (c + f a) (k a) g)
      → Counts c (m >>= k) g
  Counts-bind c m k f g hm hk w = Reported-bind c (length w.err) f g k (m w) (hm w) hk

pub Counts-report : (msg : Str) → Counts 0 (report msg) (λ n. n)
unfolding report
Counts-report msg w = omega (arith, length-append w.err (msg ∷ []))

pub Counts-sum : (a b : ℕ) → Counts (0 + a + b) (pure (a + b)) (λ n. n)
Counts-sum a b = Counts-pure (0 + a + b) (a + b) (λ n. n) (omega arith)

pub Counts-report_missing :
    (is_there : Str → P Bool) (msg : Str → Str) (ss : List Str)
    → ((s : Str) → Counts 0 (is_there s) (λ _. 0))
    → Counts 0 (report_missing is_there msg ss) (λ n. n)
unfolding report_missing
Counts-report_missing is_there msg [] h = Counts-pure 0 0 (λ n. n) refl
Counts-report_missing is_there msg (s ∷ ss) h =
    Counts-bind 0 _ _ (λ _. 0) _ (h s)
      λ rv.
        Counts-bind 0 _ _ (λ n. n) _
          (Counts-if rv 0 _ _ _ (Counts-pure 0 0 (λ n. n) refl) (Counts-report (msg s)))
          λ here.
            Counts-bind _ _ _ (λ n. n) _ (Counts-report_missing is_there msg ss h)
              λ rest. Counts-sum here rest
