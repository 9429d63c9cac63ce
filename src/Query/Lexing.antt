-- ===== src/Query/Lexing.antt =====
-- The scanner of a query reads every text to its end, and its attributes begin as the rule says.
use genders.Base.{
  ℕ, zero, suc, ◌≤◌, Bool, true, false, ◌&&◌, ◌||◌, ◌==◌, Option, none, some, List, [], ◌∷◌, ◌≡◌,
  refl, length, if◌then◌else◌, Str, Bool-cases, inl, inr, arith,
}
use genders.Query.Token.{
  Token, attrtok, is_alnum, is_word, is_joint, begins_word, attr_rest, scan_pair, scan_rule,
  put_token, lex, tokens_of,
}

length-attr_rest : (s : Str) → length (attr_rest s).1 ≤ length s
unfolding attr_rest
length-attr_rest [] = omega arith
length-attr_rest (c ∷ s) = ground (arith, length-attr_rest s)

length-scan_rule : (c : ℕ) (s : Str) → length (scan_rule c s).1 ≤ length s
unfolding scan_rule
length-scan_rule c [] = ground (arith, length-attr_rest [])
length-scan_rule c (d ∷ s) = ground (arith, length-attr_rest (d ∷ s))

put_token-both :
    (t : Option Token) {x y : Option (List Token)}
    → (ts : List Token) × (x ≡ some ts) × (y ≡ some ts)
    → (ts : List Token) × (put_token t x ≡ some ts) × (put_token t y ≡ some ts)
unfolding put_token
put_token-both none (ts, ex, ey) = (ts, rw ex refl, rw ey refl)
put_token-both (some t) (ts, ex, ey) = (t ∷ ts, rw ex refl, rw ey refl)

-- Fuel for every character is enough: the scanner reaches the end of the text, and its tokens do
-- not depend on the fuel.
pub lex-enough :
    (n m : ℕ) (s : Str)
    → length s ≤ n
    → length s ≤ m
    → (ts : List Token) × (lex n s ≡ some ts) × (lex m s ≡ some ts)
unfolding lex
lex-enough zero zero [] hn hm = ([], refl, refl)
lex-enough zero (suc m) [] hn hm = ([], refl, refl)
lex-enough (suc n) zero [] hn hm = ([], refl, refl)
lex-enough (suc n) (suc m) [] hn hm = ([], refl, refl)
lex-enough (suc n) (suc m) (c ∷ s) hn hm = put_token-both (scan_rule c s).0 (
    lex-enough n m (scan_rule c s).1 (omega (arith, length-scan_rule c s))
      (omega (arith, length-scan_rule c s)))
lex-enough zero m (c ∷ s) hn hm = absurd (omega arith)
lex-enough (suc n) zero (c ∷ s) hn hm = absurd (omega arith)

-- An attribute as the rule allows it: a letter or a digit, then what the rule takes.
abbrev pub IsAttr : Str → Type 0
IsAttr [] = ⊥
IsAttr (c ∷ s) = (is_alnum c ≡ true) × (attr_rest s ≡ (s, []))

begins_word-taken : (s : Str) → begins_word (attr_rest s).0 ≡ begins_word s
unfolding attr_rest
begins_word-taken [] = refl
begins_word-taken (c ∷ s) = elim (Bool-cases (is_word c)) [
  | inl e ↦ rw (e, e) refl
  | inr e ↦ elim (Bool-cases (is_joint c && begins_word s)) [
    | inl j ↦ rw (e, j, e) refl
    | inr j ↦ rw (e, j) refl
  ]
]

attr_rest-taken : (s : Str) → attr_rest (attr_rest s).0 ≡ ((attr_rest s).0, [])
unfolding attr_rest
attr_rest-taken [] = refl
attr_rest-taken (c ∷ s) = elim (Bool-cases (is_word c || is_joint c && begins_word s)) [
  | inl e ↦ rw (e, begins_word-taken s, e, attr_rest-taken s) refl
  | inr e ↦ rw e refl
]

-- An attribute that the rule allows, if the token is an attribute.
abbrev pub IsGood : Token → Type 0
IsGood (attrtok s) = IsAttr s
IsGood _ = Unit {0}

abbrev pub AreGood : List Token → Type 0
AreGood [] = Unit {0}
AreGood (t ∷ ts) = IsGood t × AreGood ts

abbrev Rule : Option Token × Str → Type 0
Rule (none, s) = Unit {0}
Rule (some t, s) = IsGood t

Rule-if :
    (b : Bool) (x y : Option Token × Str) → (b ≡ true → Rule x) → Rule y → Rule (if b then x else y)
Rule-if true x y p q = p refl
Rule-if false x y p q = q

scan_pair-Rule : (c : ℕ) (s : Str) → Rule (scan_pair c s)
unfolding scan_pair
scan_pair-Rule c [] = tt
scan_pair-Rule c (d ∷ s) =
    Rule-if (c == b'|' && d == b'|') _ _ (λ _. tt)
      (Rule-if (c == b'&' && d == b'&') _ _ (λ _. tt)
        (Rule-if (c == b'-' && d == b'-') _ _ (λ _. tt) tt))

scan_rule-Rule : (c : ℕ) (s : Str) → Rule (scan_rule c s)
unfolding scan_rule
scan_rule-Rule c s =
    Rule-if (is_alnum c) _ _ (λ e. (e, attr_rest-taken s))
      (Rule-if (c == b'(') _ _ (λ _. tt)
        (Rule-if (c == b')') _ _ (λ _. tt)
          (Rule-if (c == b'~') _ _ (λ _. tt) (scan_pair-Rule c s))))

put_token-AreGood :
    (r : Option Token × Str) {x : Option (List Token)}
    → Rule r
    → (ts : List Token) × (x ≡ some ts) × AreGood ts
    → (ts : List Token) × (put_token r.0 x ≡ some ts) × AreGood ts
unfolding put_token
put_token-AreGood (none, s) g (ts, e, gs) = (ts, rw e refl, gs)
put_token-AreGood (some t, s) g (ts, e, gs) = (t ∷ ts, rw e refl, (g, gs))

lex-AreGood :
    (n : ℕ) (s : Str) → length s ≤ n → (ts : List Token) × (lex n s ≡ some ts) × AreGood ts
unfolding lex
lex-AreGood zero [] h = ([], refl, tt)
lex-AreGood (suc n) [] h = ([], refl, tt)
lex-AreGood (suc n) (c ∷ s) h =
    put_token-AreGood (scan_rule c s) (scan_rule-Rule c s)
      (lex-AreGood n (scan_rule c s).1 (omega (arith, length-scan_rule c s)))
lex-AreGood zero (c ∷ s) h = absurd (omega arith)

-- The attributes that the scanner finds are as the rule allows.
pub tokens_of-AreGood : (s : Str) → (ts : List Token) × (tokens_of s ≡ some ts) × AreGood ts
unfolding tokens_of
tokens_of-AreGood s = lex-AreGood (length s) s (omega arith)
