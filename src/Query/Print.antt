-- ===== src/Query/Print.antt =====
-- Query texts made of tokens, and that the scanner and the grammar read them back.
use genders.Base.{
  ℕ, zero, suc, ◌≤◌, ◌&&◌, ◌||◌, some, List, [], ◌∷◌, ◌++◌, ◌≡◌, refl, sym, ◌∙◌, length, Str,
  Bool-cases, inl, inr, arith,
}
use genders.Query.Token.{
  Token, attrtok, lparentok, rparentok, uniontok, intersectiontok, differencetok, complementtok,
  is_word, is_joint, begins_word, attr_rest, scan_pair, scan_rule, put_token, lex, tokens_of,
}
use genders.Query.Lexing.{IsGood, AreGood, lex-enough}

-- A token with a blank behind it.
abbrev pub token_text : Token → Str → Str
token_text (attrtok s) rest = s ++ b' ' ∷ rest
token_text lparentok rest = b'(' ∷ b' ' ∷ rest
token_text rparentok rest = b')' ∷ b' ' ∷ rest
token_text uniontok rest = b'|' ∷ b'|' ∷ b' ' ∷ rest
token_text intersectiontok rest = b'&' ∷ b'&' ∷ b' ' ∷ rest
token_text differencetok rest = b'-' ∷ b'-' ∷ b' ' ∷ rest
token_text complementtok rest = b'~' ∷ b' ' ∷ rest

abbrev pub text_of : List Token → Str
text_of [] = []
text_of (t ∷ ts) = token_text t (text_of ts)

begins_word-append : (s rest : Str) → begins_word (s ++ b' ' ∷ rest) ≡ begins_word s
unfolding begins_word is_word
begins_word-append [] rest = refl
begins_word-append (c ∷ s) rest = refl

attr_rest-append :
    (s rest : Str) → attr_rest s ≡ (s, []) → attr_rest (s ++ b' ' ∷ rest) ≡ (s, b' ' ∷ rest)
unfolding attr_rest
attr_rest-append [] rest e = refl
attr_rest-append (c ∷ s) rest e = elim (Bool-cases (is_word c || is_joint c && begins_word s)) [
  | inl t ↦
      let tail : attr_rest s ≡ (s, []) = ground arith in
      rw (begins_word-append s rest, t, attr_rest-append s rest tail) refl
  | inr t ↦ absurd (ground arith)
]

abbrev Scans : Token → Str → Str → Type 0
Scans t rest [] = ⊥
Scans t rest (c ∷ s) = scan_rule c s ≡ (some t, b' ' ∷ rest)

scan_rule-token_text : (t : Token) (rest : Str) → IsGood t → Scans t rest (token_text t rest)
unfolding scan_rule scan_pair
scan_rule-token_text (attrtok (c ∷ s)) rest (a, e) = rw (a, attr_rest-append s rest e) refl
scan_rule-token_text (attrtok []) rest g = absurd g
scan_rule-token_text _ rest g = refl

lex-blank : (n : ℕ) (s : Str) → lex (suc n) (b' ' ∷ s) ≡ lex n s
unfolding lex scan_rule scan_pair put_token
lex-blank n s = ground arith

lex-Scans :
    (n : ℕ) (t : Token) (rest text : Str) (ts : List Token)
    → Scans t rest text
    → lex n rest ≡ some ts
    → lex (suc (suc n)) text ≡ some (t ∷ ts)
unfolding lex put_token
lex-Scans n t rest (c ∷ s) ts e h = rw (e, lex-blank n rest, h) refl
lex-Scans n t rest [] ts e h = absurd e

-- Two steps for each token, above some fuel.
abbrev fuel_of : List Token → ℕ → ℕ
fuel_of [] k = k
fuel_of (t ∷ ts) k = suc (suc (fuel_of ts k))

fuel_of_enough : (ts : List Token) (k : ℕ) → k ≤ fuel_of ts k
fuel_of_enough [] k = omega arith
fuel_of_enough (t ∷ ts) k = omega (arith, fuel_of_enough ts k)

lex-nil : (n : ℕ) → lex n [] ≡ some []
unfolding lex
lex-nil zero = refl
lex-nil (suc n) = refl

lex-text_of : (k : ℕ) (ts : List Token) → AreGood ts → lex (fuel_of ts k) (text_of ts) ≡ some ts
lex-text_of k [] g = lex-nil k
lex-text_of k (t ∷ ts) (g, gs) =
    lex-Scans (fuel_of ts k) t (text_of ts) (text_of (t ∷ ts)) ts
      (scan_rule-token_text t (text_of ts) g) (lex-text_of k ts gs)

-- The scanner reads tokens back from their text, if their attributes are as the rule allows.
pub tokens_of-text_of : (ts : List Token) → AreGood ts → tokens_of (text_of ts) ≡ some ts
unfolding tokens_of
tokens_of-text_of ts g =
    let len = length (text_of ts) in
    let (us, e, r) =
      lex-enough (fuel_of ts len) len (text_of ts) (fuel_of_enough ts len) (omega arith) in
    r ∙ sym e ∙ lex-text_of len ts g
