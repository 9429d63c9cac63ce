-- ===== src/Query/Language.antt =====
-- The trees that `_parse_query` can make, and the texts that it refuses.
use genders.Base.{
  Bool, true, false, Option, none, some, List, [], ◌∷◌, ◌≡◌, ◌↔◌, ◌⊎◌, refl, inl, inr, Str, str_eq,
  str_eq_iff, codes, Bool-cases, if◌then◌else◌,
}
use genders.Handle.{err_syntax}
use genders.Query.{Tree, leaf, branch, set_complement_flag}
use genders.Query.Sets.{IsOperator}
use genders.Query.Token.{
  Token, attrtok, lparentok, rparentok, uniontok, intersectiontok, differencetok, complementtok,
  tokens_of,
}
use genders.Query.Lexing.{IsAttr, AreGood, tokens_of-AreGood}
use genders.Query.Print.{text_of, tokens_of-text_of}
use genders.Query.Grammar.{
  Term, term_attr, term_paren, term_complement, Query, query_term, query_union, query_intersection,
  query_difference, makenode, IsInput, IsParser, treeroot, parse_query,
}

-- A tree of the query language: its leaves are attributes of the scanner's rule, its operators
-- those of the grammar.
abbrev pub IsTree : Tree → Type 0
IsTree (leaf s c) = IsAttr s
IsTree (branch op l r c) = IsOperator op × IsTree l × IsTree r

set_complement_flag-IsTree : (t : Tree) → IsTree t → IsTree (set_complement_flag t)
unfolding set_complement_flag
set_complement_flag-IsTree (leaf s c) i = i
set_complement_flag-IsTree (branch op l r c) i = i

-- What the rules derive from good tokens.
mutual
  unfolding makenode str_eq

  Term-IsTree :
      {ts rest : List Token} {t : Tree} → Term ts rest t → AreGood ts → IsTree t × AreGood rest
  Term-IsTree term_attr (g, gs) = (g, gs)
  Term-IsTree (term_paren q) (g, gs) = let (i, h) = Query-IsTree q gs in (i, h.1)
  Term-IsTree (term_complement {t} q) (g, gs) =
      let (i, h) = Term-IsTree q gs in (set_complement_flag-IsTree t i, h)

  Query-IsTree :
      {ts rest : List Token} {t : Tree} → Query ts rest t → AreGood ts → IsTree t × AreGood rest
  Query-IsTree (query_term q) gs = Term-IsTree q gs
  Query-IsTree (query_union l r) gs =
      let (i, h) = Query-IsTree l gs in let (j, k) = Term-IsTree r h.1 in ((refl, i, j), k)
  Query-IsTree (query_intersection l r) gs =
      let (i, h) = Query-IsTree l gs in let (j, k) = Term-IsTree r h.1 in ((refl, i, j), k)
  Query-IsTree (query_difference l r) gs =
      let (i, h) = Query-IsTree l gs in let (j, k) = Term-IsTree r h.1 in ((refl, i, j), k)

-- The tokens of a tree, in front of others: each operation in parentheses.
abbrev negation : Bool → List Token → List Token
negation c ts = if c then complementtok ∷ ts else ts

abbrev operator_token : Str → Token
operator_token op =
    if str_eq op (codes "||")
    then uniontok
    else if str_eq op (codes "&&")
    then intersectiontok
    else differencetok

abbrev pub print : Tree → List Token → List Token
print (leaf s c) rest = negation c (attrtok s ∷ rest)
print (branch op l r c) rest =
    negation c (lparentok ∷ print l (operator_token op ∷ print r (rparentok ∷ rest)))

negation-Term :
    {ts rest : List Token} {t : Tree} (c : Bool)
    → Term ts rest t
    → Term (negation c ts) rest (if c then set_complement_flag t else t)
negation-Term true q = term_complement q
negation-Term false q = q

IsOperator-cases :
    (op : Str) → IsOperator op → (op ≡ codes "||") ⊎ (op ≡ codes "&&") ⊎ (op ≡ codes "--")
IsOperator-cases op o = elim (Bool-cases (str_eq op (codes "||"))) [
  | inl e ↦ inl ((str_eq_iff op (codes "||")).0 e)
  | inr e ↦ elim (Bool-cases (str_eq op (codes "&&"))) [
    | inl f ↦ inr (inl ((str_eq_iff op (codes "&&")).0 f))
    | inr f ↦ inr (inr ((str_eq_iff op (codes "--")).0 (rw (e, f) at o)))
  ]
]

branch-Query :
    (op : Str) {ts mid rest : List Token} {l r : Tree}
    → IsOperator op
    → Query ts (operator_token op ∷ mid) l
    → Term mid rest r
    → Query ts rest (branch op l r false)
unfolding makenode str_eq
branch-Query op o q t = elim (IsOperator-cases op o) [
  | inl e ↦ rw e (query_union (rw e at q) t)
  | inr (inl e) ↦ rw e (query_intersection (rw e at q) t)
  | inr (inr e) ↦ rw e (query_difference (rw e at q) t)
]

print-Term : (t : Tree) (rest : List Token) → IsTree t → Term (print t rest) rest t
unfolding makenode set_complement_flag
print-Term (leaf s true) rest i = term_complement term_attr
print-Term (leaf s false) rest i = term_attr
print-Term (branch op l r true) rest (o, i, j) =
    term_complement
      (term_paren (branch-Query op o (query_term (print-Term l _ i)) (print-Term r _ j)))
print-Term (branch op l r false) rest (o, i, j) =
    term_paren (branch-Query op o (query_term (print-Term l _ i)) (print-Term r _ j))

operator_token-AreGood :
    (op : Str) (ts : List Token) → IsOperator op → AreGood ts → AreGood (operator_token op ∷ ts)
unfolding str_eq
operator_token-AreGood op ts o g = elim (IsOperator-cases op o) [
  | inl e ↦ rw e (tt, g)
  | inr (inl e) ↦ rw e (tt, g)
  | inr (inr e) ↦ rw e (tt, g)
]

negation-AreGood : (c : Bool) (ts : List Token) → AreGood ts → AreGood (negation c ts)
negation-AreGood true ts g = (tt, g)
negation-AreGood false ts g = g

print-AreGood : (t : Tree) (rest : List Token) → IsTree t → AreGood rest → AreGood (print t rest)
print-AreGood (leaf s c) rest i g = negation-AreGood c _ (i, g)
print-AreGood (branch op l r c) rest (o, i, j) g = negation-AreGood c _ (
  tt,
  print-AreGood l _ i
      (operator_token-AreGood op _ o (print-AreGood r (rparentok ∷ rest) j (tt, g))),
)

-- The text of a query for a tree.
abbrev pub query_text : Tree → Str
query_text t = text_of (print t [])

Option-cases {ℓ} : {A : Type ℓ} (x : Option A) → (x ≡ none) ⊎ ((a : A) × (x ≡ some a))
Option-cases none = inl refl
Option-cases (some a) = inr (a, refl)

-- A derivation of the tokens of a text.
abbrev pub Derives : Str → Tree → Type 0
Derives s t = (ts : List Token) × (tokens_of s ≡ some ts) × IsInput ts t

module _ (yyparse : List Token → Option Tree) (parser : IsParser yyparse) where
  treeroot-some : (x : Option Tree) (t : Tree) → treeroot x ≡ inr t → x ≡ some t
  treeroot-some none t h = absurd (cc)
  treeroot-some (some u) t h = cc

  -- `_parse_query` makes a tree exactly where the rules of the grammar derive it from the tokens of
  -- the text.
  pub parse_query-Derives : (s : Str) (t : Tree) → (parse_query yyparse s ≡ inr t) ↔ Derives s t
  unfolding parse_query
  parse_query-Derives s t =
      let (ts, e, g) = tokens_of-AreGood s in
      (
        λ h. (ts, e, (parser ts t).0 (treeroot-some (yyparse ts) t (rw e at h))),
        λ (us, f, d). rw (f, (parser us t).1 d) refl,
      )

  -- `_parse_query` on any text makes a tree, which the rules derive from its tokens, or sets the
  -- error code for a syntax error, and then no tree can be derived.
  pub parse_query-refuses :
      (s : Str)
      → ((t : Tree) × (parse_query yyparse s ≡ inr t) × Derives s t)
        ⊎ ((parse_query yyparse s ≡ inl err_syntax) × ((t : Tree) → ¬ Derives s t))
  unfolding parse_query
  parse_query-refuses s =
      let (ts, e, g) = tokens_of-AreGood s in
      elim (Option-cases (yyparse ts)) [
        | inl n ↦ inr (rw (e, n) refl, λ t (us, f, d). let found = (parser us t).1 d in absurd (cc))
        | inr (t, m) ↦ inl (t, rw (e, m) refl, (ts, e, (parser ts t).0 m))
      ]

  -- `_parse_query` reads a tree of the query language back from its text: the operations stand in
  -- parentheses, a blank is behind each token.
  pub parse_query-query_text : (t : Tree) → IsTree t → parse_query yyparse (query_text t) ≡ inr t
  parse_query-query_text t i = (parse_query-Derives (query_text t) t).1 (
    print t [],
    tokens_of-text_of (print t []) (print-AreGood t [] i tt),
    query_term (print-Term t [] i),
  )

  -- The trees that `_parse_query` makes of some text are those of the query language: each leaf is
  -- a letter or a digit followed by what the scanner takes, each operator is one of the three.
  pub parse_query-IsTree : (t : Tree) → ((s : Str) × (parse_query yyparse s ≡ inr t)) ↔ IsTree t
  parse_query-IsTree t = (
    λ (s, e).
        let (ts, f, d) = (parse_query-Derives s t).0 e in
        let (us, f', g) = tokens_of-AreGood s in
        let same : us ≡ ts = cc in (Query-IsTree d (rw same at g)).0,
    λ i. (query_text t, parse_query-query_text t i),
  )

  -- The text from which no tree can be derived is refused.
  pub parse_query-not_derived :
      (s : Str) → ((t : Tree) → ¬ Derives s t) → parse_query yyparse s ≡ inl err_syntax
  parse_query-not_derived s none_derived = elim (parse_query-refuses s) [
    | inl (t, e, d) ↦ absurd (none_derived t d)
    | inr (e, d) ↦ e
  ]
