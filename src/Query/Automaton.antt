-- ===== src/Query/Automaton.antt =====
-- src/libgenders/genders_query.y: a shift-reduce automaton for the grammar of a query, and that it
-- decides the grammar.
use genders.Base.{
  Bool, true, false, Option, none, some, List, [], ◌∷◌, ◌≡◌, ◌↔◌, refl, sym, ap, ◌∙◌, arith, Str,
  codes,
}
use genders.Query.{Tree, set_complement_flag}
use genders.Query.Token.{
  Token, attrtok, lparentok, rparentok, uniontok, intersectiontok, differencetok, complementtok,
}
use genders.Query.Grammar.{
  Term, term_attr, term_paren, term_complement, Query, query_term, query_union, query_intersection,
  query_difference, makenode, IsInput,
}

pub data Operator : Type 0 where
  union : Operator
  intersection : Operator
  difference : Operator

abbrev token_of : Operator → Token
token_of union = uniontok
token_of intersection = intersectiontok
token_of difference = differencetok

abbrev op_text : Operator → Str
op_text union = codes "||"
op_text intersection = codes "&&"
op_text difference = codes "--"

-- What waits for a term: a parenthesis, a complement, or an operator with its left operand.
pub data Frame : Type 0 where
  opened : Frame
  negated : Frame
  operated : Operator → Tree → Frame

-- A term is read: the complements and the operator above the next parenthesis are applied to it.
unfoldable pub reduce : List Frame → Tree → List Frame × Tree
reduce [] t = ([], t)
reduce (opened ∷ st) t = (opened ∷ st, t)
reduce (negated ∷ st) t = reduce st (set_complement_flag t)
reduce (operated op l ∷ st) t = (st, makenode (op_text op) (some (l, t)))

-- `in_term` expects a term, `in_query` has read the query in its arguments.
unfoldable mutual
  unfolding reduce makenode

  pub in_term : List Frame → List Token → Option Tree
  in_term st (attrtok s ∷ ts) = in_query (reduce st (makenode s none)) ts
  in_term st (lparentok ∷ ts) = in_term (opened ∷ st) ts
  in_term st (complementtok ∷ ts) = in_term (negated ∷ st) ts
  in_term st _ = none

  pub in_query : List Frame × Tree → List Token → Option Tree
  in_query ([], q) [] = some q
  in_query (st, q) (uniontok ∷ ts) = in_term (operated union q ∷ st) ts
  in_query (st, q) (intersectiontok ∷ ts) = in_term (operated intersection q ∷ st) ts
  in_query (st, q) (differencetok ∷ ts) = in_term (operated difference q ∷ st) ts
  in_query (opened ∷ st, q) (rparentok ∷ ts) = in_query (reduce st q) ts
  in_query _ _ = none

-- The tree of the tokens.
unfoldable pub run : List Token → Option Tree
unfolding in_term
run ts = in_term [] ts

abbrev at_base : List Frame → Bool
at_base [] = true
at_base (opened ∷ st) = true
at_base (negated ∷ st) = false
at_base (operated op l ∷ st) = false

in_query-operated :
    (op : Operator) (st : List Frame) (q : Tree) (ts : List Token)
    → in_query (st, q) (token_of op ∷ ts) ≡ in_term (operated op q ∷ st) ts
unfolding in_term
in_query-operated union [] q ts = refl
in_query-operated intersection [] q ts = refl
in_query-operated difference [] q ts = refl
in_query-operated union (f ∷ st) q ts = refl
in_query-operated intersection (f ∷ st) q ts = refl
in_query-operated difference (f ∷ st) q ts = refl

reduce-at_base : (st : List Frame) (t : Tree) → at_base st ≡ true → reduce st t ≡ (st, t)
unfolding reduce
reduce-at_base [] t b = refl
reduce-at_base (opened ∷ st) t b = refl
reduce-at_base (negated ∷ st) t b = absurd (cc)
reduce-at_base (operated op l ∷ st) t b = absurd (cc)

-- The automaton follows each derivation.
mutual
  unfolding reduce in_term makenode

  in_term-Term :
      (st : List Frame) {ts rest : List Token} {t : Tree}
      → Term ts rest t
      → in_term st ts ≡ in_query (reduce st t) rest
  in_term-Term st term_attr = refl
  in_term-Term st (term_paren {t} q) = in_term-Query (opened ∷ st) refl q
  in_term-Term st (term_complement q) = in_term-Term (negated ∷ st) q

  in_term-Query :
      (st : List Frame) {ts rest : List Token} {t : Tree}
      → at_base st ≡ true
      → Query ts rest t
      → in_term st ts ≡ in_query (st, t) rest
  in_term-Query st {rest} {t} b (query_term q) =
      in_term-Term st q ∙ ap (λ r. in_query r rest) (reduce-at_base st t b)
  in_term-Query st b (query_union {mid} {l} q r) =
      in_term-Query st b q
      ∙ in_query-operated union st l mid
      ∙ in_term-Term (operated union l ∷ st) r
  in_term-Query st b (query_intersection {mid} {l} q r) =
      in_term-Query st b q
      ∙ in_query-operated intersection st l mid
      ∙ in_term-Term (operated intersection l ∷ st) r
  in_term-Query st b (query_difference {mid} {l} q r) =
      in_term-Query st b q
      ∙ in_query-operated difference st l mid
      ∙ in_term-Term (operated difference l ∷ st) r

-- What the stack has read: with a term at the tokens at hand it goes on deriving `all`.
abbrev Expects : List Token → List Frame → List Token → Type 0
Expects all [] ts = all ≡ ts
Expects all (opened ∷ st) ts = Expects all st (lparentok ∷ ts)
Expects all (negated ∷ st) ts = Expects all st (complementtok ∷ ts)
Expects all (operated op l ∷ st) ts =
    (from : List Token) × (at_base st ≡ true)
    × Expects all st from
    × Query from (token_of op ∷ ts) l

-- The same where a query has just been read.
abbrev Reads : List Token → List Frame × Tree → List Token → Type 0
Reads all (st, q) ts =
    (from : List Token) × (at_base st ≡ true) × Expects all st from × Query from ts q

Query-operated :
    (op : Operator) {ts mid rest : List Token} {l r : Tree}
    → Query ts (token_of op ∷ mid) l
    → Term mid rest r
    → Query ts rest (makenode (op_text op) (some (l, r)))
Query-operated union q t = query_union q t
Query-operated intersection q t = query_intersection q t
Query-operated difference q t = query_difference q t

reduce-Reads :
    (all : List Token) (st : List Frame) (ts rest : List Token) (t : Tree)
    → Expects all st ts
    → Term ts rest t
    → Reads all (reduce st t) rest
unfolding reduce
reduce-Reads all [] ts rest t e q = (ts, refl, e, query_term q)
reduce-Reads all (opened ∷ st) ts rest t e q = (ts, refl, e, query_term q)
reduce-Reads all (negated ∷ st) ts rest t e q =
    reduce-Reads all st (complementtok ∷ ts) rest (set_complement_flag t) e (term_complement q)
reduce-Reads all (operated op l ∷ st) ts rest t (from, b, e, left) q =
    (from, b, e, Query-operated op left q)

-- What the automaton accepts has a derivation.
mutual
  unfolding in_term

  in_term_sound :
      (all : List Token) (st : List Frame) (ts : List Token) (t : Tree)
      → Expects all st ts
      → in_term st ts ≡ some t
      → Query all [] t
  in_term_sound all st (attrtok s ∷ ts) t e h =
      in_query_sound all (reduce st (makenode s none)).0 (reduce st (makenode s none)).1 ts t
        (reduce-Reads all st (attrtok s ∷ ts) ts (makenode s none) e term_attr) h
  in_term_sound all st (lparentok ∷ ts) t e h = in_term_sound all (opened ∷ st) ts t e h
  in_term_sound all st (complementtok ∷ ts) t e h = in_term_sound all (negated ∷ st) ts t e h
  in_term_sound all st _ t e h = absurd (ground arith)

  in_query_sound :
      (all : List Token) (st : List Frame) (q : Tree) (ts : List Token) (t : Tree)
      → Reads all (st, q) ts
      → in_query (st, q) ts ≡ some t
      → Query all [] t
  in_query_sound all [] q [] t (from, b, e, r) h = let same : q ≡ t = cc in rw (e, sym same) r
  in_query_sound all (f ∷ st) q [] t r h = absurd (ground arith)
  in_query_sound all st q (uniontok ∷ ts) t r h =
      in_term_sound all (operated union q ∷ st) ts t r (sym (in_query-operated union st q ts) ∙ h)
  in_query_sound all st q (intersectiontok ∷ ts) t r h =
      in_term_sound all (operated intersection q ∷ st) ts t r
        (sym (in_query-operated intersection st q ts) ∙ h)
  in_query_sound all st q (differencetok ∷ ts) t r h =
      in_term_sound all (operated difference q ∷ st) ts t r
        (sym (in_query-operated difference st q ts) ∙ h)
  in_query_sound all (opened ∷ st) q (rparentok ∷ ts) t (from, b, e, r) h =
      in_query_sound all (reduce st q).0 (reduce st q).1 ts t
        (reduce-Reads all st (lparentok ∷ from) ts q e (term_paren r)) h
  in_query_sound all st q _ t r h = absurd (ground arith)

-- The rules of the grammar are decided by one pass over the tokens: the automaton accepts them with
-- a tree exactly where the rules derive the whole of them with this tree, so they derive no two
-- trees.
pub run-IsParser : (ts : List Token) (t : Tree) → (run ts ≡ some t) ↔ IsInput ts t
unfolding run
run-IsParser ts t = (in_term_sound ts [] ts t refl, λ d. in_term-Query [] refl d)
