-- ===== src/Query/Grammar.antt =====
-- src/libgenders/genders_query.y: the grammar of a query, with the trees that its actions make.
use genders.Base.{false, Option, none, some, List, [], ◌∷◌, ◌≡◌, ◌↔◌, Str, codes, ℤ, ◌⊎◌, inl, inr}
use genders.Handle.{err_syntax}
use genders.Query.{Tree, leaf, branch, set_complement_flag}
use genders.Query.Token.{
  Token, attrtok, lparentok, rparentok, uniontok, intersectiontok, differencetok, complementtok,
  tokens_of,
}

-- `_genders_makenode`, where the memory is had: an operator with two operands, or an attribute.
unfoldable pub makenode : Str → Option (Tree × Tree) → Tree
makenode str none = leaf str false
makenode str (some (left, right)) = branch str left right false

-- The rules, from the tokens at hand to the tokens that are left: `term` and `query`.
mutual
  pub data Term : List Token → List Token → Tree → Type 0 where
    term_attr : {s : Str} {ts : List Token} → Term (attrtok s ∷ ts) ts (makenode s none)
    term_paren :
        {ts rest : List Token} {t : Tree}
        → Query ts (rparentok ∷ rest) t
        → Term (lparentok ∷ ts) rest t
    term_complement :
        {ts rest : List Token} {t : Tree}
        → Term ts rest t
        → Term (complementtok ∷ ts) rest (set_complement_flag t)

  pub data Query : List Token → List Token → Tree → Type 0 where
    query_term : {ts rest : List Token} {t : Tree} → Term ts rest t → Query ts rest t
    query_union :
        {ts mid rest : List Token} {l r : Tree}
        → Query ts (uniontok ∷ mid) l
        → Term mid rest r
        → Query ts rest (makenode (codes "||") (some (l, r)))
    query_intersection :
        {ts mid rest : List Token} {l r : Tree}
        → Query ts (intersectiontok ∷ mid) l
        → Term mid rest r
        → Query ts rest (makenode (codes "&&") (some (l, r)))
    query_difference :
        {ts mid rest : List Token} {l r : Tree}
        → Query ts (differencetok ∷ mid) l
        → Term mid rest r
        → Query ts rest (makenode (codes "--") (some (l, r)))

-- The tree that `genders_treeroot` holds after the rule `input`, for the whole of the tokens.
abbrev pub IsInput : List Token → Tree → Type 0
IsInput ts t = Query ts [] t

-- `yyparse` is generated from the rules: it makes a tree exactly where they derive one.
abbrev pub IsParser : (List Token → Option Tree) → Type 0
IsParser yyparse = (ts : List Token) (t : Tree) → (yyparse ts ≡ some t) ↔ IsInput ts t

-- A syntax error where `yyerror` was called or no tree was made.
abbrev pub treeroot : Option Tree → ℤ ⊎ Tree
treeroot none = inl err_syntax
treeroot (some t) = inr t

abbrev pub read_tokens : (List Token → Option Tree) → Option (List Token) → ℤ ⊎ Tree
read_tokens yyparse none = inl err_syntax
read_tokens yyparse (some ts) = treeroot (yyparse ts)

-- `_parse_query`, where the pipe and the streams can be made.
unfoldable pub parse_query : (List Token → Option Tree) → Str → ℤ ⊎ Tree
parse_query yyparse s = read_tokens yyparse (tokens_of s)
