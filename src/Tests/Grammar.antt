-- ===== src/Tests/Grammar.antt =====
-- The theorems on the query language, for a complement of a difference.
use genders.Base.{false, some, none, List, [], ◌∷◌, ◌≡◌, ◌↔◌, refl, Str, codes, inr, str_eq, pos}
use genders.Handle.{err_syntax}
use genders.Query.{Tree, leaf, branch, query}
use genders.Query.Entry.{Finds}
use genders.Query.Token.{
  Token, attrtok, lparentok, rparentok, differencetok, complementtok, intersectiontok, uniontok,
  lex, tokens_of, scan_rule, scan_pair, put_token, is_alnum, is_word, is_joint, begins_word,
  attr_rest,
}
use genders.Query.Grammar.{
  IsInput, parse_query, term_attr, query_term, query_intersection, makenode,
}
use genders.Query.Automaton.{run, run-IsParser, in_term, in_query, reduce}
use genders.Query.Language.{IsTree, Derives, query_text, parse_query-IsTree, parse_query-query_text}
use genders.Query.Ask.{query-syntax, query-Derives}
use genders.Tests.Hostlists.{plain, plain-HostlistLaws}
use genders.Tests.Queries.{
  tree, small, two_cells, db-IsLoaded, db-CanQuery, small-IsQuery, small-HasRoom,
}
use genders.Tests.Setup.{db}

abbrev difference_tokens : List Token
difference_tokens =
    complementtok
    ∷ lparentok
    ∷ attrtok (codes "a=xn1")
    ∷ differencetok
    ∷ attrtok (codes "c")
    ∷ rparentok
    ∷ []

-- A blank ends an attribute, a joint that a word character follows does not.
lex_test : tokens_of (codes "~(a=xn1 --c)") ≡ some difference_tokens
unfolding tokens_of lex scan_rule scan_pair put_token is_alnum is_word is_joint begins_word
    attr_rest
lex_test = refl

joint_test :
    tokens_of (codes "a-b|c&&d")
    ≡ some (attrtok (codes "a-b|c") ∷ intersectiontok ∷ attrtok (codes "d") ∷ [])
unfolding tokens_of lex scan_rule scan_pair put_token is_alnum is_word is_joint begins_word
    attr_rest
joint_test = refl

-- A character that no rule matches is passed over.
ignored_test : tokens_of (codes "@a | ") ≡ some (attrtok (codes "a") ∷ [])
unfolding tokens_of lex scan_rule scan_pair put_token is_alnum is_word is_joint begins_word
    attr_rest
ignored_test = refl

run-IsParser_example : (run difference_tokens ≡ some tree) ↔ IsInput difference_tokens tree
run-IsParser_example = run-IsParser difference_tokens tree

-- The operators are applied from the left.
run_test :
    run (
      attrtok (codes "a")
      ∷ uniontok
      ∷ attrtok (codes "b")
      ∷ intersectiontok
      ∷ attrtok (codes "c")
      ∷ [])
    ≡ some (
        branch
          (codes "&&")
          (branch (codes "||") (leaf (codes "a") false) (leaf (codes "b") false) false)
          (leaf (codes "c") false)
          false)
unfolding run in_term in_query reduce makenode
run_test = refl

parse_query-IsTree_example : ((s : Str) × (parse_query run s ≡ inr tree)) ↔ IsTree tree
parse_query-IsTree_example = parse_query-IsTree run run-IsParser tree

tree-IsTree : IsTree tree
unfolding is_alnum attr_rest str_eq
tree-IsTree = (refl, (refl, refl), (refl, refl))

parse_query-query_text_example : parse_query run (query_text tree) ≡ inr tree
parse_query-query_text_example = parse_query-query_text run run-IsParser tree tree-IsTree

pub small-Derives : Derives (codes "a=xn1&&b") small
unfolding tokens_of lex scan_rule scan_pair put_token is_alnum is_word is_joint begins_word
    attr_rest makenode
small-Derives = (_, refl, query_intersection (query_term term_attr) term_attr)

query-Derives_example :
    Finds plain plain-HostlistLaws
      (parse_query run)
      (codes "a=xn1&&b")
      small
      two_cells
      db
      db.errnum
      db.valbuf
query-Derives_example =
    query-Derives plain run run-IsParser plain-HostlistLaws b'a' (codes "=xn1&&b") small two_cells
      db small-Derives db-CanQuery small-IsQuery tt small-HasRoom

pub blank-not_derived : (t : Tree) → ¬ Derives (codes " ") t
unfolding tokens_of lex scan_rule scan_pair put_token run in_term
blank-not_derived t (ts, e, d) =
    let same : ts ≡ [] = cc in let accepted = (run-IsParser [] t).1 (rw same at d) in absurd (cc)

query-syntax_example :
    query plain (parse_query run) (some two_cells) (pos 2) (some (codes " ")) db
    ≡ (none, record db { errnum = err_syntax })
query-syntax_example =
    query-syntax plain run run-IsParser b' ' [] two_cells db db-IsLoaded blank-not_derived
