-- ===== src/Query/Ask.antt =====
-- `genders_query` on the text of a query: the scanner, the grammar and the evaluation together.
use genders.Base.{pos, Option, some, none, List, ◌∷◌, ◌≡◌, refl, pos_not_negative, Str, length, ℕ}
use genders.Libcommon.{Libcommon, HostlistLaws}
use genders.Handle.{Handle, err_syntax}
use genders.Handle.Checks.{IsLoaded, loaded_check-IsLoaded}
use genders.Array.{Array}
use genders.Array.Writes.{IsFilled}
use genders.Query.{Tree, query}
use genders.Query.Correct.{CanQuery, IsQuery}
use genders.Query.Entry.{Finds, HasRoom, query-satisfies}
use genders.Query.Token.{Token}
use genders.Query.Grammar.{IsParser, parse_query}
use genders.Query.Language.{Derives, parse_query-Derives, parse_query-not_derived}

module _ (L : Libcommon) (yyparse : List Token → Option Tree) (parser : IsParser yyparse) where
  -- `genders_query` on a text from whose tokens the grammar derives no tree: it returns -1 with the
  -- error code for a syntax error, whatever the array, and changes nothing else.
  pub query-syntax :
      (c : ℕ) (q : Str) (nodes : Array) (h : Handle)
      → IsLoaded h
      → ((t : Tree) → ¬ Derives (c ∷ q) t)
      → query L (parse_query yyparse) (some nodes) (pos (length nodes)) (some (c ∷ q)) h
        ≡ (none, record h { errnum = err_syntax })
  unfolding query
  query-syntax c q nodes h loaded none_derived =
      rw
        (
          loaded_check-IsLoaded h loaded,
          pos_not_negative (length nodes),
          parse_query-not_derived yyparse parser (c ∷ q) none_derived,
        )
        refl

  -- `genders_query` on a text from whose tokens the grammar derives a tree: into an array of
  -- non-NULL cells with room for them it stores the nodes that satisfy the tree, and no others, and
  -- returns their number. The conditions on the database are those of the evaluation.
  pub query-Derives :
      (laws : HostlistLaws L) (c : ℕ) (q : Str) (t : Tree) (list : Array) (h : Handle)
      → Derives (c ∷ q) t
      → CanQuery h
      → IsQuery L h t
      → IsFilled list
      → HasRoom L h t (length list)
      → Finds L laws (parse_query yyparse) (c ∷ q) t list h h.errnum h.valbuf
  query-Derives laws c q t list h d can ok filled room =
      query-satisfies L laws (parse_query yyparse) c q t list h
        ((parse_query-Derives yyparse parser (c ∷ q) t).1 d) can ok filled room
