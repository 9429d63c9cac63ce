-- ===== src/Nodeattr/Queries/ListNodes.antt =====
-- The nodes that `list_nodes` prints for a query.
use genders.Base.{
  ℕ, ℤ, ◌⊎◌, inl, pos, true, Option, none, some, List, [], ◌∷◌, ◌++◌, inr, ◌≡◌, refl, sym, ◌∙◌,
  arith, Str, codes, length, length-replicate, replicate, append-nil, str_eq_refl, ltb,
}
use genders.Libcommon.{Libcommon, HostlistLaws, Hostlist, hostlist_has}
use genders.Handle.{Handle, err_success}
use genders.Handle.Checks.{loaded_check-IsLoaded}
use genders.Array.{Array, nodelist_destroy, list_destroy}
use genders.Array.Writes.{stored-writes, replicate-IsFilled}
use genders.Query.{Tree}
use genders.Query.Meaning.{satisfies}
use genders.Query.Sets.{IsPlain, push_all-IsPlain}
use genders.Query.Correct.{CanQuery, IsQuery, after, from-CanQuery, nodelist_create-new}
use genders.Query.Entry.{HasRoom, query-Finds}
use genders.Query.Token.{Token}
use genders.Query.Grammar.{IsParser, parse_query}
use genders.Query.Language.{Derives, parse_query-Derives}
use genders.Nodeattr.Process.{World, call, call_only, or_exit}
use genders.Nodeattr.Calls.{Calls, Format}
use genders.Nodeattr.Calls.Buffer.{text_given, rangestr-first_given}
use genders.Nodeattr.Queries.{list_nodes, exclude, pushed, print_text, print_line}

-- The line that is printed for a text, none for the empty text.
abbrev pub line_of : Str → Str
line_of [] = []
line_of (c ∷ s) = c ∷ s ++ codes "\n"

print_line-out :
    (s : Str) (w : World) → print_line s w ≡ (inr tt, record w { out = w.out ++ line_of s })
unfolding print_line
print_line-out [] w = rw append-nil refl
print_line-out (c ∷ s) w = refl

nodelist_destroy-after :
    (list : Array) (h : Handle) (b : Option Str)
    → CanQuery h
    → (nodelist_destroy (some list) (after h b)).1 ≡ after h b
unfolding nodelist_destroy list_destroy
nodelist_destroy-after list h b q =
    let some_nodes : ltb 0 h.numnodes ≡ true = ground (arith, q.has_nodes) in
    rw (loaded_check-IsLoaded (after h b) (from-CanQuery h err_success b q).loaded, some_nodes) refl

-- The nodes of a tree are names that `hostlist_push` reads as themselves.
abbrev pub AllPlain : Libcommon → Handle → Tree → Type 0
AllPlain L h t = (n : Str) → satisfies h n t ≡ true → L.hosts_of n ≡ some (n ∷ [])

found-IsPlain :
    (L : Libcommon) (h : Handle) (t : Tree) (ns : Hostlist)
    → AllPlain L h t
    → ((n : Str) → hostlist_has ns n ≡ true → satisfies h n t ≡ true)
    → IsPlain L ns
found-IsPlain L h t [] p f = tt
found-IsPlain L h t (n ∷ ns) p f = (
  p n (f n (ground (arith, str_eq_refl n))),
  found-IsPlain L h t ns p (λ m e. f m (ground (arith, e))),
)

-- The end of a run that has, or has not, the text of the hosts.
abbrev pub prints_line : Option Str → World → (ℤ ⊎ Unit {0}) × World
prints_line none w =
    (inl (pos 1), record w { err = w.err ++ codes "nodeattr: out of memory\n" ∷ [] })
prints_line (some s) w = (inr tt, record w { out = w.out ++ line_of s })

print_text-line :
    (C : Calls) (L : Libcommon) (parse_query : Str → ℤ ⊎ Tree) (text : Option Str) (w : World)
    → print_text C L parse_query text w ≡ prints_line text w
unfolding print_text
print_text-line C L parse_query none w = refl
print_text-line C L parse_query (some s) w = print_line-out s w

module _ (L : Libcommon) (laws : HostlistLaws L) (C : Calls) (yyparse : List Token → Option Tree)
    (parser : IsParser yyparse) where
  -- `list_nodes` without `-X`, for a query from whose tokens the grammar derives a tree: the hosts
  -- of the line that it prints, sorted and in the format asked for, are exactly the nodes that
  -- satisfy the tree; nothing is printed where the text of the hosts is empty. The run ends there
  -- with status 1 and a message where `_rangestr` finds no buffer for the text. The database stays
  -- as it was. The conditions are those of the evaluation of the query, and that `hostlist_push`
  -- reads the name of each node that satisfies the tree as this one host.
  pub list_nodes-satisfies :
      (c : ℕ) (q : Str) (t : Tree) (fmt : Format) (w : World)
      → Derives (c ∷ q) t
      → CanQuery w.handle
      → IsQuery L w.handle t
      → HasRoom L w.handle t w.handle.numnodes
      → AllPlain L w.handle t
      → (hl : Hostlist) × (b : Option Str) × (list_nodes C L
            (parse_query yyparse)
            (some (c ∷ q))
            none
            fmt
            w
          ≡ prints_line
              (text_given C (L.hostlist_sort hl) fmt)
              (record w { handle = after w.handle b }))
        × ((n : Str) → hostlist_has hl n ≡ satisfies w.handle n t)
  unfolding list_nodes call call_only or_exit exclude pushed
  list_nodes-satisfies c q t fmt w d can ok room plain =
      let h = w.handle in
      let list : Array = replicate h.numnodes (some []) in
      let size : length list ≡ h.numnodes = length-replicate h.numnodes (some []) in
      let (ns, b, done, fits, has) =
        query-Finds L laws (parse_query yyparse) c q t list h err_success h.valbuf
          ((parse_query-Derives yyparse parser (c ∷ q) t).1 d) can ok
          (replicate-IsFilled h.numnodes) (rw size room) in
      (
        ns,
        b,
        rw
            (
              nodelist_create-new h can,
              rw size at done,
              stored-writes list ns fits,
              push_all-IsPlain L ns [] (found-IsPlain L h t ns plain λ n e. sym (has n) ∙ e),
              nodelist_destroy-after list h b can,
              rangestr-first_given C (L.hostlist_sort ns) fmt,
            )
            (print_text-line C L (parse_query yyparse) (text_given C (L.hostlist_sort ns) fmt)
              (record w { handle = after h b })),
        has,
      )
