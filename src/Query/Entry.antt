-- ===== src/Query/Entry.antt =====
-- `genders_query` and `genders_testquery` against the meaning of a query.
use genders.Base.{
  ℕ, ℤ, ◌≤◌, Option, some, [], ◌∷◌, ◌≡◌, refl, arith, pos, length, length-replicate, replicate, Str,
  ◌⊎◌, inr, pos_not_negative,
}
use native.Mathlib.Nat.{zero-add}
use genders.Libcommon.{Libcommon, HostlistLaws, Hostlist, hostlist_has}
use genders.Handle.{Handle, err_success}
use genders.Handle.Checks.{loaded_check-IsLoaded}
use genders.Array.{Array}
use genders.Array.Writes.{IsFilled, writes, stored-writes, replicate-IsFilled}
use genders.Lookup.{or_nodename}
use genders.Lookup.Correct.{IsKnown}
use genders.Nodes.Store.{put_nodes-Stores}
use genders.Query.{Tree, query, testquery}
use genders.Query.Meaning.{satisfies}
use genders.Query.Correct.{
  CanQuery, IsQuery, after, from-CanQuery, nodelist_create-new, calc_query-Selects,
}

-- The nodes that satisfy a query fit into an array.
abbrev pub HasRoom : Libcommon → Handle → Tree → ℕ → Type 0
HasRoom L h t size =
    (hl : Hostlist)
    → ((n : Str) → hostlist_has (L.hostlist_uniq hl) n ≡ satisfies h n t)
    → length (L.hostlist_uniq hl) ≤ size

module _ (L : Libcommon) (laws : HostlistLaws L) (parse_query : Str → ℤ ⊎ Tree) where
  -- The nodes that a call has stored, from any error code and any buffer.
  abbrev pub Finds : Str → Tree → Array → Handle → ℤ → Option Str → Type 0
  Finds q t list h e b =
      (ns : Hostlist) × (b' : Option Str) × (query L parse_query (some list) (pos (length list))
          (some q) (record h { errnum = e; valbuf = b })
        ≡ (some (length ns, writes list 0 ns), after h b'))
      × (length ns ≤ length list)
      × ((n : Str) → hostlist_has ns n ≡ satisfies h n t)

  pub query-Finds :
      (c : ℕ) (q : Str) (t : Tree) (list : Array) (h : Handle) (e : ℤ) (b : Option Str)
      → parse_query (c ∷ q) ≡ inr t
      → CanQuery h
      → IsQuery L h t
      → IsFilled list
      → HasRoom L h t (length list)
      → Finds (c ∷ q) t list h e b
  unfolding query
  query-Finds c q t list h e b parsed can ok filled room =
      let (b1, hl, done, has) = calc_query-Selects L laws t h e b can ok in
      let ns = L.hostlist_uniq hl in
      let (b2, put) =
        put_nodes-Stores (length list) ns (after h b1) list 0 filled refl
          (omega (arith, room hl has)) in
      (
        ns,
        b2,
        rw
            (
              loaded_check-IsLoaded (record h { errnum = e; valbuf = b })
                  (from-CanQuery h e b can).loaded,
              pos_not_negative (length list),
              parsed,
              done,
              put,
              zero-add,
            )
            refl,
        room hl has,
        has,
      )

  -- `genders_query` on a query that parses: into an array of non-NULL cells with room for them it
  -- stores nodes, and a node is among them exactly when it satisfies the query. It returns their
  -- number. The conditions on the database and the query are those of its evaluation.
  pub query-satisfies :
      (c : ℕ) (q : Str) (t : Tree) (list : Array) (h : Handle)
      → parse_query (c ∷ q) ≡ inr t
      → CanQuery h
      → IsQuery L h t
      → IsFilled list
      → HasRoom L h t (length list)
      → Finds (c ∷ q) t list h h.errnum h.valbuf
  query-satisfies c q t list h parsed can ok filled room =
      query-Finds c q t list h h.errnum h.valbuf parsed can ok filled room

  -- `genders_testquery` on a query that parses, for a node of the database: it returns 1 exactly if
  -- the node satisfies the query, and sets the error code to success. The conditions are those of
  -- the evaluation, and that the nodes of the result are no more than the nodes of the database.
  pub testquery-satisfies :
      (node : Option Str) (c : ℕ) (q : Str) (t : Tree) (h : Handle)
      → parse_query (c ∷ q) ≡ inr t
      → CanQuery h
      → IsKnown h (or_nodename node h)
      → IsQuery L h t
      → HasRoom L h t h.numnodes
      → (b : Option Str) × (testquery L parse_query node (some (c ∷ q)) h
          ≡ (some (satisfies h (or_nodename node h) t), after h b))
  unfolding testquery
  testquery-satisfies node c q t h parsed can known ok room =
      let list : Array = replicate h.numnodes (some []) in
      let size : length list ≡ h.numnodes = length-replicate h.numnodes (some []) in
      let (ns, b, done, fits, has) =
        query-Finds c q t list h err_success h.valbuf parsed can ok (replicate-IsFilled h.numnodes)
          (rw size room) in
      (
        b,
        rw
            (
              loaded_check-IsLoaded h can.loaded,
              known.some_nodes,
              known.listed,
              nodelist_create-new h can,
              rw size at done,
              stored-writes list ns fits,
              has (or_nodename node h),
            )
            refl,
      )
