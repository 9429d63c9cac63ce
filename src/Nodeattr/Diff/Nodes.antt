-- ===== src/Nodeattr/Diff/Nodes.antt =====
-- The first test of `_diff`: the nodes of the two databases.
use native.Mathlib.Nat.{zero-add}
use genders.Base.{
  suc, ◌+◌, Bool, not, some, List, [], ◌∷◌, ◌++◌, inl, inr, ◌≡◌, ◌≢◌, refl, arith, Str, codes,
  length, select, append-nil, append_assoc, Bool-cases, eq_zero-false,
}
use genders.Libcommon.{hostlist_has}
use genders.Handle.{Handle}
use genders.Handle.Checks.{IsLoaded, loaded_check-IsLoaded}
use genders.Lookup.{isnode}
use genders.Nodeattr.Process.{World, P, call, call_other, or_exit}
use genders.Nodeattr.Compare.{report, report_missing, isnode_other, isnode_first, quote}
use genders.Nodeattr.Diff.{diff_nodes}

-- The names are not empty.
abbrev pub AllNamed : List Str → Type 0
AllNamed [] = Unit {0}
AllNamed (s ∷ ss) = (s ≢ []) × AllNamed ss

-- The names that a database does not have.
abbrev pub missing : Handle → List Str → List Str
missing h ss = select (λ n. not (hostlist_has h.hostnames n)) ss

-- A message for each of some texts.
abbrev pub messages : (Str → Str) → List Str → List Str
messages msg [] = []
messages msg (s ∷ ss) = msg s ∷ messages msg ss

isnode-known :
    (s : Str) (h : Handle)
    → s ≢ []
    → IsLoaded h
    → h.numnodes ≢ 0
    → isnode (some s) h ≡ (some (hostlist_has h.hostnames s), h)
unfolding isnode
isnode-known [] h ne l some_nodes = absurd (ne refl)
isnode-known (c ∷ s) h ne l some_nodes =
    rw (loaded_check-IsLoaded h l, eq_zero-false h.numnodes some_nodes) refl

-- The state with some messages.
abbrev pub with_messages : World → List Str → World
with_messages w msgs = record w { err = msgs }

-- A question that is answered from the names of a database and changes nothing.
abbrev Asks : World → Handle → (Str → P Bool) → Type 0
Asks w db is_there =
    (s : Str) (msgs : List Str)
    → s ≢ []
    → is_there s (with_messages w msgs) ≡ (inr (hostlist_has db.hostnames s), with_messages w msgs)

isnode_other-Asks :
    (w : World) → IsLoaded w.other → w.other.numnodes ≢ 0 → Asks w w.other isnode_other
unfolding call_other or_exit
isnode_other-Asks w l some_nodes s msgs ne = rw (isnode-known s w.other ne l some_nodes) refl

isnode_first-Asks :
    (w : World) → IsLoaded w.handle → w.handle.numnodes ≢ 0 → Asks w w.handle isnode_first
unfolding call or_exit
isnode_first-Asks w l some_nodes s msgs ne = rw (isnode-known s w.handle ne l some_nodes) refl

report_missing-missing :
    (w : World) (db : Handle) (is_there : Str → P Bool) (msg : Str → Str) (ss msgs : List Str)
    → Asks w db is_there
    → AllNamed ss
    → report_missing is_there msg ss (with_messages w msgs)
      ≡ (inr (length (missing db ss)), with_messages w (msgs ++ messages msg (missing db ss)))
unfolding report_missing report
report_missing-missing w db is_there msg [] msgs asks named = rw append-nil refl
report_missing-missing w db is_there msg (s ∷ ss) msgs asks (ne, named) =
    elim (Bool-cases (hostlist_has db.hostnames s)) [
      | inl e ↦
          rw
            (
              asks s msgs ne,
              e,
              report_missing-missing w db is_there msg ss msgs asks named,
              zero-add,
            )
            refl
      | inr e ↦
          let one : 1 + length (missing db ss) ≡ suc (length (missing db ss)) = omega arith in
          rw
            (
              asks s msgs ne,
              e,
              report_missing-missing w db is_there msg ss (msgs ++ msg s ∷ []) asks named,
              one,
              append_assoc,
            )
            refl
    ]

abbrev pub does_not_exist : Str → Str → Str
does_not_exist dfilename node =
    dfilename ++ codes ": Node " ++ quote node ++ codes " does not exist\n"

abbrev pub additional_node : Str → Str → Str
additional_node dfilename node =
    dfilename ++ codes ": Contains additional node " ++ quote node ++ codes "\n"

-- The first test of `_diff`, on two loaded databases with nodes and on lists of names that are not
-- empty: it prints a message for each name of the first list that the second database does not
-- have, then one for each name of the second list that the first database does not have, and no
-- other. It counts them, and changes neither database.
diff_nodes-missing :
    (dfilename : Str) (nodes dnodes : List Str) (w : World)
    → IsLoaded w.handle
    → w.handle.numnodes ≢ 0
    → IsLoaded w.other
    → w.other.numnodes ≢ 0
    → AllNamed nodes
    → AllNamed dnodes
    → diff_nodes dfilename nodes dnodes w ≡ (
      inr (length (missing w.other nodes) + length (missing w.handle dnodes)),
      with_messages w (
          w.err
          ++ messages (does_not_exist dfilename) (missing w.other nodes)
          ++ messages (additional_node dfilename) (missing w.handle dnodes)),
    )
unfolding diff_nodes
diff_nodes-missing dfilename nodes dnodes w l some_nodes dl some_dnodes named dnamed =
    rw
      (
        report_missing-missing w w.other isnode_other (does_not_exist dfilename) nodes w.err
            (isnode_other-Asks w dl some_dnodes) named,
        report_missing-missing w w.handle isnode_first (additional_node dfilename) dnodes
            (w.err ++ messages (does_not_exist dfilename) (missing w.other nodes))
            (isnode_first-Asks w l some_nodes) dnamed,
        append_assoc,
      )
      refl
