-- ===== src/Index/Table.antt =====
-- What the index under construction holds under each key.
use genders.Base.{
  ℕ, Bool, true, not, Option, none, some, [], ◌∷◌, ◌++◌, ◌≡◌, ◌≢◌, refl, sym, ◌∙◌, arith,
  if◌then◌else◌, Bool-cases, inl, inr, Str, str_eq, str_eq_iff, str_eq_refl, str_eq_comm, ap,
  append-ne-nil, select, append_assoc, append-nil, select-cons,
}
use genders.Libcommon.{Libcommon, HashLaws, Hostlist, hash_find, hosts_under, hash_find-store}
use genders.Handle.{Handle}
use genders.Value.{raw_values}
use genders.Value.Expand.{shown, get_valptr-shown}
use genders.Nodes.Scan.{AllRead}
use genders.Index.{IndexTable, push_found, push_under, index_nodes}

-- The hosts under a key.
abbrev pub under : IndexTable → Str → Hostlist
under table key = hosts_under (hash_find table.index key)

-- No key has an empty hostlist.
abbrev pub IsInhabited : IndexTable → Type 0
IsInhabited table = (j : Str) → hash_find table.index j ≢ some []

module _ (L : Libcommon) (laws : HashLaws L) where
  open laws use {find-place}

  push_found-find :
      (size : ℕ) (copied : Bool) (key : Str) (hosts : Hostlist) (table : IndexTable)
      (found : Option Hostlist) (j : Str)
      → hash_find table.index key ≡ found
      → hash_find (push_found L size copied key hosts table found).index j
        ≡ (if str_eq key j then some (hosts_under found ++ hosts) else hash_find table.index j)
  unfolding push_found
  push_found-find size copied key hosts table (some hl) j e =
      hash_find-store table.index key (hl ++ hosts) hl j e
  push_found-find size copied key hosts table none j e =
      let placed = L.place Hostlist size key [] table.index in
      let at_key = find-place Hostlist size key [] table.index key e in
      hash_find-store placed key hosts [] j (rw (str_eq_refl key) at at_key)
      ∙ rw (find-place Hostlist size key [] table.index j e) (ground arith)

  -- Pushing hosts adds them at the end of their key, and changes no other key.
  push_under-find :
      (size : ℕ) (copied : Bool) (key : Str) (hosts : Hostlist) (table : IndexTable) (j : Str)
      → hash_find (push_under L size copied key hosts table).index j
        ≡ (if str_eq key j then some (under table key ++ hosts) else hash_find table.index j)
  unfolding push_under
  push_under-find size copied key hosts table j =
      push_found-find size copied key hosts table (hash_find table.index key) j refl

  pub under-push :
      (size : ℕ) (copied : Bool) (key : Str) (hosts : Hostlist) (table : IndexTable) (j : Str)
      → under (push_under L size copied key hosts table) j
        ≡ under table j ++ (if str_eq key j then hosts else [])
  under-push size copied key hosts table j = elim (Bool-cases (str_eq key j)) [
    | inl e ↦
        let same : key ≡ j = (str_eq_iff key j).0 e in
        rw (push_under-find size copied key hosts table j) (rw (e, same))
    | inr e ↦ rw (push_under-find size copied key hosts table j) (rw (e, append-nil))
  ]

  pub push_under-IsInhabited :
      (size : ℕ) (copied : Bool) (key : Str) (hosts : Hostlist) (table : IndexTable)
      → hosts ≢ []
      → IsInhabited table
      → IsInhabited (push_under L size copied key hosts table)
  push_under-IsInhabited size copied key hosts table ne full j e =
      let found = sym (push_under-find size copied key hosts table j) ∙ e in
      elim (Bool-cases (str_eq key j)) [
        | inl same ↦
            let q : some (under table key ++ hosts) ≡ some [] = rw same at found in
            append-ne-nil (under table key) hosts ne (cc)
        | inr other ↦ full j (rw other at found)
      ]

  -- The loop over the nodes of a line files every node under the value that it reads.
  pub index_nodes-under :
      (size : ℕ) (v : Str) (nodes : Hostlist) (table : IndexTable) (h : Handle)
      → AllRead h v true nodes
      → (b : Option Str) × (t : IndexTable) × (index_nodes L size v nodes table h
          ≡ (some t, record h { valbuf = b }))
        × ((j : Str) → under t j ≡ under table j ++ select (λ n. str_eq j (shown h n v true)) nodes)
        × (IsInhabited table → IsInhabited t)
  unfolding index_nodes
  index_nodes-under size v [] table h r = (h.valbuf, table, refl, λ j. rw append-nil, λ full. full)
  index_nodes-under size v (n ∷ ns) table h r =
      let (b, read) = get_valptr-shown h n v true r.0 in
      let key = shown h n v true in
      let table' = push_under L size (not (raw_values h)) key (n ∷ []) table in
      let (b', t, done, holds, full) =
        index_nodes-under size v ns table' (record h { valbuf = b }) r.1 in
      (
        b',
        t,
        rw read done,
        λ j.
            holds j
            ∙ rw (under-push size (not (raw_values h)) key (n ∷ []) table j, append_assoc)
                (rw (str_eq_comm key j) (
                  ap (λ (z : Hostlist). under table j ++ z)
                    (sym (select-cons (λ n. str_eq j (shown h n v true)) n ns)))),
        λ f. full (push_under-IsInhabited size _ key (n ∷ []) table (λ e. cc) f),
      )
