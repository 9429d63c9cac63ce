-- ===== src/Index/Correct.antt =====
-- `genders_index_attrvals` against `scan`, and the two ways to `genders_getnodes`.
use genders.Base.{
  ℕ, Bool, true, false, Option, none, some, List, [], ◌∷◌, ◌++◌, ◌≡◌, ◌≢◌, refl, sym, ◌∙◌,
  if◌then◌else◌, Bool-cases, inl, inr, Str, str_eq, str_eq_iff, str_eq_comm, select-const,
  append_assoc, append-nil,
}
use genders.Libcommon.{Libcommon, HashLaws, Hostlist, hash_find}
use genders.Handle.{Handle, Hosts, Attrval, M, ◌>>=◌, novalue}
use genders.Nodes.Scan.{line_nodes, scan, LineReads, IsReadable}
use genders.Index.{IndexTable, push_under, index_list, index_line, index_hosts}
use genders.Index.Table.{under, under-push, IsInhabited, push_under-IsInhabited, index_nodes-under}

-- No line is without nodes.
abbrev pub HasNodes : List Hosts → Type 0
HasNodes [] = Unit
HasNodes (gh ∷ hosts) = (gh.hl ≢ []) × HasNodes hosts

-- A call that succeeds and adds to each key, but for the key of attributes without a value, the
-- nodes that are given for it. The only change to the handle is the buffer.
abbrev pub Files : M IndexTable → IndexTable → (Str → Hostlist) → Handle → Type 0
Files call table nodes h =
    (b : Option Str) × (t : IndexTable) × (call h ≡ (some t, record h { valbuf = b }))
    × ((j : Str) → j ≢ novalue → under t j ≡ under table j ++ nodes j)
    × (IsInhabited table → IsInhabited t)

str_eq_of_ne : (a b : Str) → a ≢ b → str_eq a b ≡ false
str_eq_of_ne a b ne = elim (Bool-cases (str_eq a b)) [
  | inl e ↦ absurd (ne ((str_eq_iff a b).0 e))
  | inr e ↦ e
]

module _ (L : Libcommon) (laws : HashLaws L) where
  index_list-Files :
      (size : ℕ) (key : Str) (hl : Hostlist) (table : IndexTable) (h : Handle)
      → hl ≢ []
      → Files (index_list L size key hl table) table (λ j. if str_eq key j then hl else []) h
  unfolding index_list
  index_list-Files size key [] table h ne = absurd (ne refl)
  index_list-Files size key (n ∷ ns) table h ne = (
    h.valbuf,
    push_under L size false key (n ∷ ns) table,
    refl,
    λ j _. under-push L laws size false key (n ∷ ns) table j,
    push_under-IsInhabited L laws size false key (n ∷ ns) table ne,
  )

  -- By the fields of the attribute.
  index_value-Files :
      (size : ℕ) (gh : Hosts) (attr : Str) (v : Option Str) (contains_subst : Bool)
      (table : IndexTable) (h : Handle)
      → gh.hl ≢ []
      → (let av : Attrval = record { attr = attr; val = v; val_contains_subst = contains_subst } in
          LineReads h gh (some av)
          → Files (index_line L size gh av table) table (λ j. line_nodes h (some j) gh av) h)
  unfolding index_line
  index_value-Files size gh attr none true table h ne r = cc
  index_value-Files size gh attr none false table h ne r =
      let (b, t, done, holds, full) = index_list-Files size novalue gh.hl table h ne in
      (
        b,
        t,
        done,
        λ j nj.
            holds j nj ∙ rw (str_eq_of_ne novalue j (λ e. nj (sym e)), select-const false gh.hl),
        full,
      )
  index_value-Files size gh attr (some v) true table h ne r =
      let (b, t, done, holds, full) = index_nodes-under L laws size v gh.hl table h r in
      (b, t, done, λ j _. holds j, full)
  index_value-Files size gh attr (some v) false table h ne r =
      let (b, t, done, holds, full) = index_list-Files size v gh.hl table h ne in
      (b, t, done, λ j nj. holds j nj ∙ rw (str_eq_comm v j, select-const (str_eq j v) gh.hl), full)

  index_found-Files :
      (size : ℕ) (attr : Str) (gh : Hosts) (hosts : List Hosts) (table : IndexTable) (h : Handle)
      (found : Option Attrval)
      → gh.hl ≢ []
      → LineReads h gh found
      → ((t : IndexTable) (b : Option Str)
          → Files
              (index_hosts L size attr hosts t)
              t
              (λ j. scan h attr (some j) hosts)
              (record h { valbuf = b }))
      → Files
          (elim found [
            | none ↦ index_hosts L size attr hosts table
            | some av ↦ index_line L size gh av table >>= λ t. index_hosts L size attr hosts t
          ])
          table
          (λ j. elim found [
            | none ↦ scan h attr (some j) hosts
            | some av ↦ line_nodes h (some j) gh av ++ scan h attr (some j) hosts
          ])
          h
  index_found-Files size attr gh hosts table h none ne r rest = rest table h.valbuf
  index_found-Files size attr gh hosts table h (some av) ne r rest =
      let (b, t, done, holds, full) =
        index_value-Files size gh av.attr av.val av.val_contains_subst table h ne r in
      let (b', t', done', holds', full') = rest t b in
      (
        b',
        t',
        rw done done',
        λ j nj. holds' j nj ∙ rw (holds j nj, append_assoc),
        λ f. full' (full f),
      )

  -- The loop over the lines files, under every value, the nodes that a scan finds for it.
  pub index_hosts-Files :
      (size : ℕ) (attr : Str) (hosts : List Hosts) (table : IndexTable) (h : Handle)
      → HasNodes hosts
      → IsReadable h attr hosts
      → Files (index_hosts L size attr hosts table) table (λ j. scan h attr (some j) hosts) h
  unfolding index_hosts
  index_hosts-Files size attr [] table h n r =
      (h.valbuf, table, refl, λ j _. sym (append-nil (under table j)), λ full. full)
  index_hosts-Files size attr (gh ∷ hosts) table h n r =
      index_found-Files size attr gh hosts table h (hash_find gh.attrval_index attr) n.0 r.0
        (λ t b. index_hosts-Files size attr hosts t (record h { valbuf = b }) n.1 r.1)
