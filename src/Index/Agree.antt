-- ===== src/Index/Agree.antt =====
-- What `genders_index_attrvals` leaves in the handle, and that `genders_getnodes` answers from the
-- index as it answers from the lines.
use genders.Base.{
  ℕ, ◌≤◌, true, false, Option, some, [], ◌∷◌, ◌≡◌, ◌≢◌, arith, Str, str_eq_refl, pos, length,
  is_some, ◌&&◌, pos_not_negative, eq_zero-false,
}
use genders.Libcommon.{Libcommon, HashLaws, hash_find}
use genders.Handle.{Handle, novalue, err_success}
use genders.Handle.Checks.{IsLoaded, loaded_check-IsLoaded}
use genders.Lookup.{isattr, index_is_on}
use genders.Array.{Array}
use genders.Array.Writes.{IsFilled, writes}
use genders.Nodes.{getnodes, getnodes_by}
use genders.Nodes.Scan.{scan, IsReadable}
use genders.Nodes.Correct.{Returns, getnodes_indexed-Returns}
use genders.Index.{IndexTable, build_index, index_attrvals}
use genders.Index.Table.{under, IsInhabited}
use genders.Index.Correct.{HasNodes, index_hosts-Files}

-- A loaded database in which every line has nodes and can be read for an attribute that the
-- database has.
pub record CanIndex (h : Handle) (attr : Str) : Type 0 where
  pub loaded : IsLoaded h
  pub has_attrs : h.numattrs ≢ 0
  pub has_nodes : h.numnodes ≢ 0
  pub known : is_some (hash_find h.attrs attr) ≡ true
  pub lines : HasNodes h.genders_hosts
  pub readable : IsReadable h attr h.genders_hosts

-- The handle with a new index.
abbrev pub with_index : Handle → Str → IndexTable → Option Str → Handle
with_index h attr t b = record h {
  errnum = err_success;
  valbuf = b;
  attrval_index = some t.index;
  attrval_index_attr = some attr;
  attrval_buflist = some t.buflist;
}

-- The index holds under each value the nodes that a scan finds for it, and no empty hostlist.
pub record IsIndex (h : Handle) (attr : Str) (t : IndexTable) : Type 0 where
  pub holds : (j : Str) → j ≢ novalue → under t j ≡ scan h attr (some j) h.genders_hosts
  pub inhabited : IsInhabited t

isattr_known :
    (c : ℕ) (attr : Str) (h : Handle)
    → CanIndex h (c ∷ attr)
    → isattr (some (c ∷ attr)) h ≡ (some true, record h { errnum = err_success })
unfolding isattr
isattr_known c attr h can = rw (loaded_check-IsLoaded h can.loaded) (ground arith)

-- From a handle with an index `genders_getnodes` stores what a scan finds.
getnodes-with_index :
    (c d : ℕ) (attr val : Str) (h : Handle) (b : Option Str) (t : IndexTable)
    → IsLoaded h
    → IsIndex h (c ∷ attr) t
    → (d ∷ val) ≢ novalue
    → Returns
        (λ list. getnodes (some list) (pos (length list)) (some (c ∷ attr)) (some (d ∷ val)))
        (scan h (c ∷ attr) (some (d ∷ val)) h.genders_hosts)
        (with_index h (c ∷ attr) t b)
unfolding getnodes getnodes_by
getnodes-with_index c d attr val h b t l is ne list f room =
    let g = with_index h (c ∷ attr) t b in
    let l' : IsLoaded g = record { has_magic = l.has_magic; loaded = l.loaded } in
    let held = is.holds (d ∷ val) ne in
    let (b', done) = getnodes_indexed-Returns (d ∷ val) g list f (rw held room) in
    (
      b',
      rw (loaded_check-IsLoaded g l', pos_not_negative (length list), str_eq_refl (c ∷ attr))
          (rw held at done),
    )

module _ (L : Libcommon) (laws : HashLaws L) where
  build_index-IsIndex :
      (attr : Str) (h : Handle)
      → HasNodes h.genders_hosts
      → IsReadable h attr h.genders_hosts
      → (b : Option Str) × (t : IndexTable) × (build_index L attr h
          ≡ (some tt, with_index h attr t b))
        × IsIndex h attr t
  unfolding build_index
  build_index-IsIndex attr h n r =
      let (b, t, done, holds, full) =
        index_hosts-Files L laws h.numnodes attr h.genders_hosts
          (record { index = []; buflist = [] }) h n r in
      (b, t, rw done, record { holds = holds; inhabited = full (λ j e. cc) })

  -- The call, with the whole index that it leaves.
  index_attrvals-IsIndex :
      (c : ℕ) (attr : Str) (h : Handle)
      → CanIndex h (c ∷ attr)
      → (is_some h.attrval_index && index_is_on h (c ∷ attr)) ≡ false
      → (b : Option Str) × (t : IndexTable) × (index_attrvals L (some (c ∷ attr)) h
          ≡ (some tt, with_index h (c ∷ attr) t b))
        × IsIndex h (c ∷ attr) t
  unfolding index_attrvals
  index_attrvals-IsIndex c attr h can new =
      let h1 = record h { errnum = err_success } in
      let (b, t, done, is) = build_index-IsIndex (c ∷ attr) h1 can.lines can.readable in
      (
        b,
        t,
        rw (
          loaded_check-IsLoaded h can.loaded,
          isattr_known c attr h can,
          new,
          eq_zero-false h.numnodes can.has_nodes,
          done,
        ),
        record { holds = is.holds; inhabited = is.inhabited },
      )

  after_index-Returns :
      (c d : ℕ) (attr val : Str) (h : Handle)
      → CanIndex h (c ∷ attr)
      → (is_some h.attrval_index && index_is_on h (c ∷ attr)) ≡ false
      → (d ∷ val) ≢ novalue
      → Returns
          (λ list. getnodes (some list) (pos (length list)) (some (c ∷ attr)) (some (d ∷ val)))
          (scan h (c ∷ attr) (some (d ∷ val)) h.genders_hosts)
          (index_attrvals L (some (c ∷ attr)) h).1
  after_index-Returns c d attr val h can new ne =
      let (b, t, made, is) = index_attrvals-IsIndex c attr h can new in
      rw made (getnodes-with_index c d attr val h b t can.loaded is ne)

  -- Where a database can be indexed by an attribute that is not indexed yet, the call succeeds, and
  -- the only changes to the handle are the error code, the buffer and the index. Under a value, but
  -- not under the text that stands for no value, the index holds, in file order, the nodes whose
  -- substituted value it is.
  index_attrvals-under :
      (c : ℕ) (attr val : Str) (h : Handle)
      → CanIndex h (c ∷ attr)
      → (is_some h.attrval_index && index_is_on h (c ∷ attr)) ≡ false
      → val ≢ novalue
      → (b : Option Str) × (t : IndexTable) × (index_attrvals L (some (c ∷ attr)) h
          ≡ (some tt, with_index h (c ∷ attr) t b))
        × (under t val ≡ scan h (c ∷ attr) (some val) h.genders_hosts)
  index_attrvals-under c attr val h can new ne =
      let (b, t, made, is) = index_attrvals-IsIndex c attr h can new in
      (b, t, made, is.holds val ne)

  -- After the index is made, `genders_getnodes` for its attribute and a value stores the same nodes
  -- in the same order as the scan of the lines, and returns their number. The array has non-NULL
  -- cells and is long enough, and the value is neither empty nor the text that stands for no value.
  pub getnodes_after_index :
      (c d : ℕ) (attr val : Str) (list : Array) (h : Handle)
      → CanIndex h (c ∷ attr)
      → (is_some h.attrval_index && index_is_on h (c ∷ attr)) ≡ false
      → (d ∷ val) ≢ novalue
      → IsFilled list
      → length (scan h (c ∷ attr) (some (d ∷ val)) h.genders_hosts) ≤ length list
      → (let ns = scan h (c ∷ attr) (some (d ∷ val)) h.genders_hosts in
          let g = (index_attrvals L (some (c ∷ attr)) h).1 in
          (b : Option Str) × (getnodes
              (some list)
              (pos (length list))
              (some (c ∷ attr))
              (some (d ∷ val))
              g
            ≡ (some (length ns, writes list 0 ns), record g { errnum = err_success; valbuf = b })))
  getnodes_after_index c d attr val list h can new ne filled room =
      after_index-Returns c d attr val h can new ne list filled room
