-- ===== src/Nodes/Correct.antt =====
-- `genders_getnodes` against `scan`: what it returns, and when it reports an overflow.
use genders.Base.{
  ℕ, ◌≤◌, false, Option, none, some, [], ◌∷◌, ◌≡◌, refl, ◌∙◌, arith, pos_not_negative, pos, ◌==◌,
  ◌&&◌, length, Bool-cases, inl, inr, Str, is_some,
}
use native.Mathlib.Nat.{zero-add}
use genders.Libcommon.{Hostlist, hash_find, hosts_under}
use genders.Handle.{Handle, err_success}
use genders.Handle.Checks.{IsLoaded, loaded_check-IsLoaded}
use genders.Array.{Array}
use genders.Array.Writes.{IsFilled, writes}
use genders.Lookup.{index_is_on, or_empty, or_null}
use genders.Nodes.{store_found, getnodes_scanned, getnodes_indexed, getnodes_by, getnodes}
use genders.Nodes.Scan.{scan, IsReadable}
use genders.Nodes.Store.{put_nodes-Stores, put_hosts-Stores}

-- Without attributes there is no line that has one.
abbrev pub CountsAttrs : Handle → Type 0
CountsAttrs h =
    h.numattrs ≡ 0 → (attr : Str) (val : Option Str) → scan h attr val h.genders_hosts ≡ []

-- A call of `genders_getnodes` that succeeds with exactly these nodes, in this order.
abbrev pub Returns : (Array → Handle → Option (ℕ × Array) × Handle) → Hostlist → Handle → Type 0
Returns call ns h =
    (list : Array)
    → IsFilled list
    → length ns ≤ length list
    → (b : Option Str) × (call list h
        ≡ (some (length ns, writes list 0 ns), record h { errnum = err_success; valbuf = b }))

getnodes_scanned-Returns :
    (attr : Str) (val : Option Str) (h : Handle)
    → CountsAttrs h
    → IsReadable h attr h.genders_hosts
    → Returns
        (λ list. getnodes_scanned (pos (length list)) list attr val)
        (scan h attr val h.genders_hosts)
        h
unfolding getnodes_scanned
getnodes_scanned-Returns attr val h counts r list f room = elim (Bool-cases (h.numattrs == 0)) [
  | inl e ↦
      let nothing : scan h attr val h.genders_hosts ≡ [] = counts (ground arith) attr val in
      (h.valbuf, rw (e, nothing) (unfold writes in refl))
  | inr e ↦
      let (b, done) =
        put_hosts-Stores (length list) attr val h.genders_hosts h r list 0 f refl (omega arith) in
      (b, rw (e, done, zero-add))
]

-- The hosts that the index holds under a value.
abbrev pub indexed_under : Handle → Str → Hostlist
indexed_under h val = hosts_under (hash_find (or_empty h.attrval_index) val)

store_found-Returns :
    (found : Option Hostlist) (h : Handle)
    → Returns (λ list. store_found (pos (length list)) list found) (hosts_under found) h
unfolding store_found writes
store_found-Returns none h list f room = (h.valbuf, refl)
store_found-Returns (some hl) h list f room =
    let (b, done) = put_nodes-Stores (length list) hl h list 0 f refl (omega arith) in
    (b, rw (done, zero-add))

pub getnodes_indexed-Returns :
    (val : Str) (h : Handle)
    → Returns (λ list. getnodes_indexed (pos (length list)) list val) (indexed_under h val) h
unfolding getnodes_indexed
getnodes_indexed-Returns val h = store_found-Returns (hash_find (or_empty h.attrval_index) val) h

-- For an attribute that is not the indexed one the lines are scanned.
pub getnodes_by-scanned :
    (c : ℕ) (attr : Str) (val : Option Str) (list : Array) (h : Handle)
    → (is_some h.attrval_index && index_is_on h (c ∷ attr)) ≡ false
    → getnodes_by (pos (length list)) list (some (c ∷ attr)) val h
      ≡ getnodes_scanned (pos (length list)) list (c ∷ attr) val h
unfolding getnodes_by
getnodes_by-scanned c attr none list h off = refl
getnodes_by-scanned c attr (some v) list h off = rw off refl

pub scanned-Returns :
    (c : ℕ) (attr : Str) (val : Option Str) (h : Handle)
    → IsLoaded h
    → CountsAttrs h
    → IsReadable h (c ∷ attr) h.genders_hosts
    → (is_some h.attrval_index && index_is_on h (c ∷ attr)) ≡ false
    → Returns
        (λ list. getnodes (some list) (pos (length list)) (some (c ∷ attr)) val)
        (scan h (c ∷ attr) (or_null val) h.genders_hosts)
        h
unfolding getnodes getnodes_by
scanned-Returns c attr val h l counts r off list f room =
    let (b, done) = getnodes_scanned-Returns (c ∷ attr) (or_null val) h counts r list f room in
    (
      b,
      rw (loaded_check-IsLoaded h l, pos_not_negative (length list))
          (getnodes_by-scanned c attr (or_null val) list h off ∙ done),
    )

pub all-Returns :
    (val : Option Str) (h : Handle)
    → IsLoaded h
    → Returns (λ list. getnodes (some list) (pos (length list)) none val) h.hostnames h
unfolding getnodes getnodes_by
all-Returns val h l list f room =
    let (b, done) = put_nodes-Stores (length list) h.hostnames h list 0 f refl (omega arith) in
    (b, rw (loaded_check-IsLoaded h l, pos_not_negative (length list), done, zero-add))

-- `genders_getnodes` on a loaded database, for no attribute: into an array of non-NULL cells that
-- is long enough it stores every node of the database, in the order of its list of nodes. It returns their number,
-- and sets the error code to success.
getnodes_all :
    (val : Option Str) (list : Array) (h : Handle)
    → IsLoaded h
    → IsFilled list
    → length h.hostnames ≤ length list
    → (b : Option Str) × (getnodes (some list) (pos (length list)) none val h ≡ (
      some (length h.hostnames, writes list 0 h.hostnames),
      record h { errnum = err_success; valbuf = b },
    ))
getnodes_all val list h l filled room = all-Returns val h l list filled room
