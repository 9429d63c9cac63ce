-- ===== src/Query/Correct.antt =====
-- `_calc_query` against the meaning of a query.
use genders.Base.{
  ℕ, ℤ, ◌≤◌, Bool, true, false, not, ◌&&◌, Option, none, some, [], ◌∷◌, ◌≡◌, ◌≢◌, refl, ◌∙◌, arith,
  pos, length, length-replicate, replicate, Str, select,
}
use genders.Libcommon.{Libcommon, HostlistLaws, Hostlist, hostlist_has, hostlist_has-select}
use genders.Handle.{Handle, M, err_success}
use genders.Handle.Checks.{IsLoaded, loaded_check-IsLoaded}
use genders.Array.{Array, nodelist_create, list_create}
use genders.Array.Writes.{writes, stored, stored-writes, replicate-IsFilled}
use genders.Lookup.{or_null}
use genders.Nodes.{getnodes}
use genders.Nodes.Scan.{scan, IsReadable}
use genders.Nodes.Correct.{CountsAttrs, Returns, scanned-Returns, all-Returns}
use genders.Query.{
  Tree, leaf, branch, split_query, calc_attrval_nodes, calc_complement, uniq_or_fail, complement_if,
  calc_query,
}
use genders.Query.Meaning.{has_attr, negate_if, satisfies, scan-has_attr}
use genders.Query.Sets.{IsPlain, push_all-IsPlain, HasText, IsOperator, calc_operator-has}

-- A loaded database with nodes, with no index, whose counters are right.
pub record CanQuery (h : Handle) : Type 0 where
  pub loaded : IsLoaded h
  pub has_nodes : h.numnodes ≢ 0
  pub counts_nodes : h.numnodes ≡ length h.hostnames
  pub counts_attrs : CountsAttrs h
  pub no_index : h.attrval_index ≡ none

-- A leaf names an attribute; its values can be read, its nodes fit into an array of all nodes and
-- are plain names.
pub record CanEval (L : Libcommon) (h : Handle) (str : Str) : Type 0 where
  pub named : (split_query str).0 ≢ []
  pub readable : IsReadable h (split_query str).0 h.genders_hosts
  pub fits :
      length (scan h (split_query str).0 (or_null (split_query str).1) h.genders_hosts) ≤ h.numnodes
  pub plain : IsPlain L (scan h (split_query str).0 (or_null (split_query str).1) h.genders_hosts)

-- The text of the nodes that satisfy a query fits the buffer.
abbrev pub IsShort : Libcommon → Handle → Tree → Type 0
IsShort L h t =
    (hl : Hostlist)
    → ((n : Str) → hostlist_has (L.hostlist_uniq hl) n ≡ satisfies h n t)
    → HasText L (L.hostlist_uniq hl)

-- A tree that the grammar can make, over such leaves, whose operands have short texts.
abbrev pub IsQuery : Libcommon → Handle → Tree → Type 0
IsQuery L h (leaf str c) = CanEval L h str
IsQuery L h (branch op l r c) =
    IsOperator op × IsShort L h l × IsShort L h r × IsQuery L h l × IsQuery L h r

-- The handle after calls that leave success and some text in the buffer.
abbrev pub after : Handle → Option Str → Handle
after h b = record h { errnum = err_success; valbuf = b }

pub from-CanQuery :
    (h : Handle) (e : ℤ) (b : Option Str)
    → CanQuery h
    → CanQuery (record h { errnum = e; valbuf = b })
from-CanQuery h e b q = record {
  loaded = record { has_magic = q.loaded.has_magic; loaded = q.loaded.loaded };
  has_nodes = q.has_nodes;
  counts_nodes = q.counts_nodes;
  counts_attrs = q.counts_attrs;
  no_index = q.no_index;
}

pub nodelist_create-new :
    (h : Handle)
    → CanQuery h
    → nodelist_create true h
      ≡ (some (some (replicate h.numnodes (some [])), h.numnodes), after h h.valbuf)
unfolding nodelist_create list_create
nodelist_create-new h q = rw (loaded_check-IsLoaded h q.loaded) (ground (arith, q.has_nodes))

-- A call into a new array of `n` cells.
into_new :
    (attr val : Option Str) (ns : Hostlist) (h : Handle) (n : ℕ)
    → Returns (λ list. getnodes (some list) (pos (length list)) attr val) ns h
    → length ns ≤ n
    → (b : Option Str) × (w : Array) × (getnodes (some (replicate n (some []))) (pos n) attr val h
        ≡ (some (length ns, w), after h b))
      × (stored (length ns) w ≡ ns)
into_new attr val ns h n call fits =
    let list : Array = replicate n (some []) in
    let size : length list ≡ n = length-replicate n (some []) in
    let room : length ns ≤ length list = omega arith in
    let (b, done) = call list (replicate-IsFilled n) room in
    (b, writes list 0 ns, rw size at done, stored-writes list ns room)

getnodes_named :
    (attr : Str) (val : Option Str) (h : Handle)
    → CanQuery h
    → attr ≢ []
    → IsReadable h attr h.genders_hosts
    → Returns
        (λ list. getnodes (some list) (pos (length list)) (some attr) val)
        (scan h attr (or_null val) h.genders_hosts)
        h
getnodes_named [] val h q ne r = absurd (ne refl)
getnodes_named (c ∷ attr) val h q ne r =
    scanned-Returns c attr val h q.loaded q.counts_attrs r (rw q.no_index)

module _ (L : Libcommon) (laws : HostlistLaws L) where
  open laws use {has-uniq}

  -- A call that succeeds with a hostlist of exactly the nodes that pass a test.
  abbrev pub Selects : M Hostlist → (Str → Bool) → Handle → Type 0
  Selects call p h =
      (b : Option Str) × (hl : Hostlist) × (call h ≡ (some (L.hostlist_uniq hl), after h b))
      × ((n : Str) → hostlist_has (L.hostlist_uniq hl) n ≡ p n)

  calc_attrval_nodes-Selects :
      (str : Str) (h : Handle)
      → CanQuery h
      → CanEval L h str
      → Selects
          (calc_attrval_nodes L str)
          (λ n. has_attr h (split_query str).0 (or_null (split_query str).1) n h.genders_hosts)
          h
  unfolding calc_attrval_nodes uniq_or_fail
  calc_attrval_nodes-Selects str h q ok =
      let (attr, val) = split_query str in
      let ns = scan h attr (or_null val) h.genders_hosts in
      let g = after h h.valbuf in
      let (b, w, done, same) =
        into_new (some attr) val ns g h.numnodes
          (getnodes_named attr val g (from-CanQuery h err_success h.valbuf q) ok.named ok.readable)
          ok.fits in
      (
        b,
        ns,
        rw (nodelist_create-new h q, done, same, push_all-IsPlain L ns [] ok.plain),
        λ n. has-uniq ns n ∙ scan-has_attr h attr (or_null val) n h.genders_hosts,
      )

  calc_complement-Selects :
      (hl : Hostlist) (h : Handle)
      → CanQuery h
      → Selects
          (calc_complement L hl)
          (λ n. hostlist_has h.hostnames n && not (hostlist_has hl n))
          h
  unfolding calc_complement
  calc_complement-Selects hl h q =
      let g = after h h.valbuf in
      let q' = from-CanQuery h err_success h.valbuf q in
      let (b, w, done, same) =
        into_new none none h.hostnames g h.numnodes (all-Returns none g q'.loaded)
          (omega (arith, q.counts_nodes)) in
      (
        b,
        select (λ n. not (hostlist_has hl n)) h.hostnames,
        rw (nodelist_create-new h q, done, same),
        λ n. has-uniq _ n ∙ hostlist_has-select (λ n. not (hostlist_has hl n)) h.hostnames n,
      )

  complement_if-Selects :
      (c : Bool) (hl : Hostlist) (b : Option Str) (h : Handle)
      → CanQuery h
      → Selects
          (λ g. complement_if L c (L.hostlist_uniq hl) (after h b))
          (λ n. negate_if c h n (hostlist_has (L.hostlist_uniq hl) n))
          h
  complement_if-Selects false hl b h q = (b, hl, refl, λ n. refl)
  complement_if-Selects true hl b h q =
      calc_complement-Selects (L.hostlist_uniq hl) (after h b) (from-CanQuery h err_success b q)

  -- From any error code and any buffer.
  pub calc_query-Selects :
      (t : Tree) (h : Handle) (e : ℤ) (b : Option Str)
      → CanQuery h
      → IsQuery L h t
      → Selects (λ g. calc_query L t (record h { errnum = e; valbuf = b })) (λ n. satisfies h n t) h
  unfolding calc_query satisfies
  calc_query-Selects (leaf str c) h e b q ok =
      let g = record h { errnum = e; valbuf = b } in
      let eval : CanEval L g str = record {
        named = ok.named;
        readable = ok.readable;
        fits = ok.fits;
        plain = ok.plain;
      } in
      let (b1, hl, done, has) = calc_attrval_nodes-Selects str g (from-CanQuery h e b q) eval in
      let (b2, hl', done', has') = complement_if-Selects c hl b1 h q in
      (b2, hl', rw done done', λ n. has' n ∙ rw (has n))
  calc_query-Selects (branch op l r c) h e b q ok =
      let (bl, ll, donel, hasl) = calc_query-Selects l h e b q ok.3 in
      let (br, lr, doner, hasr) = calc_query-Selects r h err_success bl q ok.4 in
      let (hl, made, has) =
        calc_operator-has L laws op (L.hostlist_uniq ll) (L.hostlist_uniq lr) (after h br) ok.0
          (ok.1 ll hasl) (ok.2 lr hasr) in
      let (b', hl', done', has') = complement_if-Selects c hl br h q in
      (b', hl', rw (donel, doner, made) done', λ n. has' n ∙ rw (has n, hasl n, hasr n))

  -- The evaluation of a query by set operations on hostlists succeeds, and a node is in the result
  -- exactly when it satisfies the query by the lines of the database. The only changes to the
  -- handle are the error code, which is success, and the buffer. The database has no index; every
  -- leaf names an attribute whose values can be read, and its nodes are plain names that fit into
  -- an array of all nodes; the ranged text of the nodes of an operand fits its buffer.
  pub calc_query-satisfies :
      (t : Tree) (h : Handle)
      → CanQuery h
      → IsQuery L h t
      → Selects (calc_query L t) (λ n. satisfies h n t) h
  calc_query-satisfies t h q ok = calc_query-Selects t h h.errnum h.valbuf q ok
