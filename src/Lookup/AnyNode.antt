-- ===== src/Lookup/AnyNode.antt =====
-- `genders_isattrval` against the lines of the database.
use genders.Base.{
  ℕ, Bool, true, false, ◌&&◌, ◌||◌, Option, none, some, List, [], ◌∷◌, ◌++◌, ◌≡◌, refl, arith,
  is_some, any, Bool-cases, inl, inr, Str, str_eq, str_eq_comm, str_eq_refl, select, ◌==◌,
}
use genders.Libcommon.{Hostlist, hash_find}
use genders.Handle.{Handle, Hosts, Attrval, err_success, M}
use genders.Handle.Checks.{IsLoaded, loaded_check-IsLoaded}
use genders.Value.Expand.{shown, get_valptr-shown}
use genders.Lookup.{index_is_on, isattrval_nodes, isattrval_found, isattrval_hosts, isattrval}
use genders.Nodes.Scan.{line_nodes, scan, AllRead, LineReads, IsReadable}
use genders.Nodes.Correct.{CountsAttrs}

-- Whether a list of hosts has any.
abbrev pub has_hosts : Hostlist → Bool
has_hosts [] = false
has_hosts (n ∷ ns) = true

has_hosts-append : (xs ys : Hostlist) → has_hosts (xs ++ ys) ≡ (has_hosts xs || has_hosts ys)
has_hosts-append [] ys = refl
has_hosts-append (x ∷ xs) ys = refl

has_hosts-select : (p : Str → Bool) (ns : Hostlist) → has_hosts (select p ns) ≡ any p ns
has_hosts-select p [] = refl
has_hosts-select p (n ∷ ns) = elim (Bool-cases (p n)) [
  | inl e ↦ rw e refl
  | inr e ↦ rw e (has_hosts-select p ns)
]

-- A call that says whether something holds, and changes the buffer alone.
abbrev Says : M Bool → Bool → Handle → Type 0
Says call answer h = (b : Option Str) × (call h ≡ (some answer, record h { valbuf = b }))

isattrval_nodes-Says :
    (val v : Str) (contains_subst : Bool) (ns : Hostlist) (h : Handle)
    → AllRead h v contains_subst ns
    → Says
        (isattrval_nodes val v contains_subst ns)
        (any (λ n. str_eq val (shown h n v contains_subst)) ns)
        h
unfolding isattrval_nodes
isattrval_nodes-Says val v cs [] h r = (h.valbuf, refl)
isattrval_nodes-Says val v cs (n ∷ ns) h r =
    let (b, read) = get_valptr-shown h n v cs r.0 in
    let (b', rest) = isattrval_nodes-Says val v cs ns (record h { valbuf = b }) r.1 in
    elim (Bool-cases (str_eq val (shown h n v cs))) [
      | inl e ↦ (b, rw (read, str_eq_comm (shown h n v cs) val, e) refl)
      | inr e ↦ (b', rw (read, str_eq_comm (shown h n v cs) val, e) rest)
    ]

-- On the fields of the attribute that a line has.
found_fields-Says :
    (attr val : Str) (gh : Hosts) (name : Str) (v : Option Str) (contains_subst : Bool)
    (next : M Bool) (rest : Bool) (h : Handle)
    → (let av : Attrval = record { attr = name; val = v; val_contains_subst = contains_subst } in
        name ≡ attr
        → LineReads h gh (some av)
        → ((b : Option Str) → Says next rest (record h { valbuf = b }))
        → Says
            (isattrval_found attr val gh (some av) next)
            (has_hosts (line_nodes h (some val) gh av) || rest)
            h)
unfolding isattrval_found
found_fields-Says attr val gh name none cs next rest h named r k =
    let (b, done) = k h.valbuf in
    (
      b,
      rw (named, str_eq_refl attr) (rw (has_hosts-select (λ n. false) gh.hl, any_false gh.hl) done),
    )
  where
    any_false : (ns : Hostlist) → any (λ n. false) ns ≡ false
    any_false [] = refl
    any_false (n ∷ ns) = any_false ns
found_fields-Says attr val gh name (some v) cs next rest h named r k =
    let (b, done) = isattrval_nodes-Says val v cs gh.hl h r in
    let (b', done') = k b in
    let p = λ (n : Str). str_eq val (shown h n v cs) in
    elim (Bool-cases (any p gh.hl)) [
      | inl e ↦ (b, rw (named, str_eq_refl attr, done, has_hosts-select p gh.hl, e) refl)
      | inr e ↦ (b', rw (named, str_eq_refl attr, done, has_hosts-select p gh.hl, e) done')
    ]

-- The lines store an attribute under its own name.
abbrev pub NamesFound : Str → Option Attrval → Type 0
NamesFound attr none = Unit
NamesFound attr (some av) = av.attr ≡ attr

abbrev pub NamesAttr : Str → List Hosts → Type 0
NamesAttr attr [] = Unit
NamesAttr attr (gh ∷ hosts) =
    NamesFound attr (hash_find gh.attrval_index attr) × NamesAttr attr hosts

found-Says :
    (attr val : Str) (gh : Hosts) (hosts : List Hosts) (found : Option Attrval) (next : M Bool)
    (h : Handle)
    → NamesFound attr found
    → LineReads h gh found
    → ((b : Option Str)
        → Says next (has_hosts (scan h attr (some val) hosts)) (record h { valbuf = b }))
    → Says
        (isattrval_found attr val gh found next)
        (has_hosts (elim found [
          | none ↦ scan h attr (some val) hosts
          | some av ↦ line_nodes h (some val) gh av ++ scan h attr (some val) hosts
        ]))
        h
unfolding isattrval_found
found-Says attr val gh hosts none next h named r k = k h.valbuf
found-Says attr val gh hosts (some av) next h named r k =
    rw (has_hosts-append (line_nodes h (some val) gh av) (scan h attr (some val) hosts)) (
      found_fields-Says attr val gh av.attr av.val av.val_contains_subst next
        (has_hosts (scan h attr (some val) hosts)) h named r k)

isattrval_hosts-Says :
    (attr val : Str) (hosts : List Hosts) (h : Handle)
    → NamesAttr attr hosts
    → IsReadable h attr hosts
    → Says (isattrval_hosts attr val hosts) (has_hosts (scan h attr (some val) hosts)) h
unfolding isattrval_hosts
isattrval_hosts-Says attr val [] h named r = (h.valbuf, refl)
isattrval_hosts-Says attr val (gh ∷ hosts) h named r =
    found-Says attr val gh hosts (hash_find gh.attrval_index attr) (isattrval_hosts attr val hosts)
      h named.0 r.0 (λ b. isattrval_hosts-Says attr val hosts (record h { valbuf = b }) named.1 r.1)

-- `genders_isattrval` for an attribute that is not the indexed one and a value that is not empty: it
-- returns 1 exactly if a scan of the lines for the attribute and the value finds a node, and sets
-- the error code to success. The lines store the attribute under its own name, and its values can
-- be read.
pub isattrval-scan :
    (a c : ℕ) (attr val : Str) (h : Handle)
    → IsLoaded h
    → CountsAttrs h
    → NamesAttr (a ∷ attr) h.genders_hosts
    → IsReadable h (a ∷ attr) h.genders_hosts
    → (is_some h.attrval_index && index_is_on h (a ∷ attr)) ≡ false
    → (b : Option Str) × (isattrval (some (a ∷ attr)) (some (c ∷ val)) h ≡ (
      some (has_hosts (scan h (a ∷ attr) (some (c ∷ val)) h.genders_hosts)),
      record h { errnum = err_success; valbuf = b },
    ))
unfolding isattrval
isattrval-scan a c attr val h l counts named r off = elim (Bool-cases (h.numattrs == 0)) [
  | inl e ↦
      let nothing : scan h (a ∷ attr) (some (c ∷ val)) h.genders_hosts ≡ [] =
        counts (ground arith) (a ∷ attr) (some (c ∷ val)) in
      (h.valbuf, rw (loaded_check-IsLoaded h l, off, e, nothing) refl)
  | inr e ↦
      let (b, done) = isattrval_hosts-Says (a ∷ attr) (c ∷ val) h.genders_hosts h named r in
      (b, rw (loaded_check-IsLoaded h l, off, e, done) refl)
]
