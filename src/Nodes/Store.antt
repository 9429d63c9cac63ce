-- ===== src/Nodes/Store.antt =====
-- The loops of `genders_getnodes` store what `scan` describes, in its order.
use genders.Base.{
  ℕ, ◌+◌, ◌≤◌, ◌<◌, Bool, true, false, Option, none, some, List, [], ◌∷◌, ◌++◌, ◌≡◌, ◌∙◌, arith,
  pos, if◌then◌else◌, length, length-append, select, select-cons, select-const, Str, str_eq,
}
use native.Mathlib.Nat.{add-zero}
use genders.Libcommon.{Hostlist, hash_find}
use genders.Handle.{Handle, Hosts, Attrval, M, pure, ◌>>=◌}
use genders.Value.Expand.{shown, get_valptr-shown}
use genders.Array.{Array}
use genders.Array.Writes.{
  IsFilled, writes, writes-IsFilled, length-writes, writes-append, put_in_array-set,
}
use genders.Nodes.{Cursor, put_node, put_nodes, put_matching, put_line, put_hosts}
use genders.Nodes.Scan.{line_nodes, scan, AllRead, LineReads, IsReadable}

-- A loop over an array of non-NULL cells that has room stores a list of nodes. The only change to
-- the handle is the buffer.
abbrev pub Stores : ℕ → (Cursor → M Cursor) → Hostlist → Handle → Type 0
Stores m loop ns h =
    (list : Array) (i : ℕ)
    → IsFilled list
    → length list ≡ m
    → i + length ns ≤ m
    → (b : Option Str) × (loop (list, i) h
        ≡ (some (writes list i ns, i + length ns), record h { valbuf = b }))

Stores-nil : (m : ℕ) (h : Handle) → Stores m (λ cur. pure cur) [] h
unfolding writes
Stores-nil m h list i f e room = (h.valbuf, rw add-zero)

Stores-append :
    (m : ℕ) (f g : Cursor → M Cursor) (xs ys : Hostlist) (h : Handle)
    → Stores m f xs h
    → ((b : Option Str) → Stores m g ys (record h { valbuf = b }))
    → Stores m (λ cur. f cur >>= g) (xs ++ ys) h
Stores-append m f g xs ys h sf sg list i filled e room =
    let fits : i + length xs + length ys ≤ m = omega (arith, length-append xs ys) in
    let (b, ef) = sf list i filled e (omega arith) in
    let (b', eg) =
      sg b (writes list i xs) (i + length xs) (writes-IsFilled list i xs filled)
        (length-writes list i xs ∙ e) fits in
    let n : i + length xs + length ys ≡ i + length (xs ++ ys) =
      omega (arith, length-append xs ys) in
    (b', rw ef (eg ∙ rw (n, writes-append list i xs ys)))

pub put_node-Stores : (m : ℕ) (n : Str) (h : Handle) → Stores m (put_node (pos m) n) (n ∷ []) h
unfolding put_node writes
put_node-Stores m n h list i f e room =
    let lt : i < length list = omega arith in (h.valbuf, rw (← e, put_in_array-set n list i h f lt))

pub put_nodes-Stores : (m : ℕ) (ns : Hostlist) (h : Handle) → Stores m (put_nodes (pos m) ns) ns h
unfolding put_nodes
put_nodes-Stores m [] h = Stores-nil m h
put_nodes-Stores m (n ∷ ns) h =
    Stores-append m (put_node (pos m) n) (put_nodes (pos m) ns) (n ∷ []) ns h
      (put_node-Stores m n h) (λ b. put_nodes-Stores m ns (record h { valbuf = b }))

-- The choice of the loop for one node.
pub put_if-Stores :
    (m : ℕ) (test : Bool) (n : Str) (h : Handle)
    → Stores m
        (λ cur. if test then put_node (pos m) n cur else pure cur)
        (if test then n ∷ [] else [])
        h
put_if-Stores m true n h = put_node-Stores m n h
put_if-Stores m false n h = Stores-nil m h

put_matching-Stores :
    (m : ℕ) (val v : Str) (ns : Hostlist) (h : Handle)
    → AllRead h v true ns
    → Stores m (put_matching (pos m) val v ns) (select (λ n. str_eq val (shown h n v true)) ns) h
unfolding put_matching
put_matching-Stores m val v [] h r = Stores-nil m h
put_matching-Stores m val v (n ∷ ns) h r =
    let (b, read) = get_valptr-shown h n v true r.0 in
    let test = str_eq val (shown h n v true) in
    let p = λ (n : Str). str_eq val (shown h n v true) in
    rw (select-cons p n ns) (λ list i filled e room.
      let (b', done) =
        Stores-append m (λ cur. if test then put_node (pos m) n cur else pure cur)
          (put_matching (pos m) val v ns) (if test then n ∷ [] else []) (select p ns)
          (record h { valbuf = b }) (put_if-Stores m test n (record h { valbuf = b }))
          (λ c. put_matching-Stores m val v ns (record h { valbuf = c }) r.1) list i filled e
          room in
      (b', rw read done))

put_all_or_none-Stores :
    (m : ℕ) (test : Bool) (ns : Hostlist) (h : Handle)
    → Stores m
        (λ cur. if test then put_nodes (pos m) ns cur else pure cur)
        (if test then ns else [])
        h
put_all_or_none-Stores m true ns h = put_nodes-Stores m ns h
put_all_or_none-Stores m false ns h = Stores-nil m h

-- By the fields of the attribute.
put_value-Stores :
    (m : ℕ) (val : Str) (gh : Hosts) (attr : Str) (v : Option Str) (contains_subst : Bool)
    (h : Handle)
    → (let av : Attrval = record { attr = attr; val = v; val_contains_subst = contains_subst } in
        LineReads h gh (some av)
        → Stores m (put_line (pos m) (some val) gh av) (line_nodes h (some val) gh av) h)
unfolding put_line
put_value-Stores m val gh attr none cs h r = rw (select-const false gh.hl) (Stores-nil m h)
put_value-Stores m val gh attr (some v) true h r = put_matching-Stores m val v gh.hl h r
put_value-Stores m val gh attr (some v) false h r =
    rw (select-const (str_eq val v) gh.hl) (put_all_or_none-Stores m (str_eq val v) gh.hl h)

pub put_line-Stores :
    (m : ℕ) (val : Option Str) (gh : Hosts) (av : Attrval) (h : Handle)
    → LineReads h gh (some av)
    → Stores m (put_line (pos m) val gh av) (line_nodes h val gh av) h
unfolding put_line
put_line-Stores m none gh av h r = put_nodes-Stores m gh.hl h
put_line-Stores m (some val) gh av h r =
    put_value-Stores m val gh av.attr av.val av.val_contains_subst h r

put_hosts_found-Stores :
    (m : ℕ) (attr : Str) (val : Option Str) (gh : Hosts) (hosts : List Hosts) (h : Handle)
    (found : Option Attrval)
    → LineReads h gh found
    → ((b : Option Str)
        → Stores m
            (put_hosts (pos m) attr val hosts)
            (scan h attr val hosts)
            (record h { valbuf = b }))
    → Stores m
        (λ cur. elim found [
          | none ↦ put_hosts (pos m) attr val hosts cur
          | some av ↦ put_line (pos m) val gh av cur >>= put_hosts (pos m) attr val hosts
        ])
        (elim found [
          | none ↦ scan h attr val hosts
          | some av ↦ line_nodes h val gh av ++ scan h attr val hosts
        ])
        h
put_hosts_found-Stores m attr val gh hosts h none r rest = rest h.valbuf
put_hosts_found-Stores m attr val gh hosts h (some av) r rest =
    Stores-append m (put_line (pos m) val gh av) (put_hosts (pos m) attr val hosts)
      (line_nodes h val gh av) (scan h attr val hosts) h (put_line-Stores m val gh av h r) rest

-- The loop over the lines stores the nodes that the attribute and the value select.
pub put_hosts-Stores :
    (m : ℕ) (attr : Str) (val : Option Str) (hosts : List Hosts) (h : Handle)
    → IsReadable h attr hosts
    → Stores m (put_hosts (pos m) attr val hosts) (scan h attr val hosts) h
unfolding put_hosts
put_hosts-Stores m attr val [] h r = Stores-nil m h
put_hosts-Stores m attr val (gh ∷ hosts) h r =
    put_hosts_found-Stores m attr val gh hosts h (hash_find gh.attrval_index attr) r.0
      (λ b. put_hosts-Stores m attr val hosts (record h { valbuf = b }) r.1)
