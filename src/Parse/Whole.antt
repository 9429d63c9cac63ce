-- ===== src/Parse/Whole.antt =====
-- The invariant over a whole line and a whole file.
use genders.Base.{
  ◌&&◌, ℕ, ◌+◌, Bool, true, false, Option, none, some, List, [], ◌∷◌, ◌++◌, ◌≡◌, refl, arith, leb,
  ◌-◌, if◌then◌else◌, length, any, ◌==◌, ◌||◌, Bool-cases, inl, inr, Str,
}
use genders.Libcommon.{Libcommon, HashLaws, Hash, Hostlist}
use genders.Handle.{Hosts, Attrval, buflen}
use genders.Parse.State.{
  Parser, P, Outcome, ok, bug, failed, white_space, not_shortened, bad_nodenames, proceed,
}
use genders.Parse.Text.{skip_space, strip_comment, strip_trailing, strsep, attr_tokens}
use genders.Parse.Duplicates.{duplicate_attr_checks}
use genders.Parse.Attributes.{LineAttrs, genders_max}
use genders.Parse.Line.{
  check_nodes, count_subst, no_attrs, parse_rest, add_hosts, add_read, parse_fields, parse_line,
}
use genders.Parse.File.{File, after_line, parse_lines, after_file, open_and_parse, is_err_overflow}
use genders.Parse.Disjoint.{
  AllDisjoint, duplicate_attr_checks-AllDisjoint, duplicate_attr_checks-hosts,
}
use genders.Parse.Invariant.{
  KnownIn, AllKnown, BehindDisjoint, NoDuplicates, IsWellFormed, Ensures, proceed-Ensures,
  parse_error-Ensures, FitsAfter, parse_attrs-Ensures,
}

AllKnown-append :
    (attrs : Hash Str) (hosts : List Hosts) (gh : Hosts)
    → AllKnown attrs hosts
    → KnownIn attrs gh.attrval_index
    → AllKnown attrs (hosts ++ gh ∷ [])
AllKnown-append attrs [] gh k k' = (k', tt)
AllKnown-append attrs (g ∷ hosts) gh k k' = (k.0, AllKnown-append attrs hosts gh k.1 k')

BehindDisjoint-append :
    (g : Hosts) (hosts : List Hosts) (gh : Hosts)
    → BehindDisjoint g hosts
    → BehindDisjoint g (gh ∷ [])
    → BehindDisjoint g (hosts ++ gh ∷ [])
BehindDisjoint-append g [] gh b d = d
BehindDisjoint-append g (x ∷ hosts) gh b d = (b.0, BehindDisjoint-append g hosts gh b.1 d)

NoDuplicates-append :
    (hosts : List Hosts) (gh : Hosts)
    → NoDuplicates hosts
    → AllDisjoint hosts gh.hl gh.attrval_index
    → NoDuplicates (hosts ++ gh ∷ [])
NoDuplicates-append [] gh n d = (tt, tt)
NoDuplicates-append (g ∷ hosts) gh n d =
    (BehindDisjoint-append g hosts gh n.0 (d.0, tt), NoDuplicates-append hosts gh n.1 d.1)

-- The loop over the nodes changes lengths, the error code and the output only.
check_nodes-hosts :
    (nodes : Hostlist) (line_num m : ℕ) (p : Parser)
    → let q = (check_nodes nodes line_num m p).1 in
      (q.genders_hosts ≡ p.genders_hosts) × (q.attrs ≡ p.attrs)
unfolding check_nodes
check_nodes-hosts [] line_num m p = (refl, refl)
check_nodes-hosts (node ∷ nodes) line_num m p =
    let p' = record p { maxnodelen = genders_max (length node) p.maxnodelen } in
    ground (
      arith,
      check_nodes-hosts nodes line_num m p,
      check_nodes-hosts nodes line_num (genders_max (length node) m) p',
    )

-- A call that changes neither the lines nor the attributes.
same-Ensures :
    {A : Type 0} (post : A → Parser → Type 0) (r : Outcome A × Parser) (p : Parser)
    → IsWellFormed p.attrs p.genders_hosts
    → (r.1.genders_hosts ≡ p.genders_hosts) × (r.1.attrs ≡ p.attrs)
    → ((a : A) → r.0 ≡ ok a → post a r.1)
    → Ensures post r
same-Ensures post (ok a, q) p w (eh, ea) k = (rw (eh, ea) w, k a refl)
same-Ensures post (bug, q) p w (eh, ea) k = rw (eh, ea) w
same-Ensures post (failed, q) p w (eh, ea) k = rw (eh, ea) w

-- What a new line needs in order to be added.
abbrev CanAdd : Hostlist → Hash Attrval → Parser → Type 0
CanAdd hl index p = AllDisjoint p.genders_hosts hl index × KnownIn p.attrs index

count_subst-hosts :
    (line_num n m : ℕ) (p : Parser)
    → let q = count_subst line_num n m p in
      (q.genders_hosts ≡ p.genders_hosts) × (q.attrs ≡ p.attrs)
unfolding count_subst
count_subst-hosts line_num n m p = ground arith

abbrev Nothing : Unit {0} → Parser → Type 0
Nothing _ _ = Unit

-- A line that can be added keeps the database well formed.
IsWellFormed-append :
    (p : Parser) (hl : Hostlist) (line : LineAttrs)
    → IsWellFormed p.attrs p.genders_hosts
    → CanAdd hl line.attrval_index p
    → (let gh : Hosts = record {
      hl = hl;
      attrval_index = line.attrval_index;
      attrval_index_size = line.attrval_index_size;
    } in
        IsWellFormed p.attrs (p.genders_hosts ++ gh ∷ []))
IsWellFormed-append p hl line w can =
    let gh : Hosts = record {
      hl = hl;
      attrval_index = line.attrval_index;
      attrval_index_size = line.attrval_index_size;
    } in
    record {
      distinct = w.distinct;
      known = AllKnown-append p.attrs p.genders_hosts gh w.known can.1;
      disjoint = NoDuplicates-append p.genders_hosts gh w.disjoint can.0;
    }

Ensures-state :
    (r : Outcome (Unit {0}) × Parser) → Ensures Nothing r → IsWellFormed r.1.attrs r.1.genders_hosts
Ensures-state (ok a, q) e = e.0
Ensures-state (bug, q) e = e
Ensures-state (failed, q) e = e

module _ (L : Libcommon) (laws : HashLaws L) where
  add_hosts-Ensures :
      (hl : Hostlist) (line_num : ℕ) (line : LineAttrs) (p : Parser)
      → IsWellFormed p.attrs p.genders_hosts
      → FitsAfter line p
      → Ensures Nothing (add_hosts L hl line_num line p)
  unfolding add_hosts
  add_hosts-Ensures hl line_num line p w fits =
      let index = line.attrval_index in
      let n = line.max_n_subst_vallen in
      proceed-Ensures (λ _ q. CanAdd hl index q) Nothing
        (duplicate_attr_checks p.genders_hosts hl index line_num p) _
        (same-Ensures (λ _ q. CanAdd hl index q)
          (duplicate_attr_checks p.genders_hosts hl index line_num p) p w
          (duplicate_attr_checks-hosts p.genders_hosts hl index line_num p)
          (λ _ e. rw (duplicate_attr_checks-hosts p.genders_hosts hl index line_num p).0 (
            rw (duplicate_attr_checks-hosts p.genders_hosts hl index line_num p).1 (
              duplicate_attr_checks-AllDisjoint p.genders_hosts hl index line_num p e,
              fits.known,
            ))))
        (λ _ q wq can.
          proceed-Ensures (λ _ r. CanAdd hl index r) Nothing (check_nodes hl line_num 0 q) _
            (same-Ensures (λ _ r. CanAdd hl index r) (check_nodes hl line_num 0 q) q wq
              (check_nodes-hosts hl line_num 0 q)
              (λ _ _.
                rw (check_nodes-hosts hl line_num 0 q).0
                  (rw (check_nodes-hosts hl line_num 0 q).1 can)))
            (λ m r wr can'.
              let (eh, ea) = count_subst-hosts line_num n m r in
              rw (eh, ea) (IsWellFormed-append r hl line wr can', tt)))

  add_read-Ensures :
      (read : Option Hostlist) (line_num : ℕ) (line : LineAttrs) (p : Parser)
      → IsWellFormed p.attrs p.genders_hosts
      → FitsAfter line p
      → Ensures Nothing (add_read L read line_num line p)
  unfolding add_read
  add_read-Ensures none line_num line p w fits =
      parse_error-Ensures Nothing line_num bad_nodenames p w
  add_read-Ensures (some hl) line_num line p w fits = add_hosts-Ensures hl line_num line p w fits

  parse_rest-Ensures :
      (rest : Option Str) (line_num : ℕ) (p : Parser)
      → IsWellFormed p.attrs p.genders_hosts
      → Ensures FitsAfter (parse_rest L rest line_num p)
  unfolding parse_rest
  parse_rest-Ensures none line_num p w = (w, record { keys = tt; known = λ a e. cc })
  parse_rest-Ensures (some rest) line_num p w =
      let line = skip_space rest in
      let fits : FitsAfter no_attrs p = record { keys = tt; known = λ a e. cc } in
      elim (Bool-cases (length line == 0)) [
        | inl e ↦ rw e (w, fits)
        | inr e ↦
            rw e (elim (Bool-cases (any (λ c. c == b' ') line || any (λ c. c == b'\t') line)) [
              | inl blank ↦ rw blank (parse_error-Ensures FitsAfter line_num white_space p w)
              | inr plain ↦
                  rw plain
                    (parse_attrs-Ensures L laws (attr_tokens line) line_num no_attrs p w fits)
            ])
      ]

  parse_fields-Ensures :
      (nodenames : Str) (rest : Option Str) (line_num : ℕ) (p : Parser)
      → IsWellFormed p.attrs p.genders_hosts
      → Ensures Nothing (parse_fields L nodenames rest line_num p)
  unfolding parse_fields
  parse_fields-Ensures nodenames rest line_num p w =
      proceed-Ensures FitsAfter Nothing (parse_rest L rest line_num p) _
        (parse_rest-Ensures rest line_num p w)
        (λ line q wq fits. elim (Bool-cases (any (λ c. c == b'.') nodenames)) [
          | inl e ↦ rw e (parse_error-Ensures Nothing line_num not_shortened q wq)
          | inr e ↦ rw e (add_read-Ensures (L.hosts_of nodenames) line_num line q wq fits)
        ])

  parse_line-Ensures :
      (line : Str) (line_num : ℕ) (p : Parser)
      → IsWellFormed p.attrs p.genders_hosts
      → Ensures Nothing (parse_line L line line_num p)
  unfolding parse_line
  parse_line-Ensures line line_num p w =
      let kept = strip_trailing (strip_comment line) in
      let (nodenames, rest) = strsep (skip_space kept) (b' ' ∷ b'\t' ∷ []) in
      elim (Bool-cases (length kept == 0)) [
        | inl e ↦ rw e (w, tt)
        | inr e ↦ rw e (parse_fields-Ensures nodenames rest line_num p w)
      ]

  -- A line that is accepted, reported or refused leaves a well-formed database well formed: the
  -- attributes are distinct, those of each line are among them, and no two lines give the same
  -- attribute to one node.
  parse_line-IsWellFormed :
      (line : Str) (line_num : ℕ) (p : Parser)
      → IsWellFormed p.attrs p.genders_hosts
      → let q = (parse_line L line line_num p).1 in IsWellFormed q.attrs q.genders_hosts
  parse_line-IsWellFormed line line_num p w =
      Ensures-state (parse_line L line line_num p) (parse_line-Ensures line line_num p w)

  after_line-IsWellFormed :
      (debug : Bool) (r : Outcome (Unit {0})) (errcount : ℕ) (next : ℕ → P (ℕ × ℕ × Bool))
      (p : Parser)
      → ((n : ℕ) → let q = (next n p).1 in IsWellFormed q.attrs q.genders_hosts)
      → IsWellFormed p.attrs p.genders_hosts
      → let q = (after_line debug r errcount next p).1 in IsWellFormed q.attrs q.genders_hosts
  unfolding after_line
  after_line-IsWellFormed debug failed errcount next p k w = w
  after_line-IsWellFormed debug (ok _) errcount next p k w = k errcount
  after_line-IsWellFormed debug bug errcount next p k w =
      k (if debug then errcount + 1 else errcount)

  parse_lines-IsWellFormed :
      (debug : Bool) (bufs : List Str) (line_count errcount : ℕ) (p : Parser)
      → IsWellFormed p.attrs p.genders_hosts
      → let q = (parse_lines L debug bufs line_count errcount p).1 in
        IsWellFormed q.attrs q.genders_hosts
  unfolding parse_lines
  parse_lines-IsWellFormed debug [] line_count errcount p w = w
  parse_lines-IsWellFormed debug (buf ∷ bufs) line_count errcount p w =
      let line_num = if debug then line_count else 0 in
      let next_count = if debug then line_count + 1 else line_count in
      let w' = parse_line-IsWellFormed buf line_num p w in
      elim (Bool-cases (leb (buflen - 1) (length buf))) [
        | inl e ↦ rw e w
        | inr e ↦ rw e (
            after_line-IsWellFormed debug (parse_line L buf line_num p).0 errcount
              (parse_lines L debug bufs next_count) (parse_line L buf line_num p).1
              (λ n.
                parse_lines-IsWellFormed debug bufs next_count n (parse_line L buf line_num p).1 w')
              w')
      ]

  finished :
      (debug at_end : Bool) (r : Outcome (ℕ × ℕ × Bool) × Parser)
      → IsWellFormed r.1.attrs r.1.genders_hosts
      → let q = (proceed r (after_file debug at_end)).1 in IsWellFormed q.attrs q.genders_hosts
  unfolding after_file
  finished debug at_end (failed, p) w = w
  finished debug at_end (bug, p) w = w
  finished debug false (ok (n, l, b), p) w = w
  finished debug true (ok (n, l, true), p) w =
      elim (Bool-cases (debug && is_err_overflow p.errnum)) [ inl e ↦ rw e w | inr e ↦ rw e w ]
  finished debug true (ok (n, l, false), p) w = w

  -- A file that is accepted, reported or refused, on whichever line, leaves a well-formed database
  -- well formed.
  pub open_and_parse-IsWellFormed :
      (debug : Bool) (file : Option File) (p : Parser)
      → IsWellFormed p.attrs p.genders_hosts
      → let q = (open_and_parse L debug file p).1 in IsWellFormed q.attrs q.genders_hosts
  unfolding open_and_parse
  open_and_parse-IsWellFormed debug none p w = w
  open_and_parse-IsWellFormed debug (some file) p w =
      finished debug file.at_end (parse_lines L debug file.buffers 1 0 p)
        (parse_lines-IsWellFormed debug file.buffers 1 0 p w)
