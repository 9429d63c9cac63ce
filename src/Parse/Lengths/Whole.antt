-- ===== src/Parse/Lengths/Whole.antt =====
-- The lengths over a line and over a whole file that is loaded.
use genders.Base.{
  ℕ, ◌+◌, ◌-◌, ◌≤◌, Bool, true, false, ◌||◌, Option, none, some, List, [], ◌∷◌, arith, leb, ltb,
  length, any, ◌==◌, Bool-cases, inl, inr, Str,
}
use native.Mathlib.Nat.{le_trans}
use genders.Libcommon.{Libcommon, HashLaws, Hostlist}
use genders.Handle.{buflen, maxhostnamelen}
use genders.Parse.State.{Parser, P, Outcome, ok, bug, failed, proceed}
use genders.Parse.Text.{skip_space, strip_comment, strip_trailing, strsep, attr_tokens}
use genders.Parse.Duplicates.{duplicate_attr_checks}
use genders.Parse.Attributes.{LineAttrs, genders_max}
use genders.Parse.Line.{
  check_nodes, count_subst, no_attrs, parse_rest, add_hosts, add_read, parse_fields, parse_line,
}
use genders.Parse.File.{File, after_line, parse_lines, after_file, open_and_parse}
use genders.Parse.Lengths.{
  AllWithin, AllWithin-append, ItemsWithin-mono, LinesWithin-append, Bounds-mono, HasBounds, Keeps,
  proceed-Keeps, LineWithin, le-genders_max,
}
use genders.Parse.Lengths.Checks.{duplicate_attr_checks_keep}
use genders.Parse.Lengths.Attributes.{parse_attrs-Keeps}

-- A state with larger lengths keeps a line under construction within its bounds.
LineWithin-mono :
    (line : LineAttrs) (p q : Parser)
    → p.maxattrlen ≤ q.maxattrlen
    → p.maxvallen ≤ q.maxvallen
    → LineWithin line p
    → LineWithin line q
LineWithin-mono line p q la lv w = (
  w.0,
  ItemsWithin-mono p.maxattrlen q.maxattrlen p.maxvallen q.maxvallen line.attrval_index la lv w.1,
)

Keeps-map :
    {A : Type 0} (post post' : A → Parser → Type 0) (r : Outcome A × Parser)
    → ((a : A) (p : Parser) → post a p → post' a p)
    → Keeps post r
    → Keeps post' r
Keeps-map post post' (ok a, p) k w = (w.0, k a p w.1)
Keeps-map post post' (bug, p) k w = w
Keeps-map post post' (failed, p) k w = tt

-- The lengths of the nodes of a line are counted, and the others stay.
abbrev Counted : Hostlist → Parser → ℕ → Parser → Type 0
Counted nodes p _ q =
    AllWithin q.maxnodelen nodes
    × (p.maxnodelen ≤ q.maxnodelen)
    × (p.maxattrlen ≤ q.maxattrlen)
    × (p.maxvallen ≤ q.maxvallen)

check_nodes-Keeps :
    (nodes : Hostlist) (m : ℕ) (p : Parser)
    → HasBounds p
    → Keeps (Counted nodes p) (check_nodes nodes 0 m p)
unfolding check_nodes
check_nodes-Keeps [] m p b = (b, (tt, omega arith, omega arith, omega arith))
check_nodes-Keeps (node ∷ nodes) m p b =
    let mn = genders_max (length node) p.maxnodelen in
    let p' = record p { maxnodelen = mn } in
    let (here, more) = le-genders_max (length node) p.maxnodelen in
    elim (Bool-cases (ltb maxhostnamelen (length node))) [
      | inl e ↦ rw e tt
      | inr e ↦ rw e (
          Keeps-map (Counted nodes p') (Counted (node ∷ nodes) p)
            (check_nodes nodes 0 (genders_max (length node) m) p')
            (λ a q (w, ln, la, lv). ((le_trans here ln, w), le_trans more ln, la, lv))
            (check_nodes-Keeps nodes (genders_max (length node) m) p' (
              Bounds-mono p.maxnodelen mn p.maxattrlen p.maxattrlen p.maxvallen p.maxvallen
                p.hostnames p.genders_hosts p.attrs more (omega arith) (omega arith) b)))
    ]

-- What a line needs in order to be added.
abbrev Ready : Hostlist → LineAttrs → Parser → Type 0
Ready hl line p = HasBounds p × LineWithin line p × AllWithin p.maxnodelen hl

count_subst-Ready :
    (n m : ℕ) (hl : Hostlist) (line : LineAttrs) (p : Parser)
    → Ready hl line p
    → Ready hl line (count_subst 0 n m p)
unfolding count_subst
count_subst-Ready n m hl line p (b, w, wn) =
    let mv = genders_max (n - 2 + m) p.maxvallen in
    let more = (le-genders_max (n - 2 + m) p.maxvallen).1 in
    elim (Bool-cases (n == 0)) [
      | inl e ↦ rw e (b, w, wn)
      | inr e ↦ rw e (
        Bounds-mono p.maxnodelen p.maxnodelen p.maxattrlen p.maxattrlen p.maxvallen mv p.hostnames
            p.genders_hosts p.attrs (omega arith) (omega arith) more b,
        LineWithin-mono line p (record p { maxvallen = mv }) (omega arith) more w,
        wn,
      )
    ]

abbrev Nothing : Unit {0} → Parser → Type 0
Nothing _ _ = Unit

-- A call that keeps the bounds in every state that it leaves.
state-Keeps :
    {A : Type 0} (Q : Parser → Type 0) (r : Outcome A × Parser)
    → HasBounds r.1 × Q r.1
    → Keeps (λ _ q. Q q) r
state-Keeps Q (ok a, p) w = w
state-Keeps Q (bug, p) w = w.0
state-Keeps Q (failed, p) w = tt

module _ (L : Libcommon) (laws : HashLaws L) where
  add_hosts-Keeps :
      (hl : Hostlist) (line : LineAttrs) (p : Parser)
      → HasBounds p
      → LineWithin line p
      → Keeps Nothing (add_hosts L hl 0 line p)
  unfolding add_hosts
  add_hosts-Keeps hl line p b w =
      proceed-Keeps (λ _ q. LineWithin line q) Nothing
        (duplicate_attr_checks p.genders_hosts hl line.attrval_index 0 p) _
        (state-Keeps (λ q. LineWithin line q)
          (duplicate_attr_checks p.genders_hosts hl line.attrval_index 0 p)
          (duplicate_attr_checks_keep (λ q. HasBounds q × LineWithin line q) (λ q e s k. k)
            p.genders_hosts hl line.attrval_index 0 p (b, w)))
        (λ _ q bq wq.
          proceed-Keeps (Counted hl q) Nothing (check_nodes hl 0 0 q) _
            (check_nodes-Keeps hl 0 q bq)
            (λ m r br (wn, ln, la, lv).
              let ready =
                count_subst-Ready line.max_n_subst_vallen m hl line r
                  (br, LineWithin-mono line q r la lv wq, wn) in
              let (bs, ws, wns) = ready in
              let s = count_subst 0 line.max_n_subst_vallen m r in
              (
                record {
                  names = AllWithin-append s.maxnodelen s.hostnames hl bs.names wns;
                  lines =
                      LinesWithin-append s.maxnodelen s.maxattrlen s.maxvallen s.genders_hosts _
                        bs.lines wns ws.1;
                  keys = bs.keys;
                  distinct = bs.distinct;
                },
                tt,
              )))

  add_read-Keeps :
      (read : Option Hostlist) (line : LineAttrs) (p : Parser)
      → HasBounds p
      → LineWithin line p
      → Keeps Nothing (add_read L read 0 line p)
  unfolding add_read
  add_read-Keeps none line p b w = tt
  add_read-Keeps (some hl) line p b w = add_hosts-Keeps hl line p b w

  parse_rest-Keeps :
      (rest : Option Str) (p : Parser) → HasBounds p → Keeps LineWithin (parse_rest L rest 0 p)
  unfolding parse_rest
  parse_rest-Keeps none p b = (b, (tt, λ a av e. cc))
  parse_rest-Keeps (some rest) p b =
      let line = skip_space rest in
      elim (Bool-cases (length line == 0)) [
        | inl e ↦ rw e (b, (tt, λ a av e. cc))
        | inr e ↦
            rw e (elim (Bool-cases (any (λ c. c == b' ') line || any (λ c. c == b'\t') line)) [
              | inl blank ↦ rw blank tt
              | inr plain ↦
                  rw plain
                    (parse_attrs-Keeps L laws (attr_tokens line) no_attrs p b (tt, λ a av e. cc))
            ])
      ]

  parse_line-Keeps : (line : Str) (p : Parser) → HasBounds p → Keeps Nothing (parse_line L line 0 p)
  unfolding parse_line parse_fields
  parse_line-Keeps line p b =
      let kept = strip_trailing (strip_comment line) in
      let (nodenames, rest) = strsep (skip_space kept) (b' ' ∷ b'\t' ∷ []) in
      elim (Bool-cases (length kept == 0)) [
        | inl e ↦ rw e (b, tt)
        | inr e ↦ rw e (
            proceed-Keeps LineWithin Nothing (parse_rest L rest 0 p) _ (parse_rest-Keeps rest p b)
              (λ line' q bq wq. elim (Bool-cases (any (λ c. c == b'.') nodenames)) [
                | inl dot ↦ rw dot tt
                | inr short ↦ rw short (add_read-Keeps (L.hosts_of nodenames) line' q bq wq)
              ]))
      ]

  after_line-Keeps :
      (r : Outcome (Unit {0}) × Parser) (n : ℕ) (next : ℕ → P (ℕ × ℕ × Bool))
      → Keeps Nothing r
      → ((p : Parser) → HasBounds p → Keeps (λ _ _. Unit {0}) (next n p))
      → Keeps (λ _ _. Unit {0}) (after_line false r.0 n next r.1)
  unfolding after_line
  after_line-Keeps (failed, p) n next b k = tt
  after_line-Keeps (ok a, p) n next b k = k p b.0
  after_line-Keeps (bug, p) n next b k = k p b

  parse_lines-Keeps :
      (bufs : List Str) (line_count n : ℕ) (p : Parser)
      → HasBounds p
      → Keeps (λ _ _. Unit {0}) (parse_lines L false bufs line_count n p)
  unfolding parse_lines
  parse_lines-Keeps [] line_count n p b = (b, tt)
  parse_lines-Keeps (buf ∷ bufs) line_count n p b =
      elim (Bool-cases (leb (buflen - 1) (length buf))) [
        | inl e ↦ rw e (b, tt)
        | inr e ↦ rw e (
            after_line-Keeps (parse_line L buf 0 p) n (parse_lines L false bufs line_count)
              (parse_line-Keeps buf p b) (parse_lines-Keeps bufs line_count n))
      ]

  after_file-Keeps :
      (at_end : Bool) (r : Outcome (ℕ × ℕ × Bool) × Parser)
      → Keeps (λ _ _. Unit {0}) r
      → Keeps (λ _ _. Unit {0}) (proceed r (after_file false at_end))
  unfolding after_file
  after_file-Keeps at_end (failed, p) b = tt
  after_file-Keeps at_end (bug, p) b = b
  after_file-Keeps false (ok (n, l, too_long), p) b = tt
  after_file-Keeps true (ok (n, l, true), p) b = tt
  after_file-Keeps true (ok (n, l, false), p) b = b

  pub open_and_parse-Keeps :
      (file : Option File) (p : Parser)
      → HasBounds p
      → Keeps (λ _ _. Unit {0}) (open_and_parse L false file p)
  unfolding open_and_parse
  open_and_parse-Keeps none p b = tt
  open_and_parse-Keeps (some file) p b =
      after_file-Keeps file.at_end (parse_lines L false file.buffers 1 0 p)
        (parse_lines-Keeps file.buffers 1 0 p b)
