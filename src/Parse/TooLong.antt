-- ===== src/Parse/TooLong.antt =====
-- A line that does not fit the buffer of `_genders_open_and_parse`.
use genders.Base.{
  ◌-◌, ◌+◌, ℕ, Bool, true, false, some, List, [], ◌∷◌, ◌++◌, ◌≡◌, refl, leb, length, Str,
  Bool-cases, inl, inr, if◌then◌else◌, ap,
}
use genders.Libcommon.{Libcommon}
use genders.Handle.{buflen, err_parse}
use genders.Parse.State.{Parser, Outcome, P, ok, bug, failed, proceed}
use genders.Parse.Line.{parse_line}
use genders.Parse.File.{parse_lines, after_line, after_file, open_and_parse, is_err_overflow}

-- The loop behind a line that is too long, from the loop over the lines before it.
abbrev cut : Outcome (ℕ × ℕ × Bool) × Parser → Outcome (ℕ × ℕ × Bool) × Parser
cut (ok (n, l, false), q) = (ok (n, l, true), record q { errnum = err_parse })
cut r = r

-- A loop that a line too long has ended leaves GENDERS_ERR_PARSE.
abbrev LeavesParse : Outcome (ℕ × ℕ × Bool) × Parser → Type 0
LeavesParse (ok (n, l, true), q) = q.errnum ≡ err_parse
LeavesParse r = Unit {0}

after_line-cut :
    (debug : Bool) (r : Outcome (Unit {0}) × Parser) (n : ℕ) (next next' : ℕ → P (ℕ × ℕ × Bool))
    → ((m : ℕ) (q : Parser) → next' m q ≡ cut (next m q))
    → after_line debug r.0 n next' r.1 ≡ cut (after_line debug r.0 n next r.1)
unfolding after_line
after_line-cut debug (failed, q) n next next' k = refl
after_line-cut debug (ok a, q) n next next' k = k n q
after_line-cut debug (bug, q) n next next' k = k (if debug then n + 1 else n) q

after_line-LeavesParse :
    (debug : Bool) (r : Outcome (Unit {0}) × Parser) (n : ℕ) (next : ℕ → P (ℕ × ℕ × Bool))
    → ((m : ℕ) (q : Parser) → LeavesParse (next m q))
    → LeavesParse (after_line debug r.0 n next r.1)
unfolding after_line
after_line-LeavesParse debug (failed, q) n next k = tt
after_line-LeavesParse debug (ok a, q) n next k = k n q
after_line-LeavesParse debug (bug, q) n next k = k (if debug then n + 1 else n) q

module _ (L : Libcommon) (debug : Bool) where
  parse_lines-cut :
      (before : List Str) (buf : Str) (bufs : List Str) (l n : ℕ) (p : Parser)
      → leb (buflen - 1) (length buf) ≡ true
      → parse_lines L debug (before ++ buf ∷ bufs) l n p ≡ cut (parse_lines L debug before l n p)
  unfolding parse_lines
  parse_lines-cut [] buf bufs l n p e = rw e refl
  parse_lines-cut (b ∷ before) buf bufs l n p e =
      let next = if debug then l + 1 else l in
      elim (Bool-cases (leb (buflen - 1) (length b))) [
        | inl long ↦ rw long refl
        | inr short ↦ rw short (
            after_line-cut debug (parse_line L b (if debug then l else 0) p) n
              (parse_lines L debug before next) (parse_lines L debug (before ++ buf ∷ bufs) next)
              (λ m q. parse_lines-cut before buf bufs next m q e))
      ]

  parse_lines-LeavesParse :
      (bufs : List Str) (l n : ℕ) (p : Parser) → LeavesParse (parse_lines L debug bufs l n p)
  unfolding parse_lines
  parse_lines-LeavesParse [] l n p = tt
  parse_lines-LeavesParse (b ∷ bufs) l n p =
      let next = if debug then l + 1 else l in
      elim (Bool-cases (leb (buflen - 1) (length b))) [
        | inl long ↦ rw long refl
        | inr short ↦ rw short (
            after_line-LeavesParse debug (parse_line L b (if debug then l else 0) p) n
              (parse_lines L debug bufs next) (parse_lines-LeavesParse bufs next))
      ]

-- What follows the loop, in both files.
cut-refused :
    (debug at_end : Bool) (r : Outcome (ℕ × ℕ × Bool) × Parser) (n : ℕ) (q : Parser)
    → LeavesParse r
    → proceed r (after_file debug true) ≡ (ok n, q)
    → proceed (cut r) (after_file debug at_end) ≡ (failed, record q { errnum = err_parse })
unfolding after_file
cut-refused debug at_end (failed, p) n q w e = cc
cut-refused debug at_end (bug, p) n q w e = cc
cut-refused debug false (ok (m, l, false), p) n q w e =
    ap (λ x. (failed, record x { errnum = err_parse })) (ap (λ x. x.1) e)
cut-refused false true (ok (m, l, false), p) n q w e =
    ap (λ x. (failed, record x { errnum = err_parse })) (ap (λ x. x.1) e)
cut-refused true true (ok (m, l, false), p) n q w e =
    ap (λ x. (failed, record x { errnum = err_parse })) (ap (λ x. x.1) e)
cut-refused false at_end (ok (m, l, true), p) n q w e = cc
cut-refused true at_end (ok (m, l, true), p) n q w e =
    let no_overflow : is_err_overflow p.errnum ≡ false = rw w refl in
    let e' = rw no_overflow at e in cc

-- A line that does not fit the buffer, behind lines that make a file of `n` faulty lines on their
-- own: the file is refused with -1 and GENDERS_ERR_PARSE, in a debugging run and in a loading run,
-- whatever follows the line. The lines before it are read and reported as on their own, but for the
-- long line nothing is printed, and the number `n` is not returned.
pub open_and_parse-too_long :
    (L : Libcommon) (debug at_end : Bool) (before : List Str) (buf : Str) (bufs : List Str)
    (p q : Parser) (n : ℕ)
    → open_and_parse L debug (some (record { buffers = before; at_end = true })) p ≡ (ok n, q)
    → leb (buflen - 1) (length buf) ≡ true
    → open_and_parse L debug (some (record { buffers = before ++ buf ∷ bufs; at_end = at_end })) p
      ≡ (failed, record q { errnum = err_parse })
unfolding open_and_parse
open_and_parse-too_long L debug at_end before buf bufs p q n alone long =
    rw (parse_lines-cut L debug before buf bufs 1 0 p long) (
      cut-refused debug at_end (parse_lines L debug before 1 0 p) n q
        (parse_lines-LeavesParse L debug before 1 0 p) alone)
