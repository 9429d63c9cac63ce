-- ===== src/Parse/File.antt =====
-- `_genders_open_and_parse`. Input is a parameter: the buffers that the calls of `fgets` return,
-- and whether the file is then at its end.
use genders.Base.{
  ℕ, ℤ, pos_part, neg_part, ◌==◌, ◌&&◌, ◌+◌, ◌-◌, Bool, true, false, not, Option, none, some, List,
  [], ◌∷◌, leb, if◌then◌else◌, length, Str,
}
use genders.Libcommon.{Libcommon}
use genders.Handle.{buflen, err_parse, err_open, err_overflow}
use genders.Parse.State.{P, Outcome, ok, bug, failed, pure, proceed, print, line_too_long}
use genders.Parse.Line.{parse_line}

pub record File : Type 0 where
  pub buffers : List Str
  pub at_end : Bool

-- `handle->errnum == GENDERS_ERR_OVERFLOW`
abbrev pub is_err_overflow : ℤ → Bool
is_err_overflow e = pos_part e == pos_part err_overflow && neg_part e == neg_part err_overflow

-- What the loop does with the result of a line, `next` being the rest of the loop from a count of
-- faulty lines.
unfoldable pub after_line :
    Bool → Outcome (Unit {0}) → ℕ → (ℕ → P (ℕ × ℕ × Bool)) → P (ℕ × ℕ × Bool)
after_line debug failed errcount next p = (failed, p)
after_line debug (ok _) errcount next p = next errcount p
after_line debug bug errcount next p = next (if debug then errcount + 1 else errcount) p

module _ (L : Libcommon) where
  -- The loop over the lines. The result is the count of faulty lines, the number of the line that
  -- comes next in a debugging run, and whether the last line
  -- read was too long for the buffer, which ends the loop. An error of a line ends the function.
  unfoldable pub parse_lines : Bool → List Str → ℕ → ℕ → P (ℕ × ℕ × Bool)
  parse_lines debug [] line_count errcount p = pure (errcount, line_count, false) p
  parse_lines debug (buf ∷ bufs) line_count errcount p =
      let (bug_count, p') = parse_line L buf (if debug then line_count else 0) p in
      let next = parse_lines debug bufs (if debug then line_count + 1 else line_count) in
      if leb (buflen - 1) (length buf)
      then (ok (errcount, line_count, true), record p { errnum = err_parse })
      else after_line debug bug_count errcount next p'

-- What follows the loop: the tests for the end of the file and for a line that was too long.
unfoldable pub after_file : Bool → Bool → ℕ × ℕ × Bool → P ℕ
after_file debug at_end (errcount, line_count, too_long) p =
    if not at_end
    then (failed, record p { errnum = err_parse })
    else if too_long
    then (if debug && is_err_overflow p.errnum
        then (ok (errcount + 1), record (print line_count line_too_long p) { errnum = err_parse })
        else (failed, p))
    else (ok (if debug then errcount else 0), p)

module _ (L : Libcommon) where
  -- `_genders_open_and_parse`, for a file that is `none` where `fopen` fails.
  unfoldable pub open_and_parse : Bool → Option File → P ℕ
  open_and_parse debug none p = (failed, record p { errnum = err_open })
  open_and_parse debug (some file) p =
      proceed (parse_lines L debug file.buffers 1 0 p) (after_file debug file.at_end)
