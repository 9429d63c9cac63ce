-- ===== src/Load/Counts.antt =====
-- A loaded database has its attributes counted, so that a count of zero means that no line has an
-- attribute.
use genders.Base.{
  ℕ, Bool, true, false, Option, none, some, List, [], ◌∷◌, ◌++◌, ◌≡◌, refl, arith, leb, ◌-◌,
  is_some, length, Bool-cases, inl, inr, Str,
}
use genders.Libcommon.{Libcommon, HashLaws, Hash, hash_find}
use genders.Handle.{Handle, Hosts, Attrval, buflen, proceed, ◌>>◌}
use genders.Handle.Checks.{unloaded_check-passes}
use genders.Parse.State.{Parser, P, Outcome, ok, bug, failed}
use genders.Parse.Line.{parse_line}
use genders.Parse.File.{File, after_line, parse_lines, after_file, open_and_parse}
use genders.Parse.Counts.{IsCounted, Counts, parse_line-Counts}
use genders.Parse.Invariant.{AllKnown}
use genders.Nodes.Scan.{scan, line_nodes}
use genders.Nodes.Correct.{CountsAttrs}
use genders.Load.{
  stored_file, store_nodename, load_return, load_file, sort_hostnames, load_data, parser_of,
}
use genders.Load.Correct.{IsEmpty, Loads, load_data-Loads}

-- An attribute that is not known is on no line.
scan-unknown :
    (h : Handle) (attrs : Hash Str) (attr : Str) (val : Option Str) (hosts : List Hosts)
    → AllKnown attrs hosts
    → is_some (hash_find attrs attr) ≡ false
    → scan h attr val hosts ≡ []
scan-unknown h attrs attr val [] known unknown = refl
scan-unknown h attrs attr val (gh ∷ hosts) known unknown =
    not_found (hash_find gh.attrval_index attr) (known.0 attr)
      (scan-unknown h attrs attr val hosts known.1 unknown)
  where
    not_found :
        (found : Option Attrval)
        → (is_some found ≡ true → is_some (hash_find attrs attr) ≡ true)
        → scan h attr val hosts ≡ []
        → (elim found [
          | none ↦ scan h attr val hosts
          | some av ↦ line_nodes h val gh av ++ scan h attr val hosts
        ])
          ≡ []
    not_found none k e = e
    not_found (some av) k e = let there = k refl in cc

no_items : (V : Type 0) (table : Hash V) → length table ≡ 0 → table ≡ []
no_items V [] e = refl
no_items V (item ∷ table) e = absurd (omega arith)

counted-CountsAttrs :
    (h : Handle) → AllKnown h.attrs h.genders_hosts → h.numattrs ≡ length h.attrs → CountsAttrs h
counted-CountsAttrs h known counted zero_attrs attr val =
    let nothing : h.attrs ≡ [] = no_items Str h.attrs (omega arith) in
    scan-unknown h h.attrs attr val h.genders_hosts known (rw nothing refl)

module _ (L : Libcommon) (laws : HashLaws L) where
  after_line-Counts :
      (r : Outcome (Unit {0}) × Parser) (n : ℕ) (next : ℕ → P (ℕ × ℕ × Bool))
      → Counts r
      → ((p : Parser) → IsCounted p → Counts (next n p))
      → Counts (after_line false r.0 n next r.1)
  unfolding after_line
  after_line-Counts (failed, p) n next c k = tt
  after_line-Counts (ok a, p) n next c k = k p c
  after_line-Counts (bug, p) n next c k = k p c

  parse_lines-Counts :
      (bufs : List Str) (line_count n : ℕ) (p : Parser)
      → IsCounted p
      → Counts (parse_lines L false bufs line_count n p)
  unfolding parse_lines
  parse_lines-Counts [] line_count n p c = c
  parse_lines-Counts (buf ∷ bufs) line_count n p c =
      elim (Bool-cases (leb (buflen - 1) (length buf))) [
        | inl e ↦ rw e c
        | inr e ↦ rw e (
            after_line-Counts (parse_line L buf 0 p) n (parse_lines L false bufs line_count)
              (parse_line-Counts L laws buf p c) (parse_lines-Counts bufs line_count n))
      ]

  after_file-Counts :
      (at_end : Bool) (r : Outcome (ℕ × ℕ × Bool) × Parser)
      → Counts r
      → Counts (genders.Parse.State.proceed r (after_file false at_end))
  unfolding after_file
  after_file-Counts at_end (failed, p) c = tt
  after_file-Counts at_end (bug, p) c = c
  after_file-Counts false (ok (n, l, b), p) c = tt
  after_file-Counts true (ok (n, l, true), p) c = tt
  after_file-Counts true (ok (n, l, false), p) c = c

  open_and_parse-Counts :
      (file : Option File) (p : Parser) → IsCounted p → Counts (open_and_parse L false file p)
  unfolding open_and_parse
  open_and_parse-Counts none p c = tt
  open_and_parse-Counts (some file) p c =
      after_file-Counts file.at_end (parse_lines L false file.buffers 1 0 p)
        (parse_lines-Counts file.buffers 1 0 p c)

  -- A handle whose counter is right where the call has succeeded.
  abbrev CountsLoaded : Option (Unit {0}) × Handle → Type 0
  CountsLoaded (some _, h) = h.numattrs ≡ length h.attrs
  CountsLoaded (none, h) = Unit

  finished-Counts :
      (h : Handle) (r : Outcome ℕ × Parser) (hostname : Option Str)
      → Counts r
      → CountsLoaded (
          load_return
            (proceed (stored_file h r) (λ _. do sort_hostnames L; store_nodename hostname)))
  unfolding load_return stored_file sort_hostnames store_nodename
  finished-Counts h (failed, p) hostname c = tt
  finished-Counts h (ok n, p) none c = tt
  finished-Counts h (bug, p) none c = tt
  finished-Counts h (ok n, p) (some name) c = c
  finished-Counts h (bug, p) (some name) c = c

  load_data-Counts :
      (file : Option File) (hostname : Option Str) (h : Handle)
      → IsEmpty h
      → CountsLoaded (load_data L file hostname h)
  unfolding load_data load_file
  load_data-Counts file hostname h e =
      let counted : IsCounted (parser_of h) = rw e.no_attrs e.none_counted in
      rw (unloaded_check-passes h e.has_magic e.not_loaded) (
        finished-Counts h (open_and_parse L false file (parser_of h)) hostname
          (open_and_parse-Counts file (parser_of h) counted))

  -- What a call has counted, where it succeeds.
  abbrev pub HasCounted : Option (Unit {0}) × Handle → Type 0
  HasCounted (some _, h) = (h.numattrs ≡ length h.attrs) × CountsAttrs h
  HasCounted (none, h) = h.numattrs ≡ 0

  from_parts : (r : Option (Unit {0}) × Handle) → Loads r → CountsLoaded r → HasCounted r
  from_parts (some _, h) l c = (c, counted-CountsAttrs h l.well_formed.known c)
  from_parts (none, h) l c = l.none_counted

  -- A call of `genders_load_data` on a handle with nothing loaded leaves the number of attributes
  -- right: after a success it is the number of items in the table of attributes, and if it is zero
  -- a scan of the lines finds no node for any attribute; after a failure it is zero.
  pub load_data-HasCounted :
      (file : Option File) (hostname : Option Str) (h : Handle)
      → IsEmpty h
      → HasCounted (load_data L file hostname h)
  load_data-HasCounted file hostname h e =
      from_parts (load_data L file hostname h) (load_data-Loads L laws file hostname h e).0
        (load_data-Counts file hostname h e)
