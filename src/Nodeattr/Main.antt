-- ===== src/Nodeattr/Main.antt =====
-- src/nodeattr/nodeattr.c: `main` and `diff_genders`.
use genders.Base.{
  ℕ, ◌+◌, ℤ, pos, negsuc, Bool, true, false, Option, none, some, List, [], ◌∷◌, ◌++◌, ◌⊎◌, Str,
  codes, if◌then◌else◌, is_some, strchr, zero, suc, ltb,
}
use Prim.Native.Nat.{◌/◌, ◌%◌}
use genders.Libcommon.{Libcommon}
use genders.Parse.File.{File}
use genders.Load.{load_data, parse, handle_create}
use genders.Query.{Tree}
use genders.Nodeattr.Process.{
  World, P, pure, exit, ◌>>=◌, ◌>>◌, eprintf, is_err_parse, gend_error_exit, call, call_other,
}
use genders.Nodeattr.Calls.{Calls}
use genders.Nodeattr.Queries
use genders.Nodeattr.Values
use genders.Nodeattr.Hosts
use genders.Nodeattr.Expand
use genders.Nodeattr.Compress
use genders.Nodeattr.Diff
use genders.Nodeattr.Options.{
  Opt, Command, diff_genders_command, parse_check_command, expand_command, compress_command,
  compress_hosts_command, list_nodes_command, test_attr_command, test_query_command,
  list_attr_val_command, list_attrs_command, command,
}

-- The process behind the two calls of `genders_handle_create`.
unfoldable pub started : Str → World
unfolding handle_create
started errno_text = record {
  handle = handle_create;
  other = handle_create;
  out = [];
  err = [];
  errno_text = errno_text;
}

-- `exit(result ? 0 : 1)`
abbrev pub exit_status : Bool → P (Unit {0})
exit_status true = exit (pos 0)
exit_status false = exit (pos 1)

-- The decimal text of a number, on fuel for each division.
unfoldable pub decimal : ℕ → ℕ → Str
decimal zero n = (48 + n % 10) ∷ []
decimal (suc fuel) n =
    let rest = decimal fuel (n / 10) in
    if ltb n 10 then (48 + n) ∷ [] else rest ++ (48 + n % 10) ∷ []

-- The files by their names, the name that `gethostname` gives, and the text of `strerror(errno)`.
module _ (L : Libcommon) (C : Calls) (parse_query : Str → ℤ ⊎ Tree) (files : Str → Option File)
    (hostname : Option Str) (errno_text : Str) where
  -- The branch of `--parse-check`. The messages that `genders_parse` prints for the faulty lines
  -- are the result of its model, and are not repeated here.
  unfoldable pub check : Str → P (Unit {0})
  check filename w =
      let (r, h) = parse L (files filename) w.handle in
      elim r [
        | none ↦
            (if is_err_parse h.errnum
                then exit (negsuc 0)
                else gend_error_exit h (codes "genders_parse"))
              (record w { handle = h })
        | some found ↦
            (do
              eprintf (
                  codes "nodeattr: "
                  ++ decimal found.0 found.0
                  ++ codes " parse errors discovered\n")
              exit (pos found.0))
              (record w { handle = h })
      ]

  -- `diff_genders`, which does not read the result of `_diff`.
  unfoldable pub diff_files : Str → Str → P (Unit {0})
  diff_files filename dfilename = do
    call (load_data L (files filename) hostname) filename
    call_other (load_data L (files dfilename) hostname) dfilename
    Diff.diff dfilename
    pure tt

  -- The commands that read a database, once it is loaded.
  unfoldable pub on_database : Command → P (Unit {0})
  on_database expand_command = Expand.expand L
  on_database compress_command = Compress.compress L C
  on_database compress_hosts_command = Compress.compress_hosts L C
  on_database (list_nodes_command q excludequery qfmt) =
      Queries.list_nodes C L parse_query q excludequery qfmt
  on_database (test_attr_command node attr vopt) = do
    result ← Queries.test_attr node attr vopt
    exit_status result
  on_database (test_query_command node q) = do
    result ← Queries.test_query L parse_query node q
    exit_status result
  on_database (list_attr_val_command attr uopt) =
      if is_some (strchr attr b'=') then exit (pos 1) else Values.list_attr_val attr uopt
  -- A node text that `hostlist_create` refuses ends in an assertion of `hostlist_pop`: the process
  -- is aborted, which a shell reports as status 134.
  on_database (list_attrs_command none) = Hosts.list_attrs L none
  on_database (list_attrs_command (some node)) = elim (L.hosts_of node) [
    | none ↦ exit (pos 134)
    | some hosts ↦ Hosts.list_attrs L (some hosts)
  ]
  on_database _ = pure tt

  unfoldable pub run_command : Str → Command → P (Unit {0})
  run_command filename (diff_genders_command dfilename) = diff_files filename dfilename
  run_command filename parse_check_command = check filename
  run_command filename c = do call (load_data L (files filename) hostname) filename; on_database c

  -- `main`: the exit status and the state. The text of `usage()` is not modelled.
  unfoldable pub main : List Opt → List Str → Str → (ℤ ⊎ Unit {0}) × World
  main opts args default_file = elim (command opts args default_file) [
    | none ↦ exit (pos 1) (started errno_text)
    | some (o, c) ↦ (do run_command o.filename c; exit (pos 0)) (started errno_text)
  ]
