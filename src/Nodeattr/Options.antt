-- ===== src/Nodeattr/Options.antt =====
-- src/nodeattr/nodeattr.c: the options of `main`, the tests on their combinations, and the command
-- that they choose.
pub mod Arguments
use genders.Base.{
  ℕ, zero, suc, ◌+◌, Bool, true, false, not, ◌&&◌, ◌||◌, Option, none, some, List, [], ◌∷◌, Str,
  codes, if◌then◌else◌, ◌==◌, ltb, length, is_some,
}
use genders.Nodeattr.Calls.{Format, fmt_comma, fmt_nl, fmt_space, fmt_hostlist}

-- The local variables of `main`. `Xopt` is set exactly where `excludequery` is.
pub record Options : Type 0 where
  pub qopt : Bool
  pub qfmt : Format
  pub excludequery : Option Str
  pub aopt : Bool
  pub vopt : Bool
  pub testquery_opt : Bool
  pub values_opt : Bool
  pub uopt : Bool
  pub lopt : Bool
  pub filename : Str
  pub kopt : Bool
  pub dfilename : Option Str
  pub eopt : Bool
  pub copt : Bool
  pub hopt : Bool

unfoldable pub initial : Str → Options
initial default_file = record {
  qopt = false;
  qfmt = fmt_hostlist;
  excludequery = none;
  aopt = false;
  vopt = false;
  testquery_opt = false;
  values_opt = false;
  uopt = false;
  lopt = false;
  filename = default_file;
  kopt = false;
  dfilename = none;
  eopt = false;
  copt = false;
  hopt = false;
}

-- What `getopt_long` returns: the character of an option, with `optarg`.
abbrev pub Opt : Type 0
Opt = ℕ × Str

-- The cases of the switch; `none` for `usage()`.
unfoldable pub set_option : Opt → Options → Option Options
set_option (c, optarg) o =
    if c == b'c'
    then some (record o { qfmt = fmt_comma; qopt = true })
    else if c == b'n'
    then some (record o { qfmt = fmt_nl; qopt = true })
    else if c == b's'
    then some (record o { qfmt = fmt_space; qopt = true })
    else if c == b'q'
    then some (record o { qfmt = fmt_hostlist; qopt = true })
    else if c == b'X'
    then some (record o { excludequery = some optarg })
    else if c == b'A'
    then some (record o { aopt = true })
    else if c == b'v'
    then some (record o { vopt = true })
    else if c == b'Q'
    then some (record o { testquery_opt = true })
    else if c == b'V'
    then some (record o { values_opt = true })
    else if c == b'U'
    then some (record o { uopt = true })
    else if c == b'l'
    then some (record o { lopt = true })
    else if c == b'f'
    then some (record o { filename = optarg })
    else if c == b'k'
    then some (record o { kopt = true })
    else if c == b'd'
    then some (record o { dfilename = some optarg })
    else if c == b'e'
    then some (record o { eopt = true })
    else if c == b'C'
    then some (record o { copt = true })
    else if c == b'H'
    then some (record o { hopt = true })
    else none

-- The loop of `getopt_long`.
unfoldable pub set_options : List Opt → Options → Option Options
set_options [] o = some o
set_options (opt ∷ opts) o = elim (set_option opt o) [ none ↦ none | some o' ↦ set_options opts o' ]

abbrev pub int : Bool → ℕ
int true = 1
int false = 0

-- `qopt + Qopt + Vopt + lopt + kopt + dopt + eopt + Copt + Hopt`
abbrev pub modes : Options → ℕ
modes o =
    int o.qopt
    + int o.testquery_opt
    + int o.values_opt
    + int o.lopt
    + int o.kopt
    + int (is_some o.dfilename)
    + int o.eopt
    + int o.copt
    + int o.hopt

-- The same options joined by `||`.
abbrev pub any_mode : Options → Bool
any_mode o =
    o.qopt
    || o.testquery_opt
    || o.values_opt
    || o.lopt
    || o.kopt
    || is_some o.dfilename
    || o.eopt
    || o.copt
    || o.hopt

-- `-A` alone stands for `-q -A`.
unfoldable pub all_nodes : Options → Options
all_nodes o = if o.aopt && not o.qopt then record o { qfmt = fmt_hostlist; qopt = true } else o

-- The tests on the combinations of options: whether none of them calls `usage()`. The options are
-- those before `-A` is looked at in the first two tests, and those behind it in the others.
unfoldable pub combined : Options → Bool
unfolding all_nodes
combined o =
    not (ltb 1 (modes o))
    && not (any_mode o && o.vopt)
    && not (not (all_nodes o).qopt && is_some o.excludequery)
    && not (not o.values_opt && o.uopt)

-- The test on the number of arguments behind the options, `argc - optind`.
unfoldable pub counted_args : Options → ℕ → Bool
counted_args o n =
    not (o.qopt && (not o.aopt && not (n == 1) || o.aopt && not (n == 0)))
    && not (not (any_mode o) && not (n == 1) && not (n == 2))
    && not (o.testquery_opt && not (n == 1) && not (n == 2))
    && not (o.values_opt && not (n == 1))
    && not (o.lopt && not (n == 0) && not (n == 1))
    && not (o.kopt && not (n == 0))
    && not (is_some o.dfilename && not (n == 0))
    && not (o.eopt && not (n == 0))
    && not (o.copt && not (n == 0))
    && not (o.hopt && not (n == 0))

-- What `main` then does, with the arguments that it reads.
pub data Command : Type 0 where
  diff_genders_command : Str → Command
  parse_check_command : Command
  expand_command : Command
  compress_command : Command
  compress_hosts_command : Command
  list_nodes_command : Option Str → Option Str → Format → Command
  test_attr_command : Option Str → Str → Bool → Command
  test_query_command : Option Str → Str → Command
  list_attr_val_command : Str → Bool → Command
  list_attrs_command : Option Str → Command

-- `argv[optind]` and `argv[optind + 1]`, where they are there.
unfoldable pub argument : List Str → ℕ → Str
argument [] n = []
argument (a ∷ args) zero = a
argument (a ∷ args) (suc n) = argument args n

-- The node and the other argument of the usages that take one or two.
unfoldable pub node_and : List Str → Option Str × Str
unfolding argument
node_and args =
    if length args == 2 then (some (argument args 0), argument args 1) else (none, argument args 0)

-- The branches of `main` behind the tests.
unfoldable pub chosen : Options → List Str → Command
unfolding argument node_and
chosen o args =
    if o.kopt
    then parse_check_command
    else if o.eopt
    then expand_command
    else if o.copt
    then compress_command
    else if o.hopt
    then compress_hosts_command
    else if o.qopt
    then list_nodes_command (if o.aopt then none else some (argument args 0)) o.excludequery o.qfmt
    else if not o.testquery_opt && not o.values_opt && not o.lopt
    then test_attr_command (node_and args).0 (node_and args).1 o.vopt
    else if o.testquery_opt
    then test_query_command (node_and args).0 (node_and args).1
    else if o.values_opt
    then list_attr_val_command (argument args 0) o.uopt
    else list_attrs_command (if length args == 1 then some (argument args 0) else none)

-- The first of them.
abbrev pub diff_or : Option Str → Command → Command
diff_or (some d) c = diff_genders_command d
diff_or none c = c

unfoldable pub command_of : Options → List Str → Command
unfolding chosen
command_of o args = diff_or o.dfilename (chosen o args)

-- The tests behind the loop over the options, and the command; `none` for `usage()`.
unfoldable pub accepted : Option Options → List Str → Option (Options × Command)
unfolding combined counted_args all_nodes
accepted none args = none
accepted (some o) args =
    if combined o && counted_args (all_nodes o) (length args)
    then some (all_nodes o, command_of (all_nodes o) args)
    else none

-- From the options to the command.
unfoldable pub command : List Opt → List Str → Str → Option (Options × Command)
unfolding accepted
command opts args default_file = accepted (set_options opts (initial default_file)) args
