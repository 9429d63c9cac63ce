-- ===== src/Load.antt =====
-- src/libgenders/genders.c: the life of a handle (`genders_handle_create`,
-- `genders_handle_destroy`, `genders_load_data`, `genders_parse`), the flags, the counters and
-- the error texts.
pub mod Correct
pub mod Flags
pub mod Counts
pub mod Lengths
use genders.Base.{
  ℕ, zero, suc, ◌+◌, ◌-◌, ◌%◌, Bool, true, false, not, ◌||◌, Option, none, some, List, [], ◌∷◌, ℤ,
  pos, negsuc, ltb_ℤ, ◌==◌, ltb, if◌then◌else◌, length, take, get_elem?, Str, codes, strchr,
}
use genders.Libcommon.{Libcommon}
use genders.Handle.{
  Handle, M, pure, fail, fail_with, done_with, gets, modify, require, ◌>>=◌, ◌>>◌, magic_num,
  maxhostnamelen, attr_index_init_size, flag_default, err_success, err_errnumrange, err_parameters,
  err_internal,
}
use genders.Handle.Checks.{
  handle_error_check, unloaded_handle_error_check, loaded_handle_error_check, genders_errnum,
}
use genders.Parse.State.{Parser, Outcome, ok, bug, failed, Message}
use genders.Parse.File.{File, open_and_parse}
use genders.Parse.Attributes.{genders_max}

-- `_initialize_handle_info`: the error code, the database and its tables stay.
unfoldable pub initialize_handle_info : Handle → Handle
initialize_handle_info h = record h {
  magic = magic_num;
  is_loaded = 0;
  flags = flag_default;
  numnodes = 0;
  numattrs = 0;
  maxnodelen = 0;
  maxattrlen = 0;
  maxvallen = 0;
  nodename = [];
  valbuf = none;
  attrval_index = none;
  attrval_index_attr = none;
  attrval_buflist = none;
}

-- `genders_handle_create`, where every allocation succeeds.
unfoldable pub handle_create : Handle
handle_create = record {
  magic = magic_num;
  errnum = err_success;
  is_loaded = 0;
  flags = flag_default;
  numnodes = 0;
  numattrs = 0;
  maxnodelen = 0;
  maxattrlen = 0;
  maxvallen = 0;
  nodename = [];
  genders_hosts = [];
  hostnames = [];
  attrs = [];
  attrs_size = attr_index_init_size;
  valbuf = none;
  attrval_index = none;
  attrval_index_attr = none;
  attrval_buflist = none;
}

-- `~GENDERS_MAGIC_NUM` on 32 bits.
abbrev pub cleaned_magic : ℕ
cleaned_magic = 0xffffffff - magic_num

-- `genders_handle_destroy`: what the memory of the handle holds when it is freed.
unfoldable pub handle_destroy : M (Unit {0})
handle_destroy = do
  handle_error_check
  modify (λ h. record (initialize_handle_info h) {
    magic = cleaned_magic;
    genders_hosts = [];
    hostnames = [];
    attrs = [];
  })

-- The variables that `genders_load_data` hands to the parser are those of the handle.
abbrev pub parser_of : Handle → Parser
parser_of h = record {
  errnum = h.errnum;
  numattrs = h.numattrs;
  maxnodelen = h.maxnodelen;
  maxattrlen = h.maxattrlen;
  maxvallen = h.maxvallen;
  genders_hosts = h.genders_hosts;
  hostnames = h.hostnames;
  attrs = h.attrs;
  attrs_size = h.attrs_size;
  stream = [];
}

abbrev pub store_parser : Handle → Parser → Handle
store_parser h p = record h {
  errnum = p.errnum;
  numattrs = p.numattrs;
  maxnodelen = p.maxnodelen;
  maxattrlen = p.maxattrlen;
  maxvallen = p.maxvallen;
  genders_hosts = p.genders_hosts;
  hostnames = p.hostnames;
  attrs = p.attrs;
  attrs_size = p.attrs_size;
}

-- The label `cleanup` of `genders_load_data`, for a handle that has passed no check.
unfoldable pub load_cleanup : Handle → Handle
load_cleanup h =
    if h.magic == magic_num
    then initialize_handle_info (record h { genders_hosts = []; hostnames = []; attrs = [] })
    else h

-- The host name up to its first dot.
unfoldable pub shorten : Str → Str
shorten name = elim (strchr name b'.') [ none ↦ name | some (before, _) ↦ before ]

-- The return value of `_genders_open_and_parse` in `genders_load_data`: only -1 is an error.
unfoldable pub stored_file : Handle → Outcome ℕ × Parser → Option (Unit {0}) × Handle
stored_file h (ok _, p) = (some tt, store_parser h p)
stored_file h (bug, p) = (some tt, store_parser h p)
stored_file h (failed, p) = (none, store_parser h p)

-- `genders_load_data` from `gethostname` on, with the name that it gives.
unfoldable pub store_nodename : Option Str → M (Unit {0})
store_nodename none = fail_with err_internal
store_nodename (some name) =
    let nodename' = shorten (take maxhostnamelen name) in
    modify (λ h. record h {
      nodename = nodename';
      maxnodelen = genders_max (length nodename') h.maxnodelen;
      valbuf = some [];
      is_loaded = h.is_loaded + 1;
      errnum = err_success;
    })

-- Both ways out of `genders_load_data`.
unfoldable pub load_return : Option (Unit {0}) × Handle → Option (Unit {0}) × Handle
load_return (some _, h) = (some tt, h)
load_return (none, h) = (none, load_cleanup h)

module _ (L : Libcommon) where
  open L use {hostlist_uniq, hostlist_sort}

  -- `_genders_open_and_parse` on the variables of the handle, with no debugging.
  unfoldable pub load_file : Option File → M (Unit {0})
  load_file file h = stored_file h (open_and_parse L false file (parser_of h))

  -- What `genders_load_data` does with the names of the nodes behind the parser.
  unfoldable pub sort_hostnames : M (Unit {0})
  sort_hostnames h =
      let hostnames' = hostlist_sort (hostlist_uniq h.hostnames) in
      (some tt, record h { hostnames = hostnames'; numnodes = length hostnames' })

  -- `genders_load_data`. Every failure goes through the label `cleanup`.
  unfoldable pub load_data : Option File → Option Str → M (Unit {0})
  load_data file hostname h =
      load_return (
        (do unloaded_handle_error_check; load_file file; sort_hostnames; store_nodename hostname) h)

  abbrev debug_parser : ℤ → Parser
  debug_parser e = record {
    errnum = e;
    numattrs = 0;
    maxnodelen = 0;
    maxattrlen = 0;
    maxvallen = 0;
    genders_hosts = [];
    hostnames = [];
    attrs = [];
    attrs_size = attr_index_init_size;
    stream = [];
  }

  -- `genders_parse`: the number of faulty lines, with what was printed for them.
  unfoldable pub parse : Option File → M (ℕ × List (ℕ × Message))
  parse file = do
    handle_error_check
    λ h.
        let (r, p) = open_and_parse L true file (debug_parser h.errnum) in
        elim r [
          | ok errcount ↦ (some (errcount, p.stream), record h { errnum = err_success })
          | bug ↦ (some (1, p.stream), record h { errnum = err_success })
          | failed ↦ (none, record h { errnum = p.errnum })
        ]

-- `genders_get_flags`. The argument says that `flags` is not NULL.
unfoldable pub get_flags : Bool → M ℕ
get_flags given = do
  handle_error_check
  require given err_parameters
  λ h. done_with err_success h.flags h

-- `genders_set_flags`. `flags & ~mask`, with the lowest bit as the mask, is `flags - flags % 2`.
unfoldable pub set_flags : ℕ → M (Unit {0})
set_flags flags = do
  handle_error_check
  require (flags - flags % 2 == 0) err_parameters
  λ h. (some tt, record h { flags = flags; errnum = err_success })

-- `genders_getnumnodes`, `genders_getnumattrs`, `genders_getmaxnodelen`, `genders_getmaxattrlen`
-- and `genders_getmaxvallen`.
unfoldable pub getnumnodes : M ℕ
getnumnodes = do loaded_handle_error_check; λ h. done_with err_success h.numnodes h

unfoldable pub getnumattrs : M ℕ
getnumattrs = do loaded_handle_error_check; λ h. done_with err_success h.numattrs h

-- `genders_getmaxattrs`
unfoldable pub getmaxattrs : M ℕ
getmaxattrs = getnumattrs

unfoldable pub getmaxnodelen : M ℕ
getmaxnodelen = do loaded_handle_error_check; λ h. done_with err_success h.maxnodelen h

unfoldable pub getmaxattrlen : M ℕ
getmaxattrlen = do loaded_handle_error_check; λ h. done_with err_success h.maxattrlen h

unfoldable pub getmaxvallen : M ℕ
getmaxvallen = do loaded_handle_error_check; λ h. done_with err_success h.maxvallen h

-- `genders_set_errnum`
unfoldable pub set_errnum : ℤ → M (Unit {0})
set_errnum e = do handle_error_check; modify (λ h. record h { errnum = e })

-- `genders_errmsg`
unfoldable pub genders_errmsg : List Str
genders_errmsg =
    codes "success"
    ∷ codes "genders handle is null"
    ∷ codes "error opening genders file"
    ∷ codes "error reading genders file"
    ∷ codes "genders file parse error"
    ∷ codes "genders data not loaded"
    ∷ codes "genders data already loaded"
    ∷ codes "array or string passed in not large enough to store result"
    ∷ codes "incorrect parameters passed in"
    ∷ codes "null pointer reached in list"
    ∷ codes "node or attribute not found"
    ∷ codes "out of memory"
    ∷ codes "query syntax error"
    ∷ codes "genders handle magic number incorrect, improper handle passed in"
    ∷ codes "unknown internal error"
    ∷ codes "error number out of range"
    ∷ []

-- `genders_errmsg[n]`, where the table has that entry.
unfoldable pub errmsg_at : List Str → ℕ → Option Str
errmsg_at [] n = none
errmsg_at (s ∷ msgs) zero = some s
errmsg_at (s ∷ msgs) (suc n) = errmsg_at msgs n

-- `genders_strerror`. GENDERS_ERR_SUCCESS is 0 and GENDERS_ERR_ERRNUMRANGE the last code.
unfoldable pub genders_strerror : ℤ → Option Str
genders_strerror (negsuc n) = errmsg_at genders_errmsg 15
genders_strerror (pos n) = errmsg_at genders_errmsg (if ltb 15 n then 15 else n)

-- `genders_errormsg`
unfoldable pub genders_errormsg : Option Handle → Option Str
genders_errormsg handle = genders_strerror (genders_errnum handle)
