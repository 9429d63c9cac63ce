-- ===== src/Load/Correct.antt =====
-- What `genders_load_data` promises: a well-formed database, or an empty handle.
use genders.Base.{
  ℕ, Bool, true, false, ◌&&◌, Option, none, some, [], ◌≡◌, refl, arith, is_some, length, Str,
}
use genders.Libcommon.{Libcommon, HashLaws}
use genders.Handle.{Handle, magic_num, err_success, err_isloaded, proceed, ◌>>◌}
use genders.Handle.Checks.{IsLoaded, unloaded_check-refuses, unloaded_check-passes}
use genders.Parse.State.{Parser, Outcome, ok, bug, failed}
use genders.Parse.File.{File, open_and_parse}
use genders.Parse.Invariant.{IsWellFormed}
use genders.Parse.Whole.{open_and_parse-IsWellFormed}
use genders.Load.{
  initialize_handle_info, handle_create, load_cleanup, stored_file, store_nodename, load_return,
  load_file, sort_hostnames, load_data, parser_of,
}

-- A handle as `genders_load_data` leaves it when it succeeds.
pub record IsDatabase (h : Handle) : Type 0 where
  pub is_loaded : IsLoaded h
  pub well_formed : IsWellFormed h.attrs h.genders_hosts
  pub counted : h.numnodes ≡ length h.hostnames
  pub buffered : is_some h.valbuf ≡ true
  pub no_index : h.attrval_index ≡ none
  pub succeeded : h.errnum ≡ err_success

-- A handle with nothing loaded.
pub record IsEmpty (h : Handle) : Type 0 where
  pub has_magic : h.magic ≡ magic_num
  pub not_loaded : h.is_loaded ≡ 0
  pub no_hosts : h.genders_hosts ≡ []
  pub no_hostnames : h.hostnames ≡ []
  pub no_attrs : h.attrs ≡ []
  pub none_counted : h.numattrs ≡ 0
  pub no_index : h.attrval_index ≡ none

pub handle_create-IsEmpty : IsEmpty handle_create
unfolding handle_create
handle_create-IsEmpty = record {
  has_magic = refl;
  not_loaded = refl;
  no_hosts = refl;
  no_hostnames = refl;
  no_attrs = refl;
  none_counted = refl;
  no_index = refl;
}

load_cleanup-IsEmpty : (h : Handle) → h.magic ≡ magic_num → IsEmpty (load_cleanup h)
unfolding load_cleanup initialize_handle_info
load_cleanup-IsEmpty h e = rw e (record {
  has_magic = refl;
  not_loaded = refl;
  no_hosts = refl;
  no_hostnames = refl;
  no_attrs = refl;
  none_counted = refl;
  no_index = refl;
})

abbrev pub Loads : Option (Unit {0}) × Handle → Type 0
Loads (some _, h) = IsDatabase h
Loads (none, h) = IsEmpty h

empty-IsWellFormed : (h : Handle) → IsEmpty h → IsWellFormed h.attrs h.genders_hosts
empty-IsWellFormed h e =
    rw (e.no_attrs, e.no_hosts) (record { distinct = tt; known = tt; disjoint = tt })

-- Whether the parser and `gethostname` succeed.
abbrev pub is_ok {ℓ} : {A : Type ℓ} → Outcome A → Bool
is_ok (ok _) = true
is_ok bug = true
is_ok failed = false

module _ (L : Libcommon) where
  -- From the parser's result on, for a handle that is not loaded.
  finished :
      (h : Handle) (r : Outcome ℕ × Parser) (hostname : Option Str)
      → IsEmpty h
      → IsWellFormed r.1.attrs r.1.genders_hosts
      → let q =
          load_return
            (proceed (stored_file h r) (λ _. do sort_hostnames L; store_nodename hostname)) in
        Loads q × (is_some q.0 ≡ is_ok r.0 && is_some hostname)
  unfolding load_return stored_file sort_hostnames store_nodename
  finished h (failed, p) hostname e w = (load_cleanup-IsEmpty _ e.has_magic, refl)
  finished h (ok n, p) none e w = (load_cleanup-IsEmpty _ e.has_magic, refl)
  finished h (bug, p) none e w = (load_cleanup-IsEmpty _ e.has_magic, refl)
  finished h (ok n, p) (some name) e w = (
    record {
      is_loaded = record { has_magic = e.has_magic; loaded = ground arith };
      well_formed = w;
      counted = refl;
      buffered = refl;
      no_index = e.no_index;
      succeeded = refl;
    },
    refl,
  )
  finished h (bug, p) (some name) e w = (
    record {
      is_loaded = record { has_magic = e.has_magic; loaded = ground arith };
      well_formed = w;
      counted = refl;
      buffered = refl;
      no_index = e.no_index;
      succeeded = refl;
    },
    refl,
  )

  -- A handle that is loaded is refused, and the call empties it.
  pub load_data-twice :
      (file : Option File) (hostname : Option Str) (h : Handle)
      → IsLoaded h
      → let q = load_data L file hostname h in
        (q.0 ≡ none) × (q.1.errnum ≡ err_isloaded) × IsEmpty q.1
  unfolding load_data load_return load_cleanup initialize_handle_info
  load_data-twice file hostname h l =
      let h' = record h { errnum = err_isloaded } in
      rw (unloaded_check-refuses h l)
        (refl, rw l.has_magic refl, load_cleanup-IsEmpty h' l.has_magic)

module _ (L : Libcommon) (laws : HashLaws L) where
  -- A call of `genders_load_data` on a handle with nothing loaded succeeds exactly if the parser
  -- accepts the file and `gethostname` gives a name. It leaves a loaded and well-formed database
  -- then, and a handle with nothing loaded otherwise.
  pub load_data-Loads :
      (file : Option File) (hostname : Option Str) (h : Handle)
      → IsEmpty h
      → let q = load_data L file hostname h in
        Loads q
        × (is_some q.0 ≡ is_ok (open_and_parse L false file (parser_of h)).0 && is_some hostname)
  unfolding load_data load_file
  load_data-Loads file hostname h e = rw (unloaded_check-passes h e.has_magic e.not_loaded) (
      finished L h (open_and_parse L false file (parser_of h)) hostname e
        (open_and_parse-IsWellFormed L laws false file (parser_of h) (empty-IsWellFormed h e)))
