-- ===== src/Load/Lengths.antt =====
-- The length fields of a loaded database bound what it holds, and so what `genders_getnodes` copies
-- into the cells of a list that `genders_nodelist_create` has made.
use genders.Base.{
  ℕ, ◌≤◌, true, false, Option, none, some, [], ◌∷◌, ◌≡◌, sym, ◌∙◌, arith, length, Str, str_eq,
  str_eq_iff, str_eq_refl, Bool-cases, inl, inr, take,
}
use genders.Libcommon.{Libcommon, HashLaws, HostlistLaws, Hostlist, hostlist_has}
use genders.Handle.{Handle, maxhostnamelen, proceed, ◌>>◌}
use genders.Handle.Checks.{unloaded_check-passes}
use genders.Parse.State.{Parser, Outcome, ok, bug, failed}
use genders.Parse.File.{File, open_and_parse}
use genders.Parse.Attributes.{genders_max}
use genders.Parse.Lengths.{AllWithin, Bounds, Bounds-mono, HasBounds, Keeps, le-genders_max}
use genders.Parse.Lengths.Whole.{open_and_parse-Keeps}
use genders.Load.{
  shorten, store_parser, stored_file, store_nodename, load_return, load_file, sort_hostnames,
  load_data, parser_of,
}
use genders.Load.Correct.{IsEmpty}

-- A database whose length fields bound its names, its attributes, and its values without a
-- substitution.
pub record HasLengths (h : Handle) : Type 0 where
  pub own : length h.nodename ≤ h.maxnodelen
  pub bounds : Bounds h.maxnodelen h.maxattrlen h.maxvallen h.hostnames h.genders_hosts h.attrs

-- A bound on names that a search finds is a bound on all names.
AllWithin_of_has :
    (m : ℕ) (hl : Hostlist) → ((n : Str) → hostlist_has hl n ≡ true → length n ≤ m) → AllWithin m hl
AllWithin_of_has m [] k = tt
AllWithin_of_has m (n ∷ hl) k =
    (k n (ground (arith, str_eq_refl n)), AllWithin_of_has m hl (λ j e. k j (ground arith)))

has-AllWithin :
    (m : ℕ) (hl : Hostlist) (n : Str) → AllWithin m hl → hostlist_has hl n ≡ true → length n ≤ m
has-AllWithin m [] n w e = cc
has-AllWithin m (x ∷ hl) n w e = elim (Bool-cases (str_eq x n)) [
  | inl s ↦ let same : x ≡ n = (str_eq_iff x n).0 s in rw (← same) w.0
  | inr d ↦ has-AllWithin m hl n w.1 (rw d at e)
]

module _ (L : Libcommon) (laws : HostlistLaws L) where
  sorted-AllWithin :
      (m : ℕ) (hl : Hostlist) → AllWithin m hl → AllWithin m (L.hostlist_sort (L.hostlist_uniq hl))
  sorted-AllWithin m hl w = AllWithin_of_has m (L.hostlist_sort (L.hostlist_uniq hl)) λ n e.
      has-AllWithin m hl n w (sym (laws.has-sort (L.hostlist_uniq hl) n ∙ laws.has-uniq hl n) ∙ e)

  -- A handle with these bounds, where the call has succeeded.
  abbrev pub LoadsLengths : Option (Unit {0}) × Handle → Type 0
  LoadsLengths (some _, h) = HasLengths h
  LoadsLengths (none, h) = Unit

  stored-LoadsLengths :
      (h : Handle) (name : Str)
      → Bounds h.maxnodelen h.maxattrlen h.maxvallen h.hostnames h.genders_hosts h.attrs
      → LoadsLengths (load_return ((do sort_hostnames L; store_nodename (some name)) h))
  unfolding load_return sort_hostnames store_nodename
  stored-LoadsLengths h name b =
      let host = shorten (take maxhostnamelen name) in
      let mn = genders_max (length host) h.maxnodelen in
      let (own, more) = le-genders_max (length host) h.maxnodelen in
      let b' =
        Bounds-mono h.maxnodelen mn h.maxattrlen h.maxattrlen h.maxvallen h.maxvallen h.hostnames
          h.genders_hosts h.attrs more (omega arith) (omega arith) b in
      record {
        own = own;
        bounds = record {
          names = sorted-AllWithin mn h.hostnames b'.names;
          lines = b'.lines;
          keys = b'.keys;
          distinct = b'.distinct;
        };
      }

  finished-LoadsLengths :
      (h : Handle) (r : Outcome ℕ × Parser) (hostname : Option Str)
      → Keeps (λ _ _. Unit {0}) r
      → LoadsLengths (
          load_return
            (proceed (stored_file h r) (λ _. do sort_hostnames L; store_nodename hostname)))
  unfolding stored_file
  finished-LoadsLengths h (failed, p) hostname b = unfold load_return in tt
  finished-LoadsLengths h (ok n, p) none b = unfold load_return sort_hostnames store_nodename in tt
  finished-LoadsLengths h (bug, p) none b = unfold load_return sort_hostnames store_nodename in tt
  finished-LoadsLengths h (ok n, p) (some name) b = stored-LoadsLengths (store_parser h p) name b.0
  finished-LoadsLengths h (bug, p) (some name) b = stored-LoadsLengths (store_parser h p) name b

  empty-HasBounds : (h : Handle) → IsEmpty h → HasBounds (parser_of h)
  empty-HasBounds h e =
      rw (e.no_hosts, e.no_hostnames, e.no_attrs)
        (record { names = tt; lines = tt; keys = λ a s f. cc; distinct = tt })

  -- A call of `genders_load_data` on a handle with nothing loaded, where it succeeds: no name of a
  -- node, the local one included, is longer than `maxnodelen`, no attribute longer than
  -- `maxattrlen`, and no value without a substitution longer than `maxvallen`.
  pub load_data-LoadsLengths :
      (hash_laws : HashLaws L) (file : Option File) (hostname : Option Str) (h : Handle)
      → IsEmpty h
      → LoadsLengths (load_data L file hostname h)
  unfolding load_data load_file
  load_data-LoadsLengths hash_laws file hostname h e =
      rw (unloaded_check-passes h e.has_magic e.not_loaded) (
        finished-LoadsLengths h (open_and_parse L false file (parser_of h)) hostname
          (open_and_parse-Keeps L hash_laws file (parser_of h) (empty-HasBounds h e)))
