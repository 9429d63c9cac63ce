-- ===== src/Copy/Correct.antt =====
-- A copy answers as the original.
use genders.Base.{Option, none, some, List, [], ◌∷◌, ◌++◌, ◌≡◌, refl, ◌∙◌, ap, length, Str}
use genders.Libcommon.{Libcommon, HashLaws, hash_find, HasDistinctKeys}
use genders.Handle.{Handle, Hosts, Attrval, err_success}
use genders.Handle.Checks.{IsLoaded, loaded_check-IsLoaded}
use genders.Nodes.Scan.{scan, line_nodes}
use genders.Load.{handle_create}
use genders.Copy.{copy, copy_index, filled}
use genders.Copy.Lines.{IsNamedStr, CanCopyLines, SameLines, copy_hosts-SameLines, copy_attrs-find}

-- A loaded database with no index, whose tables hold their items under their names.
pub record CanCopy (h : Handle) : Type 0 where
  pub loaded : IsLoaded h
  pub lines : CanCopyLines h.genders_hosts
  pub named : IsNamedStr h.attrs
  pub distinct : HasDistinctKeys h.attrs
  pub counted : h.numattrs ≡ length h.attrs
  pub no_index : h.attrval_index ≡ none

-- Two handles that answer alike: they have the same nodes, attributes, counters, lengths and flags,
-- and a scan of their lines finds the same nodes for every attribute and value.
pub record IsCopy (h g : Handle) : Type 0 where
  pub loaded : IsLoaded g
  pub flags : g.flags ≡ h.flags
  pub numnodes : g.numnodes ≡ h.numnodes
  pub numattrs : g.numattrs ≡ h.numattrs
  pub maxnodelen : g.maxnodelen ≡ h.maxnodelen
  pub maxattrlen : g.maxattrlen ≡ h.maxattrlen
  pub maxvallen : g.maxvallen ≡ h.maxvallen
  pub nodename : g.nodename ≡ h.nodename
  pub hostnames : g.hostnames ≡ h.hostnames
  pub attrs : (a : Str) → hash_find g.attrs a ≡ hash_find h.attrs a
  pub scans :
      (attr : Str) (val : Option Str)
      → scan g attr val g.genders_hosts ≡ scan h attr val h.genders_hosts

-- The scan of one line goes before that of the rest.
abbrev scan_found : Handle → Option Str → Hosts → Option Attrval → List Str → List Str
scan_found h val gh found rest = elim found [
  | none ↦ rest
  | some av ↦ line_nodes h val gh av ++ rest
]

scan_found-hl :
    (h : Handle) (val : Option Str) (gh gh' : Hosts) (found : Option Attrval) (rest : List Str)
    → gh'.hl ≡ gh.hl
    → scan_found h val gh' found rest ≡ scan_found h val gh found rest
scan_found-hl h val gh gh' none rest e = refl
scan_found-hl h none gh gh' (some av) rest e = ap (λ hl. hl ++ rest) e
scan_found-hl h (some w) gh gh' (some av) rest e = rw e refl

-- Of the handle a scan reads the flags alone.
scan_found-flags :
    (h k : Handle) (val : Option Str) (gh : Hosts) (found : Option Attrval) (rest : List Str)
    → scan_found (record k { flags = h.flags }) val gh found rest ≡ scan_found h val gh found rest
scan_found-flags h k val gh none rest = refl
scan_found-flags h k none gh (some av) rest = refl
scan_found-flags h k (some w) gh (some av) rest = refl

scan-SameLines :
    (h k : Handle) (attr : Str) (val : Option Str) (hosts hosts' : List Hosts)
    → SameLines hosts hosts'
    → scan (record k { flags = h.flags }) attr val hosts' ≡ scan h attr val hosts
scan-SameLines h k attr val [] [] s = refl
scan-SameLines h k attr val [] (g ∷ gs) s = absurd s
scan-SameLines h k attr val (gh ∷ hosts) [] s = absurd s
scan-SameLines h k attr val (gh ∷ hosts) (g ∷ gs) s =
    let p = record k { flags = h.flags } in
    ap (λ o. scan_found p val g o (scan p attr val gs)) (s.0.1 attr)
    ∙ ap (λ r. scan_found p val g (hash_find gh.attrval_index attr) r)
        (scan-SameLines h k attr val hosts gs s.1)
    ∙ scan_found-hl p val gh g (hash_find gh.attrval_index attr) (scan h attr val hosts) s.0.0
    ∙ scan_found-flags h k val gh (hash_find gh.attrval_index attr) (scan h attr val hosts)

module _ (L : Libcommon) (laws : HashLaws L) where
  -- `genders_copy` on a loaded database with no index succeeds with a new handle that answers as the
  -- original: the same nodes, attributes, counters, lengths and flags, and the same nodes in the
  -- same order for every attribute and value. In the original it sets the error code to success and
  -- changes nothing else.
  pub copy-IsCopy :
      (h : Handle)
      → CanCopy h
      → (g : Handle) × (copy L h ≡ (some g, record h { errnum = err_success })) × IsCopy h g
  unfolding copy copy_index handle_create
  copy-IsCopy h can =
      let (hosts, done, same) = copy_hosts-SameLines L laws h.genders_hosts h can.lines in
      let (attrs, done', found) = copy_attrs-find L laws h can.named can.distinct can.counted in
      (
        filled L h hosts attrs,
        rw (loaded_check-IsLoaded h can.loaded, done, done', can.no_index) refl,
        record {
          loaded = record { has_magic = refl; loaded = can.loaded.loaded };
          flags = refl;
          numnodes = refl;
          numattrs = refl;
          maxnodelen = refl;
          maxattrlen = refl;
          maxvallen = refl;
          nodename = refl;
          hostnames = refl;
          attrs = found;
          scans = λ attr val.
              scan-SameLines h (filled L h hosts attrs) attr val h.genders_hosts hosts same;
        },
      )
