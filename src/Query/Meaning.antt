-- ===== src/Query/Meaning.antt =====
-- What a query says of one node, by the lines of the database alone.
use genders.Base.{
  Bool, true, false, not, ◌&&◌, ◌||◌, Option, none, some, List, [], ◌∷◌, ◌++◌, ◌≡◌, refl, ◌∙◌,
  if◌then◌else◌, any, Str, str_eq, codes,
}
use genders.Libcommon.{hash_find, hostlist_has, hostlist_has-append, hostlist_has-select}
use genders.Handle.{Handle, Hosts, Attrval}
use genders.Lookup.{or_null}
use genders.Nodes.Scan.{has_value, line_nodes, scan}
use genders.Query.{Tree, leaf, branch, split_query}

-- A line gives a node an attribute, with a given value if there is one to compare.
abbrev pub gives : Handle → Option Str → Str → Hosts → Option Attrval → Bool
gives h val n gh none = false
gives h none n gh (some av) = hostlist_has gh.hl n
gives h (some w) n gh (some av) = hostlist_has gh.hl n && has_value h w av n

-- Some line gives it.
abbrev pub has_attr : Handle → Str → Option Str → Str → List Hosts → Bool
has_attr h attr val n = any (λ gh. gives h val n gh (hash_find gh.attrval_index attr))

-- A complement is taken among the nodes of the database.
abbrev pub negate_if : Bool → Handle → Str → Bool → Bool
negate_if true h n b = hostlist_has h.hostnames n && not b
negate_if false h n b = b

abbrev pub combine : Str → Bool → Bool → Bool
combine op a b =
    if str_eq op (codes "||")
    then a || b
    else if str_eq op (codes "&&")
    then a && b
    else if str_eq op (codes "--")
    then a && not b
    else false

-- Whether a node satisfies a query.
unfoldable pub satisfies : Handle → Str → Tree → Bool
satisfies h n (leaf str c) =
    negate_if c h n (has_attr h (split_query str).0 (or_null (split_query str).1) n h.genders_hosts)
satisfies h n (branch op l r c) = negate_if c h n (combine op (satisfies h n l) (satisfies h n r))

line_nodes-gives :
    (h : Handle) (val : Option Str) (n : Str) (gh : Hosts) (av : Attrval)
    → hostlist_has (line_nodes h val gh av) n ≡ gives h val n gh (some av)
line_nodes-gives h none n gh av = refl
line_nodes-gives h (some w) n gh av = hostlist_has-select (has_value h w av) gh.hl n

scan_found-gives :
    (h : Handle) (attr : Str) (val : Option Str) (n : Str) (gh : Hosts) (hosts : List Hosts)
    (found : Option Attrval)
    → hostlist_has (scan h attr val hosts) n ≡ has_attr h attr val n hosts
    → hostlist_has
        (elim found [
          | none ↦ scan h attr val hosts
          | some av ↦ line_nodes h val gh av ++ scan h attr val hosts
        ])
        n
      ≡ (gives h val n gh found || has_attr h attr val n hosts)
scan_found-gives h attr val n gh hosts none e = e
scan_found-gives h attr val n gh hosts (some av) e =
    hostlist_has-append (line_nodes h val gh av) (scan h attr val hosts) n
    ∙ rw (line_nodes-gives h val n gh av, e)

-- The nodes of a scan are those to which some line gives the attribute.
pub scan-has_attr :
    (h : Handle) (attr : Str) (val : Option Str) (n : Str) (hosts : List Hosts)
    → hostlist_has (scan h attr val hosts) n ≡ has_attr h attr val n hosts
scan-has_attr h attr val n [] = refl
scan-has_attr h attr val n (gh ∷ hosts) =
    scan_found-gives h attr val n gh hosts (hash_find gh.attrval_index attr)
      (scan-has_attr h attr val n hosts)
