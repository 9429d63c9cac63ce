-- ===== src/Lookup/Correct.antt =====
-- `genders_testattr` and `genders_testattrval` against the lines of the database.
use genders.Base.{
  ℕ, Bool, true, false, ◌||◌, Option, none, some, List, [], ◌∷◌, ◌≡◌, refl, Bool-cases, inl, inr,
  Str, ℤ, ◌==◌,
}
use genders.Libcommon.{hash_find, hostlist_has}
use genders.Handle.{Handle, Hosts, Attrval, err_success, M}
use genders.Handle.Checks.{IsLoaded, loaded_check-IsLoaded}
use genders.Lookup.{or_nodename, copy_val, test_found, testattr_hosts, testattr}
use genders.Query.Meaning.{gives, has_attr}

-- A node that the database has.
pub record IsKnown (h : Handle) (node : Str) : Type 0 where
  pub some_nodes : (h.numnodes == 0) ≡ false
  pub listed : hostlist_has h.hostnames node ≡ true

test_found-gives :
    (len : ℤ) (n : Str) (gh : Hosts) (found : Option Attrval) (next : M (Bool × Option Str))
    (rest : Bool) (h : Handle)
    → hostlist_has gh.hl n ≡ true
    → next h ≡ (some (rest, none), h)
    → test_found false len n found next h ≡ (some (gives h none n gh found || rest, none), h)
unfolding test_found copy_val
test_found-gives len n gh none next rest h here e = e
test_found-gives len n gh (some av) next rest h here e = rw here refl

not_here :
    (n : Str) (gh : Hosts) (found : Option Attrval) (h : Handle)
    → hostlist_has gh.hl n ≡ false
    → gives h none n gh found ≡ false
not_here n gh none h e = refl
not_here n gh (some av) h e = e

testattr_hosts-has_attr :
    (len : ℤ) (n attr : Str) (hosts : List Hosts) (h : Handle)
    → testattr_hosts false len n attr hosts h ≡ (some (has_attr h attr none n hosts, none), h)
unfolding testattr_hosts
testattr_hosts-has_attr len n attr [] h = refl
testattr_hosts-has_attr len n attr (gh ∷ hosts) h = elim (Bool-cases (hostlist_has gh.hl n)) [
  | inl e ↦ rw e (
      test_found-gives len n gh (hash_find gh.attrval_index attr) _ _ h e
        (testattr_hosts-has_attr len n attr hosts h))
  | inr e ↦
      rw (e, not_here n gh (hash_find gh.attrval_index attr) h e)
        (testattr_hosts-has_attr len n attr hosts h)
]

-- `genders_testattr` with a NULL `val`, for a node of the database: it returns 1 exactly if a line
-- of the node has the attribute, sets the error code to success and changes nothing else.
testattr-has_attr :
    (node : Option Str) (c : ℕ) (attr : Str) (len : ℤ) (h : Handle)
    → IsLoaded h
    → IsKnown h (or_nodename node h)
    → testattr node (some (c ∷ attr)) false len h ≡ (
      some (has_attr h (c ∷ attr) none (or_nodename node h) h.genders_hosts, none),
      record h { errnum = err_success },
    )
unfolding testattr
testattr-has_attr node c attr len h l k = rw (
  loaded_check-IsLoaded h l,
  k.some_nodes,
  k.listed,
  testattr_hosts-has_attr len (or_nodename node h) (c ∷ attr) h.genders_hosts h,
)
