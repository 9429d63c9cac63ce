-- ===== src/Tests/Values.antt =====
-- The theorems on the values of attributes.
use genders.Base.{◌≤◌, true, false, Option, some, [], ◌≡◌, refl, Str, codes, arith, str_eq}
use genders.Handle.{err_success}
use genders.Handle.Checks.{IsLoaded}
use genders.Value.{get_valptr, subst_fits}
use genders.Value.Expand.{shown, is_readable, expand, names, percents, get_valptr-shown}
use genders.Lookup.{testattrval}
use genders.Lookup.Correct.{IsKnown}
use genders.Lookup.Values.{AllFit, testattrval-has_attr}
use genders.Parse.Invariant.{IsWellFormed}
use genders.Load.{handle_create}
use genders.Load.Correct.{handle_create-IsEmpty, load_data-Loads}
use genders.Query.Meaning.{has_attr}
use genders.Tests.Hostlists.{plain, plain-HashLaws}
use genders.Tests.Setup.{file, db, load_test}

db-IsLoaded : IsLoaded db
db-IsLoaded = record { has_magic = refl; loaded = λ e. cc }

can_read : is_readable db (codes "n1") (codes "x%n") true ≡ true
unfolding subst_fits names
can_read = refl

cannot_read : is_readable db (codes "node10") (codes "x%n") true ≡ false
unfolding subst_fits names
cannot_read = refl

one_name : names (codes "x%n") ≤ 1
unfolding names
one_name = omega arith

one_name_only : names (codes "x%n") ≡ 1
unfolding names
one_name_only = refl

no_percents : percents (codes "x%n") ≡ 0
unfolding percents
no_percents = refl

get_valptr-shown_example :
    (b : Option Str) × (get_valptr (codes "n1") (codes "x%n") true db
      ≡ (some (shown db (codes "n1") (codes "x%n") true, true), record db { valbuf = b }))
get_valptr-shown_example = get_valptr-shown db (codes "n1") (codes "x%n") true can_read

pub db-IsWellFormed : IsWellFormed db.attrs db.genders_hosts
db-IsWellFormed =
    (rw load_test at
      (load_data-Loads plain plain-HashLaws (some file) (some (codes "n1.site")) handle_create
        handle_create-IsEmpty).0).well_formed

pub n2-IsKnown : IsKnown db (codes "n2")
unfolding str_eq
n2-IsKnown = record { some_nodes = refl; listed = refl }

pub n2-AllFit : AllFit db (codes "n2") (codes "a") db.genders_hosts
unfolding str_eq subst_fits names expand
n2-AllFit = ((refl, omega arith), ((refl, omega arith), tt))

testattrval-has_attr_example :
    (b : Option Str) × (testattrval (some (codes "n2")) (some (codes "a")) (some (codes "y")) db ≡ (
      some (has_attr db (codes "a") (some (codes "y")) (codes "n2") db.genders_hosts),
      record db { errnum = err_success; valbuf = b },
    ))
testattrval-has_attr_example =
    testattrval-has_attr (some (codes "n2")) b'a' [] b'y' [] db db-IsLoaded db-IsWellFormed
      n2-IsKnown n2-AllFit
