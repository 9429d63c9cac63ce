-- ===== src/Tests/Databases.antt =====
-- The theorems on reading a file and on the tables of the database.
use genders.Base.{
  ℕ, Bool, true, false, ◌&&◌, ◌↔◌, Option, some, none, List, [], ◌∷◌, ◌≡◌, refl, ap, Str, codes,
  pos, arith, length, replicate, length-replicate, is_some, leb, ◌-◌, if◌then◌else◌,
}
use genders.Libcommon.{HasDistinctKeys}
use genders.Handle.{err_isloaded}
use genders.Handle.Checks.{IsLoaded}
use genders.Parse.State.{Parser, ok}
use genders.Parse.File.{open_and_parse}
use genders.Parse.Duplicates.{duplicate_attr_checks}
use genders.Parse.Disjoint.{AllDisjoint}
use genders.Parse.Accepts.{duplicate_attr_checks_iff}
use genders.Parse.Invariant.{IsWellFormed}
use genders.Parse.Whole.{open_and_parse-IsWellFormed}
use genders.Load.{handle_create, load_data, parser_of}
use genders.Load.Correct.{
  IsEmpty, Loads, is_ok, handle_create-IsEmpty, load_data-Loads, load_data-twice,
}
use genders.Load.Counts.{HasCounted, load_data-HasCounted}
use genders.Tests.Hostlists.{plain, plain-HashLaws}
use genders.Tests.Setup.{file, db, line1, line2}

abbrev pub start : Parser
start = record {
  errnum = pos 0;
  numattrs = 0;
  maxnodelen = 0;
  maxattrlen = 0;
  maxvallen = 0;
  genders_hosts = [];
  hostnames = [];
  attrs = [];
  attrs_size = 512;
  stream = [];
}

start-IsWellFormed : IsWellFormed start.attrs start.genders_hosts
start-IsWellFormed = record { distinct = tt; known = tt; disjoint = tt }

open_and_parse-IsWellFormed_example :
    let q = (open_and_parse plain false (some file) start).1 in IsWellFormed q.attrs q.genders_hosts
open_and_parse-IsWellFormed_example =
    open_and_parse-IsWellFormed plain plain-HashLaws false (some file) start start-IsWellFormed

load_data-Loads_example :
    let q = load_data plain (some file) (some (codes "n1.site")) handle_create in
    Loads q
    × (is_some q.0
        ≡ is_ok (open_and_parse plain false (some file) (parser_of handle_create)).0 && true)
load_data-Loads_example =
    load_data-Loads plain plain-HashLaws (some file) (some (codes "n1.site")) handle_create
      handle_create-IsEmpty

db-IsLoaded : IsLoaded db
db-IsLoaded = record { has_magic = refl; loaded = λ e. cc }

load_data-twice_example :
    let q = load_data plain (some file) none db in
    (q.0 ≡ none) × (q.1.errnum ≡ err_isloaded) × IsEmpty q.1
load_data-twice_example = load_data-twice plain (some file) none db db-IsLoaded

duplicate_attr_checks_iff_example :
    ((duplicate_attr_checks (line1 ∷ []) line2.hl line2.attrval_index 2 start).0 ≡ ok tt)
    ↔ AllDisjoint (line1 ∷ []) line2.hl line2.attrval_index
duplicate_attr_checks_iff_example =
    duplicate_attr_checks_iff (line1 ∷ []) line2.hl line2.attrval_index 2 start

db-HasDistinctKeys : HasDistinctKeys db.attrs
unfolding genders.Base.str_eq
db-HasDistinctKeys = (refl, (refl, (refl, tt)))

load_data-HasCounted_example :
    HasCounted plain plain-HashLaws
      (load_data plain (some file) (some (codes "n1.site")) handle_create)
load_data-HasCounted_example =
    load_data-HasCounted plain plain-HashLaws (some file) (some (codes "n1.site")) handle_create
      handle_create-IsEmpty
