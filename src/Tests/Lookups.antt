-- ===== src/Tests/Lookups.antt =====
-- The theorems on the values and on the questions that read the database.
use genders.Base.{◌≤◌, Option, some, [], ◌∷◌, ◌≡◌, refl, Str, codes, pos, arith, length, str_eq}
use genders.Handle.{Handle, err_success}
use genders.Handle.Checks.{IsLoaded}
use genders.Value.{subst_fits}
use genders.Value.Expand.{expand, names}
use genders.Array.{Array}
use genders.Array.Writes.{writes}
use genders.Lookup.Correct.{IsKnown}
use genders.Nodes.{getnodes}
use genders.Nodes.Scan.{scan, IsReadable}
use genders.Index.{index_attrvals}
use genders.Index.Agree.{CanIndex, getnodes_after_index}
use genders.Copy.{copy}
use genders.Copy.Correct.{CanCopy, IsCopy, copy-IsCopy}
use genders.Lookup.{isattrval}
use genders.Lookup.AnyNode.{NamesAttr, has_hosts, isattrval-scan}
use genders.Tests.Hostlists.{plain, plain-HashLaws}
use genders.Tests.Setup.{db}

abbrev cells : Array
cells = some [] ∷ some [] ∷ []

db-IsLoaded : IsLoaded db
db-IsLoaded = record { has_magic = refl; loaded = λ e. cc }

pub db-IsReadable : IsReadable db (codes "a") db.genders_hosts
unfolding str_eq names subst_fits
db-IsReadable = ((refl, tt), ((refl, tt), tt))

-- The node n2 alone has the value "y".
pub y_fits : length (scan db (codes "a") (some (codes "y")) db.genders_hosts) ≤ 2
unfolding str_eq expand
y_fits = omega arith

db-CanIndex : CanIndex db (codes "a")
unfolding str_eq
db-CanIndex = record {
  loaded = db-IsLoaded;
  has_attrs = λ e. cc;
  has_nodes = λ e. cc;
  known = refl;
  lines = ((λ e. cc), ((λ e. cc), tt));
  readable = db-IsReadable;
}

getnodes_after_index_example :
    (let ns = scan db (codes "a") (some (codes "y")) db.genders_hosts in
      let g = (index_attrvals plain (some (codes "a")) db).1 in
      (b : Option Str) × (getnodes (some cells) (pos 2) (some (codes "a")) (some (codes "y")) g
        ≡ (some (length ns, writes cells 0 ns), record g { errnum = err_success; valbuf = b })))
getnodes_after_index_example =
    getnodes_after_index plain plain-HashLaws b'a' b'y' [] [] cells db db-CanIndex refl (λ e. cc) tt
      y_fits

n1-IsKnown : IsKnown db (codes "n1")
unfolding str_eq
n1-IsKnown = record { some_nodes = refl; listed = refl }

db-CanCopy : CanCopy db
unfolding str_eq
db-CanCopy = record {
  loaded = db-IsLoaded;
  lines =
      (((refl, (refl, tt)), (refl, (refl, tt))), (((refl, (refl, tt)), (refl, (refl, tt))), tt));
  named = (refl, (refl, (refl, tt)));
  distinct = (refl, (refl, (refl, tt)));
  counted = refl;
  no_index = refl;
}

copy-IsCopy_example :
    (g : Handle) × (copy plain db ≡ (some g, record db { errnum = err_success })) × IsCopy db g
copy-IsCopy_example = copy-IsCopy plain plain-HashLaws db db-CanCopy

db-NamesAttr : NamesAttr (codes "a") db.genders_hosts
unfolding str_eq
db-NamesAttr = (refl, (refl, tt))

isattrval-scan_example :
    (b : Option Str) × (isattrval (some (codes "a")) (some (codes "xn1")) db ≡ (
      some (has_hosts (scan db (codes "a") (some (codes "xn1")) db.genders_hosts)),
      record db { errnum = err_success; valbuf = b },
    ))
isattrval-scan_example =
    isattrval-scan b'a' b'x' [] (codes "n1") db db-IsLoaded (λ e. cc) db-NamesAttr db-IsReadable
      refl
