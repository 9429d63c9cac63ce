-- ===== src/Tests/Queries.antt =====
-- The theorems on the evaluation of queries, for a complement of a difference.
use genders.Base.{
  ℤ, true, false, Option, some, [], ◌∷◌, ◌≡◌, refl, Str, codes, arith, ◌⊎◌, inr, strchr, str_eq,
  str_eq_iff, sym, ◌∙◌,
}
use genders.Libcommon.{Hostlist}
use genders.Handle.Checks.{IsLoaded}
use genders.Array.{Array}
use genders.Value.{subst_fits}
use genders.Value.Expand.{expand, names}
use genders.Query.{Tree, leaf, branch, split_query, calc_query, testquery}
use genders.Query.Meaning.{satisfies}
use genders.Query.Sets.{HasText}
use genders.Query.Correct.{CanQuery, IsQuery, Selects, after, calc_query-satisfies}
use genders.Lookup.Correct.{IsKnown}
use genders.Query.Entry.{Finds, HasRoom, query-satisfies, testquery-satisfies}
use genders.Tests.Hostlists.{plain, plain-HostlistLaws, length-uniq_one}
use genders.Tests.Setup.{db}

-- "~(a --c)", where the grammar makes the complement a flag of the difference.
abbrev pub tree : Tree
tree = branch (codes "--") (leaf (codes "a=xn1") false) (leaf (codes "c") false) true

abbrev parsed : Str → ℤ ⊎ Tree
parsed q = inr tree

pub db-IsLoaded : IsLoaded db
db-IsLoaded = record { has_magic = refl; loaded = λ e. cc }

pub db-CanQuery : CanQuery db
db-CanQuery = record {
  loaded = db-IsLoaded;
  has_nodes = λ e. cc;
  counts_nodes = refl;
  counts_attrs = λ e. cc;
  no_index = refl;
}

plain-HasText : (hl : Hostlist) → HasText plain hl
plain-HasText [] = ([], refl)
plain-HasText (n ∷ ns) = (_, refl)

tree-IsQuery : IsQuery plain db tree
unfolding split_query strchr str_eq expand subst_fits names
tree-IsQuery = (
  refl,
  (λ hl e. plain-HasText (plain.hostlist_uniq hl)),
  (λ hl e. plain-HasText (plain.hostlist_uniq hl)),
  record {
    named = λ e. cc;
    readable = ((refl, tt), ((refl, tt), tt));
    fits = omega arith;
    plain = (refl, tt);
  },
  record { named = λ e. cc; readable = (tt, (refl, tt)); fits = omega arith; plain = (refl, tt) },
)

calc_query-satisfies_example :
    Selects plain plain-HostlistLaws (calc_query plain tree) (λ n. satisfies db n tree) db
calc_query-satisfies_example =
    calc_query-satisfies plain plain-HostlistLaws tree db db-CanQuery tree-IsQuery

-- "a=xn1 && b", which n1 satisfies and no other node.
abbrev pub small : Tree
small = branch (codes "&&") (leaf (codes "a=xn1") false) (leaf (codes "b") false) false

abbrev parsed_small : Str → ℤ ⊎ Tree
parsed_small q = inr small

pub small-IsQuery : IsQuery plain db small
unfolding split_query strchr str_eq expand subst_fits names
small-IsQuery = (
  refl,
  (λ hl e. plain-HasText (plain.hostlist_uniq hl)),
  (λ hl e. plain-HasText (plain.hostlist_uniq hl)),
  record {
    named = λ e. cc;
    readable = ((refl, tt), ((refl, tt), tt));
    fits = omega arith;
    plain = (refl, tt);
  },
  record { named = λ e. cc; readable = (refl, (tt, tt)); fits = omega arith; plain = (refl, tt) },
)

pub satisfies-small : (n : Str) → satisfies db n small ≡ true → n ≡ codes "n1"
unfolding satisfies split_query strchr str_eq expand
satisfies-small n e = sym ((str_eq_iff (codes "n1") n).0 (ground arith))

pub small-HasRoom : HasRoom plain db small 2
small-HasRoom hl e =
    omega (arith, length-uniq_one hl (codes "n1") (λ n h. satisfies-small n (sym (e n) ∙ h)))

abbrev pub two_cells : Array
two_cells = some [] ∷ some [] ∷ []

query-satisfies_example :
    Finds plain plain-HostlistLaws parsed_small
      (codes "a=xn1&&b")
      small
      two_cells
      db
      db.errnum
      db.valbuf
query-satisfies_example =
    query-satisfies plain plain-HostlistLaws parsed_small b'a' (codes "=xn1&&b") small two_cells db
      refl db-CanQuery small-IsQuery tt small-HasRoom

n2-IsKnown : IsKnown db (codes "n2")
unfolding str_eq
n2-IsKnown = record { some_nodes = refl; listed = refl }

testquery-satisfies_example :
    (b : Option Str) × (testquery plain parsed_small
        (some (codes "n2"))
        (some (codes "a=xn1&&b"))
        db
      ≡ (some (satisfies db (codes "n2") small), after db b))
testquery-satisfies_example =
    testquery-satisfies plain plain-HostlistLaws parsed_small (some (codes "n2")) b'a'
      (codes "=xn1&&b") small db refl db-CanQuery n2-IsKnown small-IsQuery small-HasRoom
