-- ===== src/Tests/Reports.antt =====
-- The theorems on what nodeattr prints and on `genders_getattr`, for the small database.
use genders.Base.{
  ℕ, ℤ, pos, Bool, true, false, Option, some, none, List, [], ◌∷◌, ◌++◌, ◌≡◌, ◌≢◌, refl, Str, codes,
  arith, ◌⊎◌, inl, inr, length, leb, if◌then◌else◌, str_eq, str_eq_iff, sym, ◌∙◌, ◌+◌, ◌≤◌,
}
use genders.Libcommon.{Hostlist, hostlist_has}
use genders.Handle.{Handle, Hosts, err_success}
use genders.Handle.Checks.{loaded_handle_error_check, handle_error_check}
use genders.Array.{
  Array, put_in_array, nodelist_create, list_create, attrlist_create, attrlist_clear,
  vallist_create, vallist_clear, list_clear, clear_cells, nodelist_destroy, attrlist_destroy,
  vallist_destroy, list_destroy,
}
use genders.Array.Writes.{writes}
use genders.Attrs.All.{keys_of, getattr_all-stores}
use genders.Value.{subst_fits, subst_loop, get_valptr}
use genders.Lookup.{testattr, testattr_hosts, test_found, copy_val, isnode, isattr}
use genders.Nodes.{getnodes, getnodes_by, put_nodes, put_node}
use genders.Attrs.{getattr, getattr_hosts, store_attr_val, store_both, getattr_all, store_attr}
use genders.Attrs.Items.{node_items, names_of, value_cells}
use genders.Attrs.Stored.{getattr-stores}
use genders.Load.{getmaxvallen}
use genders.Query.{split_query}
use genders.Query.Meaning.{satisfies}
use genders.Query.Correct.{after}
use genders.Query.Grammar.{parse_query}
use genders.Query.Automaton.{run, run-IsParser}
use genders.Nodeattr.Process.{World, call, call_other, call_only, call_only_other, or_exit}
use genders.Nodeattr.Calls.{fmt_comma}
use genders.Nodeattr.Queries.{list_nodes}
use genders.Nodeattr.Queries.TestAttr.{settled}
use genders.Nodeattr.Queries.ListNodes.{prints_line, AllPlain, list_nodes-satisfies}
use genders.Nodeattr.Calls.Buffer.{text_given}
use genders.Nodeattr.Values.{values_loop, store_value}
use genders.Nodeattr.Values.Unique.{IsSetOf, values_loop_unique}
use genders.Nodeattr.Compare.{
  report_missing, report, compare_attrs, compare_found, compare_values, compare_back,
  call_misreported, call_other_misreported,
}
use genders.Nodeattr.Diff.Counts.{diff-Counts}
use genders.Nodeattr.Diff.{
  diff_nodes, diff, diff_attrs, compare_nodes, compare_node, clear_lists, destroy_lists,
}
use genders.Tests.Hostlists.{plain, plain-HostlistLaws}
use genders.Tests.Setup.{db, line1, line2}
use genders.Tests.Queries.{
  db-IsLoaded, db-CanQuery, small, small-IsQuery, small-HasRoom, satisfies-small,
}
use genders.Tests.Grammar.{small-Derives}
use genders.Tests.Values.{n2-IsKnown}
use genders.Tests.Commands.{calls, start}

abbrev three_cells : Array
three_cells = some [] ∷ some [] ∷ some [] ∷ []

n2_room : length (node_items (codes "n2") db.genders_hosts) ≤ 3
unfolding str_eq
n2_room = omega arith

getattr-stores_example :
    (let items = node_items (codes "n2") db.genders_hosts in
      (b : Option Str) × (getattr
          (some three_cells)
          (some three_cells)
          (pos 3)
          (some (codes "n2"))
          db
        ≡ (
          some (
            length items,
            writes three_cells 0 (names_of items),
            value_cells db (codes "n2") (some three_cells) 0 items,
          ),
          record db { errnum = err_success; valbuf = b },
        )))
unfolding str_eq
getattr-stores_example =
    getattr-stores (some (codes "n2")) three_cells (some three_cells) db db-IsLoaded n2-IsKnown
      (tt, refl) (tt, refl) n2_room (tt, (refl, tt))

getattr_all-stores_example :
    getattr_all (some three_cells) (pos 3) db
    ≡ (some (3, writes three_cells 0 (keys_of db.attrs)), record db { errnum = err_success })
getattr_all-stores_example = getattr_all-stores three_cells db db-IsLoaded refl (tt)

-- An attribute without a value leaves the cell as it was: the value of another node stands there.
stale_value_test :
    (getattr
      (some three_cells)
      (some (some (codes "old") ∷ three_cells))
      (pos 3)
      (some (codes "n2"))
      db).0
    ≡ some (
      2,
      some (codes "c") ∷ some (codes "a") ∷ some [] ∷ [],
      some (some (codes "old") ∷ some (codes "y") ∷ some [] ∷ some [] ∷ []),
    )
unfolding getattr loaded_handle_error_check handle_error_check getattr_hosts store_attr_val
    store_both put_in_array get_valptr str_eq subst_loop subst_fits
stale_value_test = refl

split_test : split_query (codes "a=y") ≡ (codes "a", some (codes "y"))
unfolding split_query genders.Base.strchr
split_test = refl

small-AllPlain : AllPlain plain db small
small-AllPlain n e = let same = satisfies-small n e in rw same refl

list_nodes-satisfies_example :
    (hl : Hostlist) × (b : Option Str) × (list_nodes calls plain
        (parse_query run)
        (some (codes "a=xn1&&b"))
        none
        fmt_comma
        start
      ≡ prints_line
          (text_given calls (plain.hostlist_sort hl) fmt_comma)
          (record start { handle = after db b }))
    × ((n : Str) → hostlist_has hl n ≡ satisfies db n small)
list_nodes-satisfies_example =
    list_nodes-satisfies plain plain-HostlistLaws calls run run-IsParser b'a' (codes "=xn1&&b")
      small fmt_comma start small-Derives db-CanQuery small-IsQuery small-HasRoom small-AllPlain

-- The nodes n1, n2 and n1 again.
abbrev nodes : Hostlist
nodes = codes "n1" ∷ codes "n2" ∷ codes "n1" ∷ []

abbrev values : List Str
values = codes "xn1" ∷ codes "y" ∷ codes "xn1" ∷ []

abbrev read : World
read = settled start (some (codes "xn1"))

values_test : values_loop (codes "a") false 3 nodes [] start ≡ (inr values, read)
unfolding values_loop store_value call or_exit testattr loaded_handle_error_check handle_error_check
    testattr_hosts test_found copy_val get_valptr str_eq subst_loop subst_fits
values_test = refl

values_loop_unique_example :
    (unique : List Str) × (values_loop (codes "a") true 3 nodes [] start ≡ (inr unique, read))
    × IsSetOf unique values
values_loop_unique_example = values_loop_unique (codes "a") 3 nodes values start read values_test

abbrev other_line : Hosts
other_line = record line2 {
  attrval_index =
      (codes "c", record { attr = codes "c"; val = none; val_contains_subst = false })
      ∷ (codes "a", record { attr = codes "a"; val = some (codes "z"); val_contains_subst = false })
      ∷ [];
}

-- The second database has n3 in the place of n1, and another value for n2.
abbrev other_db : Handle
other_db = record db {
  hostnames = codes "n2" ∷ codes "n3" ∷ [];
  genders_hosts = record line1 { hl = codes "n3" ∷ [] } ∷ other_line ∷ [];
}

abbrev both : World
both = record start { other = other_db }

abbrev reported : World
reported = (diff (codes "d") both).1

diff_test : diff (codes "d") both ≡ (inr 3, reported)
unfolding diff diff_nodes diff_attrs report_missing report compare_nodes compare_node clear_lists
    compare_attrs compare_found compare_values compare_back call call_other call_misreported
    call_other_misreported or_exit call_only call_only_other destroy_lists nodelist_create
    list_create attrlist_create vallist_create attrlist_clear vallist_clear list_clear clear_cells
    getnodes getnodes_by put_nodes put_node put_in_array getattr getattr_hosts store_attr_val
    store_both getattr_all store_attr loaded_handle_error_check handle_error_check isnode isattr
    testattr testattr_hosts test_found copy_val get_valptr str_eq subst_loop subst_fits getmaxvallen
    nodelist_destroy attrlist_destroy vallist_destroy list_destroy
diff_test = refl

diff-Counts_example : length reported.err ≡ 0 + 3
diff-Counts_example = diff-Counts (codes "d") both 3 reported diff_test
