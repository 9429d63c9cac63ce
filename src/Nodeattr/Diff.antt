-- ===== src/Nodeattr/Diff.antt =====
-- src/nodeattr/nodeattr.c: `_diff`, which compares two databases. Each part returns the number of
-- differences that it has reported.
pub mod Counts
pub mod Nodes
use genders.Base.{
  ℕ, ◌+◌, ℤ, pos, Bool, true, false, not, Option, none, some, List, [], ◌∷◌, ◌++◌, Str, codes,
  if◌then◌else◌, str_eq,
}
use genders.Handle.{M}
use genders.Array.{
  Array, nodelist_create, nodelist_destroy, attrlist_create, attrlist_clear, attrlist_destroy,
  vallist_create, vallist_clear, vallist_destroy,
}
use genders.Array.Writes.{stored}
use genders.Nodes.{getnodes}
use genders.Attrs.{getattr, getattr_all}
use genders.Lookup.{text, isnode, isattr, testattr}
use genders.Load.{getmaxvallen}
use genders.Nodeattr.Compare.{
  report_missing, isnode_other, isnode_first, isattr_other, isattr_first, call_other_misreported,
  compare_attrs, compare_back, quote,
}
use genders.Nodeattr.Process.{
  World, P, pure, exit, ◌>>=◌, ◌>>◌, eprintf, or_exit, call, call_other, call_only, call_only_other,
}

-- The arrays that the loop over the nodes fills again for each node, with their sizes.
pub record Lists : Type 0 where
  pub attrs : Option Array
  pub vals : Option Array
  pub dattrs : Option Array
  pub dvals : Option Array
  pub maxattrs : ℕ
  pub dmaxattrs : ℕ
  pub dmaxvallen : ℕ

-- An array after a call that was handed it: NULL stays NULL.
abbrev pub refilled : Option Array → Array → Option Array
refilled none list = none
refilled (some _) list = some list

unfoldable pub clear_lists : Lists → P Lists
clear_lists l = do
  attrs' ← call (attrlist_clear l.attrs) (codes "genders_attrlist_clear")
  vals' ← call (vallist_clear l.vals) (codes "genders_vallist_clear")
  dattrs' ← call_other (attrlist_clear l.dattrs) (codes "genders_attrlist_clear")
  dvals' ← call_other (vallist_clear l.dvals) (codes "genders_vallist_clear")
  pure (record l { attrs = attrs'; vals = vals'; dattrs = dattrs'; dvals = dvals' })

abbrev pub cells_of : Option Array → Array
cells_of none = []
cells_of (some list) = list

module _ (dfilename : Str) where
  -- What the loop does on a node of both databases.
  unfoldable pub compare_node : Str → Lists → P (ℕ × Lists)
  compare_node node lists = do
    l ← clear_lists lists
    got ← call (getattr l.attrs l.vals (pos l.maxattrs) (some node)) (codes "genders_getattr")
    there ←
        compare_attrs dfilename l.dmaxvallen node (stored got.0 got.1)
          (stored got.0 (cells_of got.2))
    dgot ←
        call_other (getattr l.dattrs l.dvals (pos l.dmaxattrs) (some node))
          (codes "genders_getattr")
    back ← compare_back dfilename node (stored dgot.0 dgot.1) (stored dgot.0 (cells_of dgot.2))
    pure (
      there + back,
      record l {
        attrs = refilled l.attrs got.1;
        vals = got.2;
        dattrs = refilled l.dattrs dgot.1;
        dvals = dgot.2;
      },
    )

  -- The loop of test 3 over the nodes of the first database.
  unfoldable pub compare_nodes : List Str → Lists → P ℕ
  compare_nodes [] lists = pure 0
  compare_nodes (node ∷ nodes) lists = do
    rv ← isnode_other node
    here ← if rv then compare_node node lists else pure (0, lists)
    rest ← compare_nodes nodes here.1
    pure (here.0 + rest)

  -- Test 1, with the two lists of nodes.
  unfoldable pub diff_nodes : List Str → List Str → P ℕ
  diff_nodes nodes dnodes = do
    gone ←
        report_missing isnode_other
          (λ node. dfilename ++ codes ": Node " ++ quote node ++ codes " does not exist\n") nodes
    new ←
        report_missing isnode_first
          (λ node. dfilename ++ codes ": Contains additional node " ++ quote node ++ codes "\n")
          dnodes
    pure (gone + new)

  -- Test 2, with the two lists of attributes.
  unfoldable pub diff_attrs : List Str → List Str → P ℕ
  diff_attrs attrs dattrs = do
    gone ←
        report_missing isattr_other
          (λ attr. dfilename ++ codes ": Attribute " ++ quote attr ++ codes " does not exist\n")
          attrs
    new ←
        report_missing isattr_first
          (λ attr.
            dfilename ++ codes ": Contains additional attribute " ++ quote attr ++ codes "\n")
          dattrs
    pure (gone + new)

  -- The calls that free the arrays, whose results are not read.
  unfoldable pub destroy_lists : Option Array → Option Array → Lists → P (Unit {0})
  destroy_lists nodes dnodes l = do
    call_only (nodelist_destroy nodes)
    call_only_other (nodelist_destroy dnodes)
    call_only (attrlist_destroy l.attrs)
    call_only_other (attrlist_destroy l.dattrs)
    call_only (vallist_destroy l.vals)
    call_only_other (vallist_destroy l.dvals)

  -- `_diff`, where the memory is had: the number of differences.
  unfoldable pub diff : P ℕ
  diff = do
    list ← call (nodelist_create true) (codes "genders_nodelist_create")
    nodes ← call (getnodes list.0 (pos list.1) none none) (codes "genders_getnodes")
    dlist ← call_other_misreported (nodelist_create true) (codes "genders_nodelist_create")
    dnodes ← call_other (getnodes dlist.0 (pos dlist.1) none none) (codes "genders_getnodes")
    by_nodes ← diff_nodes (stored nodes.0 nodes.1) (stored dnodes.0 dnodes.1)
    attrs' ← call (attrlist_create true) (codes "genders_attrlist_create")
    dattrs' ← call_other (attrlist_create true) (codes "genders_attrlist_create")
    all ← call (getattr_all attrs'.0 (pos attrs'.1)) (codes "genders_getattr_all")
    dall ← call_other (getattr_all dattrs'.0 (pos dattrs'.1)) (codes "genders_getattr_all")
    by_attrs ← diff_attrs (stored all.0 all.1) (stored dall.0 dall.1)
    vals' ← call (vallist_create true) (codes "genders_vallist_create")
    dvals' ← call_other (vallist_create true) (codes "genders_vallist_create")
    dmax ← call_other getmaxvallen (codes "genders_maxvallen")
    by_values ← compare_nodes (stored nodes.0 nodes.1) (record {
      attrs = refilled attrs'.0 all.1;
      vals = vals'.0;
      dattrs = refilled dattrs'.0 dall.1;
      dvals = dvals'.0;
      maxattrs = attrs'.1;
      dmaxattrs = dattrs'.1;
      dmaxvallen = dmax;
    })
    destroy_lists list.0 dlist.0 (record {
      attrs = attrs'.0;
      vals = vals'.0;
      dattrs = dattrs'.0;
      dvals = dvals'.0;
      maxattrs = attrs'.1;
      dmaxattrs = dattrs'.1;
      dmaxvallen = dmax;
    })
    pure (by_nodes + by_attrs + by_values)
