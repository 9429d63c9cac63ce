-- ===== src/Nodeattr/Values.antt =====
-- src/nodeattr/nodeattr.c: `list_attr_val`, the values of an attribute.
pub mod Unique
use genders.Base.{
  ℕ, zero, suc, ◌+◌, ℤ, pos, Bool, true, false, not, ◌&&◌, ◌||◌, Option, none, some, List, [], ◌∷◌,
  ◌++◌, Str, codes, if◌then◌else◌, any, str_eq, length,
}
use genders.Array.{Array, nodelist_create, nodelist_destroy}
use genders.Array.Writes.{stored}
use genders.Nodes.{getnodes}
use genders.Lookup.{text, testattr}
use genders.Load.{getmaxvallen}
use genders.Nodeattr.Process.{World, P, pure, ◌>>=◌, ◌>>◌, printf, call, call_only}
use genders.Nodeattr.Queries.{val_create}

-- What a round of the loop adds to the values: the text that `genders_testattr` stored, unless it
-- is empty, or stands among them and `-U` was given.
unfoldable pub store_value : Bool → Bool → Str → List Str → List Str
store_value Uopt ret [] myvallist = myvallist
store_value Uopt ret (c ∷ val) myvallist =
    if ret && not (Uopt && any (str_eq (c ∷ val)) myvallist)
    then myvallist ++ (c ∷ val) ∷ []
    else myvallist

-- The loop over the nodes.
unfoldable pub values_loop : Str → Bool → ℕ → List Str → List Str → P (List Str)
values_loop attr Uopt maxvallen [] myvallist = pure myvallist
values_loop attr Uopt maxvallen (node ∷ nodes) myvallist = do
  found ←
      call (testattr (some node) (some attr) true (pos (maxvallen + 1))) (codes "genders_testattr")
  values_loop attr Uopt maxvallen nodes (store_value Uopt found.0 (text found.1) myvallist)

-- `myvallist[i] = _val_create(gp)` for each node.
unfoldable pub val_creates : ℕ → P (Unit {0})
val_creates zero = pure tt
val_creates (suc n) = do val_create; val_creates n

unfoldable pub print_lines : List Str → P (Unit {0})
print_lines [] = pure tt
print_lines (s ∷ ss) = do printf (s ++ codes "\n"); print_lines ss

-- `list_attr_val`
unfoldable pub list_attr_val : Str → Bool → P (Unit {0})
list_attr_val attr Uopt = do
  created ← call (nodelist_create true) (codes "genders_getnodelist_create")
  found ← call (getnodes created.0 (pos created.1) (some attr) none) (codes "genders_getnodes")
  val_creates found.0
  val_create
  maxvallen ← call getmaxvallen (codes "genders_getmaxvallen")
  myvallist ← values_loop attr Uopt maxvallen (stored found.0 found.1) []
  print_lines myvallist
  call_only (nodelist_destroy created.0)
