-- ===== src/Nodeattr/Queries.antt =====
-- src/nodeattr/nodeattr.c: `list_nodes`, `test_attr` and `test_query`.
pub mod TestAttr
pub mod ListNodes
use genders.Base.{
  ℕ, ◌+◌, ℤ, pos, Bool, true, false, not, ◌&&◌, ◌||◌, Option, none, some, List, [], ◌∷◌, ◌++◌, Str,
  codes, if◌then◌else◌, is_some, str_eq, length, ltb, ◌⊎◌,
}
use genders.Libcommon.{Libcommon, Hostlist}
use genders.Handle.{Handle, M}
use genders.Array.{Array, nodelist_create, nodelist_clear, nodelist_destroy}
use genders.Array.Writes.{stored}
use genders.Lookup.{text, testattr}
use genders.Load.{getmaxvallen}
use genders.Query.{Tree, split_query, push_all, query, testquery}
use genders.Nodeattr.Process.{World, P, pure, exit, ◌>>=◌, ◌>>◌, printf, eprintf, call, call_only}
use genders.Nodeattr.Calls.{Calls, Format, rangestr}

-- The loop of `hostlist_push`.
unfoldable pub pushed : Option Hostlist → P Hostlist
pushed none = do eprintf (codes "nodeattr: hostlist_push failed\n"); exit (pos 1)
pushed (some hl) = pure hl

-- `if (strlen(str) > 0) printf("%s\n", str);`
unfoldable pub print_line : Str → P (Unit {0})
print_line [] = pure tt
print_line (c ∷ s) = printf (c ∷ s ++ codes "\n")

module _ (C : Calls) where
  open C use {hostlist_delete}

  -- The loop of `hostlist_delete`.
  unfoldable pub delete_all : List Str → Hostlist → Hostlist
  delete_all [] hl = hl
  delete_all (node ∷ nodes) hl = delete_all nodes (hostlist_delete hl node)

  module _ (L : Libcommon) (parse_query : Str → ℤ ⊎ Tree) where
    open L use {hostlist_sort}

    -- `if (excludequery)`: the hosts that are left.
    unfoldable pub exclude : Option Str → Option Array → ℕ → Hostlist → P Hostlist
    exclude none nodes len hl = pure hl
    exclude (some excludequery) nodes len hl = do
      call_only (nodelist_clear nodes)
      found ← call (query L parse_query nodes (pos len) (some excludequery)) excludequery
      pure (delete_all (stored found.0 found.1) hl)

    -- What follows `_rangestr`, in which `_safe_malloc` may have ended the run.
    unfoldable pub print_text : Option Str → P (Unit {0})
    unfolding print_line
    print_text none = do eprintf (codes "nodeattr: out of memory\n"); exit (pos 1)
    print_text (some s) = print_line s

    -- `list_nodes`
    unfoldable pub list_nodes : Option Str → Option Str → Format → P (Unit {0})
    unfolding pushed
    list_nodes q excludequery qfmt = do
      created ← call (nodelist_create true) (codes "genders_nodelist_create")
      found ← call (query L parse_query created.0 (pos created.1) q) (text q)
      hl ← pushed (push_all L (stored found.0 found.1) [])
      left ← exclude excludequery created.0 created.1 hl
      call_only (nodelist_destroy created.0)
      print_text (rangestr C (hostlist_sort left) qfmt)

-- `_val_create`: the length of the new text.
unfoldable pub val_create : P ℕ
val_create = call getmaxvallen (codes "genders_getmaxvallen")

unfoldable pub val_create_if : Bool → P (Unit {0})
val_create_if true = do val_create; pure tt
val_create_if false = pure tt

-- `genders_getmaxvallen(gp) + 1`, whatever the call returns.
unfoldable pub maxvallen_next : P ℕ
maxvallen_next w =
    let (r, h) = getmaxvallen w.handle in
    pure (elim r [ none ↦ 0 | some n ↦ n + 1 ]) (record w { handle = h })

-- The result of `test_attr`, by what `genders_testattr` returned and stored.
abbrev pub test_result : Option Str → Bool × Option Str → Bool
test_result none found = found.0
test_result (some wantval) found = str_eq wantval (text found.1) && found.0

-- `test_attr`
unfoldable pub test_attr : Option Str → Str → Bool → P Bool
unfolding print_line
test_attr node attr vopt = do
  val_create_if (vopt || is_some (split_query attr).1)
  len ← maxvallen_next
  found ←
      call
        (testattr node (some (split_query attr).0) (vopt || is_some (split_query attr).1) (pos len))
        (codes "genders_testattr")
  (if vopt then print_line (text found.1) else pure tt)
  pure (test_result (split_query attr).1 found)

module _ (L : Libcommon) (parse_query : Str → ℤ ⊎ Tree) where
  -- `test_query`
  unfoldable pub test_query : Option Str → Str → P Bool
  test_query node q = call (testquery L parse_query node (some q)) (codes "genders_testquery")
