-- ===== src/Nodeattr/Expand.antt =====
-- src/nodeattr/nodeattr.c: `expand`, each node with its attributes on a line.
use genders.Base.{
  ℕ, ◌+◌, ◌-◌, ◌%◌, pos, Bool, true, false, Option, none, some, List, [], ◌∷◌, ◌++◌, Str, codes,
  if◌then◌else◌, length, replicate, ltb,
}
use genders.Libcommon.{Libcommon}
use genders.Array.{
  Array, nodelist_create, nodelist_destroy, attrlist_create, attrlist_clear, attrlist_destroy,
  vallist_create, vallist_clear, vallist_destroy,
}
use genders.Array.Writes.{stored}
use genders.Nodes.{getnodes}
use genders.Attrs.{getattr}
use genders.Query.{push_all}
use genders.Nodeattr.Process.{P, pure, ◌>>=◌, ◌>>◌, printf, call, call_only, or_failed}
use genders.Nodeattr.Diff.{refilled, cells_of}
use genders.Nodeattr.Hosts.{hash_key}

-- The length of the longest text, as the loops find it.
unfoldable pub longest : ℕ → List Str → ℕ
longest n [] = n
longest n (s ∷ ss) = longest (if ltb n (length s) then length s else n) ss

-- `numspace = width - strlen(s)` spaces, and one more: an unsigned difference wraps around.
abbrev pub padding : ℕ → Str → Str
padding width s = replicate ((width + 4294967296 - length s) % 4294967296) b' ' ++ codes " "

-- The attributes with their values, with a comma before each but the first.
unfoldable pub attr_texts : Bool → List Str → List Str → Str
attr_texts first (attr ∷ attrs) (val ∷ vals) =
    (if first then [] else codes ",") ++ hash_key attr val ++ attr_texts false attrs vals
attr_texts first _ _ = []

-- What is printed for a node with some attributes and values.
unfoldable pub node_line : ℕ → Str → List Str → List Str → Str
unfolding attr_texts
node_line width node [] vals = node ++ codes "\n"
node_line width node (attr ∷ attrs) vals =
    node ++ padding width node ++ attr_texts true (attr ∷ attrs) vals ++ codes "\n"

-- The loop over the sorted nodes, with the two arrays.
unfoldable pub expand_loop : ℕ → ℕ → List Str → Option Array → Option Array → P (Unit {0})
unfolding node_line
expand_loop width len [] attrs vals = pure tt
expand_loop width len (node ∷ nodes) attrs vals = do
  attrs' ← call (attrlist_clear attrs) (codes "genders_attrlist_clear")
  vals' ← call (vallist_clear vals) (codes "genders_vallist_clear")
  got ← call (getattr attrs' vals' (pos len) (some node)) (codes "genders_getattr")
  printf (node_line width node (stored got.0 got.1) (stored got.0 (cells_of got.2)))
  expand_loop width len nodes (refilled attrs' got.1) got.2

-- `expand`
unfoldable pub expand : Libcommon → P (Unit {0})
expand L = do
  list ← call (nodelist_create true) (codes "genders_nodelist_create")
  attrs ← call (attrlist_create true) (codes "genders_attrlist_create")
  vals ← call (vallist_create true) (codes "genders_vallist_create")
  found ← call (getnodes list.0 (pos list.1) none none) (codes "genders_getnodes")
  hl ← or_failed (codes "hostlist_push") (push_all L (stored found.0 found.1) [])
  expand_loop (longest 0 (stored found.0 found.1)) attrs.1 (L.hostlist_sort hl) attrs.0 vals.0
  call_only (nodelist_destroy list.0)
  call_only (attrlist_destroy attrs.0)
  call_only (vallist_destroy vals.0)
