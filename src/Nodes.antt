-- ===== src/Nodes.antt =====
-- src/libgenders/genders.c: `genders_getnodes`.
pub mod Scan
pub mod Store
pub mod Correct
pub mod Overflow
pub mod Fits
use genders.Base.{
  ℕ, ◌+◌, Bool, true, not, ◌&&◌, ◌||◌, Option, none, some, List, [], ◌∷◌, ℤ, pos, ltb_ℤ, ◌==◌,
  if◌then◌else◌, is_some, Str, str_eq,
}
use genders.Libcommon.{Hostlist, hash_find}
use genders.Handle.{
  Handle, Hosts, Attrval, M, pure, fail_with, done_with, ◌>>=◌, ◌>>◌, err_parameters, err_success,
}
use genders.Handle.Checks.{loaded_handle_error_check}
use genders.Value.{get_valptr}
use genders.Array.{Array, put_in_array}
use genders.Lookup.{or_null, text, or_empty, index_is_on}

-- The caller's array and `index`.
abbrev pub Cursor : Type 0
Cursor = Array × ℕ

-- `_genders_put_in_array(handle, node, nodes, index++, len)`
unfoldable pub put_node : ℤ → Str → Cursor → M Cursor
put_node len node (nodes, index) = do
  nodes' ← put_in_array node nodes index len
  pure (nodes', index + 1)

-- The loops that store every node of a hostlist.
unfoldable pub put_nodes : ℤ → Hostlist → Cursor → M Cursor
put_nodes len [] cur = pure cur
put_nodes len (node ∷ rest) cur = do cur' ← put_node len node cur; put_nodes len rest cur'

-- The loop that stores the nodes of a line whose value, after substitution, is `val`.
unfoldable pub put_matching : ℤ → Str → Str → Hostlist → Cursor → M Cursor
put_matching len val v [] cur = pure cur
put_matching len val v (node ∷ rest) cur = do
  valptr ← get_valptr node v true
  cur' ← if str_eq val valptr.0 then put_node len node cur else pure cur
  put_matching len val v rest cur'

-- Case B on one line that has the attribute.
unfoldable pub put_line : ℤ → Option Str → Hosts → Attrval → Cursor → M Cursor
put_line len none gh av cur = put_nodes len gh.hl cur
put_line len (some val) gh av cur = elim av.val [
  | none ↦ pure cur
  | some v ↦
      if av.val_contains_subst
      then put_matching len val v gh.hl cur
      else if str_eq val v
      then put_nodes len gh.hl cur
      else pure cur
]

-- The loop of case B over the lines of the database.
unfoldable pub put_hosts : ℤ → Str → Option Str → List Hosts → Cursor → M Cursor
put_hosts len attr val [] cur = pure cur
put_hosts len attr val (gh ∷ hosts) cur = elim (hash_find gh.attrval_index attr) [
  | none ↦ put_hosts len attr val hosts cur
  | some av ↦ do cur' ← put_line len val gh av cur; put_hosts len attr val hosts cur'
]

abbrev finish : Cursor → M (ℕ × Array)
finish (nodes, index) = done_with err_success (index, nodes)

-- Case A, on the hostlist that `hash_find` gives.
unfoldable pub store_found : ℤ → Array → Option Hostlist → M (ℕ × Array)
store_found len nodes none = done_with err_success (0, nodes)
store_found len nodes (some hl) = do cur ← put_nodes len hl (nodes, 0); finish cur

-- Case A: the nodes that the index holds under a value.
unfoldable pub getnodes_indexed : ℤ → Array → Str → M (ℕ × Array)
getnodes_indexed len nodes val h =
    store_found len nodes (hash_find (or_empty h.attrval_index) val) h

-- Case B: the lines that have the attribute.
unfoldable pub getnodes_scanned : ℤ → Array → Str → Option Str → M (ℕ × Array)
getnodes_scanned len nodes attr val h =
    (if h.numattrs == 0
        then done_with err_success (0, nodes)
        else do cur ← put_hosts len attr val h.genders_hosts (nodes, 0); finish cur)
      h

-- The branch of `genders_getnodes`, after empty texts have become NULL.
unfoldable pub getnodes_by : ℤ → Array → Option Str → Option Str → M (ℕ × Array)
getnodes_by len nodes none val h = (do cur ← put_nodes len h.hostnames (nodes, 0); finish cur) h
getnodes_by len nodes (some attr) none h = getnodes_scanned len nodes attr none h
getnodes_by len nodes (some attr) (some val) h =
    (if is_some h.attrval_index && index_is_on h attr
        then getnodes_indexed len nodes val
        else getnodes_scanned len nodes attr (some val))
      h

abbrev pub cells : Option Array → Array
cells none = []
cells (some nodes) = nodes

-- `genders_getnodes`. The result is the count and the caller's array.
unfoldable pub getnodes : Option Array → ℤ → Option Str → Option Str → M (ℕ × Array)
getnodes nodes len attr val = do
  loaded_handle_error_check
  (if not (is_some nodes) && ltb_ℤ (pos 0) len || ltb_ℤ len (pos 0)
      then fail_with err_parameters
      else getnodes_by len (cells nodes) (or_null attr) (or_null val))
