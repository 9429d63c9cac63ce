-- ===== src/Nodeattr/Compress.antt =====
-- src/nodeattr/nodeattr.c: `compress` and `compress_hosts`.
pub mod Buffer
use genders.Base.{
  ℕ, zero, suc, ◌+◌, ◌*◌, ℤ, pos, negsuc, Bool, true, false, Option, none, some, List, [], ◌∷◌,
  ◌++◌, Str, codes, if◌then◌else◌, length, ltb, ◌==◌, str_eq,
}
use genders.Libcommon.{Libcommon, Hash, Hostlist, hash_find, hash_store}
use genders.Handle.{Handle, M}
use genders.Array.{
  Array, nodelist_create, nodelist_destroy, attrlist_create, attrlist_clear, attrlist_destroy,
  vallist_create, vallist_clear, vallist_destroy,
}
use genders.Array.Writes.{stored}
use genders.Nodes.{getnodes}
use genders.Attrs.{getattr}
use genders.Load.{set_flags, getnumnodes, getnumattrs, getmaxattrlen, getmaxvallen}
use genders.Nodeattr.Process.{
  World, P, pure, exit, ◌>>=◌, ◌>>◌, printf, eprintf, call, call_only, or_failed,
}
use genders.Nodeattr.Calls.{Calls}
use genders.Nodeattr.Diff.{refilled, cells_of}
use genders.Nodeattr.Expand.{padding}
use genders.Nodeattr.Hosts.{attr_strings, hash_allattrvals, hash_attrvals}

-- `NOATTRSFLAG`
abbrev pub noattrsflag : Str
noattrsflag = codes "=,,=,,=,,=,,="

-- The sign of `strcmp`.
unfoldable pub strcmp : Str → Str → ℤ
strcmp [] [] = pos 0
strcmp [] (y ∷ t) = negsuc 0
strcmp (x ∷ s) [] = pos 1
strcmp (x ∷ s) (y ∷ t) =
    let rest = strcmp s t in if ltb x y then negsuc 0 else if ltb y x then pos 1 else rest

-- The texts with a comma behind each, as the loop writes them into the buffer.
unfoldable pub with_commas : List Str → Str
with_commas [] = []
with_commas (s ∷ ss) = s ++ b',' ∷ with_commas ss

-- The NUL that is written over the last comma.
unfoldable pub kill_last : Str → Str
kill_last [] = []
kill_last (c ∷ []) = []
kill_last (c ∷ d ∷ s) = c ∷ kill_last (d ∷ s)

-- `struct attr_list`
pub record AttrList : Type 0 where
  pub hostrange : Str
  pub l : List Str

-- `_hostrange_cmp`, the longer range first.
unfoldable pub hostrange_cmp : AttrList → AttrList → ℤ
hostrange_cmp x y =
    if ltb (length x.hostrange) (length y.hostrange)
    then pos 1
    else if ltb (length y.hostrange) (length x.hostrange)
    then negsuc 0
    else pos 0

-- The loop of `_output_hostrange`: `count` of the `lcount` attributes have been printed.
unfoldable pub output_attrs : ℕ → ℕ → List Str → Str
output_attrs lcount count [] = []
output_attrs lcount count (attrval ∷ l) =
    let skipped = output_attrs lcount count l in
    let rest = output_attrs lcount (count + 1) l in
    if str_eq attrval noattrsflag
    then skipped
    else attrval ++ (if lcount == count + 1 then [] else codes ",") ++ rest

-- `_output_hostrange`
unfoldable pub output_hostrange : ℕ → AttrList → Str
unfolding output_attrs
output_hostrange maxhostrangelen al =
    al.hostrange
    ++ padding maxhostrangelen al.hostrange
    ++ output_attrs (length al.l) 0 al.l
    ++ codes "\n"

unfoldable pub output_all : ℕ → List AttrList → P (Unit {0})
output_all width [] = pure tt
output_all width (al ∷ als) = do printf (output_hostrange width al); output_all width als

-- `_store_hostrange` over the items, from the list and the length so far.
unfoldable pub store_hostranges : Hash (List Str) → List AttrList × ℕ → List AttrList × ℕ
store_hostranges [] shd = shd
store_hostranges ((range, l) ∷ h) (hlist, width) = store_hostranges h (
  hlist ++ (record { hostrange = range; l = l }) ∷ [],
  if ltb width (length range) then length range else width,
)

module _ (L : Libcommon) (C : Calls) where
  open L use {place, hostlist_sort}
  open C use {hostlist_ranged_string, list_sort}

  -- `_flatten_attrsvals`: what it leaves in the buffer, where the memory is had.
  unfoldable pub flatten_attrsvals : List Str → List Str → Str
  unfolding kill_last
  flatten_attrsvals attrs vals =
      kill_last (with_commas (list_sort Str strcmp (attr_strings attrs vals)))

  -- The item of a range of hosts, with one attribute more.
  abbrev pub put_range : ℕ → Str → Str → Option (List Str) → Hash (List Str) → Hash (List Str)
  put_range size range key none hrange = place (List Str) size range (key ∷ []) hrange
  put_range size range key (some l) hrange = hash_store hrange range (l ++ key ∷ [])

  -- `_hash_hostrange` over the items of the hash from attributes to hosts; `none` where
  -- `hostlist_ranged_string` returns -1.
  unfoldable pub hash_hostranges : ℕ → Hash Hostlist → Hash (List Str) → Option (Hash (List Str))
  hash_hostranges size [] hrange = some hrange
  hash_hostranges size ((key, hl) ∷ hattr) hrange =
      elim (hostlist_ranged_string (hostlist_sort hl) 65536) [
        | none ↦ none
        | some range ↦
            hash_hostranges size hattr (put_range size range key (hash_find hrange range) hrange)
      ]

  -- What both functions do with the hash from attributes to hosts.
  unfoldable pub output_hash : ℕ → Hash Hostlist → P (Unit {0})
  output_hash numnodes hattr = do
    hrange ← or_failed (codes "hostlist_ranged_string") (hash_hostranges numnodes hattr [])
    let shd = store_hostranges hrange ([], 0)
    output_all shd.1 (list_sort AttrList hostrange_cmp shd.0)

  -- What `compress` does with the attributes of a node.
  unfoldable pub hash_node : ℕ → Str → List Str → List Str → Hash Hostlist → P (Hash Hostlist)
  hash_node size node [] vals hattr =
      or_failed (codes "hostlist_push") (hash_allattrvals L size node noattrsflag hattr)
  hash_node size node (attr ∷ attrs) vals hattr =
      hash_attrvals L size node (attr ∷ attrs) vals hattr

  -- What `compress_hosts` does with them.
  unfoldable pub hash_set : ℕ → Str → List Str → List Str → Hash Hostlist → P (Hash Hostlist)
  hash_set size node [] vals hattr =
      or_failed (codes "hostlist_push") (hash_allattrvals L size node noattrsflag hattr)
  hash_set size node (attr ∷ attrs) vals hattr =
      or_failed (codes "hostlist_push")
        (hash_allattrvals L size node (flatten_attrsvals (attr ∷ attrs) vals) hattr)

  -- The loop of both over the nodes, with the two arrays.
  unfoldable pub compress_loop :
      (Str → List Str → List Str → Hash Hostlist → P (Hash Hostlist))
      → ℕ
      → List Str
      → Option Array
      → Option Array
      → Hash Hostlist
      → P (Hash Hostlist)
  compress_loop put len [] attrs vals hattr = pure hattr
  compress_loop put len (node ∷ nodes) attrs vals hattr = do
    attrs' ← call (attrlist_clear attrs) (codes "genders_attrlist_clear")
    vals' ← call (vallist_clear vals) (codes "genders_vallist_clear")
    got ← call (getattr attrs' vals' (pos len) (some node)) (codes "genders_getattr")
    hattr' ← put node (stored got.0 got.1) (stored got.0 (cells_of got.2)) hattr
    compress_loop put len nodes (refilled attrs' got.1) got.2 hattr'

  -- `compress`
  unfoldable pub compress : P (Unit {0})
  compress = do
    call (set_flags 1) (codes "genders_set_flags")
    numnodes ← call getnumnodes (codes "genders_getnumnodes")
    numattrs ← call getnumattrs (codes "genders_getnumattrs")
    list ← call (nodelist_create true) (codes "genders_nodelist_create")
    attrs ← call (attrlist_create true) (codes "genders_attrlist_create")
    vals ← call (vallist_create true) (codes "genders_vallist_create")
    found ← call (getnodes list.0 (pos list.1) none none) (codes "genders_getnodes")
    hattr ←
        compress_loop (hash_node ((numattrs + 1) * 4)) attrs.1 (stored found.0 found.1) attrs.0
          vals.0 []
    output_hash numnodes hattr
    call_only (nodelist_destroy list.0)
    call_only (attrlist_destroy attrs.0)
    call_only (vallist_destroy vals.0)

  -- The calls whose results make the size of the buffer of `compress_hosts`, and are not tested.
  unfoldable pub buffer_calls : P (Unit {0})
  buffer_calls = do call_only getmaxattrlen; call_only getmaxvallen

  -- `compress_hosts`. `_flatten_attrsvals` makes the same two calls for each node.
  unfoldable pub compress_hosts : P (Unit {0})
  compress_hosts = do
    call (set_flags 1) (codes "genders_set_flags")
    numnodes ← call getnumnodes (codes "genders_getnumnodes")
    numattrs ← call getnumattrs (codes "genders_getnumattrs")
    attrs ← call (attrlist_create true) (codes "genders_attrlist_create")
    vals ← call (vallist_create true) (codes "genders_vallist_create")
    list ← call (nodelist_create true) (codes "genders_nodelist_create")
    found ← call (getnodes list.0 (pos list.1) none none) (codes "genders_getnodes")
    buffer_calls
    hattr ←
        compress_loop (hash_set (numattrs + 1)) attrs.1 (stored found.0 found.1) attrs.0 vals.0 []
    output_hash numnodes hattr
    call_only (nodelist_destroy list.0)
