-- ===== src/Parse/Duplicates.antt =====
-- `_hostlist_intersect`, `_attrval_intersect` and `_duplicate_attr_checks`: a line may give no
-- attribute to a node that an earlier line has given it.
use genders.Base.{
  ℕ, Bool, true, false, List, [], ◌∷◌, ◌==◌, ltb, if◌then◌else◌, any, length, is_some, Str,
}
use genders.Libcommon.{Hash, Hostlist, hash_find, hash_for_each, hostlist_has}
use genders.Handle.{Hosts, Attrval, err_parse}
use genders.Parse.State.{Parser, P, ok, bug, failed, print, duplicate_attribute}

-- `_hostlist_intersect`: the hosts of the shorter list are looked up in the longer one.
unfoldable pub hostlist_intersect : Hostlist → Hostlist → Bool
hostlist_intersect hl1 hl2 =
    if ltb (length hl2) (length hl1) then any (hostlist_has hl1) hl2 else any (hostlist_has hl2) hl1

-- `_attr_lookup`
unfoldable pub attr_lookup : Hash Attrval → ℕ → Str → Attrval → Parser → Parser × Bool
attr_lookup lookup line_num key av p =
    if is_some (hash_find lookup key)
    then (if line_num == 0 then p else print line_num (duplicate_attribute key) p, true)
    else (p, false)

-- `_attrval_intersect`: whether the smaller hash has an attribute of the larger one.
unfoldable pub attrval_intersect : Hash Attrval → Hash Attrval → ℕ → Parser → Bool × Parser
attrval_intersect index1 index2 line_num p =
    let swapped = ltb (length index2) (length index1) in
    let index = if swapped then index2 else index1 in
    let lookup = if swapped then index1 else index2 in
    let (p', ret) = hash_for_each (attr_lookup lookup line_num) index p in
    if ret == 0 then (false, p') else (true, record p' { errnum = err_parse })

-- `_duplicate_attr_checks`, the loop over the earlier lines.
unfoldable pub duplicate_attr_checks : List Hosts → Hostlist → Hash Attrval → ℕ → P (Unit {0})
duplicate_attr_checks [] hl index line_num p = (ok tt, p)
duplicate_attr_checks (hosts ∷ rest) hl index line_num p =
    let skipped = duplicate_attr_checks rest hl index line_num p in
    let (duplicate, p') = attrval_intersect hosts.attrval_index index line_num p in
    let checked = duplicate_attr_checks rest hl index line_num p' in
    if hostlist_intersect hosts.hl hl
    then if duplicate then (if line_num == 0 then (failed, p') else (bug, p')) else checked
    else skipped
