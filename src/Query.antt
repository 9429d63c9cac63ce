-- ===== src/Query.antt =====
-- src/libgenders/genders_query.y: the tree of a query and its evaluation over hostlists.
pub mod Meaning
pub mod Sets
pub mod Correct
pub mod Entry
pub mod Token
pub mod Grammar
pub mod Automaton
pub mod Lexing
pub mod Print
pub mod Language
pub mod Ask
use genders.Base.{
  ℕ, Bool, true, false, not, Option, none, some, List, [], ◌∷◌, ◌++◌, ℤ, pos, ltb_ℤ, ◌==◌, ◌&&◌,
  ◌||◌, if◌then◌else◌, is_some, Str, str_eq, codes, strchr, is_missing, select, ◌⊎◌, inl, inr,
}
use genders.Libcommon.{Libcommon, Hostlist, hostlist_has}
use genders.Handle.{
  Handle, M, pure, require, fail_with, done_with, ◌>>=◌, ◌>>◌, err_internal, err_parameters,
  err_success, err_notfound,
}
use genders.Handle.Checks.{loaded_handle_error_check}
use genders.Array.{Array, nodelist_create}
use genders.Array.Writes.{stored}
use genders.Lookup.{or_nodename, text}
use genders.Nodes.{Cursor, cells, put_nodes, getnodes}

-- `struct genders_treenode`, with no children or with two, as `_genders_makenode` allows. The
-- flag is `complement`.
pub data Tree : Type 0 where
  leaf : Str → Bool → Tree
  branch : Str → Tree → Tree → Bool → Tree

-- `_genders_set_complement_flag`
unfoldable pub set_complement_flag : Tree → Tree
set_complement_flag (leaf s c) = leaf s (not c)
set_complement_flag (branch s l r c) = branch s l r (not c)

-- `strchr(attr, '=')` in a leaf: the attribute, and the value if there is one.
unfoldable pub split_query : Str → Str × Option Str
split_query s = elim (strchr s b'=') [ none ↦ (s, none) | some (attr, val) ↦ (attr, some val) ]

module _ (L : Libcommon) where
  open L use {hosts_of, hostlist_uniq, ranged_string}

  -- `hostlist_push` of every text of a list; `none` where a call returns 0.
  unfoldable pub push_all : Hostlist → Hostlist → Option Hostlist
  push_all [] h = some h
  push_all (node ∷ nodes) h = elim (hosts_of node) [
    | none ↦ none
    | some hosts ↦ push_all nodes (h ++ hosts)
  ]

  -- `hostlist_uniq(h); return h;`, where every push has succeeded.
  unfoldable pub uniq_or_fail : Option Hostlist → M Hostlist
  uniq_or_fail none = fail_with err_internal
  uniq_or_fail (some h) = pure (hostlist_uniq h)

  -- `_calc_attrval_nodes`
  unfoldable pub calc_attrval_nodes : Str → M Hostlist
  calc_attrval_nodes str = do
    created ← nodelist_create true
    found ← getnodes created.0 (pos created.1) (some (split_query str).0) (split_query str).1
    uniq_or_fail (push_all (stored found.0 found.1) [])

  -- The push of a ranged text, whose result the code does not read.
  unfoldable pub push_ranged : Str → Hostlist → Hostlist
  push_ranged [] h = h
  push_ranged (c ∷ s) h = elim (hosts_of (c ∷ s)) [ none ↦ h | some hosts ↦ h ++ hosts ]

  -- `_calc_union`
  unfoldable pub calc_union : Hostlist → Hostlist → M Hostlist
  calc_union l r = elim (ranged_string l) [
    | none ↦ fail_with err_internal
    | some left ↦ elim (ranged_string r) [
      | none ↦ fail_with err_internal
      | some right ↦ pure (hostlist_uniq (push_ranged right (push_ranged left [])))
    ]
  ]

  -- `_calc_intersection`
  unfoldable pub calc_intersection : Hostlist → Hostlist → M Hostlist
  calc_intersection l r = pure (hostlist_uniq (select (hostlist_has r) l))

  -- `_calc_set_difference`
  unfoldable pub calc_set_difference : Hostlist → Hostlist → M Hostlist
  calc_set_difference l r = pure (hostlist_uniq (select (λ n. not (hostlist_has r n)) l))

  -- `_calc_complement`
  unfoldable pub calc_complement : Hostlist → M Hostlist
  calc_complement h = do
    created ← nodelist_create true
    found ← getnodes created.0 (pos created.1) none none
    pure (hostlist_uniq (select (λ n. not (hostlist_has h n)) (stored found.0 found.1)))

  -- The choice by the operator of a node.
  unfoldable pub calc_operator : Str → Hostlist → Hostlist → M Hostlist
  calc_operator op l r =
      if str_eq op (codes "||")
      then calc_union l r
      else if str_eq op (codes "&&")
      then calc_intersection l r
      else if str_eq op (codes "--")
      then calc_set_difference l r
      else fail_with err_internal

  abbrev complement_if : Bool → Hostlist → M Hostlist
  complement_if complement h = if complement then calc_complement h else pure h

  -- `_calc_query`
  unfoldable pub calc_query : Tree → M Hostlist
  calc_query (leaf str complement) = do h ← calc_attrval_nodes str; complement_if complement h
  calc_query (branch op left right complement) = do
    l ← calc_query left
    r ← calc_query right
    h ← calc_operator op l r
    complement_if complement h

  -- The generated lexer and parser: the tree of a query, or the error code that they leave.
  module _ (parse_query : Str → ℤ ⊎ Tree) where
    -- `genders_query`. The result is the count and the caller's array.
    unfoldable pub query : Option Array → ℤ → Option Str → M (ℕ × Array)
    query nodes len q = do
      loaded_handle_error_check
      require (not (not (is_some nodes) && ltb_ℤ (pos 0) len || ltb_ℤ len (pos 0))) err_parameters
      if is_missing q then getnodes nodes len none none else elim (parse_query (text q)) [
        | inl e ↦ fail_with e
        | inr tree ↦ do
          h ← calc_query tree
          cur ← put_nodes len h (cells nodes, 0)
          done_with err_success (cur.1, cur.0)
      ]

    -- `genders_testquery`
    unfoldable pub testquery : Option Str → Option Str → M Bool
    testquery node q = do
      loaded_handle_error_check
      require (not (is_missing q)) err_parameters
      λ h.
          (if h.numnodes == 0
              then fail_with err_notfound
              else if hostlist_has h.hostnames (or_nodename node h)
              then (do
                created ← nodelist_create true
                found ← query created.0 (pos created.1) q
                done_with err_success (hostlist_has (stored found.0 found.1) (or_nodename node h)))
              else fail_with err_notfound)
            h
