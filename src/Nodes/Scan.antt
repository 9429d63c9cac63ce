-- ===== src/Nodes/Scan.antt =====
-- The nodes that an attribute, or an attribute and a value, selects: a description with no array,
-- no buffer and no index.
use genders.Base.{
  Bool, true, false, Option, none, some, List, [], ◌∷◌, ◌++◌, ◌≡◌, select, Str, str_eq,
}
use genders.Libcommon.{Hostlist, hash_find}
use genders.Handle.{Handle, Hosts, Attrval}
use genders.Value.Expand.{shown, is_readable}

-- Whether the value of an attribute is, for a node, the given text.
abbrev pub has_value : Handle → Str → Attrval → Str → Bool
has_value h val av node = elim av.val [
  | none ↦ false
  | some v ↦ str_eq val (shown h node v av.val_contains_subst)
]

-- The nodes of a line that has the attribute.
abbrev pub line_nodes : Handle → Option Str → Hosts → Attrval → Hostlist
line_nodes h none gh av = gh.hl
line_nodes h (some val) gh av = select (has_value h val av) gh.hl

-- The nodes of the database, line by line.
abbrev pub scan : Handle → Str → Option Str → List Hosts → Hostlist
scan h attr val [] = []
scan h attr val (gh ∷ hosts) = elim (hash_find gh.attrval_index attr) [
  | none ↦ scan h attr val hosts
  | some av ↦ line_nodes h val gh av ++ scan h attr val hosts
]

-- Every node of a list can read a value.
abbrev pub AllRead : Handle → Str → Bool → Hostlist → Type 0
AllRead h v contains_subst [] = Unit
AllRead h v contains_subst (n ∷ ns) =
    (is_readable h n v contains_subst ≡ true) × AllRead h v contains_subst ns

-- Every node of every line can read the line's value of an attribute. An attribute without a
-- value has no substitution.
abbrev pub LineReads : Handle → Hosts → Option Attrval → Type 0
LineReads h gh none = Unit
LineReads h gh (some av) = elim av.val [
  | none ↦ av.val_contains_subst ≡ false
  | some v ↦ AllRead h v av.val_contains_subst gh.hl
]

abbrev pub IsReadable : Handle → Str → List Hosts → Type 0
IsReadable h attr [] = Unit
IsReadable h attr (gh ∷ hosts) =
    LineReads h gh (hash_find gh.attrval_index attr) × IsReadable h attr hosts
