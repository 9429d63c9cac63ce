-- ===== src/Nodeattr/Calls.antt =====
-- src/nodeattr/nodeattr.c: the calls of the hostlist and list libraries that only nodeattr makes,
-- and `_rangestr`.
pub mod Buffer
use genders.Base.{
  ℕ, zero, suc, ◌+◌, Bool, true, false, Option, none, some, List, [], ◌∷◌, Str, codes, ltb, length,
  if◌then◌else◌, ◌==◌, ℤ,
}
use genders.Libcommon.{Hostlist}

-- Their behaviour is a parameter.
pub record Calls : Type 1 where
  -- `hostlist_delete`: the list without the hosts that the text names.
  pub hostlist_delete : Hostlist → Str → Hostlist
  -- `hostlist_ranged_string` and `hostlist_deranged_string` on a buffer of some size: the text that
  -- they leave in it, `none` where they return -1. Nothing is said of when they do.
  pub hostlist_ranged_string : Hostlist → ℕ → Option Str
  pub hostlist_deranged_string : Hostlist → ℕ → Option Str
  -- `list_sort`, for a comparison that gives the sign of `strcmp`.
  pub list_sort : (A : Type 0) → (A → A → ℤ) → List A → List A

-- `fmt_t`
pub data Format : Type 0 where
  fmt_comma : Format
  fmt_nl : Format
  fmt_space : Format
  fmt_hostlist : Format

-- How often an int of 32 bits can double 65536: from 2 ^ 30 on, `size += size` overflows.
abbrev pub doublings : ℕ
doublings = 14

-- The loops that double the buffer until the call succeeds, with the doublings that are left.
-- Behind the last one the size is negative, which `_safe_malloc` takes for one that no allocation
-- meets: `none`.
unfoldable pub grow_buffer : ℕ → (ℕ → Option Str) → ℕ → Option Str
grow_buffer zero call size = call size
grow_buffer (suc n) call size =
    let larger = grow_buffer n call (size + size) in
    elim (call size) [ none ↦ larger | some s ↦ some s ]

-- The loop that puts the separator at each comma.
unfoldable pub replace_commas : ℕ → Str → Str
replace_commas sep [] = []
replace_commas sep (c ∷ s) = (if c == b',' then sep else c) ∷ replace_commas sep s

abbrev pub separator : Format → ℕ
separator fmt_comma = b','
separator fmt_nl = 10
separator fmt_space = b' '
separator fmt_hostlist = 10

module _ (C : Calls) where
  open C use {hostlist_ranged_string, hostlist_deranged_string}

  abbrev pub replaced : Format → Option Str → Option Str
  replaced fmt none = none
  replaced fmt (some s) = some (replace_commas (separator fmt) s)

  -- `_rangestr`; `none` where `_safe_malloc` refuses the size of a buffer.
  unfoldable pub rangestr : Hostlist → Format → Option Str
  rangestr hl fmt_hostlist = grow_buffer doublings (hostlist_ranged_string hl) 65536
  rangestr hl fmt = replaced fmt (grow_buffer doublings (hostlist_deranged_string hl) 65536)
