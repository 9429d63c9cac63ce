-- ===== src/Nodes/Overflow.antt =====
-- `genders_getnodes` into an array that is too short.
use genders.Base.{ℕ, ◌+◌, ◌≤◌, ◌<◌, Option, none, ◌≡◌, length, Str}
use genders.Libcommon.{Hostlist}
use genders.Handle.{Handle, err_overflow, M}
use genders.Array.{Array}
use genders.Array.Writes.{IsFilled}
use genders.Nodes.{Cursor}

-- A loop that meets the end of the array before it has stored its nodes reports an overflow.
abbrev Overflows : ℕ → (Cursor → M Cursor) → Hostlist → Handle → Type 0
Overflows m loop ns h =
    (list : Array) (i : ℕ)
    → IsFilled list
    → length list ≡ m
    → i ≤ m
    → m < i + length ns
    → (b : Option Str) × (loop (list, i) h ≡ (none, record h { errnum = err_overflow; valbuf = b }))
