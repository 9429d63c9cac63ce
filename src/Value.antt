-- ===== src/Value.antt =====
-- src/libgenders/genders_util.c: `_genders_get_valptr`, the value of an attribute for one node,
-- with "%n" standing for the node and "%%" for a percent sign.
pub mod Expand
pub mod Bounds
use genders.Base.{
  ℕ, ◌+◌, ◌-◌, ◌%◌, Bool, true, false, not, ◌||◌, Option, some, none, [], ◌∷◌, ◌++◌, ◌==◌, ltb,
  if◌then◌else◌, length, Str,
}
use genders.Handle.{Handle, M, fail_with, flag_raw_values, err_internal}

-- The loop over the value. The flag says whether the size test of a "%n" passes, which reads no
-- variable of the loop; the result says whether the loop ran to the end, and what it wrote.
unfoldable pub subst_loop : Bool → Str → Str → Str → Bool × Str
subst_loop fits node [] buf = (true, buf)
subst_loop fits node (c ∷ []) buf = (true, buf ++ c ∷ [])
subst_loop fits node (c ∷ d ∷ v) buf =
    let as_percent = subst_loop fits node v (buf ++ b'%' ∷ []) in
    let as_name = subst_loop fits node v (buf ++ node) in
    let as_byte = subst_loop fits node (d ∷ v) (buf ++ c ∷ []) in
    if c == b'%'
    then if d == b'%'
      then as_percent
      else if d == b'n'
      then if fits then as_name else (false, buf)
      else as_byte
    else as_byte

-- `!((strlen(av->val) - 2 + strlen(nodename)) > (handle->maxvallen + 1))`. The code makes the test
-- at a "%n", so the value has two bytes at least.
unfoldable pub subst_fits : ℕ → Str → Str → Bool
subst_fits maxvallen node val = not (ltb (maxvallen + 1) (length val - 2 + length node))

-- `handle->flags & GENDERS_FLAG_RAW_VALUES`
abbrev pub raw_values : Handle → Bool
raw_values h = h.flags % 2 == flag_raw_values

-- `_genders_get_valptr` for a node, `av->val` and `av->val_contains_subst`. The result holds the
-- text at `*val` and `*subst_occurred`.
unfoldable pub get_valptr : Str → Str → Bool → M (Str × Bool)
get_valptr node val contains_subst h =
    let (done, buf) = subst_loop (subst_fits h.maxvallen node val) node val [] in
    if not contains_subst || raw_values h
    then (some (val, false), h)
    else if done
    then (some (buf, true), record h { valbuf = some buf })
    else fail_with err_internal (record h { valbuf = some buf })
