-- ===== src/Load/Flags.antt =====
-- The flags of a handle.
use genders.Base.{
  ℕ, ◌-◌, ◌%◌, true, false, some, none, ◌≡◌, arith, ◌==◌, leb, Bool-cases, inl, inr, if◌then◌else◌,
}
use genders.Handle.{Handle, magic_num, err_success, err_parameters}
use genders.Handle.Checks.{handle_error_check}
use genders.Load.{get_flags, set_flags}

-- On a valid handle, flags of the known bit alone are stored and read back, with nothing else
-- changed but the error code; any others are refused with GENDERS_ERR_PARAMETERS and the flags
-- stay as they are.
set_flags-get_flags :
    (f : ℕ) (h : Handle)
    → h.magic ≡ magic_num
    → (set_flags f h ≡ (
        if leb f 1
        then (some tt, record h { flags = f; errnum = err_success })
        else (none, record h { errnum = err_parameters })))
      × (get_flags true (set_flags f h).1 ≡ (
        some (if leb f 1 then f else h.flags),
        record h { flags = if leb f 1 then f else h.flags; errnum = err_success },
      ))
unfolding set_flags get_flags handle_error_check
set_flags-get_flags f h m = elim (Bool-cases (leb f 1)) [
  | inl e ↦ rw e (let z : (f - f % 2 == 0) ≡ true = ground arith in (rw (z, m), rw (z, m)))
  | inr e ↦ rw e (let z : (f - f % 2 == 0) ≡ false = ground arith in (rw (z, m), rw (z, m)))
]
