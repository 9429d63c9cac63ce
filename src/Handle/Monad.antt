-- ===== src/Handle/Monad.antt =====
-- A C function over a handle that returns -1 or NULL on failure: it takes the handle, and gives
-- the handle that it leaves with its result, `none` for the failure. A failed call keeps what it
-- wrote into the handle before it failed.
use genders.Base.{ℤ, Bool, Option, none, some, if◌then◌else◌}
use genders.Handle.Types.{Handle}

abbrev pub M {ℓ} : Type ℓ → Type ℓ
M A = Handle → Option A × Handle

module _ {ℓ} {A : Type ℓ} where
  abbrev pub pure : A → M A
  pure a h = (some a, h)

  -- `return -1` with the error code as it stands.
  abbrev pub fail : M A
  fail h = (none, h)

  -- `handle->errnum = e; return -1;`
  abbrev pub fail_with : ℤ → M A
  fail_with e h = (none, record h { errnum = e })

  -- `handle->errnum = e; return a;`
  abbrev pub done_with : ℤ → A → M A
  done_with e a h = (some a, record h { errnum = e })

  abbrev pub gets : (Handle → A) → M A
  gets f h = (some (f h), h)

abbrev pub modify : (Handle → Handle) → M (Unit {0})
modify f h = (some tt, f h)

-- `if (!test) { handle->errnum = e; return -1; }`
abbrev pub require : Bool → ℤ → M (Unit {0})
require test e h = if test then (some tt, h) else (none, record h { errnum = e })

-- What follows a call, on its result and the handle that it left.
abbrev pub proceed {ℓ κ} :
    {A : Type ℓ} {B : Type κ} → Option A × Handle → (A → M B) → Option B × Handle
proceed (none, h) f = (none, h)
proceed (some a, h) f = f a h

infixl 5 ◌>>=◌ ◌>>◌
abbrev pub ◌>>=◌ {ℓ κ} : {A : Type ℓ} {B : Type κ} → M A → (A → M B) → M B
◌>>=◌ m f h = proceed (m h) f

abbrev pub ◌>>◌ {ℓ κ} : {A : Type ℓ} {B : Type κ} → M A → M B → M B
m >> k = m >>= λ _. k

-- A call through a pointer that may be NULL: every entry point starts with a check that returns
-- -1 for NULL and leaves nothing changed.
abbrev pub on_handle {ℓ} : {A : Type ℓ} → M A → Option Handle → Option A × Option Handle
on_handle m none = (none, none)
on_handle m (some h) = let (r, h') = m h in (r, some h')
