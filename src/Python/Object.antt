-- ===== src/Python/Object.antt =====
-- src/extensions/python/libgendersmodule.c: the object, and what every method does with the result
-- of a call. What the code uses of the Python C API is a parameter.
use genders.Base.{
  ℤ, pos, Bool, true, false, Option, none, some, [], ◌∷◌, Str, if◌then◌else◌, ◌==◌, pos_part,
  neg_part, ◌&&◌,
}
use genders.Handle.{Handle, M, err_outmem}
use genders.Handle.Checks.{genders_errnum}

pub record Python : Type 1 where
  pub Object : Type 0
  -- `Py_BuildValue("i", n)`; `none` where it returns NULL, and has raised an exception.
  pub int_value : ℤ → Option Object
  -- `Py_BuildValue("s", s)` and `Py_BuildValue("z", s)`; `none` for a NULL pointer, which gives
  -- None.
  pub text_value : Option Str → Option Object

-- The handle of the object, and whether an exception has been raised.
pub record Libgenders : Type 0 where
  pub gh : Handle
  pub raised : Bool

abbrev pub raise : Libgenders → Libgenders
raise self = record self { raised = true }

-- `_genders_exception_check`: only GENDERS_ERR_OUTMEM raises.
unfoldable pub exception_check : Libgenders → Libgenders
exception_check self =
    let e = genders_errnum (some self.gh) in
    if pos_part e == pos_part err_outmem && neg_part e == 0 then raise self else self

-- The `int` of a Boolean result.
abbrev pub whether : Bool → ℤ
whether true = pos 1
whether false = pos 0

-- An empty text counts as none.
abbrev pub no_text : Str → Option Str
no_text [] = none
no_text (c ∷ s) = some (c ∷ s)

module _ (P : Python) where
  open P use {Object}

  -- A method gives an object, or `none` for NULL.
  abbrev pub Method : Type 0
  Method = Libgenders → Option Object × Libgenders

  -- `if (!(rv = Py_BuildValue(...))) goto cleanup;` before `return rv;`
  abbrev pub build : Option Object → Method
  build none self = (none, raise self)
  build (some rv) self = (some rv, self)

  -- What follows a call, on its result and the handle that it left.
  abbrev pub proceed {ℓ} : {A : Type ℓ} → Option A × Handle → (A → Method) → Method
  proceed (none, h) f self = (none, exception_check (record self { gh = h }))
  proceed (some a, h) f self = f a (record self { gh = h })

  -- `if ((ret = genders_f(self->gh, ...)) < 0) { _genders_exception_check(self); goto cleanup; }`
  abbrev pub call {ℓ} : {A : Type ℓ} → M A → (A → Method) → Method
  call m f self = proceed (m self.gh) f self
