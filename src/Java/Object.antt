-- ===== src/Java/Object.antt =====
-- src/extensions/java/src/Gendersjni.c: the object, exceptions, and the calls that every native
-- method makes. What the code uses of the Java Native Interface is a parameter.
use genders.Base.{
  ℕ, ℤ, pos, Bool, Option, none, some, List, [], ◌∷◌, Str, length, if◌then◌else◌, pos_part,
  neg_part, ◌==◌, ◌&&◌,
}
use genders.Handle.{
  Handle, M, err_open, err_read, err_parse, err_parameters, err_notfound, err_syntax, err_internal,
}
use genders.Handle.Checks.{genders_errnum}
use genders.Array.{Array}
use genders.Array.Writes.{stored}

-- The classes of exceptions that the code throws, and one for those of the virtual machine, which
-- it throws where a call of the interface fails.
pub data Exception : Type 0 where
  open_exception : Exception
  read_exception : Exception
  parse_exception : Exception
  parameters_exception : Exception
  notfound_exception : Exception
  syntax_exception : Exception
  internal_exception : Exception
  machine_exception : Exception

pub record Jni : Type 1 where
  pub JString : Type 0
  -- `GetStringUTFChars`; `none` where it returns NULL.
  pub utf_chars : JString → Option Str
  -- `NewStringUTF`
  pub new_string : Str → Option JString
  -- Whether `NewObjectArray` makes an array of a length.
  pub new_object_array : ℕ → Bool
  -- Whether `FindClass` finds the class of an exception.
  pub find_class : Exception → Bool
  -- Whether `GetFieldID` finds the field `gh_addr`.
  pub get_field_id : Bool

-- The field `gh_addr`, `none` for 0, with the handle that it points to; and the exception that is
-- pending.
pub record Genders : Type 0 where
  pub gh_addr : Option Handle
  pub pending : Option Exception

-- `errnum == code`
abbrev pub equals_code : ℤ → ℤ → Bool
equals_code errnum code = pos_part errnum == pos_part code && neg_part errnum == neg_part code

-- The class for an error code.
unfoldable pub exception_of : ℤ → Exception
exception_of errnum =
    if equals_code errnum err_open
    then open_exception
    else if equals_code errnum err_read
    then read_exception
    else if equals_code errnum err_parse
    then parse_exception
    else if equals_code errnum err_parameters
    then parameters_exception
    else if equals_code errnum err_notfound
    then notfound_exception
    else if equals_code errnum err_syntax
    then syntax_exception
    else internal_exception

-- `goto cleanup` is `none`; a method then returns its default (-1, null or false).
abbrev pub R {ℓ} : Type ℓ → Type ℓ
R A = Genders → Option A × Genders

abbrev pub pure {ℓ} : {A : Type ℓ} → A → R A
pure a obj = (some a, obj)

abbrev pub proceed {ℓ κ} :
    {A : Type ℓ} {B : Type κ} → Option A × Genders → (A → R B) → Option B × Genders
proceed (none, obj) f = (none, obj)
proceed (some a, obj) f = f a obj

infixl 5 ◌>>=◌ ◌>>◌
abbrev pub ◌>>=◌ {ℓ κ} : {A : Type ℓ} {B : Type κ} → R A → (A → R B) → R B
◌>>=◌ m f obj = proceed (m obj) f

abbrev pub ◌>>◌ {ℓ κ} : {A : Type ℓ} {B : Type κ} → R A → R B → R B
m >> k = m >>= λ _. k

-- A call of the interface has failed, and the virtual machine has thrown.
abbrev pub machine_failed {ℓ} : {A : Type ℓ} → R A
machine_failed obj = (none, record obj { pending = some machine_exception })

module _ (J : Jni) where
  open J use {JString, utf_chars, new_string, new_object_array, find_class, get_field_id}

  -- `_throw_exception`
  unfoldable pub throw_exception : ℤ → Genders → Genders
  throw_exception errnum obj = record obj {
    pending =
        if find_class (exception_of errnum)
        then some (exception_of errnum)
        else some machine_exception;
  }

  -- `_get_handle`, on the field.
  abbrev pub got_handle : Option Handle → R (Unit {0})
  got_handle none obj = (none, throw_exception err_internal obj)
  got_handle (some h) obj = (some tt, obj)

  unfoldable pub get_handle : R (Unit {0})
  get_handle obj = if get_field_id then got_handle obj.gh_addr obj else machine_failed obj

  -- What follows a call on the handle, on its result and the handle that it left.
  abbrev pub returned {ℓ} : {A : Type ℓ} → Option A × Handle → R A
  returned (none, h) obj =
      (none, throw_exception (genders_errnum (some h)) (record obj { gh_addr = some h }))
  returned (some a, h) obj = (some a, record obj { gh_addr = some h })

  -- The handle is there, since `_get_handle` stands before each call.
  abbrev pub called {ℓ} : {A : Type ℓ} → Option Handle → M A → R A
  called none m obj = (none, throw_exception err_internal obj)
  called (some h) m obj = returned (m h) obj

  -- `if ((ret = genders_f (handle, ...)) < 0) { _throw_exception (...); goto cleanup; }`
  unfoldable pub call {ℓ} : {A : Type ℓ} → M A → R A
  call m obj = called obj.gh_addr m obj

  -- `if (s) { if (!(utf = GetStringUTFChars(...))) goto cleanup; }`
  unfoldable pub utf : Option JString → R (Option Str)
  utf none obj = (some none, obj)
  utf (some s) obj = elim (utf_chars s) [
    | none ↦ machine_failed obj
    | some chars ↦ (some (some chars), obj)
  ]

  -- `NewStringUTF`
  abbrev pub or_failed {ℓ} : {A : Type ℓ} → Option A → R A
  or_failed none obj = machine_failed obj
  or_failed (some a) obj = (some a, obj)

  -- The loop that makes the strings of an array.
  unfoldable pub new_strings : List Str → R (List JString)
  new_strings [] = pure []
  new_strings (s ∷ strs) = do
    tmpstr ← or_failed (new_string s)
    rest ← new_strings strs
    pure (tmpstr ∷ rest)

  unfoldable pub new_array : List Str → R (List JString)
  new_array strs obj =
      if new_object_array (length strs) then new_strings strs obj else machine_failed obj

  -- `if (nodelist) genders_nodelist_destroy (handle, nodelist);`, with the result of the method.
  abbrev pub on_field : (M (Unit {0})) → Option Handle → Option Handle
  on_field m none = none
  on_field m (some h) = some (m h).1

  abbrev pub destroyed {ℓ} :
      {A : Type ℓ}
      → (Option Array → M (Unit {0}))
      → Option Array
      → Option A × Genders
      → Option A × Genders
  destroyed destroy none r = r
  destroyed destroy (some list) (rv, obj) =
      (rv, record obj { gh_addr = on_field (destroy (some list)) obj.gh_addr })

  -- A method that gives an array of strings, behind the creation of its list: `fill` is the call
  -- that stores them.
  abbrev pub with_created :
      (Option Array → M (Unit {0}))
      → (Option Array → ℤ → M (ℕ × Array))
      → Option (Option Array × ℕ) × Genders
      → Option (List JString) × Genders
  with_created destroy fill (none, obj) = (none, obj)
  with_created destroy fill (some (list, len), obj) =
      destroyed destroy list
        ((do found ← call (fill list (pos len)); new_array (stored found.0 found.1)) obj)

  unfoldable pub with_list :
      M (Option Array × ℕ)
      → (Option Array → M (Unit {0}))
      → (Option Array → ℤ → M (ℕ × Array))
      → R (List JString)
  with_list create destroy fill obj = with_created destroy fill (call create obj)
