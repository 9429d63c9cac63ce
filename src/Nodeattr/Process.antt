-- ===== src/Nodeattr/Process.antt =====
-- src/nodeattr/nodeattr.c: what a command of the program does, as a state of two handles and the
-- two output streams, that it may end with an exit status.
use genders.Base.{
  ℤ, pos, Bool, Option, none, some, List, [], ◌∷◌, ◌++◌, ◌⊎◌, inl, inr, Str, codes, if◌then◌else◌,
  pos_part, neg_part, ◌==◌, ◌&&◌,
}
use genders.Handle.{Handle, M, err_parse}
use genders.Handle.Checks.{genders_errnum}
use genders.Lookup.{text}
use genders.Load.{genders_strerror}

-- `gp`, which `_diff` calls `gh`, its `dgh`, the bytes written to stdout, the texts that calls of
-- `fprintf` wrote to stderr, and what `strerror(errno)` is when a call of libcommon fails: the
-- program prints it once, and exits.
pub record World : Type 0 where
  pub handle : Handle
  pub other : Handle
  pub out : Str
  pub err : List Str
  pub errno_text : Str

abbrev pub P {ℓ} : Type ℓ → Type ℓ
P A = World → (ℤ ⊎ A) × World

module _ {ℓ} {A : Type ℓ} where
  abbrev pub pure : A → P A
  pure a w = (inr a, w)

  -- `exit(status)`
  abbrev pub exit : ℤ → P A
  exit status w = (inl status, w)

-- What follows a call, on its result and the state that it left.
abbrev pub proceed {ℓ κ} : {A : Type ℓ} {B : Type κ} → (ℤ ⊎ A) × World → (A → P B) → (ℤ ⊎ B) × World
proceed (inl status, w) f = (inl status, w)
proceed (inr a, w) f = f a w

infixl 5 ◌>>=◌ ◌>>◌
abbrev pub ◌>>=◌ {ℓ κ} : {A : Type ℓ} {B : Type κ} → P A → (A → P B) → P B
◌>>=◌ m f w = proceed (m w) f

abbrev pub ◌>>◌ {ℓ κ} : {A : Type ℓ} {B : Type κ} → P A → P B → P B
m >> k = m >>= λ _. k

-- `printf`
abbrev pub printf : Str → P (Unit {0})
printf s w = (inr tt, record w { out = w.out ++ s })

-- `fprintf(stderr, ...)`
abbrev pub eprintf : Str → P (Unit {0})
eprintf s w = (inr tt, record w { err = w.err ++ s ∷ [] })

-- `genders_errnum(gp) == GENDERS_ERR_PARSE`
abbrev pub is_err_parse : ℤ → Bool
is_err_parse e = pos_part e == pos_part err_parse && neg_part e == 0

-- `_gend_error_exit`, in a build with `getopt_long`.
unfoldable pub gend_error_exit {ℓ} : {A : Type ℓ} → Handle → Str → P A
gend_error_exit h msg = do
  eprintf (
      codes "nodeattr: "
      ++ msg
      ++ codes ": "
      ++ text (genders_strerror (genders_errnum (some h)))
      ++ codes "\n")
  (if is_err_parse (genders_errnum (some h))
      then eprintf (codes "nodeattr: use --parse-check to debug errors\n")
      else pure tt)
  exit (pos 1)

-- `if ((r = genders_f(handle, ...)) < 0) _gend_error_exit(reported, msg);`, once the call has left
-- its handle in the state.
unfoldable pub or_exit {ℓ} : {A : Type ℓ} → Option A → Handle → Str → P A
or_exit none h msg = gend_error_exit h msg
or_exit (some a) h msg = pure a

-- A call on `gp`.
unfoldable pub call {ℓ} : {A : Type ℓ} → M A → Str → P A
call m msg w = let (r, h) = m w.handle in or_exit r h msg (record w { handle = h })

-- A call on `dgh`.
unfoldable pub call_other {ℓ} : {A : Type ℓ} → M A → Str → P A
call_other m msg w = let (r, h) = m w.other in or_exit r h msg (record w { other = h })

-- A call on `gp` whose result the code does not read.
unfoldable pub call_only {ℓ} : {A : Type ℓ} → M A → P (Unit {0})
call_only m w = let (r, h) = m w.handle in (inr tt, record w { handle = h })

unfoldable pub call_only_other {ℓ} : {A : Type ℓ} → M A → P (Unit {0})
call_only_other m w = let (r, h) = m w.other in (inr tt, record w { other = h })

-- `if (!f(...)) { fprintf(stderr, "f: %s\n", strerror(errno)); exit(1); }` for a call of libcommon.
unfoldable pub or_failed {ℓ} : {A : Type ℓ} → Str → Option A → P A
or_failed f none w =
    (inl (pos 1), record w { err = w.err ++ (f ++ codes ": " ++ w.errno_text ++ codes "\n") ∷ [] })
or_failed f (some a) w = (inr a, w)
