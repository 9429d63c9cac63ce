-- ===== src/Parse/State.antt =====
-- What `_parse_line` reads and writes through its arguments, and the two ways in which it stops.
use genders.Base.{ℕ, ℤ, List, [], ◌∷◌, ◌++◌, ◌==◌, if◌then◌else◌, Str}
use genders.Libcommon.{Hash, Hostlist}
use genders.Handle.{Hosts, err_parse}

-- The texts that a debugging run prints, each with its line number.
pub data Message : Type 0 where
  white_space empty_attribute not_shortened bad_nodenames hostname_too_long line_too_long : Message
  duplicate_attribute no_value : Str → Message

-- The error code of the handle, the variables behind the pointer arguments, and the output.
pub record Parser : Type 0 where
  pub errnum : ℤ
  pub numattrs : ℕ
  pub maxnodelen : ℕ
  pub maxattrlen : ℕ
  pub maxvallen : ℕ
  pub genders_hosts : List Hosts
  pub hostnames : Hostlist
  pub attrs : Hash Str
  pub attrs_size : ℕ
  pub stream : List (ℕ × Message)

-- `bug` is the return value 1 of a debugging run, `failed` is -1.
pub data Outcome {ℓ} (A : Type ℓ) : Type ℓ where
  ok : A → Outcome A
  bug failed : Outcome A

abbrev pub P {ℓ} : Type ℓ → Type ℓ
P A = Parser → Outcome A × Parser

abbrev pub pure {ℓ} : {A : Type ℓ} → A → P A
pure a p = (ok a, p)

abbrev pub modify : (Parser → Parser) → P (Unit {0})
modify f p = (ok tt, f p)

-- `fprintf(stream, "Line %d: ...\n", line_num)`
abbrev pub print : ℕ → Message → Parser → Parser
print line_num m p = record p { stream = p.stream ++ (line_num, m) ∷ [] }

-- `if (line_num > 0) { fprintf(...); rv = 1; } handle->errnum = GENDERS_ERR_PARSE; goto cleanup;`
abbrev pub parse_error {ℓ} : {A : Type ℓ} → ℕ → Message → P A
parse_error line_num m p =
    if line_num == 0
    then (failed, record p { errnum = err_parse })
    else (bug, record (print line_num m p) { errnum = err_parse })

-- What follows a call, on its result and the state that it left.
abbrev pub proceed {ℓ κ} :
    {A : Type ℓ} {B : Type κ} → Outcome A × Parser → (A → P B) → Outcome B × Parser
proceed (ok a, p) f = f a p
proceed (bug, p) f = (bug, p)
proceed (failed, p) f = (failed, p)

infixl 5 ◌>>=◌ ◌>>◌
abbrev pub ◌>>=◌ {ℓ κ} : {A : Type ℓ} {B : Type κ} → P A → (A → P B) → P B
◌>>=◌ m f p = proceed (m p) f

abbrev pub ◌>>◌ {ℓ} : {B : Type ℓ} → P (Unit {0}) → P B → P B
m >> k = m >>= λ _. k
