-- ===== src/Parse/Text.antt =====
-- The text functions of a line.
use genders.Base.{
  ℕ, Bool, ◌||◌, Option, none, some, List, [], ◌∷◌, ◌==◌, if◌then◌else◌, any, Str, strchr,
}

-- `isspace` in the C locale.
unfoldable pub isspace : ℕ → Bool
isspace c = c == b' ' || c == b'\t' || c == b'\n' || c == 11 || c == 12 || c == b'\r'

-- `if ((temp = strchr(line, '#'))) *temp = '\0';`
unfoldable pub strip_comment : Str → Str
strip_comment line = elim (strchr line b'#') [ none ↦ line | some (before, _) ↦ before ]

-- The loop that removes white space at the end.
unfoldable pub strip_trailing : Str → Str
unfolding isspace
strip_trailing [] = []
strip_trailing (c ∷ s) = elim (strip_trailing s) [
  | [] ↦ if isspace c then [] else c ∷ []
  | d ∷ t ↦ c ∷ d ∷ t
]

-- `while(isspace(*line)) line++;`
unfoldable pub skip_space : Str → Str
unfolding isspace
skip_space [] = []
skip_space (c ∷ s) = let rest = skip_space s in if isspace c then rest else c ∷ s

-- `strsep` on a text that is not NULL: the token, and what `*stringp` is set to.
unfoldable pub strsep : Str → Str → Str × Option Str
strsep [] delim = ([], none)
strsep (c ∷ s) delim =
    let (token, rest) = strsep s delim in
    if any (λ d. c == d) delim then ([], some s) else (c ∷ token, rest)

-- The tokens of the calls `strsep(&line, ",")` until one returns NULL.
unfoldable pub attr_tokens : Str → List Str
attr_tokens [] = [] ∷ []
attr_tokens (c ∷ s) =
    let rest = attr_tokens s in
    if c == b','
    then [] ∷ rest
    else elim rest [ [] ↦ (c ∷ []) ∷ [] | token ∷ tokens ↦ (c ∷ token) ∷ tokens ]
