-- ===== src/Query/Token.antt =====
-- src/libgenders/genders_query_parse.l: the tokens of a query and the rules that find them. The
-- longest match is taken, as the scanner that flex generates does.
use genders.Base.{
  ℕ, zero, suc, Bool, false, ◌&&◌, ◌||◌, Option, none, some, List, [], ◌∷◌, ◌==◌, leb, length,
  if◌then◌else◌, Str,
}

-- The tokens that the rules return.
pub data Token : Type 0 where
  attrtok : Str → Token
  lparentok : Token
  rparentok : Token
  uniontok : Token
  intersectiontok : Token
  differencetok : Token
  complementtok : Token

-- `[a-zA-Z0-9]`
unfoldable pub is_alnum : ℕ → Bool
is_alnum c = (leb b'a' c && leb c b'z') || (leb b'A' c && leb c b'Z') || (leb b'0' c && leb c b'9')

-- `[a-zA-Z0-9_\.\=:%\\\/\+]`
unfoldable pub is_word : ℕ → Bool
unfolding is_alnum
is_word c =
    is_alnum c
    || c == b'_'
    || c == b'.'
    || c == b'='
    || c == b':'
    || c == b'%'
    || c == 92
    || c == b'/'
    || c == b'+'

-- `[\-\|&]`
unfoldable pub is_joint : ℕ → Bool
is_joint c = c == b'-' || c == b'|' || c == b'&'

unfoldable pub begins_word : Str → Bool
begins_word [] = false
begins_word (c ∷ s) = is_word c

-- What follows the first character of an attribute, and what is left: word characters, and joints
-- that a word character follows.
unfoldable pub attr_rest : Str → Str × Str
unfolding is_word is_joint begins_word
attr_rest [] = ([], [])
attr_rest (c ∷ s) =
    let rest = attr_rest s in
    if is_word c || is_joint c && begins_word s then (c ∷ rest.0, rest.1) else ([], c ∷ s)

-- The rules of two characters. A character that no rule matches is echoed to `yyout`, which is
-- /dev/null, and a blank is ignored.
unfoldable pub scan_pair : ℕ → Str → Option Token × Str
scan_pair c [] = (none, [])
scan_pair c (d ∷ s) =
    if c == b'|' && d == b'|'
    then (some uniontok, s)
    else if c == b'&' && d == b'&'
    then (some intersectiontok, s)
    else if c == b'-' && d == b'-'
    then (some differencetok, s)
    else (none, d ∷ s)

-- The rule that matches at the head of a text: the token it returns, if it returns one, and the
-- text behind the match.
unfoldable pub scan_rule : ℕ → Str → Option Token × Str
unfolding is_alnum attr_rest scan_pair
scan_rule c s =
    if is_alnum c
    then (let rest = attr_rest s in (some (attrtok (c ∷ rest.0)), rest.1))
    else if c == b'('
    then (some lparentok, s)
    else if c == b')'
    then (some rparentok, s)
    else if c == b'~'
    then (some complementtok, s)
    else scan_pair c s

unfoldable pub put_token : Option Token → Option (List Token) → Option (List Token)
put_token t none = none
put_token none (some ts) = some ts
put_token (some t) (some ts) = some (t ∷ ts)

-- The calls of `yylex` up to the end of the input, on fuel; `none` where the fuel runs out.
unfoldable pub lex : ℕ → Str → Option (List Token)
unfolding scan_rule
lex fuel [] = some []
lex zero (c ∷ s) = none
lex (suc fuel) (c ∷ s) = let found = scan_rule c s in put_token found.0 (lex fuel found.1)

-- One unit of fuel for each character.
unfoldable pub tokens_of : Str → Option (List Token)
tokens_of s = lex (length s) s
