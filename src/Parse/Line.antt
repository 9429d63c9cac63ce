-- ===== src/Parse/Line.antt =====
-- `_parse_line`, in a build without WITH_NON_SHORTENED_HOSTNAMES.
use genders.Base.{
  ℕ, ◌+◌, ◌-◌, not, ◌||◌, Option, none, some, [], ◌∷◌, ◌++◌, ◌==◌, ltb, if◌then◌else◌, length, any,
  Str,
}
use genders.Libcommon.{Libcommon, Hostlist}
use genders.Handle.{attr_index_init_size, maxhostnamelen}
use genders.Parse.State.{
  Parser, P, pure, modify, parse_error, ◌>>=◌, ◌>>◌, white_space, not_shortened, bad_nodenames,
  hostname_too_long,
}
use genders.Parse.Text.{strip_comment, strip_trailing, skip_space, strsep, attr_tokens}
use genders.Parse.Duplicates.{duplicate_attr_checks}
use genders.Parse.Attributes.{LineAttrs, genders_max, parse_attrs}

-- The loop over the nodes of a line; the result is `line_maxnodelen`.
unfoldable pub check_nodes : Hostlist → ℕ → ℕ → P ℕ
check_nodes [] line_num line_maxnodelen p = pure line_maxnodelen p
check_nodes (node ∷ nodes) line_num line_maxnodelen p =
    let next = check_nodes nodes line_num in
    if ltb maxhostnamelen (length node)
    then parse_error line_num hostname_too_long p
    else if line_num == 0
    then next (genders_max (length node) line_maxnodelen)
        (record p { maxnodelen = genders_max (length node) p.maxnodelen })
    else next line_maxnodelen p

-- `if (!line_num && max_n_subst_vallen) ...`
unfoldable pub count_subst : ℕ → ℕ → ℕ → Parser → Parser
count_subst line_num max_n_subst_vallen line_maxnodelen p =
    if not (line_num == 0) || max_n_subst_vallen == 0
    then p
    else record p { maxvallen = genders_max (max_n_subst_vallen - 2 + line_maxnodelen) p.maxvallen }

abbrev pub no_attrs : LineAttrs
no_attrs = record {
  attrval_index = [];
  attrval_index_size = attr_index_init_size;
  max_n_subst_vallen = 0;
}

module _ (L : Libcommon) where
  open L use {hosts_of}

  -- The part of a line behind its node names; `none` where `strsep` set `line` to NULL.
  unfoldable pub parse_rest : Option Str → ℕ → P LineAttrs
  parse_rest none line_num = pure no_attrs
  parse_rest (some rest) line_num =
      let line = skip_space rest in
      if length line == 0
      then pure no_attrs
      else if any (λ c. c == b' ') line || any (λ c. c == b'\t') line
      then parse_error line_num white_space
      else parse_attrs L (attr_tokens line) line_num no_attrs

  -- The hosts of a line and their attributes become part of the database.
  unfoldable pub add_hosts : Hostlist → ℕ → LineAttrs → P (Unit {0})
  add_hosts hl line_num line = do
    λ p. duplicate_attr_checks p.genders_hosts hl line.attrval_index line_num p
    line_maxnodelen ← check_nodes hl line_num 0
    modify (count_subst line_num line.max_n_subst_vallen line_maxnodelen)
    modify (λ p. record p {
      hostnames = p.hostnames ++ hl;
      genders_hosts =
          p.genders_hosts
          ++ (record {
            hl = hl;
            attrval_index = line.attrval_index;
            attrval_index_size = line.attrval_index_size;
          })
            ∷ [];
    })

  -- On what `hostlist_push` reads in the node names.
  unfoldable pub add_read : Option Hostlist → ℕ → LineAttrs → P (Unit {0})
  add_read none line_num line = parse_error line_num bad_nodenames
  add_read (some hl) line_num line = add_hosts hl line_num line

  -- `_parse_line` from the node names on.
  unfoldable pub parse_fields : Str → Option Str → ℕ → P (Unit {0})
  parse_fields nodenames rest line_num = do
    line ← parse_rest rest line_num
    (if any (λ c. c == b'.') nodenames
        then parse_error line_num not_shortened
        else add_read (hosts_of nodenames) line_num line)

  -- `_parse_line`
  unfoldable pub parse_line : Str → ℕ → P (Unit {0})
  parse_line line line_num =
      let kept = strip_trailing (strip_comment line) in
      let (nodenames, rest) = strsep (skip_space kept) (b' ' ∷ b'\t' ∷ []) in
      if length kept == 0 then pure tt else parse_fields nodenames rest line_num
