-- ===== src/Parse/Attributes.antt =====
-- `_genders_rehash`, `_insert_attrval`, `_insert_attr`, and the loop of `_parse_line` over the
-- attributes of a line.
use genders.Base.{
  ℕ, ◌+◌, ◌*◌, Bool, false, not, ◌&&◌, ◌||◌, Option, none, some, List, [], ◌∷◌, ◌==◌, ltb,
  if◌then◌else◌, length, is_some, Str, codes, strchr, strstr,
}
use genders.Libcommon.{Libcommon, Hash, hash_find}
use genders.Handle.{Attrval}
use genders.Parse.State.{
  P, pure, modify, parse_error, ◌>>=◌, ◌>>◌, duplicate_attribute, empty_attribute, no_value,
}

-- `GENDERS_MAX`
abbrev pub genders_max : ℕ → ℕ → ℕ
genders_max x y = if ltb y x then x else y

-- The variables of `_parse_line` that its loop over the attributes changes.
pub record LineAttrs : Type 0 where
  pub attrval_index : Hash Attrval
  pub attrval_index_size : ℕ
  pub max_n_subst_vallen : ℕ

-- `strchr(attr, '=')`: the name, and the value if there is one.
unfoldable pub split_attr : Str → Str × Option Str
split_attr attr = elim (strchr attr b'=') [
  | none ↦ (attr, none)
  | some (name, val) ↦ (name, some val)
]

-- `strstr(av->val, "%n") || strstr(av->val, "%%")`
unfoldable pub contains_subst : Option Str → Bool
contains_subst none = false
contains_subst (some v) = strstr v (codes "%n") || strstr v (codes "%%")

-- The lengths that a loading run keeps.
unfoldable pub count_attr : Str → Option Str → ℕ → LineAttrs → P LineAttrs
count_attr attr val inserted line p =
    let p' = record p {
      numattrs = p.numattrs + inserted;
      maxattrlen = genders_max (length attr) p.maxattrlen;
    } in
    elim val as (λ _. P LineAttrs) [
      | none ↦ pure line
      | some v ↦
          if strstr v (codes "%n") && not (strstr v (codes "%%n"))
          then pure (record line { max_n_subst_vallen = length v })
          else do
            modify (λ q. record q { maxvallen = genders_max (length v) q.maxvallen })
            pure line
    ]
      p'

module _ (L : Libcommon) where
  open L use {place}

  -- `_hash_reinsert` for every item.
  unfoldable pub reinsert : (V : Type 0) → ℕ → Hash V → Hash V → Hash V
  reinsert V size [] new_hash = new_hash
  reinsert V size ((k, v) ∷ h) new_hash = reinsert V size h (place V size k v new_hash)

  -- `_genders_rehash` behind its test: a table with more than two items a slot is doubled.
  unfoldable pub grow : (V : Type 0) → Hash V → ℕ → Hash V × ℕ
  grow V h size =
      if ltb (size * 2) (length h) then (reinsert V (size * 2) h [], size * 2) else (h, size)

  -- `_insert_attrval`
  unfoldable pub insert_attrval : Str → Option Str → ℕ → LineAttrs → P LineAttrs
  insert_attrval attr val line_num line =
      let av : Attrval = record {
        attr = attr;
        val = val;
        val_contains_subst = contains_subst val;
      } in
      let (index, size) = grow Attrval line.attrval_index line.attrval_index_size in
      if is_some (hash_find index attr)
      then parse_error line_num (duplicate_attribute attr)
      else pure (record line {
        attrval_index = place Attrval size attr av index;
        attrval_index_size = size;
      })

  -- `_insert_attr`. The result is the number of attributes inserted.
  unfoldable pub insert_attr : Str → P ℕ
  insert_attr attr p =
      let (attrs, size) = grow Str p.attrs p.attrs_size in
      (if is_some (hash_find p.attrs attr) then pure 0 else do
        modify (λ q. record q { attrs = place Str size attr attr attrs; attrs_size = size })
        pure 1)
        p

  -- An attribute of a line, with its value if it has one.
  unfoldable pub add_attr : Str → Option Str → ℕ → LineAttrs → P LineAttrs
  add_attr attr val line_num line = do
    line' ← insert_attrval attr val line_num line
    inserted ← insert_attr attr
    (if line_num == 0 then count_attr attr val inserted line' else pure line')

  -- An attribute that has a name, and its value.
  unfoldable pub parse_value : Str → Option Str → ℕ → LineAttrs → P LineAttrs
  parse_value attr none line_num line = add_attr attr none line_num line
  parse_value attr (some v) line_num line =
      if length v == 0
      then parse_error line_num (no_value attr)
      else add_attr attr (some v) line_num line

  -- The body of the loop over the attributes.
  unfoldable pub parse_attr : Str → ℕ → LineAttrs → P LineAttrs
  parse_attr token line_num line =
      let (attr, val) = split_attr token in
      if length attr == 0
      then parse_error line_num empty_attribute
      else parse_value attr val line_num line

  unfoldable pub parse_attrs : List Str → ℕ → LineAttrs → P LineAttrs
  parse_attrs [] line_num line = pure line
  parse_attrs (token ∷ tokens) line_num line = do
    line' ← parse_attr token line_num line
    parse_attrs tokens line_num line'
