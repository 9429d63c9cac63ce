-- ===== src/Php.antt =====
-- src/contrib/php/genders.c: the functions of the PHP module. The file that a name stands for and
-- the name of the host are arguments.
pub mod Answers
use genders.Base.{
  ℕ, ℤ, pos, negsuc, ◌-◌, Bool, true, false, Option, none, some, List, [], Str, ltb, if◌then◌else◌,
  ◌==◌, ◌&&◌, pos_part, neg_part,
}
use genders.Libcommon.{Libcommon}
use genders.Handle.{Handle, M, proceed, err_notfound}
use genders.Handle.Checks.{genders_errnum}
use genders.Array.{Array, nodelist_create, attrlist_create, vallist_create}
use genders.Array.Writes.{stored}
use genders.Parse.File.{File}
use genders.Nodes.{getnodes}
use genders.Attrs.{getattr, getattr_all}
use genders.Load.{load_data, handle_create, getnumattrs, genders_strerror}

-- What a function returns.
pub data Value : Type 0 where
  return_false : Value
  return_long : ℤ → Value
  return_array : List Str → Value
  wrong_param_count : Value

-- The value, and the text of the warning if there is one.
pub record Answer : Type 0 where
  pub value : Value
  pub warning : Option Str

abbrev pub answered : Value → Answer
answered v = record { value = v; warning = none }

-- `php_error(E_WARNING, ...); RETURN_FALSE;`
abbrev pub warned : Handle → Answer
warned h = record { value = return_false; warning = genders_strerror (genders_errnum (some h)) }

-- The int result of a call, -1 where it fails.
abbrev pub int_result : Option ℕ → ℤ
int_result none = negsuc 0
int_result (some n) = pos n

-- An int as an `unsigned long` of 64 bits, and such a number as a `long`.
abbrev pub unsigned_long : ℤ → ℕ
unsigned_long (pos n) = n
unsigned_long (negsuc n) = 0xffffffffffffffff - n

abbrev pub as_long : ℕ → ℤ
as_long n = if ltb n 0x8000000000000000 then pos n else negsuc (0xffffffffffffffff - n)

-- What `genders_getnumattrs` of the module makes of the result of the call.
abbrev pub numattrs_answer : Option ℕ × Handle → Answer
numattrs_answer (r, h) =
    let retval = unsigned_long (int_result r) in
    if ltb retval 0 then warned h else answered (return_long (as_long retval))

-- A list that could not be made: its length is -1, and its pointer has no value.
abbrev pub created : Option (Option Array × ℕ) × Handle → Option Array × ℤ × Handle
created (none, h) = (none, negsuc 0, h)
created (some (list, len), h) = (list, pos len, h)

-- What follows a call that stores texts.
abbrev pub listed : Option (ℕ × Array) × Handle → Answer
listed (none, h) = warned h
listed (some (num, list), h) = answered (return_array (stored num list))

abbrev pub cells_of : Option Array → Array
cells_of none = []
cells_of (some list) = list

-- The same for `genders_getattr` of the module, which returns one of the two arrays.
abbrev pub attrs_answer : Bool → Option (ℕ × Array × Option Array) × Handle → Answer
attrs_answer ret_type (none, h) =
    let e = genders_errnum (some h) in
    if pos_part e == pos_part err_notfound && neg_part e == 0
    then answered return_false
    else warned h
attrs_answer ret_type (some (num, attrs, vals), h) =
    answered (return_array (stored num (if ret_type then cells_of vals else attrs)))

-- The functions take what `zend_get_parameters` has read, `none` where it has failed. None of them
-- reads the result of `genders_load_data`.
module _ (L : Libcommon) (files : Str → Option File) (hostname : Option Str) where
  abbrev loaded : Str → Handle
  loaded file = (load_data L (files file) hostname handle_create).1

  -- `PHP_FUNCTION(genders_getnumattrs)`
  unfoldable pub php_getnumattrs : Option Str → Answer
  php_getnumattrs none = answered wrong_param_count
  php_getnumattrs (some file) = numattrs_answer (getnumattrs (loaded file))

  -- `PHP_FUNCTION(genders_getattr)`
  unfoldable pub php_getattr : Option (Str × Str × Bool) → Answer
  php_getattr none = answered wrong_param_count
  php_getattr (some (file, node, ret_type)) =
      let (attrlist, len, h) = created (attrlist_create true (loaded file)) in
      let (vallist, vallen, h') = created (vallist_create true h) in
      attrs_answer ret_type (getattr attrlist vallist len (some node) h')

  -- `PHP_FUNCTION(genders_getnodes)`
  unfoldable pub php_getnodes : Option (Str × Str × Str) → Answer
  php_getnodes none = answered wrong_param_count
  php_getnodes (some (file, attr, val)) =
      let (nodelist, len, h) = created (nodelist_create true (loaded file)) in
      listed (getnodes nodelist len (some attr) (some val) h)

  -- `PHP_FUNCTION(genders_getattr_all)`
  unfoldable pub php_getattr_all : Option Str → Answer
  php_getattr_all none = answered wrong_param_count
  php_getattr_all (some file) =
      let (attrlist, len, h) = created (attrlist_create true (loaded file)) in
      listed (getattr_all attrlist len h)
