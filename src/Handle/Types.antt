-- ===== src/Handle/Types.antt =====
-- The structures and constants of genders_api.h, genders_constants.h and genders.h. Counters and
-- lengths that the code only raises are naturals; the error code is an int.
use genders.Base.{ℕ, Bool, Option, List, ℤ, pos, Str, codes}
use genders.Libcommon.{Hash, Hostlist}

abbrev pub magic_num : ℕ
magic_num = 0xdeadbeef

abbrev pub maxhostnamelen : ℕ
maxhostnamelen = 64

abbrev pub buflen : ℕ
buflen = 65536

abbrev pub attr_index_init_size : ℕ
attr_index_init_size = 512

abbrev pub novalue : Str
novalue = codes "  NOVAL  "

abbrev pub err_success : ℤ
err_success = pos 0

abbrev pub err_nullhandle : ℤ
err_nullhandle = pos 1

abbrev pub err_open : ℤ
err_open = pos 2

abbrev pub err_read : ℤ
err_read = pos 3

abbrev pub err_parse : ℤ
err_parse = pos 4

abbrev pub err_notloaded : ℤ
err_notloaded = pos 5

abbrev pub err_isloaded : ℤ
err_isloaded = pos 6

abbrev pub err_overflow : ℤ
err_overflow = pos 7

abbrev pub err_parameters : ℤ
err_parameters = pos 8

abbrev pub err_nullptr : ℤ
err_nullptr = pos 9

abbrev pub err_notfound : ℤ
err_notfound = pos 10

abbrev pub err_outmem : ℤ
err_outmem = pos 11

abbrev pub err_syntax : ℤ
err_syntax = pos 12

abbrev pub err_magic : ℤ
err_magic = pos 13

abbrev pub err_internal : ℤ
err_internal = pos 14

abbrev pub err_errnumrange : ℤ
err_errnumrange = pos 15

abbrev pub flag_default : ℕ
flag_default = 0

abbrev pub flag_raw_values : ℕ
flag_raw_values = 1

-- `struct genders_attrval`
pub record Attrval : Type 0 where
  pub attr : Str
  pub val : Option Str
  pub val_contains_subst : Bool

-- `struct genders_hosts`
pub record Hosts : Type 0 where
  pub hl : Hostlist
  pub attrval_index : Hash Attrval
  pub attrval_index_size : ℕ

-- `struct genders`
pub record Handle : Type 0 where
  pub magic : ℕ
  pub errnum : ℤ
  pub is_loaded : ℕ
  pub flags : ℕ
  pub numnodes : ℕ
  pub numattrs : ℕ
  pub maxnodelen : ℕ
  pub maxattrlen : ℕ
  pub maxvallen : ℕ
  pub nodename : Str
  pub genders_hosts : List Hosts
  pub hostnames : Hostlist
  pub attrs : Hash Str
  pub attrs_size : ℕ
  pub valbuf : Option Str
  pub attrval_index : Option (Hash Hostlist)
  pub attrval_index_attr : Option Str
  pub attrval_buflist : Option (List Str)
