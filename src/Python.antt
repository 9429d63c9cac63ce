-- ===== src/Python.antt =====
-- src/extensions/python/libgendersmodule.c: the methods of the Python class over the library. A
-- method takes what `PyArg_ParseTuple` has read, `none` where it has refused the arguments.
pub mod Object
pub mod Lists
pub mod Answers
use genders.Base.{ℤ, pos, true, false, Option, none, some, Str, if◌then◌else◌, ◌+◌, ◌⊎◌}
use genders.Libcommon.{Libcommon}
use genders.Handle.{M}
use genders.Handle.Checks.{genders_errnum}
use genders.Parse.File.{File}
use genders.Lookup.{getnodename, isnode, isattr, testattr, testattrval, isattrval, text}
use genders.Index.{index_attrvals}
use genders.Query.{Tree, testquery}
use genders.Load.{
  load_data, handle_create, handle_destroy, genders_strerror, genders_errormsg, getnumnodes,
  getnumattrs, getmaxnodelen, getmaxvallen,
}
use genders.Python.Object.{Python, Libgenders, Method, raise, build, call, no_text, whether}

-- `Libgenders_new`, where the memory is had.
unfoldable pub libgenders_new : Libgenders
unfolding handle_create
libgenders_new = record { gh = handle_create; raised = false }

module _ (P : Python) where
  open P use {int_value, text_value}

  -- A method whose arguments were refused has raised what `PyArg_ParseTuple` raises.
  abbrev pub parsed : {A : Type 0} → Option A → (A → Method P) → Method P
  parsed none f self = (none, raise self)
  parsed (some a) f self = f a self

  -- `Libgenders_dealloc`: what is left of the handle.
  unfoldable pub libgenders_dealloc : Libgenders → Libgenders
  libgenders_dealloc self = record self { gh = (handle_destroy self.gh).1 }

  -- `Libgenders_errnum`
  unfoldable pub libgenders_errnum : Method P
  libgenders_errnum self = build P (int_value (genders_errnum (some self.gh))) self

  -- `Libgenders_strerror`
  unfoldable pub libgenders_strerror : Option ℤ → Method P
  libgenders_strerror args = parsed args λ errnum. build P (text_value (genders_strerror errnum))

  -- `Libgenders_errormsg`
  unfoldable pub libgenders_errormsg : Method P
  libgenders_errormsg self = build P (text_value (genders_errormsg (some self.gh))) self

  -- `Libgenders_getnumnodes` and `Libgenders_getnumattrs`
  unfoldable pub libgenders_getnumnodes : Method P
  libgenders_getnumnodes = call P getnumnodes λ n. build P (int_value (pos n))

  unfoldable pub libgenders_getnumattrs : Method P
  libgenders_getnumattrs = call P getnumattrs λ n. build P (int_value (pos n))

  -- `Libgenders_getnodename`
  unfoldable pub libgenders_getnodename : Method P
  libgenders_getnodename = call P getmaxnodelen λ maxnodelen.
      call P (getnodename true (pos (maxnodelen + 1))) λ name. build P (text_value (some name))

  -- `Libgenders_getattrval`. The buffer starts out as the empty text.
  unfoldable pub libgenders_getattrval : Option (Str × Option Str) → Method P
  libgenders_getattrval args = parsed args λ (attr, node). call P getmaxvallen λ maxvallen.
      call P (testattr node (some attr) true (pos (maxvallen + 1)))
        λ found. build P (text_value (if found.0 then no_text (text found.1) else none))

  -- `Libgenders_testattr`
  unfoldable pub libgenders_testattr : Option (Str × Option Str) → Method P
  libgenders_testattr args = parsed args λ (attr, node).
      call P (testattr node (some attr) false (pos 0))
        λ found. build P (int_value (whether found.0))

  -- `Libgenders_testattrval`
  unfoldable pub libgenders_testattrval : Option (Str × Str × Option Str) → Method P
  libgenders_testattrval args = parsed args λ (attr, val, node).
      call P (testattrval node (some attr) (some val)) λ ret. build P (int_value (whether ret))

  -- `Libgenders_isnode`
  unfoldable pub libgenders_isnode : Option (Option Str) → Method P
  libgenders_isnode args =
      parsed args λ node. call P (isnode node) λ ret. build P (int_value (whether ret))

  -- `Libgenders_isattr`
  unfoldable pub libgenders_isattr : Option Str → Method P
  libgenders_isattr args =
      parsed args λ attr. call P (isattr (some attr)) λ ret. build P (int_value (whether ret))

  -- `Libgenders_isattrval`
  unfoldable pub libgenders_isattrval : Option (Str × Str) → Method P
  libgenders_isattrval args = parsed args λ (attr, val).
      call P (isattrval (some attr) (some val)) λ ret. build P (int_value (whether ret))

  module _ (L : Libcommon) where
    -- `Libgenders_load_data`, for the file that the name stands for and the name of the host.
    unfoldable pub libgenders_load_data : Option (Option File) → Option Str → Method P
    libgenders_load_data args hostname =
        parsed args λ file. call P (load_data L file hostname) λ _. build P (int_value (pos 0))

    -- `Libgenders_index_attrvals`
    unfoldable pub libgenders_index_attrvals : Option Str → Method P
    libgenders_index_attrvals args =
        parsed args λ attr. call P (index_attrvals L (some attr)) λ _. build P (int_value (pos 0))

    -- `Libgenders_testquery`
    unfoldable pub libgenders_testquery : (Str → ℤ ⊎ Tree) → Option (Str × Option Str) → Method P
    libgenders_testquery parse_query args = parsed args λ (query, node).
        call P (testquery L parse_query node (some query)) λ ret. build P (int_value (whether ret))
