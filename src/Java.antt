-- ===== src/Java.antt =====
-- src/extensions/java/src/Gendersjni.c: the native methods of the Java class over the library. The
-- overloads of a method are one function of arguments that may be left out: `none` is also what a
-- null of the caller is.
pub mod Object
pub mod Answers
pub mod Signals
use genders.Base.{
  ℕ, ℤ, pos, negsuc, Bool, true, false, ◌+◌, ◌⊎◌, Option, none, some, List, Str, if◌then◌else◌,
}
use genders.Libcommon.{Libcommon}
use genders.Handle.{Handle, M, err_internal}
use genders.Handle.Checks.{genders_errnum}
use genders.Array.{Array, nodelist_create, nodelist_destroy, attrlist_create, attrlist_destroy}
use genders.Parse.File.{File}
use genders.Lookup.{getnodename, isnode, isattr, testattr, testattrval, isattrval, text}
use genders.Nodes.{getnodes}
use genders.Attrs.{getattr, getattr_all}
use genders.Query.{Tree, query, testquery}
use genders.Load.{
  load_data, handle_create, handle_destroy, getnumnodes, getnumattrs, getmaxattrs, getmaxnodelen,
  getmaxvallen,
}
use genders.Java.Object.{
  Jni, Genders, R, pure, ◌>>=◌, ◌>>◌, machine_failed, throw_exception, get_handle, call, utf,
  or_failed, new_array, with_list,
}

module _ (J : Jni) where
  open J use {JString, get_field_id, new_string}

  -- `_constructor` behind `genders_load_data`.
  abbrev pub constructed : Option (Unit {0}) × Handle → R (Unit {0})
  constructed (none, h) obj = (none, throw_exception J (genders_errnum (some h)) obj)
  constructed (some _, h) obj =
      if get_field_id then (some tt, record obj { gh_addr = some h }) else machine_failed obj

  -- `_constructor`, for the file that the name stands for and the name of the host.
  unfoldable pub constructor_of : Libcommon → Option File → Option Str → R (Unit {0})
  constructor_of L file hostname = constructed (load_data L file hostname handle_create)

  -- The return value of a native method that is an int.
  abbrev pub status : Option (Unit {0}) × Genders → ℤ × Genders
  status (none, obj) = (negsuc 0, obj)
  status (some _, obj) = (pos 0, obj)

  -- `genders_1constructor`. Without a name the result of `_constructor` is not read.
  unfoldable pub genders_constructor :
      Libcommon → (Option Str → Option File) → Option Str → Option JString → Genders → ℤ × Genders
  genders_constructor L files hostname none obj =
      (negsuc 0, (constructor_of L (files none) hostname obj).1)
  genders_constructor L files hostname (some filename) obj =
      status (
        (do filenameutf ← utf J (some filename); constructor_of L (files filenameutf) hostname) obj)

  abbrev pub counted : M ℕ → R ℤ
  counted m = do get_handle J; n ← call J m; pure (pos n)

  -- `getnumnodes`, `getnumattrs` and `getmaxattrs`, which return -1 behind an exception.
  unfoldable pub java_getnumnodes : R ℤ
  java_getnumnodes = counted getnumnodes

  unfoldable pub java_getnumattrs : R ℤ
  java_getnumattrs = counted getnumattrs

  unfoldable pub java_getmaxattrs : R ℤ
  java_getmaxattrs = counted getmaxattrs

  -- `getnodename`
  unfoldable pub java_getnodename : R JString
  java_getnodename = do
    get_handle J
    maxnodenamelen ← call J getmaxnodelen
    name ← call J (getnodename true (pos (maxnodenamelen + 1)))
    or_failed J (new_string name)

  -- `getnodes`, in its three overloads, and `_getnodes`
  unfoldable pub java_getnodes : Option JString → Option JString → R (List JString)
  java_getnodes attr val = do
    attrutf ← utf J attr
    valutf ← utf J val
    get_handle J
    with_list J (nodelist_create true) nodelist_destroy
        λ nodelist len. getnodes nodelist len attrutf valutf

  abbrev pub names_found : Option (ℕ × Array × Option Array) × Handle → Option (ℕ × Array) × Handle
  names_found (none, h) = (none, h)
  names_found (some (n, names, vals), h) = (some (n, names), h)

  -- `getattr`, in its two overloads, and `_getattr`
  unfoldable pub java_getattr : Option JString → R (List JString)
  java_getattr node = do
    nodeutf ← utf J node
    get_handle J
    with_list J (attrlist_create true) attrlist_destroy
        λ attrlist len h. names_found (getattr attrlist none len nodeutf h)

  -- `getattr_1all`
  unfoldable pub java_getattr_all : R (List JString)
  java_getattr_all = do
    get_handle J
    with_list J (attrlist_create true) attrlist_destroy getattr_all

  -- `getattrval`, in its two overloads, and `_getattrval`. The result is null where the node does
  -- not have the attribute.
  unfoldable pub java_getattrval : Option JString → Option JString → R (Option JString)
  java_getattrval node attr = do
    nodeutf ← utf J node
    attrutf ← utf J attr
    get_handle J
    maxvallen ← call J getmaxvallen
    found ← call J (testattr nodeutf attrutf true (pos (maxvallen + 1)))
    (if found.0
        then (do jval ← or_failed J (new_string (text found.1)); pure (some jval))
        else pure none)

  -- `testattr`, in its two overloads, and `_testattr`
  unfoldable pub java_testattr : Option JString → Option JString → R Bool
  java_testattr node attr = do
    nodeutf ← utf J node
    attrutf ← utf J attr
    get_handle J
    found ← call J (testattr nodeutf attrutf false (pos 0))
    pure found.0

  -- `testattrval`, in its two overloads, and `_testattrval`
  unfoldable pub java_testattrval : Option JString → Option JString → Option JString → R Bool
  java_testattrval node attr val = do
    nodeutf ← utf J node
    attrutf ← utf J attr
    valutf ← utf J val
    get_handle J
    call J (testattrval nodeutf attrutf valutf)

  -- `isnode`
  unfoldable pub java_isnode : Option JString → R Bool
  java_isnode node = do get_handle J; nodeutf ← utf J node; call J (isnode nodeutf)

  -- `isattr`
  unfoldable pub java_isattr : Option JString → R Bool
  java_isattr attr = do get_handle J; attrutf ← utf J attr; call J (isattr attrutf)

  -- `isattrval`
  unfoldable pub java_isattrval : Option JString → Option JString → R Bool
  java_isattrval attr val = do
    get_handle J
    attrutf ← utf J attr
    valutf ← utf J val
    call J (isattrval attrutf valutf)

  module _ (L : Libcommon) (parse_query : Str → ℤ ⊎ Tree) where
    -- `query`
    unfoldable pub java_query : Option JString → R (List JString)
    java_query q = do
      get_handle J
      queryutf ← utf J q
      with_list J (nodelist_create true) nodelist_destroy
          λ nodelist len. query L parse_query nodelist len queryutf

    -- `testquery`, in its two overloads, and `_testquery`
    unfoldable pub java_testquery : Option JString → Option JString → R Bool
    java_testquery node q = do
      nodeutf ← utf J node
      queryutf ← utf J q
      get_handle J
      call J (testquery L parse_query nodeutf queryutf)

  -- `cleanup`: the handle is freed, and the field is 0.
  unfoldable pub java_cleanup : R (Unit {0})
  java_cleanup = do
    get_handle J
    λ obj. if get_field_id then (some tt, record obj { gh_addr = none }) else machine_failed obj
