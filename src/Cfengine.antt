-- ===== src/Cfengine.antt =====
-- src/contrib/cfengine/genders.c: the classes that the agent module of cfengine registers for the
-- attributes of a host. The file, whether it is there, the name of the machine and the two
-- variables of the environment are arguments.
pub mod Texts
pub mod Classes
use genders.Base.{
  ℕ, ℤ, pos, negsuc, Bool, true, false, Option, none, some, List, [], ◌∷◌, ◌++◌, Str, codes, take,
  if◌then◌else◌,
}
use genders.Libcommon.{Libcommon}
use genders.Handle.{Handle}
use genders.Array.{Array, attrlist_create, vallist_create}
use genders.Array.Writes.{stored}
use genders.Parse.File.{File}
use genders.Attrs.{getattr}
use genders.Load.{load_data, handle_create, getmaxattrs, genders_errormsg}

-- What a run returns, the classes that it has registered, in order, and what it writes to stderr.
pub record Run : Type 0 where
  pub rc : ℤ
  pub classes : List Str
  pub stderr : Str

-- `snprintf` into the buffer, which leaves the last byte but one to the NUL.
unfoldable pub valued_class : Str → Str → Str
valued_class attr val = take 8190 (attr ++ codes "_is_" ++ val)

-- The loop over the attributes.
unfoldable pub hard_classes : List Str → List Str → List Str
hard_classes [] vals = []
hard_classes (attr ∷ attrs) [] = []
hard_classes (attr ∷ attrs) ([] ∷ vals) = attr ∷ hard_classes attrs vals
hard_classes (attr ∷ attrs) ((c ∷ val) ∷ vals) =
    attr ∷ valued_class attr (c ∷ val) ∷ hard_classes attrs vals

abbrev or_no_text : Option Str → Str
or_no_text none = []
or_no_text (some s) = s

-- `fprintf (stderr, ...)` on the way to -1.
abbrev pub failed_run : Str → Handle → Run
failed_run message h = record {
  rc = negsuc 0;
  classes = [];
  stderr = message ++ or_no_text (genders_errormsg (some h)) ++ codes "\n";
}

abbrev pub cells_or_none : Option Array → Array
cells_or_none none = []
cells_or_none (some list) = list

-- From `genders_getattr` on, with its result.
abbrev pub registered : Option (ℕ × Array × Option Array) × Handle → Run
registered (none, h) = failed_run (codes "genders: Failed to get all node attributes: ") h
registered (some (nattrs, attrs, vals), h) = record {
  rc = pos 0;
  classes = hard_classes (stored nattrs attrs) (stored nattrs (cells_or_none vals));
  stderr = [];
}

-- The length that `genders_getmaxattrs` gives, -1 where it fails.
abbrev pub maxattrs_of : Option ℕ → ℤ
maxattrs_of none = negsuc 0
maxattrs_of (some n) = pos n

-- The steps before it, each with the result of its call.
abbrev pub counted_attrs : Option Str → Option Array → Option Array → Option ℕ × Handle → Run
counted_attrs host attrs vals (maxattrs, h) =
    registered (getattr attrs vals (maxattrs_of maxattrs) host h)

abbrev pub with_vals : Option Str → Option Array → Option (Option Array × ℕ) × Handle → Run
with_vals host attrs (none, h) = failed_run (codes "genders: Failed to malloc vallist: ") h
with_vals host attrs (some (vals, len), h) = counted_attrs host attrs vals (getmaxattrs h)

abbrev pub with_attrs : Option Str → Option (Option Array × ℕ) × Handle → Run
with_attrs host (none, h) = failed_run (codes "genders: Failed to malloc attrlist: ") h
with_attrs host (some (attrs, len), h) = with_vals host attrs (vallist_create true h)

abbrev pub with_database : Option Str → Option (Unit {0}) × Handle → Run
with_database host (none, h) = failed_run (codes "genders: Failed to read genders file: ") h
with_database host (some _, h) = with_attrs host (attrlist_create true h)

-- `cfagent_module_getclasses`
unfoldable pub cfagent_module_getclasses :
    Libcommon → Bool → Option File → Option Str → Option Str → Run
cfagent_module_getclasses L file_exists file hostname host =
    if file_exists
    then with_database host (load_data L file hostname handle_create)
    else record { rc = pos 0; classes = []; stderr = [] }
