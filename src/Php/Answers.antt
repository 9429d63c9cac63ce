-- ===== src/Php/Answers.antt =====
-- What the PHP module answers for a file that is refused.
use genders.Base.{
  pos, negsuc, ◌<◌, true, false, Option, none, some, Str, ◌≡◌, refl, arith, is_some, if◌then◌else◌,
  ltb,
}
use genders.Libcommon.{Libcommon, HashLaws}
use genders.Handle.{Handle}
use genders.Handle.Checks.{loaded_check-IsLoaded, loaded_handle_error_check}
use genders.Parse.File.{File}
use genders.Load.{load_data, handle_create, getnumattrs}
use genders.Load.Correct.{Loads, handle_create-IsEmpty, load_data-Loads}
use genders.Php.{return_long, answered, numattrs_answer, php_getnumattrs}

-- What is counted behind the loading.
numattrs_loaded :
    (q : Option (Unit {0}) × Handle)
    → Loads q
    → q.1.numattrs < 0x8000000000000000
    → numattrs_answer (getnumattrs q.1)
      ≡ answered (return_long (if is_some q.0 then pos q.1.numattrs else negsuc 0))
unfolding getnumattrs loaded_handle_error_check
numattrs_loaded (none, h) e small = rw (e.has_magic, e.not_loaded) refl
numattrs_loaded (some _, h) d small =
    let fits : ltb h.numattrs 0x8000000000000000 ≡ true = ground arith in
    let natural : ltb h.numattrs 0 ≡ false = ground arith in
    rw (loaded_check-IsLoaded h d.is_loaded, natural, fits) refl

module _ (L : Libcommon) (laws : HashLaws L) (files : Str → Option File)
    (hostname : Option Str) where
  -- `genders_getnumattrs` of the PHP module, where the count fits a long: the number of attributes
  -- where the file is loaded, and -1, without a warning, where it is not.
  pub php_getnumattrs-unloaded :
      (file : Str)
      → (let q = load_data L (files file) hostname handle_create in
          q.1.numattrs < 0x8000000000000000
          → php_getnumattrs L files hostname (some file)
            ≡ answered (return_long (if is_some q.0 then pos q.1.numattrs else negsuc 0)))
  unfolding php_getnumattrs
  php_getnumattrs-unloaded file small =
      numattrs_loaded (load_data L (files file) hostname handle_create)
        (load_data-Loads L laws (files file) hostname handle_create handle_create-IsEmpty).0 small
