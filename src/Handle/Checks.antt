-- ===== src/Handle/Checks.antt =====
-- src/libgenders/genders_util.c: the handle checks. The test for a NULL handle is `on_handle`.
use genders.Base.{◌≡◌, ◌≢◌, arith, ℤ, ◌==◌, Option, none, some, if◌then◌else◌}
use genders.Handle.Types.{Handle, magic_num, err_nullhandle, err_magic, err_isloaded, err_notloaded}
use genders.Handle.Monad.{M, fail, pure, fail_with, ◌>>◌}

-- `_genders_handle_error_check`
unfoldable pub handle_error_check : M (Unit {0})
handle_error_check h = (if h.magic == magic_num then pure tt else fail) h

-- `_genders_unloaded_handle_error_check`
unfoldable pub unloaded_handle_error_check : M (Unit {0})
unfolding handle_error_check
unloaded_handle_error_check = do
  handle_error_check
  λ h. (if h.is_loaded == 0 then pure tt else fail_with err_isloaded) h

-- `_genders_loaded_handle_error_check`
unfoldable pub loaded_handle_error_check : M (Unit {0})
unfolding handle_error_check
loaded_handle_error_check = do
  handle_error_check
  λ h. (if h.is_loaded == 0 then fail_with err_notloaded else pure tt) h

-- `genders_errnum`
unfoldable pub genders_errnum : Option Handle → ℤ
genders_errnum none = err_nullhandle
genders_errnum (some h) = if h.magic == magic_num then h.errnum else err_magic

-- A handle that `genders_load_data` has filled.
pub record IsLoaded (h : Handle) : Type 0 where
  pub has_magic : h.magic ≡ magic_num
  pub loaded : h.is_loaded ≢ 0

-- Such a handle passes the check and is left as it is.
pub loaded_check-IsLoaded : (h : Handle) → IsLoaded h → loaded_handle_error_check h ≡ (some tt, h)
unfolding loaded_handle_error_check
loaded_check-IsLoaded h l = ground arith

-- The check of `genders_load_data` refuses it and passes a handle that is not loaded.
pub unloaded_check-refuses :
    (h : Handle)
    → IsLoaded h
    → unloaded_handle_error_check h ≡ (none, record h { errnum = err_isloaded })
unfolding unloaded_handle_error_check
unloaded_check-refuses h l = ground arith

pub unloaded_check-passes :
    (h : Handle)
    → h.magic ≡ magic_num
    → h.is_loaded ≡ 0
    → unloaded_handle_error_check h ≡ (some tt, h)
unfolding unloaded_handle_error_check
unloaded_check-passes h m e = ground arith
