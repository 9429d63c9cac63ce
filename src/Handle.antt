-- ===== src/Handle.antt =====
-- src/libgenders/genders_api.h, genders_constants.h and genders.h: the handle, its tables, the
-- error codes and the error checks that every entry point begins with.
mod Types
mod Monad
pub mod Checks
pub use Types.*
pub use Monad.*
