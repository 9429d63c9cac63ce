-- ===== src/Libcommon.antt =====
-- What libgenders relies on of the list, hash and hostlist libraries under src/libcommon, which
-- are copies of other projects' code. A hash is known by its items in the order in which
-- `hash_for_each` visits them, a hostlist by its hosts in the order in which an iterator visits
-- them. The slot order, the syntax of host ranges and the sort order are parameters.
mod Contents
mod Laws
pub use Contents.*
pub use Laws.*
