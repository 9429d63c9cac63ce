-- ===== src/Nodeattr.antt =====
-- src/nodeattr/nodeattr.c: the program nodeattr.
pub mod Process
pub mod Calls
pub mod Queries
pub mod Values
pub mod Compare
pub mod Reports
pub mod Diff
pub mod Hosts
pub mod Expand
pub mod Compress
pub mod Options
pub mod Main
