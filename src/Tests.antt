-- ===== src/Tests.antt =====
-- The theorems on concrete inputs: an instance of the parameters and a small database in Setup,
-- and the examples by the part of the program that they are about.
pub mod Hostlists
pub mod Setup
pub mod Queries
pub mod Grammar
pub mod Commands
pub mod Databases
pub mod Lookups
pub mod Values
pub mod Reports
pub mod Stale
pub mod Lengths
pub mod Bindings
pub mod Agent
