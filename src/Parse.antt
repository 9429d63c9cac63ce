-- ===== src/Parse.antt =====
-- src/libgenders/genders_parsing.c: reading a genders file. Line numbers, messages and the state
-- that a line changes are in State, the text functions in Text, the checks for attributes that a
-- node already has in Duplicates, and a line and the whole file in Line and File.
pub mod State
pub mod Text
pub mod Duplicates
pub mod Attributes
pub mod Line
pub mod File
pub mod Rehash
pub mod Disjoint
pub mod Invariant
pub mod Whole
pub mod TooLong
pub mod Accepts
pub mod Counts
pub mod Lengths
