-- ===== src/SmallTable.antt =====
-- The module smalltable of src/utils/table.rs: maps and sets that hold up to N entries in a flat
-- array, and an IndexMap or IndexSet from then on. Keys are numbers: the code uses no more of them
-- than their equality.
pub mod Vec
mod Remove
mod Update
mod Laws
mod Entries
mod Modify
mod Collect
mod Examples
pub mod Index
pub mod Map
pub mod Set
pub mod Values
mod SetOps
pub mod Instance
