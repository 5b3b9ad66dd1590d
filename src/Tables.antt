-- ===== src/Tables.antt =====
-- The tables of src/store: their records, their keys, and what `StoreTable` relies on in them.
pub mod Mail
pub mod Records
pub mod Unique
pub mod UniqueLaws
pub mod Indexes
pub mod IndexLaws
pub mod LongerAddress
