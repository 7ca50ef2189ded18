-- ===== src/Tests.antt =====
-- The theorems at concrete inputs, one file for each part.
pub mod Passes
pub mod Records
pub mod Saved
pub mod Travels
pub mod Admission
pub mod Shelf
pub mod Renames
pub mod Finds
pub mod Editions
pub mod Runners
