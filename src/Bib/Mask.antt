-- ===== src/Bib/Mask.antt =====
-- `find_available_mask` of mod/common/db/bib/db.c: what it finds is free, and what it skips is not.
pub mod Order
pub mod Steps
pub mod Search
pub mod Sorted
pub mod Added
