-- ===== src/Bib.antt =====
-- mod/common/db/bib: the binding information base and the session database of the NAT64.
pub mod Table
pub mod Fate
pub mod Lookup
pub mod Find
pub mod Add
pub mod Tcp
pub mod Static
pub mod Clean
pub mod Count
pub mod Wreck
pub mod Mask
pub mod Mapping
pub mod Limit
