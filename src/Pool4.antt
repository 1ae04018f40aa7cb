-- ===== src/Pool4.antt =====
-- mod/common/db/pool4: the IPv4 transport addresses that mask IPv6 nodes.
pub mod MaskDomain
pub mod Db
pub mod Ranges
pub mod Edit
pub mod Removal
