-- ===== src/Rfc7915.antt =====
-- The translation of packets (mod/common/rfc7915): headers, ICMP messages, fragments, checksums.
pub mod FragField
pub mod Fragment
pub mod SrcRoute
pub mod Extension
pub mod Icmp
pub mod Mtu
pub mod Checksum
