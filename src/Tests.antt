-- ===== src/Tests.antt =====
-- Tests: the functions at concrete inputs, and the theorems applied at some of them.
mod Fixtures
mod Addresses
mod Machine
mod Wreck
mod Pool4
mod Translation
mod Mapping
mod Joold
mod Packets
mod Ranges
