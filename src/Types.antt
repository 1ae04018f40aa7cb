-- ===== src/Types.antt =====
-- common/types.h, common/session.h, mod/common/types.h and mod/common/address.{h,c}: the data that
-- every part of the translator shares.
--
-- An address is kept as it lies in memory: a 32-bit word is its four bytes, in network order, as in
-- `union ipv4_address` (rfc6052.c), and a `struct in6_addr` is four such words (`s6_addr32`).
use Prim.Native.Nat.{compare, Ordering}
use jool.Prelude.{ℕ, ◌+◌, ◌*◌, ◌≡◌, ◌↔◌, Bool, true, ◌&&◌, ◌==◌, arith}

-- `struct in_addr`, or one element of `s6_addr32`: `as8[0]` to `as8[3]`.
pub record InAddr : Type 0 where
  pub b0 : ℕ
  pub b1 : ℕ
  pub b2 : ℕ
  pub b3 : ℕ

-- `struct in6_addr`: `s6_addr32[0]` to `s6_addr32[3]`.
pub record In6Addr : Type 0 where
  pub w0 : InAddr
  pub w1 : InAddr
  pub w2 : InAddr
  pub w3 : InAddr

pub record Ipv4TransportAddr : Type 0 where
  pub l3 : InAddr
  pub l4 : ℕ

abbrev pub taddr4 : InAddr → ℕ → Ipv4TransportAddr
taddr4 a port = record { l3 = a; l4 = port }

pub record Ipv6TransportAddr : Type 0 where
  pub l3 : In6Addr
  pub l4 : ℕ

pub record Ipv4Prefix : Type 0 where
  pub addr : InAddr
  pub len : ℕ

pub record Ipv6Prefix : Type 0 where
  pub addr : In6Addr
  pub len : ℕ

pub record PortRange : Type 0 where
  pub min : ℕ
  pub max : ℕ

pub record Ipv4Range : Type 0 where
  pub prefix : Ipv4Prefix
  pub ports : PortRange

pub data L3Protocol : Type 0 where
  ipv6 ipv4 : L3Protocol

pub data L4Protocol : Type 0 where
  tcp udp icmp other : L4Protocol

-- `struct tuple`, its union of addresses told apart by the layer-3 protocol.
pub data Tuple : Type 0 where
  tuple6 : Ipv6TransportAddr → Ipv6TransportAddr → L4Protocol → Tuple
  tuple4 : Ipv4TransportAddr → Ipv4TransportAddr → L4Protocol → Tuple

pub data Verdict : Type 0 where
  continue drop untranslatable stolen : Verdict

-- The error codes that the functions return.
pub data Errno : Type 0 where
  einval enoent esrch eexist enomem enospc eperm : Errno

-- A function that returns 0 and writes its result, or returns an error code.
pub data Result {ℓ} (A : Type ℓ) : Type ℓ where
  ok : A → Result A
  err : Errno → Result A

-- `s_addr == s_addr`.
unfoldable pub addr4_equals : InAddr → InAddr → Bool
addr4_equals a b = a.b0 == b.b0 && (a.b1 == b.b1 && (a.b2 == b.b2 && a.b3 == b.b3))

unfoldable pub addr6_equals : In6Addr → In6Addr → Bool
unfolding addr4_equals
addr6_equals a b =
    addr4_equals a.w0 b.w0
    && (addr4_equals a.w1 b.w1 && (addr4_equals a.w2 b.w2 && addr4_equals a.w3 b.w3))

unfoldable pub taddr4_equals : Ipv4TransportAddr → Ipv4TransportAddr → Bool
unfolding addr4_equals
taddr4_equals a b = addr4_equals a.l3 b.l3 && a.l4 == b.l4

unfoldable pub taddr6_equals : Ipv6TransportAddr → Ipv6TransportAddr → Bool
unfolding addr6_equals
taddr6_equals a b = addr6_equals a.l3 b.l3 && a.l4 == b.l4

-- The sign of a comparison whose first part decides unless it is 0.
abbrev pub or_then : Ordering → Ordering → Ordering
or_then Ordering.eq o = o
or_then Ordering.lt o = Ordering.lt
or_then Ordering.gt o = Ordering.gt

-- The sign of `memcmp` over the four bytes.
unfoldable pub ipv4_addr_cmp : InAddr → InAddr → Ordering
ipv4_addr_cmp a b =
    or_then (compare a.b0 b.b0)
      (or_then (compare a.b1 b.b1) (or_then (compare a.b2 b.b2) (compare a.b3 b.b3)))

-- The sign of `taddr4_compare`.
unfoldable pub taddr4_compare : Ipv4TransportAddr → Ipv4TransportAddr → Ordering
unfolding ipv4_addr_cmp
taddr4_compare a b = or_then (ipv4_addr_cmp a.l3 b.l3) (compare a.l4 b.l4)

-- `be32_to_cpu`.
unfoldable pub be32_to_cpu : InAddr → ℕ
be32_to_cpu a = a.b0 * 16777216 + a.b1 * 65536 + a.b2 * 256 + a.b3

-- `addr4_equals` decides equality.
pub addr4_equals_iff : (a b : InAddr) → (addr4_equals a b ≡ true) ↔ (a ≡ b)
unfolding addr4_equals
addr4_equals_iff a b = ground arith

pub addr6_equals_iff : (a b : In6Addr) → (addr6_equals a b ≡ true) ↔ (a ≡ b)
unfolding addr6_equals
addr6_equals_iff a b = ground (
  arith,
  addr4_equals_iff a.w0 b.w0,
  addr4_equals_iff a.w1 b.w1,
  addr4_equals_iff a.w2 b.w2,
  addr4_equals_iff a.w3 b.w3,
)

pub taddr4_equals_iff : (a b : Ipv4TransportAddr) → (taddr4_equals a b ≡ true) ↔ (a ≡ b)
unfolding taddr4_equals
taddr4_equals_iff a b = ground (arith, addr4_equals_iff a.l3 b.l3)

pub taddr6_equals_iff : (a b : Ipv6TransportAddr) → (taddr6_equals a b ≡ true) ↔ (a ≡ b)
unfolding taddr6_equals
taddr6_equals_iff a b = ground (arith, addr6_equals_iff a.l3 b.l3)
