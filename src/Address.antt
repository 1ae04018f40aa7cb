-- ===== src/Address.antt =====
-- mod/common/address.c: prefixes of IPv4 addresses, as masks over 32-bit words.
use Prim.Native.Nat.{bit_and}
use jool.Prelude.{
  ℕ, ◌+◌, ◌-◌, ◌*◌, ◌%◌, ◌^◌, Bool, ◌||◌, ltb, ◌==◌, if◌then◌else◌, List, [], ◌∷◌, Option, none,
  some,
}
use jool.Types.{InAddr, Ipv4Prefix, be32_to_cpu}

abbrev u32 : ℕ → ℕ
u32 n = n % 2 ^ 32

-- `((__u64) 0xffffffffU) << (32 - prefix->len)`, cut to 32 bits.
unfoldable pub get_prefix4_mask : Ipv4Prefix → ℕ
get_prefix4_mask prefix = u32 (0xffff_ffff * 2 ^ (32 - prefix.len))

unfoldable pub prefix4_contains : Ipv4Prefix → InAddr → Bool
unfolding get_prefix4_mask be32_to_cpu
prefix4_contains prefix addr =
    let maskbits = get_prefix4_mask prefix in
    bit_and (be32_to_cpu prefix.addr) maskbits == bit_and (be32_to_cpu addr) maskbits

unfoldable pub prefix4_intersects : Ipv4Prefix → Ipv4Prefix → Bool
unfolding prefix4_contains
prefix4_intersects p1 p2 = prefix4_contains p1 p2.addr || prefix4_contains p2 p1.addr

unfoldable pub prefix4_get_addr_count : Ipv4Prefix → ℕ
prefix4_get_addr_count prefix = 2 ^ (32 - prefix.len)

unfoldable pub prefix4_next : Ipv4Prefix → ℕ
unfolding prefix4_get_addr_count be32_to_cpu
prefix4_next prefix = prefix4_get_addr_count prefix + be32_to_cpu prefix.addr

-- `~mask` of 32 bits.
abbrev pub complement32 : ℕ → ℕ
complement32 m = 2 ^ 32 - 1 - m

-- The prefix is never NULL in the model.
unfoldable pub prefix4_validate : Ipv4Prefix → Option Ipv4Prefix
unfolding get_prefix4_mask be32_to_cpu
prefix4_validate prefix =
    if ltb 32 prefix.len
    then none
    else if bit_and (be32_to_cpu prefix.addr) (complement32 (get_prefix4_mask prefix)) == 0
    then some prefix
    else none

abbrev network : ℕ → ℕ → ℕ → ℕ → ℕ → Ipv4Prefix
network a b c d len = record { addr = record { b0 = a; b1 = b; b2 = c; b3 = d }; len = len }

-- The networks of `prefix4_has_subnet_scope`.
abbrev pub subnets : List Ipv4Prefix
subnets =
    network 0 0 0 0 8
    ∷ network 127 0 0 0 8
    ∷ network 169 254 0 0 16
    ∷ network 224 0 0 0 4
    ∷ network 255 255 255 255 32
    ∷ []

first_colliding : Ipv4Prefix → List Ipv4Prefix → Option Ipv4Prefix
unfolding prefix4_intersects
first_colliding prefix [] = none
first_colliding prefix (s ∷ ss) =
    let rest = first_colliding prefix ss in if prefix4_intersects prefix s then some s else rest

-- `prefix4_has_subnet_scope`, with the colliding network where there is one.
unfoldable pub prefix4_has_subnet_scope : Ipv4Prefix → Option Ipv4Prefix
unfolding first_colliding
prefix4_has_subnet_scope prefix = first_colliding prefix subnets
