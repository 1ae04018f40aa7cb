-- ===== src/Rfc7915/FragField.antt =====
-- The fragment fields of the two IP headers (mod/common/packet.h), as numbers in host order.
-- A shift or a mask of constant width is written as a division or a remainder by a power of two.
use jool.Prelude.{ℕ, ◌+◌, ◌*◌, ◌/◌, ◌%◌, ◌^◌, ◌<◌, ◌≡◌, Bool, not, ◌==◌, if◌then◌else◌, arith}

-- A flag as the bit that it sets.
abbrev pub bit : Bool → ℕ
bit b = if b then 1 else 0

-- `hdr->frag_off` of IPv4: reserved, DF, MF, and 13 bits of offset in units of 8 bytes.
unfoldable pub is_df_set : ℕ → Bool
is_df_set frag_off = not (frag_off / 2 ^ 14 % 2 == 0)

unfoldable pub is_mf_set_ipv4 : ℕ → Bool
is_mf_set_ipv4 frag_off = not (frag_off / 2 ^ 13 % 2 == 0)

unfoldable pub get_fragment_offset_ipv4 : ℕ → ℕ
get_fragment_offset_ipv4 frag_off = frag_off % 2 ^ 13 * 8

-- `frag_off` of an IPv6 fragment header: 13 bits of offset, two reserved bits, MF.
unfoldable pub is_mf_set_ipv6 : ℕ → Bool
is_mf_set_ipv6 frag_off = not (frag_off % 2 == 0)

unfoldable pub get_fragment_offset_ipv6 : ℕ → ℕ
get_fragment_offset_ipv6 frag_off = frag_off % 2 ^ 16 / 8 * 8

-- The offset is an argument of 16 bits.
unfoldable pub build_ipv6_frag_off_field : ℕ → Bool → ℕ
build_ipv6_frag_off_field frag_offset mf = frag_offset % 2 ^ 16 / 8 * 8 + bit mf

unfoldable pub build_ipv4_frag_off_field : Bool → Bool → ℕ → ℕ
build_ipv4_frag_off_field df mf frag_offset =
    bit df * 2 ^ 14 + bit mf * 2 ^ 13 + frag_offset % 2 ^ 16 / 8

-- `ip_is_fragment` of the kernel.
unfoldable pub is_fragmented_ipv4 : ℕ → Bool
is_fragmented_ipv4 frag_off = not (frag_off % 2 ^ 14 == 0)

-- What is written into an IPv6 field is read from it.
pub get_offset-build6 :
    (offset : ℕ) (mf : Bool)
    → offset < 2 ^ 16
    → offset % 8 ≡ 0
    → get_fragment_offset_ipv6 (build_ipv6_frag_off_field offset mf) ≡ offset
unfolding get_fragment_offset_ipv6 build_ipv6_frag_off_field
get_offset-build6 offset mf b h = ground arith

pub is_mf_set-build6 :
    (offset : ℕ) (mf : Bool) → is_mf_set_ipv6 (build_ipv6_frag_off_field offset mf) ≡ mf
unfolding is_mf_set_ipv6 build_ipv6_frag_off_field
is_mf_set-build6 offset mf = ground arith
