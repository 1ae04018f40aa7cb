-- ===== src/Rfc7915/Icmp.antt =====
-- The types, codes and pointers of ICMP messages (mod/common/rfc7915/6to4.c and 4to6.c).
pub mod RoundTrip
use jool.Prelude.{
  ℕ, ◌-◌, Bool, true, false, ◌||◌, if◌then◌else◌, ltb, leb, ◌==◌, Option, none, some,
}

-- The type and the code of the translated message, and whether the addresses of the inner packet
-- are translated too (`xlat64_internal_addresses`, `xlat46_internal_addresses`).
pub record IcmpType : Type 0 where
  pub type : ℕ
  pub code : ℕ
  pub internal : Bool

abbrev pub info : ℕ → Option IcmpType
info type = some (record { type = type; code = 0; internal = false })

abbrev pub error : ℕ → ℕ → Option IcmpType
error type code = some (record { type = type; code = code; internal = true })

-- The codes of ICMPV6_DEST_UNREACH: no route, not a neighbour, unreachable; prohibited; no port.
unfoldable pub unreach64 : ℕ → Option IcmpType
unreach64 code =
    if code == 0 || (code == 2 || code == 3)
    then error 3 1
    else if code == 1
    then error 3 10
    else if code == 4
    then error 3 3
    else none

-- The codes of ICMPV6_PARAMPROB: the header field; the next header.
unfoldable pub paramprob64 : ℕ → Option IcmpType
paramprob64 code = if code == 0 then error 12 0 else if code == 1 then error 3 2 else none

-- `xlat64_icmp_type`, `none` for the drop with JSTAT_UNKNOWN_ICMP6_TYPE.
unfoldable pub xlat64_icmp_type : ℕ → ℕ → Option IcmpType
unfolding unreach64 paramprob64
xlat64_icmp_type type code =
    if type == 128
    then info 8
    else if type == 129
    then info 0
    else if type == 1
    then unreach64 code
    else if type == 2
    then error 3 4
    else if type == 3
    then error 11 code
    else if type == 4
    then paramprob64 code
    else none

-- The codes of ICMP_DEST_UNREACH that become ICMPV6_NOROUTE.
abbrev pub is_noroute : ℕ → Bool
is_noroute code =
    code == 0
    || (code == 1
        || (code == 5 || (code == 6 || (code == 7 || (code == 8 || (code == 11 || code == 12))))))

-- Those that become ICMPV6_ADM_PROHIBITED.
abbrev pub is_prohibited : ℕ → Bool
is_prohibited code = code == 9 || (code == 10 || (code == 13 || code == 15))

unfoldable pub unreach46 : ℕ → Option IcmpType
unreach46 code =
    if is_noroute code
    then error 1 0
    else if code == 2
    then error 4 1
    else if code == 3
    then error 1 4
    else if code == 4
    then error 2 0
    else if is_prohibited code
    then error 1 1
    else none

-- The codes of ICMP_PARAMETERPROB: the pointer; a bad length.
unfoldable pub paramprob46 : ℕ → Option IcmpType
paramprob46 code = if code == 0 || code == 2 then error 4 0 else none

-- `xlat46_icmp_type`, `none` for the drop with JSTAT_UNKNOWN_ICMP4_TYPE.
unfoldable pub xlat46_icmp_type : ℕ → ℕ → Option IcmpType
unfolding unreach46 paramprob46
xlat46_icmp_type type code =
    if type == 8
    then info 128
    else if type == 0
    then info 129
    else if type == 3
    then unreach46 code
    else if type == 11
    then error 3 code
    else if type == 12
    then paramprob46 code
    else none

-- `icmp6_to_icmp4_param_prob_ptr`: the pointer that is shifted into the header.
unfoldable pub icmp6_to_icmp4_param_prob_ptr : ℕ → Option ℕ
icmp6_to_icmp4_param_prob_ptr ptr =
    if ltb 39 ptr
    then none
    else if ptr == 0
    then some 0
    else if ptr == 1
    then some 1
    else if ptr == 2 || ptr == 3
    then none
    else if ptr == 4 || ptr == 5
    then some 2
    else if ptr == 6
    then some 9
    else if ptr == 7
    then some 8
    else if leb 24 ptr
    then some 16
    else if leb 8 ptr
    then some 12
    else none

-- The table of `icmp4_to_icmp6_param_prob`, `none` for DROP and beyond its end.
unfoldable pub param_prob_ptr46 : ℕ → Option ℕ
param_prob_ptr46 ptr =
    if ltb 19 ptr
    then none
    else if ptr == 0
    then some 0
    else if ptr == 1
    then some 1
    else if ptr == 2 || ptr == 3
    then some 4
    else if ptr == 8
    then some 7
    else if ptr == 9
    then some 6
    else if leb 16 ptr
    then some 24
    else if leb 12 ptr
    then some 8
    else none
