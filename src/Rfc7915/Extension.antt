-- ===== src/Rfc7915/Extension.antt =====
-- ICMP extensions (mod/common/rfc7915/common.c): `handle_icmp_extension` and `fix_ie`.
--
-- A packet is the list of its bytes from the network header on, and its headers are a prefix of a
-- given length. Lengths are `size_t`, 64 bits; a subtraction wraps.
pub mod Bounds
use jool.Prelude.{
  ℕ, zero, suc, ◌+◌, ◌-◌, ◌*◌, ◌/◌, ◌%◌, ◌^◌, ◌≤◌, ◌<◌, ◌≡◌, refl, sym, ap, ◌∙◌, inl, inr, ◌⊎◌,
  Bool, true, false, ◌||◌, if◌then◌else◌, ltb, leb, ◌==◌, Bool-cases, List, [], ◌∷◌, ◌++◌, length,
  length-append, take, drop, length-drop, length-take_le, arith,
}

abbrev pub sub64 : ℕ → ℕ → ℕ
sub64 a b = (a + 2 ^ 64 - b) % 2 ^ 64

abbrev pub min : ℕ → ℕ → ℕ
min a b = if ltb a b then a else b

-- `struct icmpext_args`.
pub record IcmpextArgs : Type 0 where
  pub max_pkt_len : ℕ
  pub ipl : ℕ
  pub out_bits : ℕ
  pub force_remove_ie : Bool

-- The packets of the translation state.
pub record Packets : Type 0 where
  pub inc : List ℕ
  pub inc_hdrs : ℕ
  pub out : List ℕ
  pub out_hdrs : ℕ

-- What the kernel does: `alloc_skb` and the calls of `skb_copy_bits`.
pub record Buffers : Type 0 where
  pub alloc : Bool
  pub copy : Bool

pub data Extended : Type 0 where
  extended : List ℕ → ℕ → Extended  -- the outgoing packet and `args->ipl`
  too_big : Extended  -- JSTAT_ICMPEXT_BIG
  no_memory : Extended  -- JSTAT_ENOMEM
  copy_failed : Extended  -- JSTAT_UNKNOWN

abbrev pub zeros : ℕ → List ℕ
zeros zero = []
zeros (suc n) = 0 ∷ zeros n

-- `fix_ie`: the outer headers, `ipl` bytes of the inner packet, and the padded extension, if any.
unfoldable pub fixed : Packets → ℕ → ℕ → ℕ → ℕ → List ℕ
unfolding take drop
fixed p in_ie_offset ipl pad iel =
    take p.out_hdrs p.out
    ++ (take ipl (drop p.out_hdrs p.out)
        ++ (if iel == 0 then [] else zeros pad ++ take iel (drop in_ie_offset p.inc)))

unfoldable pub fix_ie : Buffers → Packets → ℕ → ℕ → ℕ → ℕ → ℕ → Extended
unfolding fixed
fix_ie buf p in_ie_offset ipl pad iel args_ipl =
    if buf.alloc
    then (if buf.copy then extended (fixed p in_ie_offset ipl pad iel) args_ipl else copy_failed)
    else no_memory

-- The lengths that `handle_icmp_extension` computes.
abbrev pub in_iel : Packets → IcmpextArgs → ℕ
in_iel p args = sub64 (length p.inc) (p.inc_hdrs + args.ipl)

abbrev pub max_iel : Packets → IcmpextArgs → ℕ
max_iel p args = sub64 args.max_pkt_len (p.out_hdrs + 128)

-- Without the extension.
abbrev pub removed_ipl : Packets → IcmpextArgs → ℕ
removed_ipl p args = sub64 (min (sub64 (length p.out) (in_iel p args)) args.max_pkt_len) p.out_hdrs

-- With it: `out_ipl &= ~0 << out_bits`.
abbrev pub kept_ipl : Packets → IcmpextArgs → ℕ
kept_ipl p args =
    sub64 (sub64 (min (length p.out) args.max_pkt_len) (in_iel p args)) p.out_hdrs
    / 2 ^ args.out_bits
    * 2 ^ args.out_bits

abbrev pub kept_pad : Packets → IcmpextArgs → ℕ
kept_pad p args = if ltb (kept_ipl p args) 128 then 128 - kept_ipl p args else 0

unfoldable pub remove_ie : Buffers → Packets → IcmpextArgs → Extended
unfolding fix_ie
remove_ie buf p args = fix_ie buf p (p.inc_hdrs + args.ipl) (removed_ipl p args) 0 0 0

unfoldable pub keep_ie : Buffers → Packets → IcmpextArgs → Extended
unfolding fix_ie
keep_ie buf p args =
    fix_ie buf p (p.inc_hdrs + args.ipl) (kept_ipl p args) (kept_pad p args) (in_iel p args)
      ((kept_ipl p args + kept_pad p args) / 2 ^ args.out_bits)

unfoldable pub handle_icmp_extension : Buffers → Packets → IcmpextArgs → Extended
unfolding remove_ie keep_ie
handle_icmp_extension buf p args =
    let payload_len = sub64 (length p.inc) p.inc_hdrs in
    if args.ipl == 0
    then extended p.out 0
    else if args.ipl == payload_len
    then extended p.out 0
    else if ltb payload_len args.ipl
    then too_big
    else if args.force_remove_ie || ltb (max_iel p args) (in_iel p args)
    then remove_ie buf p args
    else keep_ie buf p args

-- `handle_icmp4_extension` (6to4.c): the incoming length counts units of 8 bytes, the outgoing one
-- of 4.
abbrev pub icmp4_args : ℕ → IcmpextArgs
icmp4_args icmp6_length = record {
  max_pkt_len = 576;
  ipl = icmp6_length * 8;
  out_bits = 2;
  force_remove_ie = false;
}

-- `should_remove_ie` and `handle_icmp6_extension` (4to6.c).
unfoldable pub should_remove_ie : ℕ → ℕ → Bool
should_remove_ie type code = if type == 3 then code == 2 || code == 4 else type == 12

abbrev pub icmp6_args : ℕ → ℕ → ℕ → IcmpextArgs
icmp6_args type code icmp4_length = record {
  max_pkt_len = 1280;
  ipl = icmp4_length * 4;
  out_bits = 3;
  force_remove_ie = should_remove_ie type code;
}
