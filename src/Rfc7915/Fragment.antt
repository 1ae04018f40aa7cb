-- ===== src/Rfc7915/Fragment.antt =====
-- The slow path of mod/common/rfc7915/4to6.c: `allocate_slow` cuts the payload of an IPv4 packet
-- into IPv6 fragments, and `autofill_hdr6` fills their headers from the first one.
--
-- A payload is the list of its bytes. The loop runs on fuel; the length of the payload is enough,
-- since every fragment takes a byte at least.
pub mod Cover
pub mod Headers
use jool.Prelude.{
  ℕ, zero, suc, ◌+◌, ◌-◌, ◌*◌, ◌/◌, ◌%◌, ◌^◌, ◌≡◌, Bool, true, false, if◌then◌else◌, ltb, ◌==◌,
  List, [], ◌∷◌, length, take, drop,
}
use jool.Rfc7915.FragField.{build_ipv6_frag_off_field, get_fragment_offset_ipv6, is_mf_set_ipv6}

-- `HDRS_LEN`: an IPv6 header and a fragment header.
abbrev pub hdrs_len : ℕ
hdrs_len = 48

-- How `allocate_slow` ends: with the payloads of the fragments, or because `alloc_skb` or
-- `skb_copy_bits` fails; `out_of_fuel` does not occur (Cover).
pub data Slow : Type 0 where
  fragments : List (List ℕ) → Slow
  no_memory : Slow
  out_of_fuel : Slow

abbrev pub add_fragment : List ℕ → Slow → Slow
add_fragment b (fragments bs) = fragments (b ∷ bs)
add_fragment b no_memory = no_memory
add_fragment b out_of_fuel = out_of_fuel

-- `(mpl - HDRS_LEN) & 0xFFFFFFF8`, unsigned.
unfoldable pub payload_per_frag : ℕ → ℕ
payload_per_frag mpl = (mpl + 2 ^ 32 - hdrs_len) % 2 ^ 32 / 8 * 8

-- The loop. `alloc` tells, by the bytes consumed, whether the next fragment can be made.
unfoldable pub slow_loop : ℕ → (ℕ → Bool) → ℕ → List ℕ → ℕ → ℕ → Slow
unfolding take drop
slow_loop zero alloc per payload consumed left = out_of_fuel
slow_loop (suc fuel) alloc per payload consumed left =
    let n = if ltb per left then per else left in
    let rest =
      add_fragment (take n (drop consumed payload)) (
        slow_loop fuel alloc per payload (consumed + n) (if ltb per left then left - per else 0)) in
    if left == 0 then fragments [] else if alloc consumed then rest else no_memory

unfoldable pub allocate_slow : (ℕ → Bool) → ℕ → List ℕ → Slow
unfolding slow_loop payload_per_frag
allocate_slow alloc mpl payload =
    slow_loop (suc (length payload)) alloc (payload_per_frag mpl) payload 0 (length payload)

-- A fragment as it is sent: the payload length of its IPv6 header, the field of its fragment
-- header, and its bytes. The rest of the headers is that of the first fragment.
pub record Fragment6 : Type 0 where
  pub payload_len : ℕ
  pub frag_off : ℕ
  pub bytes : List ℕ

-- `skb->len - sizeof(*hdr6)`, 16 bits: the fragment header and the bytes.
abbrev pub fragment6 : ℕ → List ℕ → Fragment6
fragment6 frag_off bytes = record {
  payload_len = (8 + length bytes) % 2 ^ 16;
  frag_off = frag_off;
  bytes = bytes;
}

-- The loop of `autofill_hdr6` over the fragments behind the first.
unfoldable pub autofill_next : ℕ → Bool → List (List ℕ) → List Fragment6
unfolding build_ipv6_frag_off_field
autofill_next offset first_mf [] = []
autofill_next offset first_mf (b ∷ []) =
    fragment6 (build_ipv6_frag_off_field offset first_mf) b ∷ []
autofill_next offset first_mf (b ∷ c ∷ rest) =
    fragment6 (build_ipv6_frag_off_field offset true) b
    ∷ autofill_next ((offset + length b) % 2 ^ 16) first_mf (c ∷ rest)

-- `autofill_hdr6`, given the field that `ttcp46_ipv6_common` wrote into the first fragment header.
-- A lone fragment is left as it is; else the first one gets `IP6_MF`.
unfoldable pub autofill_hdr6 : ℕ → List (List ℕ) → List Fragment6
unfolding autofill_next get_fragment_offset_ipv6 is_mf_set_ipv6
autofill_hdr6 frag_off [] = []
autofill_hdr6 frag_off (b ∷ []) = fragment6 frag_off b ∷ []
autofill_hdr6 frag_off (b ∷ c ∷ rest) =
    fragment6 (if is_mf_set_ipv6 frag_off then frag_off else frag_off + 1) b
    ∷ autofill_next ((get_fragment_offset_ipv6 frag_off + length b) % 2 ^ 16)
        (is_mf_set_ipv6 frag_off) (c ∷ rest)
