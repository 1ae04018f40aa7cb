-- ===== src/Rfc7915/Checksum/Conserved.antt =====
-- The translated checksum is as right as the incoming one (mod/common/rfc7915).
use jool.Prelude.{ℕ, ◌+◌, ◌%◌, ◌^◌, ◌<◌, ap, ◌∙◌, List, if◌then◌else◌, ◌==◌, arith}
use jool.Types.{InAddr, In6Addr}
use jool.Rfc7915.Checksum.{
  sum, words4, words6, ◌≈◌, Csum, IsCsum, complement, pseudohdr6_csum, pseudohdr4_csum,
  update_csum_6to4, udp_check_6to4, update_csum_4to6,
}

-- What a receiver adds up: the checksum field, the addresses, and the transport header with a
-- checksum of 0. The rest (length, protocol, payload) is the same on the two sides.
abbrev pub sum6 : ℕ → In6Addr → In6Addr → List ℕ → ℕ
sum6 check src dst l4 = check + words6 src + words6 dst + sum l4

abbrev pub sum4 : ℕ → InAddr → InAddr → List ℕ → ℕ
sum4 check src dst l4 = check + sum (words4 src) + sum (words4 dst) + sum l4

-- The arithmetic of an update: from the complement of the checksum, take the old parts, add the new.
updated :
    (check p_in in_l4 p_out out_l4 c1 c2 c3 c4 r : ℕ)
    → check < 2 ^ 16
    → c1 + p_in ≈ complement check
    → c2 + in_l4 ≈ c1
    → c3 ≈ c2 + p_out
    → c4 ≈ c3 + out_l4
    → r + c4 ≈ 0
    → r + p_out + out_l4 ≈ check + p_in + in_l4
updated check p_in in_l4 p_out out_l4 c1 c2 c3 c4 r b e1 e2 e3 e4 e5 = omega arith

-- 0 and 0xffff are the same in ones' complement.
mangle : (c a b l s : ℕ) → c + a + b + l ≈ s → (if c == 0 then 0xffff else c) + a + b + l ≈ s
mangle c a b l s e = ground arith

module _ (k : Csum) (h : IsCsum k) where
  pseudohdr6_sum : (src dst : In6Addr) → pseudohdr6_csum k src dst ≈ words6 src + words6 dst
  unfolding pseudohdr6_csum
  pseudohdr6_sum src dst =
      let m = k.csum_ipv6_magic src dst 0 0 0 in
      rw (h.unfold_sum m) (omega (arith, h.magic_sum src dst 0 0 0, h.magic_bound src dst 0 0 0))

  pseudohdr4_sum :
      (src dst : InAddr) → pseudohdr4_csum k src dst ≈ sum (words4 src) + sum (words4 dst)
  unfolding pseudohdr4_csum
  pseudohdr4_sum src dst = omega (arith, h.nofold_sum src dst 0 0 0)

  update_6to4 :
      (check : ℕ) (src6 dst6 : In6Addr) (in_l4 : List ℕ) (src4 dst4 : InAddr) (out_l4 : List ℕ)
      → check < 2 ^ 16
      → sum4 (update_csum_6to4 k check src6 dst6 in_l4 src4 dst4 out_l4) src4 dst4 out_l4
        ≈ sum6 check src6 dst6 in_l4
  unfolding update_csum_6to4
  update_6to4 check src6 dst6 in_l4 src4 dst4 out_l4 b =
      let p6 = pseudohdr6_csum k src6 dst6 in
      let p4 = pseudohdr4_csum k src4 dst4 in
      let c0 = complement (k.csum_unfold check) in
      let c1 = k.csum_sub c0 p6 in
      let c2 = k.csum_sub c1 (k.csum_partial in_l4 0) in
      let c3 = k.csum_add c2 p4 in
      let c4 = k.csum_add c3 (k.csum_partial out_l4 0) in
      let u =
        updated check p6 (k.csum_partial in_l4 0) p4 (k.csum_partial out_l4 0) c1 c2 c3 c4
          (k.csum_fold c4) b
          (h.sub_sum c0 p6 ∙ ap (λ (t : ℕ). complement t % 65535) (h.unfold_sum check))
          (h.sub_sum c1 (k.csum_partial in_l4 0)) (h.add_sum c2 p4)
          (h.add_sum c3 (k.csum_partial out_l4 0)) (h.fold_sum c4) in
      omega (
        arith,
        u,
        pseudohdr6_sum src6 dst6,
        pseudohdr4_sum src4 dst4,
        h.partial_sum in_l4 0,
        h.partial_sum out_l4 0,
      )

  update_4to6 :
      (check : ℕ) (src4 dst4 : InAddr) (in_l4 : List ℕ) (src6 dst6 : In6Addr) (out_l4 : List ℕ)
      → check < 2 ^ 16
      → sum6 (update_csum_4to6 k check src4 dst4 in_l4 src6 dst6 out_l4) src6 dst6 out_l4
        ≈ sum4 check src4 dst4 in_l4
  unfolding update_csum_4to6
  update_4to6 check src4 dst4 in_l4 src6 dst6 out_l4 b =
      let p4 = k.csum_tcpudp_nofold src4 dst4 0 0 0 in
      let p6 = complement (k.csum_unfold (k.csum_ipv6_magic src6 dst6 0 0 0)) in
      let c0 = complement (k.csum_unfold check) in
      let c1 = k.csum_sub c0 p4 in
      let c2 = k.csum_sub c1 (k.csum_partial in_l4 0) in
      let c3 = k.csum_add c2 p6 in
      let c4 = k.csum_add c3 (k.csum_partial out_l4 0) in
      let s6 : p6 ≈ words6 src6 + words6 dst6 =
        unfold pseudohdr6_csum in pseudohdr6_sum src6 dst6 in
      let u =
        updated check p4 (k.csum_partial in_l4 0) p6 (k.csum_partial out_l4 0) c1 c2 c3 c4
          (k.csum_fold c4) b
          (h.sub_sum c0 p4 ∙ ap (λ (t : ℕ). complement t % 65535) (h.unfold_sum check))
          (h.sub_sum c1 (k.csum_partial in_l4 0)) (h.add_sum c2 p6)
          (h.add_sum c3 (k.csum_partial out_l4 0)) (h.fold_sum c4) in
      omega
        (arith, u, s6, h.nofold_sum src4 dst4 0 0 0, h.partial_sum in_l4 0, h.partial_sum out_l4 0)

  mangled :
      (check : ℕ) (src6 dst6 : In6Addr) (l6 : List ℕ) (src4 dst4 : InAddr) (l4 : List ℕ)
      → sum4 (update_csum_6to4 k check src6 dst6 l6 src4 dst4 l4) src4 dst4 l4
        ≈ sum6 check src6 dst6 l6
      → sum4 (udp_check_6to4 k check src6 dst6 l6 src4 dst4 l4) src4 dst4 l4
        ≈ sum6 check src6 dst6 l6
  unfolding udp_check_6to4
  mangled check src6 dst6 l6 src4 dst4 l4 e =
      mangle (update_csum_6to4 k check src6 dst6 l6 src4 dst4 l4) (sum (words4 src4))
        (sum (words4 dst4)) (sum l4) (sum6 check src6 dst6 l6) e

  -- A translated transport checksum is exactly as right as the incoming one, in both directions:
  -- checksum, addresses and transport header add up to the same in ones' complement before and
  -- after the translation, whatever changed in the addresses and in the header, and so they do
  -- for UDP from 6 to 4, where a 0 becomes 0xffff. The checksum has 16 bits, and the kernel's
  -- routines compute in ones' complement, as they document.
  pub update_csum-conserved :
      (check : ℕ) (src6 dst6 : In6Addr) (l6 : List ℕ) (src4 dst4 : InAddr) (l4 : List ℕ)
      → check < 2 ^ 16
      → (sum4 (update_csum_6to4 k check src6 dst6 l6 src4 dst4 l4) src4 dst4 l4
          ≈ sum6 check src6 dst6 l6)
        × (sum4 (udp_check_6to4 k check src6 dst6 l6 src4 dst4 l4) src4 dst4 l4
            ≈ sum6 check src6 dst6 l6)
        × (sum6 (update_csum_4to6 k check src4 dst4 l4 src6 dst6 l6) src6 dst6 l6
            ≈ sum4 check src4 dst4 l4)
  update_csum-conserved check src6 dst6 l6 src4 dst4 l4 b = (
    update_6to4 check src6 dst6 l6 src4 dst4 l4 b,
    mangled check src6 dst6 l6 src4 dst4 l4 (update_6to4 check src6 dst6 l6 src4 dst4 l4 b),
    update_4to6 check src4 dst4 l4 src6 dst6 l6 b,
  )
