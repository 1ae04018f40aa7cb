-- ===== src/Rfc7915/Checksum.antt =====
-- The checksums of TCP, UDP and ICMP (mod/common/rfc7915): `update_csum_6to4` and
-- `update_csum_4to6`.
--
-- The checksum routines are the kernel's. They are parameters, with what the kernel documents of
-- them: each computes in ones' complement, which is arithmetic modulo 65535. A header is the list of
-- its 16-bit words.
pub mod Conserved
use jool.Prelude.{ℕ, ◌+◌, ◌-◌, ◌*◌, ◌%◌, ◌^◌, ◌<◌, ◌≡◌, List, [], ◌∷◌, if◌then◌else◌, ◌==◌}
use jool.Types.{InAddr, In6Addr}

abbrev pub sum : List ℕ → ℕ
sum [] = 0
sum (w ∷ ws) = w + sum ws

-- The two 16-bit words of 32 bits in network order.
abbrev pub words4 : InAddr → List ℕ
words4 a = (a.b0 * 256 + a.b1) ∷ (a.b2 * 256 + a.b3) ∷ []

abbrev pub words6 : In6Addr → ℕ
words6 a = sum (words4 a.w0) + sum (words4 a.w1) + sum (words4 a.w2) + sum (words4 a.w3)

infix 4 ◌≈◌
abbrev pub ◌≈◌ : ℕ → ℕ → Type 0
a ≈ b = a % 65535 ≡ b % 65535

-- The routines, on 32-bit partial sums (`__wsum`) and 16-bit checksums (`__sum16`).
pub record Csum : Type 0 where
  pub csum_unfold : ℕ → ℕ
  pub csum_add : ℕ → ℕ → ℕ
  pub csum_sub : ℕ → ℕ → ℕ
  pub csum_fold : ℕ → ℕ
  pub csum_partial : List ℕ → ℕ → ℕ
  pub csum_ipv6_magic : In6Addr → In6Addr → ℕ → ℕ → ℕ → ℕ
  pub csum_tcpudp_nofold : InAddr → InAddr → ℕ → ℕ → ℕ → ℕ

-- What they compute. `csum_fold` and `csum_ipv6_magic` return the complement of a sum.
pub record IsCsum (k : Csum) : Type 0 where
  pub unfold_sum : (c : ℕ) → k.csum_unfold c ≡ c
  pub add_sum : (a b : ℕ) → k.csum_add a b ≈ a + b
  pub sub_sum : (a b : ℕ) → k.csum_sub a b + b ≈ a
  pub fold_sum : (c : ℕ) → k.csum_fold c + c ≈ 0
  pub partial_sum : (ws : List ℕ) (s : ℕ) → k.csum_partial ws s ≈ sum ws + s
  pub magic_sum :
      (src dst : In6Addr) (len proto s : ℕ)
      → k.csum_ipv6_magic src dst len proto s + (words6 src + words6 dst + len + proto + s) ≈ 0
  pub magic_bound :
      (src dst : In6Addr) (len proto s : ℕ) → k.csum_ipv6_magic src dst len proto s < 2 ^ 16
  pub nofold_sum :
      (src dst : InAddr) (len proto s : ℕ)
      → k.csum_tcpudp_nofold src dst len proto s
        ≈ sum (words4 src) + sum (words4 dst) + len + proto + s

-- `~` on 32 bits.
abbrev pub complement : ℕ → ℕ
complement c = 2 ^ 32 - 1 - c

module _ (k : Csum) where
  unfoldable pub pseudohdr6_csum : In6Addr → In6Addr → ℕ
  pseudohdr6_csum src dst = complement (k.csum_unfold (k.csum_ipv6_magic src dst 0 0 0))

  unfoldable pub pseudohdr4_csum : InAddr → InAddr → ℕ
  pseudohdr4_csum src dst = k.csum_tcpudp_nofold src dst 0 0 0

  -- The addresses are those of the two IP headers, the words those of the two transport headers
  -- with a checksum of 0.
  unfoldable pub update_csum_6to4 : ℕ → In6Addr → In6Addr → List ℕ → InAddr → InAddr → List ℕ → ℕ
  unfolding pseudohdr6_csum pseudohdr4_csum
  update_csum_6to4 csum16 src6 dst6 in_l4 src4 dst4 out_l4 =
      let c0 = complement (k.csum_unfold csum16) in
      let c1 = k.csum_sub c0 (pseudohdr6_csum src6 dst6) in
      let c2 = k.csum_sub c1 (k.csum_partial in_l4 0) in
      let c3 = k.csum_add c2 (pseudohdr4_csum src4 dst4) in
      let c4 = k.csum_add c3 (k.csum_partial out_l4 0) in k.csum_fold c4

  -- The checksum of a translated UDP header, where 0 means that there is none (`ttp64_udp`).
  unfoldable pub udp_check_6to4 : ℕ → In6Addr → In6Addr → List ℕ → InAddr → InAddr → List ℕ → ℕ
  unfolding update_csum_6to4
  udp_check_6to4 csum16 src6 dst6 in_l4 src4 dst4 out_l4 =
      let c = update_csum_6to4 csum16 src6 dst6 in_l4 src4 dst4 out_l4 in
      if c == 0 then 0xffff else c

  unfoldable pub update_csum_4to6 : ℕ → InAddr → InAddr → List ℕ → In6Addr → In6Addr → List ℕ → ℕ
  update_csum_4to6 csum16 src4 dst4 in_l4 src6 dst6 out_l4 =
      let c0 = complement (k.csum_unfold csum16) in
      let c1 = k.csum_sub c0 (k.csum_tcpudp_nofold src4 dst4 0 0 0) in
      let c2 = k.csum_sub c1 (k.csum_partial in_l4 0) in
      let pseudohdr = complement (k.csum_unfold (k.csum_ipv6_magic src6 dst6 0 0 0)) in
      let c3 = k.csum_add c2 pseudohdr in
      let c4 = k.csum_add c3 (k.csum_partial out_l4 0) in k.csum_fold c4
