-- ===== src/Tests/Packets.antt =====
-- The translation of packets (mod/common/rfc7915) at concrete inputs, and its theorems there.
use jool.Prelude.{
  ℕ, zero, suc, ◌+◌, ◌-◌, ◌*◌, ◌%◌, ◌≡◌, ◌≢◌, ◌⊎◌, ◌++◌, ◌<◌, ◌^◌, ◌==◌, if◌then◌else◌, refl, inl,
  inr, true, List, [], ◌∷◌, some, none, arith,
}
use jool.Rfc7915.FragField.{get_fragment_offset_ipv4, is_mf_set_ipv4}
use jool.Rfc7915.Fragment.{fragments, allocate_slow, autofill_hdr6}
use jool.Rfc7915.Fragment.Headers.{Reassembles, payload_of, first_frag_off, slow_path-Reassembles}
use jool.Rfc7915.SrcRoute.{
  has_unexpired_src_route, Item, no_operation, option, unexpired, src_route-unexpired,
  src_route-stuck,
}
use jool.Rfc7915.Extension.{Packets, extended, icmp4_args, handle_icmp_extension, zeros}
use jool.Rfc7915.Extension.Bounds.{Outcome, handle_icmp_extension-IsExtended}
use jool.Rfc7915.Icmp.{
  xlat64_icmp_type, xlat46_icmp_type, icmp6_to_icmp4_param_prob_ptr, param_prob_ptr46, error,
}
use jool.Rfc7915.Icmp.RoundTrip.{there_back_there46, there_back_there64, bind, icmp_stable}
use jool.Rfc7915.Mtu.{
  compute_mtu6, max, min, told, IsPlateau, compute_mtu6-min, compute_mtu6-no_device,
}
use jool.Rfc7915.Checksum.{
  sum, words4, words6, ◌≈◌, Csum, IsCsum, update_csum_6to4, udp_check_6to4, update_csum_4to6,
}
use jool.Rfc7915.Checksum.Conserved.{sum4, sum6, update_csum-conserved}
use jool.Tests.Fixtures.{peer, peer6, pool, host}

-- Twenty bytes through an MTU that leaves 8 to a fragment.
abbrev twenty : List ℕ
twenty =
    1 ∷ 2 ∷ 3 ∷ 4 ∷ 5 ∷ 6 ∷ 7 ∷ 8 ∷ 9 ∷ 10 ∷ 11 ∷ 12 ∷ 13 ∷ 14 ∷ 15 ∷ 16 ∷ 17 ∷ 18 ∷ 19 ∷ 20 ∷ []

slices :
    allocate_slow (λ c. true) 56 twenty
    ≡ fragments (
        (1 ∷ 2 ∷ 3 ∷ 4 ∷ 5 ∷ 6 ∷ 7 ∷ 8 ∷ [])
        ∷ (9 ∷ 10 ∷ 11 ∷ 12 ∷ 13 ∷ 14 ∷ 15 ∷ 16 ∷ [])
        ∷ (17 ∷ 18 ∷ 19 ∷ 20 ∷ [])
        ∷ [])
unfolding allocate_slow
slices = refl

-- The second fragment of an IPv4 packet, at byte 1480, with more behind it.
slow_path-Reassembles_example :
    (bs : List (List ℕ)) × (allocate_slow (λ c. true) 56 twenty ≡ fragments bs)
    × Reassembles 56
        (get_fragment_offset_ipv4 0x20b9)
        (is_mf_set_ipv4 0x20b9)
        (autofill_hdr6 (first_frag_off 0x20b9) bs)
    × (payload_of (autofill_hdr6 (first_frag_off 0x20b9) bs) ≡ twenty)
unfolding get_fragment_offset_ipv4
slow_path-Reassembles_example =
    slow_path-Reassembles (λ c. true) 56 0x20b9 twenty (omega arith) (omega arith) (λ c. refl)
      (omega arith) (omega arith)

-- No operation, then a loose source route whose pointer is 4, within its length of 7.
abbrev route : List Item
route = no_operation ∷ option 131 (4 ∷ 192 ∷ 0 ∷ 2 ∷ 9 ∷ []) ∷ []

abbrev route_memory : ℕ → ℕ
route_memory zero = 1
route_memory (suc zero) = 131
route_memory (suc (suc zero)) = 7
route_memory (suc (suc (suc zero))) = 4
route_memory (suc (suc (suc (suc zero)))) = 192
route_memory (suc (suc (suc (suc (suc zero))))) = 0
route_memory (suc (suc (suc (suc (suc (suc zero)))))) = 2
route_memory (suc (suc (suc (suc (suc (suc (suc n))))))) = 9

src_route-unexpired_example : has_unexpired_src_route 9 route_memory 8 ≡ some (unexpired route)
src_route-unexpired_example =
    src_route-unexpired 9 route_memory 8 route (tt, ((omega arith, inr (omega arith)), tt))
      (refl, (refl, (refl, (refl, (refl, (refl, (refl, (refl, tt)))))))) refl (omega arith)

-- A record-route option with a length of 0.
abbrev zero_length : ℕ → ℕ
zero_length zero = 7
zero_length (suc n) = 0

src_route-stuck_example : has_unexpired_src_route 1000 zero_length 4 ≡ none
src_route-stuck_example = src_route-stuck 1000 zero_length 4 (omega arith) (omega arith) refl refl

-- An ICMPv6 error of 48 bytes of headers, 16 of the inner packet and an extension of 4.
abbrev icmp_packets : Packets
icmp_packets = record {
  inc = zeros 64 ++ (1 ∷ 2 ∷ 3 ∷ 4 ∷ []);
  inc_hdrs = 48;
  out = zeros 44 ++ (1 ∷ 2 ∷ 3 ∷ 4 ∷ []);
  out_hdrs = 28;
}

handle_icmp_extension-IsExtended_example :
    (new : List ℕ) × (ipl : ℕ) × (handle_icmp_extension
        (record { alloc = true; copy = true })
        icmp_packets
        (icmp4_args 2)
      ≡ extended new ipl)
    × Outcome icmp_packets (icmp4_args 2) new ipl
handle_icmp_extension-IsExtended_example =
    handle_icmp_extension-IsExtended (record { alloc = true; copy = true }) icmp_packets
      (icmp4_args 2)
      (record {
        inc_bound = omega arith;
        out_bound = omega arith;
        max_bound = omega arith;
        inc_hdrs_fit = omega arith;
        out_carries = omega arith;
        room = omega arith;
        unit = inl refl;
      })
      refl refl (omega arith)

-- Host prohibited becomes administratively prohibited; the pointer is that of the time to live.
icmp_stable_example :
    (there_back_there46 3 10 ≡ xlat46_icmp_type 3 10)
    × (there_back_there64 3 10 ≡ xlat64_icmp_type 3 10)
    × (bind (bind (param_prob_ptr46 8) icmp6_to_icmp4_param_prob_ptr) param_prob_ptr46
        ≡ param_prob_ptr46 8)
    × (bind (bind (icmp6_to_icmp4_param_prob_ptr 8) param_prob_ptr46) icmp6_to_icmp4_param_prob_ptr
        ≡ icmp6_to_icmp4_param_prob_ptr 8)
icmp_stable_example = icmp_stable 3 10 8

prohibited : xlat46_icmp_type 3 10 ≡ error 1 1
unfolding xlat46_icmp_type
prohibited = refl

abbrev plateaus : List ℕ
plateaus = 65535 ∷ 32000 ∷ 17914 ∷ 8166 ∷ 4352 ∷ 2002 ∷ 1492 ∷ 1006 ∷ 508 ∷ 296 ∷ 68 ∷ []

-- A message without an MTU about a packet of 1500 bytes.
compute_mtu6-min_example :
    (compute_mtu6 plateaus 0 (some 1500) (some 1500) 1500
      ≡ max 1280 (min (told plateaus 0 1500 + 20) (min 1500 (1500 + 20))))
    × ((◌≢◌ {A = ℕ} 0 0) ⊎ IsPlateau plateaus 1500 (told plateaus 0 1500))
compute_mtu6-min_example =
    compute_mtu6-min plateaus 0 1500 1500 1500 (omega arith) (omega arith) (omega arith)

without_mtu : compute_mtu6 plateaus 0 (some 1500) (some 1500) 1500 ≡ 1500
unfolding compute_mtu6
without_mtu = refl

compute_mtu6-no_device_example : compute_mtu6 plateaus 9000 none (some 9000) 9000 ≡ 1280
compute_mtu6-no_device_example = compute_mtu6-no_device plateaus 9000 9000 (some 9000)

-- Routines that compute in ones' complement, where only a sum of 0 folds to 0.
abbrev fold_not : ℕ → ℕ
fold_not c = if c == 0 then 65535 else 65534 - (c - 1) % 65535

fold_not_sum : (c : ℕ) → fold_not c + c ≈ 0
fold_not_sum c = ground arith

fold_not_bound : (c : ℕ) → fold_not c < 2 ^ 16
fold_not_bound c = ground arith

abbrev csum : Csum
csum = record {
  csum_unfold = λ c. c;
  csum_add = λ a b. a + b;
  csum_sub = λ a b. a + b * 65534;
  csum_fold = fold_not;
  csum_partial = λ ws s. sum ws + s;
  csum_ipv6_magic = λ src dst len proto s. fold_not (words6 src + words6 dst + len + proto + s);
  csum_tcpudp_nofold = λ src dst len proto s. sum (words4 src) + sum (words4 dst) + len + proto + s;
}

csum-IsCsum : IsCsum csum
csum-IsCsum = record {
  unfold_sum = λ c. refl;
  add_sum = λ a b. refl;
  sub_sum = λ a b. omega arith;
  fold_sum = fold_not_sum;
  partial_sum = λ ws s. refl;
  magic_sum = λ src dst len proto s. fold_not_sum (words6 src + words6 dst + len + proto + s);
  magic_bound = λ src dst len proto s. fold_not_bound (words6 src + words6 dst + len + proto + s);
  nofold_sum = λ src dst len proto s. refl;
}

-- Two ports and a checksum.
update_csum-conserved_example :
    (sum4
        (update_csum_6to4 csum 0x1234 (host 1) peer6 (10 ∷ 80 ∷ []) pool peer (11 ∷ 80 ∷ []))
        pool
        peer
        (11 ∷ 80 ∷ [])
      ≈ sum6 0x1234 (host 1) peer6 (10 ∷ 80 ∷ []))
    × (sum4
          (udp_check_6to4 csum 0x1234 (host 1) peer6 (10 ∷ 80 ∷ []) pool peer (11 ∷ 80 ∷ []))
          pool
          peer
          (11 ∷ 80 ∷ [])
        ≈ sum6 0x1234 (host 1) peer6 (10 ∷ 80 ∷ []))
    × (sum6
          (update_csum_4to6 csum 0x1234 pool peer (11 ∷ 80 ∷ []) (host 1) peer6 (10 ∷ 80 ∷ []))
          (host 1)
          peer6
          (10 ∷ 80 ∷ [])
        ≈ sum4 0x1234 pool peer (11 ∷ 80 ∷ []))
update_csum-conserved_example =
    update_csum-conserved csum csum-IsCsum 0x1234 (host 1) peer6 (10 ∷ 80 ∷ []) pool peer
      (11 ∷ 80 ∷ []) (omega arith)

-- From 4 to 6 the result may be 0, which UDP over IPv6 forbids.
zero_checksum :
    update_csum_4to6 csum 0x6bb7 pool peer (11 ∷ 80 ∷ []) (host 1) peer6 (10 ∷ 80 ∷ []) ≡ 0
unfolding update_csum_4to6
zero_checksum = refl
