-- ===== src/Rfc7915/Mtu.antt =====
-- The MTU fields of ICMP errors (mod/common/rfc7915): `compute_mtu4`, `icmp6_minimum_mtu` and
-- `compute_mtu6`. An `unsigned int` is a number below 2 ^ 32, and its sums and differences wrap.
use jool.Prelude.{
  ℕ, ◌+◌, ◌-◌, ◌%◌, ◌^◌, ◌≤◌, ◌<◌, ◌≡◌, refl, true, false, if◌then◌else◌, ltb, ◌==◌, Bool-cases,
  ltb→lt, ◌≢◌, ◌⊎◌, inl, inr, ◌∙◌, List, [], ◌∷◌, Option, none, some, arith,
}

abbrev pub add32 : ℕ → ℕ → ℕ
add32 a b = (a + b) % 2 ^ 32

abbrev pub sub32 : ℕ → ℕ → ℕ
sub32 a b = (a + 2 ^ 32 - b) % 2 ^ 32

abbrev pub min : ℕ → ℕ → ℕ
min a b = if ltb a b then a else b

abbrev pub max : ℕ → ℕ → ℕ
max a b = if ltb a b then b else a

-- `INFINITE`, where there is no device or no route.
abbrev pub infinite : ℕ
infinite = 0xffffffff

abbrev pub mtu_of : Option ℕ → ℕ
mtu_of none = infinite
mtu_of (some mtu) = mtu

-- `minimum`: the field has 16 bits.
unfoldable pub minimum : ℕ → ℕ → ℕ → ℕ
minimum mtu1 mtu2 mtu3 = min mtu1 (min mtu2 mtu3) % 2 ^ 16

-- The incoming message's MTU, the incoming device's, and that of the route.
unfoldable pub compute_mtu4 : ℕ → Option ℕ → Option ℕ → ℕ
unfolding minimum
compute_mtu4 icmp6_mtu in_dev out_dst =
    minimum (sub32 icmp6_mtu 20) (mtu_of out_dst) (sub32 (mtu_of in_dev) 20)

-- The loop over the plateaus: the first below the length, or the 0 that was there.
unfoldable pub plateau : List ℕ → ℕ → ℕ
plateau [] tot_len = 0
plateau (p ∷ plateaus) tot_len =
    let rest = plateau plateaus tot_len in if ltb p tot_len then p else rest

abbrev pub ipv6_min_mtu : ℕ
ipv6_min_mtu = 1280

unfoldable pub icmp6_minimum_mtu : List ℕ → ℕ → ℕ → ℕ → ℕ → ℕ
unfolding plateau
icmp6_minimum_mtu plateaus packet_mtu nexthop6_mtu nexthop4_mtu tot_len =
    let mtu = if packet_mtu == 0 then plateau plateaus tot_len else packet_mtu in
    let result = min (add32 mtu 20) (min nexthop6_mtu (add32 nexthop4_mtu 20)) in
    if ltb result ipv6_min_mtu then ipv6_min_mtu else result

unfoldable pub compute_mtu6 : List ℕ → ℕ → Option ℕ → Option ℕ → ℕ → ℕ
unfolding icmp6_minimum_mtu
compute_mtu6 plateaus icmp4_mtu in_dev out_dst tot_len =
    icmp6_minimum_mtu plateaus icmp4_mtu (mtu_of out_dst) (mtu_of in_dev) tot_len

-- Plateaus as they are configured: in falling order, 16 bits each.
abbrev pub AllBelow : ℕ → List ℕ → Type 0
AllBelow bound [] = Unit {0}
AllBelow bound (p ∷ ps) = (p < bound) × AllBelow p ps

-- What a plateau is for: the greatest one below the length.
abbrev pub NoneBetween : ℕ → ℕ → List ℕ → Type 0
NoneBetween lo hi [] = Unit {0}
NoneBetween lo hi (p ∷ ps) = ((p ≤ lo) ⊎ (hi ≤ p)) × NoneBetween lo hi ps

abbrev pub In : ℕ → List ℕ → Type 0
In x [] = ⊥
In x (p ∷ ps) = (x ≡ p) ⊎ In x ps

later : (p x : ℕ) (ps : List ℕ) → (x ≡ 0) ⊎ In x ps → (x ≡ 0) ⊎ In x (p ∷ ps)
later p x ps (inl e) = inl e
later p x ps (inr i) = inr (inr i)

NoneBetween-below :
    (lo hi bound : ℕ) (ps : List ℕ) → AllBelow bound ps → bound ≤ lo → NoneBetween lo hi ps
NoneBetween-below lo hi bound [] a h = tt
NoneBetween-below lo hi bound (p ∷ ps) a h =
    (inl (omega arith), NoneBetween-below lo hi p ps a.1 (omega arith))

plateau_here :
    (p : ℕ) (ps : List ℕ) (tot_len : ℕ) → ltb p tot_len ≡ true → plateau (p ∷ ps) tot_len ≡ p
unfolding plateau
plateau_here p ps tot_len e = rw e refl

plateau_next :
    (p : ℕ) (ps : List ℕ) (tot_len : ℕ)
    → ltb p tot_len ≡ false
    → plateau (p ∷ ps) tot_len ≡ plateau ps tot_len
unfolding plateau
plateau_next p ps tot_len e = rw e refl

-- The greatest plateau below a length, or 0 where there is none.
pub record IsPlateau (ps : List ℕ) (tot_len mtu : ℕ) : Type 0 where
  pub member : (mtu ≡ 0) ⊎ In mtu ps
  pub below : (mtu ≡ 0) ⊎ (mtu < tot_len)
  pub greatest : NoneBetween mtu tot_len ps

plateau-IsPlateau :
    (ps : List ℕ) (bound tot_len : ℕ)
    → AllBelow bound ps
    → IsPlateau ps tot_len (plateau ps tot_len)
plateau-IsPlateau [] bound tot_len a =
    unfold plateau in record { member = inl refl; below = inl refl; greatest = tt }
plateau-IsPlateau (p ∷ ps) bound tot_len a = elim (Bool-cases (ltb p tot_len)) [
  | inl e ↦ rw (plateau_here p ps tot_len e) (record {
    member = inr (inl refl);
    below = inr (ltb→lt p tot_len e);
    greatest = (inl (omega arith), NoneBetween-below p tot_len p ps a.1 (omega arith));
  })
  | inr e ↦
      let r = plateau-IsPlateau ps p tot_len a.1 in
      rw (plateau_next p ps tot_len e) (record {
        member = later p (plateau ps tot_len) ps r.member;
        below = r.below;
        greatest = (inr (ground arith), r.greatest);
      })
]

plateau-le : (ps : List ℕ) (bound tot_len : ℕ) → AllBelow bound ps → plateau ps tot_len ≤ bound
plateau-le [] bound tot_len a = unfold plateau in omega arith
plateau-le (p ∷ ps) bound tot_len a = elim (Bool-cases (ltb p tot_len)) [
  | inl e ↦ rw (plateau_here p ps tot_len e) (omega arith)
  | inr e ↦ rw (plateau_next p ps tot_len e) (omega (arith, plateau-le ps p tot_len a.1, a.0))
]

-- The MTU that the message tells, or the plateau where it tells none.
abbrev pub told : List ℕ → ℕ → ℕ → ℕ
told ps mtu tot_len = if mtu == 0 then plateau ps tot_len else mtu

nonzero : (n : ℕ) → (n == 0) ≡ false → 0 < n
nonzero n e = ground arith

-- What follows the loop.
smallest : ℕ → ℕ → ℕ → ℕ
smallest mtu m6 m4 =
    let result = min (add32 mtu 20) (min m6 (add32 m4 20)) in
    if ltb result ipv6_min_mtu then ipv6_min_mtu else result

smallest-eq :
    (mtu m6 m4 : ℕ)
    → mtu + 20 < 2 ^ 32
    → m4 + 20 < 2 ^ 32
    → smallest mtu m6 m4 ≡ max 1280 (min (mtu + 20) (min m6 (m4 + 20)))
unfolding smallest
smallest-eq mtu m6 m4 a b = ground arith

mtu6-smallest :
    (ps : List ℕ) (mtu m6 m4 tot_len : ℕ)
    → icmp6_minimum_mtu ps mtu m6 m4 tot_len ≡ smallest (told ps mtu tot_len) m6 m4
unfolding icmp6_minimum_mtu smallest
mtu6-smallest ps mtu m6 m4 tot_len = refl

-- The MTU of a translated Fragmentation Needed is, but not below 1280, the smallest of three: that
-- of the message plus 20, that of the IPv6 route, and that of the IPv4 device plus 20. Where the
-- message has an MTU of 0, the greatest configured plateau below the length of the packet stands in
-- for it, or 0 if there is none. Plateaus, in falling order, and the message's MTU have 16 bits; the
-- others have 32, with 20 to spare in that of the device.
pub compute_mtu6-min :
    (ps : List ℕ) (mtu m4 m6 tot_len : ℕ)
    → AllBelow 65536 ps
    → mtu < 65536
    → m4 + 20 < 2 ^ 32
    → (compute_mtu6 ps mtu (some m4) (some m6) tot_len
        ≡ max 1280 (min (told ps mtu tot_len + 20) (min m6 (m4 + 20))))
      × ((mtu ≢ 0) ⊎ IsPlateau ps tot_len (told ps mtu tot_len))
unfolding compute_mtu6
compute_mtu6-min ps mtu m4 m6 tot_len a w4 w = (
  mtu6-smallest ps mtu m6 m4 tot_len
      ∙ smallest-eq (told ps mtu tot_len) m6 m4 (ground (arith, plateau-le ps 65536 tot_len a)) w,
  elim (Bool-cases (mtu == 0)) [
    | inl z ↦ inr (rw z (plateau-IsPlateau ps 65536 tot_len a))
    | inr nz ↦ inl (λ (e : mtu ≡ 0). absurd (omega (arith, nonzero mtu nz)))
  ],
)

-- Where the incoming packet has no device, as the comment in `compute_mtu6` foresees, `INFINITE`
-- plus 20 wraps to 19: the MTU is 1280 whatever the message, the route and the plateaus say.
pub compute_mtu6-no_device :
    (ps : List ℕ) (mtu tot_len : ℕ) (out_dst : Option ℕ)
    → compute_mtu6 ps mtu none out_dst tot_len ≡ 1280
unfolding compute_mtu6
compute_mtu6-no_device ps mtu tot_len out_dst =
    mtu6-smallest ps mtu (mtu_of out_dst) infinite tot_len ∙ unfold smallest in ground arith
