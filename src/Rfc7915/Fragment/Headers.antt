-- ===== src/Rfc7915/Fragment/Headers.antt =====
-- The fragment headers of the slow path (mod/common/rfc7915/4to6.c): a receiver finds the
-- fragments one behind the other, and the last one told apart.
use jool.Prelude.{
  ℕ, ◌+◌, ◌%◌, ◌^◌, ◌≤◌, ◌<◌, ◌≡◌, refl, sym, ap, ◌∙◌, Bool, true, false, if◌then◌else◌, List, [],
  ◌∷◌, ◌++◌, length, length-append, arith,
}
use jool.Rfc7915.FragField.{
  build_ipv6_frag_off_field, get_fragment_offset_ipv6, is_mf_set_ipv6, get_fragment_offset_ipv4,
  is_mf_set_ipv4, get_offset-build6, is_mf_set-build6,
}
use jool.Rfc7915.Fragment.{
  fragments, payload_per_frag, allocate_slow, Fragment6, fragment6, autofill_next, autofill_hdr6,
}
use jool.Rfc7915.Fragment.Cover.{concat, IsSliced, allocate_slow-Slices}

-- The bytes of all the fragments.
abbrev pub payload_of : List Fragment6 → List ℕ
payload_of [] = []
payload_of (f ∷ fs) = f.bytes ++ payload_of fs

-- The fragments from a byte offset on: each stands where the one before it ends, at a multiple of
-- 8, and all but the last have the flag MF; the last has the given one. Each fits in `mpl` bytes,
-- with its IPv6 header, and its payload length is that of the fragment header and the bytes.
abbrev pub Fits : ℕ → Fragment6 → Type 0
Fits mpl f = (f.payload_len ≡ 8 + length f.bytes) × (40 + f.payload_len ≤ mpl)

abbrev pub Stands : ℕ → Bool → Fragment6 → Type 0
Stands offset mf f =
    (get_fragment_offset_ipv6 f.frag_off ≡ offset) × (is_mf_set_ipv6 f.frag_off ≡ mf)

abbrev pub Reassembles : ℕ → ℕ → Bool → List Fragment6 → Type 0
Reassembles mpl offset mf [] = ⊥
Reassembles mpl offset mf (f ∷ []) = Stands offset mf f × Fits mpl f
Reassembles mpl offset mf (f ∷ g ∷ fs) =
    Stands offset true f
    × Fits mpl f
    × (length f.bytes % 8 ≡ 0)
    × Reassembles mpl (offset + length f.bytes) mf (g ∷ fs)

-- The largest fragment fits.
fragment6-Fits :
    (mpl frag_off : ℕ) (b : List ℕ)
    → 56 ≤ mpl
    → mpl < 2 ^ 16
    → length b ≤ payload_per_frag mpl
    → Fits mpl (fragment6 frag_off b)
unfolding payload_per_frag
fragment6-Fits mpl frag_off b lo hi h = omega arith

build6-Stands :
    (offset : ℕ) (mf : Bool) (b : List ℕ)
    → offset < 2 ^ 16
    → offset % 8 ≡ 0
    → Stands offset mf (fragment6 (build_ipv6_frag_off_field offset mf) b)
build6-Stands offset mf b h m = (get_offset-build6 offset mf h m, is_mf_set-build6 offset mf)

per-mod : (mpl : ℕ) → payload_per_frag mpl % 8 ≡ 0
unfolding payload_per_frag
per-mod mpl = omega arith

module _ (mpl : ℕ) (lo : 56 ≤ mpl) (hi : mpl < 2 ^ 16) where
  -- A fragment before others that reassemble.
  behind :
      (offset : ℕ) (mf : Bool) (b c : List ℕ) (bs : List (List ℕ)) (frag_off : ℕ)
      → Stands offset true (fragment6 frag_off b)
      → IsSliced (payload_per_frag mpl) (b ∷ c ∷ bs)
      → Reassembles mpl
          (offset + length b)
          mf
          (autofill_next ((offset + length b) % 2 ^ 16) mf (c ∷ bs))
      → Reassembles mpl offset mf
          (fragment6 frag_off b ∷ autofill_next ((offset + length b) % 2 ^ 16) mf (c ∷ bs))
  unfolding autofill_next
  behind offset mf b c [] frag_off st s r = (
    st,
    fragment6-Fits mpl frag_off b lo hi (omega (arith, s.0)),
    omega (arith, s.0, per-mod mpl),
    r,
  )
  behind offset mf b c (d ∷ bs) frag_off st s r = (
    st,
    fragment6-Fits mpl frag_off b lo hi (omega (arith, s.0)),
    omega (arith, s.0, per-mod mpl),
    r,
  )

  autofill_next-Reassembles :
      (offset : ℕ) (mf : Bool) (b : List ℕ) (bs : List (List ℕ))
      → IsSliced (payload_per_frag mpl) (b ∷ bs)
      → offset % 8 ≡ 0
      → offset + length (concat (b ∷ bs)) < 2 ^ 16
      → Reassembles mpl offset mf (autofill_next offset mf (b ∷ bs))
  unfolding autofill_next
  autofill_next-Reassembles offset mf b [] s m w = (
    build6-Stands offset mf b (omega arith) m,
    fragment6-Fits mpl (build_ipv6_frag_off_field offset mf) b lo hi s.1,
  )
  autofill_next-Reassembles offset mf b (c ∷ bs) s m w =
      let l = length-append b (concat (c ∷ bs)) in
      let k = per-mod mpl in
      let e : (offset + length b) % 2 ^ 16 ≡ offset + length b = omega arith in
      let ih =
        autofill_next-Reassembles (offset + length b) mf c bs s.1 (omega arith) (omega arith) in
      behind offset mf b c bs (build_ipv6_frag_off_field offset true)
        (build6-Stands offset true b (omega arith) m) s (rw e ih)

  payload_of-autofill_next :
      (offset : ℕ) (mf : Bool) (bs : List (List ℕ))
      → payload_of (autofill_next offset mf bs) ≡ concat bs
  unfolding autofill_next
  payload_of-autofill_next offset mf [] = refl
  payload_of-autofill_next offset mf (b ∷ []) = refl
  payload_of-autofill_next offset mf (b ∷ c ∷ bs) =
      ap (λ (t : List ℕ). b ++ t)
        (payload_of-autofill_next ((offset + length b) % 2 ^ 16) mf (c ∷ bs))

-- The field that `ttcp46_ipv6_common` writes into the first fragment header.
abbrev pub first_frag_off : ℕ → ℕ
first_frag_off frag_off4 =
    build_ipv6_frag_off_field (get_fragment_offset_ipv4 frag_off4) (is_mf_set_ipv4 frag_off4)

autofill_hdr6-cons :
    (field : ℕ) (b c : List ℕ) (bs : List (List ℕ))
    → autofill_hdr6 field (b ∷ c ∷ bs)
      ≡ fragment6 (if is_mf_set_ipv6 field then field else field + 1) b
        ∷ autofill_next
            ((get_fragment_offset_ipv6 field + length b) % 2 ^ 16)
            (is_mf_set_ipv6 field)
            (c ∷ bs)
unfolding autofill_hdr6
autofill_hdr6-cons field b c bs = refl

module _ (mpl : ℕ) (lo : 56 ≤ mpl) (hi : mpl < 2 ^ 16) where
  -- The first header, once `IP6_MF` is set in it.
  first-Stands :
      (offset : ℕ) (mf : Bool) (b : List ℕ)
      → offset < 2 ^ 16
      → offset % 8 ≡ 0
      → Stands offset true (
          fragment6
            (if mf
              then build_ipv6_frag_off_field offset mf
              else build_ipv6_frag_off_field offset mf + 1)
            b)
  unfolding get_fragment_offset_ipv6 build_ipv6_frag_off_field is_mf_set_ipv6
  first-Stands offset true b h m = ground arith
  first-Stands offset false b h m = ground arith

  autofill_hdr6-Reassembles :
      (offset : ℕ) (mf : Bool) (b : List ℕ) (bs : List (List ℕ))
      → IsSliced (payload_per_frag mpl) (b ∷ bs)
      → offset % 8 ≡ 0
      → offset + length (concat (b ∷ bs)) < 2 ^ 16
      → let fs = autofill_hdr6 (build_ipv6_frag_off_field offset mf) (b ∷ bs) in
        Reassembles mpl offset mf fs × (payload_of fs ≡ concat (b ∷ bs))
  autofill_hdr6-Reassembles offset mf b [] s m w =
      unfold autofill_hdr6 in
      (
        (
          build6-Stands offset mf b (omega arith) m,
          fragment6-Fits mpl (build_ipv6_frag_off_field offset mf) b lo hi s.1,
        ),
        refl,
      )
  autofill_hdr6-Reassembles offset mf b (c ∷ bs) s m w =
      let l = length-append b (concat (c ∷ bs)) in
      let k = per-mod mpl in
      let field = build_ipv6_frag_off_field offset mf in
      let field' = if mf then field else field + 1 in
      let e : (offset + length b) % 2 ^ 16 ≡ offset + length b = omega arith in
      let r =
        autofill_next-Reassembles mpl lo hi (offset + length b) mf c bs s.1 (omega arith)
          (omega arith) in
      let h = first-Stands offset mf b (omega arith) m in
      rw
        (
          autofill_hdr6-cons field b c bs,
          get_offset-build6 offset mf (omega arith) m,
          is_mf_set-build6 offset mf,
        )
        (
          behind mpl lo hi offset mf b c bs field' h s (rw e r),
          ap (λ (t : List ℕ). b ++ t)
              (payload_of-autofill_next mpl lo hi ((offset + length b) % 2 ^ 16) mf (c ∷ bs)),
        )

  pieces-Reassemble :
      (offset : ℕ) (mf : Bool) (payload : List ℕ) (bs : List (List ℕ))
      → concat bs ≡ payload
      → IsSliced (payload_per_frag mpl) bs
      → 0 < length payload
      → offset % 8 ≡ 0
      → offset + length payload < 2 ^ 16
      → let fs = autofill_hdr6 (build_ipv6_frag_off_field offset mf) bs in
        Reassembles mpl offset mf fs × (payload_of fs ≡ payload)
  pieces-Reassemble offset mf payload [] e s n m w =
      let z : length payload ≡ 0 = ap length (sym e) in absurd (omega arith)
  pieces-Reassemble offset mf payload (b ∷ bs) e s n m w =
      let l = ap length e in
      let r = autofill_hdr6-Reassembles offset mf b bs s m (omega arith) in (r.0, r.1 ∙ e)

-- An IPv4 packet, or fragment, whose end lies below 2 ^ 16 is cut into IPv6 packets that a receiver
-- puts together: if the smaller MTU is from 56 to 65535, every allocation succeeds and the payload
-- is not empty, then the loop ends in fragments; their bytes are the payload, in order; the first
-- stands at the offset of the IPv4 packet and each other one where its predecessor ends, at a
-- multiple of 8; all but the last have MF, and the last has it exactly if the IPv4 packet has; and
-- each, with its two headers, fits in the MTU and tells its length.
pub slow_path-Reassembles :
    (alloc : ℕ → Bool) (mpl frag_off4 : ℕ) (payload : List ℕ)
    → 56 ≤ mpl
    → mpl < 2 ^ 16
    → ((c : ℕ) → alloc c ≡ true)
    → 0 < length payload
    → get_fragment_offset_ipv4 frag_off4 + length payload < 2 ^ 16
    → (bs : List (List ℕ)) × (allocate_slow alloc mpl payload ≡ fragments bs)
      × Reassembles mpl
          (get_fragment_offset_ipv4 frag_off4)
          (is_mf_set_ipv4 frag_off4)
          (autofill_hdr6 (first_frag_off frag_off4) bs)
      × (payload_of (autofill_hdr6 (first_frag_off frag_off4) bs) ≡ payload)
slow_path-Reassembles alloc mpl frag_off4 payload lo hi a n w =
    let s = allocate_slow-Slices alloc mpl payload lo (omega arith) a in
    let r =
      pieces-Reassemble mpl lo hi (get_fragment_offset_ipv4 frag_off4) (is_mf_set_ipv4 frag_off4)
        payload s.bs s.all s.sliced n (unfold get_fragment_offset_ipv4 in omega arith) w in
    (s.bs, s.is, r.0, r.1)
