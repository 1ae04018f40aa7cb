-- ===== src/Rfc7915/Extension/Bounds.antt =====
-- What `handle_icmp_extension` (mod/common/rfc7915/common.c) makes of a packet: its size, its
-- alignment, and the extension that it carries.
use jool.Prelude.{
  ℕ, zero, suc, ◌+◌, ◌-◌, ◌*◌, ◌/◌, ◌^◌, ◌≤◌, ◌<◌, ◌≡◌, refl, sym, ap, ◌∙◌, inl, inr, ◌⊎◌, Bool,
  true, false, ◌||◌, if◌then◌else◌, ltb, ◌==◌, Bool-cases, List, [], ◌∷◌, ◌++◌, length,
  length-append, take, drop, length-drop, length-take_le, arith,
}
use mathlib.Core.List.{append_assoc}
use jool.Rfc7915.Extension.{
  sub64, min, IcmpextArgs, Packets, Buffers, extended, zeros, fixed, fix_ie, in_iel, max_iel,
  removed_ipl, kept_ipl, kept_pad, handle_icmp_extension,
}

-- What the callers see to: the headers lie in the packets, the outgoing packet ends with the
-- extension of the incoming one, the maximum has room for headers and 128 bytes, and the outgoing
-- length counts units of 4 or 8 bytes. Lengths are far below 2 ^ 64.
pub record IsPrepared (p : Packets) (args : IcmpextArgs) : Type 0 where
  pub inc_bound : length p.inc < 2 ^ 32
  pub out_bound : length p.out < 2 ^ 32
  pub max_bound : args.max_pkt_len < 2 ^ 32
  pub inc_hdrs_fit : p.inc_hdrs ≤ length p.inc
  pub out_carries : p.out_hdrs + (length p.inc - (p.inc_hdrs + args.ipl)) ≤ length p.out
  pub room : p.out_hdrs + 128 ≤ args.max_pkt_len
  pub unit : (args.out_bits ≡ 2) ⊎ (args.out_bits ≡ 3)

-- The length of the extension.
abbrev pub extension_len : Packets → IcmpextArgs → ℕ
extension_len p args = length p.inc - (p.inc_hdrs + args.ipl)

-- The extension must go: it is asked for, or there is no room behind 128 bytes.
abbrev pub MustGo : Packets → IcmpextArgs → Type 0
MustGo p args =
    (args.force_remove_ie ≡ true) ⊎ (args.max_pkt_len < p.out_hdrs + 128 + extension_len p args)

-- All of the outgoing packet that stands before the extension, as far as the maximum reaches.
abbrev pub IsCut : Packets → IcmpextArgs → List ℕ → Type 0
IsCut p args new =
    (n : ℕ) × (new ≡ take n p.out)
    × (((n ≡ length p.out - extension_len p args) × (n ≤ args.max_pkt_len))
        ⊎ ((n ≡ args.max_pkt_len) × (n ≤ length p.out - extension_len p args)))

-- The outgoing packet, where the extension was removed or kept.
pub record IsExtended (p : Packets) (args : IcmpextArgs) (new : List ℕ) (ipl : ℕ) : Type 0 where
  pub fits : length new ≤ args.max_pkt_len
  pub same_headers : take p.out_hdrs new ≡ take p.out_hdrs p.out
  pub extension :
      ((ipl ≡ 0) × MustGo p args × IsCut p args new)
      ⊎ ((args.force_remove_ie ≡ false)
          × (p.out_hdrs + 128 + extension_len p args ≤ args.max_pkt_len)
          × (128 ≤ ipl * 2 ^ args.out_bits)
          × (drop (p.out_hdrs + ipl * 2 ^ args.out_bits) new ≡ drop (p.inc_hdrs + args.ipl) p.inc))

module _ {ℓ} {A : Type ℓ} where
  take-append_left : (xs ys : List A) → take (length xs) (xs ++ ys) ≡ xs
  unfolding take
  take-append_left [] ys = refl
  take-append_left (x ∷ xs) ys = ap (λ t. x ∷ t) (take-append_left xs ys)

  drop-append_left : (xs ys : List A) → drop (length xs) (xs ++ ys) ≡ ys
  unfolding drop
  drop-append_left [] ys = refl
  drop-append_left (x ∷ xs) ys = drop-append_left xs ys

  take_all : (n : ℕ) (xs : List A) → length xs ≤ n → take n xs ≡ xs
  unfolding take
  take_all zero [] h = refl
  take_all zero (x ∷ xs) h = absurd (omega arith)
  take_all (suc n) [] h = refl
  take_all (suc n) (x ∷ xs) h = ap (λ t. x ∷ t) (take_all n xs (omega arith))

take_nil : (m : ℕ) → take {A = ℕ} m [] ≡ []
unfolding take
take_nil zero = refl
take_nil (suc m) = refl

take_add : (n m : ℕ) (xs : List ℕ) → take n xs ++ take m (drop n xs) ≡ take (n + m) xs
unfolding take drop
take_add zero m xs = ap (λ k. take k xs) (omega arith)
take_add (suc n) m [] = take_nil m ∙ sym (take_nil (suc n + m))
take_add (suc n) m (x ∷ xs) =
    let e : suc n + m ≡ suc (n + m) = omega arith in
    ap (λ t. x ∷ t) (take_add n m xs) ∙ sym (ap (λ k. take k (x ∷ xs)) e)

append_nil : (xs : List ℕ) → xs ++ [] ≡ xs
append_nil [] = refl
append_nil (x ∷ xs) = ap (λ t. x ∷ t) (append_nil xs)

length-zeros : (n : ℕ) → length (zeros n) ≡ n
length-zeros zero = refl
length-zeros (suc n) = omega (arith, length-zeros n)

-- The lengths without the extension.
removed_numbers :
    (o m iel hdrs : ℕ)
    → o < 2 ^ 32
    → m < 2 ^ 32
    → hdrs + iel ≤ o
    → hdrs ≤ m
    → let n = sub64 (min (sub64 o iel) m) hdrs in (hdrs + n ≤ o) × (hdrs + n ≤ m)
removed_numbers o m iel hdrs bo bm c r = ground arith

removed_whole :
    (o m iel ext hdrs : ℕ)
    → o < 2 ^ 32
    → m < 2 ^ 32
    → iel ≡ ext
    → hdrs + iel ≤ o
    → hdrs ≤ m
    → let n = hdrs + sub64 (min (sub64 o iel) m) hdrs in
      ((n ≡ o - ext) × (n ≤ m)) ⊎ ((n ≡ m) × (n ≤ o - ext))
removed_whole o m iel ext hdrs bo bm e c r = ground arith

-- The lengths with it, in units of `2 ^ bits` bytes.
abbrev kept : ℕ → ℕ → ℕ → ℕ → ℕ → ℕ
kept o m iel hdrs bits = sub64 (sub64 (min o m) iel) hdrs / 2 ^ bits * 2 ^ bits

abbrev padding : ℕ → ℕ
padding n = if ltb n 128 then 128 - n else 0

record KeptNumbers (o m iel hdrs bits : ℕ) : Type 0 where
  inner : hdrs + kept o m iel hdrs bits ≤ o
  whole : hdrs + kept o m iel hdrs bits + padding (kept o m iel hdrs bits) + iel ≤ m
  enough : 128 ≤ kept o m iel hdrs bits + padding (kept o m iel hdrs bits)
  aligned :
      (kept o m iel hdrs bits + padding (kept o m iel hdrs bits)) / 2 ^ bits * 2 ^ bits
      ≡ kept o m iel hdrs bits + padding (kept o m iel hdrs bits)

kept_numbers :
    (o m iel hdrs bits : ℕ)
    → o < 2 ^ 32
    → m < 2 ^ 32
    → hdrs + iel ≤ o
    → hdrs + 128 + iel ≤ m
    → (bits ≡ 2) ⊎ (bits ≡ 3)
    → KeptNumbers o m iel hdrs bits
kept_numbers o m iel hdrs bits bo bm c r (inl e) = rw e (record {
  inner = ground arith;
  whole = ground arith;
  enough = ground arith;
  aligned = ground arith;
})
kept_numbers o m iel hdrs bits bo bm c r (inr e) = rw e (record {
  inner = ground arith;
  whole = ground arith;
  enough = ground arith;
  aligned = ground arith;
})

module _ (p : Packets) (args : IcmpextArgs) (h : IsPrepared p args) where
  -- The part of the inner packet has the length that is asked for.
  length-inner :
      (n : ℕ) → p.out_hdrs + n ≤ length p.out → length (take n (drop p.out_hdrs p.out)) ≡ n
  length-inner n e =
      length-take_le n (drop p.out_hdrs p.out) (omega (arith, length-drop p.out_hdrs p.out))

  length-headers : p.out_hdrs ≤ length p.out → length (take p.out_hdrs p.out) ≡ p.out_hdrs
  length-headers e = length-take_le p.out_hdrs p.out e

  fixed-headers :
      (off n pad iel : ℕ)
      → p.out_hdrs ≤ length p.out
      → take p.out_hdrs (fixed p off n pad iel) ≡ take p.out_hdrs p.out
  unfolding fixed
  fixed-headers off n pad iel e =
      let front = take p.out_hdrs p.out in
      let back : List ℕ =
        take n (drop p.out_hdrs p.out)
        ++ (if iel == 0 then [] else zeros pad ++ take iel (drop off p.inc)) in
      ap (λ (m : ℕ). take m (front ++ back)) (sym (length-headers e)) ∙ take-append_left front back

  length-fixed :
      (off n pad iel : ℕ)
      → p.out_hdrs + n ≤ length p.out
      → off + iel ≤ length p.inc
      → length (fixed p off n pad iel) ≡ p.out_hdrs + (n + (if iel == 0 then 0 else pad + iel))
  unfolding fixed
  length-fixed off n pad iel e l =
      let hd = take p.out_hdrs p.out in
      let inner = take n (drop p.out_hdrs p.out) in
      let tail = take iel (drop off p.inc) in
      let lh = length-headers (omega arith) in
      let li = length-inner n e in
      elim (Bool-cases (iel == 0)) [
        | inl none ↦
            rw none (
              omega (arith, lh, li, length-append hd (inner ++ []), length-append {A = ℕ} inner []))
        | inr some ↦ rw some (
            omega (
              arith,
              lh,
              li,
              length-append hd (inner ++ (zeros pad ++ tail)),
              length-append inner (zeros pad ++ tail),
              length-append (zeros pad) tail,
              length-zeros pad,
              length-take_le iel (drop off p.inc) (omega (arith, length-drop off p.inc)),
            ))
      ]

  fixed-extension :
      (off n pad iel : ℕ)
      → p.out_hdrs + n ≤ length p.out
      → off + iel ≡ length p.inc
      → 0 < iel
      → drop (p.out_hdrs + (n + pad)) (fixed p off n pad iel) ≡ drop off p.inc
  unfolding fixed
  fixed-extension off n pad iel e l z =
      let hd = take p.out_hdrs p.out in
      let inner = take n (drop p.out_hdrs p.out) in
      let front = hd ++ (inner ++ zeros pad) in
      let tail = take iel (drop off p.inc) in
      let some : (iel == 0) ≡ false = ground arith in
      let joined : hd ++ (inner ++ (zeros pad ++ tail)) ≡ front ++ tail =
        ap (λ (t : List ℕ). hd ++ t) (sym (append_assoc inner (zeros pad) tail))
        ∙ sym (append_assoc hd (inner ++ zeros pad) tail) in
      let long : p.out_hdrs + (n + pad) ≡ length front = omega (
        arith,
        length-headers (omega arith),
        length-inner n e,
        length-append hd (inner ++ zeros pad),
        length-append inner (zeros pad),
        length-zeros pad,
      ) in
      rw (some, joined, long) (drop-append_left front tail)
      ∙ take_all iel (drop off p.inc) (omega (arith, length-drop off p.inc))

  module _ (fit : p.inc_hdrs + args.ipl ≤ length p.inc) where
    in_iel-eq : in_iel p args ≡ length p.inc - (p.inc_hdrs + args.ipl)
    in_iel-eq = omega (arith, h.inc_bound)

    in_iel-carried : p.out_hdrs + in_iel p args ≤ length p.out
    in_iel-carried = omega (arith, in_iel-eq, h.out_carries)

    -- The headers and the part of the inner packet are a part of the outgoing packet.
    removed-IsCut : IsCut p args (fixed p (p.inc_hdrs + args.ipl) (removed_ipl p args) 0 0)
    unfolding fixed
    removed-IsCut = (
      p.out_hdrs + removed_ipl p args,
      ap (λ xs. take p.out_hdrs p.out ++ xs)
            (append_nil (take (removed_ipl p args) (drop p.out_hdrs p.out)))
          ∙ take_add p.out_hdrs (removed_ipl p args) p.out,
      removed_whole (length p.out) args.max_pkt_len (in_iel p args) (extension_len p args)
          p.out_hdrs h.out_bound h.max_bound in_iel-eq in_iel-carried (omega (arith, h.room)),
    )

    removed-IsExtended :
        MustGo p args
        → IsExtended p args (fixed p (p.inc_hdrs + args.ipl) (removed_ipl p args) 0 0) 0
    removed-IsExtended go =
        let n =
          removed_numbers (length p.out) args.max_pkt_len (in_iel p args) p.out_hdrs h.out_bound
            h.max_bound in_iel-carried (omega (arith, h.room)) in
        record {
          fits = omega (
            arith,
            length-fixed (p.inc_hdrs + args.ipl) (removed_ipl p args) 0 0 n.0 (omega arith),
          );
          same_headers =
              fixed-headers (p.inc_hdrs + args.ipl) (removed_ipl p args) 0 0
                (omega (arith, in_iel-carried));
          extension = inl (refl, go, removed-IsCut);
        }

    kept-IsExtended :
        args.force_remove_ie ≡ false
        → 0 < in_iel p args
        → p.out_hdrs + 128 + in_iel p args ≤ args.max_pkt_len
        → IsExtended p args
            (fixed p (p.inc_hdrs + args.ipl) (kept_ipl p args) (kept_pad p args) (in_iel p args))
            ((kept_ipl p args + kept_pad p args) / 2 ^ args.out_bits)
    kept-IsExtended keep pos r =
        let k =
          kept_numbers (length p.out) args.max_pkt_len (in_iel p args) p.out_hdrs args.out_bits
            h.out_bound h.max_bound in_iel-carried r h.unit in
        record {
          fits = ground (
            arith,
            in_iel-eq,
            length-fixed (p.inc_hdrs + args.ipl) (kept_ipl p args) (kept_pad p args) (in_iel p args)
                k.inner (omega (arith, in_iel-eq)),
            k.whole,
          );
          same_headers =
              fixed-headers (p.inc_hdrs + args.ipl) (kept_ipl p args) (kept_pad p args)
                (in_iel p args) (omega (arith, in_iel-carried));
          extension = inr (
            keep,
            omega (arith, r, in_iel-eq),
            rw k.aligned k.enough,
            rw k.aligned (
                fixed-extension (p.inc_hdrs + args.ipl) (kept_ipl p args) (kept_pad p args)
                  (in_iel p args) k.inner (omega (arith, in_iel-eq)) pos),
          );
        }

-- The length field is 0, or counts the whole payload.
abbrev pub HasNone : Packets → IcmpextArgs → Type 0
HasNone p args = (args.ipl ≡ 0) ⊎ (p.inc_hdrs + args.ipl ≡ length p.inc)

-- What `handle_icmp_extension` leaves: the packet as it was, with a length of 0, where there is no
-- extension; else a new one.
abbrev pub Outcome : Packets → IcmpextArgs → List ℕ → ℕ → Type 0
Outcome p args new ipl =
    (HasNone p args × (new ≡ p.out) × (ipl ≡ 0))
    ⊎ ((0 < args.ipl) × (0 < extension_len p args) × IsExtended p args new ipl)

ends :
    (buf : Buffers) (p : Packets) (args : IcmpextArgs) (off n pad iel ipl : ℕ)
    → buf.alloc ≡ true
    → buf.copy ≡ true
    → 0 < args.ipl
    → 0 < extension_len p args
    → IsExtended p args (fixed p off n pad iel) ipl
    → (new : List ℕ) × (ipl' : ℕ) × (fix_ie buf p off n pad iel ipl ≡ extended new ipl')
      × Outcome p args new ipl'
ends buf p args off n pad iel ipl a c z e h =
    (fixed p off n pad iel, ipl, unfold fix_ie in rw (a, c), inr (z, e, h))

or_false : (a : Bool) {b : Bool} → a || b ≡ false → b ≡ false
or_false false e = e
or_false true e = cc

or_left : (a b : Bool) → a || b ≡ false → a ≡ false
or_left false b e = refl
or_left true b e = absurd (cc e)

whole_payload :
    (p : Packets) (args : IcmpextArgs)
    → IsPrepared p args
    → sub64 (length p.inc) p.inc_hdrs ≡ length p.inc - p.inc_hdrs
    → (args.ipl == sub64 (length p.inc) p.inc_hdrs) ≡ true
    → p.inc_hdrs + args.ipl ≡ length p.inc
whole_payload p args h payload e =
    let same : (args.ipl == (length p.inc - p.inc_hdrs)) ≡ true = rw payload at e in
    ground (arith, same, h.inc_hdrs_fit)

must_go :
    (p : Packets) (args : IcmpextArgs)
    → IsPrepared p args
    → p.inc_hdrs + args.ipl ≤ length p.inc
    → args.force_remove_ie || ltb (max_iel p args) (in_iel p args) ≡ true
    → MustGo p args
must_go p args h fit e =
    let m : max_iel p args ≡ args.max_pkt_len - (p.out_hdrs + 128) =
      omega (arith, h.room, h.max_bound) in
    let l : args.force_remove_ie || ltb (args.max_pkt_len - (p.out_hdrs + 128)) (in_iel p args)
        ≡ true =
      rw m at e in
    let i = in_iel-eq p args h fit in ground (arith, l, i, h.room)

extension_pos :
    (p : Packets) (args : IcmpextArgs)
    → IsPrepared p args
    → p.inc_hdrs + args.ipl ≤ length p.inc
    → (args.ipl == sub64 (length p.inc) p.inc_hdrs) ≡ false
    → 0 < in_iel p args
extension_pos p args h fit e =
    let payload : sub64 (length p.inc) p.inc_hdrs ≡ length p.inc - p.inc_hdrs =
      omega (arith, h.inc_bound) in
    let differ : (args.ipl == (length p.inc - p.inc_hdrs)) ≡ false = rw payload at e in
    ground (arith, in_iel-eq p args h fit, differ)

extension_fits :
    (p : Packets) (args : IcmpextArgs)
    → IsPrepared p args
    → p.inc_hdrs + args.ipl ≤ length p.inc
    → ltb (max_iel p args) (in_iel p args) ≡ false
    → p.out_hdrs + 128 + in_iel p args ≤ args.max_pkt_len
extension_fits p args h fit e =
    let m : max_iel p args ≡ args.max_pkt_len - (p.out_hdrs + 128) =
      omega (arith, h.room, h.max_bound) in
    let l : ltb (args.max_pkt_len - (p.out_hdrs + 128)) (in_iel p args) ≡ false = rw m at e in
    ground (arith, l, h.room)

-- With memory, and an extension that starts inside the incoming packet or at its end,
-- `handle_icmp_extension` succeeds. If there is no extension, since the length field is 0 or counts
-- the whole payload, the outgoing packet stays as it is, with a length field of 0. Else the new packet
-- is not longer than the maximum and its headers are the same; and exactly if the removal is asked
-- for, or headers, 128 bytes and extension exceed the maximum, the extension is gone, with a length
-- field of 0, and the packet is the outgoing one without it, cut at the maximum; otherwise it is there
-- whole at the end of the packet, at least 128 bytes behind the headers, exactly where the length
-- field says. This asks that the headers lie in the packets, that the
-- outgoing packet has the bytes of the extension, that the maximum has room for headers and 128
-- bytes, that lengths are below 2 ^ 32, and that the length field counts units of 4 or 8 bytes.
pub handle_icmp_extension-IsExtended :
    (buf : Buffers) (p : Packets) (args : IcmpextArgs)
    → IsPrepared p args
    → buf.alloc ≡ true
    → buf.copy ≡ true
    → p.inc_hdrs + args.ipl ≤ length p.inc
    → (new : List ℕ) × (ipl : ℕ) × (handle_icmp_extension buf p args ≡ extended new ipl)
      × Outcome p args new ipl
unfolding handle_icmp_extension
handle_icmp_extension-IsExtended buf p args h a c fit =
    let payload : sub64 (length p.inc) p.inc_hdrs ≡ length p.inc - p.inc_hdrs =
      omega (arith, h.inc_bound) in
    elim (Bool-cases (args.ipl == 0)) [
      | inl z ↦ (p.out, 0, rw z, inl (inl (ground arith), refl, refl))
      | inr nz ↦ elim (Bool-cases (args.ipl == sub64 (length p.inc) p.inc_hdrs)) [
        | inl w ↦ (p.out, 0, rw (nz, w), inl (inr (whole_payload p args h payload w), refl, refl))
        | inr nw ↦
            let small : ltb (sub64 (length p.inc) p.inc_hdrs) args.ipl ≡ false =
              ground (arith, payload) in
            let some : 0 < args.ipl = ground arith in
            let pos = extension_pos p args h fit nw in
            let ext : 0 < extension_len p args = omega (arith, pos, in_iel-eq p args h fit) in
            elim (Bool-cases (args.force_remove_ie || ltb (max_iel p args) (in_iel p args))) [
              | inl r ↦
                  rw (nz, nw, small, r)
                    (ends buf p args (p.inc_hdrs + args.ipl) (removed_ipl p args) 0 0 0 a c some ext
                      (removed-IsExtended p args h fit (must_go p args h fit r)))
              | inr k ↦
                  rw (nz, nw, small, k)
                    (ends buf p args (p.inc_hdrs + args.ipl) (kept_ipl p args) (kept_pad p args)
                      (in_iel p args) ((kept_ipl p args + kept_pad p args) / 2 ^ args.out_bits) a c
                      some ext
                      (kept-IsExtended p args h fit
                        (or_left args.force_remove_ie (ltb (max_iel p args) (in_iel p args)) k) pos
                        (extension_fits p args h fit (or_false args.force_remove_ie k))))
            ]
      ]
    ]
