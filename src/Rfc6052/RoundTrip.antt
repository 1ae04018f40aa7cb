-- ===== src/Rfc6052/RoundTrip.antt =====
-- The two translations of mod/common/rfc6052.c undo one another.
use jool.Prelude.{ℕ, zero, suc, ◌*◌, ◌≤◌, ◌≡◌, ◌≢◌, ◌↔◌, ◌⊎◌, Bool, true, List, [], ◌∷◌, arith}
use jool.Types.{InAddr, In6Addr, Ipv6Prefix, ok, err, einval}
use jool.Rfc6052.{rfc6052_4to6, rfc6052_6to4, be_bytes}

-- The bytes of an address from the `n`th on are left out of the comparison.
abbrev pub SameBytes : ℕ → List ℕ → List ℕ → Type 0
SameBytes zero xs ys = Unit
SameBytes (suc n) [] ys = Unit
SameBytes (suc n) (x ∷ xs) [] = Unit
SameBytes (suc n) (x ∷ xs) (y ∷ ys) = (x ≡ y) × SameBytes n xs ys

abbrev pub bytes : In6Addr → List ℕ
bytes a =
    a.w0.b0 ∷ a.w0.b1 ∷ a.w0.b2 ∷ a.w0.b3 ∷ a.w1.b0 ∷ a.w1.b1 ∷ a.w1.b2 ∷ a.w1.b3 ∷ a.w2.b0
    ∷ a.w2.b1 ∷ a.w2.b2 ∷ a.w2.b3 ∷ a.w3.b0 ∷ a.w3.b1 ∷ a.w3.b2 ∷ a.w3.b3 ∷ []

-- What the kernel documents of `ipv6_prefix_equal`, at lengths that are whole bytes: it compares
-- the first `len` bits.
abbrev pub ComparesPrefix : (In6Addr → In6Addr → ℕ → Bool) → Type 0
ComparesPrefix f =
    (n : ℕ) → n ≤ 16 → (p a : In6Addr) → (f p a (8 * n) ≡ true) ↔ SameBytes n (bytes p) (bytes a)

-- The lengths that RFC 6052 defines.
abbrev pub IsLegalLen : ℕ → Type 0
IsLegalLen n = (n ≡ 32) ⊎ (n ≡ 40) ⊎ (n ≡ 48) ⊎ (n ≡ 56) ⊎ (n ≡ 64) ⊎ (n ≡ 96)

-- The bytes of `a` that a prefix of this length leaves to neither the prefix nor the IPv4 address
-- are zero.
abbrev pub HasZeroSuffix : ℕ → In6Addr → Type 0
HasZeroSuffix n a =
    ((n ≡ 32) → (a.w2 ≡ be_bytes 0 0 0 0) × (a.w3 ≡ be_bytes 0 0 0 0))
    × ((n ≡ 40) → (a.w2 ≡ be_bytes 0 a.w2.b1 0 0) × (a.w3 ≡ be_bytes 0 0 0 0))
    × ((n ≡ 48) → (a.w2 ≡ be_bytes 0 a.w2.b1 a.w2.b2 0) × (a.w3 ≡ be_bytes 0 0 0 0))
    × ((n ≡ 56) → (a.w2.b0 ≡ 0) × (a.w3 ≡ be_bytes 0 0 0 0))
    × ((n ≡ 64) → (a.w2.b0 ≡ 0) × (a.w3 ≡ be_bytes a.w3.b0 0 0 0))

-- The prefix translates addresses exactly when its length is one that RFC 6052 defines.
pub rfc6052_4to6-IsLegalLen :
    (p : Ipv6Prefix) (s : InAddr) → IsLegalLen p.len ↔ (rfc6052_4to6 p s ≢ err einval)
unfolding rfc6052_4to6
rfc6052_4to6-IsLegalLen p s = ground arith

module _ (f : In6Addr → In6Addr → ℕ → Bool) (law : ComparesPrefix f) where
  -- What is embedded under a prefix is extracted again, where `ipv6_prefix_equal` compares prefixes.
  pub rfc6052_6to4-4to6 :
      (p : Ipv6Prefix) (s : InAddr) (a : In6Addr)
      → rfc6052_4to6 p s ≡ ok a
      → rfc6052_6to4 f p a ≡ ok s
  unfolding rfc6052_4to6 rfc6052_6to4
  rfc6052_6to4-4to6 p s a h = ground (
    arith,
    law 4 (omega arith) p.addr a,
    law 5 (omega arith) p.addr a,
    law 6 (omega arith) p.addr a,
    law 7 (omega arith) p.addr a,
    law 8 (omega arith) p.addr a,
    law 12 (omega arith) p.addr a,
  )

  -- An address under the prefix whose unused bytes are zero comes back whole.
  pub rfc6052_4to6-6to4 :
      (p : Ipv6Prefix) (a : In6Addr) (s : InAddr)
      → HasZeroSuffix p.len a
      → rfc6052_6to4 f p a ≡ ok s
      → rfc6052_4to6 p s ≡ ok a
  unfolding rfc6052_4to6 rfc6052_6to4
  rfc6052_4to6-6to4 p a s z h = ground (
    arith,
    law 4 (omega arith) p.addr a,
    law 5 (omega arith) p.addr a,
    law 6 (omega arith) p.addr a,
    law 7 (omega arith) p.addr a,
    law 8 (omega arith) p.addr a,
    law 12 (omega arith) p.addr a,
  )
