-- ===== src/Tests/Addresses.antt =====
-- Tests of addresses, prefixes and RFC 6052.
use jool.Prelude.{
  ℕ, zero, suc, ◌*◌, ◌/◌, ◌≡◌, ◌↔◌, refl, Bool, true, ◌==◌, ◌&&◌, List, [], ◌∷◌, arith,
}
use jool.Types.{In6Addr, ok}
use jool.Rfc6052.{rfc6052_4to6, rfc6052_6to4}
use jool.Rfc6052.RoundTrip.{ComparesPrefix, bytes, SameBytes, rfc6052_6to4-4to6, rfc6052_4to6-6to4}
use jool.Tests.Fixtures.{well_known, peer, peer6}

-- A comparison of whole bytes.
abbrev same_bytes : ℕ → List ℕ → List ℕ → Bool
same_bytes zero xs ys = true
same_bytes (suc n) [] ys = true
same_bytes (suc n) (x ∷ xs) [] = true
same_bytes (suc n) (x ∷ xs) (y ∷ ys) = (x == y) && same_bytes n xs ys

abbrev pub prefix_equal : In6Addr → In6Addr → ℕ → Bool
prefix_equal p a len = same_bytes (len / 8) (bytes p) (bytes a)

same_bytes_iff : (n : ℕ) (xs ys : List ℕ) → (same_bytes n xs ys ≡ true) ↔ SameBytes n xs ys
same_bytes_iff zero xs ys = ground arith
same_bytes_iff (suc n) [] ys = ground arith
same_bytes_iff (suc n) (x ∷ xs) [] = ground arith
same_bytes_iff (suc n) (x ∷ xs) (y ∷ ys) = ground (arith, same_bytes_iff n xs ys)

eighth : (n : ℕ) → (8 * n) / 8 ≡ n
eighth n = omega arith

pub prefix_equal-ComparesPrefix : ComparesPrefix prefix_equal
prefix_equal-ComparesPrefix n h p a = rw (eighth n) (same_bytes_iff n (bytes p) (bytes a))

embeds : rfc6052_4to6 well_known peer ≡ ok peer6
unfolding rfc6052_4to6
embeds = refl

rfc6052_6to4-4to6_example : rfc6052_6to4 prefix_equal well_known peer6 ≡ ok peer
rfc6052_6to4-4to6_example =
    rfc6052_6to4-4to6 prefix_equal prefix_equal-ComparesPrefix well_known peer peer6 embeds

extracts : rfc6052_6to4 prefix_equal well_known peer6 ≡ ok peer
unfolding rfc6052_6to4
extracts = refl

rfc6052_4to6-6to4_example : rfc6052_4to6 well_known peer ≡ ok peer6
rfc6052_4to6-6to4_example =
    rfc6052_4to6-6to4 prefix_equal prefix_equal-ComparesPrefix well_known peer6 peer (ground arith)
      extracts
