-- ===== src/Rfc7915/Icmp/RoundTrip.antt =====
-- What is left of an ICMP message after it has crossed a translator three times
-- (mod/common/rfc7915): the two translations of types, codes and pointers fit together.
use jool.Prelude.{ℕ, ◌≡◌, Option, none, some, arith}
use jool.Rfc7915.Icmp.{
  IcmpType, xlat64_icmp_type, xlat46_icmp_type, icmp6_to_icmp4_param_prob_ptr, param_prob_ptr46,
}

abbrev pub bind {ℓ κ} : {A : Type ℓ} {B : Type κ} → Option A → (A → Option B) → Option B
bind none f = none
bind (some a) f = f a

-- A message that is translated, translated back and translated again.
unfoldable pub there_back_there46 : ℕ → ℕ → Option IcmpType
there_back_there46 type code =
    bind (xlat46_icmp_type type code)
      (λ t. bind (xlat64_icmp_type t.type t.code) (λ u. xlat46_icmp_type u.type u.code))

unfoldable pub there_back_there64 : ℕ → ℕ → Option IcmpType
there_back_there64 type code =
    bind (xlat64_icmp_type type code)
      (λ t. bind (xlat46_icmp_type t.type t.code) (λ u. xlat64_icmp_type u.type u.code))

pub there_back_there46-eq :
    (type code : ℕ) → there_back_there46 type code ≡ xlat46_icmp_type type code
unfolding there_back_there46 xlat46_icmp_type xlat64_icmp_type
there_back_there46-eq type code = ground arith

pub there_back_there64-eq :
    (type code : ℕ) → there_back_there64 type code ≡ xlat64_icmp_type type code
unfolding there_back_there64 xlat46_icmp_type xlat64_icmp_type
there_back_there64-eq type code = ground arith

pub pointer46-eq :
    (ptr : ℕ)
    → bind (bind (param_prob_ptr46 ptr) icmp6_to_icmp4_param_prob_ptr) param_prob_ptr46
      ≡ param_prob_ptr46 ptr
unfolding param_prob_ptr46 icmp6_to_icmp4_param_prob_ptr
pointer46-eq ptr = ground arith

pub pointer64-eq :
    (ptr : ℕ)
    → bind (bind (icmp6_to_icmp4_param_prob_ptr ptr) param_prob_ptr46) icmp6_to_icmp4_param_prob_ptr
      ≡ icmp6_to_icmp4_param_prob_ptr ptr
unfolding param_prob_ptr46 icmp6_to_icmp4_param_prob_ptr
pointer64-eq ptr = ground arith

-- An ICMP message that crosses a translator three times arrives as after the first time: whatever
-- type and code, translating 4 to 6, back and again gives the type, the code and the need to
-- translate inner addresses of the first translation, or is refused exactly where that is; so does
-- 6 to 4 to 6 to 4, and so do the pointers of parameter problems, both ways.
pub icmp_stable :
    (type code ptr : ℕ)
    → (there_back_there46 type code ≡ xlat46_icmp_type type code)
      × (there_back_there64 type code ≡ xlat64_icmp_type type code)
      × (bind (bind (param_prob_ptr46 ptr) icmp6_to_icmp4_param_prob_ptr) param_prob_ptr46
          ≡ param_prob_ptr46 ptr)
      × (bind
            (bind (icmp6_to_icmp4_param_prob_ptr ptr) param_prob_ptr46)
            icmp6_to_icmp4_param_prob_ptr
          ≡ icmp6_to_icmp4_param_prob_ptr ptr)
icmp_stable type code ptr = (
  there_back_there46-eq type code,
  there_back_there64-eq type code,
  pointer46-eq ptr,
  pointer64-eq ptr,
)
