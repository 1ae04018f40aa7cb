-- ===== src/Rfc7915/Fragment/Cover.antt =====
-- The fragments of the slow path (mod/common/rfc7915/4to6.c) carry the payload: what a receiver
-- that puts them together finds.
use jool.Prelude.{
  ℕ, zero, suc, ◌+◌, ◌-◌, ◌^◌, ◌≤◌, ◌<◌, ◌≡◌, refl, ap, ◌∙◌, inl, inr, Bool, true, if◌then◌else◌,
  ltb, Bool-cases, tests, List, [], ◌∷◌, ◌++◌, length, take, drop, take-drop, length-drop,
  length-take_le, drop-add, arith,
}
use jool.Rfc7915.Fragment.{
  Slow, fragments, add_fragment, payload_per_frag, slow_loop, allocate_slow,
}

-- All the bytes, in order.
abbrev pub concat : List (List ℕ) → List ℕ
concat [] = []
concat (b ∷ bs) = b ++ concat bs

-- Every piece is full, but for the last, which is not empty.
abbrev pub IsSliced : ℕ → List (List ℕ) → Type 0
IsSliced per [] = Unit {0}
IsSliced per (b ∷ []) = (0 < length b) × (length b ≤ per)
IsSliced per (b ∷ c ∷ bs) = (length b ≡ per) × IsSliced per (c ∷ bs)

-- The loop's result: pieces of what is left.
pub record Slices (per : ℕ) (left : List ℕ) (r : Slow) : Type 0 where
  pub bs : List (List ℕ)
  pub is : r ≡ fragments bs
  pub all : concat bs ≡ left
  pub sliced : IsSliced per bs

no_bytes : (xs : List ℕ) → length xs ≡ 0 → [] ≡ xs
no_bytes [] h = refl
no_bytes (x ∷ xs) h = absurd (omega arith)

IsSliced-cons :
    (per : ℕ) (b : List ℕ) (bs : List (List ℕ))
    → 0 < per
    → length b ≡ per
    → IsSliced per bs
    → IsSliced per (b ∷ bs)
IsSliced-cons per b [] h e s = omega arith
IsSliced-cons per b (c ∷ bs) h e s = (e, s)

-- The last round: nothing is left.
slow_loop_done :
    (fuel : ℕ) (alloc : ℕ → Bool) (per : ℕ) (payload : List ℕ) (consumed left : ℕ)
    → left ≡ 0
    → slow_loop (suc fuel) alloc per payload consumed left ≡ fragments []
unfolding slow_loop
slow_loop_done fuel alloc per payload consumed left h = ground arith

-- A round that takes `n` bytes.
slow_loop_step :
    (fuel : ℕ) (alloc : ℕ → Bool) (per : ℕ) (payload : List ℕ) (consumed left n : ℕ)
    → 0 < left
    → ((c : ℕ) → alloc c ≡ true)
    → n ≡ (if ltb per left then per else left)
    → slow_loop (suc fuel) alloc per payload consumed left
      ≡ add_fragment
          (take n (drop consumed payload))
          (slow_loop fuel alloc per payload (consumed + n) (left - n))
unfolding slow_loop
slow_loop_step fuel alloc per payload consumed left n h a e = ground (arith, a consumed)

extend-Slices :
    (per : ℕ) (payload : List ℕ) (consumed : ℕ) (r : Slow)
    → 0 < per
    → per ≤ length (drop consumed payload)
    → Slices per (drop (consumed + per) payload) r
    → Slices per (drop consumed payload) (add_fragment (take per (drop consumed payload)) r)
extend-Slices per payload consumed r p fits s = record {
  bs = take per (drop consumed payload) ∷ s.bs;
  is = ap (add_fragment (take per (drop consumed payload))) s.is;
  all =
      ap (λ (t : List ℕ). take per (drop consumed payload) ++ t)
        (s.all ∙ drop-add consumed per payload)
      ∙ take-drop per (drop consumed payload);
  sliced =
      IsSliced-cons per (take per (drop consumed payload)) s.bs p
        (length-take_le per (drop consumed payload) fits) s.sliced;
}

-- The last piece.
last-Slices :
    (per : ℕ) (rest : List ℕ)
    → 0 < length rest
    → length rest ≤ per
    → Slices per rest (add_fragment (take (length rest) rest) (fragments []))
last-Slices per rest h l = record {
  bs = take (length rest) rest ∷ [];
  is = refl;
  all =
      ap (λ (t : List ℕ). take (length rest) rest ++ t)
        (no_bytes (drop (length rest) rest) (omega (arith, length-drop (length rest) rest)))
      ∙ take-drop (length rest) rest;
  sliced = omega (arith, length-take_le (length rest) rest (omega arith));
}

slow_loop-Slices :
    (fuel : ℕ) (alloc : ℕ → Bool) (per : ℕ) (payload : List ℕ) (consumed left : ℕ)
    → 0 < per
    → ((c : ℕ) → alloc c ≡ true)
    → consumed + left ≡ length payload
    → left < fuel
    → Slices per (drop consumed payload) (slow_loop fuel alloc per payload consumed left)
slow_loop-Slices zero alloc per payload consumed left p a e f = absurd (omega arith)
slow_loop-Slices (suc fuel) alloc per payload consumed zero p a e f = record {
  bs = [];
  is = slow_loop_done fuel alloc per payload consumed 0 refl;
  all = no_bytes (drop consumed payload) (omega (arith, length-drop consumed payload));
  sliced = tt;
}
slow_loop-Slices (suc zero) alloc per payload consumed (suc k) p a e f = absurd (omega arith)
slow_loop-Slices (suc (suc fuel)) alloc per payload consumed (suc k) p a e f =
    elim (Bool-cases (ltb per (suc k))) [
      | inl more ↦
          rw
            (slow_loop_step (suc fuel) alloc per payload consumed (suc k) per (omega arith) a
              (rw more))
            (extend-Slices per payload consumed _ p
              (omega (tests, more, length-drop consumed payload))
              (slow_loop-Slices (suc fuel) alloc per payload (consumed + per) (suc k - per) p a
                (omega (tests, more)) (omega (tests, more))))
      | inr last ↦
          let l : length (drop consumed payload) ≡ suc k =
            omega (arith, length-drop consumed payload) in
          rw
            (
              slow_loop_step (suc fuel) alloc per payload consumed (suc k) (suc k) (omega arith) a
                  (rw last),
              slow_loop_done fuel alloc per payload (consumed + suc k) (suc k - suc k)
                  (omega arith),
            )
            (rw (← l)
              (last-Slices per (drop consumed payload) (omega arith) (ground (arith, last))))
    ]

pub allocate_slow-Slices :
    (alloc : ℕ → Bool) (mpl : ℕ) (payload : List ℕ)
    → 56 ≤ mpl
    → mpl < 2 ^ 32
    → ((c : ℕ) → alloc c ≡ true)
    → Slices (payload_per_frag mpl) payload (allocate_slow alloc mpl payload)
unfolding allocate_slow drop
allocate_slow-Slices alloc mpl payload lo hi a =
    slow_loop-Slices (suc (length payload)) alloc (payload_per_frag mpl) payload 0 (length payload)
      (unfold payload_per_frag in omega arith) a (omega arith) (omega arith)
