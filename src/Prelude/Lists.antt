-- ===== src/Prelude/Lists.antt =====
-- Lists measured by native numbers, and a cursor: an element with what stands on its two sides.
-- A cursor is how the model writes a pointer to an element of a linked list or of a tree.
use Prim.Native.Nat.{ℕ, zero, suc, ◌+◌, ◌-◌, ◌≤◌}
use mathlib.Core.Path.{◌≡◌, refl, ap, sym, ◌∙◌}
use mathlib.Core.Bool.{Bool, true, false, ◌||◌}
use mathlib.Core.List.{List, [], ◌∷◌, ◌++◌}
use mathlib.Core.Option.{Option, none, some}
use native.Mathlib.Omega.{arith}

module _ {ℓ} {A : Type ℓ} where
  abbrev pub length : List A → ℕ
  length [] = 0
  length (x ∷ xs) = suc (length xs)

  abbrev pub get_elem? : List A → ℕ → Option A
  get_elem? [] i = none
  get_elem? (x ∷ xs) zero = some x
  get_elem? (x ∷ xs) (suc i) = get_elem? xs i

  pub length-append : (xs ys : List A) → length (xs ++ ys) ≡ length xs + length ys
  length-append [] ys = omega arith
  length-append (x ∷ xs) ys = omega (arith, length-append xs ys)

-- An element of a list, with the elements before and after it.
pub record Cursor {ℓ} (A : Type ℓ) : Type ℓ where
  pub before : List A
  pub here : A
  pub after : List A

module _ {ℓ} {A : Type ℓ} where
  -- The list that a cursor stands in.
  abbrev pub whole : Cursor A → List A
  whole c = c.before ++ (c.here ∷ c.after)

  -- The list without the element that the cursor shows.
  abbrev pub without : Cursor A → List A
  without c = c.before ++ c.after

  abbrev pub push_before : A → Option (Cursor A) → Option (Cursor A)
  push_before x none = none
  push_before x (some c) = some (record c { before = x ∷ c.before })

  -- The first element that passes a test.
  unfoldable pub find_first : (A → Bool) → List A → Option (Cursor A)
  find_first p [] = none
  find_first p (x ∷ xs) = elim (p x) [
    | true ↦ some (record { before = []; here = x; after = xs })
    | false ↦ push_before x (find_first p xs)
  ]

  unfoldable pub any : (A → Bool) → List A → Bool
  any p [] = false
  any p (x ∷ xs) = p x || any p xs

  unfoldable pub keep : (A → Bool) → List A → List A
  keep p [] = []
  keep p (x ∷ xs) = elim (p x) [ true ↦ x ∷ keep p xs | false ↦ keep p xs ]

module _ {ℓ} {A : Type ℓ} where
  unfoldable pub take : ℕ → List A → List A
  take zero xs = []
  take (suc n) [] = []
  take (suc n) (x ∷ xs) = x ∷ take n xs

  unfoldable pub drop : ℕ → List A → List A
  drop zero xs = xs
  drop (suc n) [] = []
  drop (suc n) (x ∷ xs) = drop n xs

  pub take-drop : (n : ℕ) (xs : List A) → take n xs ++ drop n xs ≡ xs
  unfolding take drop
  take-drop zero xs = refl
  take-drop (suc n) [] = refl
  take-drop (suc n) (x ∷ xs) = ap (λ t. x ∷ t) (take-drop n xs)

  pub length-drop : (n : ℕ) (xs : List A) → length (drop n xs) ≡ length xs - n
  unfolding drop
  length-drop zero xs = omega arith
  length-drop (suc n) [] = omega arith
  length-drop (suc n) (x ∷ xs) = omega (arith, length-drop n xs)

  pub length-take : (n : ℕ) (xs : List A) → length (take n xs) ≤ n
  unfolding take
  length-take zero xs = omega arith
  length-take (suc n) [] = omega arith
  length-take (suc n) (x ∷ xs) = omega (arith, length-take n xs)

  pub length-take_le : (n : ℕ) (xs : List A) → n ≤ length xs → length (take n xs) ≡ n
  unfolding take
  length-take_le zero xs h = refl
  length-take_le (suc n) [] h = absurd (omega arith)
  length-take_le (suc n) (x ∷ xs) h = omega (arith, length-take_le n xs (omega arith))

  drop-nil : (m : ℕ) → drop m [] ≡ []
  unfolding drop
  drop-nil zero = refl
  drop-nil (suc m) = refl

  pub drop-add : (n m : ℕ) (xs : List A) → drop (n + m) xs ≡ drop m (drop n xs)
  unfolding drop
  drop-add zero m xs = let e : 0 + m ≡ m = omega arith in ap (λ (t : ℕ). drop t xs) e
  drop-add (suc n) m [] =
      let e : suc n + m ≡ suc (n + m) = omega arith in
      ap (λ (t : ℕ). drop t []) e ∙ sym (drop-nil m)
  drop-add (suc n) m (x ∷ xs) =
      let e : suc n + m ≡ suc (n + m) = omega arith in
      ap (λ (t : ℕ). drop t (x ∷ xs)) e ∙ drop-add n m xs
