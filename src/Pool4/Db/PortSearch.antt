-- ===== src/Pool4/Db/PortSearch.antt =====
-- The binary search of `find_port_range` (mod/common/db/pool4/db.c).
use jool.Prelude.{
  ℕ, zero, suc, ◌+◌, ◌-◌, ◌/◌, ◌≤◌, ◌<◌, ◌≡◌, ◌↔◌, ◌⊎◌, inl, inr, subst, Bool-cases, if_cases,
  lt→ltb, refl, sym, ap, ◌∙◌, true, false, ltb, if◌then◌else◌, List, [], ◌∷◌, Option, none, some,
  length, get_elem?, arith,
}
use jool.Types.{Ipv4Range}
use jool.Pool4.MaskDomain.{port_range_contains}
use jool.Pool4.Db.{look_at, find_range_loop, find_port_range}

-- The ranges of one address: no range is empty, and each ends before the next one starts.
pub record IsOrdered (ranges : List Ipv4Range) : Type 0 where
  pub valid : (i : ℕ) (r : Ipv4Range) → get_elem? ranges i ≡ some r → r.ports.min ≤ r.ports.max
  pub apart :
      (i j : ℕ) (r s : Ipv4Range)
      → i < j
      → get_elem? ranges i ≡ some r
      → get_elem? ranges j ≡ some s
      → r.ports.max < s.ports.min

get_elem?-some {ℓ} :
    {A : Type ℓ} (xs : List A) (i : ℕ) → i < length xs → (x : A) × (get_elem? xs i ≡ some x)
get_elem?-some [] i h = absurd (omega (arith, h))
get_elem?-some (x ∷ xs) zero h = (x, refl)
get_elem?-some (x ∷ xs) (suc i) h = get_elem?-some xs i (omega (arith, h))

nat_cases : (i k : ℕ) → (i < k) ⊎ ((i ≡ k) ⊎ (k < i))
nat_cases i k = ground arith

some_inj {ℓ} : {A : Type ℓ} (x y : A) → some x ≡ some y → x ≡ y
some_inj x y e = cc e

below :
    (port : ℕ) (m : Ipv4Range) (left right : Option Ipv4Range)
    → port < m.ports.min
    → look_at port (some m) left right ≡ left
unfolding look_at
below port m left right h = ground arith

above :
    (port : ℕ) (m : Ipv4Range) (left right : Option Ipv4Range)
    → m.ports.min ≤ m.ports.max
    → m.ports.max < port
    → look_at port (some m) left right ≡ right
unfolding look_at
above port m left right v h = ground arith

within :
    (port : ℕ) (m : Ipv4Range) (left right : Option Ipv4Range)
    → m.ports.min ≤ port
    → port ≤ m.ports.max
    → look_at port (some m) left right ≡ some m
unfolding look_at
within port m left right h k = ground arith

-- One round, with the range sought at `i` and the middle one at `k`.
look_at-finds :
    (ranges : List Ipv4Range) (port i k : ℕ) (r m : Ipv4Range) (left right : Option Ipv4Range)
    → IsOrdered ranges
    → get_elem? ranges i ≡ some r
    → get_elem? ranges k ≡ some m
    → r.ports.min ≤ port
    → port ≤ r.ports.max
    → (i < k → left ≡ some r)
    → (k < i → right ≡ some r)
    → look_at port (some m) left right ≡ some r
look_at-finds ranges port i k r m left right o e f lo hi hl hr = elim (nat_cases i k) [
  | inl h ↦ below port m left right (omega (arith, o.apart i k r m h e f, hi)) ∙ hl h
  | inr (inr h) ↦
      above port m left right (o.valid k m f) (omega (arith, o.apart k i m r h f e, lo)) ∙ hr h
  | inr (inl h) ↦
      let q : r ≡ m = some_inj r m (sym e ∙ ap (get_elem? ranges) h ∙ f) in
      within port m left right (subst (λ (x : Ipv4Range). x.ports.min ≤ port) q lo)
        (subst (λ (x : Ipv4Range). port ≤ x.ports.max) q hi)
      ∙ ap some (sym q)
]

loop-unfold :
    (fuel : ℕ) (ranges : List Ipv4Range) (port first end : ℕ) (m : Ipv4Range)
    → first < end
    → get_elem? ranges (first + (end - 1 - first) / 2) ≡ some m
    → let k = first + (end - 1 - first) / 2 in
      find_range_loop (suc fuel) ranges port first end
      ≡ look_at port
          (some m)
          (find_range_loop fuel ranges port first k)
          (find_range_loop fuel ranges port (k + 1) end)
unfolding find_range_loop
loop-unfold fuel ranges port first end m h e =
    let k = first + (end - 1 - first) / 2 in
    ap
      (λ b.
        if b
        then look_at port (get_elem? ranges k) (find_range_loop fuel ranges port first k)
            (find_range_loop fuel ranges port (k + 1) end)
        else none)
      (lt→ltb first end h)
    ∙ ap
        (λ o.
          look_at port o (find_range_loop fuel ranges port first k)
            (find_range_loop fuel ranges port (k + 1) end))
        e

half_lt : (first end : ℕ) → first < end → first + (end - 1 - first) / 2 < end
half_lt first end h = omega (arith, h)

loop-finds :
    (fuel : ℕ) (ranges : List Ipv4Range) (port first end i : ℕ) (r : Ipv4Range)
    → IsOrdered ranges
    → end ≤ length ranges
    → end ≤ first + fuel
    → get_elem? ranges i ≡ some r
    → r.ports.min ≤ port
    → port ≤ r.ports.max
    → first ≤ i
    → i < end
    → find_range_loop fuel ranges port first end ≡ some r
unfolding find_range_loop
loop-finds zero ranges port first end i r o l h e lo hi a b = absurd (omega (arith, h, a, b))
loop-finds (suc fuel) ranges port first end i r o l h e lo hi a b =
    let nonempty : first < end = omega (arith, a, b) in
    let small = half_lt first end nonempty in
    let k = first + (end - 1 - first) / 2 in
    let (m, f) = get_elem?-some ranges k (omega (arith, small, l)) in
    loop-unfold fuel ranges port first end m nonempty f
    ∙ look_at-finds ranges port i k r m _ _ o e f lo hi
        (λ q.
          loop-finds fuel ranges port first k i r o (omega (arith, small, l))
            (omega (arith, small, h)) e lo hi a q)
        (λ q.
          loop-finds fuel ranges port (k + 1) end i r o l (omega (arith, h)) e lo hi
            (omega (arith, q)) b)

-- What the search finds contains the port, and is one of the ranges.
abbrev IsHit : List Ipv4Range → ℕ → Option Ipv4Range → Type 0
IsHit ranges port none = Unit
IsHit ranges port (some r) =
    (port_range_contains r.ports port ≡ true) × ((i : ℕ) × (get_elem? ranges i ≡ some r))

contains :
    (port : ℕ) (m : Ipv4Range)
    → ltb port m.ports.min ≡ false
    → ltb m.ports.max port ≡ false
    → port_range_contains m.ports port ≡ true
unfolding port_range_contains
contains port m h q = ground arith

bounds :
    (port : ℕ) (m : Ipv4Range)
    → port_range_contains m.ports port ≡ true
    → (m.ports.min ≤ port) × (port ≤ m.ports.max)
unfolding port_range_contains
bounds port m h = ground arith

look_at-IsHit :
    (ranges : List Ipv4Range) (port k : ℕ) (o left right : Option Ipv4Range)
    → get_elem? ranges k ≡ o
    → IsHit ranges port left
    → IsHit ranges port right
    → IsHit ranges port (look_at port o left right)
unfolding look_at
look_at-IsHit ranges port k none left right e hl hr = tt
look_at-IsHit ranges port k (some m) left right e hl hr = elim (Bool-cases (ltb port m.ports.min)) [
  | inl h ↦ rw h hl
  | inr h ↦ rw h (elim (Bool-cases (ltb m.ports.max port)) [
    | inl q ↦ rw q hr
    | inr q ↦ rw q (contains port m h q, (k, e))
  ])
]

loop-IsHit :
    (fuel : ℕ) (ranges : List Ipv4Range) (port first end : ℕ)
    → IsHit ranges port (find_range_loop fuel ranges port first end)
unfolding find_range_loop
loop-IsHit zero ranges port first end = tt
loop-IsHit (suc fuel) ranges port first end =
    let k = first + (end - 1 - first) / 2 in
    if_cases (IsHit ranges port) (ltb first end)
      (look_at-IsHit ranges port k (get_elem? ranges k) _ _ refl
        (loop-IsHit fuel ranges port first k) (loop-IsHit fuel ranges port (k + 1) end))
      (tt {0})

get_elem?-bound {ℓ} :
    {A : Type ℓ} (xs : List A) (i : ℕ) (x : A) → get_elem? xs i ≡ some x → i < length xs
get_elem?-bound [] i x e = absurd (cc e)
get_elem?-bound (y ∷ xs) zero x e = omega arith
get_elem?-bound (y ∷ xs) (suc i) x e = omega (arith, get_elem?-bound xs i x e)

-- In the ordered ranges of a table, the binary search returns a range exactly when it is one of the
-- ranges and contains the port; the fuel is enough.
pub find_port_range_iff :
    (ranges : List Ipv4Range) (port : ℕ) (r : Ipv4Range)
    → IsOrdered ranges
    → (find_port_range ranges port ≡ some r)
      ↔ ((port_range_contains r.ports port ≡ true) × ((i : ℕ) × (get_elem? ranges i ≡ some r)))
unfolding find_port_range
find_port_range_iff ranges port r o = (
  λ e. subst (IsHit ranges port) e (loop-IsHit (length ranges) ranges port 0 (length ranges)),
  λ (h, (i, e)).
      loop-finds (length ranges) ranges port 0 (length ranges) i r o (omega arith) (omega arith) e
        (bounds port r h).0 (bounds port r h).1 (omega arith) (get_elem?-bound ranges i r e),
)
