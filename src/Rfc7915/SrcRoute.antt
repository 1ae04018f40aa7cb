-- ===== src/Rfc7915/SrcRoute.antt =====
-- `has_unexpired_src_route` (mod/common/rfc7915/4to6.c): the walk over the options of an IPv4
-- header.
--
-- The memory behind the fixed header is a function from offsets to bytes, and `opts_len` is
-- `4 * ihl - 20`. The walk runs on fuel, `none` when it is used up.
use jool.Prelude.{
  ℕ, zero, suc, ◌+◌, ◌≤◌, ◌<◌, ◌≡◌, refl, ap, ◌∙◌, inl, inr, ◌⊎◌, Bool, true, false, ◌||◌,
  if◌then◌else◌, leb, ◌==◌, Bool-cases, List, [], ◌∷◌, ◌++◌, length, length-append, Option, none,
  some, arith,
}

abbrev pub ipopt_end : ℕ
ipopt_end = 0

abbrev pub ipopt_noop : ℕ
ipopt_noop = 1

abbrev pub ipopt_lsrr : ℕ
ipopt_lsrr = 131

abbrev pub ipopt_ssrr : ℕ
ipopt_ssrr = 137

abbrev pub is_route : ℕ → Bool
is_route kind = kind == ipopt_lsrr || kind == ipopt_ssrr

-- The `while` loop, with the test behind it, from `current_opt` on.
unfoldable pub walk : ℕ → (ℕ → ℕ) → ℕ → ℕ → Option Bool
walk zero mem opts_len pos = none
walk (suc fuel) mem opts_len pos =
    let next = if mem pos == ipopt_noop then pos + 1 else pos + mem (pos + 1) in
    let rest = walk fuel mem opts_len next in
    if is_route (mem pos)
    then some (leb (mem (pos + 2)) (mem (pos + 1)))
    else if mem pos == ipopt_end
    then some false
    else if leb opts_len next
    then some false
    else rest

unfoldable pub has_unexpired_src_route : ℕ → (ℕ → ℕ) → ℕ → Option Bool
unfolding walk
has_unexpired_src_route fuel mem opts_len =
    let rest = walk fuel mem opts_len 0 in if opts_len == 0 then some false else rest

-- The options that RFC 791 describes: one byte each for the end of the list and for no operation,
-- and a kind, a length that counts itself and the kind, and contents.
pub data Item : Type 0 where
  end_of_list no_operation : Item
  option : ℕ → List ℕ → Item

abbrev pub bytes_of : Item → List ℕ
bytes_of end_of_list = ipopt_end ∷ []
bytes_of no_operation = ipopt_noop ∷ []
bytes_of (option kind contents) = kind ∷ (2 + length contents) ∷ contents

abbrev pub encode : List Item → List ℕ
encode [] = []
encode (i ∷ items) = bytes_of i ++ encode items

-- A kind of its own; a source route has a pointer.
abbrev pub IsItem : Item → Type 0
IsItem end_of_list = Unit {0}
IsItem no_operation = Unit {0}
IsItem (option kind contents) = (1 < kind) × ((is_route kind ≡ false) ⊎ (0 < length contents))

abbrev pub AllItems : List Item → Type 0
AllItems [] = Unit {0}
AllItems (i ∷ items) = IsItem i × AllItems items

-- What the function is to find: whether the first source route before the end of the list has a
-- pointer that is not beyond its length.
abbrev pub pointer : List ℕ → ℕ
pointer [] = 0
pointer (p ∷ rest) = p

abbrev pub unexpired : List Item → Bool
unexpired [] = false
unexpired (end_of_list ∷ items) = false
unexpired (no_operation ∷ items) = unexpired items
unexpired (option kind contents ∷ items) =
    let rest = unexpired items in
    if is_route kind then leb (pointer contents) (2 + length contents) else rest

-- The memory from an offset on.
abbrev pub Holds : (ℕ → ℕ) → ℕ → List ℕ → Type 0
Holds mem pos [] = Unit {0}
Holds mem pos (b ∷ bs) = (mem pos ≡ b) × Holds mem (pos + 1) bs

Holds-append :
    (mem : ℕ → ℕ) (pos : ℕ) (xs ys : List ℕ)
    → Holds mem pos (xs ++ ys)
    → Holds mem (pos + length xs) ys
Holds-append mem pos [] ys h = let e : pos + 0 ≡ pos = omega arith in rw e h
Holds-append mem pos (x ∷ xs) ys h =
    let e : pos + suc (length xs) ≡ (pos + 1) + length xs = omega arith in
    rw e (Holds-append mem (pos + 1) xs ys h.1)

length-encode_pos : (i : Item) (items : List Item) → 0 < length (encode (i ∷ items))
length-encode_pos end_of_list items = omega arith
length-encode_pos no_operation items = omega arith
length-encode_pos (option kind contents) items = omega arith

-- Where the walk goes from an option that it skips.
abbrev pub next : (ℕ → ℕ) → ℕ → ℕ
next mem pos = if mem pos == ipopt_noop then pos + 1 else pos + mem (pos + 1)

walk-next :
    (fuel : ℕ) (mem : ℕ → ℕ) (opts_len pos n : ℕ)
    → is_route (mem pos) ≡ false
    → 0 < mem pos
    → next mem pos ≡ n
    → n < opts_len
    → walk (suc fuel) mem opts_len pos ≡ walk fuel mem opts_len n
unfolding walk
walk-next fuel mem opts_len pos n r k e l =
    let z : (mem pos == ipopt_end) ≡ false = ground arith in
    let l' : leb opts_len n ≡ false = ground arith in rw (r, z, e, l') refl

walk_stop :
    (fuel : ℕ) (mem : ℕ → ℕ) (opts_len pos n : ℕ)
    → is_route (mem pos) ≡ false
    → 0 < mem pos
    → next mem pos ≡ n
    → opts_len ≤ n
    → walk (suc fuel) mem opts_len pos ≡ some false
unfolding walk
walk_stop fuel mem opts_len pos n r k e l =
    let z : (mem pos == ipopt_end) ≡ false = ground arith in
    let l' : leb opts_len n ≡ true = ground arith in rw (r, z, e, l') refl

behind :
    {opts_len : ℕ} (items : List Item) (i : Item) (rest : List Item)
    → items ≡ i ∷ rest
    → (n : ℕ) → n + length (encode items) ≡ opts_len
    → n < opts_len
behind items i rest x n e =
    let l : length (encode items) ≡ length (encode (i ∷ rest)) =
      ap (λ (t : List Item). length (encode t)) x in
    omega (arith, length-encode_pos i rest)

-- An item that is skipped, given the walk over those behind it.
skip-unexpired :
    (fuel : ℕ) (mem : ℕ → ℕ) (opts_len pos n : ℕ) (items : List Item)
    → n + length (encode items) ≡ opts_len
    → is_route (mem pos) ≡ false
    → 0 < mem pos
    → next mem pos ≡ n
    → ((i : Item) (rest : List Item)
        → items ≡ i ∷ rest
        → walk fuel mem opts_len n ≡ some (unexpired items))
    → walk (suc fuel) mem opts_len pos ≡ some (unexpired items)
skip-unexpired fuel mem opts_len pos n [] e r k x ih =
    walk_stop fuel mem opts_len pos n r k x (omega arith)
skip-unexpired fuel mem opts_len pos n (i ∷ items) e r k x ih =
    walk-next fuel mem opts_len pos n r k x (omega (arith, length-encode_pos i items))
    ∙ ih i items refl

walk_route :
    (fuel : ℕ) (mem : ℕ → ℕ) (opts_len pos : ℕ)
    → is_route (mem pos) ≡ true
    → walk (suc fuel) mem opts_len pos ≡ some (leb (mem (pos + 2)) (mem (pos + 1)))
unfolding walk
walk_route fuel mem opts_len pos r = rw r refl

pointer_read :
    (mem : ℕ → ℕ) (pos : ℕ) (contents ys : List ℕ)
    → 0 < length contents
    → Holds mem (pos + 1 + 1) (contents ++ ys)
    → mem (pos + 2) ≡ pointer contents
pointer_read mem pos [] ys l h = absurd (omega arith)
pointer_read mem pos (p ∷ contents) ys l h = let e : pos + 2 ≡ pos + 1 + 1 = omega arith in rw e h.0

has_pointer :
    (kind : ℕ) (contents : List ℕ)
    → is_route kind ≡ true
    → (is_route kind ≡ false) ⊎ (0 < length contents)
    → 0 < length contents
has_pointer kind contents r (inl e) = cc
has_pointer kind contents r (inr h) = h

walk-unexpired :
    (fuel : ℕ) (mem : ℕ → ℕ) (opts_len pos : ℕ) (items : List Item)
    → AllItems items
    → Holds mem pos (encode items)
    → pos + length (encode items) ≡ opts_len
    → pos < opts_len
    → opts_len < fuel + pos
    → walk fuel mem opts_len pos ≡ some (unexpired items)
walk-unexpired zero mem opts_len pos items a h e p f = absurd (omega arith)
walk-unexpired (suc fuel) mem opts_len pos [] a h e p f = absurd (omega arith)
walk-unexpired (suc fuel) mem opts_len pos (end_of_list ∷ items) a h e p f =
    unfold walk in ground arith
walk-unexpired (suc fuel) mem opts_len pos (no_operation ∷ items) a h e p f =
    skip-unexpired fuel mem opts_len pos (pos + 1) items (omega arith) (ground arith) (omega arith)
      (ground arith)
      (λ i rest x.
        walk-unexpired fuel mem opts_len (pos + 1) items a.1 h.1 (omega arith)
          (behind items i rest x (pos + 1) (omega arith)) (omega arith))
walk-unexpired (suc fuel) mem opts_len pos (option kind contents ∷ items) a h e p f =
    let l = length-append contents (encode items) in
    let n : ℕ = pos + 1 + 1 + length contents in
    elim (Bool-cases (is_route kind)) [
      | inl route ↦
          let q =
            pointer_read mem pos contents (encode items) (has_pointer kind contents route a.0.1)
              h.1.1 in
          rw (route, walk_route fuel mem opts_len pos (rw h.0 route), q, h.1.0) refl
      | inr skipped ↦ rw skipped (
          skip-unexpired fuel mem opts_len pos n items (omega arith) (rw h.0 skipped)
            (omega (arith, h.0)) (ground (arith, h.0, h.1.0))
            (λ i rest x.
              walk-unexpired fuel mem opts_len n items a.1
                (Holds-append mem (pos + 1 + 1) contents (encode items) h.1.1) (omega arith)
                (behind items i rest x n (omega arith)) (omega arith)))
    ]

-- On well-formed options the walk ends, within as many rounds as there are bytes, and finds whether
-- the first source route before the end of the list has a pointer that is not beyond its length;
-- `false` where there is none. Well-formed means: the memory behind the fixed header holds, in
-- exactly `opts_len` bytes, items of one byte (end of list, no operation) and items of a kind
-- above 1 with a length byte that counts the whole item, and each source route has a pointer.
pub src_route-unexpired :
    (fuel : ℕ) (mem : ℕ → ℕ) (opts_len : ℕ) (items : List Item)
    → AllItems items
    → Holds mem 0 (encode items)
    → length (encode items) ≡ opts_len
    → opts_len < fuel
    → has_unexpired_src_route fuel mem opts_len ≡ some (unexpired items)
unfolding has_unexpired_src_route
src_route-unexpired fuel mem opts_len [] a h e f = ground arith
src_route-unexpired fuel mem opts_len (i ∷ items) a h e f =
    let z : (opts_len == 0) ≡ false = ground (arith, length-encode_pos i items) in
    rw z (
      walk-unexpired fuel mem opts_len 0 (i ∷ items) a h (omega arith)
        (omega (arith, length-encode_pos i items)) (omega arith))

-- A position with a length byte of 0 is never left.
walk-stuck :
    (fuel : ℕ) (mem : ℕ → ℕ) (opts_len pos : ℕ)
    → pos < opts_len
    → 1 < mem pos
    → is_route (mem pos) ≡ false
    → mem (pos + 1) ≡ 0
    → walk fuel mem opts_len pos ≡ none
walk-stuck zero mem opts_len pos l k r z = unfold walk in refl
walk-stuck (suc fuel) mem opts_len pos l k r z =
    walk-next fuel mem opts_len pos pos r (omega arith) (ground (arith, z)) l
    ∙ walk-stuck fuel mem opts_len pos l k r z

-- The walk adds a length byte without a look at it: if the first option inside the header has a
-- length byte of 0, and is neither a source route, nor the end of the list, nor no operation, then
-- the walk never ends, however many rounds it is given.
pub src_route-stuck :
    (fuel : ℕ) (mem : ℕ → ℕ) (opts_len : ℕ)
    → 0 < opts_len
    → 1 < mem 0
    → is_route (mem 0) ≡ false
    → mem 1 ≡ 0
    → has_unexpired_src_route fuel mem opts_len ≡ none
unfolding has_unexpired_src_route
src_route-stuck fuel mem opts_len l k r z =
    let e : (opts_len == 0) ≡ false = ground arith in
    let o : 0 + 1 ≡ 1 = omega arith in rw e (walk-stuck fuel mem opts_len 0 l k r (ap mem o ∙ z))
