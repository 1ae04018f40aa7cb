-- ===== src/Rbtree/Put.antt =====
-- What searches find after an entry has been added or replaced (mod/common/db/rbtree.h). The tree
-- need not be in order.
use Prim.Native.Nat.{Ordering}
use jool.Prelude.{◌≡◌, ◌≢◌, refl, sym, subst, ◌∙◌, Option, none, some}
use jool.Rbtree.{Tree, leaf, node, rbtree_find, rbtree_add, rbtree_set}

module _ {ℓ} {A : Type ℓ} (cmp other : A → Ordering) (x : A) where
  abbrev find_at : (A → Ordering) → Ordering → Tree A → A → Tree A → Option A
  find_at c o l a r = elim o [
    | Ordering.lt ↦ rbtree_find c r
    | Ordering.gt ↦ rbtree_find c l
    | Ordering.eq ↦ some a
  ]

  abbrev add_at : Ordering → Tree A → A → Tree A → Tree A
  add_at o l a r = elim o [
    | Ordering.lt ↦ node l a (rbtree_add cmp x r)
    | Ordering.gt ↦ node (rbtree_add cmp x l) a r
    | Ordering.eq ↦ node l a r
  ]

  abbrev set_at : Ordering → Tree A → A → Tree A → Tree A
  set_at o l a r = elim o [
    | Ordering.lt ↦ node l a (rbtree_set cmp x r)
    | Ordering.gt ↦ node (rbtree_set cmp x l) a r
    | Ordering.eq ↦ node l x r
  ]

  find_here :
      (c : A → Ordering) (o : Ordering) (l : Tree A) (a : A) (r : Tree A)
      → c a ≡ o
      → rbtree_find c (node l a r) ≡ find_at c o l a r
  unfolding rbtree_find
  find_here c o l a r e = subst (λ p. rbtree_find c (node l a r) ≡ find_at c p l a r) e refl

  found_step :
      (o : Ordering) (l : Tree A) (a : A) (r : Tree A)
      → cmp a ≡ o
      → cmp x ≡ Ordering.eq
      → (rbtree_find cmp l ≡ none → rbtree_find cmp (rbtree_add cmp x l) ≡ some x)
      → (rbtree_find cmp r ≡ none → rbtree_find cmp (rbtree_add cmp x r) ≡ some x)
      → find_at cmp o l a r ≡ none
      → rbtree_find cmp (add_at o l a r) ≡ some x
  found_step Ordering.lt l a r e q hl hr n =
      find_here cmp Ordering.lt l a (rbtree_add cmp x r) e ∙ hr n
  found_step Ordering.gt l a r e q hl hr n =
      find_here cmp Ordering.gt (rbtree_add cmp x l) a r e ∙ hl n
  found_step Ordering.eq l a r e q hl hr n = absurd (cc n)

  -- A search that found nothing finds what has been added.
  pub rbtree_find-rbtree_add :
      (t : Tree A)
      → cmp x ≡ Ordering.eq
      → rbtree_find cmp t ≡ none
      → rbtree_find cmp (rbtree_add cmp x t) ≡ some x
  unfolding rbtree_add rbtree_find
  rbtree_find-rbtree_add leaf q n = find_here cmp Ordering.eq leaf x leaf q
  rbtree_find-rbtree_add (node l a r) q n =
      found_step (cmp a) l a r refl q (rbtree_find-rbtree_add l q) (rbtree_find-rbtree_add r q) n

  miss_leaf : (o : Ordering) → o ≢ Ordering.eq → find_at other o leaf x leaf ≡ none
  unfolding rbtree_find
  miss_leaf Ordering.lt h = refl
  miss_leaf Ordering.gt h = refl
  miss_leaf Ordering.eq h = absurd (h refl)

  -- A search for something else finds what it found before an addition.
  other_add_step :
      (o p : Ordering) (l : Tree A) (a : A) (r : Tree A)
      → cmp a ≡ o
      → other a ≡ p
      → rbtree_find other (rbtree_add cmp x l) ≡ rbtree_find other l
      → rbtree_find other (rbtree_add cmp x r) ≡ rbtree_find other r
      → rbtree_find other (add_at o l a r) ≡ find_at other p l a r
  other_add_step Ordering.lt Ordering.lt l a r e q hl hr =
      find_here other Ordering.lt l a (rbtree_add cmp x r) q ∙ hr
  other_add_step Ordering.lt Ordering.gt l a r e q hl hr =
      find_here other Ordering.gt l a (rbtree_add cmp x r) q
  other_add_step Ordering.lt Ordering.eq l a r e q hl hr =
      find_here other Ordering.eq l a (rbtree_add cmp x r) q
  other_add_step Ordering.gt Ordering.lt l a r e q hl hr =
      find_here other Ordering.lt (rbtree_add cmp x l) a r q
  other_add_step Ordering.gt Ordering.gt l a r e q hl hr =
      find_here other Ordering.gt (rbtree_add cmp x l) a r q ∙ hl
  other_add_step Ordering.gt Ordering.eq l a r e q hl hr =
      find_here other Ordering.eq (rbtree_add cmp x l) a r q
  other_add_step Ordering.eq p l a r e q hl hr = find_here other p l a r q

  pub rbtree_find-rbtree_add_other :
      (t : Tree A)
      → other x ≢ Ordering.eq
      → rbtree_find other (rbtree_add cmp x t) ≡ rbtree_find other t
  unfolding rbtree_add rbtree_find
  rbtree_find-rbtree_add_other leaf h =
      find_here other (other x) leaf x leaf refl ∙ miss_leaf (other x) h
  rbtree_find-rbtree_add_other (node l a r) h =
      other_add_step (cmp a) (other a) l a r refl refl (rbtree_find-rbtree_add_other l h)
        (rbtree_find-rbtree_add_other r h)

  found_set_step :
      (o : Ordering) (l : Tree A) (a : A) (r : Tree A) (b : A)
      → cmp a ≡ o
      → cmp x ≡ Ordering.eq
      → (rbtree_find cmp l ≡ some b → rbtree_find cmp (rbtree_set cmp x l) ≡ some x)
      → (rbtree_find cmp r ≡ some b → rbtree_find cmp (rbtree_set cmp x r) ≡ some x)
      → find_at cmp o l a r ≡ some b
      → rbtree_find cmp (set_at o l a r) ≡ some x
  found_set_step Ordering.lt l a r b e q hl hr n =
      find_here cmp Ordering.lt l a (rbtree_set cmp x r) e ∙ hr n
  found_set_step Ordering.gt l a r b e q hl hr n =
      find_here cmp Ordering.gt (rbtree_set cmp x l) a r e ∙ hl n
  found_set_step Ordering.eq l a r b e q hl hr n = find_here cmp Ordering.eq l x r q

  -- A search that found something finds what it has been replaced by.
  pub rbtree_find-rbtree_set :
      (t : Tree A) (b : A)
      → cmp x ≡ Ordering.eq
      → rbtree_find cmp t ≡ some b
      → rbtree_find cmp (rbtree_set cmp x t) ≡ some x
  unfolding rbtree_set rbtree_find
  rbtree_find-rbtree_set leaf b q n = absurd (cc n)
  rbtree_find-rbtree_set (node l a r) b q n =
      found_set_step (cmp a) l a r b refl q (rbtree_find-rbtree_set l b q)
        (rbtree_find-rbtree_set r b q) n

  miss_here :
      (o : Ordering) (l : Tree A) (a b : A) (r : Tree A)
      → o ≢ Ordering.eq
      → find_at other o l a r ≡ find_at other o l b r
  miss_here Ordering.lt l a b r h = refl
  miss_here Ordering.gt l a b r h = refl
  miss_here Ordering.eq l a b r h = absurd (h refl)

  other_set_step :
      (o p : Ordering) (l : Tree A) (a : A) (r : Tree A)
      → cmp a ≡ o
      → other a ≡ p
      → other x ≢ Ordering.eq
      → (cmp a ≡ Ordering.eq → other a ≡ other x)
      → rbtree_find other (rbtree_set cmp x l) ≡ rbtree_find other l
      → rbtree_find other (rbtree_set cmp x r) ≡ rbtree_find other r
      → rbtree_find other (set_at o l a r) ≡ find_at other p l a r
  other_set_step Ordering.lt Ordering.lt l a r e q n c hl hr =
      find_here other Ordering.lt l a (rbtree_set cmp x r) q ∙ hr
  other_set_step Ordering.lt Ordering.gt l a r e q n c hl hr =
      find_here other Ordering.gt l a (rbtree_set cmp x r) q
  other_set_step Ordering.lt Ordering.eq l a r e q n c hl hr =
      find_here other Ordering.eq l a (rbtree_set cmp x r) q
  other_set_step Ordering.gt Ordering.lt l a r e q n c hl hr =
      find_here other Ordering.lt (rbtree_set cmp x l) a r q
  other_set_step Ordering.gt Ordering.gt l a r e q n c hl hr =
      find_here other Ordering.gt (rbtree_set cmp x l) a r q ∙ hl
  other_set_step Ordering.gt Ordering.eq l a r e q n c hl hr =
      find_here other Ordering.eq (rbtree_set cmp x l) a r q
  other_set_step Ordering.eq p l a r e q n c hl hr =
      let s : other x ≡ p = sym (c e) ∙ q in
      find_here other p l x r s ∙ miss_here p l x a r (λ w. n (s ∙ w))

  -- A search for something else finds what it found before a replacement by an entry with the same
  -- place in the order.
  pub rbtree_find-rbtree_set_other :
      (t : Tree A)
      → other x ≢ Ordering.eq
      → ((a : A) → cmp a ≡ Ordering.eq → other a ≡ other x)
      → rbtree_find other (rbtree_set cmp x t) ≡ rbtree_find other t
  unfolding rbtree_set rbtree_find
  rbtree_find-rbtree_set_other leaf n c = refl
  rbtree_find-rbtree_set_other (node l a r) n c =
      other_set_step (cmp a) (other a) l a r refl refl n (c a) (rbtree_find-rbtree_set_other l n c)
        (rbtree_find-rbtree_set_other r n c)

module _ {ℓ} {A : Type ℓ} (cmp : A → Ordering) where
  found_eq_step :
      (o : Ordering) (l : Tree A) (a : A) (r : Tree A) (b : A)
      → cmp a ≡ o
      → (rbtree_find cmp l ≡ some b → cmp b ≡ Ordering.eq)
      → (rbtree_find cmp r ≡ some b → cmp b ≡ Ordering.eq)
      → (elim o [
        | Ordering.lt ↦ rbtree_find cmp r
        | Ordering.gt ↦ rbtree_find cmp l
        | Ordering.eq ↦ some a
      ])
        ≡ some b
      → cmp b ≡ Ordering.eq
  found_eq_step Ordering.lt l a r b e hl hr n = hr n
  found_eq_step Ordering.gt l a r b e hl hr n = hl n
  found_eq_step Ordering.eq l a r b e hl hr n = cc (e, n)

  -- What a search finds compares equal.
  pub rbtree_find-eq : (t : Tree A) (b : A) → rbtree_find cmp t ≡ some b → cmp b ≡ Ordering.eq
  unfolding rbtree_find
  rbtree_find-eq leaf b n = absurd (cc n)
  rbtree_find-eq (node l a r) b n =
      found_eq_step (cmp a) l a r b refl (rbtree_find-eq l b) (rbtree_find-eq r b) n
