-- ===== src/Rbtree/Find.antt =====
-- `rbtree_find` finds what the tree holds, and an addition goes to its place in the sequence.
use Prim.Native.Nat.{Ordering}
use jool.Prelude.{◌≡◌, ◌≢◌, refl, sym, ap, ◌∙◌, List, [], ◌∷◌, ◌++◌, none, some, arith}
use jool.Rbtree.{Tree, leaf, node, inorder, rbtree_find, rbtree_add}

module _ {ℓ} {A : Type ℓ} where
  abbrev pub All : (A → Type 0) → List A → Type 0
  All P [] = Unit
  All P (x ∷ xs) = P x × All P xs

  All-append : (P : A → Type 0) (xs ys : List A) → All P xs → All P ys → All P (xs ++ ys)
  All-append P [] ys h k = k
  All-append P (x ∷ xs) ys h k = (h.0, All-append P xs ys h.1 k)

  pub All-map : (P Q : A → Type 0) (xs : List A) → ((x : A) → P x → Q x) → All P xs → All Q xs
  All-map P Q [] f h = tt
  All-map P Q (x ∷ xs) f h = (f x h.0, All-map P Q xs f h.1)

  -- The entries before one that is too small are too small, and those behind one that is too great
  -- are too great.
  abbrev pub IsMonotone : (A → Ordering) → Tree A → Type 0
  IsMonotone cmp leaf = Unit
  IsMonotone cmp (node l a r) =
      (cmp a ≡ Ordering.lt → All (λ x. cmp x ≡ Ordering.lt) (inorder l))
      × (cmp a ≡ Ordering.gt → All (λ x. cmp x ≡ Ordering.gt) (inorder r))
      × IsMonotone cmp l
      × IsMonotone cmp r

  abbrev Misses : (A → Ordering) → A → Type 0
  Misses cmp x = cmp x ≢ Ordering.eq

  -- The place of a new entry in the sequence: behind the entries that are too small.
  abbrev pub insert_by : (A → Ordering) → A → List A → List A
  insert_by cmp x [] = x ∷ []
  insert_by cmp x (y ∷ ys) = elim (cmp y) [
    | Ordering.lt ↦ y ∷ insert_by cmp x ys
    | _ ↦ x ∷ (y ∷ ys)
  ]

  find_node :
      (cmp : A → Ordering) (l : Tree A) (a : A) (r : Tree A) (o : Ordering)
      → cmp a ≡ o
      → IsMonotone cmp (node l a r)
      → (rbtree_find cmp l ≡ none → All (Misses cmp) (inorder l))
      → (rbtree_find cmp r ≡ none → All (Misses cmp) (inorder r))
      → (elim o [
        | Ordering.lt ↦ rbtree_find cmp r
        | Ordering.gt ↦ rbtree_find cmp l
        | Ordering.eq ↦ some a
      ])
        ≡ none
      → All (Misses cmp) (inorder l ++ (a ∷ inorder r))
  find_node cmp l a r Ordering.lt e m hl hr q =
      All-append (Misses cmp) (inorder l) (a ∷ inorder r)
        (All-map _ (Misses cmp) (inorder l) (λ x h. cc h) (m.0 e)) (cc e, hr q)
  find_node cmp l a r Ordering.gt e m hl hr q =
      All-append (Misses cmp) (inorder l) (a ∷ inorder r) (hl q)
        (cc e, All-map _ (Misses cmp) (inorder r) (λ x h. cc h) (m.1 e))
  find_node cmp l a r Ordering.eq e m hl hr q = absurd (cc q)

  -- In a tree whose order the comparison follows, a search that finds nothing has missed nothing:
  -- no entry anywhere in the tree compares equal.
  pub rbtree_find-none :
      (cmp : A → Ordering) (t : Tree A)
      → IsMonotone cmp t
      → rbtree_find cmp t ≡ none
      → All (λ x. cmp x ≢ Ordering.eq) (inorder t)
  unfolding rbtree_find inorder
  rbtree_find-none cmp leaf m q = tt
  rbtree_find-none cmp (node l a r) m q =
      find_node cmp l a r (cmp a) refl m (rbtree_find-none cmp l m.2) (rbtree_find-none cmp r m.3) q

  insert_by-lt :
      (cmp : A → Ordering) (x : A) (xs ys : List A)
      → All (λ y. cmp y ≡ Ordering.lt) xs
      → insert_by cmp x (xs ++ ys) ≡ xs ++ insert_by cmp x ys
  insert_by-lt cmp x [] ys h = refl
  insert_by-lt cmp x (y ∷ xs) ys h = ground (arith, h.0, insert_by-lt cmp x xs ys h.1)

  insert_by-gt :
      (cmp : A → Ordering) (x : A) (xs : List A) (a : A) (ys : List A)
      → cmp a ≡ Ordering.gt
      → insert_by cmp x (xs ++ (a ∷ ys)) ≡ insert_by cmp x xs ++ (a ∷ ys)
  insert_by-gt cmp x [] a ys e = ground arith
  insert_by-gt cmp x (y ∷ xs) a ys e = ground (arith, insert_by-gt cmp x xs a ys e)

  insert_by-here :
      (cmp : A → Ordering) (x a : A) (ys : List A)
      → cmp a ≡ Ordering.lt
      → insert_by cmp x (a ∷ ys) ≡ a ∷ insert_by cmp x ys
  insert_by-here cmp x a ys e = ground arith

  All-split :
      (P : A → Type 0) (xs : List A) (a : A) (ys : List A)
      → All P (xs ++ (a ∷ ys))
      → All P xs × P a × All P ys
  All-split P [] a ys h = (tt, h.0, h.1)
  All-split P (x ∷ xs) a ys h = let (p, q, r) = All-split P xs a ys h.1 in ((h.0, p), q, r)

  add_node :
      (cmp : A → Ordering) (x : A) (l : Tree A) (a : A) (r : Tree A) (o : Ordering)
      → cmp a ≡ o
      → o ≢ Ordering.eq
      → IsMonotone cmp (node l a r)
      → inorder (rbtree_add cmp x l) ≡ insert_by cmp x (inorder l)
      → inorder (rbtree_add cmp x r) ≡ insert_by cmp x (inorder r)
      → inorder (elim o [
        | Ordering.lt ↦ node l a (rbtree_add cmp x r)
        | Ordering.gt ↦ node (rbtree_add cmp x l) a r
        | Ordering.eq ↦ node l a r
      ])
        ≡ insert_by cmp x (inorder l ++ (a ∷ inorder r))
  unfolding inorder
  add_node cmp x l a r Ordering.lt e n m hl hr =
      ap (λ xs. inorder l ++ (a ∷ xs)) hr
      ∙ sym (
          insert_by-lt cmp x (inorder l) (a ∷ inorder r) (m.0 e)
          ∙ ap (λ xs. inorder l ++ xs) (insert_by-here cmp x a (inorder r) e))
  add_node cmp x l a r Ordering.gt e n m hl hr =
      ap (λ xs. xs ++ (a ∷ inorder r)) hl ∙ sym (insert_by-gt cmp x (inorder l) a (inorder r) e)
  add_node cmp x l a r Ordering.eq e n m hl hr = absurd (n refl)

  -- Where nothing in the tree compares equal, an addition puts the entry into its place in the
  -- sequence.
  pub inorder-rbtree_add :
      (cmp : A → Ordering) (x : A) (t : Tree A)
      → IsMonotone cmp t
      → All (λ y. cmp y ≢ Ordering.eq) (inorder t)
      → inorder (rbtree_add cmp x t) ≡ insert_by cmp x (inorder t)
  unfolding rbtree_add inorder
  inorder-rbtree_add cmp x leaf m h = refl
  inorder-rbtree_add cmp x (node l a r) m h =
      let (hl, ha, hr) = All-split _ (inorder l) a (inorder r) h in
      add_node cmp x l a r (cmp a) refl ha m (inorder-rbtree_add cmp x l m.2 hl)
        (inorder-rbtree_add cmp x r m.3 hr)
