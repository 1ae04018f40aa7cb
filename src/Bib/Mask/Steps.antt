-- ===== src/Bib/Mask/Steps.antt =====
-- One round of `find_available_mask`: the candidate against the one before it, and its collision.
use jool.Prelude.{
  suc, ◌<◌, ◌≡◌, ◌≢◌, refl, sym, ap, subst, ◌∙◌, inl, inr, true, List, [], ◌∷◌, ◌++◌, Option, none,
  some, Cursor, whole, find_first, Option-cases, Bool-cases, if◌then◌else◌, arith,
}
use mathlib.Core.List.{append_assoc}
use jool.Types.{Ipv4TransportAddr, taddr4, taddr4_equals_iff, ok}
use jool.Pool4.MaskDomain.{MaskDomain, Candidate, mask_domain_next}
use jool.Bib.Table.{TabledBib, BibTable}
use jool.Bib.Lookup.{find_bib4, next_collides, next_of, try_next, collision_of, found}
use jool.Bib.Count.{find_first-Finds}
use jool.Bib.Mask.Order.{IsSorted, NoneAt-find, is_at, succ, succ-NoneAt}

-- The address of the last candidate stands just before the port of the domain.
pub record IsLast (m : MaskDomain) (a : Ipv4TransportAddr) : Type 0 where
  pub port : suc a.l4 ≡ m.next_port
  pub addr : a.l3 ≡ m.ranges.here.prefix.addr

-- A candidate is consecutive only if it is not the first one, and then it is the successor.
pub record Follows (m m' : MaskDomain) (c : Candidate) : Type 0 where
  pub started : c.consecutive ≡ true → 0 < m.taddr_counter
  pub is_succ : c.consecutive ≡ true → c.addr ≡ taddr4 m.ranges.here.prefix.addr m.next_port
  pub last : IsLast m' c.addr

pub mask_domain_next-Follows :
    (m m' : MaskDomain) (c : Candidate) → mask_domain_next m ≡ (m', ok c) → Follows m m' c
unfolding mask_domain_next
mask_domain_next-Follows m m' c e = record {
  started = ground arith;
  is_succ = ground arith;
  last = record { port = ground arith; addr = ground arith };
}

-- An address that some entry has.
abbrev pub IsTaken : BibTable → Ipv4TransportAddr → Type 0
IsTaken t a = (c : Cursor TabledBib) × (find_bib4 t a ≡ some c)

-- What a round knows of the one before.
abbrev pub Round : BibTable → MaskDomain → Option TabledBib → Type 0
Round t m none = m.taddr_counter ≡ 0
Round t m (some b) = IsTaken t b.key.src4 × IsLast m b.key.src4

-- What the collision of a candidate is.
abbrev pub Collides : BibTable → Ipv4TransportAddr → Option TabledBib → Type 0
Collides t a none = find_bib4 t a ≡ none
Collides t a (some b) = (b.key.src4 ≡ a) × IsTaken t a

find_bib4-list :
    (t : BibTable) (a : Ipv4TransportAddr) (c : Cursor TabledBib)
    → find_bib4 t a ≡ some c
    → (t.bibs ≡ whole c) × (c.here.key.src4 ≡ a)
unfolding find_bib4
find_bib4-list t a c e =
    let f = find_first-Finds (is_at a) t.bibs c e in
    (f.list, (taddr4_equals_iff c.here.key.src4 a).0 f.passes)

found-Collides :
    (t : BibTable) (a : Ipv4TransportAddr) (o : Option (Cursor TabledBib))
    → find_bib4 t a ≡ o
    → Collides t a (found o)
found-Collides t a none e = e
found-Collides t a (some c) e = ((find_bib4-list t a c e).1, (c, e))

-- Where the entries behind `p` do not begin with its successor, the successor is free.
free_succ :
    (t : BibTable) (p : Ipv4TransportAddr) (c : Cursor TabledBib)
    → IsSorted t.bibs
    → find_bib4 t p ≡ some c
    → next_collides c.after (succ p) ≡ none
    → find_bib4 t (succ p) ≡ none
unfolding find_bib4
free_succ t p c s e n =
    let (list, here) = find_bib4-list t p c e in
    subst (λ xs. find_first (is_at (succ p)) xs ≡ none) (sym list)
      (NoneAt-find (succ p) (whole c)
        (succ-NoneAt p c.before c.here c.after (subst IsSorted list s) here n))

next_collides-at :
    (xs : List TabledBib) (a : Ipv4TransportAddr) (b : TabledBib)
    → next_collides xs a ≡ some b
    → (b.key.src4 ≡ a) × ((ys : List TabledBib) × (xs ≡ b ∷ ys))
unfolding next_collides
next_collides-at [] a b e = absurd (cc e)
next_collides-at (x ∷ xs) a b e = (
  ground (arith, taddr4_equals_iff x.key.src4 a),
  (xs, ground (arith, taddr4_equals_iff x.key.src4 a)),
)

-- A list with an entry at `a` shows one.
find_first-shows :
    (a : Ipv4TransportAddr) (before : List TabledBib) (b : TabledBib) (after : List TabledBib)
    → b.key.src4 ≡ a
    → find_first (is_at a) (before ++ (b ∷ after)) ≢ none
unfolding find_first
find_first-shows a [] b after e = ground (arith, taddr4_equals_iff b.key.src4 a)
find_first-shows a (x ∷ xs) b after e = ground (arith, find_first-shows a xs b after e)

second_cursor :
    (c : Cursor TabledBib) (b : TabledBib) (ys : List TabledBib)
    → c.after ≡ b ∷ ys
    → whole c ≡ (c.before ++ (c.here ∷ [])) ++ (b ∷ ys)
second_cursor c b ys e =
    ap (λ xs. c.before ++ (c.here ∷ xs)) e ∙ sym (append_assoc c.before (c.here ∷ []) (b ∷ ys))

IsTaken-succ :
    (t : BibTable) (a : Ipv4TransportAddr) (c : Cursor TabledBib) (b : TabledBib)
    → t.bibs ≡ whole c
    → next_collides c.after a ≡ some b
    → (b.key.src4 ≡ a) × IsTaken t a
unfolding find_bib4
IsTaken-succ t a c b list e =
    let (q, (ys, r)) = next_collides-at c.after a b e in
    elim (Option-cases (find_first (is_at a) t.bibs)) [
      | inr (d, h) ↦ (q, (d, h))
      | inl h ↦ absurd (
          find_first-shows a (c.before ++ (c.here ∷ [])) b ys q
            (subst (λ xs. find_first (is_at a) xs ≡ none) (list ∙ second_cursor c b ys r) h))
    ]

next_collides-Collides :
    (t : BibTable) (p : Ipv4TransportAddr) (c : Cursor TabledBib) (o : Option TabledBib)
    → IsSorted t.bibs
    → find_bib4 t p ≡ some c
    → next_collides c.after (succ p) ≡ o
    → Collides t (succ p) o
next_collides-Collides t p c none s e n = free_succ t p c s e n
next_collides-Collides t p c (some b) s e n =
    IsTaken-succ t (succ p) c b (find_bib4-list t p c e).0 n

-- `try_next` after a collision at `b`, for its successor.
try_next-Collides :
    (t : BibTable) (b : TabledBib)
    → IsSorted t.bibs
    → IsTaken t b.key.src4
    → Collides t (succ b.key.src4) (try_next t (some b) (succ b.key.src4))
unfolding try_next next_of
try_next-Collides t b s (c, e) =
    subst (λ o. Collides t (succ b.key.src4) (next_of o (succ b.key.src4))) (sym e)
      (next_collides-Collides t b.key.src4 c _ s e refl)

succ-IsLast :
    (m : MaskDomain) (a : Ipv4TransportAddr)
    → IsLast m a
    → taddr4 m.ranges.here.prefix.addr m.next_port ≡ succ a
succ-IsLast m a l = ground (arith, l.port, l.addr)

consecutive-Collides :
    (t : BibTable) (m m' : MaskDomain) (c : Candidate) (prev : Option TabledBib)
    → IsSorted t.bibs
    → Round t m prev
    → Follows m m' c
    → c.consecutive ≡ true
    → Collides t c.addr (try_next t prev c.addr)
consecutive-Collides t m m' c none s r f e = absurd (omega (arith, r, f.started e))
consecutive-Collides t m m' c (some b) s (taken, last) f e =
    let q = f.is_succ e ∙ succ-IsLast m b.key.src4 last in
    subst (λ a. Collides t a (try_next t (some b) a)) (sym q) (try_next-Collides t b s taken)

-- The collision that a round finds, by either of the two searches, is the right one.
pub collision_of-Collides :
    (t : BibTable) (m m' : MaskDomain) (c : Candidate) (prev : Option TabledBib)
    → IsSorted t.bibs
    → Round t m prev
    → Follows m m' c
    → Collides t c.addr (collision_of t prev c)
unfolding collision_of
collision_of-Collides t m m' c prev s r f = elim (Bool-cases c.consecutive) [
  | inl e ↦
      subst
        (λ b. Collides t c.addr (if b then try_next t prev c.addr else found (find_bib4 t c.addr)))
        (sym e) (consecutive-Collides t m m' c prev s r f e)
  | inr e ↦
      subst
        (λ b. Collides t c.addr (if b then try_next t prev c.addr else found (find_bib4 t c.addr)))
        (sym e) (found-Collides t c.addr _ refl)
]
