-- ===== src/Bib/Mask/Search.antt =====
-- `find_available_mask` against its reference: try the addresses of the domain one after the other.
use jool.Prelude.{
  ℕ, zero, suc, ◌<◌, ◌≤◌, ◌≡◌, refl, sym, ap, subst, ◌∙◌, List, [], ◌∷◌, ◌++◌, Option, none, some,
  Cursor, arith,
}
use jool.Types.{Ipv4TransportAddr, Result, ok, err, enoent}
use jool.Pool4.MaskDomain.{MaskDomain, Candidate}
use jool.Pool4.MaskDomain.Rotation.{IsDomain, rotation}
use jool.Pool4.MaskDomain.Budget.{
  limit, budget, Gives, mask_domain_next_end, mask_domain_next-Gives,
}
use jool.Bib.Table.{TabledBib, BibTable}
use jool.Bib.Lookup.{
  MaskResult, find_bib4, after_collision, after_next, find_mask_loop, find_available_mask,
}
use jool.Bib.Mask.Order.{IsSorted}
use jool.Bib.Mask.Steps.{
  IsLast, IsTaken, Round, Collides, Follows, mask_domain_next-Follows, collision_of-Collides,
}

-- The first `n` addresses of a list that starts again at its end.
pub visited : ℕ → List Ipv4TransportAddr → List Ipv4TransportAddr
visited zero xs = []
visited (suc n) [] = []
visited (suc n) (x ∷ xs) = x ∷ visited n (xs ++ (x ∷ []))

pick :
    Ipv4TransportAddr
    → Result Ipv4TransportAddr
    → Option (Cursor TabledBib)
    → Result Ipv4TransportAddr
pick a rest none = ok a
pick a rest (some c) = rest

-- The first address that no BIB entry has.
pub first_free : BibTable → List Ipv4TransportAddr → Result Ipv4TransportAddr
unfolding pick
first_free t [] = err enoent
first_free t (a ∷ xs) = pick a (first_free t xs) (find_bib4 t a)

-- A round whose candidate heads the list.
round-first_free :
    (t : BibTable) (rest : MaskDomain → Option TabledBib → MaskResult) (m' : MaskDomain)
    (c : Candidate) (xs : List Ipv4TransportAddr) (o : Option TabledBib)
    → Collides t c.addr o
    → ((b : TabledBib) → o ≡ some b → (rest m' (some b)).1 ≡ first_free t xs)
    → (after_collision rest m' c o).1 ≡ first_free t (c.addr ∷ xs)
unfolding after_collision first_free
round-first_free t rest m' c xs none q h = sym (ap (pick c.addr (first_free t xs)) q)
round-first_free t rest m' c xs (some b) (q, (d, e)) h =
    h b refl ∙ sym (ap (pick c.addr (first_free t xs)) e)

next_Round :
    (t : BibTable) (m m' : MaskDomain) (c : Candidate) (b : TabledBib)
    → Follows m m' c
    → Collides t c.addr (some b)
    → Round t m' (some b)
next_Round t m m' c b f (q, taken) = subst (λ a. IsTaken t a × IsLast m' a) (sym q) (taken, f.last)

visited-cons :
    (n : ℕ) (a : Ipv4TransportAddr) (xs ys : List Ipv4TransportAddr)
    → xs ≡ a ∷ ys
    → visited (suc n) xs ≡ a ∷ visited n (ys ++ (a ∷ []))
unfolding visited
visited-cons n a xs ys e = ap (visited (suc n)) e

-- A round with something left, and then the rounds after it.
step-first_free :
    (fuel : ℕ) (t : BibTable) (m : MaskDomain) (prev : Option TabledBib) (n : ℕ) (g : Gives m)
    → IsSorted t.bibs
    → Round t m prev
    → ((b : TabledBib)
        → Round t g.to (some b)
        → (find_mask_loop fuel t g.to (some b)).1 ≡ first_free t (visited n (rotation g.to)))
    → (find_mask_loop (suc fuel) t m prev).1 ≡ first_free t (visited (suc n) (rotation m))
unfolding find_mask_loop after_next
step-first_free fuel t m prev n g s r ih =
    let f = mask_domain_next-Follows m g.to g.candidate g.gives in
    let q = collision_of-Collides t m g.to g.candidate prev s r f in
    ap (λ r. (after_next (find_mask_loop fuel t) t prev r.0 r.1).1) g.gives
    ∙ round-first_free t (find_mask_loop fuel t) g.to g.candidate
        (visited n (g.rest ++ (g.candidate.addr ∷ []))) _ q
        (λ b e.
          ih b (next_Round t m g.to g.candidate b f (subst (Collides t g.candidate.addr) e q))
          ∙ ap (λ xs. first_free t (visited n xs)) g.last)
    ∙ ap (first_free t) (sym (visited-cons n g.candidate.addr (rotation m) g.rest g.first))

-- `n` is the budget, and smaller than the fuel.
loop-first_free :
    (fuel : ℕ) (t : BibTable) (m : MaskDomain) (prev : Option TabledBib) (n : ℕ)
    → budget m ≡ n
    → n < fuel
    → IsDomain m
    → IsSorted t.bibs
    → Round t m prev
    → (find_mask_loop fuel t m prev).1 ≡ first_free t (visited n (rotation m))
unfolding find_mask_loop after_next first_free visited
loop-first_free zero t m prev n e h d s r = absurd (omega (arith, h))
loop-first_free (suc fuel) t m prev zero e h d s r =
    ap (λ r. (after_next (find_mask_loop fuel t) t prev r.0 r.1).1) (mask_domain_next_end m e)
loop-first_free (suc fuel) t m prev (suc n) e h d s r =
    let g = mask_domain_next-Gives m d (omega (arith, e)) in
    step-first_free fuel t m prev n g s r (λ b q.
      loop-first_free fuel t g.to (some b) n (omega (arith, e, g.spent)) (omega (arith, h)) g.valid
        s q)

limit_le : (m : MaskDomain) → limit m ≤ m.taddr_count
limit_le m = ground arith

-- On a table whose `tree4` is sorted, and a fresh domain whose ranges are not empty, the search
-- returns the first address, in the domain's order from its offset on, that no BIB entry has, and
-- -ENOENT when all the addresses that `taddr_count` and `max_iterations` allow are taken: looking at
-- the successor of the last collision only changes nothing, and the fuel never ends the loop.
pub find_available_mask-first_free :
    (t : BibTable) (m : MaskDomain)
    → IsSorted t.bibs
    → IsDomain m
    → m.taddr_counter ≡ 0
    → (find_available_mask t m).1 ≡ first_free t (visited (limit m) (rotation m))
unfolding find_available_mask
find_available_mask-first_free t m s d z =
    loop-first_free (suc m.taddr_count) t m none (limit m) (omega (arith, z))
      (omega (arith, limit_le m)) d s z

first_free_step :
    (t : BibTable) (a b : Ipv4TransportAddr) (r : Result Ipv4TransportAddr)
    (o : Option (Cursor TabledBib))
    → find_bib4 t a ≡ o
    → (r ≡ ok b → find_bib4 t b ≡ none)
    → pick a r o ≡ ok b
    → find_bib4 t b ≡ none
unfolding pick
first_free_step t a b r none e ih q = cc (e, q)
first_free_step t a b r (some c) e ih q = ih q

first_free-free :
    (t : BibTable) (xs : List Ipv4TransportAddr) (b : Ipv4TransportAddr)
    → first_free t xs ≡ ok b
    → find_bib4 t b ≡ none
unfolding first_free
first_free-free t [] b q = absurd (cc q)
first_free-free t (a ∷ xs) b q =
    first_free_step t a b (first_free t xs) (find_bib4 t a) refl (first_free-free t xs b) q

-- Under the same conditions, an address that the search returns belongs to no BIB entry.
pub find_available_mask_free :
    (t : BibTable) (m : MaskDomain) (a : Ipv4TransportAddr)
    → IsSorted t.bibs
    → IsDomain m
    → m.taddr_counter ≡ 0
    → (find_available_mask t m).1 ≡ ok a
    → find_bib4 t a ≡ none
find_available_mask_free t m a s d z e =
    first_free-free t (visited (limit m) (rotation m)) a
      (sym (find_available_mask-first_free t m s d z) ∙ e)
