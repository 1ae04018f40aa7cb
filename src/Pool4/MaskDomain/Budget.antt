-- ===== src/Pool4/MaskDomain/Budget.antt =====
-- How many candidates a mask domain gives: `taddr_count`, and `max_iterations` unless it is 0.
use Prim.Native.Nat.{min}
use jool.Prelude.{
  ℕ, suc, ◌+◌, ◌-◌, ◌<◌, ◌≡◌, ◌∙◌, ap, ◌==◌, if◌then◌else◌, List, [], ◌∷◌, ◌++◌, arith,
}
use jool.Types.{Ipv4TransportAddr, ok, err, enoent}
use jool.Pool4.MaskDomain.{MaskDomain, Candidate, step_port, mask_domain_next}
use jool.Pool4.MaskDomain.Rotation.{IsDomain, rotation, step_port-Emits}

abbrev pub limit : MaskDomain → ℕ
limit m = if m.max_iterations == 0 then m.taddr_count else min m.taddr_count m.max_iterations

-- The candidates that are left to give.
abbrev pub budget : MaskDomain → ℕ
budget m = limit m - m.taddr_counter

abbrev pub counted : MaskDomain → MaskDomain
counted m = record m { taddr_counter = m.taddr_counter + 1 }

pub mask_domain_next_ok :
    (m : MaskDomain) → 0 < budget m → mask_domain_next m ≡ step_port (counted m)
unfolding mask_domain_next
mask_domain_next_ok m h = ground arith

-- Once the budget is spent, `mask_domain_next` ends the iteration with -ENOENT.
pub mask_domain_next_end :
    (m : MaskDomain) → budget m ≡ 0 → mask_domain_next m ≡ (counted m, err enoent)
unfolding mask_domain_next
mask_domain_next_end m h = ground arith

-- One call, with something left: the next candidate of the rotation, and one fewer left.
pub record Gives (m : MaskDomain) : Type 0 where
  pub to : MaskDomain
  pub candidate : Candidate
  pub rest : List Ipv4TransportAddr
  pub gives : mask_domain_next m ≡ (to, ok candidate)
  pub first : rotation m ≡ candidate.addr ∷ rest
  pub last : rotation to ≡ rest ++ (candidate.addr ∷ [])
  pub valid : IsDomain to
  pub spent : suc (budget to) ≡ budget m

-- While the budget is not spent, `mask_domain_next` gives the address that heads the rotation of a
-- domain whose ranges are not empty, moves it to the end, and leaves one fewer to give.
pub mask_domain_next-Gives : (m : MaskDomain) → IsDomain m → 0 < budget m → Gives m
mask_domain_next-Gives m d h =
    let valid : IsDomain (counted m) = record {
      before = d.before;
      here = d.here;
      after = d.after;
      low = d.low;
      high = d.high;
    } in
    let (c, q, e) = step_port-Emits (counted m) valid in
    record {
      to = (step_port (counted m)).0;
      candidate = c;
      rest = e.rest;
      gives = mask_domain_next_ok m h ∙ ap (λ r. ((step_port (counted m)).0, r)) q;
      first = e.first;
      last = e.last;
      valid = e.valid;
      spent = omega (arith, h, ap budget e.same);
    }
