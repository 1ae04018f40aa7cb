-- ===== src/Pool4/Ranges/RemovedCount.antt =====
-- `taddr_count` of a table over the loop of `remove_range` (mod/common/db/pool4/db.c).
use jool.Prelude.{
  ℕ, suc, ◌+◌, ◌%◌, ◌^◌, ◌≤◌, ◌<◌, ◌≡◌, refl, sym, subst, Bool, true, false, if◌then◌else◌, List,
  [], ◌∷◌, arith,
}
use jool.Types.{PortRange, Ipv4Range}
use jool.Address.{prefix4_contains}
use jool.Rbtree.Find.{All}
use jool.Pool4.MaskDomain.{port_range_count}
use jool.Pool4.Ranges.{
  Krealloc, refused, in_place, elsewhere, add32, sub32, Cut, kept, gone, trimmed, holed, cut_ports,
  cut_entry, Removal, removed, out_of_memory, dangling, with_first, punch, remove_loop, at,
}
use jool.Pool4.Ranges.Cover.{IsValid}
use jool.Pool4.Ranges.Counting.{HasPorts, total}
use jool.Pool4.Ranges.Removed.{step, step_here}

-- The ports that a round takes from the count.
paid : PortRange → Cut → ℕ
unfolding port_range_count
paid ports kept = 0
paid ports gone = port_range_count ports
paid ports (trimmed c p) = c
paid ports (holed c l r) = c

-- The ports that are left of the entry.
remains : PortRange → Cut → ℕ
unfolding port_range_count
remains ports kept = port_range_count ports
remains ports gone = 0
remains ports (trimmed c p) = port_range_count p
remains ports (holed c l r) = port_range_count l + port_range_count r

abbrev Pays : PortRange → Cut → Type 0
Pays ports c = (port_range_count ports ≡ paid ports c + remains ports c) × (paid ports c ≤ 2 ^ 16)

cut_ports-Pays :
    (rm ports : PortRange) → rm.min ≤ rm.max → ports.max < 2 ^ 16 → Pays ports (cut_ports rm ports)
unfolding cut_ports port_range_count paid remains
cut_ports-Pays rm ports v h = (ground arith, ground arith)

kept-Pays : (ports : PortRange) → Pays ports kept
unfolding paid remains
kept-Pays ports = (omega arith, omega arith)

if-Pays :
    (b : Bool) (ports : PortRange) (c : Cut) → Pays ports c → Pays ports (if b then c else kept)
if-Pays true ports c h = h
if-Pays false ports c h = kept-Pays ports

cut_entry-Pays :
    (rm entry : Ipv4Range) → IsValid rm → HasPorts entry → Pays entry.ports (cut_entry rm entry)
unfolding cut_entry
cut_entry-Pays rm entry v h =
    if-Pays (prefix4_contains rm.prefix entry.prefix.addr) entry.ports
      (cut_ports rm.ports entry.ports) (cut_ports-Pays rm.ports entry.ports v h)

-- The ports of the right parts of the ranges that get a hole.
unfoldable pub right_parts : Ipv4Range → List Ipv4Range → ℕ
right_parts rm [] = 0
right_parts rm (entry ∷ ranges) =
    let rest = right_parts rm ranges in
    elim (cut_entry rm entry) [
      | kept ↦ rest
      | gone ↦ rest
      | trimmed c p ↦ rest
      | holed c l r ↦ port_range_count r + rest
    ]

-- A loop that ends with no error has counted `s` ports too many, if the count was right before.
abbrev pub Exceeds : ℕ → ℕ → ℕ → Removal → Type 0
Exceeds count old s (removed c l) = (c + old) % 2 ^ 32 ≡ (count + (total l + s)) % 2 ^ 32
Exceeds count old s (out_of_memory c l) = Unit
Exceeds count old s (dangling c l) = Unit

with_first-Exceeds :
    (count c old s left : ℕ) (entry : Ipv4Range) (r : Removal)
    → (left ≡ c + port_range_count entry.ports)
    → c ≤ 2 ^ 16
    → Exceeds (sub32 count c) old s r
    → Exceeds count (left + old) s (with_first entry r)
unfolding with_first total sub32
with_first-Exceeds count c old s left entry (removed d l) q h e = omega (arith, q, h, e)
with_first-Exceeds count c old s left entry (out_of_memory d l) q h e = tt
with_first-Exceeds count c old s left entry (dangling d l) q h e = tt

kept-Exceeds :
    (count old s : ℕ) (entry : Ipv4Range) (r : Removal)
    → Exceeds count old s r
    → Exceeds count (port_range_count entry.ports + old) s (with_first entry r)
unfolding with_first total
kept-Exceeds count old s entry (removed d l) e = omega (arith, e)
kept-Exceeds count old s entry (out_of_memory d l) e = tt
kept-Exceeds count old s entry (dangling d l) e = tt

gone-Exceeds :
    (count c old s left : ℕ) (r : Removal)
    → left ≡ c + 0
    → c ≤ 2 ^ 16
    → Exceeds (sub32 count c) old s r
    → Exceeds count (left + old) s r
unfolding sub32
gone-Exceeds count c old s left (removed d l) q h e = omega (arith, q, h, e)
gone-Exceeds count c old s left (out_of_memory d l) q h e = tt
gone-Exceeds count c old s left (dangling d l) q h e = tt

punch-Exceeds :
    (answer : Krealloc) (count c old s entry : ℕ) (left right : Ipv4Range) (ranges : List Ipv4Range)
    (rest : Removal)
    → entry ≡ c + (port_range_count left.ports + port_range_count right.ports)
    → c ≤ 2 ^ 16
    → Exceeds (add32 (sub32 count c) (port_range_count right.ports)) old s rest
    → Exceeds count
        (entry + old)
        (port_range_count right.ports + s)
        (with_first left (punch answer (sub32 count c) ranges right rest))
unfolding punch with_first add32 sub32 total
punch-Exceeds refused count c old s entry left right ranges rest q h e = tt
punch-Exceeds elsewhere count c old s entry left right ranges rest q h e = tt
punch-Exceeds in_place count c old s entry left right ranges (removed d l) q h e =
    omega (arith, q, h, e)
punch-Exceeds in_place count c old s entry left right ranges (out_of_memory d l) q h e = tt
punch-Exceeds in_place count c old s entry left right ranges (dangling d l) q h e = tt

abbrev parts_step : Cut → ℕ → ℕ
parts_step cut rest = elim cut [
  | kept ↦ rest
  | gone ↦ rest
  | trimmed c p ↦ rest
  | holed c l r ↦ port_range_count r + rest
]

step-Exceeds :
    (k : ℕ → Krealloc) (n count : ℕ) (entry : Ipv4Range) (ranges : List Ipv4Range) (rm : Ipv4Range)
    (c : Cut)
    → Pays entry.ports c
    → ((m x : ℕ) → Exceeds x (total ranges) (right_parts rm ranges) (remove_loop k m x ranges rm))
    → Exceeds count
        (port_range_count entry.ports + total ranges)
        (parts_step c (right_parts rm ranges))
        (step k n count entry ranges rm c)
unfolding paid remains
step-Exceeds k n count entry ranges rm kept h f =
    kept-Exceeds count (total ranges) (right_parts rm ranges) entry _ (f n count)
step-Exceeds k n count entry ranges rm gone h f =
    gone-Exceeds count _ (total ranges) (right_parts rm ranges) (port_range_count entry.ports) _ h.0
      h.1 (f n _)
step-Exceeds k n count entry ranges rm (trimmed c p) h f =
    with_first-Exceeds count c (total ranges) (right_parts rm ranges) (port_range_count entry.ports)
      (at entry p) _ h.0 h.1 (f n _)
step-Exceeds k n count entry ranges rm (holed c l r) h f =
    punch-Exceeds (k n) count c (total ranges) (right_parts rm ranges)
      (port_range_count entry.ports) (at entry l) (at entry r) ranges _ h.0 h.1 (f (suc n) _)

-- A loop of `remove_range` that ends with no error, over ports of 16 bits and for a range to remove
-- that is not empty, changes `taddr_count` by the number of the
-- transport addresses that it removes, as 32-bit words, but for the right parts of the ranges that
-- get a hole: these are counted a second time.
pub remove_loop-Exceeds :
    (k : ℕ → Krealloc) (n count : ℕ) (ranges : List Ipv4Range) (rm : Ipv4Range)
    → IsValid rm
    → All HasPorts ranges
    → Exceeds count (total ranges) (right_parts rm ranges) (remove_loop k n count ranges rm)
unfolding right_parts total remove_loop
remove_loop-Exceeds k n count [] rm v h = refl
remove_loop-Exceeds k n count (entry ∷ ranges) rm v h =
    subst (Exceeds count (total (entry ∷ ranges)) (right_parts rm (entry ∷ ranges)))
      (sym (step_here k n count entry ranges rm))
      (step-Exceeds k n count entry ranges rm (cut_entry rm entry) (cut_entry-Pays rm entry v h.0)
        (λ m x. remove_loop-Exceeds k m x ranges rm v h.1))
