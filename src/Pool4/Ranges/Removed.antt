-- ===== src/Pool4/Ranges/Removed.antt =====
-- Which transport addresses the ranges of a table hold after the loop of `remove_range`
-- (mod/common/db/pool4/db.c).
use jool.Prelude.{
  ℕ, suc, ◌+◌, ◌≤◌, ◌<◌, ◌≡◌, refl, sym, ap, subst, ◌∙◌, Bool, true, false, not, ◌&&◌, ◌||◌,
  or_false, List, [], ◌∷◌, any, arith,
}
use jool.Types.{InAddr, PortRange, Ipv4Range, addr4_equals}
use jool.Address.{prefix4_contains}
use jool.Pool4.MaskDomain.{port_range_contains, port_range_count}
use jool.Pool4.Ranges.{
  Krealloc, refused, in_place, elsewhere, Cut, kept, gone, trimmed, holed, cut_ports, cut_entry,
  Removal, removed, out_of_memory, dangling, with_first, punch, remove_loop, add32, sub32, at,
}
use jool.Pool4.Ranges.Cover.{holds, covers, IsValid, addr4_equals-eq}

-- Whether `rm` names the transport address: `rm` has a prefix.
unfoldable pub names : Ipv4Range → InAddr → ℕ → Bool
unfolding port_range_contains
names rm addr port = prefix4_contains rm.prefix addr && port_range_contains rm.ports port

abbrev less : Bool → Bool → Bool
less b c = b && not c

-- What is left of the entry.
abbrev left_of : Ipv4Range → Cut → List Ipv4Range
left_of entry kept = entry ∷ []
left_of entry gone = []
left_of entry (trimmed c ports) = at entry ports ∷ []
left_of entry (holed c left right) = at entry left ∷ at entry right ∷ []

in_ports : ℕ → PortRange → Cut → Bool
unfolding port_range_contains
in_ports port ports kept = port_range_contains ports port
in_ports port ports gone = false
in_ports port ports (trimmed c p) = port_range_contains p port
in_ports port ports (holed c l r) = port_range_contains l port || port_range_contains r port

cut_ports-exact :
    (rm ports : PortRange) (port : ℕ)
    → rm.min ≤ rm.max
    → in_ports port ports (cut_ports rm ports)
      ≡ less (port_range_contains ports port) (port_range_contains rm port)
unfolding in_ports cut_ports port_range_contains
cut_ports-exact rm ports port h = ground arith

-- The right part of a range with a hole is kept when the loop comes to it.
pub cut_ports-behind :
    (rm : PortRange) (max : ℕ)
    → rm.min ≤ rm.max
    → rm.max < max
    → cut_ports rm (record { min = rm.max + 1; max = max }) ≡ kept
unfolding cut_ports
cut_ports-behind rm max h k = ground arith

left_of-covers :
    (entry : Ipv4Range) (c : Cut) (addr : InAddr) (port : ℕ)
    → covers addr port (left_of entry c)
      ≡ (addr4_equals entry.prefix.addr addr && in_ports port entry.ports c)
unfolding covers any holds in_ports
left_of-covers entry kept addr port = ground arith
left_of-covers entry gone addr port = ground arith
left_of-covers entry (trimmed c p) addr port = ground arith
left_of-covers entry (holed c l r) addr port = ground arith

same_prefix :
    (rm entry : Ipv4Range) (addr : InAddr)
    → addr4_equals entry.prefix.addr addr ≡ true
    → prefix4_contains rm.prefix entry.prefix.addr ≡ prefix4_contains rm.prefix addr
same_prefix rm entry addr e =
    ap (prefix4_contains rm.prefix) (addr4_equals-eq entry.prefix.addr addr e)

kept_ports :
    (port : ℕ) (ports : PortRange)
    → in_ports port ports kept ≡ (port_range_contains ports port && true)
unfolding in_ports
kept_ports port ports = ground arith

in_entry :
    (rm entry : Ipv4Range) (addr : InAddr) (port : ℕ) (inside same : Bool)
    → rm.ports.min ≤ rm.ports.max
    → prefix4_contains rm.prefix entry.prefix.addr ≡ inside
    → addr4_equals entry.prefix.addr addr ≡ same
    → covers addr port (left_of entry (cut_entry rm entry))
      ≡ less (holds addr port entry) (names rm addr port)
unfolding cut_entry holds names
in_entry rm entry addr port inside false h e s =
    left_of-covers entry (cut_entry rm entry) addr port ∙ simp (s) refl
in_entry rm entry addr port true true h e s =
    let q = sym (same_prefix rm entry addr s) ∙ e in
    left_of-covers entry (cut_entry rm entry) addr port
    ∙ simp (e, s, q) (cut_ports-exact rm.ports entry.ports port h)
in_entry rm entry addr port false true h e s =
    let q = sym (same_prefix rm entry addr s) ∙ e in
    left_of-covers entry (cut_entry rm entry) addr port
    ∙ simp (e, s, q) (kept_ports port entry.ports)

cut_entry-covers :
    (rm entry : Ipv4Range) (addr : InAddr) (port : ℕ)
    → IsValid rm
    → covers addr port (left_of entry (cut_entry rm entry))
      ≡ less (holds addr port entry) (names rm addr port)
cut_entry-covers rm entry addr port h =
    in_entry rm entry addr port (prefix4_contains rm.prefix entry.prefix.addr)
      (addr4_equals entry.prefix.addr addr) h refl refl

-- What the loop may end with, for a transport address that was held before (`old`) and that is to be
-- removed (`rm`).
abbrev pub Removes : (ℕ → Krealloc) → InAddr → ℕ → Bool → Bool → Removal → Type 0
Removes k addr port old rm (removed c l) = covers addr port l ≡ (old && not rm)
Removes k addr port old rm (out_of_memory c l) =
    ((m : ℕ) × (k m ≡ refused)) × (covers addr port l ≡ true → old ≡ true)
Removes k addr port old rm (dangling c l) =
    ((m : ℕ) × (k m ≡ elsewhere)) × (covers addr port l ≡ true → old ≡ true)

grown :
    (held c old rm b : Bool)
    → held ≡ less b rm
    → (c ≡ true → old ≡ true)
    → (held || c) ≡ true
    → (b || old) ≡ true
grown held c old rm b e h q = ground (arith, h)

grown_twice :
    (l r c old rm b : Bool)
    → (l || r) ≡ less b rm
    → (c ≡ true → old ≡ true)
    → (l || (r || c)) ≡ true
    → (b || old) ≡ true
grown_twice l r c old rm b e h q = ground (arith, h)

beside : (c old b : Bool) → (c ≡ true → old ≡ true) → c ≡ true → (b || old) ≡ true
beside c old b h q = ground (arith, h)

with_first-Removes :
    (k : ℕ → Krealloc) (addr : InAddr) (port : ℕ) (old rm b : Bool) (entry : Ipv4Range)
    (r : Removal)
    → holds addr port entry ≡ less b rm
    → Removes k addr port old rm r
    → Removes k addr port (b || old) rm (with_first entry r)
unfolding with_first covers any
with_first-Removes k addr port old rm b entry (removed c l) e h = ground arith
with_first-Removes k addr port old rm b entry (out_of_memory c l) e h =
    (h.0, grown (holds addr port entry) (covers addr port l) old rm b e h.1)
with_first-Removes k addr port old rm b entry (dangling c l) e h =
    (h.0, grown (holds addr port entry) (covers addr port l) old rm b e h.1)

gone-Removes :
    (k : ℕ → Krealloc) (addr : InAddr) (port : ℕ) (old rm b : Bool) (r : Removal)
    → false ≡ less b rm
    → Removes k addr port old rm r
    → Removes k addr port (b || old) rm r
gone-Removes k addr port old rm b (removed c l) e h = ground arith
gone-Removes k addr port old rm b (out_of_memory c l) e h =
    (h.0, beside (covers addr port l) old b h.1)
gone-Removes k addr port old rm b (dangling c l) e h = (h.0, beside (covers addr port l) old b h.1)

-- The two parts of a range with a hole, and the three answers of `krealloc`.
punch-Removes :
    (k : ℕ → Krealloc) (n : ℕ) (answer : Krealloc) (addr : InAddr) (port count : ℕ) (rm b : Bool)
    (left right : Ipv4Range) (ranges : List Ipv4Range) (rest : Removal)
    → k n ≡ answer
    → (holds addr port left || holds addr port right) ≡ less b rm
    → Removes k addr port (covers addr port ranges) rm rest
    → Removes k addr port
        (b || covers addr port ranges)
        rm
        (with_first left (punch answer count ranges right rest))
unfolding punch with_first covers any
punch-Removes k n refused addr port count rm b left right ranges rest a e h =
    ((n, a), λ q. ground arith)
punch-Removes k n elsewhere addr port count rm b left right ranges rest a e h =
    ((n, a), λ q. ground arith)
punch-Removes k n in_place addr port count rm b left right ranges (removed c l) a e h = ground arith
punch-Removes k n in_place addr port count rm b left right ranges (out_of_memory c l) a e h = (
  h.0,
  grown_twice (holds addr port left) (holds addr port right) (covers addr port l)
      (covers addr port ranges) rm b e h.1,
)
punch-Removes k n in_place addr port count rm b left right ranges (dangling c l) a e h = (
  h.0,
  grown_twice (holds addr port left) (holds addr port right) (covers addr port l)
      (covers addr port ranges) rm b e h.1,
)

abbrev pub step : (ℕ → Krealloc) → ℕ → ℕ → Ipv4Range → List Ipv4Range → Ipv4Range → Cut → Removal
step k n count entry ranges rm c = elim c [
  | kept ↦ with_first entry (remove_loop k n count ranges rm)
  | gone ↦ remove_loop k n (sub32 count (port_range_count entry.ports)) ranges rm
  | trimmed x ports ↦ with_first (at entry ports) (remove_loop k n (sub32 count x) ranges rm)
  | holed x left right ↦ with_first (at entry left) (
      punch (k n) (sub32 count x) ranges (at entry right)
        (remove_loop k (suc n) (add32 (sub32 count x) (port_range_count right)) ranges rm))
]

pub step_here :
    (k : ℕ → Krealloc) (n count : ℕ) (entry : Ipv4Range) (ranges : List Ipv4Range) (rm : Ipv4Range)
    → remove_loop k n count (entry ∷ ranges) rm
      ≡ step k n count entry ranges rm (cut_entry rm entry)
unfolding remove_loop
step_here k n count entry ranges rm = refl

step-Removes :
    (k : ℕ → Krealloc) (n count : ℕ) (entry : Ipv4Range) (ranges : List Ipv4Range) (rm : Ipv4Range)
    (addr : InAddr) (port : ℕ) (c : Cut)
    → covers addr port (left_of entry c) ≡ less (holds addr port entry) (names rm addr port)
    → ((m count : ℕ)
        → Removes k addr port
            (covers addr port ranges)
            (names rm addr port)
            (remove_loop k m count ranges rm))
    → Removes k addr port
        (covers addr port (entry ∷ ranges))
        (names rm addr port)
        (step k n count entry ranges rm c)
unfolding covers any
step-Removes k n count entry ranges rm addr port kept e h =
    with_first-Removes k addr port _ _ _ entry _ (sym (or_false (holds addr port entry)) ∙ e)
      (h n count)
step-Removes k n count entry ranges rm addr port gone e h =
    gone-Removes k addr port _ _ _ _ e (h n _)
step-Removes k n count entry ranges rm addr port (trimmed c ports) e h =
    with_first-Removes k addr port _ _ _ (at entry ports) _
      (sym (or_false (holds addr port (at entry ports))) ∙ e) (h n _)
step-Removes k n count entry ranges rm addr port (holed c left right) e h =
    punch-Removes k n (k n) addr port _ _ _ (at entry left) (at entry right) ranges _ refl
      (sym (
          ap (λ b. holds addr port (at entry left) || b)
            (or_false (holds addr port (at entry right))))
        ∙ e)
      (h (suc n) _)

-- `remove_range` takes away exactly the transport addresses that its argument names; it fails only
-- where a hole needs memory that `krealloc` refuses, and loses its table only where `krealloc` moves
-- it, and then the ranges hold nothing that they did not hold before.
pub remove_loop-Removes :
    (k : ℕ → Krealloc) (n count : ℕ) (ranges : List Ipv4Range) (rm : Ipv4Range) (addr : InAddr)
    (port : ℕ)
    → IsValid rm
    → Removes k addr port
        (covers addr port ranges)
        (names rm addr port)
        (remove_loop k n count ranges rm)
unfolding remove_loop covers any
remove_loop-Removes k n count [] rm addr port v = refl
remove_loop-Removes k n count (entry ∷ ranges) rm addr port v =
    subst (Removes k addr port (covers addr port (entry ∷ ranges)) (names rm addr port))
      (sym (step_here k n count entry ranges rm))
      (step-Removes k n count entry ranges rm addr port (cut_entry rm entry)
        (cut_entry-covers rm entry addr port v)
        (λ m c. remove_loop-Removes k m c ranges rm addr port v))
