-- ===== src/Pool4/MaskDomain.antt =====
-- `struct mask_domain` (mod/common/db/pool4/db.c): the candidates for the mask of one connection,
-- and the iteration over them.
pub mod Rotation
pub mod Budget
use jool.Prelude.{
  ℕ, suc, ◌+◌, ◌-◌, ◌%◌, ◌≡◌, Bool, true, false, not, ◌&&◌, ◌||◌, ltb, leb, ◌==◌, if◌then◌else◌,
  List, [], ◌∷◌, ◌++◌, Option, none, some, Cursor, whole, any,
}
use jool.Types.{Ipv4TransportAddr, Ipv4Range, PortRange, Result, ok, err, enoent, addr4_equals}

-- `current_range` points into the array of ranges: a cursor. `next_port` is `current_port + 1`,
-- since the C field starts one below the first port, which may be -1.
pub record MaskDomain : Type 0 where
  pub pool_mark : ℕ
  pub taddr_count : ℕ
  pub taddr_counter : ℕ
  pub max_iterations : ℕ
  pub ranges : Cursor Ipv4Range
  pub next_port : ℕ
  pub dynamic : Bool

-- common/types.c.
unfoldable pub port_range_contains : PortRange → ℕ → Bool
port_range_contains range port = leb range.min port && leb port range.max

unfoldable pub port_range_count : PortRange → ℕ
port_range_count range = range.max + 1 - range.min

-- The cursor back at the first element: `first_domain_entry`.
rewind_to : List Ipv4Range → Ipv4Range → Cursor Ipv4Range
rewind_to [] last = record { before = []; here = last; after = [] }
rewind_to (x ∷ xs) last = record { before = []; here = x; after = xs ++ (last ∷ []) }

-- `current_range++`, and back to the first range behind the last one.
advance_to : List Ipv4Range → List Ipv4Range → Ipv4Range → Cursor Ipv4Range
unfolding rewind_to
advance_to [] before here = rewind_to before here
advance_to (x ∷ xs) before here = record { before = before ++ (here ∷ []); here = x; after = xs }

pub advance : Cursor Ipv4Range → Cursor Ipv4Range
unfolding advance_to
advance c = advance_to c.after c.before c.here

-- What `mask_domain_next` writes: the address, and `*consecutive`.
pub record Candidate : Type 0 where
  pub addr : Ipv4TransportAddr
  pub consecutive : Bool

-- The address at the current range and a port, which becomes the current port.
take_port : MaskDomain → Cursor Ipv4Range → ℕ → Bool → MaskDomain × Result Candidate
take_port masks ranges port consecutive = (
  record masks { ranges = ranges; next_port = port + 1 },
  ok (record {
    addr = record { l3 = ranges.here.prefix.addr; l4 = port };
    consecutive = consecutive;
  }),
)

-- The increment of the port, and the change of range that may follow.
pub step_port : MaskDomain → MaskDomain × Result Candidate
unfolding take_port advance
step_port masks =
    if ltb masks.ranges.here.ports.max masks.next_port
    then (let c = advance masks.ranges in take_port masks c c.here.ports.min false)
    else take_port masks masks.ranges masks.next_port (not (masks.taddr_counter == 1))

unfoldable pub mask_domain_next : MaskDomain → MaskDomain × Result Candidate
unfolding step_port
mask_domain_next masks0 =
    let masks = record masks0 { taddr_counter = masks0.taddr_counter + 1 } in
    if ltb masks.taddr_count masks.taddr_counter
    then (masks, err enoent)
    else if not (masks.max_iterations == 0) && ltb masks.max_iterations masks.taddr_counter
    then (masks, err enoent)
    else step_port masks

unfoldable pub mask_domain_matches : MaskDomain → Ipv4TransportAddr → Bool
unfolding port_range_contains any
mask_domain_matches masks addr =
    any (λ entry. addr4_equals entry.prefix.addr addr.l3 && port_range_contains entry.ports addr.l4)
      (whole masks.ranges)

abbrev pub mask_domain_is_dynamic : MaskDomain → Bool
mask_domain_is_dynamic masks = masks.dynamic
