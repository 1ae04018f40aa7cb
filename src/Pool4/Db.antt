-- ===== src/Pool4/Db.antt =====
-- pool4 (mod/common/db/pool4/db.c, empty.c): the tables of the pool, whether it contains an address,
-- and the mask domain that a connection draws from.
--
-- The kernel's answers are parameters: the hash of RFC 6056, the addresses of the interfaces, and
-- the route of the outgoing packet.
pub mod PortSearch
pub mod Start
use Prim.Native.Nat.{Ordering}
use jool.Prelude.{
  ℕ, zero, suc, ◌+◌, ◌-◌, ◌*◌, ◌/◌, ◌%◌, ◌^◌, Bool, true, false, not, ◌&&◌, ltb, leb, ◌==◌,
  if◌then◌else◌, List, [], ◌∷◌, ◌++◌, Option, none, some, Cursor, length, get_elem?,
}
use jool.Types.{
  InAddr, In6Addr, Ipv4TransportAddr, Ipv6TransportAddr, Ipv6Prefix, Ipv4Range, PortRange,
  L4Protocol, tcp, udp, icmp, other, Result, ok, err, taddr4, ipv4_addr_cmp,
}
use jool.Verdict.{
  Outcome, drop, untranslatable, jstat_6056_f, jstat_mask_domain_not_found, jstat_unknown,
  jstat_enomem, jstat_untranslatable_dst6,
}
use jool.Rfc6052.{extract, prefix_len}
use jool.Rbtree.{Tree, leaf, rbtree_find}
use jool.Pool4.MaskDomain.{MaskDomain, port_range_count}

-- `struct pool4_table`. `mark` and `addr` are the members of its union: the tree of the table tells
-- which one counts. The flags of the iterations are two Booleans.
pub record Pool4Table : Type 0 where
  pub mark : ℕ
  pub addr : InAddr
  pub taddr_count : ℕ
  pub max_iterations_allowed : ℕ
  pub iterations_infinite : Bool
  pub iterations_auto : Bool
  pub ranges : List Ipv4Range

pub record Pool4Trees : Type 0 where
  pub tcp_tree : Tree Pool4Table
  pub udp_tree : Tree Pool4Table
  pub icmp_tree : Tree Pool4Table

pub record Pool4 : Type 0 where
  pub tree_mark : Pool4Trees
  pub tree_addr : Pool4Trees

-- NULL, with a warning, for other protocols.
unfoldable pub get_tree : Pool4Trees → L4Protocol → Option (Tree Pool4Table)
get_tree trees tcp = some trees.tcp_tree
get_tree trees udp = some trees.udp_tree
get_tree trees icmp = some trees.icmp_tree
get_tree trees other = none

-- The sign of a difference of two 32-bit words, as an `int`.
unfoldable pub int_sign : ℕ → Ordering
int_sign n = if n == 0 then Ordering.eq else if ltb n (2 ^ 31) then Ordering.gt else Ordering.lt

-- `((int) mark) - (int) table->mark`, with the wrap-around of the kernel's build.
unfoldable pub cmp_mark : ℕ → Pool4Table → Ordering
unfolding int_sign
cmp_mark mark table = int_sign ((mark + 2 ^ 32 - table.mark) % 2 ^ 32)

unfoldable pub find_by_mark : Option (Tree Pool4Table) → ℕ → Option Pool4Table
unfolding rbtree_find cmp_mark
find_by_mark none mark = none
find_by_mark (some tree) mark = rbtree_find (cmp_mark mark) tree

unfoldable pub find_by_addr : Option (Tree Pool4Table) → InAddr → Option Pool4Table
unfolding rbtree_find ipv4_addr_cmp
find_by_addr none addr = none
find_by_addr (some tree) addr = rbtree_find (λ table. ipv4_addr_cmp table.addr addr) tree

abbrev pub is_leaf : Tree Pool4Table → Bool
is_leaf leaf = true
is_leaf _ = false

unfoldable pub is_empty : Pool4 → Bool
is_empty pool =
    is_leaf pool.tree_mark.tcp_tree
    && (is_leaf pool.tree_mark.udp_tree && is_leaf pool.tree_mark.icmp_tree)

-- The body of the loop of `find_port_range`; `left` and `right` are its two ways on.
unfoldable pub look_at :
    ℕ → Option Ipv4Range → Option Ipv4Range → Option Ipv4Range → Option Ipv4Range
look_at port none left right = none
look_at port (some middle) left right =
    if ltb port middle.ports.min
    then left
    else if ltb middle.ports.max port
    then right
    else some middle

-- The binary search between `first` and `last`, which is written as the index behind it. The fuel
-- counts ranges.
unfoldable pub find_range_loop : ℕ → List Ipv4Range → ℕ → ℕ → ℕ → Option Ipv4Range
unfolding look_at
find_range_loop zero ranges port first end = none
find_range_loop (suc fuel) ranges port first end =
    let middle = first + (end - 1 - first) / 2 in
    let result =
      look_at port (get_elem? ranges middle) (find_range_loop fuel ranges port first middle)
        (find_range_loop fuel ranges port (middle + 1) end) in
    if ltb first end then result else none

-- A table has a range at least, so that the first round of the `do` loop needs no test.
unfoldable pub find_port_range : List Ipv4Range → ℕ → Option Ipv4Range
unfolding find_range_loop
find_port_range ranges port = find_range_loop (length ranges) ranges port 0 (length ranges)

abbrev pub is_found : Option Ipv4Range → Bool
is_found none = false
is_found (some r) = true

abbrev pub default_pool4_min_port : ℕ
default_pool4_min_port = 61001

abbrev pub default_pool4_max_port : ℕ
default_pool4_max_port = 65535

-- `pool4empty_contains`; `is_local` says whether an interface has the address, globally.
unfoldable pub pool4empty_contains : (InAddr → Bool) → Ipv4TransportAddr → Bool
pool4empty_contains is_local addr =
    if ltb addr.l4 default_pool4_min_port then false else is_local addr.l3

unfoldable pub table_contains : Option Pool4Table → ℕ → Bool
unfolding find_port_range
table_contains none port = false
table_contains (some table) port = is_found (find_port_range table.ranges port)

unfoldable pub pool4db_contains : (InAddr → Bool) → Pool4 → L4Protocol → Ipv4TransportAddr → Bool
unfolding is_empty pool4empty_contains table_contains find_by_addr get_tree
pool4db_contains is_local pool proto addr =
    if is_empty pool
    then pool4empty_contains is_local addr
    else table_contains (find_by_addr (get_tree pool.tree_addr proto) addr.l3) addr.l4

unfoldable pub compute_max_iterations : Pool4Table → ℕ
compute_max_iterations table =
    let result = table.taddr_count / 128 in
    if table.iterations_infinite
    then 0
    else if not table.iterations_auto
    then table.max_iterations_allowed
    else if ltb result 1024
    then 1024
    else if ltb 8192 result
    then 8192
    else result

-- What `predict_route64` finds: the source address of the route, or a verdict.
pub data Route : Type 0 where
  route_from : InAddr → Route
  no_route : Outcome → Route

-- What `mask_domain_find` reads besides the pool: the hash (none: an error), `next_ephemeral`,
-- whether memory is there, and the kernel's route to an address.
pub record DomainEnv : Type 0 where
  pub hash : Option ℕ
  pub next_ephemeral : ℕ
  pub alloc_domain : Bool
  pub predict_route64 : Ipv4TransportAddr → Route

pub data DomainFound : Type 0 where
  domain : MaskDomain → DomainFound
  no_domain : Outcome → DomainFound

-- The domain of an empty pool: the address of the route, and the default ports.
unfoldable pub empty_domain : ℕ → Route → DomainFound
unfolding port_range_count
empty_domain offset (no_route outcome) = no_domain outcome
empty_domain offset (route_from saddr) =
    let ports : PortRange = record { min = default_pool4_min_port; max = default_pool4_max_port } in
    let count = port_range_count ports in
    domain (record {
      pool_mark = 0;
      taddr_count = count;
      taddr_counter = 0;
      max_iterations = 0;
      ranges = record {
        before = [];
        here = record { prefix = record { addr = saddr; len = 0 }; ports = ports };
        after = [];
      };
      next_port = ports.min + offset % count + 1;
      dynamic = true;
    })

-- `pool4empty_find`, once the destination has been translated.
unfoldable pub empty_route : DomainEnv → ℕ → ℕ → Result InAddr → DomainFound
unfolding empty_domain
empty_route env offset port (err e) = no_domain (untranslatable jstat_untranslatable_dst6)
empty_route env offset port (ok addr) = empty_domain offset (env.predict_route64 (taddr4 addr port))

unfoldable pub find_empty : DomainEnv → Ipv6Prefix → ℕ → Ipv6TransportAddr → DomainFound
unfolding empty_route extract prefix_len
find_empty env pool6 offset dst6 =
    if env.alloc_domain
    then empty_route env offset dst6.l4 (extract (prefix_len pool6.len) dst6.l3)
    else no_domain (drop jstat_enomem)

-- Where the iteration starts: a range, and the port behind the current one.
abbrev pub Position : Type 0
Position = Cursor Ipv4Range × ℕ

-- The loop over the ranges of `mask_domain_find`.
unfoldable pub seek : ℕ → List Ipv4Range → List Ipv4Range → Option Position
unfolding port_range_count
seek offset before [] = none
seek offset before (entry ∷ ranges) =
    let rest = seek (offset - port_range_count entry.ports) (before ++ (entry ∷ [])) ranges in
    if leb offset (port_range_count entry.ports)
    then some (record { before = before; here = entry; after = ranges }, entry.ports.min + offset)
    else rest

unfoldable pub domain_at : Pool4Table → ℕ → Option Position → DomainFound
unfolding compute_max_iterations
domain_at table mark none = no_domain (drop jstat_unknown)
domain_at table mark (some p) = domain (record {
  pool_mark = mark;
  taddr_count = table.taddr_count;
  taddr_counter = 0;
  max_iterations = compute_max_iterations table;
  ranges = p.0;
  next_port = p.1;
  dynamic = false;
})

unfoldable pub table_domain : DomainEnv → ℕ → ℕ → Option Pool4Table → DomainFound
unfolding domain_at seek
table_domain env mark offset none = no_domain (drop jstat_mask_domain_not_found)
table_domain env mark offset (some table) =
    if env.alloc_domain
    then domain_at table mark (seek (offset % table.taddr_count) [] table.ranges)
    else no_domain (drop jstat_mask_domain_not_found)

unfoldable pub hashed_domain :
    DomainEnv → Pool4 → Ipv6Prefix → L4Protocol → ℕ → Ipv6TransportAddr → Option ℕ → DomainFound
unfolding is_empty find_empty table_domain find_by_mark get_tree
hashed_domain env pool pool6 proto mark dst6 none = no_domain (drop jstat_6056_f)
hashed_domain env pool pool6 proto mark dst6 (some hash) =
    let offset = (hash + env.next_ephemeral) % 2 ^ 32 in
    if is_empty pool
    then find_empty env pool6 offset dst6
    else table_domain env mark offset (find_by_mark (get_tree pool.tree_mark proto) mark)

unfoldable pub mask_domain_find :
    DomainEnv → Pool4 → Ipv6Prefix → L4Protocol → ℕ → Ipv6TransportAddr → DomainFound
unfolding hashed_domain
mask_domain_find env pool pool6 proto mark dst6 =
    hashed_domain env pool pool6 proto mark dst6 env.hash
