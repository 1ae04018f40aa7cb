-- ===== src/Pool4/Edit/Loop.antt =====
-- The loop of `pool4db_add` over the addresses of a prefix, and the whole function
-- (mod/common/db/pool4/db.c).
use jool.Prelude.{
  ℕ, zero, suc, ◌+◌, ◌*◌, ◌^◌, ◌≤◌, ◌≡◌, ◌≢◌, refl, sym, ap, subst, ◌∙◌, Bool, true, ◌&&◌, ◌||◌,
  leb, ltb, ◌-◌, or_false, none, some, arith,
}
use jool.Types.{InAddr, PortRange, Ipv4Range, L4Protocol, tcp, udp, icmp, other, be32_to_cpu}
use jool.Address.{prefix4_validate, prefix4_get_addr_count}
use jool.Rbtree.{Tree}
use jool.Pool4.MaskDomain.{port_range_contains}
use jool.Pool4.Db.{Pool4, Pool4Table, get_tree}
use jool.Pool4.Ranges.Cover.{holds}
use jool.Pool4.Edit.{
  Memory, Pool4Entry, Edited, host, add_addr, add_addrs, add_to_mark_tree, addend_ports,
  pool4db_add, add_valid, max_iterations_validate,
}
use jool.Pool4.Edit.Added.{tree_covers, IsSound}
use jool.Pool4.Edit.Network.{
  IsAddr, hits, hits-in_network, in_network, HasMemory, StaysFor, mark_tree-IsMarked, get_tree-some,
  Grown, mark_edited-Grown,
}

add_addr-Grown :
    (mem : ℕ → Memory) (i j : ℕ) (pool : Pool4) (entry : Pool4Entry) (tree : Tree Pool4Table)
    (new : Ipv4Range)
    → HasMemory mem
    → ((i : ℕ) → StaysFor entry (mem i))
    → entry.proto ≢ other
    → get_tree pool.tree_addr entry.proto ≡ some tree
    → IsSound tree
    → new.ports.min ≤ new.ports.max
    → Grown entry.proto tree new (add_addr (mem i) (mem j) pool entry new)
unfolding add_addr add_to_mark_tree
add_addr-Grown mem i j pool entry tree new m y p g s v =
    mark_edited-Grown (mem j) pool entry.proto tree new
      (add_to_mark_tree (mem i) pool.tree_mark entry new) (m j).0 (m j).1 p g s v
      (mark_tree-IsMarked (mem i) entry new pool.tree_mark (get_tree pool.tree_mark entry.proto)
        (m i).0 (m i).1 (y i) (get_tree-some pool.tree_mark entry.proto p))

-- The edit succeeded, and the tree of the protocol holds what it held and what is `hit`.
abbrev GrownBy : L4Protocol → Tree Pool4Table → (InAddr → ℕ → Bool) → Edited → Type 0
GrownBy proto tree hit e =
    (e.error ≡ none)
    × ((t : Tree Pool4Table) × (get_tree e.pool.tree_addr proto ≡ some t)
        × ((addr : InAddr) (port : ℕ)
            → tree_covers addr port t ≡ (tree_covers addr port tree || hit addr port)))

or_assoc : (b c d : Bool) → ((b || c) || d) ≡ (b || (c || d))
or_assoc b c d = ground arith

abbrev so_far : Pool4 → Edited
so_far pool = record { pool = pool; error = none }

add_addrs-GrownBy :
    (mem : ℕ → Memory) (n cursor : ℕ) (entry : Pool4Entry) (ports : PortRange) (pool : Pool4)
    (tree : Tree Pool4Table)
    → HasMemory mem
    → ((i : ℕ) → StaysFor entry (mem i))
    → entry.proto ≢ other
    → ports.min ≤ ports.max
    → get_tree pool.tree_addr entry.proto ≡ some tree
    → IsSound tree
    → GrownBy entry.proto tree
        (hits n cursor ports)
        (add_addrs mem n cursor entry ports (so_far pool))
unfolding add_addrs hits
add_addrs-GrownBy mem zero cursor entry ports pool tree m y p v g s =
    (refl, (tree, g, λ addr port. sym (or_false (tree_covers addr port tree))))
add_addrs-GrownBy mem (suc n) cursor entry ports pool tree m y p v g s =
    let next = add_addr (mem (2 * cursor)) (mem (2 * cursor + 1)) pool entry (host cursor ports) in
    let (f, (t, h, k)) =
      add_addr-Grown mem (2 * cursor) (2 * cursor + 1) pool entry tree (host cursor ports) m y p g s
        v in
    let (a, (u, b, c)) =
      subst
        (λ e.
          GrownBy entry.proto t (hits n (cursor + 1) ports)
            (add_addrs mem n (cursor + 1) entry ports (record { pool = next.pool; error = e })))
        (sym f) (add_addrs-GrownBy mem n (cursor + 1) entry ports next.pool t m y p v h k.sound) in
    (
      a,
      (
        u,
        b,
        λ addr port.
            c addr port
            ∙ ap (λ x. x || hits n (cursor + 1) ports addr port) (k.exact addr port)
            ∙ or_assoc (tree_covers addr port tree) (holds addr port (host cursor ports))
                (hits n (cursor + 1) ports addr port),
      ),
    )

-- Between the two ports, whichever is the smaller one.
abbrev pub is_between : PortRange → ℕ → Bool
is_between ports port =
    (leb ports.min port && leb port ports.max) || (leb ports.max port && leb port ports.min)

-- Port 0 of TCP and UDP is none.
abbrev pub is_usable : L4Protocol → ℕ → Bool
is_usable icmp port = true
is_usable other port = true
is_usable _ port = ltb 0 port

-- What an entry asks for: the 2 ^ (32 - len) addresses from that of the prefix on, and the ports
-- between its two, less port 0 of TCP and UDP.
abbrev pub in_entry : Pool4Entry → InAddr → ℕ → Bool
in_entry entry addr port =
    let first = be32_to_cpu entry.range.prefix.addr in
    leb first (be32_to_cpu addr)
    && ltb (be32_to_cpu addr) (first + 2 ^ (32 - entry.range.prefix.len))
    && (is_between entry.range.ports port && is_usable entry.proto port)

addend_ports-contains :
    (proto : L4Protocol) (ports : PortRange) (port : ℕ)
    → port_range_contains (addend_ports proto ports) port
      ≡ (is_between ports port && is_usable proto port)
unfolding port_range_contains addend_ports
addend_ports-contains tcp ports port = ground arith
addend_ports-contains udp ports port = ground arith
addend_ports-contains icmp ports port = ground arith
addend_ports-contains other ports port = ground arith

in_network-entry :
    (entry : Pool4Entry) (addr : InAddr) (port : ℕ)
    → in_network
        (prefix4_get_addr_count entry.range.prefix)
        (be32_to_cpu entry.range.prefix.addr)
        (addend_ports entry.proto entry.range.ports)
        addr
        port
      ≡ in_entry entry addr port
unfolding in_network prefix4_get_addr_count
in_network-entry entry addr port =
    ap
      (λ b.
        leb (be32_to_cpu entry.range.prefix.addr) (be32_to_cpu addr)
        && ltb (be32_to_cpu addr)
            (be32_to_cpu entry.range.prefix.addr + 2 ^ (32 - entry.range.prefix.len))
        && b)
      (addend_ports-contains entry.proto entry.range.ports port)

-- A range that contains a port is not empty.
port-valid :
    (ports : PortRange) (port : ℕ) → port_range_contains ports port ≡ true → ports.min ≤ ports.max
unfolding port_range_contains
port-valid ports port h = ground arith

-- With memory that `krealloc` does not move if iterations are set, an addition to TCP, UDP or ICMP
-- whose prefix and iterations are valid, whose prefix
-- ends within the 32-bit addresses, and which asks for some port other than port 0 of TCP or UDP,
-- succeeds; the tree by addresses of its protocol then holds exactly the transport addresses that it
-- held before and those of the entry, which are the addresses of its prefix with the ports between its
-- two, in whatever order they are given, less port 0 of TCP and UDP, where no range of the tree's
-- tables was empty.
pub pool4db_add-exact :
    (mem : ℕ → Memory) (pool : Pool4) (entry : Pool4Entry) (tree : Tree Pool4Table) (some_port : ℕ)
    → HasMemory mem
    → ((i : ℕ) → StaysFor entry (mem i))
    → entry.proto ≢ other
    → prefix4_validate entry.range.prefix ≡ some entry.range.prefix
    → be32_to_cpu entry.range.prefix.addr + prefix4_get_addr_count entry.range.prefix ≤ 2 ^ 32
    → max_iterations_validate entry ≡ none
    → (is_between entry.range.ports some_port && is_usable entry.proto some_port) ≡ true
    → get_tree pool.tree_addr entry.proto ≡ some tree
    → IsSound tree
    → ((pool4db_add mem pool entry).error ≡ none)
      × ((t : Tree Pool4Table) × (get_tree (pool4db_add mem pool entry).pool.tree_addr entry.proto
            ≡ some t)
          × ((addr : InAddr) (port : ℕ)
              → IsAddr addr
              → tree_covers addr port t ≡ (tree_covers addr port tree || in_entry entry addr port)))
unfolding pool4db_add add_valid
pool4db_add-exact mem pool entry tree some_port m y p v b i o g s =
    let prefix = entry.range.prefix in
    let ports = addend_ports entry.proto entry.range.ports in
    let n = prefix4_get_addr_count prefix in
    let first = be32_to_cpu prefix.addr in
    let (a, (t, h, c)) =
      add_addrs-GrownBy mem n first entry ports pool tree m y p
        (port-valid ports some_port
          (addend_ports-contains entry.proto entry.range.ports some_port ∙ o))
        g s in
    simp (v, i)
      (
        a,
        (
          t,
          h,
          λ addr port w.
              c addr port
              ∙ ap (λ x. tree_covers addr port tree || x)
                  (hits-in_network n first ports addr port w b ∙ in_network-entry entry addr port),
        ),
      )
