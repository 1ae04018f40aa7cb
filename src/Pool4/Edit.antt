-- ===== src/Pool4/Edit.antt =====
-- Additions to pool4 and updates of it (mod/common/db/pool4/db.c): `pool4db_add`, `pool4db_update`.
--
-- The answers of the kernel's allocators are parameters. The spinlock is held by each step.
pub mod Added
pub mod Loop
pub mod Network
use Prim.Native.Nat.{Ordering}
use jool.Prelude.{
  ℕ, zero, suc, ◌+◌, ◌-◌, ◌*◌, ◌/◌, ◌%◌, Bool, true, false, not, ◌&&◌, ◌||◌, ltb, ◌==◌,
  if◌then◌else◌, Option, none, some, [], ◌∷◌,
}
use jool.Types.{
  InAddr, Ipv4Prefix, PortRange, Ipv4Range, L4Protocol, tcp, udp, icmp, other, Result, ok, err,
  Errno, einval, enomem, esrch, ipv4_addr_cmp, be32_to_cpu,
}
use jool.Address.{prefix4_validate, prefix4_get_addr_count}
use jool.Rbtree.{Tree, leaf, rbtree_add, rbtree_set}
use jool.Pool4.MaskDomain.{port_range_count}
use jool.Pool4.Db.{Pool4, Pool4Trees, Pool4Table, get_tree, cmp_mark, find_by_mark, find_by_addr}
use jool.Pool4.Ranges.{Krealloc, Entries, pool4_add_range}

-- `struct pool4_entry`; the flags are three Booleans.
pub record Pool4Entry : Type 0 where
  pub mark : ℕ
  pub iterations : ℕ
  pub iterations_set : Bool
  pub iterations_auto : Bool
  pub iterations_infinite : Bool
  pub proto : L4Protocol
  pub range : Ipv4Range

-- What the allocators answer to an addition to a tree: whether there is memory for a table, and what
-- `krealloc` does.
pub record Memory : Type 0 where
  pub alloc_table : Bool
  pub krealloc : Krealloc

-- The error, if any. Only the flags and the number of the entry count.
unfoldable pub max_iterations_validate : Pool4Entry → Option Errno
max_iterations_validate entry =
    if not entry.iterations_set
    then none
    else if entry.iterations_auto && entry.iterations_infinite
    then some einval
    else if entry.iterations == 0 && (not entry.iterations_auto && not entry.iterations_infinite)
    then some einval
    else none

-- A table whose `mark` and `addr` are given by the caller.
unfoldable pub create_table : ℕ → InAddr → Ipv4Range → Pool4Table
unfolding port_range_count
create_table mark addr range = record {
  mark = mark;
  addr = addr;
  taddr_count = port_range_count range.ports;
  max_iterations_allowed = 0;
  iterations_infinite = false;
  iterations_auto = true;
  ranges = range ∷ [];
}

-- The flags and the number of the iterations, if ITERATIONS_SET.
unfoldable pub set_iterations : Pool4Entry → Pool4Table → Pool4Table
set_iterations entry table =
    if entry.iterations_set
    then record table {
      max_iterations_allowed = entry.iterations;
      iterations_infinite = entry.iterations_infinite;
      iterations_auto = entry.iterations_auto;
    }
    else table

unfoldable pub with_entries : Pool4Table → Entries → Pool4Table
with_entries table e = record table { taddr_count = e.taddr_count; ranges = e.ranges }

-- How an edit fails: with an error code, or by a write to a table that `krealloc` has moved, which is
-- undefined.
pub data EditError : Type 0 where
  errno : Errno → EditError
  dangling_write : EditError

pub data Marked (A : Type 0) : Type 0 where
  marked : A → Marked A
  unmarked : EditError → Marked A

-- After `pool4_add_range`, `add_to_mark_tree` writes the iterations to the table where it was.
unfoldable pub mark_added :
    Pool4Entry → Tree Pool4Table → Pool4Table → Result Entries → Marked (Tree Pool4Table)
unfolding rbtree_set cmp_mark with_entries set_iterations
mark_added entry tree table (err e) = unmarked (errno e)
mark_added entry tree table (ok r) =
    if r.moved && entry.iterations_set
    then unmarked dangling_write
    else marked
        (rbtree_set (cmp_mark entry.mark) (set_iterations entry (with_entries table r)) tree)

-- The table that has been found, or none. A collision cannot be: the tree is the one in which
-- nothing was found.
unfoldable pub put_in_mark_tree :
    Memory → Pool4Entry → Ipv4Range → Tree Pool4Table → Option Pool4Table → Marked (Tree Pool4Table)
unfolding mark_added pool4_add_range rbtree_add cmp_mark create_table set_iterations
put_in_mark_tree mem entry new tree (some table) =
    mark_added entry tree table (pool4_add_range mem.krealloc table.taddr_count table.ranges new)
put_in_mark_tree mem entry new tree none =
    if mem.alloc_table
    then marked (
        rbtree_add (cmp_mark entry.mark)
          (set_iterations entry (create_table entry.mark new.prefix.addr new)) tree)
    else unmarked (errno enomem)

abbrev pub cmp_addr : InAddr → Pool4Table → Ordering
cmp_addr addr table = ipv4_addr_cmp table.addr addr

unfoldable pub addr_added : Tree Pool4Table → Pool4Table → Result Entries → Result (Tree Pool4Table)
unfolding rbtree_set with_entries
addr_added tree table (err e) = err e
addr_added tree table (ok r) = ok (rbtree_set (cmp_addr table.addr) (with_entries table r) tree)

unfoldable pub put_in_addr_tree :
    Memory → Ipv4Range → Tree Pool4Table → Option Pool4Table → Result (Tree Pool4Table)
unfolding addr_added pool4_add_range rbtree_add create_table
put_in_addr_tree mem new tree (some table) =
    addr_added tree table (pool4_add_range mem.krealloc table.taddr_count table.ranges new)
put_in_addr_tree mem new tree none =
    if mem.alloc_table
    then ok (rbtree_add (cmp_addr new.prefix.addr) (create_table 0 new.prefix.addr new) tree)
    else err enomem

unfoldable pub set_tree : Pool4Trees → L4Protocol → Tree Pool4Table → Pool4Trees
set_tree trees tcp tree = record trees { tcp_tree = tree }
set_tree trees udp tree = record trees { udp_tree = tree }
set_tree trees icmp tree = record trees { icmp_tree = tree }
set_tree trees other tree = trees

unfoldable pub in_trees : Pool4Trees → L4Protocol → Result (Tree Pool4Table) → Result Pool4Trees
unfolding set_tree
in_trees trees proto (err e) = err e
in_trees trees proto (ok tree) = ok (set_tree trees proto tree)

unfoldable pub in_marks : Pool4Trees → L4Protocol → Marked (Tree Pool4Table) → Marked Pool4Trees
unfolding set_tree
in_marks trees proto (unmarked e) = unmarked e
in_marks trees proto (marked tree) = marked (set_tree trees proto tree)

unfoldable pub mark_tree :
    Memory → Pool4Entry → Ipv4Range → Pool4Trees → Option (Tree Pool4Table) → Marked Pool4Trees
unfolding in_marks put_in_mark_tree find_by_mark
mark_tree mem entry new trees none = unmarked (errno einval)
mark_tree mem entry new trees (some tree) =
    in_marks trees entry.proto
      (put_in_mark_tree mem entry new tree (find_by_mark (some tree) entry.mark))

unfoldable pub add_to_mark_tree : Memory → Pool4Trees → Pool4Entry → Ipv4Range → Marked Pool4Trees
unfolding mark_tree get_tree
add_to_mark_tree mem trees entry new = mark_tree mem entry new trees (get_tree trees entry.proto)

unfoldable pub addr_tree :
    Memory → L4Protocol → Ipv4Range → Pool4Trees → Option (Tree Pool4Table) → Result Pool4Trees
unfolding in_trees put_in_addr_tree find_by_addr
addr_tree mem proto new trees none = err einval
addr_tree mem proto new trees (some tree) =
    in_trees trees proto (put_in_addr_tree mem new tree (find_by_addr (some tree) new.prefix.addr))

unfoldable pub add_to_addr_tree : Memory → Pool4Trees → L4Protocol → Ipv4Range → Result Pool4Trees
unfolding addr_tree get_tree
add_to_addr_tree mem trees proto new = addr_tree mem proto new trees (get_tree trees proto)

-- `cpu_to_be32`.
unfoldable pub cpu_to_be32 : ℕ → InAddr
cpu_to_be32 n = record {
  b0 = n / 16777216 % 256;
  b1 = n / 65536 % 256;
  b2 = n / 256 % 256;
  b3 = n % 256;
}

-- The pool, and how the edit fails, if it does. After a dangling write the pool stands for nothing.
pub record Edited : Type 0 where
  pub pool : Pool4
  pub error : Option EditError

unfoldable pub addr_edited : Pool4 → Result Pool4Trees → Edited
addr_edited pool (err e) = record { pool = pool; error = some (errno e) }
addr_edited pool (ok trees) = record { pool = record pool { tree_addr = trees }; error = none }

-- One address, in the two trees; the first memory is for the tree by marks. An error of the second
-- leaves the trees with different contents.
unfoldable pub mark_edited : Memory → Pool4 → L4Protocol → Ipv4Range → Marked Pool4Trees → Edited
unfolding addr_edited add_to_addr_tree
mark_edited mem pool proto new (unmarked e) = record { pool = pool; error = some e }
mark_edited mem pool proto new (marked trees) =
    addr_edited (record pool { tree_mark = trees }) (add_to_addr_tree mem pool.tree_addr proto new)

unfoldable pub add_addr : Memory → Memory → Pool4 → Pool4Entry → Ipv4Range → Edited
unfolding mark_edited add_to_mark_tree
add_addr mem mem2 pool entry new =
    mark_edited mem2 pool entry.proto new (add_to_mark_tree mem pool.tree_mark entry new)

abbrev pub host : ℕ → PortRange → Ipv4Range
host cursor ports = record {
  prefix = record { addr = cpu_to_be32 cursor; len = 32 };
  ports = ports;
}

-- `foreach_addr4`, which ends with the first error. The number counts the addresses that are left.
unfoldable pub add_addrs : (ℕ → Memory) → ℕ → ℕ → Pool4Entry → PortRange → Edited → Edited
unfolding add_addr cpu_to_be32
add_addrs mem zero cursor entry ports done = done
add_addrs mem (suc n) cursor entry ports done = elim done.error [
  | some e ↦ done
  | none ↦
      add_addrs mem n (cursor + 1) entry ports
        (add_addr (mem (2 * cursor)) (mem (2 * cursor + 1)) done.pool entry (host cursor ports))
]

abbrev pub has_ports : L4Protocol → Bool
has_ports tcp = true
has_ports udp = true
has_ports _ = false

-- The ports in their order, less the port 0 of TCP and UDP.
unfoldable pub addend_ports : L4Protocol → PortRange → PortRange
addend_ports proto ports =
    let swap = ltb ports.max ports.min in
    let min = if swap then ports.max else ports.min in
    let max = if swap then ports.min else ports.max in
    record { min = if has_ports proto && min == 0 then 1 else min; max = max }

unfoldable pub add_valid :
    (ℕ → Memory) → Pool4 → Pool4Entry → Option Ipv4Prefix → Option Errno → Edited
unfolding add_addrs addend_ports prefix4_get_addr_count be32_to_cpu
add_valid mem pool entry none e = record { pool = pool; error = some (errno einval) }
add_valid mem pool entry (some prefix) (some e) = record { pool = pool; error = some (errno e) }
add_valid mem pool entry (some prefix) none =
    add_addrs mem (prefix4_get_addr_count prefix) (be32_to_cpu prefix.addr) entry
      (addend_ports entry.proto entry.range.ports) (record { pool = pool; error = none })

-- The memory that an address gets is named by the address.
unfoldable pub pool4db_add : (ℕ → Memory) → Pool4 → Pool4Entry → Edited
unfolding add_valid prefix4_validate max_iterations_validate
pool4db_add mem pool entry =
    add_valid mem pool entry (prefix4_validate entry.range.prefix) (max_iterations_validate entry)

unfoldable pub update_table :
    Pool4 → Pool4Entry → Option (Tree Pool4Table) → Option Pool4Table → Edited
unfolding set_iterations set_tree rbtree_set cmp_mark
update_table pool update none found = record { pool = pool; error = some (errno einval) }
update_table pool update (some tree) none = record { pool = pool; error = some (errno esrch) }
update_table pool update (some tree) (some table) =
    let t = rbtree_set (cmp_mark update.mark) (set_iterations update table) tree in
    record {
      pool = record pool { tree_mark = set_tree pool.tree_mark update.proto t };
      error = none;
    }

unfoldable pub update_valid : Pool4 → Pool4Entry → Option Errno → Edited
unfolding update_table get_tree find_by_mark
update_valid pool update (some e) = record { pool = pool; error = some (errno e) }
update_valid pool update none =
    let tree = get_tree pool.tree_mark update.proto in
    update_table pool update tree (find_by_mark tree update.mark)

-- `struct pool4_update` is an entry here, whose range does not count.
unfoldable pub pool4db_update : Pool4 → Pool4Entry → Edited
unfolding update_valid max_iterations_validate
pool4db_update pool update = update_valid pool update (max_iterations_validate update)

unfoldable pub pool4db_flush : Pool4
pool4db_flush =
    let none_left : Pool4Trees = record { tcp_tree = leaf; udp_tree = leaf; icmp_tree = leaf } in
    record { tree_mark = none_left; tree_addr = none_left }
