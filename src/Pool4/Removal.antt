-- ===== src/Pool4/Removal.antt =====
-- Removals from pool4 (mod/common/db/pool4/db.c): `remove_range`, `pool4db_rm`.
--
-- `rb_erase` and the answers of `krealloc` are the kernel's. `rb_prev` and `rb_next` walk the
-- in-order sequence of the tree.
pub mod Marks
use Prim.Native.Nat.{Ordering}
use jool.Prelude.{ℕ, Bool, true, false, ltb, if◌then◌else◌, List, [], ◌∷◌, Option, none, some}
use jool.Types.{
  InAddr, Ipv4Prefix, PortRange, Ipv4Range, L4Protocol, Errno, einval, enomem, addr4_equals,
  ipv4_addr_cmp,
}
use jool.Address.{prefix4_contains, prefix4_validate}
use jool.Rbtree.{Tree, inorder, rbtree_find, rbtree_set}
use jool.Pool4.Db.{Pool4, Pool4Trees, Pool4Table, get_tree, cmp_mark, find_by_mark}
use jool.Pool4.Ranges.{Krealloc, Removal, removed, out_of_memory, dangling, remove_loop}
use jool.Pool4.Edit.{set_tree, cmp_addr}

-- The kernel: the erasure of the node that a search finds, and the answers of `krealloc` in the
-- table of the mark, and in that of each address.
pub record RmEnv : Type 0 where
  pub rb_erase : (Pool4Table → Ordering) → Tree Pool4Table → Tree Pool4Table
  pub krealloc_mark : ℕ → Krealloc
  pub krealloc_addr : InAddr → ℕ → Krealloc

-- What is left of the tree, and how `remove_range` ends: with 0, with an error, or with a pointer to
-- freed memory.
pub data TreeLeft : Type 0 where
  tree_left tree_failed tree_dangling : Tree Pool4Table → TreeLeft

unfoldable pub with_ranges : Pool4Table → ℕ → List Ipv4Range → Pool4Table
with_ranges table count ranges = record table { taddr_count = count; ranges = ranges }

-- The end of `remove_range`: a table without ranges is erased. A loop that ends early has left one.
unfoldable pub store_ranges :
    RmEnv → (Pool4Table → Ordering) → Tree Pool4Table → Pool4Table → Removal → TreeLeft
unfolding rbtree_set with_ranges
store_ranges env cmp tree table (removed count []) = tree_left (env.rb_erase cmp tree)
store_ranges env cmp tree table (removed count (r ∷ ranges)) =
    tree_left (rbtree_set cmp (with_ranges table count (r ∷ ranges)) tree)
store_ranges env cmp tree table (out_of_memory count ranges) =
    tree_failed (rbtree_set cmp (with_ranges table count ranges) tree)
store_ranges env cmp tree table (dangling count ranges) =
    tree_dangling (rbtree_set cmp (with_ranges table count ranges) tree)

-- `cmp` finds the table.
unfoldable pub remove_range :
    RmEnv
    → (ℕ → Krealloc)
    → (Pool4Table → Ordering)
    → Tree Pool4Table
    → Pool4Table
    → Ipv4Range
    → TreeLeft
unfolding store_ranges remove_loop
remove_range env k cmp tree table rm =
    store_ranges env cmp tree table (remove_loop k 0 table.taddr_count table.ranges rm)

unfoldable pub rm_found : RmEnv → ℕ → Ipv4Range → Tree Pool4Table → Option Pool4Table → TreeLeft
unfolding remove_range cmp_mark
rm_found env mark rm tree none = tree_left tree
rm_found env mark rm tree (some table) =
    remove_range env env.krealloc_mark (cmp_mark mark) tree table rm

-- `rm_from_mark_tree`, where the protocol has a tree.
unfoldable pub rm_from_mark_tree : RmEnv → ℕ → Ipv4Range → Tree Pool4Table → TreeLeft
unfolding rm_found find_by_mark
rm_from_mark_tree env mark rm tree = rm_found env mark rm tree (find_by_mark (some tree) mark)

unfoldable pub cmp_prefix : Ipv4Prefix → Pool4Table → Ordering
cmp_prefix prefix table =
    if prefix4_contains prefix table.addr then Ordering.eq else ipv4_addr_cmp table.addr prefix.addr

unfoldable pub find_by_prefix : Tree Pool4Table → Ipv4Prefix → Option Pool4Table
unfolding rbtree_find cmp_prefix
find_by_prefix tree prefix = rbtree_find (cmp_prefix prefix) tree

-- The tables before the one at the address, the nearest first; the ones before that are in `seen`.
unfoldable pub tables_before : InAddr → List Pool4Table → List Pool4Table → List Pool4Table
tables_before addr seen [] = []
tables_before addr seen (t ∷ tables) =
    let rest = tables_before addr (t ∷ seen) tables in
    if addr4_equals t.addr addr then seen else rest

unfoldable pub tables_after : InAddr → List Pool4Table → List Pool4Table
tables_after addr [] = []
tables_after addr (t ∷ tables) =
    let rest = tables_after addr tables in if addr4_equals t.addr addr then tables else rest

unfoldable pub remove_at : RmEnv → Ipv4Range → Pool4Table → Tree Pool4Table → TreeLeft
unfolding remove_range
remove_at env rm table tree =
    remove_range env (env.krealloc_addr table.addr) (cmp_addr table.addr) tree table rm

-- `while (prev)` and `while (next)`: over the tables that the prefix contains, while there is no
-- error.
unfoldable pub remove_neighbours : RmEnv → Ipv4Range → List Pool4Table → TreeLeft → TreeLeft
unfolding remove_at
remove_neighbours env rm [] left = left
remove_neighbours env rm (t ∷ tables) (tree_failed tree) = tree_failed tree
remove_neighbours env rm (t ∷ tables) (tree_dangling tree) = tree_dangling tree
remove_neighbours env rm (t ∷ tables) (tree_left tree) =
    let rest = remove_neighbours env rm tables (remove_at env rm t tree) in
    if prefix4_contains rm.prefix t.addr then rest else tree_left tree

unfoldable pub rm_around : RmEnv → Ipv4Range → Tree Pool4Table → Option Pool4Table → TreeLeft
unfolding remove_neighbours remove_at tables_before tables_after inorder
rm_around env rm tree none = tree_left tree
rm_around env rm tree (some table) =
    let tables = inorder tree in
    remove_neighbours env rm (tables_after table.addr tables)
      (remove_neighbours env rm (tables_before table.addr [] tables) (remove_at env rm table tree))

-- `rm_from_addr_tree`, where the protocol has a tree.
unfoldable pub rm_from_addr_tree : RmEnv → Ipv4Range → Tree Pool4Table → TreeLeft
unfolding rm_around find_by_prefix
rm_from_addr_tree env rm tree = rm_around env rm tree (find_by_prefix tree rm.prefix)

-- What `pool4db_rm` returns, with the pool that it leaves, or that it has lost a table.
pub data PoolLeft : Type 0 where
  pool_left : Pool4 → Option Errno → PoolLeft
  pool_dangling : Pool4 → PoolLeft

abbrev pub left_addrs : Pool4 → L4Protocol → Tree Pool4Table → Pool4
left_addrs pool proto tree = record pool { tree_addr = set_tree pool.tree_addr proto tree }

abbrev pub left_marks : Pool4 → L4Protocol → Tree Pool4Table → Pool4
left_marks pool proto tree = record pool { tree_mark = set_tree pool.tree_mark proto tree }

unfoldable pub rm_addrs_left : Pool4 → L4Protocol → TreeLeft → PoolLeft
rm_addrs_left pool proto (tree_left t) = pool_left (left_addrs pool proto t) none
rm_addrs_left pool proto (tree_failed t) = pool_left (left_addrs pool proto t) (some enomem)
rm_addrs_left pool proto (tree_dangling t) = pool_dangling (left_addrs pool proto t)

unfoldable pub rm_addrs :
    RmEnv → Ipv4Range → Pool4 → L4Protocol → Option (Tree Pool4Table) → PoolLeft
unfolding rm_addrs_left rm_from_addr_tree
rm_addrs env rm pool proto none = pool_left pool (some einval)
rm_addrs env rm pool proto (some tree) = rm_addrs_left pool proto (rm_from_addr_tree env rm tree)

unfoldable pub rm_marks_left : RmEnv → Ipv4Range → Pool4 → L4Protocol → TreeLeft → PoolLeft
unfolding rm_addrs get_tree
rm_marks_left env rm pool proto (tree_left t) =
    rm_addrs env rm (left_marks pool proto t) proto (get_tree pool.tree_addr proto)
rm_marks_left env rm pool proto (tree_failed t) = pool_left (left_marks pool proto t) (some enomem)
rm_marks_left env rm pool proto (tree_dangling t) = pool_dangling (left_marks pool proto t)

unfoldable pub rm_marks :
    RmEnv → ℕ → Ipv4Range → Pool4 → L4Protocol → Option (Tree Pool4Table) → PoolLeft
unfolding rm_marks_left rm_from_mark_tree
rm_marks env mark rm pool proto none = pool_left pool (some einval)
rm_marks env mark rm pool proto (some tree) =
    rm_marks_left env rm pool proto (rm_from_mark_tree env mark rm tree)

unfoldable pub in_order : PortRange → PortRange
in_order ports =
    if ltb ports.max ports.min then record { min = ports.max; max = ports.min } else ports

unfoldable pub rm_valid : RmEnv → Pool4 → ℕ → L4Protocol → Ipv4Range → Option Ipv4Prefix → PoolLeft
unfolding rm_marks get_tree in_order
rm_valid env pool mark proto range none = pool_left pool (some einval)
rm_valid env pool mark proto range (some prefix) =
    let rm : Ipv4Range = record { prefix = prefix; ports = in_order range.ports } in
    rm_marks env mark rm pool proto (get_tree pool.tree_mark proto)

unfoldable pub pool4db_rm : RmEnv → Pool4 → ℕ → L4Protocol → Ipv4Range → PoolLeft
unfolding rm_valid prefix4_validate
pool4db_rm env pool mark proto range =
    rm_valid env pool mark proto range (prefix4_validate range.prefix)
