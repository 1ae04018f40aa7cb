-- ===== src/Tests/Ranges.antt =====
-- The ranges of pool4 and the additions to it at concrete inputs.
use jool.Prelude.{
  ℕ, ◌≡◌, ◌≢◌, ◌||◌, refl, true, false, inr, List, [], ◌∷◌, Option, none, some, arith,
}
use jool.Types.{Ipv4Range, InAddr, tcp, ok, be32_to_cpu, ipv4_addr_cmp, addr4_equals}
use jool.Address.{prefix4_contains, prefix4_validate, prefix4_get_addr_count}
use jool.Rbtree.{leaf, node, Tree}
use jool.Pool4.Db.{Pool4Table, get_tree, find_by_addr, find_by_mark, cmp_mark}
use jool.Pool4.Ranges.{
  Krealloc, refused, in_place, elsewhere, pool4_add_range, remove_loop, removed, out_of_memory,
}
use jool.Pool4.Ranges.Order.{IsApart}
use jool.Pool4.Ranges.Insert.{Succeeds, IsInserted, pool4_add_range-IsInserted}
use jool.Pool4.Ranges.Counting.{Short, total, gain, pool4_add_range-Short}
use jool.Pool4.Ranges.Removed.{names}
use jool.Pool4.Ranges.RemovedCount.{Exceeds, right_parts, remove_loop-Exceeds}
use jool.Pool4.Edit.{
  Memory, Pool4Entry, Marked, marked, unmarked, dangling_write, pool4db_add, pool4db_flush,
  max_iterations_validate, put_in_mark_tree, create_table,
}
use jool.Pool4.Ranges.Searched.{FindsBoth, pool4_add_range-FindsBoth}
use jool.Pool4.Edit.Added.{tree_covers, IsSound}
use jool.Pool4.Edit.Network.{HasMemory, IsAddr}
use jool.Pool4.Edit.Loop.{in_entry, pool4db_add-exact}
use jool.Pool4.Removal.{RmEnv, rm_from_mark_tree, pool4db_rm, pool_left}
use jool.Pool4.Removal.Marks.{LeavesMark, mark_covers, rm_from_mark_tree-LeavesMark}
use jool.Tests.Fixtures.{pool}

abbrev ports : ℕ → ℕ → Ipv4Range
ports min max = record {
  prefix = record { addr = pool; len = 32 };
  ports = record { min = min; max = max };
}

-- Ports 10-12 and then 13-20 of an address: eleven addresses, of which three are counted.
undercounted :
    pool4_add_range in_place 3 (ports 10 12 ∷ []) (ports 13 20)
    ≡ ok (record { taddr_count = 3; ranges = ports 10 20 ∷ []; moved = false })
unfolding pool4_add_range ipv4_addr_cmp
undercounted = refl

-- Ports 1-10 without 4-5: eight addresses, counted as thirteen.
overcounted :
    remove_loop (λ n. in_place) 0 10 (ports 1 10 ∷ []) (ports 4 5)
    ≡ removed 13 (ports 1 3 ∷ ports 6 10 ∷ [])
unfolding remove_loop prefix4_contains
overcounted = refl

-- Without memory for the second part, it is lost.
right_part_lost :
    remove_loop (λ n. refused) 0 10 (ports 1 10 ∷ []) (ports 4 5) ≡ out_of_memory 8 (ports 1 3 ∷ [])
unfolding remove_loop prefix4_contains
right_part_lost = refl

two : List Ipv4Range
two = ports 10 12 ∷ ports 30 40 ∷ []

two-IsApart : IsApart two
unfolding two
two-IsApart = (omega arith, refl, (inr (refl, omega arith), tt), (omega arith, refl, tt, tt))

grows : in_place ≢ refused
grows e = cc e

pool4_add_range-IsInserted_example :
    Succeeds (IsInserted two (ports 13 29)) (pool4_add_range in_place 14 two (ports 13 29))
pool4_add_range-IsInserted_example =
    pool4_add_range-IsInserted in_place 14 two (ports 13 29) grows two-IsApart (omega arith) refl

pool4_add_range-Short_example :
    Short 14 (total two) (gain two (ports 13 29)) (pool4_add_range in_place 14 two (ports 13 29))
unfolding two
pool4_add_range-Short_example =
    pool4_add_range-Short in_place 14 two (ports 13 29) grows (omega arith, (omega arith, tt))
      (omega arith)

remove_loop-Exceeds_example :
    Exceeds 10
      (total (ports 1 10 ∷ []))
      (right_parts (ports 4 5) (ports 1 10 ∷ []))
      (remove_loop (λ n. in_place) 0 10 (ports 1 10 ∷ []) (ports 4 5))
remove_loop-Exceeds_example =
    remove_loop-Exceeds (λ n. in_place) 0 10 (ports 1 10 ∷ []) (ports 4 5) (omega arith)
      (omega arith, tt)

abbrev entry : Pool4Entry
entry = record {
  mark = 0;
  iterations = 0;
  iterations_set = false;
  iterations_auto = true;
  iterations_infinite = false;
  proto = tcp;
  range = record {
    prefix = record { addr = record { b0 = 192; b1 = 0; b2 = 2; b3 = 4 }; len = 30 };
    ports = record { min = 20; max = 10 };
  };
}

plenty : ℕ → Memory
plenty i = record { alloc_table = true; krealloc = in_place }

leaf-IsSound : IsSound leaf
unfolding find_by_addr
leaf-IsSound addr table e = absurd (cc e)

plenty-HasMemory : HasMemory plenty
unfolding plenty
plenty-HasMemory i = (refl, grows)

pool4db_add-exact_example :
    let r = pool4db_add plenty pool4db_flush entry in
    (r.error ≡ none)
    × ((t : Tree Pool4Table) × (get_tree r.pool.tree_addr tcp ≡ some t)
        × ((addr : InAddr) (port : ℕ)
            → IsAddr addr
            → tree_covers addr port t ≡ (tree_covers addr port leaf || in_entry entry addr port)))
unfolding prefix4_validate prefix4_get_addr_count be32_to_cpu max_iterations_validate get_tree
    pool4db_flush
pool4db_add-exact_example =
    pool4db_add-exact plenty pool4db_flush entry leaf 15 plenty-HasMemory (λ i e. absurd (cc e))
      (λ e. cc e) refl (omega arith) refl refl refl leaf-IsSound

-- Port 0 of TCP, alone: the range is empty, and no address is counted. `mask_domain_find` divides by
-- the count.
count_of : Option Pool4Table → ℕ
count_of none = 1
count_of (some table) = table.taddr_count

port_zero :
    let e = record entry {
      range = record {
        prefix = record { addr = pool; len = 32 };
        ports = record { min = 0; max = 0 };
      };
    } in
    let r = pool4db_add plenty pool4db_flush e in
    (r.error ≡ none) × (count_of (find_by_mark (get_tree r.pool.tree_mark tcp) 0) ≡ 0)
unfolding pool4db_add pool4db_flush prefix4_validate plenty count_of find_by_mark cmp_mark
    find_by_addr prefix4_get_addr_count be32_to_cpu
port_zero = (refl, refl)

-- The table after an addition that sets its iterations to 7, by what `krealloc` does.
abbrev set_to_7 : Krealloc → Marked (Tree Pool4Table)
set_to_7 k =
    let t = create_table 0 pool (ports 10 12) in
    put_in_mark_tree (record { alloc_table = true; krealloc = k })
      (record entry { iterations = 7; iterations_set = true; iterations_auto = false })
      (ports 30 40) (node leaf t leaf) (some t)

iterations_of : Marked (Tree Pool4Table) → ℕ
iterations_of (marked (node l t r)) = t.max_iterations_allowed
iterations_of _ = 0

iterations_kept : iterations_of (set_to_7 in_place) ≡ 7
unfolding put_in_mark_tree pool4_add_range create_table ipv4_addr_cmp iterations_of cmp_mark
iterations_kept = refl

-- The write of the iterations to a table that has been moved.
iterations_dangling : set_to_7 elsewhere ≡ unmarked dangling_write
unfolding put_in_mark_tree pool4_add_range create_table ipv4_addr_cmp
iterations_dangling = refl

-- A tree of one table: any of its erasures is empty.
abbrev rm_env : RmEnv
rm_env = record {
  rb_erase = λ cmp t. leaf;
  krealloc_mark = λ n. in_place;
  krealloc_addr = λ a n. in_place;
}

abbrev one_table : Tree Pool4Table
one_table = node leaf (create_table 0 pool (ports 1 10)) leaf

rm_from_mark_tree-LeavesMark_example :
    LeavesMark rm_env 0 pool 4
      (mark_covers 0 pool 4 one_table)
      (names (ports 4 5) pool 4)
      (rm_from_mark_tree rm_env 0 (ports 4 5) one_table)
unfolding find_by_mark
rm_from_mark_tree-LeavesMark_example =
    rm_from_mark_tree-LeavesMark rm_env 0 (ports 4 5) one_table pool 4 (omega arith) refl

-- The whole prefix goes, and the pool is empty.
removes_all :
    let e = pool4db_add plenty pool4db_flush entry in
    pool4db_rm rm_env e.pool 0 tcp (record entry.range { ports = record { min = 65535; max = 0 } })
    ≡ pool_left pool4db_flush none
unfolding pool4db_rm pool4db_add pool4db_flush prefix4_validate plenty find_by_mark cmp_mark
    find_by_addr prefix4_get_addr_count be32_to_cpu ipv4_addr_cmp prefix4_contains addr4_equals
removes_all = refl

pool4_add_range-FindsBoth_example :
    FindsBoth 29 two (ports 13 29) (pool4_add_range in_place 14 two (ports 13 29))
unfolding two
pool4_add_range-FindsBoth_example =
    pool4_add_range-FindsBoth in_place 14 two (ports 13 29) 29 grows (refl, (refl, tt)) two-IsApart
      (omega arith) refl
