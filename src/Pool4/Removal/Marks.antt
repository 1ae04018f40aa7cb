-- ===== src/Pool4/Removal/Marks.antt =====
-- What `rm_from_mark_tree` leaves of the table of the mark (mod/common/db/pool4/db.c).
use jool.Prelude.{
  ℕ, ◌≡◌, refl, sym, ap, ◌∙◌, Bool, true, not, ◌&&◌, List, [], ◌∷◌, Option, none, some,
}
use jool.Types.{InAddr, Ipv4Range}
use jool.Rbtree.{Tree, rbtree_set}
use jool.Rbtree.Put.{rbtree_find-rbtree_set, rbtree_find-eq}
use jool.Pool4.Db.{Pool4Table, cmp_mark, find_by_mark}
use jool.Pool4.Ranges.{refused, elsewhere, Removal, removed, out_of_memory, dangling, remove_loop}
use jool.Pool4.Ranges.Cover.{IsValid, covers}
use jool.Pool4.Ranges.Removed.{names, Removes, remove_loop-Removes}
use jool.Pool4.Edit.Added.{table_covers}
use jool.Pool4.Removal.{
  RmEnv, TreeLeft, tree_left, tree_failed, tree_dangling, with_ranges, store_ranges, remove_range,
  rm_found, rm_from_mark_tree,
}

-- Whether the table of the mark holds the transport address.
unfoldable pub mark_covers : ℕ → InAddr → ℕ → Tree Pool4Table → Bool
unfolding find_by_mark table_covers
mark_covers mark addr port tree = table_covers addr port (find_by_mark (some tree) mark)

-- What `remove_range` may leave, for a transport address that was held before (`old`) and that is to
-- be removed (`rm`).
abbrev pub LeavesMark : RmEnv → ℕ → InAddr → ℕ → Bool → Bool → TreeLeft → Type 0
LeavesMark env mark addr port old rm (tree_left t) = mark_covers mark addr port t ≡ (old && not rm)
LeavesMark env mark addr port old rm (tree_failed t) =
    ((m : ℕ) × (env.krealloc_mark m ≡ refused)) × (mark_covers mark addr port t ≡ true → old ≡ true)
LeavesMark env mark addr port old rm (tree_dangling t) =
    ((m : ℕ) × (env.krealloc_mark m ≡ elsewhere))
    × (mark_covers mark addr port t ≡ true → old ≡ true)

stored :
    (mark : ℕ) (tree : Tree Pool4Table) (table : Pool4Table) (count : ℕ) (ranges : List Ipv4Range)
    (addr : InAddr) (port : ℕ)
    → find_by_mark (some tree) mark ≡ some table
    → mark_covers mark addr port (rbtree_set (cmp_mark mark) (with_ranges table count ranges) tree)
      ≡ covers addr port ranges
unfolding mark_covers find_by_mark with_ranges cmp_mark
stored mark tree table count ranges addr port f = ap (table_covers addr port) (
    rbtree_find-rbtree_set (cmp_mark mark) (cmp_mark mark) (with_ranges table count ranges) tree
      table (rbtree_find-eq (cmp_mark mark) tree table f) f)

store_ranges-LeavesMark :
    (env : RmEnv) (mark : ℕ) (tree : Tree Pool4Table) (table : Pool4Table) (addr : InAddr)
    (port : ℕ) (old rm : Bool) (r : Removal)
    → find_by_mark (some tree) mark ≡ some table
    → find_by_mark (some (env.rb_erase (cmp_mark mark) tree)) mark ≡ none
    → Removes env.krealloc_mark addr port old rm r
    → LeavesMark env mark addr port old rm (store_ranges env (cmp_mark mark) tree table r)
unfolding store_ranges mark_covers table_covers
store_ranges-LeavesMark env mark tree table addr port old rm (removed c []) f e h =
    ap (table_covers addr port) e ∙ h
store_ranges-LeavesMark env mark tree table addr port old rm (removed c (r ∷ l)) f e h =
    stored mark tree table c (r ∷ l) addr port f ∙ h
store_ranges-LeavesMark env mark tree table addr port old rm (out_of_memory c l) f e h =
    (h.0, λ q. h.1 (sym (stored mark tree table c l addr port f) ∙ q))
store_ranges-LeavesMark env mark tree table addr port old rm (dangling c l) f e h =
    (h.0, λ q. h.1 (sym (stored mark tree table c l addr port f) ∙ q))

rm_found-LeavesMark :
    (env : RmEnv) (mark : ℕ) (rm : Ipv4Range) (tree : Tree Pool4Table) (addr : InAddr) (port : ℕ)
    (found : Option Pool4Table)
    → find_by_mark (some tree) mark ≡ found
    → IsValid rm
    → find_by_mark (some (env.rb_erase (cmp_mark mark) tree)) mark ≡ none
    → LeavesMark env mark addr port
        (table_covers addr port found)
        (names rm addr port)
        (rm_found env mark rm tree found)
unfolding rm_found remove_range table_covers mark_covers
rm_found-LeavesMark env mark rm tree addr port none f v e = ap (table_covers addr port) f
rm_found-LeavesMark env mark rm tree addr port (some table) f v e =
    store_ranges-LeavesMark env mark tree table addr port (covers addr port table.ranges)
      (names rm addr port) (remove_loop env.krealloc_mark 0 table.taddr_count table.ranges rm) f e
      (remove_loop-Removes env.krealloc_mark 0 table.taddr_count table.ranges rm addr port v)

-- Where `rb_erase` leaves nothing under the mark, and the ports to remove are in order,
-- `rm_from_mark_tree` takes from the mark exactly the transport addresses that its argument names,
-- a mark without a table and a table that loses all its ranges included. It fails only where a hole
-- needs memory that `krealloc` refuses, and loses the table only where `krealloc` moves it; the
-- mark then holds nothing that it did not hold before.
pub rm_from_mark_tree-LeavesMark :
    (env : RmEnv) (mark : ℕ) (rm : Ipv4Range) (tree : Tree Pool4Table) (addr : InAddr) (port : ℕ)
    → IsValid rm
    → find_by_mark (some (env.rb_erase (cmp_mark mark) tree)) mark ≡ none
    → LeavesMark env mark addr port
        (mark_covers mark addr port tree)
        (names rm addr port)
        (rm_from_mark_tree env mark rm tree)
unfolding rm_from_mark_tree mark_covers
rm_from_mark_tree-LeavesMark env mark rm tree addr port v e =
    rm_found-LeavesMark env mark rm tree addr port (find_by_mark (some tree) mark) refl v e
