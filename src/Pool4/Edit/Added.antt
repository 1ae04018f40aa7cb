-- ===== src/Pool4/Edit/Added.antt =====
-- Which transport addresses the tree by addresses holds after an addition
-- (mod/common/db/pool4/db.c).
use Prim.Native.Nat.{Ordering}
use jool.Prelude.{
  ℕ, ◌≡◌, ◌≢◌, inl, inr, refl, sym, ap, subst, ◌∙◌, Bool, Bool-cases, true, false, ◌||◌, Option,
  none, some, any, or_false, arith,
}
use jool.Types.{InAddr, Ipv4Range, Result, ok, err, addr4_equals, ipv4_addr_cmp}
use jool.Rbtree.{Tree, rbtree_add, rbtree_set, rbtree_find}
use jool.Rbtree.Find.{All}
use jool.Rbtree.Put.{
  rbtree_find-rbtree_add, rbtree_find-rbtree_add_other, rbtree_find-rbtree_set,
  rbtree_find-rbtree_set_other, rbtree_find-eq,
}
use jool.Pool4.Db.{Pool4Table, find_by_addr}
use jool.Pool4.Ranges.{refused, Entries, pool4_add_range}
use jool.Pool4.Ranges.Cover.{
  IsValid, holds, covers, ipv4_addr_cmp-eq, addr4_equals-eq, CoversBoth, pool4_add_range-covers,
  ipv4_range_fuse-IsValid,
}
use jool.Pool4.Ranges.Order.{ipv4_addr_cmp_self}
use jool.Pool4.Ranges.Insert.{Succeeds, pool4_add_range-All}
use jool.Pool4.Edit.{Memory, create_table, cmp_addr, with_entries, addr_added, put_in_addr_tree}

unfoldable pub table_covers : InAddr → ℕ → Option Pool4Table → Bool
unfolding covers
table_covers addr port none = false
table_covers addr port (some table) = covers addr port table.ranges

-- Whether the table of the address holds the transport address.
unfoldable pub tree_covers : InAddr → ℕ → Tree Pool4Table → Bool
unfolding table_covers find_by_addr
tree_covers addr port tree = table_covers addr port (find_by_addr (some tree) addr)

-- The ranges of every table that can be found have a port at least.
abbrev pub IsSound : Tree Pool4Table → Type 0
IsSound tree =
    (addr : InAddr) (table : Pool4Table)
    → find_by_addr (some tree) addr ≡ some table
    → All IsValid table.ranges

-- The tree has become one that holds what it held before and what the range holds.
pub record Gains (old new : Tree Pool4Table) (range : Ipv4Range) : Type 0 where
  pub exact :
      (addr : InAddr) (port : ℕ)
      → tree_covers addr port new ≡ (tree_covers addr port old || holds addr port range)
  pub sound : IsSound new

found_eq :
    (addr : InAddr) (tree : Tree Pool4Table) (t : Pool4Table)
    → find_by_addr (some tree) addr ≡ some t
    → t.addr ≡ addr
unfolding find_by_addr
found_eq addr tree t e = ipv4_addr_cmp-eq t.addr addr (rbtree_find-eq (cmp_addr addr) tree t e)

not_holds :
    (r : Ipv4Range) (addr : InAddr) (port : ℕ)
    → addr4_equals r.prefix.addr addr ≡ false
    → holds addr port r ≡ false
unfolding holds
not_holds r addr port e = simp (e) refl

some_inj {ℓ} : {A : Type ℓ} (x y : A) → some x ≡ some y → x ≡ y
some_inj x y e = cc e

not_eq : (a b : InAddr) → addr4_equals a b ≡ false → ipv4_addr_cmp a b ≢ Ordering.eq
unfolding addr4_equals ipv4_addr_cmp
not_eq a b e h = ground arith

-- The tree `new` has the table `x` at the address of `range`, and the other tables of `old`.
changed :
    (old new : Tree Pool4Table) (x : Pool4Table) (range : Ipv4Range)
    → IsSound old
    → find_by_addr (some new) range.prefix.addr ≡ some x
    → ((addr : InAddr)
        → addr4_equals range.prefix.addr addr ≡ false
        → find_by_addr (some new) addr ≡ find_by_addr (some old) addr)
    → ((port : ℕ)
        → covers range.prefix.addr port x.ranges
          ≡ (tree_covers range.prefix.addr port old || holds range.prefix.addr port range))
    → All IsValid x.ranges
    → Gains old new range
unfolding tree_covers table_covers
changed old new x range s here there c v = record {
  exact = λ addr port. elim (Bool-cases (addr4_equals range.prefix.addr addr)) [
    | inl e ↦
        let q = addr4_equals-eq range.prefix.addr addr e in
        subst (λ a. tree_covers a port new ≡ (tree_covers a port old || holds a port range)) q
          (ap (table_covers range.prefix.addr port) here ∙ c port)
    | inr e ↦
        ap (table_covers addr port) (there addr e)
        ∙ sym (
            ap (λ b. tree_covers addr port old || b) (not_holds range addr port e)
            ∙ or_false (tree_covers addr port old))
  ];
  sound = λ addr table e. elim (Bool-cases (addr4_equals range.prefix.addr addr)) [
    | inl w ↦
        let q = addr4_equals-eq range.prefix.addr addr w in
        subst (λ t. All IsValid t.ranges)
          (some_inj x table (sym here ∙ ap (λ a. find_by_addr (some new) a) q ∙ e)) v
    | inr w ↦ s addr table (sym (there addr w) ∙ e)
  ];
}

-- What an addition to the tree by addresses leads to.
abbrev pub Added : Tree Pool4Table → Ipv4Range → Result (Tree Pool4Table) → Type 0
Added old range (err e) = ⊥
Added old range (ok new) = Gains old new range

created :
    (tree : Tree Pool4Table) (new : Ipv4Range)
    → IsSound tree
    → IsValid new
    → find_by_addr (some tree) new.prefix.addr ≡ none
    → Gains tree
        (rbtree_add (cmp_addr new.prefix.addr) (create_table 0 new.prefix.addr new) tree)
        new
unfolding create_table find_by_addr tree_covers table_covers covers any
created tree new s v e =
    let b = new.prefix.addr in
    let x : Pool4Table = create_table 0 b new in
    changed tree (rbtree_add (cmp_addr b) x tree) x new s
      (rbtree_find-rbtree_add (cmp_addr b) (cmp_addr b) x tree (ipv4_addr_cmp_self b b refl) e)
      (λ addr q. rbtree_find-rbtree_add_other (cmp_addr b) (cmp_addr addr) x tree (not_eq b addr q))
      (λ port.
        or_false (holds b port new) ∙ sym (ap (λ o. table_covers b port o || holds b port new) e))
      (v, tt)

grown :
    (tree : Tree Pool4Table) (table : Pool4Table) (new : Ipv4Range) (r : Result Entries)
    → IsSound tree
    → find_by_addr (some tree) new.prefix.addr ≡ some table
    → ((addr : InAddr) (port : ℕ) → CoversBoth addr port table.ranges new r)
    → Succeeds (All IsValid) r
    → Added tree new (addr_added tree table r)
unfolding addr_added with_entries find_by_addr tree_covers table_covers
grown tree table new (err e) s f c v = v
grown tree table new (ok r) s f c v =
    let b = new.prefix.addr in
    let x : Pool4Table = with_entries table r in
    let q = found_eq b tree table f in
    changed tree (rbtree_set (cmp_addr table.addr) x tree) x new s
      (subst (λ a. rbtree_find (cmp_addr b) (rbtree_set (cmp_addr a) x tree) ≡ some x) (sym q)
        (rbtree_find-rbtree_set (cmp_addr b) (cmp_addr b) x tree table
          (ipv4_addr_cmp_self table.addr b q) f))
      (λ addr w.
        rbtree_find-rbtree_set_other (cmp_addr table.addr) (cmp_addr addr) x tree
          (subst (λ a. ipv4_addr_cmp a addr ≢ Ordering.eq) (sym q) (not_eq b addr w))
          (λ t u. ap (λ a. ipv4_addr_cmp a addr) (ipv4_addr_cmp-eq t.addr table.addr u)))
      (λ port. c b port ∙ sym (ap (λ o. table_covers b port o || holds b port new) f)) v

-- With memory, `add_to_addr_tree` succeeds, and the tree then holds exactly the transport addresses
-- that it held before and those of the new range; its ranges stay valid.
pub put_in_addr_tree-Added :
    (mem : Memory) (tree : Tree Pool4Table) (new : Ipv4Range) (found : Option Pool4Table)
    → mem.alloc_table ≡ true
    → mem.krealloc ≢ refused
    → IsSound tree
    → IsValid new
    → find_by_addr (some tree) new.prefix.addr ≡ found
    → Added tree new (put_in_addr_tree mem new tree found)
unfolding put_in_addr_tree
put_in_addr_tree-Added mem tree new none m k s v f = simp (m) (created tree new s v f)
put_in_addr_tree-Added mem tree new (some table) m k s v f =
    let w = s new.prefix.addr table f in
    grown tree table new (pool4_add_range mem.krealloc table.taddr_count table.ranges new) s f
      (λ addr port.
        pool4_add_range-covers mem.krealloc table.taddr_count table.ranges new addr port k w v)
      (pool4_add_range-All IsValid mem.krealloc table.taddr_count table.ranges new k
        (λ r t e h l. ipv4_range_fuse-IsValid r t h) w v)
