-- ===== src/Pool4/Edit/Network.antt =====
-- `pool4db_add` on the addresses of a prefix (mod/common/db/pool4/db.c).
use Prim.Native.Nat.{Ordering}
use jool.Prelude.{
  if_cases, ◌&&◌, ℕ, zero, suc, ◌+◌, ◌^◌, ◌≤◌, ◌<◌, ◌≡◌, ◌≢◌, refl, ap, ◌∙◌, Bool, true, false,
  ◌&&◌, ◌||◌, if◌then◌else◌, ltb, leb, ◌==◌, List, [], ◌∷◌, Option, none, some, arith,
}
use jool.Types.{
  InAddr, PortRange, Ipv4Range, L4Protocol, tcp, udp, icmp, other, Result, ok, err, enomem,
  addr4_equals, be32_to_cpu,
}
use jool.Rbtree.{Tree, rbtree_add}
use jool.Pool4.MaskDomain.{port_range_contains}
use jool.Pool4.Db.{Pool4, Pool4Trees, Pool4Table, get_tree, find_by_addr, find_by_mark, cmp_mark}
use jool.Pool4.Ranges.{
  Krealloc, refused, in_place, elsewhere, is_elsewhere, Entries, fix_collisions, fused_count,
  ipv4_range_touches, ipv4_range_fuse, slip_in, after_entry, put_first, compare_range,
  pool4_add_range,
}
use jool.Pool4.Ranges.Cover.{IsValid, holds}
use jool.Pool4.Ranges.Insert.{add_step}
use jool.Pool4.Edit.{
  Marked, marked, unmarked, errno, dangling_write, in_marks, Memory, Pool4Entry, Edited,
  cpu_to_be32, host, mark_edited, addr_edited, add_to_addr_tree, mark_tree, addr_tree, in_trees,
  set_tree, put_in_mark_tree, put_in_addr_tree, mark_added, set_iterations, create_table,
}
use jool.Pool4.Edit.Added.{IsSound, Gains, Added, put_in_addr_tree-Added}

-- The four bytes are bytes.
abbrev pub IsAddr : InAddr → Type 0
IsAddr a = (a.b0 < 256) × (a.b1 < 256) × (a.b2 < 256) × (a.b3 < 256)

cpu_to_be32-eq :
    (n : ℕ) (a : InAddr)
    → IsAddr a
    → n < 2 ^ 32
    → addr4_equals (cpu_to_be32 n) a ≡ (n == be32_to_cpu a)
unfolding addr4_equals cpu_to_be32 be32_to_cpu
cpu_to_be32-eq n a (h0, h1, h2, h3) h = ground arith

-- The transport addresses of `n` addresses from `cursor` on.
unfoldable pub hits : ℕ → ℕ → PortRange → InAddr → ℕ → Bool
hits zero cursor ports addr port = false
hits (suc n) cursor ports addr port =
    holds addr port (host cursor ports) || hits n (cursor + 1) ports addr port

-- The network of an addition: `n` addresses from `cursor` on, and the ports.
unfoldable pub in_network : ℕ → ℕ → PortRange → InAddr → ℕ → Bool
unfolding be32_to_cpu port_range_contains
in_network n cursor ports addr port =
    leb cursor (be32_to_cpu addr)
    && ltb (be32_to_cpu addr) (cursor + n)
    && port_range_contains ports port

next_hit :
    (c w n : ℕ) (p : Bool)
    → ((c == w && p) || (leb (c + 1) w && ltb w (c + 1 + n) && p))
      ≡ (leb c w && ltb w (c + suc n) && p)
next_hit c w n p = ground arith

no_hit : (c w : ℕ) (p : Bool) → false ≡ (leb c w && ltb w (c + 0) && p)
no_hit c w p = ground arith

pub hits-in_network :
    (n cursor : ℕ) (ports : PortRange) (addr : InAddr) (port : ℕ)
    → IsAddr addr
    → cursor + n ≤ 2 ^ 32
    → hits n cursor ports addr port ≡ in_network n cursor ports addr port
unfolding hits in_network holds
hits-in_network zero cursor ports addr port a h =
    no_hit cursor (be32_to_cpu addr) (port_range_contains ports port)
hits-in_network (suc n) cursor ports addr port a h =
    ap (λ b. (b && port_range_contains ports port) || hits n (cursor + 1) ports addr port)
      (cpu_to_be32-eq cursor addr a (omega (arith, h)))
    ∙ ap (λ b. (cursor == be32_to_cpu addr && port_range_contains ports port) || b)
        (hits-in_network n (cursor + 1) ports addr port a (omega (arith, h)))
    ∙ next_hit cursor (be32_to_cpu addr) n (port_range_contains ports port)

-- There is memory for everything.
abbrev pub HasMemory : (ℕ → Memory) → Type 0
HasMemory mem = (i : ℕ) → ((mem i).alloc_table ≡ true) × ((mem i).krealloc ≢ refused)

-- Where iterations are set, no table moves: `add_to_mark_tree` would write to where it was.
abbrev pub StaysFor : Pool4Entry → Memory → Type 0
StaysFor entry mem = entry.iterations_set ≡ true → mem.krealloc ≢ elsewhere

abbrev pub IsMarked : {A : Type 0} → Marked A → Type 0
IsMarked {A = A} r = (a : A) × (r ≡ marked a)

-- The table is moved only by a `krealloc` that moves it.
abbrev MovesBy : Krealloc → Result Entries → Type 0
MovesBy k (err e) = ⊥
MovesBy k (ok r) = r.moved ≡ true → k ≡ elsewhere

fix_collisions-moved :
    (count : ℕ) (entry : Ipv4Range) (ranges : List Ipv4Range)
    → (fix_collisions count entry ranges).moved ≡ false
unfolding fix_collisions
fix_collisions-moved count entry [] = refl
fix_collisions-moved count entry (next ∷ ranges) =
    if_cases (λ (e : Entries). e.moved ≡ false) (ipv4_range_touches entry next)
      (fix_collisions-moved (fused_count count entry next) (ipv4_range_fuse entry next) ranges) refl

slip_in-MovesBy :
    (k : Krealloc) (count : ℕ) (ranges : List Ipv4Range) (new : Ipv4Range)
    → k ≢ refused
    → MovesBy k (slip_in k count ranges new)
unfolding slip_in is_elsewhere
slip_in-MovesBy refused count ranges new h = absurd (h refl)
slip_in-MovesBy in_place count ranges new h = λ e. absurd (cc e)
slip_in-MovesBy elsewhere count ranges new h = λ e. refl

after_entry-MovesBy :
    (k : Krealloc) (entry : Ipv4Range) (r : Result Entries)
    → MovesBy k r
    → MovesBy k (after_entry entry r)
unfolding after_entry put_first
after_entry-MovesBy k entry (err e) h = h
after_entry-MovesBy k entry (ok r) h = h

add_step-MovesBy :
    (k : Krealloc) (count : ℕ) (entry : Ipv4Range) (ranges : List Ipv4Range) (new : Ipv4Range)
    (o : Ordering)
    → k ≢ refused
    → MovesBy k (pool4_add_range k count ranges new)
    → MovesBy k (add_step o k count entry ranges new)
add_step-MovesBy k count entry ranges new Ordering.lt m h =
    after_entry-MovesBy k entry (pool4_add_range k count ranges new) h
add_step-MovesBy k count entry ranges new Ordering.eq m h =
    λ e. absurd (cc (e, fix_collisions-moved count (ipv4_range_fuse entry new) ranges))
add_step-MovesBy k count entry ranges new Ordering.gt m h =
    slip_in-MovesBy k count (entry ∷ ranges) new m

pool4_add_range-MovesBy :
    (k : Krealloc) (count : ℕ) (ranges : List Ipv4Range) (new : Ipv4Range)
    → k ≢ refused
    → MovesBy k (pool4_add_range k count ranges new)
unfolding pool4_add_range
pool4_add_range-MovesBy k count [] new m = slip_in-MovesBy k count [] new m
pool4_add_range-MovesBy k count (entry ∷ ranges) new m =
    add_step-MovesBy k count entry ranges new (compare_range entry new) m
      (pool4_add_range-MovesBy k count ranges new m)

unless-IsMarked :
    (a b : Bool) (t : Tree Pool4Table)
    → (a ≡ true → b ≡ true → ⊥)
    → IsMarked (if a && b then unmarked dangling_write else marked t)
unless-IsMarked true true t h = absurd (h refl refl)
unless-IsMarked true false t h = (t, refl)
unless-IsMarked false b t h = (t, refl)

mark_added-IsMarked :
    (mem : Memory) (entry : Pool4Entry) (tree : Tree Pool4Table) (table : Pool4Table)
    (r : Result Entries)
    → StaysFor entry mem
    → MovesBy mem.krealloc r
    → IsMarked (mark_added entry tree table r)
unfolding mark_added
mark_added-IsMarked mem entry tree table (err e) s h = absurd h
mark_added-IsMarked mem entry tree table (ok r) s h =
    unless-IsMarked r.moved entry.iterations_set _ (λ a b. s b (h a))

if-IsMarked :
    (b : Bool) (t : Tree Pool4Table)
    → b ≡ true
    → IsMarked (if b then marked t else unmarked (errno enomem))
if-IsMarked true t e = (t, refl)
if-IsMarked false t e = absurd (cc e)

put_in_mark_tree-IsMarked :
    (mem : Memory) (entry : Pool4Entry) (new : Ipv4Range) (tree : Tree Pool4Table)
    (found : Option Pool4Table)
    → mem.alloc_table ≡ true
    → mem.krealloc ≢ refused
    → StaysFor entry mem
    → IsMarked (put_in_mark_tree mem entry new tree found)
unfolding put_in_mark_tree
put_in_mark_tree-IsMarked mem entry new tree none m k s =
    if-IsMarked mem.alloc_table
      (rbtree_add (cmp_mark entry.mark)
        (set_iterations entry (create_table entry.mark new.prefix.addr new)) tree)
      m
put_in_mark_tree-IsMarked mem entry new tree (some table) m k s =
    mark_added-IsMarked mem entry tree table
      (pool4_add_range mem.krealloc table.taddr_count table.ranges new) s
      (pool4_add_range-MovesBy mem.krealloc table.taddr_count table.ranges new k)

in_marks-IsMarked :
    (trees : Pool4Trees) (proto : L4Protocol) (r : Marked (Tree Pool4Table))
    → IsMarked r
    → IsMarked (in_marks trees proto r)
unfolding in_marks
in_marks-IsMarked trees proto (unmarked e) h = absurd (cc h.1)
in_marks-IsMarked trees proto (marked t) h = (_, refl)

pub mark_tree-IsMarked :
    (mem : Memory) (entry : Pool4Entry) (new : Ipv4Range) (trees : Pool4Trees)
    (found : Option (Tree Pool4Table))
    → mem.alloc_table ≡ true
    → mem.krealloc ≢ refused
    → StaysFor entry mem
    → found ≢ none
    → IsMarked (mark_tree mem entry new trees found)
unfolding mark_tree
mark_tree-IsMarked mem entry new trees none m k s h = absurd (h refl)
mark_tree-IsMarked mem entry new trees (some tree) m k s h =
    in_marks-IsMarked trees entry.proto _
      (put_in_mark_tree-IsMarked mem entry new tree (find_by_mark (some tree) entry.mark) m k s)

pub get_tree-some :
    (trees : Pool4Trees) (proto : L4Protocol) → proto ≢ other → get_tree trees proto ≢ none
unfolding get_tree
get_tree-some trees tcp h e = cc e
get_tree-some trees udp h e = cc e
get_tree-some trees icmp h e = cc e
get_tree-some trees other h e = h refl

get_tree-set_tree :
    (trees : Pool4Trees) (proto : L4Protocol) (tree : Tree Pool4Table)
    → proto ≢ other
    → get_tree (set_tree trees proto tree) proto ≡ some tree
unfolding get_tree set_tree
get_tree-set_tree trees tcp tree h = refl
get_tree-set_tree trees udp tree h = refl
get_tree-set_tree trees icmp tree h = refl
get_tree-set_tree trees other tree h = absurd (h refl)

-- The edit succeeded, and the tree of the protocol has gained the range.
abbrev pub Grown : L4Protocol → Tree Pool4Table → Ipv4Range → Edited → Type 0
Grown proto tree new e =
    (e.error ≡ none)
    × ((t : Tree Pool4Table) × (get_tree e.pool.tree_addr proto ≡ some t) × Gains tree t new)

addr_edited-Grown :
    (pool : Pool4) (proto : L4Protocol) (tree : Tree Pool4Table) (new : Ipv4Range)
    (r : Result (Tree Pool4Table))
    → proto ≢ other
    → Added tree new r
    → Grown proto tree new (addr_edited pool (in_trees pool.tree_addr proto r))
unfolding addr_edited in_trees
addr_edited-Grown pool proto tree new (err e) p h = absurd h
addr_edited-Grown pool proto tree new (ok t) p h =
    (refl, (t, get_tree-set_tree pool.tree_addr proto t p, h))

pub mark_edited-Grown :
    (mem : Memory) (pool : Pool4) (proto : L4Protocol) (tree : Tree Pool4Table) (new : Ipv4Range)
    (marks : Marked Pool4Trees)
    → mem.alloc_table ≡ true
    → mem.krealloc ≢ refused
    → proto ≢ other
    → get_tree pool.tree_addr proto ≡ some tree
    → IsSound tree
    → IsValid new
    → IsMarked marks
    → Grown proto tree new (mark_edited mem pool proto new marks)
unfolding mark_edited add_to_addr_tree addr_tree
mark_edited-Grown mem pool proto tree new (unmarked e) m k p g s v h = absurd (cc h.1)
mark_edited-Grown mem pool proto tree new (marked trees) m k p g s v h = simp (g) (
    addr_edited-Grown (record pool { tree_mark = trees }) proto tree new
      (put_in_addr_tree mem new tree (find_by_addr (some tree) new.prefix.addr)) p
      (put_in_addr_tree-Added mem tree new (find_by_addr (some tree) new.prefix.addr) m k s v refl))
