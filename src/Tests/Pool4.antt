-- ===== src/Tests/Pool4.antt =====
-- Tests of pool4 and of the search for a mask.
use Prim.Native.Nat.{Ordering}
use jool.Prelude.{
  ℕ, zero, suc, ◌+◌, ◌%◌, ◌^◌, ◌≤◌, ◌<◌, ◌≡◌, ◌↔◌, ◌||◌, any, refl, true, false, List, [], ◌∷◌,
  some, get_elem?, arith,
}
use jool.Types.{taddr4_equals, addr4_equals, taddr4_compare, Ipv4Range, tcp, taddr4, ok}
use jool.Pool4.MaskDomain.{port_range_contains}
use jool.Pool4.MaskDomain.Rotation.{IsDomain, rotation}
use jool.Pool4.MaskDomain.Budget.{Gives, limit, mask_domain_next-Gives}
use jool.Pool4.Db.{
  Pool4, Pool4Table, Pool4Trees, DomainEnv, no_route, is_empty, find_by_mark, get_tree,
  find_port_range, mask_domain_find, cmp_mark,
}
use jool.Pool4.Db.PortSearch.{IsOrdered, find_port_range_iff}
use jool.Pool4.Db.Start.{FindsAt, mask_domain_find-FindsAt}
use jool.Verdict.{continue}
use jool.Rbtree.{leaf, node, inorder, find_session_slot}
use jool.Rbtree.Slot.{is_with, find_session_slot-any}
use jool.Bib.Lookup.{find_available_mask}
use jool.Bib.Mask.Search.{first_free, visited, find_available_mask-first_free}
use jool.Tests.Fixtures.{
  pool, pool_range, masks, well_known, peer6, peer, taddr6, taken, session10, word,
}

masks-IsDomain : IsDomain masks
masks-IsDomain = record {
  before = tt;
  here = omega arith;
  after = tt;
  low = omega arith;
  high = omega arith;
}

mask_domain_next-Gives_example : Gives masks
mask_domain_next-Gives_example = mask_domain_next-Gives masks masks-IsDomain (omega arith)

find_available_mask-first_free_example :
    (find_available_mask taken masks).1 ≡ first_free taken (visited (limit masks) (rotation masks))
find_available_mask-first_free_example =
    find_available_mask-first_free taken masks (tt, tt) masks-IsDomain refl

finds_11 : (find_available_mask taken masks).1 ≡ ok (taddr4 pool 11)
unfolding find_available_mask taddr4_equals
finds_11 = refl

abbrev high_range : Ipv4Range
high_range = record pool_range { ports = record { min = 20; max = 29 } }

abbrev two_ranges : List Ipv4Range
two_ranges = pool_range ∷ high_range ∷ []

two_ranges-IsOrdered : IsOrdered two_ranges
two_ranges-IsOrdered = record { valid = valid_at; apart = apart_at }
  where
    valid_at : (i : ℕ) (r : Ipv4Range) → get_elem? two_ranges i ≡ some r → r.ports.min ≤ r.ports.max
    valid_at zero r e = ground arith
    valid_at (suc zero) r e = ground arith
    valid_at (suc (suc i)) r e = absurd (cc e)

    apart_at :
        (i j : ℕ) (r s : Ipv4Range)
        → i < j
        → get_elem? two_ranges i ≡ some r
        → get_elem? two_ranges j ≡ some s
        → r.ports.max < s.ports.min
    apart_at i zero r s h e f = absurd (omega (arith, h))
    apart_at zero (suc zero) r s h e f = ground arith
    apart_at (suc i) (suc zero) r s h e f = absurd (omega (arith, h))
    apart_at i (suc (suc j)) r s h e f = absurd (cc f)

find_port_range_iff_example : (find_port_range two_ranges 25 ≡ some high_range) ↔ (
    (port_range_contains high_range.ports 25 ≡ true)
    × ((i : ℕ) × (get_elem? two_ranges i ≡ some high_range)))
find_port_range_iff_example = find_port_range_iff two_ranges 25 high_range two_ranges-IsOrdered

abbrev table : Pool4Table
table = record {
  mark = 5;
  addr = word 0 0 0 0;
  taddr_count = 13;
  max_iterations_allowed = 0;
  iterations_infinite = false;
  iterations_auto = true;
  ranges = two_ranges;
}

abbrev one_table : Pool4Trees
one_table = record { tcp_tree = node leaf table leaf; udp_tree = leaf; icmp_tree = leaf }

abbrev pool4 : Pool4
pool4 = record { tree_mark = one_table; tree_addr = one_table }

abbrev domain_env : DomainEnv
domain_env = record {
  hash = some 30;
  next_ephemeral = 4;
  alloc_domain = true;
  predict_route64 = λ addr. no_route continue;
}

mask_domain_find-FindsAt_example :
    FindsAt table
      (((30 + 4) % 2 ^ 32) % 13)
      (mask_domain_find domain_env pool4 well_known tcp 5 (taddr6 peer6 80))
unfolding is_empty find_by_mark get_tree
mask_domain_find-FindsAt_example =
    mask_domain_find-FindsAt domain_env pool4 well_known tcp 5 30 (taddr6 peer6 80) table refl refl
      refl refl (omega arith, (omega arith, tt)) refl (omega arith)

find_session_slot-any_example :
    false ≡ (false || any (is_with (taddr4 peer 80)) (inorder (node leaf session10 leaf)))
unfolding find_session_slot inorder taddr4_compare addr4_equals
find_session_slot-any_example =
    find_session_slot-any (taddr4 peer 80) (node leaf session10 leaf) false false (tt, tt, tt, tt)
      refl

-- The comparison of marks by a wrapping difference is no order: each of three is above another.
marks_cycle :
    (cmp_mark 1610612736 (record table { mark = 0 }) ≡ Ordering.gt)
    × (cmp_mark 0 (record table { mark = 3221225472 }) ≡ Ordering.gt)
    × (cmp_mark 3221225472 (record table { mark = 1610612736 }) ≡ Ordering.gt)
unfolding cmp_mark
marks_cycle = (refl, refl, refl)
