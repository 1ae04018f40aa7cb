-- ===== src/Tests/Mapping.antt =====
-- Tests of the mappings that the additions make, and of the limit on stored packets.
use jool.Prelude.{◌≤◌, ◌≡◌, refl, true, false, [], arith}
use jool.Types.{taddr4, udp, taddr6_equals}
use jool.Session.{SessionEntry, established, timer_est, fate_preserve}
use jool.Pool4.MaskDomain.Rotation.{IsDomain}
use jool.Bib.Table.{BibTable, session_entries, init_table}
use jool.Bib.Fate.{FateCb}
use jool.Bib.Lookup.{find_bib6}
use jool.Bib.Find.{issue216_needed}
use jool.Bib.Add.{bib_add6, added}
use jool.Bib.Tcp.{bib_add_tcp4}
use jool.Bib.Limit.{bib_add_tcp4_limit}
use jool.Bib.Mapping.{Maps}
use jool.Bib.Mapping.Add.{bib_add6-Maps, bib_add6_same_src4}
use jool.Bib.Mask.Order.{IsSorted}
use jool.Bib.Mask.Added.{bib_add6-IsSorted}
use jool.Tests.Fixtures.{
  pool, masks, env, open4, open6, host, peer, peer6, taddr6, waiting, taken, bib10,
}

masks-IsDomain : IsDomain masks
masks-IsDomain = record {
  before = tt;
  here = omega arith;
  after = tt;
  low = omega arith;
  high = omega arith;
}

abbrev announced : SessionEntry
announced = record {
  src6 = taddr6 (host 2) 2;
  dst6 = taddr6 peer6 5000;
  src4 = taddr4 pool 10;
  dst4 = taddr4 peer 5000;
  proto = udp;
  state = established;
  timer_type = timer_est;
  update_time = 1000;
  timeout = 300000;
  has_stored = false;
}

announces :
    (bib_add6 env (init_table udp) masks (open6 2)).result ≡ added (session_entries announced)
unfolding bib_add6
announces = refl

bib_add6-Maps_example :
    Maps (bib_add6 env (init_table udp) masks (open6 2)).table (taddr6 (host 2) 2) (taddr4 pool 10)
bib_add6-Maps_example = bib_add6-Maps env (init_table udp) masks (open6 2) announced announces

abbrev udp_taken : BibTable
udp_taken = record taken { proto = udp; sessions = []; jstat_sessions = 0 }

abbrev announced1 : SessionEntry
announced1 = record announced { src6 = taddr6 (host 1) 1 }

announces1 : (bib_add6 env udp_taken masks (open6 1)).result ≡ added (session_entries announced1)
unfolding bib_add6 taddr6_equals
announces1 = refl

bib_add6_same_src4_example : announced1.src4 ≡ taddr4 pool 10
unfolding find_bib6 issue216_needed taddr6_equals
bib_add6_same_src4_example =
    bib_add6_same_src4 env udp_taken masks (open6 1) (taddr4 pool 10) announced1
      (record { before = []; here = bib10; after = [] }, refl, refl) refl announces1

bib_add6-IsSorted_example : IsSorted (bib_add6 env udp_taken masks (open6 2)).table.bibs
bib_add6-IsSorted_example =
    bib_add6-IsSorted env udp_taken masks (open6 2) masks-IsDomain refl (tt, tt)

abbrev cb : FateCb
cb session = (session, fate_preserve)

bib_add_tcp4_limit_example : (bib_add_tcp4 env cb waiting true open4 8).table.pkt_count ≤ 10
bib_add_tcp4_limit_example = bib_add_tcp4_limit env cb waiting true open4 8 (omega arith)
