-- ===== src/Tests/Wreck.antt =====
-- Three packets that lead `find_bib_session6` to the freed entry, and the theorems on them.
use jool.Prelude.{◌+◌, ◌<◌, ◌≡◌, ◌≢◌, refl, true, [], some, any, length}
use jool.Pool4.MaskDomain.{mask_domain_matches}
use jool.Types.{taddr4_equals, taddr6_equals, tcp, taddr4}
use jool.Session.{fate_preserve}
use jool.PktQueue.{pktqueue_find}
use jool.Bib.Table.{BibKey, init_table}
use jool.Bib.Fate.{FateCb}
use jool.Bib.Lookup.{find_bib6, find_bib4, find_available_mask}
use jool.Bib.Find.{fault, find_bib_session6}
use jool.Bib.Tcp.{bib_add_tcp6, bib_add_tcp4, undefined_tcp}
use jool.Bib.Static.{bib_add_static}
use jool.Bib.Count.{IsCounted, stored}
use jool.Bib.Count.Static.{bib_add_static_leak}
use jool.Bib.Count.Reach.{Reach, initial, after, step_add_tcp4, Reach-IsCounted}
use jool.Bib.Wreck.{find_bib_session6_fault, find_bib_session6_safe}
use jool.Tests.Fixtures.{
  pool, host, taddr6, masks, env, open4, open6, open6_other, node, waiting, taken, bib10,
}

abbrev cb : FateCb
cb session = (session, fate_preserve)

-- The peer's SYN waits.
stores : (bib_add_tcp4 env cb (init_table tcp) true open4 7).table ≡ waiting
unfolding bib_add_tcp4
stores = refl

-- Host 1 is given the address that it waits for.
takes : (bib_add_tcp6 env cb waiting masks true (open6_other 1)).table ≡ taken
unfolding bib_add_tcp6 taddr6_equals
takes = refl

-- Host 2 answers the peer.
wrecks : (bib_add_tcp6 env cb taken masks true (open6 2)).result ≡ undefined_tcp
unfolding bib_add_tcp6 taddr6_equals mask_domain_matches taddr4_equals
wrecks = refl

stored_defined : (bib_add_tcp4 env cb (init_table tcp) true open4 7).result ≢ undefined_tcp
unfolding bib_add_tcp4
stored_defined e = cc e

waiting-Reach : Reach tcp (bib_add_tcp4 env cb (init_table tcp) true open4 7).table
waiting-Reach =
    after _ _ initial (step_add_tcp4 env cb (init_table tcp) true open4 7 stored_defined)

Reach-IsCounted_example : IsCounted (bib_add_tcp4 env cb (init_table tcp) true open4 7).table
Reach-IsCounted_example =
    Reach-IsCounted tcp (bib_add_tcp4 env cb (init_table tcp) true open4 7).table (
      after (init_table tcp) (bib_add_tcp4 env cb (init_table tcp) true open4 7).table initial
        (step_add_tcp4 env cb (init_table tcp) true open4 7 stored_defined))

find_bib_session6_fault_example :
    (find_bib_session6 env taken (some masks) (open6 2) (taddr4 pool 0)).result ≡ fault
unfolding find_bib6 find_bib4 pktqueue_find find_available_mask taddr6_equals mask_domain_matches
    taddr4_equals
find_bib_session6_fault_example =
    find_bib_session6_fault env taken masks (open6 2) (taddr4 pool 0) (taddr4 pool 11)
      (record { before = []; here = node; after = [] }) refl refl refl refl
      (λ e. (record { before = []; here = bib10; after = [] }, refl)) refl

find_bib_session6_safe_example :
    (find_bib_session6 env waiting (some masks) (open6 2) (taddr4 pool 0)).result ≢ fault
unfolding find_bib4
find_bib_session6_safe_example =
    find_bib_session6_safe env waiting (some masks) (open6 2) (taddr4 pool 0) (λ e. refl)
      (λ c e. refl)

waiting-IsCounted : IsCounted waiting
unfolding stored
waiting-IsCounted = record { pkts = refl; bibs = refl; sessions = refl }

abbrev static_key : BibKey
static_key = record { src6 = taddr6 (host 3) 3; src4 = taddr4 pool 10 }

bib_add_static_leak_example :
    let u = (bib_add_static env waiting static_key).table in
    stored u.sessions + length u.pkt_queue < u.pkt_count
unfolding find_bib6 find_bib4 any taddr4_equals
bib_add_static_leak_example =
    bib_add_static_leak env waiting static_key waiting-IsCounted refl refl refl refl refl
