-- ===== src/Tests/Joold.antt =====
-- The queue of joold at concrete inputs, and the theorems applied there.
use jool.Prelude.{ℕ, ◌≡◌, refl, inl, true, false, List, [], ◌∷◌, ◌++◌, some, length, arith}
use jool.Types.{udp, tcp, taddr4, taddr6_equals}
use jool.Session.{SessionEntry, established, timer_est}
use jool.Bib.Table.{init_table, key_equals}
use jool.Bib.Find.{find_bib_session6}
use jool.Filtering.{Bib, get_table}
use jool.Joold.{JooldConfig, JooldQueue, Clock, joold_alloc}
use jool.Joold.Send.{Netlink, joold_add, joold_ack, joold_advertise}
use jool.Joold.Order.{IsQueue, start, add, ad, accepted_add, accepted_ad, Run-IsQueue}
use jool.Joold.Drain.{acks, acks_drain}
use jool.Joold.Requests.{add_new_session, add_new_session-reports}
use jool.Tests.Fixtures.{peer, pool, host, taddr6, peer6, env, taken, key10, session10}

abbrev cfg : JooldConfig
cfg = record {
  enabled = true;
  flush_asap = false;
  flush_deadline = 2000;
  capacity = 512;
  max_sessions_per_pkt = 2;
}

abbrev at : ℕ → Clock
at t = record { jiffies = t; msecs_to_jiffies = λ ms. ms }

abbrev roomy : Netlink
roomy = record { new_msg = true; has_room = λ done s. true }

-- Host `n` talks to the peer.
abbrev session : ℕ → SessionEntry
session n = record {
  src6 = taddr6 (host n) n;
  dst6 = taddr6 peer6 80;
  src4 = taddr4 pool n;
  dst4 = taddr4 peer 80;
  proto = udp;
  state = established;
  timer_type = timer_est;
  update_time = 5;
  timeout = 7;
  has_stored = false;
}

abbrev after_add : JooldQueue
after_add = (joold_add cfg (at 1) roomy true (joold_alloc (at 0)) (session 1)).queue

-- An advertisement of two sessions behind a queued one: two are cut.
advertises :
    (joold_advertise cfg
      (at 2)
      roomy
      (λ done. true)
      (session 2 ∷ session 3 ∷ [])
      after_add).0.message
    ≡ some (session 1 ∷ session 2 ∷ [])
unfolding joold_advertise joold_add joold_alloc
advertises = refl

Run-IsQueue_example :
    IsQueue
      (([] ++ accepted_add cfg true (joold_alloc (at 0)) (session 1))
        ++ accepted_ad
            (joold_advertise cfg
              (at 2)
              roomy
              (λ done. true)
              (session 2 ∷ session 3 ∷ [])
              after_add).1
            (session 2 ∷ session 3 ∷ []))
      (([] ++ (joold_add cfg (at 1) roomy true (joold_alloc (at 0)) (session 1)).prepared)
        ++ (joold_advertise cfg
            (at 2)
            roomy
            (λ done. true)
            (session 2 ∷ session 3 ∷ [])
            after_add).0.prepared)
      (joold_advertise cfg
        (at 2)
        roomy
        (λ done. true)
        (session 2 ∷ session 3 ∷ [])
        after_add).0.queue
Run-IsQueue_example = Run-IsQueue (
    ad (at 2) roomy (λ done. true) (session 2 ∷ session 3 ∷ []) (omega arith)
      (add (at 1) roomy true (session 1) (start (at 0))))

-- Five sessions of an advertisement, two to a packet.
abbrev advertising : JooldQueue
advertising = record {
  ack_received = false;
  ad_ongoing = true;
  deferred = session 1 ∷ session 2 ∷ session 3 ∷ session 4 ∷ session 5 ∷ [];
  count = 5;
  last_flush_time = 0;
}

abbrev three : List (Clock × Netlink)
three = (at 1, roomy) ∷ (at 2, roomy) ∷ (at 3, roomy) ∷ []

acks_drain_example :
    ((acks cfg three advertising).0.deferred ≡ [])
    × ((acks cfg three advertising).0.ad_ongoing ≡ false)
    × ((acks cfg three advertising).1 ≡ advertising.deferred)
acks_drain_example =
    acks_drain cfg refl three advertising refl (omega arith) (omega arith) refl (omega arith)

two_acks : length (acks cfg ((at 1, roomy) ∷ (at 2, roomy) ∷ []) advertising).0.deferred ≡ 1
unfolding acks joold_ack
two_acks = refl

-- The session that the table holds has another IPv4 address.
abbrev colliding : SessionEntry
colliding = record {
  src6 = key10.src6;
  dst6 = session10.dst6;
  src4 = taddr4 pool 11;
  dst4 = session10.dst4;
  proto = tcp;
  state = established;
  timer_type = timer_est;
  update_time = 5;
  timeout = 7;
  has_stored = false;
}

abbrev db : Bib
db = record { tcp_table = taken; udp_table = init_table udp; icmp_table = init_table udp }

add_new_session-reports_example : (add_new_session env db (some colliding)).success ≡ true
unfolding find_bib_session6 get_table taddr6_equals key_equals
add_new_session-reports_example =
    add_new_session-reports env db taken colliding key10
      (record { before = []; here = session10; after = [] }) refl refl (inl refl)
