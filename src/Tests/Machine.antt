-- ===== src/Tests/Machine.antt =====
-- Tests of the TCP state machine and its timers.
use jool.Prelude.{◌≡◌, ◌⊎◌, refl, true, false}
use jool.Types.{ipv4, ipv6, tcp, taddr4}
use jool.Session.{SessionEntry, established, v4_fin_rcv, timer_est}
use jool.TcpMachine.{TcpInput, tcp_state_machine}
use jool.TcpMachine.Edges.{Edge, next, v4_fin, tcp_state_machine-Edge, Edge-tcp_state_machine}
use jool.TcpMachine.Timers.{IsTimed, timer_after, tcp_state_machine-IsTimed}
use jool.Tests.Fixtures.{pool, peer, peer6, host, taddr6}

abbrev session : SessionEntry
session = record {
  src6 = taddr6 (host 1) 1;
  dst6 = taddr6 peer6 5000;
  src4 = taddr4 pool 10;
  dst4 = taddr4 peer 5000;
  proto = tcp;
  state = established;
  timer_type = timer_est;
  update_time = 1000;
  timeout = 7200000;
  has_stored = false;
}

abbrev fin4 : TcpInput
fin4 = record {
  l3 = ipv4;
  hdr = record { syn = false; fin = true; rst = false };
  handle_rst_during_fin_rcv = false;
}

tcp_state_machine-Edge_example :
    (next fin4 session ≡ session.state) ⊎ Edge session.state fin4 (next fin4 session)
tcp_state_machine-Edge_example = tcp_state_machine-Edge fin4 session

Edge-tcp_state_machine_example : next fin4 session ≡ v4_fin_rcv
Edge-tcp_state_machine_example = Edge-tcp_state_machine v4_fin_rcv fin4 session (v4_fin refl refl)

abbrev fin6 : TcpInput
fin6 = record fin4 { l3 = ipv6 }

tcp_state_machine-IsTimed_example :
    let r = tcp_state_machine fin4 session in IsTimed r.0.state (timer_after r.1 timer_est)
tcp_state_machine-IsTimed_example = tcp_state_machine-IsTimed fin4 session timer_est refl
