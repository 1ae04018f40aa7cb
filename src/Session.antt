-- ===== src/Session.antt =====
-- common/session.h and mod/common/db/bib/entry.{h,c}: session entries, as the database shows them
-- to the rest of the translator.
use jool.Prelude.{ℕ, Bool, true, false, ◌&&◌}
use jool.Types.{
  Ipv4TransportAddr, Ipv6TransportAddr, L4Protocol, tcp, udp, icmp, other, taddr4_equals,
  taddr6_equals,
}

-- `tcp_state`.
pub data TcpState : Type 0 where
  established v6_init v4_init v4_fin_rcv v6_fin_rcv v4_fin_v6_fin_rcv trans : TcpState

pub data SessionTimerType : Type 0 where
  timer_est timer_trans timer_syn4 : SessionTimerType

-- `struct session_entry`; `update_time` and `timeout` are in jiffies.
pub record SessionEntry : Type 0 where
  pub src6 : Ipv6TransportAddr
  pub dst6 : Ipv6TransportAddr
  pub src4 : Ipv4TransportAddr
  pub dst4 : Ipv4TransportAddr
  pub proto : L4Protocol
  pub state : TcpState
  pub timer_type : SessionTimerType
  pub update_time : ℕ
  pub timeout : ℕ
  pub has_stored : Bool

-- `enum session_fate`.
pub data SessionFate : Type 0 where
  fate_timer_est fate_timer_trans fate_rm fate_preserve fate_probe fate_drop fate_timer_slow :
      SessionFate

abbrev pub l4_equals : L4Protocol → L4Protocol → Bool
l4_equals tcp tcp = true
l4_equals udp udp = true
l4_equals icmp icmp = true
l4_equals other other = true
l4_equals _ _ = false

unfoldable pub session_equals : SessionEntry → SessionEntry → Bool
unfolding taddr4_equals taddr6_equals
session_equals s t =
    taddr6_equals s.src6 t.src6
    && (taddr6_equals s.dst6 t.dst6
        && (taddr4_equals s.src4 t.src4
            && (taddr4_equals s.dst4 t.dst4 && l4_equals s.proto t.proto)))
