-- ===== src/TcpMachine/Timers.antt =====
-- Which timer a TCP session waits under in which state, and that the machine keeps to it.
use jool.Prelude.{ℕ, ◌≡◌, refl, ◌⊎◌, arith}
use jool.Session.{
  TcpState, established, v6_init, v4_init, v4_fin_rcv, v6_fin_rcv, v4_fin_v6_fin_rcv, trans,
  SessionTimerType, timer_est, timer_trans, timer_syn4, SessionEntry, SessionFate, fate_timer_est,
  fate_timer_trans, fate_probe, fate_rm,
}
use jool.TcpMachine.{TcpInput, tcp_state_machine, tcp_est_expire_cb}

-- The timers that a TCP session may wait under in each state.
abbrev pub IsTimed : TcpState → SessionTimerType → Type 0
IsTimed established t = t ≡ timer_est
IsTimed v6_init t = t ≡ timer_trans
IsTimed v4_init t = (t ≡ timer_trans) ⊎ (t ≡ timer_syn4)
IsTimed v4_fin_rcv t = (t ≡ timer_est) ⊎ (t ≡ timer_trans)
IsTimed v6_fin_rcv t = (t ≡ timer_est) ⊎ (t ≡ timer_trans)
IsTimed v4_fin_v6_fin_rcv t = t ≡ timer_trans
IsTimed trans t = t ≡ timer_trans

-- The timer that a fate leaves the session under (`decide_fate`).
abbrev pub timer_after : SessionFate → SessionTimerType → SessionTimerType
timer_after fate_timer_est t = timer_est
timer_after fate_timer_trans t = timer_trans
timer_after fate_probe t = timer_trans
timer_after _ t = t

machine-IsTimed_of :
    (t : TcpState) (p : TcpInput) (s : SessionEntry) (k : SessionTimerType)
    → s.state ≡ t
    → IsTimed t k
    → let r = tcp_state_machine p s in IsTimed r.0.state (timer_after r.1 k)
unfolding tcp_state_machine
machine-IsTimed_of established p s k e h = ground arith
machine-IsTimed_of _ p s k e h = ground arith

-- The machine keeps every session under a timer that its state allows.
pub tcp_state_machine-IsTimed :
    (p : TcpInput) (s : SessionEntry) (k : SessionTimerType)
    → IsTimed s.state k
    → let r = tcp_state_machine p s in IsTimed r.0.state (timer_after r.1 k)
tcp_state_machine-IsTimed p s k h = machine-IsTimed_of s.state p s k refl h

est_expire_of :
    (t : TcpState) (now : ℕ) (s : SessionEntry)
    → s.state ≡ t
    → IsTimed t timer_est
    → ((t ≡ established)
        × (tcp_est_expire_cb now s ≡ (record s { state = trans; update_time = now }, fate_probe)))
      ⊎ (((t ≡ v4_fin_rcv) ⊎ (t ≡ v6_fin_rcv)) × (tcp_est_expire_cb now s ≡ (s, fate_rm)))
unfolding tcp_est_expire_cb
est_expire_of established now s e h = ground arith
est_expire_of _ now s e h = ground arith

-- Under the established timer only three states expire, so that the callback's warnings are
-- never reached: an established session is probed and becomes transitory, and one that has seen a
-- FIN is removed.
pub tcp_est_expire_cb_cases :
    (now : ℕ) (s : SessionEntry)
    → IsTimed s.state timer_est
    → ((s.state ≡ established)
        × (tcp_est_expire_cb now s ≡ (record s { state = trans; update_time = now }, fate_probe)))
      ⊎ (((s.state ≡ v4_fin_rcv) ⊎ (s.state ≡ v6_fin_rcv))
          × (tcp_est_expire_cb now s ≡ (s, fate_rm)))
tcp_est_expire_cb_cases now s h = est_expire_of s.state now s refl h
