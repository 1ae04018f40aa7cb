-- ===== src/TcpMachine.antt =====
-- The TCP state machine of mod/common/steps/filtering_and_updating.c, which the database calls
-- back (`collision_cb`). A callback edits the entry it is given and returns a fate; here it returns
-- both.
pub mod Edges
pub mod Timers
use jool.Prelude.{ℕ, Bool, true, false, ◌&&◌, if◌then◌else◌}
use jool.Types.{L3Protocol, ipv6, ipv4}
use jool.Session.{
  TcpState, established, v6_init, v4_init, v4_fin_rcv, v6_fin_rcv, v4_fin_v6_fin_rcv, trans,
  SessionEntry, SessionFate, fate_timer_est, fate_timer_trans, fate_rm, fate_preserve, fate_probe,
  fate_drop,
}

-- The flags of `struct tcphdr` that the machine reads.
pub record TcpFlags : Type 0 where
  pub syn : Bool
  pub fin : Bool
  pub rst : Bool

-- What the machine reads of `struct xlation`: the packet, and one option of the instance.
pub record TcpInput : Type 0 where
  pub l3 : L3Protocol
  pub hdr : TcpFlags
  pub handle_rst_during_fin_rcv : Bool

tcp_v4_init_state : SessionEntry → L3Protocol → TcpInput → SessionEntry × SessionFate
tcp_v4_init_state session ipv6 state =
    if state.hdr.syn
    then (record session { state = established; has_stored = false }, fate_timer_est)
    else (session, fate_preserve)
tcp_v4_init_state session ipv4 state =
    if session.has_stored then (session, fate_drop) else (session, fate_preserve)

tcp_v6_init_state : SessionEntry → L3Protocol → TcpInput → SessionEntry × SessionFate
tcp_v6_init_state session ipv4 state =
    if state.hdr.syn
    then (record session { state = established }, fate_timer_est)
    else (session, fate_preserve)
tcp_v6_init_state session ipv6 state =
    if state.hdr.syn then (session, fate_timer_trans) else (session, fate_preserve)

abbrev fin_rcv : L3Protocol → TcpState
fin_rcv ipv4 = v4_fin_rcv
fin_rcv ipv6 = v6_fin_rcv

tcp_established_state : SessionEntry → TcpInput → SessionEntry × SessionFate
tcp_established_state session state =
    if state.hdr.fin
    then (record session { state = fin_rcv state.l3 }, fate_preserve)
    else if state.hdr.rst
    then (record session { state = trans }, fate_timer_trans)
    else (session, fate_timer_est)

abbrev is_ipv6 : L3Protocol → Bool
is_ipv6 ipv6 = true
is_ipv6 ipv4 = false

abbrev is_ipv4 : L3Protocol → Bool
is_ipv4 ipv4 = true
is_ipv4 ipv6 = false

tcp_v4_fin_rcv_state : SessionEntry → TcpInput → SessionEntry × SessionFate
tcp_v4_fin_rcv_state session state =
    if is_ipv6 state.l3 && state.hdr.fin
    then (record session { state = v4_fin_v6_fin_rcv }, fate_timer_trans)
    else if state.hdr.rst && state.handle_rst_during_fin_rcv
    then (session, fate_timer_trans)
    else (session, fate_timer_est)

tcp_v6_fin_rcv_state : SessionEntry → TcpInput → SessionEntry × SessionFate
tcp_v6_fin_rcv_state session state =
    if is_ipv4 state.l3 && state.hdr.fin
    then (record session { state = v4_fin_v6_fin_rcv }, fate_timer_trans)
    else if state.hdr.rst && state.handle_rst_during_fin_rcv
    then (session, fate_timer_trans)
    else (session, fate_timer_est)

tcp_v4_fin_v6_fin_rcv_state : SessionEntry → SessionEntry × SessionFate
tcp_v4_fin_v6_fin_rcv_state session = (session, fate_preserve)

tcp_trans_state : SessionEntry → TcpInput → SessionEntry × SessionFate
tcp_trans_state session state =
    if state.hdr.rst
    then (session, fate_preserve)
    else (record session { state = established }, fate_timer_est)

-- The switch of `tcp_state_machine`.
dispatch : TcpState → SessionEntry → TcpInput → SessionEntry × SessionFate
unfolding tcp_v4_init_state tcp_v6_init_state tcp_established_state tcp_v4_fin_rcv_state
    tcp_v6_fin_rcv_state tcp_v4_fin_v6_fin_rcv_state tcp_trans_state
dispatch established session state = tcp_established_state session state
dispatch v4_init session state = tcp_v4_init_state session state.l3 state
dispatch v6_init session state = tcp_v6_init_state session state.l3 state
dispatch v4_fin_rcv session state = tcp_v4_fin_rcv_state session state
dispatch v6_fin_rcv session state = tcp_v6_fin_rcv_state session state
dispatch v4_fin_v6_fin_rcv session state = tcp_v4_fin_v6_fin_rcv_state session
dispatch trans session state = tcp_trans_state session state

unfoldable pub tcp_state_machine : TcpInput → SessionEntry → SessionEntry × SessionFate
unfolding dispatch
tcp_state_machine state session = dispatch session.state session state

-- `tcp_est_expire_cb`, by the state of the session that expires; `jiffies` is the time now.
est_expire : TcpState → ℕ → SessionEntry → SessionEntry × SessionFate
est_expire established jiffies session =
    (record session { state = trans; update_time = jiffies }, fate_probe)
est_expire _ jiffies session = (session, fate_rm)

unfoldable pub tcp_est_expire_cb : ℕ → SessionEntry → SessionEntry × SessionFate
unfolding est_expire
tcp_est_expire_cb jiffies session = est_expire session.state jiffies session

-- `just_die` (mod/common/db/bib/db.c).
unfoldable pub just_die : SessionEntry → SessionEntry × SessionFate
just_die session = (session, fate_rm)
