-- ===== src/TcpMachine/Edges.antt =====
-- The state diagram of RFC 6146, section 3.5.2.2, as a relation, and the code's machine against it.
use jool.Prelude.{◌≡◌, refl, ◌⊎◌, true, false, List, [], ◌∷◌, arith}
use jool.Types.{L3Protocol, ipv6, ipv4}
use jool.Session.{
  TcpState, established, v6_init, v4_init, v4_fin_rcv, v6_fin_rcv, v4_fin_v6_fin_rcv, trans,
  SessionEntry, SessionFate, fate_preserve,
}
use jool.TcpMachine.{TcpInput, tcp_state_machine}

-- An edge of the diagram, with the packet that takes it. Timeouts are left to the timers.
pub data Edge : TcpState → TcpInput → TcpState → Type 0 where
  v6_syn : {p : TcpInput} → p.l3 ≡ ipv6 → p.hdr.syn ≡ true → Edge v4_init p established
  v4_syn : {p : TcpInput} → p.l3 ≡ ipv4 → p.hdr.syn ≡ true → Edge v6_init p established
  v4_fin : {p : TcpInput} → p.l3 ≡ ipv4 → p.hdr.fin ≡ true → Edge established p v4_fin_rcv
  v6_fin : {p : TcpInput} → p.l3 ≡ ipv6 → p.hdr.fin ≡ true → Edge established p v6_fin_rcv
  rst : {p : TcpInput} → p.hdr.fin ≡ false → p.hdr.rst ≡ true → Edge established p trans
  then_v6_fin :
      {p : TcpInput} → p.l3 ≡ ipv6 → p.hdr.fin ≡ true → Edge v4_fin_rcv p v4_fin_v6_fin_rcv
  then_v4_fin :
      {p : TcpInput} → p.l3 ≡ ipv4 → p.hdr.fin ≡ true → Edge v6_fin_rcv p v4_fin_v6_fin_rcv
  alive : {p : TcpInput} → p.hdr.rst ≡ false → Edge trans p established

ruleset edges = (v6_syn, v4_syn, v4_fin, v6_fin, rst, then_v6_fin, then_v4_fin, alive)

-- The state that the machine leaves.
abbrev pub next : TcpInput → SessionEntry → TcpState
next p s = (tcp_state_machine p s).0.state

next-Edge_of :
    (t : TcpState) (p : TcpInput) (s : SessionEntry)
    → s.state ≡ t
    → (next p s ≡ t) ⊎ Edge t p (next p s)
unfolding tcp_state_machine
next-Edge_of established p s e = grind (arith, edges)
next-Edge_of _ p s e = grind (arith, edges)

-- Every packet either leaves the state alone or takes an edge of the diagram.
pub tcp_state_machine-Edge :
    (p : TcpInput) (s : SessionEntry) → (next p s ≡ s.state) ⊎ Edge s.state p (next p s)
tcp_state_machine-Edge p s = next-Edge_of s.state p s refl

Edge-next_of :
    {t u : TcpState} (p : TcpInput) (s : SessionEntry) → Edge t p u → s.state ≡ t → next p s ≡ u
unfolding tcp_state_machine
Edge-next_of p s (v6_syn a b) e = ground arith
Edge-next_of p s (v4_syn a b) e = ground arith
Edge-next_of p s (v4_fin a b) e = ground arith
Edge-next_of p s (v6_fin a b) e = ground arith
Edge-next_of p s (rst a b) e = ground arith
Edge-next_of p s (then_v6_fin a b) e = ground arith
Edge-next_of p s (then_v4_fin a b) e = ground arith
Edge-next_of p s (alive a) e = ground arith

-- Every edge of the diagram is taken by its packets.
pub Edge-tcp_state_machine :
    (u : TcpState) (p : TcpInput) (s : SessionEntry) → Edge s.state p u → next p s ≡ u
Edge-tcp_state_machine u p s h = Edge-next_of p s h refl

-- The machine edits the state, and clears the mark of a stored packet; nothing else.
pub tcp_state_machine_frame :
    (p : TcpInput) (s : SessionEntry)
    → let t = (tcp_state_machine p s).0 in
      (t ≡ record s { state = t.state; has_stored = t.has_stored })
      × ((t.has_stored ≡ true) → (s.has_stored ≡ true))
unfolding tcp_state_machine
tcp_state_machine_frame p s = ground arith

-- The packets of a connection, one after the other, as the machine sees its session.
abbrev pub run : List TcpInput → SessionEntry → SessionEntry
run [] s = s
run (p ∷ ps) s = run ps (tcp_state_machine p s).0

-- What the database is told to do with the session, packet by packet.
abbrev pub fates : List TcpInput → SessionEntry → List SessionFate
fates [] s = []
fates (p ∷ ps) s = (tcp_state_machine p s).1 ∷ fates ps (tcp_state_machine p s).0

-- The session is left as it is, for each packet of a list.
abbrev pub preserved : List TcpInput → List SessionFate
preserved [] = []
preserved (p ∷ ps) = fate_preserve ∷ preserved ps

abbrev pub closing : SessionEntry → SessionEntry
closing s = record s { state = v4_fin_v6_fin_rcv }

-- The state behind the first FIN.
abbrev fin_state : L3Protocol → TcpState
fin_state ipv4 = v4_fin_rcv
fin_state ipv6 = v6_fin_rcv
