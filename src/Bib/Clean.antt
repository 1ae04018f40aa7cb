-- ===== src/Bib/Clean.antt =====
-- Expiration in mod/common/db/bib/db.c: `__clean`, `clean_table`, `post_fate`.
use jool.Prelude.{
  ℕ, zero, suc, ◌+◌, ◌-◌, ◌*◌, Bool, ltb, if◌then◌else◌, List, [], ◌∷◌, ◌++◌, Option, none, some,
  Cursor, find_first, length, map,
}
use jool.Types.{L4Protocol, tcp}
use jool.Session.{SessionTimerType, timer_est, timer_trans, timer_syn4}
use jool.TcpMachine.{tcp_est_expire_cb, just_die}
use jool.PktQueue.{pktqueue_prepare_clean}
use jool.Bib.Table.{TabledSession, BibTable, Env, timer_equals, get_timeout, tcp_incoming_syn}
use jool.Bib.Fate.{ProbingSession, Probes, FateCb, decide_fate}

-- `decide_fate_cb` of an expirer, as `bib_alloc` and `init_table` set it.
unfoldable pub expire_cb : Env → L4Protocol → SessionTimerType → FateCb
unfolding tcp_est_expire_cb just_die
expire_cb env tcp timer_est = tcp_est_expire_cb env.jiffies
expire_cb env _ _ = just_die

pub record Cleaning : Type 0 where
  pub table : BibTable
  pub probes : Probes

unfoldable pub is_of : SessionTimerType → TabledSession → Bool
is_of timer s = timer_equals s.expirer timer

abbrev pub first_of : SessionTimerType → List TabledSession → Option (Cursor TabledSession)
first_of timer sessions = find_first (is_of timer) sessions

-- One round of `__clean`: none where the walk stops.
unfoldable pub clean_step :
    Env → SessionTimerType → Cleaning → Option (Cursor TabledSession) → Option Cleaning
unfolding get_timeout expire_cb decide_fate
clean_step env timer c none = none
clean_step env timer c (some s) =
    let d = decide_fate env (expire_cb env c.table.proto timer) c.table s c.probes in
    if ltb env.jiffies (s.here.update_time + get_timeout env c.table.proto timer)
    then none
    else some (record { table = d.table; probes = d.probes })

unfoldable pub go_on : Cleaning → (Cleaning → Cleaning) → Option Cleaning → Cleaning
go_on c rest none = c
go_on c rest (some next) = rest next

-- The walk of `__clean`. Every session that it passes leaves the expirer's list, so that the next
-- one is the first of the list. The fuel counts sessions.
unfoldable pub clean_loop : ℕ → Env → SessionTimerType → Cleaning → Cleaning
unfolding find_first is_of clean_step go_on
clean_loop zero env timer c = c
clean_loop (suc fuel) env timer c =
    go_on c (clean_loop fuel env timer) (clean_step env timer c (first_of timer c.table.sessions))

unfoldable pub clean_expirer : Env → SessionTimerType → Cleaning → Cleaning
unfolding clean_loop
clean_expirer env timer c = clean_loop (length c.table.sessions) env timer c

-- The packets of the ICMP errors among the probes.
error_pkts : List ProbingSession → List ℕ
error_pkts [] = []
error_pkts (p ∷ ps) = elim p.skb [ none ↦ error_pkts ps | some skb ↦ skb ∷ error_pkts ps ]

probe_list : Probes → List ProbingSession
probe_list none = []
probe_list (some probes) = probes

queue_timeout : Env → ℕ
queue_timeout env = env.msecs_to_jiffies (1000 * tcp_incoming_syn)

-- The end of `clean_table`: the packet queue, then `post_fate` and `pktqueue_clean`.
unfoldable pub finish_clean : Env → Cleaning → BibTable
unfolding error_pkts probe_list queue_timeout pktqueue_prepare_clean
finish_clean env c =
    let q = pktqueue_prepare_clean env.jiffies (queue_timeout env) c.table.pkt_queue [] in
    record c.table {
      pkt_queue = q.left;
      pkt_count = c.table.pkt_count - q.removed;
      icmp_errors =
          c.table.icmp_errors ++ (error_pkts (probe_list c.probes) ++ map (λ n. n.skb) q.probes);
    }

unfoldable pub clean_table : Env → BibTable → BibTable
unfolding clean_expirer finish_clean
clean_table env table = finish_clean env (
    clean_expirer env timer_syn4 (
      clean_expirer env timer_trans
        (clean_expirer env timer_est (record { table = table; probes = some [] }))))
