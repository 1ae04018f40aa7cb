-- ===== src/Bib/Count/Remove.antt =====
-- Removals and expirations keep the counters right; a static entry may not.
use jool.Prelude.{
  ℕ, zero, suc, ◌+◌, ◌≡◌, refl, List, [], ◌∷◌, Option, none, some, Cursor, whole, length, ltb,
  Bool-cases, inl, inr, if_cases, arith,
}
use jool.Types.{Ipv4Range, taddr4_equals}
use jool.Session.{SessionTimerType, timer_est, timer_trans, timer_syn4}
use jool.Address.{prefix4_contains}
use jool.Pool4.MaskDomain.{port_range_contains}
use jool.PktQueue.{PktqueueSession, pktqueue_prepare_clean}
use jool.Bib.Table.{BibKey, TabledBib, TabledSession, BibTable, Env, get_timeout}
use jool.Bib.Fate.{has_key, decide_fate}
use jool.Bib.Static.{
  rm_found, bib_rm, detach_at, detach_node, rm_range_loop, bib_rm_range, flush_loop, flush_table,
}
use jool.Bib.Clean.{
  expire_cb, Cleaning, is_of, clean_step, go_on, clean_loop, clean_expirer, finish_clean,
  clean_table,
}
use jool.Bib.Count.{IsCounted, find_first-Finds}
use jool.Bib.Count.Fate.{decide_fate-IsCounted}
use jool.Bib.Count.Search.{detach_bib-IsCounted, find_bib6-whole}

rm_found-IsCounted :
    (t : BibTable) (key : BibKey) (o : Option (Cursor TabledBib))
    → ((c : Cursor TabledBib) → o ≡ some c → t.bibs ≡ whole c)
    → IsCounted t
    → IsCounted (rm_found t key o).table
unfolding rm_found
rm_found-IsCounted t key none q h = h
rm_found-IsCounted t key (some c) q h = elim (Bool-cases (taddr4_equals key.src4 c.here.key.src4)) [
  | inl e ↦ rw e (detach_bib-IsCounted t c (q c refl) h)
  | inr e ↦ rw e h
]

pub bib_rm-IsCounted : (t : BibTable) (key : BibKey) → IsCounted t → IsCounted (bib_rm t key).table
unfolding bib_rm
bib_rm-IsCounted t key h = rm_found-IsCounted t key _ (find_bib6-whole t key.src6) h

detach_at-IsCounted :
    (t : BibTable) (o : Option (Cursor TabledBib))
    → ((c : Cursor TabledBib) → o ≡ some c → t.bibs ≡ whole c)
    → IsCounted t
    → IsCounted (detach_at t o)
unfolding detach_at
detach_at-IsCounted t none q h = h
detach_at-IsCounted t (some c) q h = detach_bib-IsCounted t c (q c refl) h

detach_node-IsCounted :
    (t : BibTable) (bib : TabledBib) → IsCounted t → IsCounted (detach_node t bib)
unfolding detach_node
detach_node-IsCounted t bib h =
    detach_at-IsCounted t _ (λ c e. (find_first-Finds (has_key bib.key) t.bibs c e).list) h

rm_range_loop-IsCounted :
    (range : Ipv4Range) (nodes : List TabledBib) (t : BibTable)
    → IsCounted t
    → IsCounted (rm_range_loop range nodes t)
unfolding rm_range_loop
rm_range_loop-IsCounted range [] t h = h
rm_range_loop-IsCounted range (bib ∷ nodes) t h =
    elim (Bool-cases (prefix4_contains range.prefix bib.key.src4.l3)) [
      | inl e ↦ elim (Bool-cases (port_range_contains range.ports bib.key.src4.l4)) [
        | inl p ↦
            rw (e, p)
              (rm_range_loop-IsCounted range nodes (detach_node t bib)
                (detach_node-IsCounted t bib h))
        | inr p ↦ rw (e, p) (rm_range_loop-IsCounted range nodes t h)
      ]
      | inr e ↦ rw e h
    ]

pub bib_rm_range-IsCounted :
    (t : BibTable) (range : Ipv4Range) → IsCounted t → IsCounted (bib_rm_range t range)
unfolding bib_rm_range
bib_rm_range-IsCounted t range h = rm_range_loop-IsCounted range _ t h

flush_loop-IsCounted :
    (nodes : List TabledBib) (t : BibTable) → IsCounted t → IsCounted (flush_loop nodes t)
unfolding flush_loop
flush_loop-IsCounted [] t h = h
flush_loop-IsCounted (bib ∷ nodes) t h =
    flush_loop-IsCounted nodes (detach_node t bib) (detach_node-IsCounted t bib h)

pub flush_table-IsCounted : (t : BibTable) → IsCounted t → IsCounted (flush_table t)
unfolding flush_table
flush_table-IsCounted t h = flush_loop-IsCounted t.bibs t h

abbrev IsCountedIf : Option Cleaning → Type 0
IsCountedIf none = Unit {0}
IsCountedIf (some c) = IsCounted c.table

clean_step-IsCounted :
    (env : Env) (timer : SessionTimerType) (c : Cleaning) (o : Option (Cursor TabledSession))
    → ((s : Cursor TabledSession) → o ≡ some s → c.table.sessions ≡ whole s)
    → IsCounted c.table
    → IsCountedIf (clean_step env timer c o)
unfolding clean_step
clean_step-IsCounted env timer c none q h = tt
clean_step-IsCounted env timer c (some s) q h =
    let d = decide_fate env (expire_cb env c.table.proto timer) c.table s c.probes in
    if_cases IsCountedIf
      (ltb env.jiffies (s.here.update_time + get_timeout env c.table.proto timer)) {x = none}
      {y = some (record { table = d.table; probes = d.probes })} (tt {0})
      (decide_fate-IsCounted env (expire_cb env c.table.proto timer) c.table s c.probes (q s refl)
        h)

go_on-IsCounted :
    (c : Cleaning) (rest : Cleaning → Cleaning) (o : Option Cleaning)
    → ((next : Cleaning) → IsCounted next.table → IsCounted (rest next).table)
    → IsCounted c.table
    → IsCountedIf o
    → IsCounted (go_on c rest o).table
unfolding go_on
go_on-IsCounted c rest none q h i = h
go_on-IsCounted c rest (some next) q h i = q next i

clean_loop-IsCounted :
    (fuel : ℕ) (env : Env) (timer : SessionTimerType) (c : Cleaning)
    → IsCounted c.table
    → IsCounted (clean_loop fuel env timer c).table
unfolding clean_loop
clean_loop-IsCounted zero env timer c h = h
clean_loop-IsCounted (suc fuel) env timer c h =
    go_on-IsCounted c (clean_loop fuel env timer) _ (clean_loop-IsCounted fuel env timer) h (
      clean_step-IsCounted env timer c _
        (λ s e. (find_first-Finds (is_of timer) c.table.sessions s e).list) h)

clean_expirer-IsCounted :
    (env : Env) (timer : SessionTimerType) (c : Cleaning)
    → IsCounted c.table
    → IsCounted (clean_expirer env timer c).table
unfolding clean_expirer
clean_expirer-IsCounted env timer c h = clean_loop-IsCounted _ env timer c h

-- What the walk over the queue takes out, and how many that are.
prepare_clean_removed :
    (now timeout : ℕ) (queue probes : List PktqueueSession)
    → let q = pktqueue_prepare_clean now timeout queue probes in
      length queue ≡ length q.left + q.removed
unfolding pktqueue_prepare_clean
prepare_clean_removed now timeout [] probes = refl
prepare_clean_removed now timeout (node ∷ queue) probes =
    ground (arith, prepare_clean_removed now timeout queue (node ∷ probes))

finish_clean-IsCounted :
    (env : Env) (c : Cleaning) → IsCounted c.table → IsCounted (finish_clean env c)
unfolding finish_clean
finish_clean-IsCounted env c h = record {
  pkts = omega (arith, h.pkts, prepare_clean_removed env.jiffies _ c.table.pkt_queue []);
  bibs = h.bibs;
  sessions = h.sessions;
}

pub clean_table-IsCounted : (env : Env) (t : BibTable) → IsCounted t → IsCounted (clean_table env t)
unfolding clean_table
clean_table-IsCounted env t h =
    let c0 : Cleaning = record { table = t; probes = some [] } in
    let c1 = clean_expirer env timer_est c0 in
    let c2 = clean_expirer env timer_trans c1 in
    finish_clean-IsCounted env (clean_expirer env timer_syn4 c2) (
      clean_expirer-IsCounted env timer_syn4 c2
        (clean_expirer-IsCounted env timer_trans c1 (clean_expirer-IsCounted env timer_est c0 h)))
