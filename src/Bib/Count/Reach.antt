-- ===== src/Bib/Count/Reach.antt =====
-- Every table that the operations of mod/common/db/bib/db.c on packets, sessions and timers can
-- reach has right counters. `__bib_add_static` is not among them: see Static.
use jool.Prelude.{Bool}
use jool.Prelude.{ℕ, ◌≢◌, refl, arith}
use jool.Types.{L4Protocol, Ipv4Range}
use jool.Session.{SessionEntry}
use jool.Pool4.MaskDomain.{MaskDomain}
use jool.Bib.Table.{BibKey, BibTable, Env, init_table}
use jool.Bib.Fate.{FateCb}
use jool.Bib.Find.{NewConn}
use jool.Bib.Add.{NewConn4, undefined, bib_add6, bib_add4, bib_add_session}
use jool.Bib.Tcp.{undefined_tcp, bib_add_tcp6, bib_add_tcp4}
use jool.Bib.Static.{bib_rm, bib_rm_range, flush_table}
use jool.Bib.Clean.{clean_table}
use jool.Bib.Count.{IsCounted, stored-nil}
use jool.Bib.Count.Add.{bib_add6-IsCounted, bib_add4-IsCounted}
use jool.Bib.Count.Tcp.{bib_add_tcp6-IsCounted, bib_add_tcp4-IsCounted, bib_add_session-IsCounted}
use jool.Bib.Count.Remove.{
  bib_rm-IsCounted, bib_rm_range-IsCounted, flush_table-IsCounted, clean_table-IsCounted,
}

-- One operation on a table, which it holds the lock of. An operation that uses freed memory, or a
-- callback whose session is gone, is no step: no table is reached by it.
pub data Step : BibTable → BibTable → Type 0 where
  step_add6 :
      (env : Env) (t : BibTable) (masks : MaskDomain) (new : NewConn)
      → (bib_add6 env t masks new).result ≢ undefined
      → Step t (bib_add6 env t masks new).table
  step_add4 :
      (env : Env) (t : BibTable) (new : NewConn4)
      → (bib_add4 env t new).result ≢ undefined
      → Step t (bib_add4 env t new).table
  step_add_tcp6 :
      (env : Env) (cb : FateCb) (t : BibTable) (masks : MaskDomain) (syn : Bool) (new : NewConn)
      → (bib_add_tcp6 env cb t masks syn new).result ≢ undefined_tcp
      → Step t (bib_add_tcp6 env cb t masks syn new).table
  step_add_tcp4 :
      (env : Env) (cb : FateCb) (t : BibTable) (syn : Bool) (new : NewConn4) (skb : ℕ)
      → (bib_add_tcp4 env cb t syn new skb).result ≢ undefined_tcp
      → Step t (bib_add_tcp4 env cb t syn new skb).table
  step_add_session :
      (env : Env) (t : BibTable) (session : SessionEntry) (cb : FateCb)
      → (bib_add_session env t session cb).result ≢ undefined
      → Step t (bib_add_session env t session cb).table
  step_rm : (t : BibTable) (key : BibKey) → Step t (bib_rm t key).table
  step_rm_range : (t : BibTable) (range : Ipv4Range) → Step t (bib_rm_range t range)
  step_flush : (t : BibTable) → Step t (flush_table t)
  step_clean : (env : Env) (t : BibTable) → Step t (clean_table env t)

-- The tables that any sequence of operations leads to, of any threads: they take turns.
pub data Reach (proto : L4Protocol) : BibTable → Type 0 where
  initial : Reach proto (init_table proto)
  after : (t u : BibTable) → Reach proto t → Step t u → Reach proto u

Step-IsCounted : (t u : BibTable) → Step t u → IsCounted t → IsCounted u
Step-IsCounted _ _ (step_add6 env t masks new d) h = bib_add6-IsCounted env t masks new h
Step-IsCounted _ _ (step_add4 env t new d) h = bib_add4-IsCounted env t new h
Step-IsCounted _ _ (step_add_tcp6 env cb t masks syn new d) h =
    bib_add_tcp6-IsCounted env cb t masks syn new h
Step-IsCounted _ _ (step_add_tcp4 env cb t syn new skb d) h =
    bib_add_tcp4-IsCounted env cb t syn new skb h
Step-IsCounted _ _ (step_add_session env t session cb d) h =
    bib_add_session-IsCounted env t session cb h
Step-IsCounted _ _ (step_rm t key) h = bib_rm-IsCounted t key h
Step-IsCounted _ _ (step_rm_range t range) h = bib_rm_range-IsCounted t range h
Step-IsCounted _ _ (step_flush t) h = flush_table-IsCounted t h
Step-IsCounted _ _ (step_clean env t) h = clean_table-IsCounted env t h

init-IsCounted : (proto : L4Protocol) → IsCounted (init_table proto)
init-IsCounted proto = record { pkts = omega (arith, stored-nil); bibs = refl; sessions = refl }

-- In every table that is reached from an empty one by any sequence of additions for packets and of
-- joold sessions, removals, flushes and expirations, none of which uses freed memory, `pkt_count` is the number of packets that are
-- stored in sessions and in the queue, and the gauges are the numbers of entries and of sessions.
pub Reach-IsCounted : (proto : L4Protocol) (t : BibTable) → Reach proto t → IsCounted t
Reach-IsCounted proto _ initial = init-IsCounted proto
Reach-IsCounted proto _ (after t u r s) = Step-IsCounted t u s (Reach-IsCounted proto t r)
