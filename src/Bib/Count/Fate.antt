-- ===== src/Bib/Count/Fate.antt =====
-- `decide_fate` keeps the counters right, whatever the callback answers.
use jool.Prelude.{
  suc, ◌+◌, ◌-◌, ◌≡◌, refl, ap, Bool, true, false, List, [], ◌∷◌, Option, none, some, Cursor, whole,
  without, find_first, length, arith,
}
use jool.Session.{
  SessionTimerType, SessionEntry, SessionFate, fate_timer_est, fate_timer_trans, fate_rm,
  fate_preserve, fate_probe, fate_drop, fate_timer_slow,
}
use jool.Bib.Table.{BibKey, TabledBib, TabledSession, BibTable, Env, tstose}
use jool.Bib.Fate.{
  Probes, FateCb, kill_stored_pkt, handle_probe, probe_if_stored, drop_empty_bib, drop_found,
  has_key, rm, timed, handle_fate_timer, queue_unsorted_session, insert_behind, is_older, put_back,
  carry_out, kill_unless, decide_fate,
}
use jool.Bib.Count.{
  IsCounted, has_pkt, stored, stored-whole, stored-snoc, stored-cons, stored-nil, length-whole,
  length-snoc, find_first-Finds,
}

-- The counters are right once the session at the cursor is put back.
abbrev pub IsPending : BibTable → Cursor TabledSession → Type 0
IsPending t c = IsCounted (put_back t c)

abbrev edit : Cursor TabledSession → TabledSession → Cursor TabledSession
edit c s = record c { here = s }

pub IsCounted-whole :
    (t : BibTable) (c : Cursor TabledSession) → t.sessions ≡ whole c → IsCounted t → IsPending t c
IsCounted-whole t c e h = record {
  pkts = omega (arith, h.pkts, ap stored e);
  bibs = h.bibs;
  sessions = omega (arith, h.sessions, ap length e);
}

-- An edit that leaves the stored packet alone.
IsPending-edit :
    (t : BibTable) (c : Cursor TabledSession) (s : TabledSession)
    → s.stored ≡ c.here.stored
    → IsPending t c
    → IsPending t (edit c s)
IsPending-edit t c s e h = record {
  pkts = omega (arith, h.pkts, stored-whole c, stored-whole (edit c s), ap has_pkt e);
  bibs = h.bibs;
  sessions = omega (arith, h.sessions, length-whole c, length-whole (edit c s));
}

-- A stored packet that is dropped is no longer counted.
kill-IsPending :
    (t : BibTable) (c : Cursor TabledSession)
    → IsPending t c
    → let e = kill_stored_pkt t c.here in IsPending e.table (edit c e.session)
unfolding kill_stored_pkt
kill-IsPending t c h = ground (
  arith,
  stored-whole c,
  length-whole c,
  length-whole (edit c (kill_stored_pkt t c.here).session),
  stored-whole (edit c (kill_stored_pkt t c.here).session),
)

kill_unless-IsPending :
    (b : Bool) (t : BibTable) (c : Cursor TabledSession)
    → IsPending t c
    → let e = kill_unless b t c.here in IsPending e.table (edit c e.session)
unfolding kill_unless
kill_unless-IsPending true t c h = h
kill_unless-IsPending false t c h = kill-IsPending t c h

handle_probe-IsPending :
    (env : Env) (t : BibTable) (c : Cursor TabledSession) (probes : Probes) (tmp : SessionEntry)
    → IsPending t c
    → let p = handle_probe env t probes c.here tmp in IsPending p.table (edit c p.session)
unfolding handle_probe
handle_probe-IsPending env t c probes tmp h = kill-IsPending t c h

-- The session moves to the end, under another timer.
pub timed-IsCounted :
    (env : Env) (t : BibTable) (c : Cursor TabledSession) (timer : SessionTimerType)
    → IsPending t c
    → IsCounted (handle_fate_timer env t c timer)
unfolding handle_fate_timer
timed-IsCounted env t c timer h = record {
  pkts = omega (arith, h.pkts, stored-whole c, stored-snoc (without c) (timed env c.here timer));
  bibs = h.bibs;
  sessions =
      omega (arith, h.sessions, length-whole c, length-snoc (without c) (timed env c.here timer));
}

pub stored-insert_behind :
    (p : TabledSession → Bool) (s : TabledSession) (xs : List TabledSession)
    → (stored (insert_behind p s xs) ≡ stored xs + has_pkt s.stored)
      × (length (insert_behind p s xs) ≡ suc (length xs))
unfolding insert_behind
stored-insert_behind p s [] = (omega (arith, stored-cons s [], stored-nil), refl)
stored-insert_behind p s (x ∷ xs) = ground (
  arith,
  stored-insert_behind p s xs,
  stored-cons x (insert_behind p s xs),
  stored-cons x xs,
  stored-cons x (s ∷ xs),
  stored-cons s xs,
  stored-cons s (x ∷ xs),
)

queue-IsCounted :
    (t : BibTable) (c : Cursor TabledSession) (timer : SessionTimerType)
    → IsPending t c
    → IsCounted (record t { sessions = queue_unsorted_session (without c) c.here timer })
unfolding queue_unsorted_session
queue-IsCounted t c timer h =
    let s = record (c.here) { expirer = timer } in
    let (pkts, len) = stored-insert_behind (is_older timer c.here.update_time) s (without c) in
    record {
      pkts = omega (arith, h.pkts, stored-whole c);
      bibs = h.bibs;
      sessions = omega (arith, h.sessions, length-whole c);
    }

drop_empty_bib-IsCounted :
    (t : BibTable) (key : BibKey) → IsCounted t → IsCounted (drop_empty_bib t key)
unfolding drop_empty_bib drop_found
drop_empty_bib-IsCounted t key h = of_found (find_first (has_key key) t.bibs) refl
  where
    of_found :
        (o : Option (Cursor TabledBib))
        → find_first (has_key key) t.bibs ≡ o
        → IsCounted (drop_found t key o)
    of_found none e = h
    of_found (some c) e =
        ground (arith, (find_first-Finds (has_key key) t.bibs c e).list, length-whole c)

-- Without its session, whose packet is a probe's now, the table is right.
probe_if_stored-IsCounted :
    (env : Env) (t : BibTable) (probes : Probes) (c : Cursor TabledSession) (tmp : SessionEntry)
    → IsPending t c
    → let p = (probe_if_stored env t probes c.here tmp).table in
      IsCounted (record p { sessions = without c; jstat_sessions = p.jstat_sessions - 1 })
unfolding probe_if_stored
probe_if_stored-IsCounted env t probes c tmp h = ground (arith, stored-whole c, length-whole c)

rm-IsCounted :
    (env : Env) (t : BibTable) (probes : Probes) (c : Cursor TabledSession) (tmp : SessionEntry)
    → IsPending t c
    → IsCounted (rm env t probes c tmp).0
unfolding rm
rm-IsCounted env t probes c tmp h =
    drop_empty_bib-IsCounted _ c.here.bib (probe_if_stored-IsCounted env t probes c tmp h)

carry_out-IsCounted :
    (fate : SessionFate) (env : Env) (t : BibTable) (c : Cursor TabledSession) (probes : Probes)
    (tmp : SessionEntry)
    → IsPending t c
    → IsCounted (carry_out fate env t c probes tmp).table
unfolding carry_out
carry_out-IsCounted fate_timer_est env t c probes tmp h = timed-IsCounted env t c _ h
carry_out-IsCounted fate_timer_trans env t c probes tmp h = timed-IsCounted env t c _ h
carry_out-IsCounted fate_rm env t c probes tmp h = rm-IsCounted env t probes c tmp h
carry_out-IsCounted fate_preserve env t c probes tmp h = h
carry_out-IsCounted fate_probe env t c probes tmp h =
    let p = handle_probe env t probes c.here tmp in
    timed-IsCounted env p.table (edit c p.session) _ (handle_probe-IsPending env t c probes tmp h)
carry_out-IsCounted fate_drop env t c probes tmp h = h
carry_out-IsCounted fate_timer_slow env t c probes tmp h = queue-IsCounted t c tmp.timer_type h

-- Whatever a callback answers, `decide_fate` keeps the counters right, where the cursor stands in
-- the sessions of the table.
pub decide_fate-IsCounted :
    (env : Env) (cb : FateCb) (t : BibTable) (c : Cursor TabledSession) (probes : Probes)
    → t.sessions ≡ whole c
    → IsCounted t
    → IsCounted (decide_fate env cb t c probes).table
unfolding decide_fate
decide_fate-IsCounted env cb t c probes e h =
    let r = cb (tstose env t.proto c.here) in
    let s : TabledSession = record (c.here) { state = r.0.state; update_time = r.0.update_time } in
    let k = kill_unless r.0.has_stored t s in
    carry_out-IsCounted r.1 env k.table (edit c k.session) probes r.0 (
      kill_unless-IsPending r.0.has_stored t (edit c s)
        (IsPending-edit t c s refl (IsCounted-whole t c e h)))
