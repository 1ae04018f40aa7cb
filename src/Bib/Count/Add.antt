-- ===== src/Bib/Count/Add.antt =====
-- The additions of mod/common/db/bib/db.c keep the counters right.
use jool.Prelude.{
  ℕ, ◌+◌, ◌≡◌, refl, ap, false, not, ◌&&◌, Option, none, some, Cursor, whole, Bool-cases, inl, inr,
  arith,
}
use jool.Session.{timer_est}
use jool.Pool4.MaskDomain.{MaskDomain}
use jool.Bib.Table.{BibKey, TabledBib, TabledSession, BibTable, Env}
use jool.Bib.Lookup.{find_session_allow}
use jool.Bib.Find.{NewConn, Found, old_session, old_bib, no_bib, failed, fault}
use jool.Bib.Add.{
  NewConn4, Found4, session4, bib4, nothing4, commit_session_add, commit_bib_add, refresh, add_new,
  finish_add6, bib_add6, found_session4, found_bib4, find_bib_session4, finish_add4, bib_add4,
}
use jool.Bib.Count.{IsCounted, has_pkt, stored-snoc, length-snoc}
use jool.Bib.Count.Fate.{IsCounted-whole, timed-IsCounted}
use jool.Bib.Count.Search.{
  Shows, find_bib_session6-IsSearched, length-insert_bib, find_session-whole,
}

-- One more session: its packet, if any, must be counted beforehand.
pub commit_session_add-IsCounted :
    (t : BibTable) (s : TabledSession) (k : ℕ)
    → IsCounted (record t { pkt_count = k })
    → t.pkt_count ≡ k + has_pkt s.stored
    → IsCounted (commit_session_add t s)
unfolding commit_session_add
commit_session_add-IsCounted t s k h e = record {
  pkts = omega (arith, h.pkts, stored-snoc t.sessions s);
  bibs = h.bibs;
  sessions = omega (arith, h.sessions, length-snoc t.sessions s);
}

pub commit_bib_add-IsCounted :
    (t : BibTable) (key : BibKey) → IsCounted t → IsCounted (commit_bib_add t key)
unfolding commit_bib_add
commit_bib_add-IsCounted t key h = record {
  pkts = h.pkts;
  bibs = omega (arith, h.bibs, length-insert_bib (record { key = key; is_static = false }) t.bibs);
  sessions = h.sessions;
}

refresh-IsCounted :
    (env : Env) (t : BibTable) (c : Cursor TabledSession) (masks : Option MaskDomain)
    → t.sessions ≡ whole c
    → IsCounted t
    → IsCounted (refresh env t c masks).table
unfolding refresh
refresh-IsCounted env t c masks e h = timed-IsCounted env t c timer_est (IsCounted-whole t c e h)

-- A session with no packet.
add_new-IsCounted :
    (env : Env) (t : BibTable) (s : TabledSession) (masks : Option MaskDomain)
    → s.stored ≡ none
    → IsCounted t
    → IsCounted (add_new env t s masks).table
unfolding add_new
add_new-IsCounted env t s masks e h =
    commit_session_add-IsCounted t s t.pkt_count h (omega (arith, ap has_pkt e))

finish_add6-IsCounted :
    (env : Env) (new : NewConn) (t : BibTable) (masks : Option MaskDomain) (f : Found)
    → IsCounted t
    → Shows t f
    → IsCounted (finish_add6 env new t masks f).table
unfolding finish_add6
finish_add6-IsCounted env new t masks (failed e) h q = h
finish_add6-IsCounted env new t masks fault h q = h
finish_add6-IsCounted env new t masks (old_session key c) h q = refresh-IsCounted env t c masks q h
finish_add6-IsCounted env new t masks (old_bib key dst4) h q =
    add_new-IsCounted env t _ masks refl h
finish_add6-IsCounted env new t masks (no_bib src4 dst4) h q =
    let key : BibKey = record { src6 = new.src6; src4 = src4 } in
    add_new-IsCounted env (commit_bib_add t key) _ masks refl (commit_bib_add-IsCounted t key h)

pub bib_add6-IsCounted :
    (env : Env) (t : BibTable) (masks : MaskDomain) (new : NewConn)
    → IsCounted t
    → IsCounted (bib_add6 env t masks new).table
unfolding bib_add6
bib_add6-IsCounted env t masks new h = elim (Bool-cases env.alloc_entry) [
  | inl e ↦
      let s = find_bib_session6-IsSearched env t (some masks) new new.dst4 h in
      rw e (finish_add6-IsCounted env new _ _ _ s.counted s.shows)
  | inr e ↦ rw e h
]

-- What a search for an IPv4 packet shows stands in the table.
abbrev pub Shows4 : BibTable → Found4 → Type 0
Shows4 t (session4 key c) = t.sessions ≡ whole c
Shows4 t _ = Unit {0}

found_session4-Shows4 :
    (t : BibTable) (key : BibKey) (o : Option (Cursor TabledSession))
    → ((c : Cursor TabledSession) → o ≡ some c → t.sessions ≡ whole c)
    → Shows4 t (found_session4 key o)
unfolding found_session4
found_session4-Shows4 t key none q = tt
found_session4-Shows4 t key (some c) q = q c refl

found_bib4-Shows4 :
    (t : BibTable) (new : NewConn4) (o : Option (Cursor TabledBib)) → Shows4 t (found_bib4 t new o)
unfolding found_bib4
found_bib4-Shows4 t new none = tt
found_bib4-Shows4 t new (some c) =
    found_session4-Shows4 t c.here.key _ (find_session-whole t c.here.key new.dst4)

pub find_bib_session4-Shows4 : (t : BibTable) (new : NewConn4) → Shows4 t (find_bib_session4 t new)
unfolding find_bib_session4
find_bib_session4-Shows4 t new = found_bib4-Shows4 t new _

finish_add4-IsCounted :
    (env : Env) (t : BibTable) (new : NewConn4) (f : Found4)
    → IsCounted t
    → Shows4 t f
    → IsCounted (finish_add4 env t new f).table
unfolding finish_add4
finish_add4-IsCounted env t new (session4 key c) h q = refresh-IsCounted env t c none q h
finish_add4-IsCounted env t new nothing4 h q = h
finish_add4-IsCounted env t new (bib4 key) h q =
    elim (Bool-cases (env.drop_by_addr && not (find_session_allow t key new.dst4))) [
      | inl e ↦ rw e h
      | inr e ↦ rw e (add_new-IsCounted env t _ none refl h)
    ]

pub bib_add4-IsCounted :
    (env : Env) (t : BibTable) (new : NewConn4) → IsCounted t → IsCounted (bib_add4 env t new).table
unfolding bib_add4
bib_add4-IsCounted env t new h = elim (Bool-cases env.alloc_entry) [
  | inl e ↦ rw e (finish_add4-IsCounted env t new _ h (find_bib_session4-Shows4 t new))
  | inr e ↦ rw e h
]
