-- ===== src/Bib/Add.antt =====
-- The additions of mod/common/db/bib/db.c: `bib_add6`, `bib_add4`, `bib_add_session`.
use jool.Prelude.{
  ℕ, ◌+◌, false, not, ◌&&◌, if◌then◌else◌, [], ◌∷◌, ◌++◌, Option, none, some, Cursor,
}
use jool.Types.{Ipv4TransportAddr, Ipv6TransportAddr, Errno, enomem, esrch, eperm}
use jool.Session.{TcpState, established, SessionTimerType, timer_est, SessionEntry}
use jool.Pool4.MaskDomain.{MaskDomain}
use jool.Bib.Table.{
  BibKey, TabledBib, TabledSession, BibTable, Env, Entries, no_entries, session_entries, tstose,
}
use jool.Bib.Fate.{FateCb, decide_fate, handle_fate_timer, queue_unsorted_session}
use jool.Bib.Lookup.{find_bib4, find_session, find_session_allow, insert_bib}
use jool.Bib.Find.{NewConn, Found, old_session, old_bib, no_bib, failed, fault, find_bib_session6}

-- What an addition returns. `undefined` is the use of freed memory that follows a `fault`.
pub data AddResult : Type 0 where
  added : Entries → AddResult
  not_added : Errno → AddResult
  undefined : AddResult

pub record Added : Type 0 where
  pub table : BibTable
  pub masks : Option MaskDomain
  pub result : AddResult

-- `create_bib_session6` and `create_session4`, with `attach_timer`: the session of a new
-- connection.
abbrev pub new_session :
    Env
    → BibKey
    → Ipv6TransportAddr
    → Ipv4TransportAddr
    → TcpState
    → SessionTimerType
    → Option ℕ
    → TabledSession
new_session env key dst6 dst4 state timer stored = record {
  bib = key;
  dst6 = dst6;
  dst4 = dst4;
  state = state;
  update_time = env.jiffies;
  expirer = timer;
  stored = stored;
}

-- `commit_session_add` and `list_add_tail`.
unfoldable pub commit_session_add : BibTable → TabledSession → BibTable
commit_session_add table session = record table {
  sessions = table.sessions ++ (session ∷ []);
  jstat_sessions = table.jstat_sessions + 1;
}

unfoldable pub commit_bib_add : BibTable → BibKey → BibTable
unfolding insert_bib
commit_bib_add table key = record table {
  bibs = insert_bib (record { key = key; is_static = false }) table.bibs;
  jstat_bib_entries = table.jstat_bib_entries + 1;
}

-- `handle_fate_timer(old.session, &table->est_timer); tstobs(...)`.
unfoldable pub refresh : Env → BibTable → Cursor TabledSession → Option MaskDomain → Added
unfolding handle_fate_timer tstose
refresh env table c masks = record {
  table = handle_fate_timer env table c timer_est;
  masks = masks;
  result = added (
      session_entries (
        tstose env table.proto (record c.here { update_time = env.jiffies; expirer = timer_est })));
}

unfoldable pub add_new : Env → BibTable → TabledSession → Option MaskDomain → Added
unfolding commit_session_add tstose
add_new env table session masks = record {
  table = commit_session_add table session;
  masks = masks;
  result = added (session_entries (tstose env table.proto session));
}

unfoldable pub finish_add6 : Env → NewConn → BibTable → Option MaskDomain → Found → Added
unfolding refresh add_new commit_bib_add
finish_add6 env new table masks (failed e) = record {
  table = table;
  masks = masks;
  result = not_added e;
}
finish_add6 env new table masks fault = record { table = table; masks = masks; result = undefined }
finish_add6 env new table masks (old_session key c) = refresh env table c masks
finish_add6 env new table masks (old_bib key dst4) =
    add_new env table (new_session env key new.dst6 dst4 established timer_est none) masks
finish_add6 env new table masks (no_bib src4 dst4) =
    let key : BibKey = record { src6 = new.src6; src4 = src4 } in
    add_new env (commit_bib_add table key)
      (new_session env key new.dst6 dst4 established timer_est none) masks

-- `masks` is never NULL here, so no `src4` is given.
unfoldable pub bib_add6 : Env → BibTable → MaskDomain → NewConn → Added
unfolding find_bib_session6 finish_add6
bib_add6 env table masks new =
    if env.alloc_entry
    then (let s = find_bib_session6 env table (some masks) new new.dst4 in
        finish_add6 env new s.table s.masks s.result)
    else record { table = table; masks = some masks; result = not_added enomem }

-- An IPv4 packet: `tuple4->dst.addr4` is `src4`, and `tuple4->src.addr4` is `dst4`.
pub record NewConn4 : Type 0 where
  pub src4 : Ipv4TransportAddr
  pub dst4 : Ipv4TransportAddr
  pub dst6 : Ipv6TransportAddr

-- `find_bib_session4`.
pub data Found4 : Type 0 where
  session4 : BibKey → Cursor TabledSession → Found4
  bib4 : BibKey → Found4
  nothing4 : Found4

unfoldable pub found_session4 : BibKey → Option (Cursor TabledSession) → Found4
found_session4 key none = bib4 key
found_session4 key (some s) = session4 key s

unfoldable pub found_bib4 : BibTable → NewConn4 → Option (Cursor TabledBib) → Found4
unfolding found_session4 find_session
found_bib4 table new none = nothing4
found_bib4 table new (some c) = found_session4 c.here.key (find_session table c.here.key new.dst4)

unfoldable pub find_bib_session4 : BibTable → NewConn4 → Found4
unfolding found_bib4 find_bib4
find_bib_session4 table new = found_bib4 table new (find_bib4 table new.src4)

unfoldable pub finish_add4 : Env → BibTable → NewConn4 → Found4 → Added
unfolding refresh add_new find_session_allow
finish_add4 env table new (session4 key c) = refresh env table c none
finish_add4 env table new nothing4 = record {
  table = table;
  masks = none;
  result = not_added esrch;
}
finish_add4 env table new (bib4 key) =
    if env.drop_by_addr && not (find_session_allow table key new.dst4)
    then record { table = table; masks = none; result = not_added eperm }
    else add_new env table (new_session env key new.dst6 new.dst4 established timer_est none) none

unfoldable pub bib_add4 : Env → BibTable → NewConn4 → Added
unfolding finish_add4 find_bib_session4
bib_add4 env table new =
    if env.alloc_entry
    then finish_add4 env table new (find_bib_session4 table new)
    else record { table = table; masks = none; result = not_added enomem }

-- `commit_add`: a session from joold joins its list by its own `update_time`.
abbrev pub joold_session : SessionEntry → BibKey → Ipv4TransportAddr → TabledSession
joold_session session key dst4 = record {
  bib = key;
  dst6 = session.dst6;
  dst4 = dst4;
  state = session.state;
  update_time = session.update_time;
  expirer = session.timer_type;
  stored = none;
}

unfoldable pub commit_add : BibTable → TabledSession → BibTable
unfolding queue_unsorted_session
commit_add table session = record table {
  sessions = queue_unsorted_session table.sessions session session.expirer;
  jstat_sessions = table.jstat_sessions + 1;
}

unfoldable pub finish_add_session :
    Env → SessionEntry → FateCb → BibTable → Option MaskDomain → Found → Added
unfolding decide_fate commit_add commit_bib_add
finish_add_session env session cb table masks (failed e) = record {
  table = table;
  masks = masks;
  result = not_added e;
}
finish_add_session env session cb table masks fault = record {
  table = table;
  masks = masks;
  result = undefined;
}
finish_add_session env session cb table masks (old_session key c) = record {
  table = (decide_fate env cb table c none).table;
  masks = masks;
  result = added no_entries;
}
finish_add_session env session cb table masks (old_bib key dst4) = record {
  table = commit_add table (joold_session session key dst4);
  masks = masks;
  result = added no_entries;
}
finish_add_session env session cb table masks (no_bib src4 dst4) =
    let key : BibKey = record { src6 = session.src6; src4 = src4 } in
    record {
      table = commit_add (commit_bib_add table key) (joold_session session key dst4);
      masks = masks;
      result = added no_entries;
    }

unfoldable pub bib_add_session : Env → BibTable → SessionEntry → FateCb → Added
unfolding find_bib_session6 finish_add_session
bib_add_session env table session cb =
    if env.alloc_entry
    then (let s =
          find_bib_session6 env table none
            (record { src6 = session.src6; dst6 = session.dst6; dst4 = session.dst4 })
            session.src4 in
        finish_add_session env session cb s.table s.masks s.result)
    else record { table = table; masks = none; result = not_added enomem }
