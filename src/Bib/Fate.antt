-- ===== src/Bib/Fate.antt =====
-- What becomes of a session (mod/common/db/bib/db.c): `decide_fate` and what it calls.
-- A cursor stands at the session; each function puts the sessions back into the table.
-- `pkt_count--` is written `- 1`, which stops at 0.
use jool.Prelude.{
  ℕ, ◌-◌, Bool, true, false, not, ◌&&◌, ltb, if◌then◌else◌, List, [], ◌∷◌, ◌++◌, Option, none, some,
  Cursor, whole, without, find_first, any,
}
use jool.Session.{
  SessionTimerType, timer_est, timer_trans, SessionEntry, SessionFate, fate_timer_est,
  fate_timer_trans, fate_rm, fate_preserve, fate_probe, fate_drop, fate_timer_slow,
}
use jool.Bib.Table.{
  BibKey, TabledBib, TabledSession, BibTable, Env, key_equals, belongs, timer_equals, is_some,
  tstose,
}

-- `struct probing_session`: a TCP probe, or an ICMP error where there is a packet.
pub record ProbingSession : Type 0 where
  pub session : SessionEntry
  pub skb : Option ℕ

-- The list of probes that the caller supports; `none` is NULL.
abbrev pub Probes : Type 0
Probes = Option (List ProbingSession)

-- A table, and the session that an operation has edited and not yet put back.
pub record Edited : Type 0 where
  pub table : BibTable
  pub session : TabledSession

unfoldable pub kill_stored_of : Option ℕ → BibTable → TabledSession → Edited
kill_stored_of none table session = record { table = table; session = session }
kill_stored_of (some skb) table session = record {
  table = record table { pkt_count = table.pkt_count - 1 };
  session = record session { stored = none };
}

unfoldable pub kill_stored_pkt : BibTable → TabledSession → Edited
unfolding kill_stored_of
kill_stored_pkt table session = kill_stored_of session.stored table session

-- The probe that `handle_probe` prepares, and the same edit of the session in all cases: a stored
-- packet leaves it.
prepare_probe : Bool → Probes → SessionEntry → Option ℕ → Probes
prepare_probe memory none tmp skb = none
prepare_probe memory (some probes) tmp skb =
    if memory then some (record { session = tmp; skb = skb } ∷ probes) else some probes

pub record Probed : Type 0 where
  pub table : BibTable
  pub session : TabledSession
  pub probes : Probes

unfoldable pub handle_probe : Env → BibTable → Probes → TabledSession → SessionEntry → Probed
unfolding prepare_probe kill_stored_pkt
handle_probe env table probes session tmp =
    let e = kill_stored_pkt table session in
    record {
      table = e.table;
      session = e.session;
      probes = prepare_probe env.alloc_probe probes tmp session.stored;
    }

-- The second half of `rm`: a dynamic BIB entry with no session left goes too.
unfoldable pub drop_found : BibTable → BibKey → Option (Cursor TabledBib) → BibTable
unfolding any
drop_found table key none = table
drop_found table key (some c) =
    if not c.here.is_static && not (any (belongs key) table.sessions)
    then record table { bibs = without c; jstat_bib_entries = table.jstat_bib_entries - 1 }
    else table

abbrev pub has_key : BibKey → TabledBib → Bool
has_key key bib = key_equals bib.key key

unfoldable pub drop_empty_bib : BibTable → BibKey → BibTable
unfolding drop_found find_first
drop_empty_bib table key = drop_found table key (find_first (has_key key) table.bibs)

-- `if (session->stored) handle_probe(...)`.
unfoldable pub probe_if_stored : Env → BibTable → Probes → TabledSession → SessionEntry → Probed
unfolding handle_probe
probe_if_stored env table probes session tmp =
    if is_some session.stored
    then handle_probe env table probes session tmp
    else record { table = table; session = session; probes = probes }

unfoldable pub rm :
    Env → BibTable → Probes → Cursor TabledSession → SessionEntry → BibTable × Probes
unfolding probe_if_stored drop_empty_bib
rm env table probes c tmp =
    let p = probe_if_stored env table probes c.here tmp in
    (
      drop_empty_bib
          (record p.table { sessions = without c; jstat_sessions = p.table.jstat_sessions - 1 })
          c.here.bib,
      p.probes,
    )

-- `list_del` and `list_add_tail`.
abbrev pub timed : Env → TabledSession → SessionTimerType → TabledSession
timed env session timer = record session { update_time = env.jiffies; expirer = timer }

unfoldable pub handle_fate_timer :
    Env → BibTable → Cursor TabledSession → SessionTimerType → BibTable
handle_fate_timer env table c timer = record table {
  sessions = without c ++ (timed env c.here timer ∷ []);
}

-- The walk of `queue_unsorted_session` stops at the last session of the list that is older.
abbrev pub is_older : SessionTimerType → ℕ → TabledSession → Bool
is_older timer time old = timer_equals old.expirer timer && ltb old.update_time time

unfoldable pub insert_behind :
    (TabledSession → Bool) → TabledSession → List TabledSession → List TabledSession
unfolding any
insert_behind p s [] = s ∷ []
insert_behind p s (x ∷ xs) = elim (any p xs) [
  | true ↦ x ∷ insert_behind p s xs
  | false ↦ if p x then x ∷ (s ∷ xs) else s ∷ (x ∷ xs)
]

unfoldable pub queue_unsorted_session :
    List TabledSession → TabledSession → SessionTimerType → List TabledSession
unfolding insert_behind
queue_unsorted_session sessions session timer =
    insert_behind (is_older timer session.update_time) (record session { expirer = timer }) sessions

-- The switch of `decide_fate`. `session` is the session afterwards, and nothing where it has been
-- freed; `translate` is the answer, whether the packet should be translated.
pub record Decided : Type 0 where
  pub table : BibTable
  pub session : Option TabledSession
  pub probes : Probes
  pub translate : Bool

abbrev pub put_back : BibTable → Cursor TabledSession → BibTable
put_back table c = record table { sessions = whole c }

to_timer : Env → BibTable → Cursor TabledSession → Probes → SessionTimerType → Decided
unfolding handle_fate_timer
to_timer env table c probes timer = record {
  table = handle_fate_timer env table c timer;
  session = some (timed env c.here timer);
  probes = probes;
  translate = true;
}

unfoldable pub carry_out :
    SessionFate → Env → BibTable → Cursor TabledSession → Probes → SessionEntry → Decided
unfolding handle_probe rm to_timer queue_unsorted_session
carry_out fate_timer_est env table c probes tmp = to_timer env table c probes timer_est
carry_out fate_probe env table c probes tmp =
    let p = handle_probe env table probes c.here tmp in
    to_timer env p.table (record c { here = p.session }) p.probes timer_trans
carry_out fate_timer_trans env table c probes tmp = to_timer env table c probes timer_trans
carry_out fate_rm env table c probes tmp =
    let r = rm env table probes c tmp in
    record { table = r.0; session = none; probes = r.1; translate = true }
carry_out fate_preserve env table c probes tmp = record {
  table = put_back table c;
  session = some c.here;
  probes = probes;
  translate = true;
}
carry_out fate_drop env table c probes tmp = record {
  table = put_back table c;
  session = some c.here;
  probes = probes;
  translate = false;
}
carry_out fate_timer_slow env table c probes tmp = record {
  table = record table { sessions = queue_unsorted_session (without c) c.here tmp.timer_type };
  session = some (record c.here { expirer = tmp.timer_type });
  probes = probes;
  translate = true;
}

-- `if (!tmp.has_stored) kill_stored_pkt(...)`.
unfoldable pub kill_unless : Bool → BibTable → TabledSession → Edited
unfolding kill_stored_pkt
kill_unless true table session = record { table = table; session = session }
kill_unless false table session = kill_stored_pkt table session

-- A callback that decides the fate of a session (`struct collision_cb`, not NULL).
abbrev pub FateCb : Type 0
FateCb = SessionEntry → SessionEntry × SessionFate

unfoldable pub decide_fate : Env → FateCb → BibTable → Cursor TabledSession → Probes → Decided
unfolding tstose kill_unless carry_out
decide_fate env cb table c probes =
    let r = cb (tstose env table.proto c.here) in
    let tmp = r.0 in
    let e =
      kill_unless tmp.has_stored table
        (record c.here { state = tmp.state; update_time = tmp.update_time }) in
    carry_out r.1 env e.table (record c { here = e.session }) probes tmp
