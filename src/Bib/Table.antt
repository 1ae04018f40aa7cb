-- ===== src/Bib/Table.antt =====
-- The state of mod/common/db/bib/db.c, and its conversions to session entries.
--
-- One `struct bib_table` is a record. `bibs` is the in-order sequence of `tree4`, sorted by `src4`;
-- `tree6` holds the same entries. `sessions` holds the sessions of all BIB entries and of all
-- expirers: the tree of a BIB entry is the sessions that name it, and the list of an expirer is the
-- sessions that name it, in the order of `sessions` (to append to an expirer's list is to append to
-- `sessions`). A pointer to an entry or a session is a cursor, or the key that identifies it.
-- Packets are numbers; `icmp_errors` records the packets that were answered by an ICMP error.
use jool.Prelude.{ℕ, ◌*◌, Bool, true, false, ◌&&◌, List, [], Option, none, some}
use jool.Types.{
  Ipv4TransportAddr, Ipv6TransportAddr, L4Protocol, tcp, udp, icmp, taddr4_equals, taddr6_equals,
}
use jool.Session.{TcpState, SessionTimerType, timer_est, timer_trans, timer_syn4, SessionEntry}
use jool.PktQueue.{PktqueueSession}

-- What identifies a `struct tabled_bib`, and never changes in it.
pub record BibKey : Type 0 where
  pub src6 : Ipv6TransportAddr
  pub src4 : Ipv4TransportAddr

pub record TabledBib : Type 0 where
  pub key : BibKey
  pub is_static : Bool

pub record TabledSession : Type 0 where
  pub bib : BibKey
  pub dst6 : Ipv6TransportAddr
  pub dst4 : Ipv4TransportAddr
  pub state : TcpState
  pub update_time : ℕ
  pub expirer : SessionTimerType
  pub stored : Option ℕ

-- `proto` is the protocol of every entry of the table. The two gauges are this table's share of
-- JSTAT_BIB_ENTRIES and JSTAT_SESSIONS.
pub record BibTable : Type 0 where
  pub proto : L4Protocol
  pub bibs : List TabledBib
  pub sessions : List TabledSession
  pub pkt_count : ℕ
  pub pkt_queue : List PktqueueSession
  pub jstat_bib_entries : ℕ
  pub jstat_sessions : ℕ
  pub icmp_errors : List ℕ

-- What the operations read of the machine and of `globals.nat64.bib`: the time, the kernel's
-- conversion of milliseconds, whether each kind of allocation succeeds, and the options. `alloc_so` is
-- the node of a stored packet; the other two are those of `alloc_bib_session` in a simultaneous open.
pub record Env : Type 0 where
  pub jiffies : ℕ
  pub msecs_to_jiffies : ℕ → ℕ
  pub alloc_entry : Bool
  pub alloc_so : Bool
  pub alloc_so_bib : Bool
  pub alloc_so_session : Bool
  pub alloc_probe : Bool
  pub drop_by_addr : Bool
  pub drop_external_tcp : Bool
  pub max_stored_pkts : ℕ
  pub ttl_tcp_est : ℕ
  pub ttl_tcp_trans : ℕ
  pub ttl_udp : ℕ
  pub ttl_icmp : ℕ

abbrev pub tcp_incoming_syn : ℕ
tcp_incoming_syn = 6

-- `init_table`.
abbrev pub init_table : L4Protocol → BibTable
init_table proto = record {
  proto = proto;
  bibs = [];
  sessions = [];
  pkt_count = 0;
  pkt_queue = [];
  jstat_bib_entries = 0;
  jstat_sessions = 0;
  icmp_errors = [];
}

unfoldable pub key_equals : BibKey → BibKey → Bool
unfolding taddr4_equals taddr6_equals
key_equals a b = taddr6_equals a.src6 b.src6 && taddr4_equals a.src4 b.src4

-- Whether a session hangs from a BIB entry.
abbrev pub belongs : BibKey → TabledSession → Bool
belongs key session = key_equals session.bib key

abbrev pub timer_equals : SessionTimerType → SessionTimerType → Bool
timer_equals timer_est timer_est = true
timer_equals timer_trans timer_trans = true
timer_equals timer_syn4 timer_syn4 = true
timer_equals _ _ = false

timeout_msecs : Env → L4Protocol → SessionTimerType → ℕ
timeout_msecs env tcp timer_est = env.ttl_tcp_est
timeout_msecs env tcp timer_trans = env.ttl_tcp_trans
timeout_msecs env udp timer_est = env.ttl_udp
timeout_msecs env tcp timer_syn4 = 1000 * tcp_incoming_syn
timeout_msecs env icmp timer_est = env.ttl_icmp
timeout_msecs env _ _ = 0

unfoldable pub get_timeout : Env → L4Protocol → SessionTimerType → ℕ
unfolding timeout_msecs
get_timeout env proto expirer = env.msecs_to_jiffies (timeout_msecs env proto expirer)

abbrev pub is_some : Option ℕ → Bool
is_some none = false
is_some (some x) = true

unfoldable pub tstose : Env → L4Protocol → TabledSession → SessionEntry
unfolding get_timeout
tstose env proto ts = record {
  src6 = ts.bib.src6;
  dst6 = ts.dst6;
  src4 = ts.bib.src4;
  dst4 = ts.dst4;
  proto = proto;
  state = ts.state;
  timer_type = ts.expirer;
  update_time = ts.update_time;
  timeout = get_timeout env proto ts.expirer;
  has_stored = is_some ts.stored;
}

-- What an operation leaves in `state->entries`: nothing, the BIB entry (`tbtobs`), or the session
-- (`tstobs`).
pub data Entries : Type 0 where
  no_entries : Entries
  bib_entries : BibKey → Entries
  session_entries : SessionEntry → Entries
