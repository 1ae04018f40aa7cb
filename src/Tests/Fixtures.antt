-- ===== src/Tests/Fixtures.antt =====
-- The addresses, the tables and the packets of the tests: a NAT64 with the pool 192.0.2.1, ports 10
-- to 12, and the prefix 64:ff9b::/96.
use jool.Prelude.{ℕ, true, false, [], ◌∷◌, none}
use jool.Types.{InAddr, In6Addr, Ipv6TransportAddr, Ipv6Prefix, Ipv4Range, tcp, taddr4}
use jool.Session.{v6_init, timer_trans}
use jool.Pool4.MaskDomain.{MaskDomain}
use jool.PktQueue.{PktqueueSession}
use jool.Bib.Table.{BibKey, TabledBib, TabledSession, BibTable, Env}
use jool.Bib.Find.{NewConn}
use jool.Bib.Add.{NewConn4}

abbrev pub word : ℕ → ℕ → ℕ → ℕ → InAddr
word a b c d = record { b0 = a; b1 = b; b2 = c; b3 = d }

abbrev pub nil : InAddr
nil = word 0 0 0 0

abbrev pub well_known : Ipv6Prefix
well_known = record {
  addr = record { w0 = word 0 100 255 155; w1 = nil; w2 = nil; w3 = nil };
  len = 96;
}

abbrev pub peer : InAddr
peer = word 203 0 113 5

abbrev pub peer6 : In6Addr
peer6 = record { w0 = word 0 100 255 155; w1 = nil; w2 = nil; w3 = peer }

abbrev pub pool : InAddr
pool = word 192 0 2 1

-- 2001:db8::`n`.
abbrev pub host : ℕ → In6Addr
host n = record { w0 = word 32 1 13 184; w1 = nil; w2 = nil; w3 = word 0 0 0 n }

abbrev pub taddr6 : In6Addr → ℕ → Ipv6TransportAddr
taddr6 a port = record { l3 = a; l4 = port }

abbrev pub pool_range : Ipv4Range
pool_range = record {
  prefix = record { addr = pool; len = 32 };
  ports = record { min = 10; max = 12 };
}

abbrev pub masks : MaskDomain
masks = record {
  pool_mark = 0;
  taddr_count = 3;
  taddr_counter = 0;
  max_iterations = 0;
  ranges = record { before = []; here = pool_range; after = [] };
  next_port = 10;
  dynamic = false;
}

abbrev pub env : Env
env = record {
  jiffies = 1000;
  msecs_to_jiffies = λ ms. ms;
  alloc_entry = true;
  alloc_so = true;
  alloc_so_bib = true;
  alloc_so_session = true;
  alloc_probe = true;
  drop_by_addr = true;
  drop_external_tcp = false;
  max_stored_pkts = 10;
  ttl_tcp_est = 7200000;
  ttl_tcp_trans = 240000;
  ttl_udp = 300000;
  ttl_icmp = 60000;
}

-- A packet from the peer to 192.0.2.1#10, which may open a connection.
abbrev pub open4 : NewConn4
open4 = record { src4 = taddr4 pool 10; dst4 = taddr4 peer 5000; dst6 = taddr6 peer6 5000 }

-- Host `n` opens a connection to the peer, and to another node.
abbrev pub open6 : ℕ → NewConn
open6 n = record { src6 = taddr6 (host n) n; dst6 = taddr6 peer6 5000; dst4 = taddr4 peer 5000 }

abbrev pub open6_other : ℕ → NewConn
open6_other n = record {
  src6 = taddr6 (host n) n;
  dst6 = taddr6 (host 99) 80;
  dst4 = taddr4 (word 8 8 8 8) 80;
}

abbrev pub node : PktqueueSession
node = record {
  dst6 = taddr6 peer6 5000;
  src4 = taddr4 pool 10;
  dst4 = taddr4 peer 5000;
  skb = 7;
  update_time = 1000;
}

-- The packet of `open4` waits.
abbrev pub waiting : BibTable
waiting = record {
  proto = tcp;
  bibs = [];
  sessions = [];
  pkt_count = 1;
  pkt_queue = node ∷ [];
  jstat_bib_entries = 0;
  jstat_sessions = 0;
  icmp_errors = [];
}

abbrev pub key10 : BibKey
key10 = record { src6 = taddr6 (host 1) 1; src4 = taddr4 pool 10 }

abbrev pub bib10 : TabledBib
bib10 = record { key = key10; is_static = false }

abbrev pub session10 : TabledSession
session10 = record {
  bib = key10;
  dst6 = taddr6 (host 99) 80;
  dst4 = taddr4 (word 8 8 8 8) 80;
  state = v6_init;
  update_time = 1000;
  expirer = timer_trans;
  stored = none;
}

-- Then host 1 has taken 192.0.2.1#10.
abbrev pub taken : BibTable
taken = record waiting {
  bibs = bib10 ∷ [];
  sessions = session10 ∷ [];
  jstat_bib_entries = 1;
  jstat_sessions = 1;
}
