-- ===== src/Lib.antt =====
-- Jool, an IP/ICMP translator for the Linux kernel: the stateful NAT64.
--
-- A packet that enters a NAT64 instance is summarised as a tuple, filtered against pool6 and pool4,
-- and looked up in the database of bindings (BIB) and sessions, which it may extend; the entry found
-- decides the tuple of the outgoing packet. Timers call the database to expire sessions, userspace
-- calls it to add and remove entries, and other instances send it sessions (joold). Each operation
-- holds the lock of one table (TCP, UDP or ICMP) throughout, so that it is one step here.
--
-- Files and the code that they model (paths from the repository's root):
--   Types, Session, Verdict   src/common/types.h, src/common/session.h, src/mod/common/types.h,
--                             src/mod/common/db/bib/entry.{h,c}, src/mod/common/translation_state.c
--   Address                   src/mod/common/address.c: IPv4 prefixes and masks
--   Rfc6052                   src/mod/common/rfc6052.c: `__rfc6052_6to4`, `__rfc6052_4to6`
--   TcpMachine                src/mod/common/steps/filtering_and_updating.c: the TCP state machine
--                             (`tcp_state_machine`) and `tcp_est_expire_cb`
--   Filtering                 the rest of that file: `ipv6_simple`, `ipv4_simple`, Tcp (`ipv6_tcp`,
--                             `ipv4_tcp`), Main (`filtering_and_updating`)
--   OutTuple                  src/mod/common/steps/compute_outgoing_tuple.c
--   Pool4.Ranges, Pool4.Edit  the same file: the ranges of a table (`pool4_add_range`, the loop of
--                             `remove_range`), `pool4db_add` and `pool4db_update`
--   Pool4.Removal             the same file: `pool4db_rm`
--   Joold                     src/mod/common/joold.c: the queue; Send (the operations and the message),
--                             Requests (received sessions), Order and Drain (theorems)
--   Rfc7915                   src/mod/common/rfc7915: FragField (src/mod/common/packet.h), Fragment
--                             (`allocate_slow`, `autofill_hdr6`), SrcRoute
--                             (`has_unexpired_src_route`), Extension (`handle_icmp_extension`), Icmp
--                             (types, codes, pointers), Mtu, Checksum
--   Pool4                     src/mod/common/db/pool4/db.c: MaskDomain (`struct mask_domain` and its
--                             iteration), Db (the tables, `pool4db_contains`, `mask_domain_find`),
--                             with src/mod/common/db/pool4/empty.c
--   Rbtree                    src/mod/common/db/rbtree.h: searches and slots
--   PktQueue                  src/mod/common/db/bib/pkt_queue.c: the packets of simultaneous opens
--   Bib                       src/mod/common/db/bib/db.c: Table (the state), Fate (`decide_fate`),
--                             Lookup (searches, `find_available_mask`), Find (`find_bib_session6`),
--                             Add, Tcp (`bib_add_*`), Static (userspace), Clean (`clean_table`)
--   Bib.Count, Bib.Mask,      theorems on the above
--   Bib.Mapping, Bib.Limit,
--   Bib.Wreck
--   Tests                     runs at concrete inputs
--
-- How state and operations correspond: an operation takes the table and gives it back, in a record
-- with what it returns; the errors are values. `struct bib_table` is a record: `bibs` is the in-order
-- sequence of `tree4`, and `sessions` is one list, of which the tree of a BIB entry and the list of an
-- expirer are the parts that name it. A pointer into a list is a cursor: the element with what stands
-- before and after it. Packets are numbers, and `icmp_errors` records those that were answered by an
-- ICMP error. Time (`jiffies`) does not wrap. `Env` holds what is read of the machine: the time, the
-- options, and whether each allocation succeeds (`alloc_so_bib` and `alloc_so_session`: the two of a
-- simultaneous open, of which the second may fail alone).
-- What the C code leaves undefined, the use of an entry that it has freed, is an outcome (`fault`).
-- `pkt_count--` is a subtraction that stops at 0. The kernel's `ipv6_prefix_equal` and
-- `msecs_to_jiffies`, the addresses of the interfaces, the route of a packet (`predict_route64`) and
-- the hash of RFC 6056 are parameters. `current_port + 1` is kept in place of `current_port`, which
-- may be -1. Where the code searches a tree of BIB entries, the model searches the in-order list.
--
-- Fuel: the search for a mask runs one round more than the domain has transport addresses, each of
-- which moves `taddr_counter` on until `mask_domain_next` ends it; the walk of an expirer runs at most
-- once per session of the table, and each round takes one session off the expirer's list; the binary
-- search of a port runs at most once per range.
--
-- The loop of `allocate_slow` runs as often as the payload has bytes, and ends before that. The walk
-- over IPv4 options runs as often as there are bytes, which is enough for well-formed options.
--
-- The queue of joold counts in 32 bits, and so does the model. Checksums are sums of 16-bit words in
-- ones' complement; the kernel's routines are parameters with the laws that they document.
--
-- Not modelled: the reading of packet headers (determine_incoming_tuple.c), the buffers and the routes
-- of rfc7915/, the stateless translator (SIIT: eam.c, rtrie.c, address_xlat.c), the kernel's hooks,
-- netlink, logging, memory and reference counts, and the userspace clients; they are input and output,
-- or a program of their own.
mod Prelude
pub mod Types
pub mod Address
pub mod Pool4
pub mod Rfc6052
pub mod Session
pub mod TcpMachine
pub mod Verdict
pub mod PktQueue
pub mod Rbtree
pub mod Bib
pub mod Filtering
pub mod Joold
pub mod Rfc7915
pub mod OutTuple
pub mod Tests
