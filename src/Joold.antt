-- ===== src/Joold.antt =====
-- mod/common/joold.c: the queue that announces the sessions of one translator to the others.
--
-- `struct counted_list` is a list and a counter that wraps at 2 ^ 32; the two flags of `flags` are
-- two fields. A step of the queue returns the queue, the list `prepared` that is to be sent once
-- the lock is released, and the counters that it increments.
pub mod Send
pub mod Requests
pub mod Order
pub mod Drain
use jool.Prelude.{
  ℕ, zero, suc, ◌+◌, ◌-◌, ◌^◌, ◌%◌, Bool, true, false, not, if◌then◌else◌, ltb, leb, ◌==◌, List, [],
  ◌∷◌, ◌++◌, Option, none, some, take, drop,
}
use jool.Session.{SessionEntry}

-- `struct joold_config`.
pub record JooldConfig : Type 0 where
  pub enabled : Bool
  pub flush_asap : Bool
  pub flush_deadline : ℕ
  pub capacity : ℕ
  pub max_sessions_per_pkt : ℕ

-- `struct joold_queue`.
pub record JooldQueue : Type 0 where
  pub ack_received : Bool
  pub ad_ongoing : Bool
  pub deferred : List SessionEntry
  pub count : ℕ
  pub last_flush_time : ℕ

-- The counters of `enum jool_stat_id` that joold.c increments.
pub data JooldStat : Type 0 where
  joold_empty joold_timeout joold_missing_ack joold_ad_ongoing joold_flush_asap joold_pkt_full
        joold_queuing joold_sss_queued joold_sss_enospc joold_pkt_sent joold_ads joold_acks :
      JooldStat
  joold_sss_sent : ℕ → JooldStat

-- The clock: `jiffies`, an unsigned long, and the kernel's `msecs_to_jiffies`.
pub record Clock : Type 0 where
  pub jiffies : ℕ
  pub msecs_to_jiffies : ℕ → ℕ

-- `time_before(a, b)`: the difference as a signed long is negative.
abbrev pub time_before : ℕ → ℕ → Bool
time_before a b = leb (2 ^ 63) ((a + 2 ^ 64 - b) % 2 ^ 64)

-- `joold_alloc`.
unfoldable pub joold_alloc : Clock → JooldQueue
joold_alloc clock = record {
  ack_received = true;
  ad_ongoing = false;
  deferred = [];
  count = 0;
  last_flush_time = clock.jiffies;
}

-- The decision, and the counter that tells its reason.
pub record Sending : Type 0 where
  pub send : Bool
  pub reason : JooldStat

abbrev pub because : Bool → JooldStat → Sending
because send reason = record { send = send; reason = reason }

unfoldable pub should_send : JooldConfig → Clock → JooldQueue → Sending
should_send cfg clock queue =
    let deadline = clock.msecs_to_jiffies cfg.flush_deadline in
    if queue.count == 0
    then because false joold_empty
    else if time_before ((queue.last_flush_time + deadline) % 2 ^ 64) clock.jiffies
    then because true joold_timeout
    else if not queue.ack_received
    then because false joold_missing_ack
    else if queue.ad_ongoing
    then because true joold_ad_ongoing
    else if cfg.flush_asap
    then because true joold_flush_asap
    else if leb cfg.max_sessions_per_pkt queue.count
    then because true joold_pkt_full
    else because false joold_queuing

unfoldable pub too_many_sessions : JooldConfig → JooldQueue → Bool
too_many_sessions cfg queue = if queue.ad_ongoing then false else leb cfg.capacity queue.count

pub record Prepared : Type 0 where
  pub queue : JooldQueue
  pub prepared : List SessionEntry
  pub stats : List JooldStat

-- `list_add_tail`, `count++`.
unfoldable pub defer : JooldQueue → SessionEntry → JooldQueue
defer queue session = record queue {
  deferred = queue.deferred ++ (session ∷ []);
  count = (queue.count + 1) % 2 ^ 32;
}

-- The first part of `send_to_userspace_prepare`: the session is queued, or dropped.
unfoldable pub enqueue : JooldConfig → JooldQueue → Option SessionEntry → JooldQueue
unfolding too_many_sessions defer
enqueue cfg queue none = queue
enqueue cfg queue (some session) =
    if too_many_sessions cfg queue then queue else defer queue session

unfoldable pub enqueue_stats : JooldConfig → JooldQueue → Option SessionEntry → List JooldStat
unfolding too_many_sessions
enqueue_stats cfg queue none = []
enqueue_stats cfg queue (some session) =
    if too_many_sessions cfg queue then joold_sss_enospc ∷ [] else []

-- The second part: the cut (`list_cut_position`), at the node that as many steps from the head
-- reach as a packet holds sessions. All of the list where its last node is the cursor.
unfoldable pub cut : JooldConfig → Clock → JooldQueue → List JooldStat → Prepared
unfolding take drop
cut cfg clock queue stats =
    let all = leb queue.count cfg.max_sessions_per_pkt in
    let d = if all then queue.count else cfg.max_sessions_per_pkt in
    record {
      queue = record {
        ack_received = false;
        ad_ongoing = if queue.count - d == 0 then false else queue.ad_ongoing;
        deferred = if all then [] else drop cfg.max_sessions_per_pkt queue.deferred;
        count = queue.count - d;
        last_flush_time = clock.jiffies;
      };
      prepared = if all then queue.deferred else take cfg.max_sessions_per_pkt queue.deferred;
      stats = stats;
    }

unfoldable pub flush : JooldConfig → Clock → JooldQueue → List JooldStat → Prepared
unfolding should_send cut
flush cfg clock queue stats =
    let sending = should_send cfg clock queue in
    if sending.send
    then cut cfg clock queue (stats ++ (sending.reason ∷ []))
    else record { queue = queue; prepared = []; stats = stats ++ (sending.reason ∷ []) }

unfoldable pub send_to_userspace_prepare :
    JooldConfig → Clock → JooldQueue → Option SessionEntry → Prepared
unfolding enqueue enqueue_stats flush
send_to_userspace_prepare cfg clock queue session =
    flush cfg clock (enqueue cfg queue session) (enqueue_stats cfg queue session)
