-- ===== src/Joold/Send.antt =====
-- The netlink message of mod/common/joold.c (`send_to_userspace`), and the operations of the queue
-- around it: `joold_add`, `joold_ack`, `joold_clean`, `joold_advertise`.
use jool.Prelude.{
  ◌+◌, ◌^◌, ◌%◌, ◌==◌, Bool, true, if◌then◌else◌, List, [], ◌∷◌, ◌++◌, Option, none, some, length,
}
use jool.Types.{Errno, einval, enomem}
use jool.Session.{SessionEntry}
use jool.Joold.{
  JooldConfig, JooldQueue, JooldStat, joold_sss_sent, joold_sss_queued, joold_pkt_sent, joold_ads,
  joold_acks, Clock, Prepared, send_to_userspace_prepare,
}

-- What the kernel gives to a message: its buffer and headers (`genlmsg_new`, `genlmsg_put`,
-- `nla_nest_start`), and room for one more session (`nla_put` in `jnla_put_session_joold`).
pub record Netlink : Type 0 where
  pub new_msg : Bool
  pub has_room : List SessionEntry → SessionEntry → Bool

-- The loop of `send_to_userspace` over the list, with what it has put so far.
unfoldable pub put_sessions :
    Netlink → List SessionEntry → List SessionEntry → Option (List SessionEntry)
put_sessions nl done [] = some done
put_sessions nl done (s ∷ rest) =
    let more = put_sessions nl (done ++ (s ∷ [])) rest in if nl.has_room done s then more else none

-- The message that is multicast, if any. The list is freed in any case.
unfoldable pub send_to_userspace : Netlink → List SessionEntry → Option (List SessionEntry)
unfolding put_sessions
send_to_userspace nl [] = none
send_to_userspace nl (s ∷ rest) = if nl.new_msg then put_sessions nl [] (s ∷ rest) else none

unfoldable pub sent_stats : Option (List SessionEntry) → List JooldStat
sent_stats none = []
sent_stats (some msg) = joold_sss_sent (length msg) ∷ joold_pkt_sent ∷ []

-- What an operation leaves: the queue, the list that was cut from it, the message that was
-- multicast, and the counters.
pub record Sent : Type 0 where
  pub queue : JooldQueue
  pub prepared : List SessionEntry
  pub message : Option (List SessionEntry)
  pub stats : List JooldStat

abbrev pub untouched : JooldQueue → Sent
untouched queue = record { queue = queue; prepared = []; message = none; stats = [] }

-- After the lock is released: the message, and the operation's own counter.
unfoldable pub finish : Netlink → Prepared → List JooldStat → Sent
unfolding send_to_userspace sent_stats
finish nl p last =
    let message = send_to_userspace nl p.prepared in
    record {
      queue = p.queue;
      prepared = p.prepared;
      message = message;
      stats = p.stats ++ (sent_stats message ++ last);
    }

-- `alloc` tells whether `ALLOC_DEFERRED` succeeds.
unfoldable pub joold_add : JooldConfig → Clock → Netlink → Bool → JooldQueue → SessionEntry → Sent
unfolding send_to_userspace_prepare finish
joold_add cfg clock nl alloc queue session =
    if cfg.enabled
    then (if alloc
        then finish nl (send_to_userspace_prepare cfg clock queue (some session))
            (joold_sss_queued ∷ [])
        else untouched queue)
    else untouched queue

unfoldable pub joold_ack : JooldConfig → Clock → Netlink → JooldQueue → Sent
unfolding send_to_userspace_prepare finish
joold_ack cfg clock nl queue =
    if cfg.enabled
    then finish nl (send_to_userspace_prepare cfg clock (record queue { ack_received = true }) none)
        (joold_acks ∷ [])
    else untouched queue

unfoldable pub joold_clean : JooldConfig → Clock → Netlink → JooldQueue → Sent
unfolding send_to_userspace_prepare finish
joold_clean cfg clock nl queue =
    if cfg.enabled
    then finish nl (send_to_userspace_prepare cfg clock queue none) []
    else untouched queue

-- `ad_session` over the sessions that `bib_foreach_session` visits: a copy of each, unless an
-- allocation fails. `alloc` is asked with the number of copies made so far.
unfoldable pub ad_sessions :
    (List SessionEntry → Bool) → List SessionEntry → List SessionEntry → Option (List SessionEntry)
ad_sessions alloc done [] = some done
ad_sessions alloc done (s ∷ rest) =
    let more = ad_sessions alloc (done ++ (s ∷ [])) rest in if alloc done then more else none

-- `list_move_all`, `count += sessions.count`.
unfoldable pub move_all : JooldQueue → List SessionEntry → JooldQueue
move_all queue sessions = record queue {
  ad_ongoing = true;
  deferred = queue.deferred ++ sessions;
  count = (queue.count + length sessions % 2 ^ 32) % 2 ^ 32;
}

-- The rest of `joold_advertise`, once the sessions are copied.
unfoldable pub advertise :
    JooldConfig → Clock → Netlink → JooldQueue → Option (List SessionEntry) → Sent × Option Errno
unfolding send_to_userspace_prepare finish move_all
advertise cfg clock nl queue none = (untouched queue, some enomem)
advertise cfg clock nl queue (some sessions) =
    if length sessions % 2 ^ 32 == 0
    then (untouched queue, none)
    else if queue.ad_ongoing
    then (untouched queue, some einval)
    else (
      finish nl (send_to_userspace_prepare cfg clock (move_all queue sessions) none)
          (joold_ads ∷ []),
      none,
    )

-- `db` is what the walks over the TCP, UDP and ICMP tables visit, in this order.
unfoldable pub joold_advertise :
    JooldConfig
    → Clock
    → Netlink
    → (List SessionEntry → Bool)
    → List SessionEntry
    → JooldQueue
    → Sent × Option Errno
unfolding ad_sessions advertise
joold_advertise cfg clock nl alloc db queue =
    if cfg.enabled
    then advertise cfg clock nl queue (ad_sessions alloc [] db)
    else (untouched queue, some einval)
