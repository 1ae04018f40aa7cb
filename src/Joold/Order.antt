-- ===== src/Joold/Order.antt =====
-- What the queue of mod/common/joold.c promises: sessions leave it in the order in which it accepted
-- them, none twice and none lost on the way.
use jool.Prelude.{
  ◌^◌, ◌%◌, ◌<◌, ◌≡◌, refl, sym, ap, ◌∙◌, inl, inr, Bool, true, false, if◌then◌else◌, ◌&&◌, not,
  leb, Bool-cases, Option-cases, ◌==◌, List, [], ◌∷◌, ◌++◌, Option, none, some, length,
  length-append, take-drop, length-drop, arith,
}
use mathlib.Core.List.{append_assoc, append-nil}
use jool.Types.{Errno}
use jool.Session.{SessionEntry}
use jool.Joold.{
  JooldConfig, JooldQueue, Clock, JooldStat, Prepared, joold_alloc, too_many_sessions, defer,
  enqueue, enqueue_stats, joold_sss_queued, joold_acks, joold_ads, cut, should_send, flush,
  send_to_userspace_prepare,
}
use jool.Joold.Send.{
  Netlink, Sent, untouched, joold_add, joold_ack, joold_clean, joold_advertise, advertise, finish,
  move_all, ad_sessions,
}

-- The counter counts the list, up to its width.
abbrev pub Counted : JooldQueue → Type 0
Counted q = q.count ≡ length q.deferred % 2 ^ 32

-- What a preparation keeps: the queued sessions are those cut and those left, in order.
pub record IsCut (q : JooldQueue) (p : Prepared) : Type 0 where
  pub in_order : q.deferred ≡ p.prepared ++ p.queue.deferred
  pub counted : Counted p.queue

pub cut-IsCut :
    (cfg : JooldConfig) (clock : Clock) (q : JooldQueue) (stats : List JooldStat)
    → Counted q
    → IsCut q (cut cfg clock q stats)
unfolding cut
cut-IsCut cfg clock q stats c = elim (Bool-cases (leb q.count cfg.max_sessions_per_pkt)) [
  | inl e ↦ rw e (record { in_order = sym (append-nil q.deferred); counted = omega arith })
  | inr e ↦ rw e (record {
    in_order = sym (take-drop cfg.max_sessions_per_pkt q.deferred);
    counted = ground (arith, length-drop cfg.max_sessions_per_pkt q.deferred);
  })
]

pub flush-IsCut :
    (cfg : JooldConfig) (clock : Clock) (q : JooldQueue) (stats : List JooldStat)
    → Counted q
    → IsCut q (flush cfg clock q stats)
unfolding flush
flush-IsCut cfg clock q stats c = elim (Bool-cases (should_send cfg clock q).send) [
  | inl e ↦ rw e (cut-IsCut cfg clock q _ c)
  | inr e ↦ rw e (record { in_order = refl; counted = c })
]

-- What an operation promises about the sessions that it accepts.
pub record IsFifo (q : JooldQueue) (accepted : List SessionEntry) (s : Sent) : Type 0 where
  pub in_order : q.deferred ++ accepted ≡ s.prepared ++ s.queue.deferred
  pub counted : Counted s.queue

-- The session that `joold_add` queues, if it does.
abbrev pub accepted_add : JooldConfig → Bool → JooldQueue → SessionEntry → List SessionEntry
accepted_add cfg alloc q session =
    if cfg.enabled && (alloc && not (too_many_sessions cfg q)) then session ∷ [] else []

-- The sessions that `joold_advertise` queues: all of the database, if it returns 0.
abbrev pub accepted_ad : Option Errno → List SessionEntry → List SessionEntry
accepted_ad none db = db
accepted_ad (some e) db = []

untouched-IsFifo : (q : JooldQueue) → Counted q → IsFifo q [] (untouched q)
untouched-IsFifo q c = record { in_order = append-nil q.deferred; counted = c }

defer-Counted : (q : JooldQueue) (s : SessionEntry) → Counted q → Counted (defer q s)
unfolding defer
defer-Counted q s c = omega (arith, length-append q.deferred (s ∷ []))

move_all-Counted : (q : JooldQueue) (ss : List SessionEntry) → Counted q → Counted (move_all q ss)
unfolding move_all
move_all-Counted q ss c = omega (arith, length-append q.deferred ss)

-- The cut from a queue `r` that holds the old sessions and the accepted ones.
finish-IsFifo :
    (nl : Netlink) (q r : JooldQueue) (accepted : List SessionEntry) (p : Prepared)
    (last : List JooldStat)
    → r.deferred ≡ q.deferred ++ accepted
    → IsCut r p
    → IsFifo q accepted (finish nl p last)
unfolding finish
finish-IsFifo nl q r accepted p last e h = record {
  in_order = sym e ∙ h.in_order;
  counted = h.counted;
}

prepare-IsCut :
    (cfg : JooldConfig) (clock : Clock) (q : JooldQueue) (session : Option SessionEntry)
    → Counted (enqueue cfg q session)
    → IsCut (enqueue cfg q session) (send_to_userspace_prepare cfg clock q session)
unfolding send_to_userspace_prepare
prepare-IsCut cfg clock q session c =
    flush-IsCut cfg clock (enqueue cfg q session) (enqueue_stats cfg q session) c

-- The queue that a preparation without a session cuts.
ask-IsFifo :
    (cfg : JooldConfig) (clock : Clock) (nl : Netlink) (q r : JooldQueue)
    (accepted : List SessionEntry) (last : List JooldStat)
    → r.deferred ≡ q.deferred ++ accepted
    → Counted r
    → IsFifo q accepted (finish nl (send_to_userspace_prepare cfg clock r none) last)
unfolding enqueue
ask-IsFifo cfg clock nl q r accepted last e c =
    finish-IsFifo nl q r accepted (send_to_userspace_prepare cfg clock r none) last e
      (prepare-IsCut cfg clock r none c)

-- The same with a session, dropped or queued.
offer-IsFifo :
    (cfg : JooldConfig) (clock : Clock) (nl : Netlink) (q : JooldQueue) (session : SessionEntry)
    (last : List JooldStat)
    → Counted q
    → IsFifo q
        (if not (too_many_sessions cfg q) then session ∷ [] else [])
        (finish nl (send_to_userspace_prepare cfg clock q (some session)) last)
offer-IsFifo cfg clock nl q session last c =
    finish-IsFifo nl q (enqueue cfg q (some session))
      (if not (too_many_sessions cfg q) then session ∷ [] else [])
      (send_to_userspace_prepare cfg clock q (some session)) last (queued cfg q session)
      (prepare-IsCut cfg clock q (some session) (counted cfg q session c))
  where
    queued :
        (cfg : JooldConfig) (q : JooldQueue) (session : SessionEntry)
        → (enqueue cfg q (some session)).deferred
          ≡ q.deferred ++ (if not (too_many_sessions cfg q) then session ∷ [] else [])
    queued cfg q session = elim (Bool-cases (too_many_sessions cfg q)) [
      | inl full ↦ unfold enqueue in rw full (sym (append-nil q.deferred))
      | inr room ↦ unfold enqueue in unfold defer in rw room
    ]

    counted :
        (cfg : JooldConfig) (q : JooldQueue) (session : SessionEntry)
        → Counted q
        → Counted (enqueue cfg q (some session))
    counted cfg q session c = elim (Bool-cases (too_many_sessions cfg q)) [
      | inl full ↦ unfold enqueue in rw full c
      | inr room ↦ unfold enqueue in rw room (defer-Counted q session c)
    ]

pub joold_add-IsFifo :
    (cfg : JooldConfig) (clock : Clock) (nl : Netlink) (alloc : Bool) (q : JooldQueue)
    (session : SessionEntry)
    → Counted q
    → IsFifo q (accepted_add cfg alloc q session) (joold_add cfg clock nl alloc q session)
unfolding joold_add
joold_add-IsFifo cfg clock nl alloc q session c = elim (Bool-cases cfg.enabled) [
  | inr off ↦ rw off (untouched-IsFifo q c)
  | inl on ↦ rw on (elim (Bool-cases alloc) [
    | inr a ↦ rw a (untouched-IsFifo q c)
    | inl a ↦ rw a (offer-IsFifo cfg clock nl q session (joold_sss_queued ∷ []) c)
  ])
]

pub joold_ack-IsFifo :
    (cfg : JooldConfig) (clock : Clock) (nl : Netlink) (q : JooldQueue)
    → Counted q
    → IsFifo q [] (joold_ack cfg clock nl q)
unfolding joold_ack
joold_ack-IsFifo cfg clock nl q c = elim (Bool-cases cfg.enabled) [
  | inr off ↦ rw off (untouched-IsFifo q c)
  | inl on ↦ rw on (
      ask-IsFifo cfg clock nl q (record q { ack_received = true }) [] (joold_acks ∷ [])
        (sym (append-nil q.deferred)) c)
]

pub joold_clean-IsFifo :
    (cfg : JooldConfig) (clock : Clock) (nl : Netlink) (q : JooldQueue)
    → Counted q
    → IsFifo q [] (joold_clean cfg clock nl q)
unfolding joold_clean
joold_clean-IsFifo cfg clock nl q c = elim (Bool-cases cfg.enabled) [
  | inr off ↦ rw off (untouched-IsFifo q c)
  | inl on ↦ rw on (ask-IsFifo cfg clock nl q q [] [] (sym (append-nil q.deferred)) c)
]

-- The copies are the sessions themselves, in order.
ad_sessions-eq-some :
    (alloc : List SessionEntry → Bool) (done db : List SessionEntry) {out : List SessionEntry}
    → ad_sessions alloc done db ≡ some out
    → out ≡ done ++ db
unfolding ad_sessions
ad_sessions-eq-some alloc done [] e = cc (append-nil done)
ad_sessions-eq-some alloc done (s ∷ rest) e = elim (Bool-cases (alloc done)) [
  | inl a ↦
      ad_sessions-eq-some alloc (done ++ (s ∷ [])) rest (rw a at e)
      ∙ append_assoc done (s ∷ []) rest
  | inr a ↦ cc (rw a at e)
]

advertise-some-IsFifo :
    (cfg : JooldConfig) (clock : Clock) (nl : Netlink) (q : JooldQueue) (db : List SessionEntry)
    → length db < 2 ^ 32
    → Counted q
    → IsFifo q
        (accepted_ad (advertise cfg clock nl q (some db)).1 db)
        (advertise cfg clock nl q (some db)).0
unfolding advertise
advertise-some-IsFifo cfg clock nl q [] b c = untouched-IsFifo q c
advertise-some-IsFifo cfg clock nl q (s ∷ rest) b c =
    let e : (length (s ∷ rest) % 2 ^ 32 == 0) ≡ false = ground arith in
    rw e (elim (Bool-cases q.ad_ongoing) [
      | inl on ↦ rw on (untouched-IsFifo (record q { ad_ongoing = true }) c)
      | inr off ↦ rw off (
          ask-IsFifo cfg clock nl (record q { ad_ongoing = false }) (move_all q (s ∷ rest))
            (s ∷ rest) (joold_ads ∷ []) (unfold move_all in refl) (move_all-Counted q (s ∷ rest) c))
    ])

pub joold_advertise-IsFifo :
    (cfg : JooldConfig) (clock : Clock) (nl : Netlink) (alloc : List SessionEntry → Bool)
    (db : List SessionEntry) (q : JooldQueue)
    → length db < 2 ^ 32
    → Counted q
    → IsFifo q
        (accepted_ad (joold_advertise cfg clock nl alloc db q).1 db)
        (joold_advertise cfg clock nl alloc db q).0
unfolding joold_advertise
joold_advertise-IsFifo cfg clock nl alloc db q b c = elim (Bool-cases cfg.enabled) [
  | inr off ↦ rw off (untouched-IsFifo q c)
  | inl on ↦ rw on (elim (Option-cases (ad_sessions alloc [] db)) [
    | inl e ↦ rw e (unfold advertise in untouched-IsFifo q c)
    | inr (out, e) ↦
        rw (e, ad_sessions-eq-some alloc [] db e) (advertise-some-IsFifo cfg clock nl q db b c)
  ])
]

-- A history of the queue: the sessions accepted so far, those cut so far, and the queue.
pub data Run (cfg : JooldConfig) : List SessionEntry → List SessionEntry → JooldQueue → Type 0 where
  start : (clock : Clock) → Run cfg [] [] (joold_alloc clock)
  add :
      {acc out : List SessionEntry} {q : JooldQueue} (clock : Clock) (nl : Netlink) (alloc : Bool)
      (session : SessionEntry)
      → Run cfg acc out q
      → Run cfg
          (acc ++ accepted_add cfg alloc q session)
          (out ++ (joold_add cfg clock nl alloc q session).prepared)
          (joold_add cfg clock nl alloc q session).queue
  ack :
      {acc out : List SessionEntry} {q : JooldQueue} (clock : Clock) (nl : Netlink)
      → Run cfg acc out q
      → Run cfg
          (acc ++ [])
          (out ++ (joold_ack cfg clock nl q).prepared)
          (joold_ack cfg clock nl q).queue
  clean :
      {acc out : List SessionEntry} {q : JooldQueue} (clock : Clock) (nl : Netlink)
      → Run cfg acc out q
      → Run cfg
          (acc ++ [])
          (out ++ (joold_clean cfg clock nl q).prepared)
          (joold_clean cfg clock nl q).queue
  ad :
      {acc out : List SessionEntry} {q : JooldQueue} (clock : Clock) (nl : Netlink)
      (alloc : List SessionEntry → Bool) (db : List SessionEntry)
      → length db < 2 ^ 32
      → Run cfg acc out q
      → Run cfg
          (acc ++ accepted_ad (joold_advertise cfg clock nl alloc db q).1 db)
          (out ++ (joold_advertise cfg clock nl alloc db q).0.prepared)
          (joold_advertise cfg clock nl alloc db q).0.queue

pub record IsQueue (acc out : List SessionEntry) (q : JooldQueue) : Type 0 where
  pub in_order : acc ≡ out ++ q.deferred
  pub counted : Counted q

extend-IsQueue :
    {acc out new : List SessionEntry} {q : JooldQueue} (s : Sent)
    → IsQueue acc out q
    → IsFifo q new s
    → IsQueue (acc ++ new) (out ++ s.prepared) s.queue
extend-IsQueue {acc} {out} {new} {q} s h f = record {
  in_order =
      ap (λ (t : List SessionEntry). t ++ new) h.in_order
      ∙ append_assoc out q.deferred new
      ∙ ap (λ (t : List SessionEntry). out ++ t) f.in_order
      ∙ sym (append_assoc out s.prepared s.queue.deferred);
  counted = f.counted;
}

-- In every history of the queue, made of additions, acknowledgements, timer calls and
-- advertisements of up to 2 ^ 32 - 1 sessions in any order, the sessions that were accepted are, in
-- order, those that were cut for sending followed by those still deferred, and the counter is the
-- length of the deferred list modulo 2 ^ 32.
pub Run-IsQueue :
    {cfg : JooldConfig} {acc out : List SessionEntry} {q : JooldQueue}
    → Run cfg acc out q
    → IsQueue acc out q
Run-IsQueue (start clock) = unfold joold_alloc in record { in_order = refl; counted = refl }
Run-IsQueue {cfg} (add {q} clock nl alloc session r) =
    let h = Run-IsQueue r in
    extend-IsQueue (joold_add cfg clock nl alloc q session) h
      (joold_add-IsFifo cfg clock nl alloc q session h.counted)
Run-IsQueue {cfg} (ack {q} clock nl r) =
    let h = Run-IsQueue r in
    extend-IsQueue (joold_ack cfg clock nl q) h (joold_ack-IsFifo cfg clock nl q h.counted)
Run-IsQueue {cfg} (clean {q} clock nl r) =
    let h = Run-IsQueue r in
    extend-IsQueue (joold_clean cfg clock nl q) h (joold_clean-IsFifo cfg clock nl q h.counted)
Run-IsQueue {cfg} (ad {q} clock nl alloc db b r) =
    let h = Run-IsQueue r in
    extend-IsQueue (joold_advertise cfg clock nl alloc db q).0 h
      (joold_advertise-IsFifo cfg clock nl alloc db q b h.counted)
