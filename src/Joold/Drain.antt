-- ===== src/Joold/Drain.antt =====
-- Progress of the queue of mod/common/joold.c: an advertisement comes to its end.
use jool.Prelude.{
  ℕ, ◌-◌, ◌*◌, ◌^◌, ◌≤◌, ◌<◌, ◌≡◌, refl, sym, ap, ◌∙◌, inl, inr, true, false, not, leb, Bool-cases,
  List, [], ◌∷◌, ◌++◌, length, length-drop, arith,
}
use mathlib.Core.List.{append-nil}
use jool.Session.{SessionEntry}
use jool.Joold.{JooldConfig, JooldQueue, Clock, cut, should_send, flush, JooldStat}
use jool.Joold.Send.{Netlink, joold_ack}
use jool.Joold.Order.{IsFifo, joold_ack-IsFifo}

-- A list of acknowledgements: the queue at the end, and all that was cut on the way.
unfoldable pub acks :
    JooldConfig → List (Clock × Netlink) → JooldQueue → JooldQueue × List SessionEntry
acks cfg [] q = (q, [])
acks cfg ((clock, nl) ∷ rest) q =
    let s = joold_ack cfg clock nl q in
    let (q', out) = acks cfg rest s.queue in (q', s.prepared ++ out)

-- What an acknowledgement leaves of an advertisement.
pub record IsDrained (max : ℕ) (q q' : JooldQueue) : Type 0 where
  pub shorter : length q'.deferred ≡ length q.deferred - max
  pub ad : q'.ad_ongoing ≡ not (leb (length q.deferred) max)

length-eq-zero {ℓ} : {A : Type ℓ} (xs : List A) → length xs ≡ 0 → xs ≡ []
length-eq-zero [] h = refl
length-eq-zero (x ∷ xs) h = absurd (omega arith)

module _ (cfg : JooldConfig) (on : cfg.enabled ≡ true) where
  cut-IsDrained :
      (clock : Clock) (q : JooldQueue) (stats : List JooldStat)
      → q.count ≡ length q.deferred
      → q.ad_ongoing ≡ true
      → IsDrained cfg.max_sessions_per_pkt q (cut cfg clock q stats).queue
  unfolding cut
  cut-IsDrained clock q stats c a = record {
    shorter = ground (arith, length-drop cfg.max_sessions_per_pkt q.deferred);
    ad = ground arith;
  }

  -- With sessions in the queue, an acknowledged queue sends during an advertisement.
  should_send_ad :
      (clock : Clock) (q : JooldQueue)
      → 0 < q.count
      → q.ack_received ≡ true
      → q.ad_ongoing ≡ true
      → (should_send cfg clock q).send ≡ true
  unfolding should_send
  should_send_ad clock q h k a = ground arith

  abbrev acked : JooldQueue → JooldQueue
  acked q = record q { ack_received = true }

  ack-eq-flush :
      (clock : Clock) (nl : Netlink) (q : JooldQueue)
      → (joold_ack cfg clock nl q).queue ≡ (flush cfg clock (acked q) []).queue
  unfolding joold_ack
  ack-eq-flush clock nl q = rw on

  flush-eq-cut :
      (clock : Clock) (q : JooldQueue)
      → (should_send cfg clock q).send ≡ true
      → flush cfg clock q [] ≡ cut cfg clock q ([] ++ ((should_send cfg clock q).reason ∷ []))
  unfolding flush
  flush-eq-cut clock q e = rw e

  ack-IsDrained :
      (clock : Clock) (nl : Netlink) (q : JooldQueue)
      → q.count ≡ length q.deferred
      → 0 < length q.deferred
      → q.ad_ongoing ≡ true
      → IsDrained cfg.max_sessions_per_pkt q (joold_ack cfg clock nl q).queue
  ack-IsDrained clock nl q c h a =
      let e = should_send_ad clock (acked q) (omega arith) refl a in
      let stats = [] ++ ((should_send cfg clock (acked q)).reason ∷ []) in
      let d = cut-IsDrained clock (acked q) stats c a in
      rw (ack-eq-flush clock nl q, flush-eq-cut clock (acked q) e)
        (record { shorter = d.shorter; ad = d.ad })

  -- Nothing is left to do with an empty queue.
  record IsIdle (q : JooldQueue) : Type 0 where
    empty : q.deferred ≡ []
    none_counted : q.count ≡ 0
    ad_over : q.ad_ongoing ≡ false

  ack-eq-prepared :
      (clock : Clock) (nl : Netlink) (q : JooldQueue)
      → (joold_ack cfg clock nl q).prepared ≡ (flush cfg clock (acked q) []).prepared
  unfolding joold_ack
  ack-eq-prepared clock nl q = rw on

  should_send_empty :
      (clock : Clock) (q : JooldQueue) → q.count ≡ 0 → (should_send cfg clock q).send ≡ false
  unfolding should_send
  should_send_empty clock q h = ground arith

  flush-eq-keep :
      (clock : Clock) (q : JooldQueue)
      → (should_send cfg clock q).send ≡ false
      → flush cfg clock q []
        ≡ record { queue = q; prepared = []; stats = [] ++ ((should_send cfg clock q).reason ∷ []) }
  unfolding flush
  flush-eq-keep clock q e = rw e

  ack-IsIdle :
      (clock : Clock) (nl : Netlink) (q : JooldQueue)
      → IsIdle q
      → IsIdle (joold_ack cfg clock nl q).queue × ((joold_ack cfg clock nl q).prepared ≡ [])
  ack-IsIdle clock nl q h =
      rw
        (
          ack-eq-flush clock nl q,
          ack-eq-prepared clock nl q,
          flush-eq-keep clock (acked q) (should_send_empty clock (acked q) h.none_counted),
        )
        (record { empty = h.empty; none_counted = h.none_counted; ad_over = h.ad_over }, refl)

  acks-IsIdle :
      (rounds : List (Clock × Netlink)) (q : JooldQueue)
      → IsIdle q
      → IsIdle (acks cfg rounds q).0 × ((acks cfg rounds q).1 ≡ [])
  unfolding acks
  acks-IsIdle [] q h = (h, refl)
  acks-IsIdle ((clock, nl) ∷ rest) q h =
      let (h', e) = ack-IsIdle clock nl q h in
      let (h'', e') = acks-IsIdle rest (joold_ack cfg clock nl q).queue h' in (h'', rw (e, e'))

  in_all :
      (clock : Clock) (nl : Netlink) (q : JooldQueue) {out : List SessionEntry}
      → IsFifo q [] (joold_ack cfg clock nl q)
      → out ≡ (joold_ack cfg clock nl q).queue.deferred
      → (joold_ack cfg clock nl q).prepared ++ out ≡ q.deferred
  in_all clock nl q f e =
      ap (λ (t : List SessionEntry). (joold_ack cfg clock nl q).prepared ++ t) e
      ∙ sym f.in_order
      ∙ append-nil q.deferred

  -- While an advertisement goes on, as many acknowledgements as there are packets of sessions to
  -- send empty the queue: if `joold` is enabled, the counter is the list's length, which fits its
  -- width, and is not 0, an advertisement is going on, and the deferred sessions are at most the
  -- number of acknowledgements times `max_sessions_per_pkt`, then afterwards the list is empty, the
  -- advertisement is over, and what was cut on the way is the list as it was, in order. This holds
  -- whatever the clock says and whatever netlink does with the messages.
  pub acks_drain :
      (rounds : List (Clock × Netlink)) (q : JooldQueue)
      → q.count ≡ length q.deferred
      → length q.deferred < 2 ^ 32
      → 0 < length q.deferred
      → q.ad_ongoing ≡ true
      → length q.deferred ≤ length rounds * cfg.max_sessions_per_pkt
      → ((acks cfg rounds q).0.deferred ≡ [])
        × ((acks cfg rounds q).0.ad_ongoing ≡ false)
        × ((acks cfg rounds q).1 ≡ q.deferred)
  unfolding acks
  acks_drain [] q c w h a b = absurd (omega arith)
  acks_drain ((clock, nl) ∷ rest) q c w h a b =
      let q' = (joold_ack cfg clock nl q).queue in
      let d = ack-IsDrained clock nl q c h a in
      let f = joold_ack-IsFifo cfg clock nl q (omega arith) in
      elim (Bool-cases (leb (length q.deferred) cfg.max_sessions_per_pkt)) [
        | inl last ↦
            let e = length-eq-zero q'.deferred (ground (arith, d.shorter)) in
            let (i, none_cut) =
              acks-IsIdle rest q'
                (record { empty = e; none_counted = f.counted ∙ rw e; ad_over = d.ad ∙ rw last }) in
            (i.empty, i.ad_over, in_all clock nl q f (none_cut ∙ sym e))
        | inr more ↦
            let ih =
              acks_drain rest q' (omega (arith, d.shorter, f.counted)) (omega (arith, d.shorter))
                (ground (arith, d.shorter)) (d.ad ∙ rw more) (ground (arith, d.shorter)) in
            (ih.0, ih.1, in_all clock nl q f ih.2)
      ]
