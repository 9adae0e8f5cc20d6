-- ===== src/Secure/Writer/Drain.antt =====
-- A writer that is left alone sends everything: one move.
use webmux.Base.{
  suc, ℕ, ◌+◌, ◌≤◌, ◌<◌, inl, inr, ◌≡◌, refl, sym, ap, subst, Bool, true, false, Option, none, some,
  List, [], ◌∷◌, ◌++◌, All, arith, length,
}
use webmux.Secure.Noise.{Transport, Laws}
use webmux.Secure.Channel.{Channel}
use webmux.Secure.Writer.{Queued, Writer, choose}
use webmux.Secure.Writer.Order.{started, pending}
use webmux.Secure.Writer.Chosen.{Takes, choose-Takes}
use webmux.Secure.Writer.Queues.{
  WireMessage, Outbound, is_closed, Phase, loops, sleeps, returned, weights,
}
use webmux.Secure.Writer.Turns.{
  pull, try_recv, settle_sent, transmit_encoded, transmit, turn, wake_data, wake_control, wake,
  advance,
}
use webmux.Secure.Writer.Steady.{IsNew, Begun, Holds, Sent}
use webmux.Secure.Writer.Arrivals.{IsControl}
use webmux.Secure.Writer.Handover.{Steady}
use webmux.Secure.Writer.Rounds.{choice-Sent, control-Sent}
use webmux.Secure.Writer.Cycle.{pulled, pulled-Steady}
use webmux.Secure.Writer.Budget.{weights-append, choose-weights, pull-weights, chosen_weight}
use webmux.Secure.Writer.Work.{
  bytes_left, work, IsAtRest, Drains, moves_awake, moves_asleep, Drains-loops, sent-bytes, Emptied,
  choose_nothing, pull_nothing, nothing_waits,
}

module _ {M : Type 0} (wire : WireMessage M) (t : Transport) (l : Laws t) where
  -- A fragment is sent.
  transmit-Drains :
      (o : Outbound t) (r : Channel t) (x : Queued) (total : ℕ)
      → Sent t l o.channel r o.writer x
      → x.message.offset < length x.message.content
      → o.phase ≡ loops
      → bytes_left x + work t o ≤ total
      → let o1 = (transmit t o true (some x)).0 in
        (is_closed t o1 ≡ false) × (o1.phase ≡ loops) × (work t o1 < total)
  unfolding transmit transmit_encoded settle_sent
  transmit-Drains o r x total (h, holds, alone) some_left e le =
      let x' : Queued = record x { message = h.m' } in
      let less : bytes_left x' < bytes_left x =
        omega (arith, some_left, ap length h.content, h.advanced) in
      rw h.sent (rw e refl, e, omega (arith, le, sent-bytes t o.writer x x' alone less))

  -- The bytes of what is chosen without a control message.
  choice_left :
      (o : Outbound t) (r : Channel t) (w' : Writer) (x : Queued) (n : ℕ)
      → Steady wire t l n o r
      → Takes IsNew o.writer w' (some x)
      → x.message.offset < length x.message.content
  choice_left o r w' x n s (waiting, inl (new, same, room)) =
      omega (arith, new.at_start, new.filled)
  choice_left o r w' x n s (waiting, inr (is, gone)) =
      let g : Begun t l o.channel r x = subst (Holds t l o.channel r) is s.holds in
      g.sending.unfinished

  module _ (n : ℕ) (o : Outbound t) (r : Channel t) (s : Steady wire t l (suc n) o r)
      (awake : o.phase ≡ loops) where
    choice-Drains :
        (w' : Writer) (next : Option Queued)
        → o.control_queue ≡ []
        → (pending o.writer ≡ [] → o.data_queue ≡ [])
        → Takes IsNew o.writer w' next
        → Emptied t o.writer (w', next)
        → weights bytes_left (pending o.writer)
          ≡ chosen_weight bytes_left next + weights bytes_left (pending w')
        → Drains t o (transmit t (record o { writer = w' }) true next).0
    unfolding transmit Emptied
    choice-Drains w' none c empty takes (none_before, none_after) e = (
      refl,
      none_after,
      inl (
          omega (
            arith,
            ap (weights bytes_left) none_after,
            ap (weights bytes_left) (empty none_before),
            ap (weights bytes_left) c,
          )),
    )
    choice-Drains w' (some x) c empty takes em e =
        let (open_still, looping, less) =
          transmit-Drains (record o { writer = w' }) r x (work t o)
            (choice-Sent wire t l n o r s w' x takes) (choice_left o r w' x (suc n) s takes) awake
            (omega (arith, e)) in
        Drains-loops t o (transmit t (record o { writer = w' }) true (some x)).0 awake looping
          open_still less

    control-Drains :
        (q : Queued) (qs : List Queued)
        → o.control_queue ≡ q ∷ qs
        → Drains t o (transmit t (record o { control_queue = qs }) true (some q)).0
    control-Drains q qs e =
        let first : IsControl wire q = (subst (All (IsControl wire)) e s.controls).0 in
        let (open_still, looping, less) =
          transmit-Drains (record o { control_queue = qs }) r q (work t o)
            (control-Sent wire t l n o r s q first)
            (omega (arith, first.new.at_start, first.new.filled)) awake
            (omega (arith, ap (weights bytes_left) e)) in
        Drains-loops t o (transmit t (record o { control_queue = qs }) true (some q)).0 awake
          looping open_still less

  module _ (n : ℕ) (o : Outbound t) (r : Channel t) (s : Steady wire t l (suc n) o r) where
    turn_from-Drains :
        (controls : List Queued)
        → o.phase ≡ loops
        → (pending o.writer ≡ [] → o.data_queue ≡ [])
        → o.control_queue ≡ controls
        → let (urgent, rest) = try_recv controls in
          let (w, next) = choose o.writer urgent in
          Drains t o (transmit t (record o { control_queue = rest; writer = w }) true next).0
    unfolding choose
    turn_from-Drains [] awake empty e =
        let (w, next) = choose o.writer none in
        subst
          (λ (c : List Queued).
            Drains t o (transmit t (record o { control_queue = c; writer = w }) true next).0)
          e
          (choice-Drains n o r s awake w next e empty (choose-Takes IsNew o.writer s.new_waiting)
            (choose_nothing t o.writer) (choose-weights bytes_left o.writer))
    turn_from-Drains (q ∷ qs) awake empty e = control-Drains n o r s awake q qs e

    wake_data-Drains :
        (queue : List Queued)
        → o.phase ≡ sleeps
        → pending o.writer ≡ []
        → o.control_queue ≡ []
        → o.data_queue ≡ queue
        → Drains t o (wake_data t o queue)
    unfolding wake_data
    wake_data-Drains [] asleep none_pending c e = (
      ap (λ (p : Phase). elim p [ loops ↦ false | sleeps ↦ false | returned x ↦ true ]) asleep,
      subst
          (λ (p : Phase). elim p [
            | loops ↦ Unit {0}
            | sleeps ↦ pending o.writer ≡ []
            | returned x ↦ Unit {0}
          ])
          (sym asleep) none_pending,
      inl (
          omega (
            arith,
            ap (weights bytes_left) none_pending,
            ap (weights bytes_left) e,
            ap (weights bytes_left) c,
          )),
    )
    wake_data-Drains (q ∷ rest) asleep none_pending c e =
        let w = o.writer in
        (
          refl,
          tt,
          inr (
              omega (
                arith,
                moves_asleep t o asleep,
                ap (weights bytes_left) e,
                weights-append bytes_left (started w.bulk) w.waiting,
                weights-append bytes_left (started w.bulk) (w.waiting ++ q ∷ []),
                weights-append bytes_left w.waiting (q ∷ []),
              )),
        )

    wake_control-Drains :
        (queue : List Queued)
        → o.phase ≡ sleeps
        → pending o.writer ≡ []
        → o.has_sender ≡ true
        → o.control_queue ≡ queue
        → Drains t o (wake_control t o queue)
    unfolding wake_control
    wake_control-Drains [] asleep none_pending sender e =
        simp sender (wake_data-Drains o.data_queue asleep none_pending e refl)
    wake_control-Drains (q ∷ rest) asleep none_pending sender e =
        let w = o.writer in
        (
          refl,
          tt,
          inr (
              omega (
                arith,
                moves_asleep t o asleep,
                ap (weights bytes_left) e,
                weights-append bytes_left (started w.bulk) w.waiting,
                weights-append bytes_left (started w.bulk) (q ∷ w.waiting),
              )),
        )

  module _ (n : ℕ) (o : Outbound t) (r : Channel t) (s : Steady wire t l (suc n) o r) where
    pulled-work : work t (pulled wire t l o) ≡ work t o
    pulled-work =
        let w = o.writer in
        let p = pull w.waiting o.data_queue in
        omega (
          arith,
          pull-weights bytes_left w.waiting o.data_queue,
          weights-append bytes_left (started w.bulk) w.waiting,
          weights-append bytes_left (started w.bulk) p.0,
        )

    advance_as-Drains :
        (phase : Phase)
        → o.phase ≡ phase
        → is_closed t o ≡ false
        → IsAtRest t o
        → o.has_sender ≡ true
        → let p : Outbound t × List (List ℕ) = elim phase [
          | loops ↦ turn t o true
          | sleeps ↦ (wake t o, [])
          | returned x ↦ (o, [])
        ] in
          Drains t o p.0
    unfolding turn wake
    advance_as-Drains loops e running rest sender =
        let (c, at_rest, less) =
          turn_from-Drains n (pulled wire t l o) r (pulled-Steady wire t l (suc n) o r s)
            o.control_queue e
            (λ q. pull_nothing o.writer.waiting o.data_queue (nothing_waits o.writer.bulk _ q))
            refl in
        (
          c,
          at_rest,
          elim less [
            | inl z ↦ inl z
            | inr lt ↦ inr (
                omega
                  (arith, lt, moves_awake t o e, moves_awake t (pulled wire t l o) e, pulled-work))
          ],
        )
    advance_as-Drains sleeps e running rest sender =
        wake_control-Drains n o r s o.control_queue e
          (subst
            (λ (p : Phase). elim p [
              | loops ↦ Unit {0}
              | sleeps ↦ pending o.writer ≡ []
              | returned x ↦ Unit {0}
            ])
            e rest)
          sender refl
    advance_as-Drains (returned x) e running rest sender = cc (
      running,
      ap {B = Bool} (λ (p : Phase). elim p [ loops ↦ false | sleeps ↦ false | returned y ↦ true ])
          e,
    )

    pub advance-Drains :
        is_closed t o ≡ false → IsAtRest t o → o.has_sender ≡ true → Drains t o (advance t o true).0
    unfolding advance
    advance-Drains running rest sender = advance_as-Drains o.phase refl running rest sender
