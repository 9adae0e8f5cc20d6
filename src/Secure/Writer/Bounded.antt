-- ===== src/Secure/Writer/Bounded.antt =====
-- crates/secure/src/outbound.rs: the bytes that wait, over all that senders and writer do.
use webmux.Base.{
  ℕ, ◌+◌, ◌≡◌, ◌↔◌, inl, inr, refl, subst, Bool, true, false, none, some, List, [], ◌∷◌, ◌++◌, All,
  All-append, arith, Bool-cases, ok, ltb, length,
}
use webmux.Secure.Noise.{Transport}
use webmux.Secure.Channel.{Channel}
use webmux.Secure.Writer.{Queued, choose}
use webmux.Secure.Writer.Order.{started, pending}
use webmux.Secure.Writer.Chosen.{choose-Takes}
use webmux.Secure.Writer.Queues.{
  WireMessage, Outbound, queue, queued_bytes, is_idle, Phase, loops, sleeps, returned, weights,
}
use webmux.Secure.Writer.Turns.{
  pull, try_recv, transmit, turn, wake_data, wake_control, wake, advance, Move, sends, tries,
  enters, drops_senders, advances, move, move_all,
}
use webmux.Secure.Writer.Arrivals.{IsPaid, IsControl, Grown}
use webmux.Secure.Writer.Handover.{pull-All}
use webmux.Secure.Writer.Peer.{sends_grow, tries_grow, enters_grow, drops_grow}
use webmux.Secure.Writer.Budget.{permits}
use webmux.Secure.Writer.Permits.{budget_kept}
use webmux.Secure.Writer.Charged.{
  paid_bytes, IsCharged, Charged, control-IsFree, paid-IsCharged, charged_bytes, stop-Charged,
  transmit-Charged, chosen-Charged,
}

module _ {M : Type 0} (wire : WireMessage M) (t : Transport) where
  turn_from-Charged :
      (o : Outbound t) (works : Bool) (controls : List Queued)
      → o.control_queue ≡ controls
      → Charged wire t o
      → let (urgent, rest) = try_recv controls in
        let (w, next) = choose o.writer urgent in
        Charged wire t (transmit t (record o { control_queue = rest; writer = w }) works next).0
  unfolding choose
  turn_from-Charged o works [] e c =
      let (w, next) = choose o.writer none in
      let (kept, taken) =
        chosen-Charged wire t o w next c (choose-Takes (IsCharged wire) o.writer c.waiting) in
      transmit-Charged wire t (record o { control_queue = []; writer = w }) works next
        (record {
          data_queue = kept.data_queue;
          entering = kept.entering;
          waiting = kept.waiting;
          bulk = kept.bulk;
          controls = tt;
        })
        taken
  turn_from-Charged o works (q ∷ qs) e c =
      let h = subst (λ (l : List Queued). All (IsControl wire) l) e c.controls in
      transmit-Charged wire t (record o { control_queue = qs }) works (some q)
        (record {
          data_queue = c.data_queue;
          entering = c.entering;
          waiting = c.waiting;
          bulk = c.bulk;
          controls = h.1;
        })
        (inr (control-IsFree wire q h.0))

  pull-rest : (P : Queued → Type 0) (waiting l : List Queued) → All P l → All P (pull waiting l).1
  unfolding pull
  pull-rest P waiting [] h = tt
  pull-rest P waiting (q ∷ l) h = elim (Bool-cases (ltb (length waiting) 64)) [
    | inl room ↦ rw room (pull-rest P (waiting ++ q ∷ []) l h.1)
    | inr full ↦ rw full h
  ]

  turn-Charged :
      (o : Outbound t) (works : Bool) → Charged wire t o → Charged wire t (turn t o works).0
  unfolding turn
  turn-Charged o works c =
      let p = pull o.writer.waiting o.data_queue in
      let charged =
        pull-All (IsCharged wire) o.writer.waiting o.data_queue c.waiting
          (paid-IsCharged wire o.data_queue c.data_queue) in
      turn_from-Charged (record o { data_queue = p.1; writer = record o.writer { waiting = p.0 } })
        works o.control_queue refl
        (record {
          data_queue = pull-rest IsPaid o.writer.waiting o.data_queue c.data_queue;
          entering = c.entering;
          waiting = charged.0;
          bulk = c.bulk;
          controls = c.controls;
        })

  wake_data-Charged :
      (o : Outbound t) (l : List Queued)
      → o.data_queue ≡ l
      → Charged wire t o
      → Charged wire t (wake_data t o l)
  unfolding wake_data
  wake_data-Charged o [] e c = c
  wake_data-Charged o (q ∷ rest) e c =
      let h = subst (λ (l : List Queued). All IsPaid l) e c.data_queue in
      record {
        data_queue = h.1;
        entering = c.entering;
        waiting = All-append (IsCharged wire) o.writer.waiting (q ∷ []) c.waiting (inl h.0, tt);
        bulk = c.bulk;
        controls = c.controls;
      }

  wake_control-Charged :
      (o : Outbound t) (l : List Queued)
      → o.control_queue ≡ l
      → Charged wire t o
      → Charged wire t (wake_control t o l)
  unfolding wake_control
  wake_control-Charged o [] e c = elim (Bool-cases o.has_sender) [
    | inl there ↦ simp there (wake_data-Charged o o.data_queue refl c)
    | inr gone ↦ simp gone (stop-Charged wire t (record o { has_sender = false }) 0 (ok tt))
  ]
  wake_control-Charged o (q ∷ rest) e c =
      let h = subst (λ (l : List Queued). All (IsControl wire) l) e c.controls in
      record {
        data_queue = c.data_queue;
        entering = c.entering;
        waiting = (inr (control-IsFree wire q h.0), c.waiting);
        bulk = c.bulk;
        controls = h.1;
      }

  advance-Charged :
      (o : Outbound t) (works : Bool) → Charged wire t o → Charged wire t (advance t o works).0
  unfolding advance wake
  advance-Charged o works c = as_phase o.phase
    where
      as_phase :
          (phase : Phase)
          → let p : Outbound t × List (List ℕ) = elim phase [
            | loops ↦ turn t o works
            | sleeps ↦ (wake t o, [])
            | returned result ↦ (o, [])
          ] in
            Charged wire t p.0
      as_phase loops = turn-Charged o works c
      as_phase sleeps = wake_control-Charged o o.control_queue refl c
      as_phase (returned result) = c

  Grown-Charged : (o o1 : Outbound t) → Grown wire t o o1 → Charged wire t o → Charged wire t o1
  Grown-Charged o o1 g c =
      let paid = g.paid c.data_queue c.entering in
      record {
        data_queue = paid.0;
        entering = paid.1;
        waiting = rw g.writer c.waiting;
        bulk = rw g.writer c.bulk;
        controls = g.controls c.controls;
      }

  move-Charged :
      (o : Outbound t) (e : Move t wire) → Charged wire t o → Charged wire t (move t wire o e).0
  unfolding move
  move-Charged o (sends value) c = Grown-Charged o _ (sends_grow wire t o value).grown c
  move-Charged o (tries value) c = Grown-Charged o _ (tries_grow wire t o value).grown c
  move-Charged o enters c = Grown-Charged o _ (enters_grow wire t o).grown c
  move-Charged o drops_senders c = Grown-Charged o _ (drops_grow wire t o).grown c
  move-Charged o (advances works) c = advance-Charged o works c

  move_all-Charged :
      (o : Outbound t) (es : List (Move t wire))
      → Charged wire t o
      → Charged wire t (move_all t wire o es).0
  unfolding move_all
  move_all-Charged o [] c = c
  move_all-Charged o (e ∷ es) c = move_all-Charged (move t wire o e).0 es (move-Charged o e c)

  queue-Charged : (channel : Channel t) → Charged wire t (queue t channel)
  unfolding queue
  queue-Charged channel = record {
    data_queue = tt;
    entering = tt;
    waiting = tt;
    bulk = tt;
    controls = tt;
  }

  -- The bytes of the messages with a permit, with the writer, in the data queue, or about to enter it.
  abbrev pub waiting_bytes : Outbound t → ℕ
  waiting_bytes o =
      weights paid_bytes (pending o.writer)
      + (weights paid_bytes o.data_queue + weights paid_bytes o.entering)

  -- On a new queue, whatever the senders and the writer do: each message in the data queue, and each that
  -- has its permit and is about to enter it, has a permit for just its bytes; of those with the writer, each
  -- has one too, or is a control message of one fragment that has none. The budget and the bytes of all
  -- messages with a permit are 64 MiB together, also when the writer has returned, and the sender counts
  -- as idle exactly when no permit is held.
  pub bytes_bounded :
      (channel : Channel t) (es : List (Move t wire))
      → let o = (move_all t wire (queue t channel) es).0 in
        All IsPaid o.data_queue
        × All IsPaid o.entering
        × All (IsCharged wire) (pending o.writer)
        × (o.budget + waiting_bytes o ≡ queued_bytes)
        × ((is_idle t o ≡ true) ↔ (permits t o ≡ 0))
  bytes_bounded channel es =
      let o = (move_all t wire (queue t channel) es).0 in
      let c = move_all-Charged (queue t channel) es (queue-Charged channel) in
      let held =
        All-append (IsCharged wire) (started o.writer.bulk) o.writer.waiting c.bulk c.waiting in
      let (total, idle) = budget_kept t wire channel es in
      (
        c.data_queue,
        c.entering,
        held,
        omega (
          arith,
          total,
          charged_bytes wire (pending o.writer) held,
          charged_bytes wire o.data_queue (paid-IsCharged wire o.data_queue c.data_queue),
          charged_bytes wire o.entering (paid-IsCharged wire o.entering c.entering),
        ),
        idle,
      )
