-- ===== src/Secure/Writer/Permits.antt =====
-- The budget over all that senders and writer do.
use webmux.Base.{
  ℕ, ◌+◌, inl, inr, ◌≡◌, refl, ap, Bool, true, false, Option, none, some, List, [], ◌∷◌, ◌++◌,
  arith, length, ltb, Bool-cases, Result, ok, err, ◌⊎◌, ◌↔◌,
}
use webmux.Secure.Noise.{Transport}
use webmux.Secure.Channel.{
  Channel, Error, OutgoingMessage, finished, new_message, u32, fragment_bytes, encode_next,
}
use webmux.Secure.Writer.{Queued, choose, put_back}
use webmux.Secure.Writer.Order.{started}
use webmux.Secure.Writer.Queues.{
  WireMessage, Refusal, Outbound, queue, queued_bytes, is_idle, Phase, loops, sleeps, returned,
  failed, interrupted, cost, costs, enter, encoded, queued, try_send_bytes, try_send, send_bytes,
  send,
}
use webmux.Secure.Writer.Turns.{
  pull, try_recv, under_way_costs, stop, settle_sent, transmit_encoded, transmit, turn, wake_data,
  wake_control, wake, advance, Move, sends, tries, enters, drops_senders, advances, move, move_all,
}
use webmux.Secure.Writer.Budget.{
  weights-append, choose-weights, pull-weights, chosen_weight, permits, Balanced,
  offer_control-Balanced, offer_data-Balanced, send_data-Balanced, enter_first-Balanced,
}

started-costs :
    (b : Option Queued) (l : List Queued) → costs (started b ++ l) ≡ under_way_costs b + costs l
started-costs none l = omega arith
started-costs (some q) l = refl

module _ (t : Transport) where
  -- The permit of a message in hand, apart from those that the state holds.
  abbrev InHand : Outbound t → ℕ → Type 0
  InHand o n = (o.budget + (n + permits t o) ≡ queued_bytes) × (costs o.control_queue ≡ 0)

  stop-Balanced :
      (o : Outbound t) (n : ℕ) (result : Result (Unit {0}) Refusal)
      → InHand o n
      → Balanced t (stop t o n result)
  unfolding stop
  stop-Balanced o n result h = record {
    total = omega (arith, h.0, started-costs o.writer.bulk o.writer.waiting);
    controls = refl;
  }

  settle_sent-Balanced :
      (o : Outbound t) (next : Queued) → InHand o (cost next) → Balanced t (settle_sent t o next)
  unfolding settle_sent put_back
  settle_sent-Balanced o next h = elim (Bool-cases (finished next.message)) [
    | inl done ↦ record { total = simp done (omega (arith, h.0)); controls = h.1 }
    | inr more ↦ record {
      total = simp more (omega (arith, h.0, started-costs o.writer.bulk o.writer.waiting));
      controls = h.1;
    }
  ]

  transmit_encoded-Balanced :
      (o : Outbound t) (works : Bool) (next : Queued)
      (e : Channel t × OutgoingMessage × Result (List ℕ) Error)
      → InHand o (cost next)
      → Balanced t (transmit_encoded t o works next e).0
  unfolding transmit_encoded
  transmit_encoded-Balanced o works next (c, m, err x) h =
      stop-Balanced (record o { channel = c }) (cost next) (err (failed x)) h
  transmit_encoded-Balanced o true next (c, m, ok sealed) h =
      settle_sent-Balanced (record o { channel = c }) (record next { message = m }) h
  transmit_encoded-Balanced o false next (c, m, ok sealed) h =
      stop-Balanced (record o { channel = c }) (cost next) (err interrupted) h

  transmit-Balanced :
      (o : Outbound t) (works : Bool) (next : Option Queued)
      → InHand o (chosen_weight cost next)
      → Balanced t (transmit t o works next).0
  unfolding transmit
  transmit-Balanced o works none h = record { total = omega (arith, h.0); controls = h.1 }
  transmit-Balanced o works (some x) h =
      transmit_encoded-Balanced o works x (encode_next t o.channel x.message) h

  turn_from-Balanced :
      (o : Outbound t) (works : Bool) (controls : List Queued)
      → o.control_queue ≡ controls
      → Balanced t o
      → let (urgent, rest) = try_recv controls in
        let (w, next) = choose o.writer urgent in
        Balanced t (transmit t (record o { control_queue = rest; writer = w }) works next).0
  unfolding choose
  turn_from-Balanced o works [] e b =
      transmit-Balanced _ works _ (omega (arith, b.total, choose-weights cost o.writer), refl)
  turn_from-Balanced o works (q ∷ qs) e b =
      let none_held = ap costs e in
      transmit-Balanced (record o { control_queue = qs }) works (some q)
        (omega (arith, b.total, b.controls, none_held), omega (arith, b.controls, none_held))

  turn-Balanced : (o : Outbound t) (works : Bool) → Balanced t o → Balanced t (turn t o works).0
  unfolding turn
  turn-Balanced o works b =
      let p = pull o.writer.waiting o.data_queue in
      turn_from-Balanced (record o { data_queue = p.1; writer = record o.writer { waiting = p.0 } })
        works o.control_queue refl
        (record {
          total = omega (
            arith,
            b.total,
            pull-weights cost o.writer.waiting o.data_queue,
            weights-append cost (started o.writer.bulk) o.writer.waiting,
            weights-append cost (started o.writer.bulk) p.0,
          );
          controls = b.controls;
        })

  wake_data-Balanced :
      (o : Outbound t) (l : List Queued)
      → o.data_queue ≡ l
      → Balanced t o
      → Balanced t (wake_data t o l)
  unfolding wake_data
  wake_data-Balanced o [] e b = b
  wake_data-Balanced o (q ∷ rest) e b =
      let w = o.writer in
      record {
        total = omega (
          arith,
          b.total,
          ap costs e,
          weights-append cost (started w.bulk) w.waiting,
          weights-append cost (started w.bulk) (w.waiting ++ q ∷ []),
          weights-append cost w.waiting (q ∷ []),
        );
        controls = b.controls;
      }

  wake_control-Balanced :
      (o : Outbound t) (l : List Queued)
      → o.control_queue ≡ l
      → Balanced t o
      → Balanced t (wake_control t o l)
  unfolding wake_control
  wake_control-Balanced o [] e b = elim (Bool-cases o.has_sender) [
    | inl there ↦ simp there (wake_data-Balanced o o.data_queue refl b)
    | inr gone ↦ simp gone (
        stop-Balanced (record o { has_sender = false }) 0 (ok tt)
          (omega (arith, b.total), b.controls))
  ]
  wake_control-Balanced o (q ∷ rest) e b =
      let w = o.writer in
      record {
        total = omega (
          arith,
          b.total,
          b.controls,
          ap costs e,
          weights-append cost (started w.bulk) w.waiting,
          weights-append cost (started w.bulk) (q ∷ w.waiting),
        );
        controls = omega (arith, b.controls, ap costs e);
      }

  advance-Balanced :
      (o : Outbound t) (works : Bool) → Balanced t o → Balanced t (advance t o works).0
  unfolding advance wake
  advance-Balanced o works b = as_phase o.phase
    where
      as_phase :
          (phase : Phase)
          → let p : Outbound t × List (List ℕ) = elim phase [
            | loops ↦ turn t o works
            | sleeps ↦ (wake t o, [])
            | returned result ↦ (o, [])
          ] in
            Balanced t p.0
      as_phase loops = turn-Balanced o works b
      as_phase sleeps = wake_control-Balanced o o.control_queue refl b
      as_phase (returned result) = b

  module _ {M : Type 0} (wire : WireMessage M) where
    queued_cost :
        (value : M) (permit : Option ℕ) (bytes : List ℕ) (q : Queued)
        → queued t wire value permit bytes ≡ ok q
        → q.permit ≡ permit
    unfolding queued new_message
    queued_cost value permit bytes q e = ground arith

    try_send_bytes-Balanced :
        (o : Outbound t) (value : M) (r : Result (List ℕ) Refusal)
        → Balanced t o
        → Balanced t (try_send_bytes t wire o value r).0
    unfolding try_send_bytes
    try_send_bytes-Balanced o value (err e) b = b
    try_send_bytes-Balanced o value (ok bytes) b = elim (Bool-cases (wire.control value)) [
      | inl c ↦ elim (Bool-cases (ltb fragment_bytes (length bytes))) [
        | inl long ↦ rw (c, long) b
        | inr short ↦
            rw (c, short)
              (offer_control-Balanced t o (queued t wire value none bytes)
                (λ q e.
                  ap (λ (p : Option ℕ). elim p [ none ↦ 0 | some n ↦ n ])
                    (queued_cost value none bytes q e))
                b)
      ]
      | inr c ↦ elim (Bool-cases (ltb o.budget (u32 (length bytes)))) [
        | inl waits ↦ rw (c, waits) b
        | inr enough ↦
            rw (c, enough)
              (offer_data-Balanced t o (queued t wire value (some (u32 (length bytes))) bytes)
                (λ q e.
                  ground (arith, enough, queued_cost value (some (u32 (length bytes))) bytes q e))
                b)
      ]
    ]

    move-Balanced :
        (o : Outbound t) (e : Move t wire) → Balanced t o → Balanced t (move t wire o e).0
    unfolding move send send_bytes try_send enter
    move-Balanced o (sends value) b = elim (Bool-cases o.has_sender) [
      | inl there ↦ simp there (sent (Bool-cases (wire.control value)))
      | inr gone ↦ simp gone b
    ]
      where
        data_sent : (r : Result (List ℕ) Refusal) → Balanced t (send_bytes t wire o value r).0
        data_sent (err e) = b
        data_sent (ok bytes) =
            send_data-Balanced t o (queued t wire value (some (u32 (length bytes))) bytes) b

        sent :
            (wire.control value ≡ true) ⊎ (wire.control value ≡ false)
            → Balanced t (send t wire o value).0
        sent (inl c) = rw c (try_send_bytes-Balanced o value (encoded t wire value) b)
        sent (inr c) = rw c (data_sent (encoded t wire value))
    move-Balanced o (tries value) b = elim (Bool-cases o.has_sender) [
      | inl there ↦ simp there (try_send_bytes-Balanced o value (encoded t wire value) b)
      | inr gone ↦ simp gone b
    ]
    move-Balanced o enters b = enter_first-Balanced t o o.entering refl b
    move-Balanced o drops_senders b = dropped o.entering
      where
        dropped :
            (l : List Queued)
            → Balanced t (elim l [ [] ↦ record o { has_sender = false } | q ∷ qs ↦ o ])
        dropped [] = record { total = b.total; controls = b.controls }
        dropped (q ∷ qs) = b
    move-Balanced o (advances works) b = advance-Balanced o works b

    move_all-Balanced :
        (o : Outbound t) (es : List (Move t wire))
        → Balanced t o
        → Balanced t (move_all t wire o es).0
    unfolding move_all
    move_all-Balanced o [] b = b
    move_all-Balanced o (e ∷ es) b = move_all-Balanced (move t wire o e).0 es (move-Balanced o e b)

    -- Whatever the senders and the writer do, the budget and the permits that messages and senders
    -- hold are 64 MiB together, also when the writer returns, and the sender counts as idle exactly when
    -- no permit is held.
    pub budget_kept :
        (channel : Channel t) (es : List (Move t wire))
        → let o = (move_all t wire (queue t channel) es).0 in
          (o.budget + permits t o ≡ queued_bytes) × ((is_idle t o ≡ true) ↔ (permits t o ≡ 0))
    unfolding queue is_idle
    budget_kept channel es =
        let o = (move_all t wire (queue t channel) es).0 in
        let b = move_all-Balanced (queue t channel) es (record { total = refl; controls = refl }) in
        (b.total, (λ e. ground (arith, b.total), λ e. ground (arith, b.total)))
