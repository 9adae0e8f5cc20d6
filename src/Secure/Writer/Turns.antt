-- ===== src/Secure/Writer/Turns.antt =====
-- crates/secure/src/outbound.rs, `Writer::run`: a turn of its loop, and its wait for a message.
use webmux.Base.{
  ℕ, ◌+◌, Bool, false, Option, none, some, List, [], ◌∷◌, ◌++◌, Result, ok, err, length, ltb,
  if◌then◌else◌,
}
use webmux.Secure.Noise.{Transport}
use webmux.Secure.Channel.{Channel, Error, OutgoingMessage, finished, encode_next}
use webmux.Secure.Writer.{Queued, choose, put_back}
use webmux.Secure.Writer.Queues.{
  WireMessage, Refusal, failed, interrupted, Outbound, loops, sleeps, returned, cost, costs, send,
  try_send, enter,
}

-- The messages pulled in, and those left in the queue.
unfoldable pub pull : List Queued → List Queued → List Queued × List Queued
pull waiting [] = (waiting, [])
pull waiting (next ∷ queue) =
    if ltb (length waiting) 64 then pull (waiting ++ next ∷ []) queue else (waiting, next ∷ queue)

abbrev pub try_recv : List Queued → Option Queued × List Queued
try_recv [] = (none, [])
try_recv (q ∷ qs) = (some q, qs)

abbrev pub under_way_costs : Option Queued → ℕ
under_way_costs none = 0
under_way_costs (some q) = cost q

module _ (t : Transport) where
  -- `run` returns: what it holds and both queues are dropped, with the permits.
  unfoldable pub stop : Outbound t → ℕ → Result (Unit {0}) Refusal → Outbound t
  stop o freed result = record o {
    data_queue = [];
    control_queue = [];
    entering = [];
    budget =
        o.budget
        + (freed
            + (under_way_costs o.writer.bulk
                + (costs o.writer.waiting + (costs o.data_queue + costs o.entering))));
    writer = record { waiting = []; bulk = none; urgent_streak = 0 };
    phase = returned result;
  }

  -- A permit is dropped with its message: a finished one, or the bulk message that another replaces.
  unfoldable pub settle_sent : Outbound t → Queued → Outbound t
  unfolding put_back
  settle_sent o next = record o {
    writer = put_back o.writer next;
    budget =
        if finished next.message
        then o.budget + cost next
        else o.budget + under_way_costs o.writer.bulk;
  }

  unfoldable pub transmit_encoded :
      Outbound t
      → Bool
      → Queued
      → Channel t × OutgoingMessage × Result (List ℕ) Error
      → Outbound t × List (List ℕ)
  unfolding stop settle_sent
  transmit_encoded o sink_works next (channel, m, err e) =
      (stop (record o { channel = channel }) (cost next) (err (failed e)), [])
  transmit_encoded o sink_works next (channel, m, ok sealed) =
      if sink_works
      then (settle_sent (record o { channel = channel }) (record next { message = m }), sealed ∷ [])
      else (stop (record o { channel = channel }) (cost next) (err interrupted), [])

  unfoldable pub transmit : Outbound t → Bool → Option Queued → Outbound t × List (List ℕ)
  unfolding transmit_encoded
  transmit o sink_works none = (record o { phase = sleeps }, [])
  transmit o sink_works (some next) =
      transmit_encoded o sink_works next (encode_next t o.channel next.message)

  -- One turn, with the records that go out.
  unfoldable pub turn : Outbound t → Bool → Outbound t × List (List ℕ)
  unfolding pull choose transmit
  turn o sink_works =
      let (waiting, queue) = pull o.writer.waiting o.data_queue in
      let (urgent, controls) = try_recv o.control_queue in
      let (w, next) = choose (record o.writer { waiting = waiting }) urgent in
      transmit (record o { data_queue = queue; control_queue = controls; writer = w }) sink_works
        next

  -- `select!`, with the control queue first: a queue that is empty and has no sender gives `None`.
  unfoldable pub wake_data : Outbound t → List Queued → Outbound t
  wake_data o [] = o
  wake_data o (q ∷ rest) = record o {
    data_queue = rest;
    writer = record o.writer { waiting = o.writer.waiting ++ q ∷ [] };
    phase = loops;
  }

  unfoldable pub wake_control : Outbound t → List Queued → Outbound t
  unfolding wake_data stop
  wake_control o [] = if o.has_sender then wake_data o o.data_queue else stop o 0 (ok tt)
  wake_control o (q ∷ rest) = record o {
    control_queue = rest;
    writer = record o.writer { waiting = q ∷ o.writer.waiting };
    phase = loops;
  }

  unfoldable pub wake : Outbound t → Outbound t
  unfolding wake_control
  wake o = wake_control o o.control_queue

  unfoldable pub advance : Outbound t → Bool → Outbound t × List (List ℕ)
  unfolding turn wake
  advance o sink_works = elim o.phase [
    | loops ↦ turn o sink_works
    | sleeps ↦ (wake o, [])
    | returned r ↦ (o, [])
  ]

  module _ {M : Type 0} (wire : WireMessage M) where
    -- What can happen: a call of a sender, a message that waited for room, the end of the last
    -- sender, and the writer's next move, with the sink as it is.
    pub data Move : Type 0 where
      sends tries : M → Move
      enters : Move
      drops_senders : Move
      advances : Bool → Move

    unfoldable pub move : Outbound t → Move → Outbound t × List (List ℕ)
    unfolding send try_send enter advance
    move o (sends value) = (if o.has_sender then (send t wire o value).0 else o, [])
    move o (tries value) = (if o.has_sender then (try_send t wire o value).0 else o, [])
    move o enters = (enter t o, [])
    move o drops_senders =
        (elim o.entering [ [] ↦ record o { has_sender = false } | q ∷ qs ↦ o ], [])
    move o (advances sink_works) = advance o sink_works

    unfoldable pub move_all : Outbound t → List Move → Outbound t × List (List ℕ)
    unfolding move
    move_all o [] = (o, [])
    move_all o (e ∷ es) =
        let (o', records) = move o e in let (o'', more) = move_all o' es in (o'', records ++ more)
