-- ===== src/Secure/Writer/Queues.antt =====
-- crates/secure/src/outbound.rs, `queue` and `Sender`: what the senders put in the two queues. A wait
-- of `send` is a step that is taken again: for the budget the call itself, for room in the queue
-- `enter`. A call of `send` is not given up while it waits. The trait `WireMessage` of src/wire.rs is
-- an interface.
use webmux.Base.{
  ℕ, ◌+◌, ◌-◌, ◌*◌, String, Bool, true, false, ◌||◌, Option, none, some, List, [], ◌∷◌, ◌++◌,
  Result, ok, err, length, ltb, leb, ◌==◌, if◌then◌else◌,
}
use webmux.Secure.Noise.{Transport}
use webmux.Secure.Channel.{Channel, Error, new_message, u32, fragment_bytes}
use webmux.Secure.Writer.{Queued, Writer}

pub record WireMessage (M : Type 0) : Type 0 where
  pub key : M → String
  pub control : M → Bool
  pub encode : M → Result (List ℕ) Error

-- The texts of the errors.
pub data Refusal : Type 0 where
  failed : Error → Refusal
  invalid_heartbeat queue_full queue_closed interrupted : Refusal

-- Where `Writer::run` is: at the top of the loop, at `select!`, or it has returned.
pub data Phase : Type 0 where
  loops sleeps : Phase
  returned : Result (Unit {0}) Refusal → Phase

abbrev pub queued_bytes : ℕ
queued_bytes = 64 * 1024 * 1024

abbrev pub cost : Queued → ℕ
cost q = elim q.permit [ none ↦ 0 | some n ↦ n ]

abbrev pub weights : (Queued → ℕ) → List Queued → ℕ
weights weight [] = 0
weights weight (q ∷ qs) = weight q + weights weight qs

abbrev pub costs : List Queued → ℕ
costs = weights cost

module _ (t : Transport) where
  -- What the senders and the writer share: the queues, the senders that hold a permit and wait for
  -- room, whether there still is a `Sender`; and the variables of the writer's loop.
  pub record Outbound : Type 0 where
    pub data_queue : List Queued
    pub control_queue : List Queued
    pub entering : List Queued
    pub budget : ℕ
    pub has_sender : Bool
    pub writer : Writer
    pub channel : Channel t
    pub phase : Phase

  unfoldable pub queue : Channel t → Outbound
  queue channel = record {
    data_queue = [];
    control_queue = [];
    entering = [];
    budget = queued_bytes;
    has_sender = true;
    writer = record { waiting = []; bulk = none; urgent_streak = 0 };
    channel = channel;
    phase = loops;
  }

  unfoldable pub is_idle : Outbound → Bool
  is_idle o = o.budget == queued_bytes

  abbrev pub is_closed : Outbound → Bool
  is_closed o = elim o.phase [ loops ↦ false | sleeps ↦ false | returned r ↦ true ]

  -- `try_send` of a queue; the receiver is gone once `run` has returned.
  unfoldable pub offer_control :
      Outbound → Result Queued Refusal → Outbound × Result (Unit {0}) Refusal
  offer_control o (err e) = (o, err e)
  offer_control o (ok q) =
      if is_closed o || leb 4 (length o.control_queue)
      then (o, err queue_full)
      else (record o { control_queue = o.control_queue ++ q ∷ [] }, ok tt)

  -- The permit, which is there, is dropped with a message that is refused.
  unfoldable pub offer_data :
      Outbound → Result Queued Refusal → Outbound × Result (Unit {0}) Refusal
  offer_data o (err e) = (o, err e)
  offer_data o (ok q) =
      if is_closed o || leb 64 (length o.data_queue)
      then (o, err queue_full)
      else (record o { data_queue = o.data_queue ++ q ∷ []; budget = o.budget - cost q }, ok tt)

  -- The end of `send`, with a permit: `none` is a call that still waits.
  unfoldable pub send_data :
      Outbound → Result Queued Refusal → Outbound × Option (Result (Unit {0}) Refusal)
  send_data o (err e) = (o, some (err e))
  send_data o (ok q) =
      if ltb o.budget (cost q)
      then (o, none)
      else if is_closed o
      then (o, some (err queue_closed))
      else (record o { entering = o.entering ++ q ∷ []; budget = o.budget - cost q }, none)

  -- A message that waits for room enters the queue.
  unfoldable pub enter_first : Outbound → List Queued → Outbound
  enter_first o [] = o
  enter_first o (q ∷ rest) =
      if leb 64 (length o.data_queue)
      then o
      else record o { data_queue = o.data_queue ++ q ∷ []; entering = rest }

  unfoldable pub enter : Outbound → Outbound
  unfolding enter_first
  enter o = enter_first o o.entering

  module _ {M : Type 0} (wire : WireMessage M) where
    unfoldable pub encoded : M → Result (List ℕ) Refusal
    encoded value = elim (wire.encode value) [ ok bytes ↦ ok bytes | err e ↦ err (failed e) ]

    unfoldable pub queued : M → Option ℕ → List ℕ → Result Queued Refusal
    queued value permit bytes = elim (new_message bytes) [
      | ok m ↦ ok (record { key = wire.key value; message = m; permit = permit })
      | err e ↦ err (failed e)
    ]

    unfoldable pub try_send_bytes :
        Outbound → M → Result (List ℕ) Refusal → Outbound × Result (Unit {0}) Refusal
    unfolding offer_control offer_data queued
    try_send_bytes o value (err e) = (o, err e)
    try_send_bytes o value (ok bytes) =
        if wire.control value
        then (if ltb fragment_bytes (length bytes)
            then (o, err invalid_heartbeat)
            else offer_control o (queued value none bytes))
        else if ltb o.budget (u32 (length bytes))
        then (o, err queue_full)
        else offer_data o (queued value (some (u32 (length bytes))) bytes)

    unfoldable pub try_send : Outbound → M → Outbound × Result (Unit {0}) Refusal
    unfolding try_send_bytes encoded
    try_send o value = try_send_bytes o value (encoded value)

    unfoldable pub send_bytes :
        Outbound → M → Result (List ℕ) Refusal → Outbound × Option (Result (Unit {0}) Refusal)
    unfolding send_data queued
    send_bytes o value (err e) = (o, some (err e))
    send_bytes o value (ok bytes) = send_data o (queued value (some (u32 (length bytes))) bytes)

    unfoldable pub send : Outbound → M → Outbound × Option (Result (Unit {0}) Refusal)
    unfolding try_send send_bytes encoded
    send o value =
        if wire.control value
        then (let (o', r) = try_send o value in (o', some r))
        else send_bytes o value (encoded value)
