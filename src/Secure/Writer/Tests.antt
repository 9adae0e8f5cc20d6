-- ===== src/Secure/Writer/Tests.antt =====
-- The writer at a concrete queue: an upload under way, a small message of its key, and others; and a
-- run of senders and writer over a transport that meets the laws.
use webmux.Base.{
  ℕ, ◌+◌, String, ◌≡◌, ◌↔◌, refl, Bool, true, false, none, some, List, [], ◌∷◌, ◌++◌, ok, replicate,
  All, arith, if◌then◌else◌, string_key,
}
use webmux.Base.Map.{get}
use webmux.Secure.Bytes.{to_be_bytes}
use webmux.Secure.Channel.{new, new_message, encode_next, finished, is_small}
use webmux.Secure.Writer.{Queued, Writer, choose}
use webmux.Secure.Writer.Queues.{
  WireMessage, send, try_send, send_bytes, send_data, queued, encoded, enter, enter_first, queue,
  queued_bytes, is_idle, returned,
}
use webmux.Secure.Writer.Turns.{
  Move, sends, tries, enters, drops_senders, advances, move, move_all, advance, turn, pull,
  transmit, wake, wake_control, stop,
}
use webmux.Secure.Writer.Order.{pending}
use webmux.Secure.Writer.Handover.{IsDataKey}
use webmux.Secure.Writer.Peer.{all_arrivals, all_control_arrivals, ever_may_end}
use webmux.Secure.Writer.Delivered.{Reached, delivered_in_order}
use webmux.Secure.Writer.Arrivals.{IsPaid}
use webmux.Secure.Writer.Charged.{IsCharged}
use webmux.Secure.Writer.Bounded.{waiting_bytes, bytes_bounded}
use webmux.Secure.Writer.Emptied.{undisturbed, Complete, all_delivered}
use webmux.Secure.Writer.Budget.{permits}
use webmux.Secure.Writer.Progress.{ChosenIn, continues_soon}
use webmux.Secure.Tests.{counted, counted_laws, new-Synced, many_nonces}

abbrev text : String → Queued
text k = record {
  key = k;
  message = record { id = none; content = 1 ∷ []; offset = 0 };
  permit = some 1;
}

abbrev busy : Writer
busy = record {
  waiting = text "upload" ∷ text "other" ∷ text "other" ∷ [];
  bulk = some (text "upload");
  urgent_streak = 0;
}

continues_soon_example : ChosenIn busy (text "upload") (replicate 9 (text "other" ∷ []))
continues_soon_example =
    continues_soon busy (text "upload") (replicate 9 (text "other" ∷ [])) refl (omega arith)
      (omega arith)

-- A control message, or the bytes of one stream.
abbrev stream : WireMessage (Bool × List ℕ)
stream = record {
  key = λ v. if v.0 then "heartbeat" else "ws:1";
  control = λ v. v.0;
  encode = λ v. ok v.1;
}

stream_key : IsDataKey stream counted counted_laws "ws:1"
stream_key (true, bytes) c e = ground (arith, string_key.eq_iff "heartbeat" "ws:1")
stream_key (false, bytes) c e = cc

-- An upload of two fragments, a small message and a heartbeat, and a message that comes later.
abbrev traffic : List (Move counted stream)
traffic =
    sends (false, replicate 20_000 7)
    ∷ enters
    ∷ sends (false, 1 ∷ [])
    ∷ enters
    ∷ tries (true, 2 ∷ [])
    ∷ advances true
    ∷ advances true
    ∷ tries (false, 3 ∷ [])
    ∷ advances true
    ∷ advances true
    ∷ []

delivered_in_order_example :
    let o = queue counted (new counted 0) in
    Reached stream counted counted_laws "ws:1"
      (new counted 0)
      (all_arrivals stream counted o traffic)
      (all_control_arrivals stream counted o traffic)
      (ever_may_end stream counted o traffic)
      (move_all counted stream o traffic)
unfolding new get
delivered_in_order_example =
    delivered_in_order stream counted counted_laws "ws:1" stream_key (new counted 0) (new counted 0)
      traffic new-Synced (λ i. refl) (omega arith) (omega (arith, many_nonces))

bytes_bounded_example :
    let o = (move_all counted stream (queue counted (new counted 0)) traffic).0 in
    All IsPaid o.data_queue
    × All IsPaid o.entering
    × All (IsCharged stream) (pending o.writer)
    × (o.budget + waiting_bytes stream counted o ≡ queued_bytes)
    × ((is_idle counted o ≡ true) ↔ (permits counted o ≡ 0))
bytes_bounded_example = bytes_bounded stream counted (new counted 0) traffic

-- A message that enters the queue while the writer sleeps, and whose sender is the last and is dropped
-- before the writer wakes, is not sent: the control queue is asked first, and it has ended.
lost_at_the_end :
    let (o, records) =
      move_all counted stream
        (queue counted (new counted 0))
        (advances true ∷ sends (false, 1 ∷ []) ∷ enters ∷ drops_senders ∷ advances true ∷ []) in
    (o.phase ≡ returned (ok tt)) × (records ≡ [])
unfolding move_all queue move send send_bytes send_data queued encoded enter enter_first advance
    turn pull choose transmit wake wake_control stop new new_message
lost_at_the_end = (refl, refl)

-- A message, a heartbeat, and a message that comes when the writer has turned once.
abbrev few : List (Move counted stream)
few =
    sends (false, 1 ∷ 2 ∷ [])
    ∷ enters
    ∷ tries (true, 3 ∷ [])
    ∷ advances true
    ∷ sends (false, 4 ∷ [])
    ∷ enters
    ∷ []

all_delivered_example :
    let all = few ++ undisturbed stream counted 3 in
    let o = queue counted (new counted 0) in
    Complete stream counted counted_laws "ws:1"
      (new counted 0)
      (all_arrivals stream counted o all)
      (all_control_arrivals stream counted o all)
      (move_all counted stream o all).1
unfolding get move_all queue move send try_send send_bytes send_data queued encoded enter
    enter_first advance turn pull choose transmit wake wake_control stop new new_message
    ever_may_end encode_next finished to_be_bytes is_small
all_delivered_example =
    all_delivered stream counted counted_laws "ws:1" stream_key (new counted 0) (new counted 0) few
      3 new-Synced (λ i. refl) (omega arith) (omega (arith, many_nonces)) refl (omega arith)
