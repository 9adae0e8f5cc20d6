-- ===== src/Hub/Events.antt =====
-- crates/hub/src/machine_manager.rs: the numbered events that the hub sends to browsers, and the
-- history from which a browser that comes back is brought up to date. Each call runs whole; the
-- broadcast channel's live part is tokio's. `E` is the type of the events.
pub mod Replay
mod Tests
use webmux.Base.{
  ℕ, ◌+◌, ◌-◌, ◌%◌, ◌^◌, String, Bool, true, false, ◌&&◌, Option, none, some, List, [], ◌∷◌, ◌++◌,
  map, filter, length, ltb, ◌==◌, if◌then◌else◌, string_key,
}

pub record EventEnvelope (E : Type 0) : Type 0 where
  pub seq : ℕ
  pub target_user_id : Option String
  pub event : E

abbrev pub event_history_limit : ℕ
event_history_limit = 1024

pub record Events (E : Type 0) : Type 0 where
  pub next_event_seq : ℕ
  pub event_history : List (EventEnvelope E)

pub record EventSubscription (E : Type 0) : Type 0 where
  pub replay : List (ℕ × E)
  pub requires_resync : Bool

-- On u64.
abbrev pub saturating_add : ℕ → ℕ → ℕ
saturating_add a b = if ltb (a + b) (2 ^ 64) then a + b else 2 ^ 64 - 1

module _ {E : Type 0} where
  -- `pop_front`.
  pop_front : List (EventEnvelope E) → List (EventEnvelope E)
  pop_front [] = []
  pop_front (x ∷ xs) = xs

  -- `push_back`, and `pop_front` beyond the limit.
  pub remember : EventEnvelope E → List (EventEnvelope E) → List (EventEnvelope E)
  unfolding pop_front
  remember e history =
      let longer = history ++ e ∷ [] in
      if ltb event_history_limit (length longer) then pop_front longer else longer

  unfoldable pub send_event : Events E → Option String → E → Events E
  unfolding remember
  send_event s target event =
      let seq = (s.next_event_seq + 1) % 2 ^ 64 in
      record {
        next_event_seq = seq;
        event_history =
            remember (record { seq = seq; target_user_id = target; event = event }) s.event_history;
      }

  unfoldable pub event_visible_to : EventEnvelope E → Option String → Bool
  event_visible_to e user = elim e.target_user_id [
    | none ↦ true
    | some target ↦ elim user [ none ↦ false | some u ↦ string_key.eq u target ]
  ]

  pub history_has_gap_after_seq : List (EventEnvelope E) → ℕ → Bool
  history_has_gap_after_seq [] after_seq = false
  history_has_gap_after_seq (oldest ∷ _) after_seq =
      if after_seq == 0 then false else ltb (saturating_add after_seq 1) oldest.seq

  -- What a browser of the user gets that has seen the events up to `after_seq`.
  pub missed : Option String → ℕ → List (EventEnvelope E) → List (ℕ × E)
  unfolding event_visible_to
  missed user after_seq [] = []
  missed user after_seq (e ∷ es) =
      if ltb after_seq e.seq && event_visible_to e user
      then (e.seq, e.event) ∷ missed user after_seq es
      else missed user after_seq es

  unfoldable pub build_event_subscription : Events E → Option String → ℕ → EventSubscription E
  unfolding history_has_gap_after_seq missed
  build_event_subscription s user after_seq =
      let requires_resync = history_has_gap_after_seq s.event_history after_seq in
      record {
        replay = if requires_resync then [] else missed user after_seq s.event_history;
        requires_resync = requires_resync;
      }
