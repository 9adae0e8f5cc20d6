-- ===== src/Hub/Events/Tests.antt =====
-- The events sent to browsers at concrete inputs.
use webmux.Base.{
  ℕ, ◌+◌, String, ◌≡◌, refl, true, false, Option, none, some, List, [], ◌∷◌, length, arith, ltb,
  if◌then◌else◌,
}
use webmux.Hub.Events.{
  send_event, build_event_subscription, missed, event_history_limit, remember, event_visible_to,
  pop_front, history_has_gap_after_seq,
}
use webmux.Hub.Events.Replay.{start, send_all, log, build_event_subscription_exact}

-- An event for everyone, one for each of two users.
abbrev news : List (Option String × ℕ)
news = (none, 7) ∷ (some "ann", 8) ∷ (some "bob", 9) ∷ []

-- The hub started after event 200 and ann's browser has seen event 201.
build_event_subscription_exact_example :
    build_event_subscription (send_all (start 200) news) (some "ann") 201 ≡ (
      if ltb (201 + event_history_limit) (200 + length news)
      then record { replay = []; requires_resync = true }
      else record { replay = missed (some "ann") 201 (log 200 news); requires_resync = false })
build_event_subscription_exact_example =
    build_event_subscription_exact 200 201 news (some "ann") (omega arith) (omega arith)
      (omega arith)

replays_own_events :
    (build_event_subscription (send_all (start 200) news) (some "ann") 201).replay ≡ (202, 8) ∷ []
unfolding build_event_subscription send_all send_event missed remember event_visible_to pop_front
    history_has_gap_after_seq
replays_own_events = refl
