-- ===== src/Secure/Writer.antt =====
-- crates/secure/src/outbound.rs, `Writer::run`: which queued message the next fragment is taken
-- from. Its children: Queues, the senders and the two queues (tokio's channels) with the budget of
-- bytes (a semaphore); Turns, the whole loop.
pub mod Queues
pub mod Turns
pub mod Chosen
pub mod Steady
pub mod Arrivals
pub mod Handover
pub mod Rounds
pub mod Cycle
pub mod Peer
pub mod Delivered
pub mod Budget
pub mod Permits
pub mod Work
pub mod Drain
pub mod Emptied
pub mod Charged
pub mod Bounded
pub mod Order
pub mod Progress
mod Tests
use webmux.Base.{
  ℕ, zero, suc, ◌+◌, ◌-◌, ◌<◌, ◌≤◌, String, ◌≡◌, Bool, true, false, not, ◌&&◌, ◌||◌, Option, none,
  some, List, [], ◌∷◌, ◌++◌, any, length, take, drop, ltb, if◌then◌else◌, string_key,
}
use webmux.Secure.Channel.{OutgoingMessage, is_small, finished}

pub record Queued : Type 0 where
  pub key : String
  pub message : OutgoingMessage
  pub permit : Option ℕ

-- The variables of the loop.
pub record Writer : Type 0 where
  pub waiting : List Queued
  pub bulk : Option Queued
  pub urgent_streak : ℕ

abbrev pub same_key : Queued → Queued → Bool
same_key a b = string_key.eq a.key b.key

-- Whether the message may pass those before it: it is small, and none of them, nor the bulk message
-- under way, has its key.
pub may_pass : Option Queued → List Queued → Queued → Bool
may_pass bulk earlier next =
    is_small next.message
    && (elim bulk [ none ↦ true | some b ↦ not (same_key b next) ])
    && not (any (λ e. same_key e next) earlier)

-- `position`, and `waiting.remove` at it: the message, and the others in order.
pub small : Option Queued → List Queued → List Queued → Option (Queued × List Queued)
unfolding may_pass
small bulk earlier [] = none
small bulk earlier (next ∷ rest) =
    let later = small bulk (earlier ++ next ∷ []) rest in
    if may_pass bulk earlier next then some (next, earlier ++ rest) else later

-- `pop_front`.
pop_front : Writer → List Queued → Writer × Option Queued
pop_front w [] = (record w { urgent_streak = 0 }, none)
pop_front w (next ∷ rest) = (record w { urgent_streak = 0; waiting = rest }, some next)

otherwise : Writer → Option Queued → Writer × Option Queued
unfolding pop_front
otherwise w none = pop_front w w.waiting
otherwise w (some b) = (record w { urgent_streak = 0; bulk = none }, some b)

passing : Writer → Option (Queued × List Queued) → Writer × Option Queued
unfolding otherwise
passing w none = otherwise w w.bulk
passing w (some (next, rest)) =
    if ltb w.urgent_streak 8
    then (record w { urgent_streak = w.urgent_streak + 1; waiting = rest }, some next)
    else otherwise w w.bulk

-- The choice of the next message: `urgent` is what the control queue gives.
unfoldable pub choose : Writer → Option Queued → Writer × Option Queued
unfolding passing small
choose w (some control) = (w, some control)
choose w none = passing w (small w.bulk [] w.waiting)

-- After a fragment: a message that is not finished becomes the bulk message.
unfoldable pub put_back : Writer → Queued → Writer
put_back w next = if finished next.message then w else record w { bulk = some next }
