-- ===== src/Hub/Composer/System.antt =====
-- The calls of `submit` as they interleave, between the points where they wait.
use webmux.Base.{String, Bool, Option, none, some, List, [], ◌∷◌, Result, if◌then◌else◌, string_key}
use webmux.Base.Set.{contains, delete}
use webmux.Protocol.Composer.{ComposerMessage, ComposerReceipt}
use webmux.Hub.Composer.{
  Address, address_key, Row, Library, Begun, answered, reserved, begin, refusal, finish, confirmed,
}

abbrev pub at_eq : Address → Address → Bool
at_eq = address_key.eq

-- A call of `submit` that has its reservation and has not come to the dispatch.
pub record Task : Type 0 where
  pub address : Address
  pub can_control : Bool

-- The hub's part in the sending: the rows of the database, the calls under way, and, of the calls of
-- `submit_composer`, those that wait for the machine and all there ever were.
pub record Sending : Type 0 where
  pub table : List (Address × Row)
  pub waiting : List Task
  pub asking : List Address
  pub sent : List Address

-- What happens: a call, its dispatch, the machine's answer, a restart of the hub.
pub data Event : Type 0 where
  submits :
      (user machine terminal : String) (m : ComposerMessage) (can_control : Bool)
      (db : Option String)
      → Event
  dispatches : (at : Address) (supports available : Bool) → Event
  answers :
      (at : Address) (answer : Result (Option ComposerReceipt) String) (available : Bool) → Event
  restarts : Event

-- The first call under way for an address, and the others.
unfoldable pub take_task : Address → List Task → Option (Task × List Task)
take_task at [] = none
take_task at (t ∷ ts) =
    let rest = take_task at ts in
    if at_eq t.address at
    then some (t, ts)
    else elim rest [ none ↦ none | some (u, us) ↦ some (u, t ∷ us) ]

abbrev pub message_id : Address → String
message_id at = at.1.1.1

module _ (lib : Library) where
  unfoldable pub begun : Sending → Address → Bool → List (Address × Row) × Begun → Sending
  begun s at can_control (table, answered receipt) = record s { table = table }
  begun s at can_control (table, reserved) = record s {
    table = table;
    waiting = record { address = at; can_control = can_control } ∷ s.waiting;
  }

  unfoldable pub dispatch : Sending → Address → Option ComposerReceipt → List Task → Bool → Sending
  dispatch s at (some receipt) rest available = record s {
    waiting = rest;
    table = finish lib s.table at receipt available;
  }
  dispatch s at none rest available = record s {
    waiting = rest;
    asking = at ∷ s.asking;
    sent = at ∷ s.sent;
  }

  unfoldable pub dispatch_first :
      Sending → Address → Bool → Bool → Option (Task × List Task) → Sending
  unfolding dispatch
  dispatch_first s at supports available none = s
  dispatch_first s at supports available (some (t, rest)) =
      dispatch s at (refusal lib (message_id at) t.can_control supports) rest available

  unfoldable pub step : Sending → Event → Sending
  unfolding begun dispatch_first
  step s (submits user machine terminal m can_control db) =
      let at : Address = (user, (machine, (terminal, m.id))) in
      begun s at can_control (begin lib s.table at m db)
  step s (dispatches at supports available) =
      dispatch_first s at supports available (take_task at s.waiting)
  step s (answers at answer available) =
      if contains at s.asking
      then record s {
        asking = delete at s.asking;
        table = finish lib s.table at (confirmed (message_id at) answer) available;
      }
      else s
  step s restarts = record s { waiting = []; asking = [] }

  unfoldable pub run : Sending → List Event → Sending
  unfolding step
  run s [] = s
  run s (e ∷ es) = run (step s e) es
