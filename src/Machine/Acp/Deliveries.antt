-- ===== src/Machine/Acp/Deliveries.antt =====
-- What the hub makes of one more message of a session.
use webmux.Base.{
  ℕ, ◌^◌, ◌<◌, ◌≡◌, refl, ◌∙◌, String, true, false, Option, none, some, List, [], ◌∷◌, ◌++◌, arith,
  string_key, leb, if◌then◌else◌,
}
use mathlib.Core.List.{append_assoc, append-nil}
use webmux.Hub.Agents.{AgentSessionRow, AgentTables}
use webmux.Hub.Agents.Statements.{find_session, bump_last_event_seq}
use webmux.Hub.Agents.Events.{insert_event}
use webmux.Hub.Agents.Messages.{announce, handle_session_event}
use webmux.Hub.Agents.Log.{Message, watermark, handle, handle_all}
use webmux.Hub.Agents.Log.Watermark.{watermark-bump}
use webmux.Hub.Wire.{Sent}
use webmux.Machine.Acp.{AgentEvent}
use webmux.Machine.Acp.Arrivals.{shown, exists, exists-update_session}

module _ (S : Type 0) (to_json : AgentEvent → String) where
  abbrev pub tables : AgentTables → List (Message AgentEvent) → AgentTables
  tables db ms = (handle_all {S = S} to_json db ms).0

  abbrev pub out : AgentTables → List (Message AgentEvent) → List (Sent S AgentEvent)
  out db ms = (handle_all to_json db ms).1

  pub handle_all-append_one :
      (db : AgentTables) (ms : List (Message AgentEvent)) (m : Message AgentEvent)
      → handle_all {S = S} to_json db (ms ++ (m ∷ [])) ≡ (
        (handle {S = S} to_json (tables db ms) m).0,
        out db ms ++ (handle to_json (tables db ms) m).1,
      )
  unfolding handle_all
  handle_all-append_one db [] m = ground (arith, append-nil (handle {S = S} to_json db m).1)
  handle_all-append_one db (n ∷ ms) m =
      let db' : AgentTables = (handle {S = S} to_json db n).0 in
      rw
        (
          handle_all-append_one db' ms m,
          append_assoc (handle to_json db n).1 (out db' ms) (handle to_json (tables db' ms) m).1,
        )
        refl

  pub silent :
      (id : String) (o : Option AgentSessionRow)
      → shown {S = S} {A = AgentEvent} id (announce id o) ≡ []
  unfolding announce
  silent id none = refl
  silent id (some row) = refl

  pub event-tables :
      (db : AgentTables) (id : String) (k now : ℕ) (event : AgentEvent)
      → exists db id ≡ true
      → (handle_session_event {S = S} to_json db id k event now).0 ≡ (
          if leb k (watermark db id)
          then db
          else bump_last_event_seq (insert_event db id k (to_json event)) id k now)
  unfolding handle_session_event find_session
  event-tables db id k now event e = ground (arith, e)

  pub event-shown :
      (db : AgentTables) (id : String) (k now : ℕ) (event : AgentEvent)
      → exists db id ≡ true
      → shown id (handle_session_event {S = S} to_json db id k event now).1
        ≡ (if leb k (watermark db id) then [] else ((k, event) ∷ []))
  unfolding handle_session_event find_session
  event-shown db id k now event e = ground (arith, e, string_key.eq_iff id id)

  pub event-counts :
      (db : AgentTables) (id : String) (k now : ℕ) (text : String)
      → k < 2 ^ 63
      → exists db id ≡ true
      → leb k (watermark db id) ≡ false
      → (watermark (bump_last_event_seq (insert_event db id k text) id k now) id ≡ k)
        × (exists (bump_last_event_seq (insert_event db id k text) id k now) id ≡ true)
  unfolding insert_event bump_last_event_seq
  event-counts db id k now text small e l = (
    ground (
      arith,
      string_key.eq_iff id id,
      watermark-bump (insert_event db id k text) id id k now small e l,
    ),
    exists-update_session (insert_event db id k text) id id _ ∙ e,
  )
