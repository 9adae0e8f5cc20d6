-- ===== src/Hub/Agents/Messages.antt =====
-- crates/hub/src/machine_manager.rs, `handle_machine_message` for the messages on agent sessions, where
-- the database answers: the tables afterwards, and the events sent to browsers. `to_json` is serde_json's
-- text of an event. Each handler runs whole.
use webmux.Base.{ℕ, String, Option, none, some, List, [], ◌∷◌, leb, if◌then◌else◌}
use webmux.Hub.Agents.{max_zero, disconnected, AgentSessionRow, row_to_info, AgentTables}
use webmux.Hub.Agents.Statements.{
  SessionUpdate, apply_update, set_status, find_session, bump_last_event_seq,
  mark_machine_sessions_disconnected,
}
use webmux.Hub.Agents.Events.{insert_event}
use webmux.Hub.Wire.{agent_session_updated, agent_session_event, Sent, sent}

module _ {S A : Type 0} where
  unfoldable pub announce : String → Option AgentSessionRow → List (Sent S A)
  unfolding row_to_info
  announce id none = []
  announce id (some row) = sent (some row.user_id) (agent_session_updated (row_to_info id row)) ∷ []

  unfoldable pub handle_session_update :
      AgentTables → String → SessionUpdate → ℕ → AgentTables × List (Sent S A)
  unfolding announce
  handle_session_update db id update now =
      let db' = apply_update db id update now in (db', announce id (find_session db' id))

  unfoldable pub handle_session_exited : AgentTables → String → ℕ → AgentTables × List (Sent S A)
  unfolding announce
  handle_session_exited db id now =
      let db' = set_status db id disconnected now in (db', announce id (find_session db' id))

  unfoldable pub handle_session_event :
      (A → String) → AgentTables → String → ℕ → A → ℕ → AgentTables × List (Sent S A)
  handle_session_event to_json db id seq event now = elim (find_session db id) [
    | none ↦ (db, [])
    | some row ↦ if leb seq (max_zero row.last_event_seq) then (db, []) else (
      bump_last_event_seq (insert_event db id seq (to_json event)) id seq now,
      sent (some row.user_id) (agent_session_event id seq event) ∷ [],
    )
  ]

  unfoldable pub announce_all : List (String × AgentSessionRow) → List (Sent S A)
  unfolding announce
  announce_all [] = []
  announce_all ((id, row) ∷ rows) =
      sent (some row.user_id) (agent_session_updated (row_to_info id row)) ∷ announce_all rows

  -- `unregister_machine`: the sessions of a machine end with its connection.
  unfoldable pub disconnect_sessions : AgentTables → String → ℕ → AgentTables × List (Sent S A)
  unfolding announce_all
  disconnect_sessions db machine now =
      let (db', rows) = mark_machine_sessions_disconnected db machine now in
      (db', announce_all rows)
