-- ===== src/Hub/Agents/Log.antt =====
-- The events of one agent session that browsers are sent, over any sequence of messages from machines.
pub mod Watermark
pub mod Rising
use webmux.Base.{
  is_some, ap, sym, subst, ℕ, ◌<◌, ◌^◌, ◌∙◌, String, ◌≡◌, refl, true, false, Option, none, some,
  List, [], ◌∷◌, ◌++◌, All, leb, if◌then◌else◌, arith, string_key, is_text,
}
use mathlib.Core.List.{append_assoc}
use webmux.Base.Map.{get, modify, get-modify, mapped}
use webmux.Hub.Agents.{
  ℤ, pos, negsuc, as_i64, max_zero, larger, AgentSessionRow, AgentTables, status_name, disconnected,
}
use webmux.Hub.Agents.Statements.{
  SessionUpdate, update_field, update_session, apply_update, set_status, find_session,
  bump_last_event_seq, mark_machine_sessions_disconnected, disconnect_all, disconnected_rows,
}
use webmux.Hub.Agents.Events.{insert_event}
use webmux.Hub.Agents.Messages.{
  announce, announce_all, handle_session_update, handle_session_exited, handle_session_event,
  disconnect_sessions,
}
use webmux.Hub.Wire.{BrowserEvent, agent_session_event, Sent}

-- What reaches the hub, with the clock's time: three messages of a machine, and the end of its connection.
pub data Message (A : Type 0) : Type 0 where
  updates : String → SessionUpdate → ℕ → Message A
  happens : String → ℕ → A → ℕ → Message A
  exits : String → ℕ → Message A
  leaves : String → ℕ → Message A

-- A sequence number of a message is below the limit of an `i64`.
abbrev pub IsSmall : {A : Type 0} → Message A → Type 0
IsSmall (happens id seq event now) = seq < 2 ^ 63
IsSmall m = Unit

abbrev pub watermark_of : Option AgentSessionRow → ℕ
watermark_of none = 0
watermark_of (some row) = max_zero row.last_event_seq

abbrev pub watermark : AgentTables → String → ℕ
watermark db id = watermark_of (get id db.agent_sessions)

module _ {S A : Type 0} (to_json : A → String) where
  unfoldable pub handle : AgentTables → Message A → AgentTables × List (Sent S A)
  handle db (updates id u now) = handle_session_update db id u now
  handle db (happens id seq event now) = handle_session_event to_json db id seq event now
  handle db (exits id now) = handle_session_exited db id now
  handle db (leaves machine now) = disconnect_sessions db machine now

  unfoldable pub handle_all : AgentTables → List (Message A) → AgentTables × List (Sent S A)
  handle_all db [] = (db, [])
  handle_all db (m ∷ ms) =
      let (db', out) = handle db m in let (db'', rest) = handle_all db' ms in (db'', out ++ rest)
