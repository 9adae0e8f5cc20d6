-- ===== src/Hub/Agents.antt =====
-- crates/hub/src/db/agent_sessions.rs: the tables of the coding agents' sessions, of the log of their
-- events, and of what each user has read. Each function is the SQL statements that it runs, where
-- the database answers; `now` is the clock's time. A sequence number is a `u64` on the wire and an
-- `i64` in the tables. The models of a session are the JSON text that serde_json writes and reads.
pub mod Statements
pub mod Events
pub mod Names
pub mod Messages
pub mod Log
mod Tests
use webmux.Base.{
  ℕ, ◌-◌, ◌^◌, String, Bool, true, false, not, ◌&&◌, ◌||◌, Option, none, some, List, [], ◌∷◌, map,
  is_text, is_some, is_nil, ltb, leb, ◌==◌, if◌then◌else◌, string_key,
}
use webmux.Base.Map.{get, insert, modify, remove}

-- `i64`, and the casts between it and `u64`.
pub data ℤ : Type 0 where
  pos negsuc : ℕ → ℤ

abbrev pub as_i64 : ℕ → ℤ
as_i64 n = if ltb n (2 ^ 63) then pos n else negsuc (2 ^ 64 - 1 - n)

abbrev pub max_zero : ℤ → ℕ
max_zero (pos n) = n
max_zero (negsuc n) = 0

abbrev pub is_le : ℤ → ℤ → Bool
is_le (pos m) (pos n) = leb m n
is_le (pos m) (negsuc n) = false
is_le (negsuc m) (pos n) = true
is_le (negsuc m) (negsuc n) = leb n m

abbrev pub larger : ℤ → ℤ → ℤ
larger a b = if is_le a b then b else a

pub data AgentKind : Type 0 where
  claude codex grok kimi : AgentKind

pub data AgentSessionStatus : Type 0 where
  starting working asked idle error disconnected : AgentSessionStatus

unfoldable pub kind_name : AgentKind → String
kind_name claude = "claude"
kind_name codex = "codex"
kind_name grok = "grok"
kind_name kimi = "kimi"

unfoldable pub kind_from_name : String → AgentKind
kind_from_name name =
    if is_text name "codex"
    then codex
    else if is_text name "grok"
    then grok
    else if is_text name "kimi"
    then kimi
    else claude

unfoldable pub status_name : AgentSessionStatus → String
status_name starting = "starting"
status_name working = "working"
status_name asked = "asked"
status_name idle = "idle"
status_name error = "error"
status_name disconnected = "disconnected"

unfoldable pub status_from_name : String → AgentSessionStatus
status_from_name name =
    if is_text name "starting"
    then starting
    else if is_text name "working"
    then working
    else if is_text name "asked"
    then asked
    else if is_text name "idle"
    then idle
    else if is_text name "disconnected"
    then disconnected
    else error

pub record AgentSessionRow : Type 0 where
  pub user_id : String
  pub machine_id : String
  pub agent_kind : String
  pub cwd : String
  pub title : String
  pub status : String
  pub auto_run : Bool
  pub acp_session_id : Option String
  pub workspace_group_id : Option String
  pub available_models : String
  pub current_model_id : Option String
  pub requested_model_id : Option String
  pub last_event_seq : ℤ
  pub created_at : ℕ
  pub updated_at : ℕ

pub record AgentSessionInfo : Type 0 where
  pub id : String
  pub machine_id : String
  pub agent_kind : AgentKind
  pub cwd : String
  pub title : String
  pub status : AgentSessionStatus
  pub auto_run : Bool
  pub acp_session_id : Option String
  pub workspace_group_id : Option String
  pub available_models : String
  pub current_model_id : Option String
  pub last_event_seq : ℕ
  pub created_at_ms : ℕ

pub row_to_info : String → AgentSessionRow → AgentSessionInfo
unfolding kind_from_name status_from_name
row_to_info id row = record {
  id = id;
  machine_id = row.machine_id;
  agent_kind = kind_from_name row.agent_kind;
  cwd = row.cwd;
  title = row.title;
  status = status_from_name row.status;
  auto_run = row.auto_run;
  acp_session_id = row.acp_session_id;
  workspace_group_id = row.workspace_group_id;
  available_models = row.available_models;
  current_model_id = row.current_model_id;
  last_event_seq = max_zero row.last_event_seq;
  created_at_ms = row.created_at;
}

-- An event of the log: its session, its number and its JSON text.
pub record EventRow : Type 0 where
  pub session_id : String
  pub seq : ℤ
  pub event_json : String

pub record AgentTables : Type 0 where
  pub agent_sessions : List (String × AgentSessionRow)
  pub agent_session_events : List EventRow
  pub agent_session_seen : List ((String × String) × ℤ)
