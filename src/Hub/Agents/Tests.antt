-- ===== src/Hub/Agents/Tests.antt =====
-- The log of an agent's session at concrete messages.
use webmux.Base.{ℕ, String, true, none, List, [], ◌∷◌, arith}
use webmux.Hub.Agents.{AgentTables, AgentSessionRow, pos}
use webmux.Hub.Agents.Log.{Message, happens, exits, watermark, handle_all}
use webmux.Hub.Agents.Log.Rising.{Rising, sent_seqs, handle_all-Rising}

abbrev session : AgentSessionRow
session = record {
  user_id = "u";
  machine_id = "nas";
  agent_kind = "codex";
  cwd = "/src";
  title = "src";
  status = "idle";
  auto_run = true;
  acp_session_id = none;
  workspace_group_id = none;
  available_models = "[]";
  current_model_id = none;
  requested_model_id = none;
  last_event_seq = pos 2;
  created_at = 1;
  updated_at = 1;
}

abbrev tables : AgentTables
tables = record {
  agent_sessions = ("s1", session) ∷ [];
  agent_session_events = [];
  agent_session_seen = [];
}

-- The session is resumed, and counts from 1 again.
abbrev messages : List (Message String)
messages = happens "s1" 3 "a" 5 ∷ exits "s1" 6 ∷ happens "s1" 1 "b" 7 ∷ happens "s1" 4 "c" 8 ∷ []

handle_all-Rising_example :
    Rising
      (watermark tables "s1")
      (sent_seqs {S = ℕ} {A = String} "s1" (handle_all (λ (e : String). e) tables messages).1)
handle_all-Rising_example =
    handle_all-Rising ℕ String (λ (e : String). e) tables messages "s1"
      (omega arith, (tt, (omega arith, (omega arith, tt))))
