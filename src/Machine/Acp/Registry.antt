-- ===== src/Machine/Acp/Registry.antt =====
-- crates/machine/src/acp.rs, `AcpManager`: which actor has which session. An actor is known by the number
-- of its start, which the channel to it stands for. Whether the process starts is an argument, with the
-- command line and the error; so is the flag of an actor that has ended.
pub mod Leaks
mod Tests
use Prim.Native.String.{◌++◌}
use webmux.Base.{
  ℕ, suc, String, Bool, true, false, Option, none, some, List, [], ◌∷◌, Result, ok, err,
  if◌then◌else◌, nat_key, string_key,
}
use webmux.Base.Map.{get, insert, remove}
use webmux.Hub.Agents.{AgentKind, claude, codex, grok, kimi, AgentSessionStatus, kind_name}
use webmux.Hub.Wire.{
  MachineToHub, agent_session_update, agent_session_happened, agent_session_exited,
}
use webmux.Machine.Acp.{
  AgentEvent, SessionCommand, prompt, answer, set_model, cancel, kill, unwrap_or,
}
use webmux.Machine.Acp.Outputs.{only_status}

-- `default_agent_commands`, under the key of a kind, which is its name.
unfoldable pub default_agent_command : AgentKind → List String
default_agent_command kimi = "kimi" ∷ "acp" ∷ []
default_agent_command grok = "grok" ∷ "agent" ∷ "stdio" ∷ []
default_agent_command claude = "npx" ∷ "--yes" ∷ "@zed-industries/claude-code-acp" ∷ []
default_agent_command codex = "npx" ∷ "--yes" ∷ "@zed-industries/codex-acp" ∷ []

-- The first word is looked up by `find`: a bare name that is not on the path has its known place.
unfoldable pub resolve_agent_command :
    (String → Option String) → List (String × List String) → AgentKind → List String
unfolding default_agent_command kind_name
resolve_agent_command find overrides kind =
    elim (unwrap_or (get (kind_name kind) overrides) (default_agent_command kind)) [
      | [] ↦ []
      | name ∷ args ↦ unwrap_or (find name) name ∷ args
    ]

pub data Act : Type 0 where
  spawns : (actor : ℕ) (session_id : String) → Act
  delivers : (actor : ℕ) → SessionCommand → Act
  sends : MachineToHub (Unit {0}) AgentEvent → Act

-- What was done, the newest first.
pub record AcpManager : Type 0 where
  pub sessions : List (String × ℕ)
  pub started : ℕ
  pub acts : List Act

abbrev pub act : Act → AcpManager → AcpManager
act a m = record m { acts = a ∷ m.acts }

abbrev pub new : AcpManager
new = record { sessions = []; started = 0; acts = [] }

unfoldable pub kill_session : String → AcpManager → AcpManager
kill_session id m = elim (get id m.sessions) [
  | none ↦ m
  | some actor ↦ act (delivers actor kill) (record m { sessions = remove id m.sessions })
]

-- A process that does not start is reported as an error, and as an exit.
unfoldable pub not_spawned : String → String → AcpManager → AcpManager
not_spawned id message m = act (sends (agent_session_exited id "spawn failed")) (
    act (sends (agent_session_update id (only_status AgentSessionStatus.error)))
      (act (sends (agent_session_happened id 1 (AgentEvent.error message))) m))

unfoldable pub start_session :
    String → Result (Unit {0}) (String × String) → AcpManager → AcpManager
unfolding kill_session not_spawned
start_session id spawned m =
    let m' = kill_session id m in
    elim spawned [
      | err (argv, error) ↦ not_spawned id ("failed to spawn " ++ (argv ++ (": " ++ error))) m'
      | ok _ ↦
          act (spawns m'.started id)
            (record m' { sessions = insert id m'.started m'.sessions; started = suc m'.started })
    ]

unfoldable pub send_command : String → SessionCommand → (ℕ → Bool) → AcpManager → AcpManager
send_command id c has_ended m = elim (get id m.sessions) [
  | none ↦ m
  | some actor ↦ if has_ended actor then m else act (delivers actor c) m
]

unfoldable pub kill_each : List (String × ℕ) → AcpManager → AcpManager
kill_each [] m = m
kill_each ((id, actor) ∷ handles) m = kill_each handles (act (delivers actor kill) m)

unfoldable pub kill_all : AcpManager → AcpManager
unfolding kill_each
kill_all m = kill_each m.sessions (record m { sessions = [] })

-- What the connection to the hub calls: `prompt`, `answer`, `cancel` and `set_model` send a command.
pub data Call : Type 0 where
  starts : String → Result (Unit {0}) (String × String) → Call
  tells : String → SessionCommand → (ℕ → Bool) → Call
  ends : String → Call

unfoldable pub call : Call → AcpManager → AcpManager
unfolding start_session send_command kill_session
call (starts id spawned) m = start_session id spawned m
call (tells id c has_ended) m = send_command id c has_ended m
call (ends id) m = kill_session id m

unfoldable pub calls : List Call → AcpManager → AcpManager
unfolding call
calls [] m = m
calls (c ∷ cs) m = calls cs (call c m)
