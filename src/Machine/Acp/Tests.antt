-- ===== src/Machine/Acp/Tests.antt =====
-- crates/machine/src/acp.rs at concrete inputs, with JSON values as trees: arrays and objects are chains,
-- and a line stands for the message that it names.
use webmux.Base.{
  arith, ℕ, ◌≡◌, refl, String, Bool, false, Option, none, some, List, [], ◌∷◌, Result, ok, err,
  is_text, if◌then◌else◌, string_key, nat_key,
}
use webmux.Base.{◌+◌}
use webmux.Hub.Agents.{working}
use webmux.Hub.Wire.{agent_session_update, agent_session_happened}
use webmux.Machine.Acp.{
  question_resolved, sends, writes, u64, agent_message_chunk, Json, SessionActor, prompt, cancel,
  ActorMsg, command, line, session_new,
}
use webmux.Base.Map.{get, insert, remove}
use webmux.Machine.Acp.Values.{parse_session_models, map_session_update, rpc_id_string}
use webmux.Machine.Acp.Commands.{flush_queued_commands, handle_command, handle_answer, no_session}
use webmux.Machine.Acp.Handshake.{handle_response}
use webmux.Machine.Acp.Questions.{only_last_question}
use webmux.Machine.Acp.Panics.{Meets, run-Meets}
use webmux.Machine.Acp.Early.{early_commands}
use webmux.Hub.Agents.{AgentSessionRow, AgentTables, pos}
use webmux.Hub.Agents.Log.{handle_all}
use webmux.Machine.Acp.Outputs.{
  effect, write_message, send_request, only_status, response, selected,
}
use webmux.Machine.Acp.Lines.{begin, loop, new, run, ask}
use webmux.Machine.Acp.Arrivals.{arrivals, shown}
use webmux.Machine.Acp.Transcript.{shown-run}

data Value : Type 0 where
  null : Value
  text : String → Value
  number negative : ℕ → Value
  boolean : Bool → Value
  nil end : Value
  item : Value → Value → Value
  field : String → Value → Value → Value

abbrev array : List Value → Value
array [] = nil
array (v ∷ vs) = item v (array vs)

abbrev object : List (String × Value) → Value
object [] = end
object ((k, v) ∷ fields) = field k v (object fields)

abbrev get_field : Value → String → Option Value
get_field (field k v rest) key = if is_text k key then some v else get_field rest key
get_field null key = none
get_field (text t) key = none
get_field (number n) key = none
get_field (negative n) key = none
get_field (boolean b) key = none
get_field nil key = none
get_field end key = none
get_field (item v vs) key = none

abbrev as_str : Value → Option String
as_str (text t) = some t
as_str v = none

abbrev as_u64 : Value → Option ℕ
as_u64 (number n) = some n
as_u64 v = none

abbrev as_array : Value → Option (List Value)
as_array nil = some []
as_array (item v vs) = elim (as_array vs) [ none ↦ none | some us ↦ some (v ∷ us) ]
as_array null = none
as_array (text t) = none
as_array (number n) = none
as_array (negative n) = none
as_array (boolean b) = none
as_array end = none
as_array (field k v rest) = none

-- The answers to the first two requests, and an update.
abbrev answer_to : ℕ → Value → Value
answer_to id result = object (("id", number id) ∷ ("result", result) ∷ [])

abbrev named_result : Value
named_result = object (("sessionId", text "acp-1") ∷ [])

abbrev update : Value
update = object (
    ("method", text "session/update")
    ∷ (
      "params",
      object (
          (
            "update",
            object (
                ("sessionUpdate", text "agent_message_chunk")
                ∷ ("content", object (("text", text "hello") ∷ []))
                ∷ []),
          )
          ∷ []),
    )
    ∷ [])

abbrev from_str : String → Option Value
from_str s =
    if is_text s "initialized"
    then some (answer_to 1 end)
    else if is_text s "created"
    then some (answer_to 2 named_result)
    else if is_text s "loaded"
    then some (answer_to 2 end)
    else if is_text s "update"
    then some update
    else none

abbrev json : Json
json = record {
  Value = Value;
  from_str = from_str;
  to_string = λ v. "value";
  get = get_field;
  as_str = as_str;
  as_u64 = as_u64;
  as_array = as_array;
  null = null;
  text = text;
  number = number;
  negative = negative;
  boolean = boolean;
  array = array;
  object = object;
  models_text = λ models. "[]";
  debug = λ s. s;
}

abbrev actor : Option String → SessionActor Value
actor resume = new json "s1" "/src" false resume none

-- A session that is resumed, with a prompt and a reply.
abbrev resumed : List ActorMsg
resumed = line "initialized" ∷ line "loaded" ∷ command (prompt "hi") ∷ line "update" ∷ []

abbrev last : Result (SessionActor Value) String → SessionActor Value
last (ok s) = s
last (err e) = actor none

-- What the hub has of it: two events of an earlier run.
abbrev row : AgentSessionRow
row = record {
  user_id = "u";
  machine_id = "nas";
  agent_kind = "codex";
  cwd = "/src";
  title = "src";
  status = "starting";
  auto_run = false;
  acp_session_id = some "acp-1";
  workspace_group_id = none;
  available_models = "[]";
  current_model_id = none;
  requested_model_id = none;
  last_event_seq = pos 1;
  created_at = 1;
  updated_at = 1;
}

abbrev db : AgentTables
db = record {
  agent_sessions = ("s1", row) ∷ [];
  agent_session_events = [];
  agent_session_seen = [];
}

abbrev final : SessionActor Value
final = last (run json resumed (actor (some "acp-1")))

final_is : run json resumed (new json "s1" "/src" false (some "acp-1") none) ≡ ok final
unfolding run loop begin new send_request write_message effect get insert remove handle_response
    parse_session_models flush_queued_commands handle_command map_session_update
final_is = refl

-- The prompt is lost: its number is the one of an old event.
shown-run_example :
    shown final.session_id
      (handle_all {S = ℕ} (λ e. "event") db (arrivals (λ n. n) final.effects)).1
    ≡ (2, agent_message_chunk "hello") ∷ []
unfolding run loop begin new send_request write_message effect get insert remove handle_response
    parse_session_models flush_queued_commands handle_command map_session_update
shown-run_example =
    shown-run ℕ (λ e. "event") json (λ n. n) db resumed "s1" "/src" false (some "acp-1") none final
      final_is refl (omega arith)

-- A prompt waits, and the agent's answer names no session.
abbrev nameless : List ActorMsg
nameless = command (prompt "hi") ∷ line "initialized" ∷ line "loaded" ∷ []

panics : run json nameless (new json "s1" "/src" false none none) ≡ err no_session
unfolding run loop begin new send_request write_message effect get insert remove handle_response
    parse_session_models flush_queued_commands handle_command map_session_update
panics = refl

run-Meets_example : Meets json nameless (begin json (new json "s1" "/src" false none none))
run-Meets_example = run-Meets json nameless "s1" "/src" false none none no_session panics

abbrev waiting : SessionActor Value
waiting = record (actor none) {
  pending = (2, session_new) ∷ [];
  queued_commands = prompt "hi" ∷ [];
  next_rpc_id = 3;
}

abbrev idle_actor : SessionActor Value
idle_actor = record waiting { queued_commands = [] }

early_commands_example :
    loop json (command (prompt "hi") ∷ command cancel ∷ line "created" ∷ []) idle_actor
    ≡ loop json (line "created" ∷ command (prompt "hi") ∷ command cancel ∷ []) idle_actor
unfolding get new
early_commands_example =
    early_commands json "created" (answer_to 2 named_result) 2 "acp-1" (prompt "hi" ∷ cancel ∷ [])
      idle_actor refl refl refl refl refl refl refl refl refl refl refl (tt, (tt, tt)) (omega arith)

only_last_question_example :
    let asked = ask json (text "b") null (ask json (text "a") null (actor none)) in
    let done = handle_answer json "b" (some "yes") none asked in
    (done.effects ≡ (
      sends (agent_session_update (actor none).session_id (only_status working))
      ∷ sends (
          agent_session_happened
            (actor none).session_id
            (u64 (asked.seq + 1))
            (question_resolved "b"))
      ∷ writes (response json (text "b") (json.object (("outcome", selected json "yes") ∷ [])))
      ∷ asked.effects))
    × (done.pending_question ≡ none)
    × (handle_answer json "a" (some "no") none asked ≡ asked)
    × (handle_answer json "a" (some "no") none done ≡ done)
    × (handle_answer json "b" (some "no") none done ≡ done)
unfolding rpc_id_string new
only_last_question_example =
    only_last_question json (actor none) (text "a") (text "b") null null (some "yes") (some "no")
      none none refl (λ e. ground (arith, string_key.eq_iff "a" "b", e))
