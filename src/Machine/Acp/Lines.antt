-- ===== src/Machine/Acp/Lines.antt =====
-- crates/machine/src/acp.rs: the lines of an agent, and the loop of a session. An error is a panic, with
-- its message.
use Prim.Native.String.{◌++◌}
use webmux.Base.{
  String, Bool, true, false, Option, none, some, List, [], ◌∷◌, map, Result, ok, ◌>>=◌, is_text,
  if◌then◌else◌,
}
use webmux.Hub.Agents.{asked}
use webmux.Hub.Wire.{agent_session_exited}
use webmux.Machine.Acp.{
  question, Json, ActorMsg, command, line, eof, handshake_timeout, initialize, sends, kills,
  SessionActor, unwrap_or, and_then,
}
use webmux.Machine.Acp.Values.{
  str_at, array_at, map_session_update, rpc_id_string, allowed, question_option,
}
use webmux.Machine.Acp.Outputs.{
  effect, emit_event, send_status, write_message, send_request, selected, cancelled, write_outcome,
}
use webmux.Machine.Acp.Commands.{handle_command}
use webmux.Machine.Acp.Handshake.{on_handshake_timeout, handle_response}

module _ (json : Json) where
  unfoldable pub handle_session_update :
      json.Value → SessionActor json.Value → SessionActor json.Value
  unfolding emit_event
  handle_session_update message s =
      let update =
        unwrap_or (and_then (json.get message "params") (λ params. json.get params "update"))
          json.null in
      if s.suppress_updates
      then s
      else elim (map_session_update json update) [ none ↦ s | some event ↦ emit_event event s ]

  -- A permission request with its id: auto-run answers it at once, and else the user is asked.
  unfoldable pub ask : json.Value → json.Value → SessionActor json.Value → SessionActor json.Value
  unfolding write_outcome emit_event send_status question_option
  ask rpc_id params s =
      let options = unwrap_or (array_at json params "options") [] in
      if s.auto_run
      then write_outcome json rpc_id
          (elim (allowed json options) [ none ↦ cancelled json | some o ↦ selected json o ]) s
      else let request_id = rpc_id_string json rpc_id in
        send_status asked (
          emit_event
            (question request_id
              (unwrap_or (and_then (json.get params "toolCall") (λ call. str_at json call "title"))
                "Permission requested")
              (map (question_option json) options))
            (record s { pending_question = some (request_id, rpc_id) }))

  unfoldable pub handle_permission_request :
      json.Value → SessionActor json.Value → SessionActor json.Value
  unfolding ask
  handle_permission_request message s = elim (json.get message "id") [
    | none ↦ s
    | some rpc_id ↦ ask rpc_id (unwrap_or (json.get message "params") json.null) s
  ]

  unfoldable pub refuse_method :
      String → json.Value → SessionActor json.Value → SessionActor json.Value
  unfolding write_message
  refuse_method method message s = elim (json.get message "id") [
    | none ↦ s
    | some id ↦
        write_message json
          (json.object (
            ("jsonrpc", json.text "2.0")
            ∷ ("id", id)
            ∷ (
              "error",
              json.object (
                  ("code", json.negative 32601)
                  ∷ ("message", json.text ("method not found: " ++ method))
                  ∷ []),
            )
            ∷ []))
          s
  ]

  -- A request or a notification of the agent.
  unfoldable pub handle_method :
      String → json.Value → SessionActor json.Value → SessionActor json.Value
  unfolding handle_session_update handle_permission_request refuse_method
  handle_method method message s =
      if is_text method "session/update"
      then handle_session_update message s
      else if is_text method "session/request_permission"
      then handle_permission_request message s
      else refuse_method method message s

  unfoldable pub handle_message :
      json.Value → SessionActor json.Value → Result (SessionActor json.Value) String
  unfolding handle_method
  handle_message message s = elim (str_at json message "method") [
    | some method ↦ ok (handle_method method message s)
    | none ↦ elim (and_then (json.get message "id") json.as_u64) [
      | none ↦ ok s
      | some id ↦ handle_response json id message s
    ]
  ]

  unfoldable pub handle_line :
      String → SessionActor json.Value → Result (SessionActor json.Value) String
  unfolding handle_message
  handle_line text s = elim (json.from_str text) [
    | none ↦ ok s
    | some message ↦ handle_message message s
  ]

  unfoldable pub on_eof : String → Option String → SessionActor json.Value → SessionActor json.Value
  unfolding effect
  on_eof reason status s =
      let note : String = elim status [ none ↦ "" | some t ↦ " (" ++ (t ++ ")") ] in
      if s.ended
      then s
      else effect (sends (agent_session_exited s.session_id (reason ++ note)))
          (record s { ended = true; queued_commands = [] })

  unfoldable pub handle :
      ActorMsg → SessionActor json.Value → Result (SessionActor json.Value) String
  unfolding handle_line on_eof
  handle (command c) s = handle_command json c s
  handle (line text) s = handle_line text s
  handle (eof reason status) s = ok (on_eof reason status s)
  handle (handshake_timeout id) s = ok (on_handshake_timeout json id s)

  unfoldable pub begin : SessionActor json.Value → SessionActor json.Value
  begin s =
      send_request json initialize "initialize"
        (json.object (
          ("protocolVersion", json.number 1)
          ∷ (
            "clientCapabilities",
            json.object (
                (
                  "fs",
                  json.object (
                      ("readTextFile", json.boolean false)
                      ∷ ("writeTextFile", json.boolean false)
                      ∷ []),
                )
                ∷ []),
          )
          ∷ []))
        s

  -- The loop over the messages that arrive. The end of the output ends it, and kills the child.
  unfoldable pub loop :
      List ActorMsg → SessionActor json.Value → Result (SessionActor json.Value) String
  unfolding handle effect
  loop [] s = ok s
  loop (m ∷ ms) s =
      handle m s >>= λ s'. let rest = loop ms s' in if s'.ended then ok (effect kills s') else rest

  -- The state in which `start_session` spawns the actor.
  unfoldable pub new :
      String → String → Bool → Option String → Option String → SessionActor json.Value
  new session_id cwd auto_run resume requested = record {
    session_id = session_id;
    cwd = cwd;
    auto_run = auto_run;
    seq = 0;
    acp_session_id = none;
    resume_acp_session_id = resume;
    suppress_updates = false;
    failed = false;
    pending_question = none;
    queued_commands = [];
    pending = [];
    next_rpc_id = 1;
    available_models = [];
    current_model_id = none;
    supports_models = false;
    requested_model_id = requested;
    flush_after_set_model = false;
    modes = none;
    ended = false;
    effects = [];
  }

  unfoldable pub run :
      List ActorMsg → SessionActor json.Value → Result (SessionActor json.Value) String
  unfolding loop begin
  run ms s = loop ms (begin s)
