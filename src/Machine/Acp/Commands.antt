-- ===== src/Machine/Acp/Commands.antt =====
-- crates/machine/src/acp.rs: the commands of the hub to a session. An error is a panic, with its message.
use webmux.Base.{
  String, Option, none, some, List, [], ◌∷◌, ◌++◌ as append, Result, ok, err, ◌>>=◌, length, leb,
  is_some, is_text, if◌then◌else◌,
}
use webmux.Hub.Agents.{working}
use webmux.Machine.Acp.{
  AgentEvent, user_message, question_resolved, Json, SessionCommand, prompt, answer, set_model,
  cancel, kill, prompt_sent, set_model_sent, SessionActor, max_queued_commands,
}
use webmux.Machine.Acp.Outputs.{
  emit_event, send_status, send_request, send_notification, selected, cancelled, write_outcome,
  kill_child,
}

abbrev pub no_session : String
no_session = "execute_command only runs once the ACP session exists"

abbrev pub no_models : String
no_models = "this agent does not support model switching"

abbrev pub not_started : String
not_started = "agent session failed to start"

abbrev pub queue_full : String
queue_full = "agent session is still starting and its command queue is full (16)"

module _ (json : Json) where
  unfoldable pub handle_prompt :
      String → SessionActor json.Value → Result (SessionActor json.Value) String
  unfolding emit_event send_status send_request
  handle_prompt text s = elim s.acp_session_id [
    | none ↦ err no_session
    | some id ↦ ok (
        send_request json prompt_sent "session/prompt"
          (json.object (
            ("sessionId", json.text id)
            ∷ (
              "prompt",
              json.array
                  (json.object (("type", json.text "text") ∷ ("text", json.text text) ∷ []) ∷ []),
            )
            ∷ []))
          (send_status working (emit_event (user_message text) s)))
  ]

  unfoldable pub handle_set_model : String → SessionActor json.Value → SessionActor json.Value
  unfolding emit_event send_request
  handle_set_model model_id s =
      if s.supports_models
      then elim s.acp_session_id [
        | none ↦ s
        | some id ↦
            send_request json (set_model_sent model_id) "session/set_model"
              (json.object (("sessionId", json.text id) ∷ ("modelId", json.text model_id) ∷ [])) s
      ]
      else emit_event (AgentEvent.error no_models) s

  -- An answer is taken by the question with its id, and otherwise dropped.
  unfoldable pub handle_answer :
      String → Option String → Option String → SessionActor json.Value → SessionActor json.Value
  unfolding emit_event send_status write_outcome
  handle_answer request_id option_id text s = elim s.pending_question [
    | none ↦ s
    | some (id, rpc_id) ↦
        if is_text id request_id
        then send_status working (
            emit_event (question_resolved request_id) (
              write_outcome json rpc_id
                (elim option_id [ none ↦ cancelled json | some o ↦ selected json o ])
                (record s { pending_question = none })))
        else s
  ]

  unfoldable pub execute_command :
      SessionCommand → SessionActor json.Value → Result (SessionActor json.Value) String
  unfolding handle_prompt handle_answer handle_set_model send_notification kill_child
  execute_command (prompt text) s = handle_prompt text s
  execute_command (answer request_id option_id text) s =
      ok (handle_answer request_id option_id text s)
  execute_command (set_model model_id) s = ok (handle_set_model model_id s)
  execute_command cancel s = ok (elim s.acp_session_id [
    | none ↦ s
    | some id ↦
        send_notification json "session/cancel" (json.object (("sessionId", json.text id) ∷ [])) s
  ])
  execute_command kill s = ok (kill_child json s)

  -- The loop takes each command off the queue before it runs.
  unfoldable pub flush_loop :
      List SessionCommand → SessionActor json.Value → Result (SessionActor json.Value) String
  unfolding execute_command
  flush_loop [] s = ok s
  flush_loop (c ∷ cs) s = execute_command c (record s { queued_commands = cs }) >>= flush_loop cs

  unfoldable pub flush_queued_commands :
      SessionActor json.Value → Result (SessionActor json.Value) String
  unfolding flush_loop
  flush_queued_commands s = flush_loop s.queued_commands s

  -- A command that is not a kill: it runs, or is refused, or waits for the session.
  unfoldable pub handle_command_unless_kill :
      SessionCommand → SessionActor json.Value → Result (SessionActor json.Value) String
  unfolding execute_command emit_event
  handle_command_unless_kill c s =
      if is_some s.acp_session_id
      then execute_command c s
      else if s.failed
      then ok (emit_event (AgentEvent.error not_started) s)
      else if leb max_queued_commands (length s.queued_commands)
      then ok (emit_event (AgentEvent.error queue_full) s)
      else ok (record s { queued_commands = append s.queued_commands (c ∷ []) })

  unfoldable pub handle_command :
      SessionCommand → SessionActor json.Value → Result (SessionActor json.Value) String
  unfolding handle_command_unless_kill kill_child
  handle_command kill s = ok (kill_child json (record s { queued_commands = [] }))
  handle_command (prompt text) s = handle_command_unless_kill (prompt text) s
  handle_command (answer request_id option_id text) s =
      handle_command_unless_kill (answer request_id option_id text) s
  handle_command (set_model model_id) s = handle_command_unless_kill (set_model model_id) s
  handle_command cancel s = handle_command_unless_kill cancel s
