-- ===== src/Machine/Acp/Handshake.antt =====
-- crates/machine/src/acp.rs: the handshake of a session with its agent, and the agent's answers. An
-- error is a panic, with its message.
use Prim.Native.String.{◌++◌}
use webmux.Base.{
  ℕ, String, Bool, true, false, not, ◌||◌, Option, none, some, List, [], ◌∷◌, Result, ok, is_some,
  is_nil, if◌then◌else◌, nat_key,
}
use webmux.Base.Map.{get, remove}
use webmux.Hub.Agents.{AgentSessionStatus, idle, asked}
use webmux.Machine.Acp.{
  AgentModelInfo, AgentEvent, turn_ended, Json, PendingRpc, initialize, session_new, session_load,
  prompt_sent, set_model_sent, kills, SessionActor, unwrap_or,
}
use webmux.Machine.Acp.Values.{str_at, parse_session_models}
use webmux.Machine.Acp.Outputs.{effect, emit_event, send_update, send_status, send_request}
use webmux.Machine.Acp.Commands.{handle_set_model, flush_queued_commands}

module _ (json : Json) where
  unfoldable pub adopt_models :
      List AgentModelInfo × Option String → SessionActor json.Value → SessionActor json.Value
  adopt_models (models, current) s = record s {
    supports_models = not (is_nil models) || is_some current;
    available_models = models;
    current_model_id = current;
  }

  abbrev pub with_modes : Option json.Value → SessionActor json.Value → SessionActor json.Value
  with_modes none s = s
  with_modes (some modes) s = record s { modes = some modes }

  unfoldable pub adopt_session_config :
      json.Value → Bool → SessionActor json.Value → SessionActor json.Value
  unfolding adopt_models
  adopt_session_config result replace s =
      with_modes (json.get result "modes") (elim (parse_session_models json result) [
        | some parsed ↦ adopt_models parsed s
        | none ↦ if replace then adopt_models ([], none) s else s
      ])

  abbrev pub not_applied : String → String
  not_applied model_id =
      "this agent does not support model selection; requested model \""
      ++ (model_id ++ "\" was not applied")

  unfoldable pub apply_requested_model_then_flush :
      SessionActor json.Value → Result (SessionActor json.Value) String
  unfolding emit_event
  apply_requested_model_then_flush s = elim s.requested_model_id [
    | none ↦ flush_queued_commands json s
    | some model_id ↦
        let s' = record s { requested_model_id = none } in
        if s.supports_models
        then ok (handle_set_model json model_id (record s' { flush_after_set_model = true }))
        else flush_queued_commands json (emit_event (AgentEvent.error (not_applied model_id)) s')
  ]

  unfoldable pub start_acp_session_fresh : SessionActor json.Value → SessionActor json.Value
  start_acp_session_fresh s =
      send_request json session_new "session/new"
        (json.object (("cwd", json.text s.cwd) ∷ ("mcpServers", json.array []) ∷ [])) s

  unfoldable pub start_acp_session : SessionActor json.Value → SessionActor json.Value
  unfolding start_acp_session_fresh
  start_acp_session s = elim s.resume_acp_session_id [
    | none ↦ start_acp_session_fresh s
    | some id ↦
        send_request json session_load "session/load"
          (json.object (
            ("sessionId", json.text id)
            ∷ ("cwd", json.text s.cwd)
            ∷ ("mcpServers", json.array [])
            ∷ []))
          (record s { suppress_updates = true })
  ]

  unfoldable pub fail : String → SessionActor json.Value → SessionActor json.Value
  unfolding emit_event send_status effect
  fail message s =
      if s.failed
      then s
      else effect kills (
          send_status AgentSessionStatus.error (
            emit_event (AgentEvent.error message)
              (record s { failed = true; queued_commands = [] })))

  unfoldable pub debug_rpc : PendingRpc → String
  debug_rpc initialize = "Initialize"
  debug_rpc session_new = "SessionNew"
  debug_rpc session_load = "SessionLoad"
  debug_rpc prompt_sent = "Prompt"
  debug_rpc (set_model_sent model_id) = "SetModel { model_id: " ++ (json.debug model_id ++ " }")

  unfoldable pub on_handshake_timeout : ℕ → SessionActor json.Value → SessionActor json.Value
  unfolding fail debug_rpc
  on_handshake_timeout id s = elim (get id s.pending) [
    | none ↦ s
    | some kind ↦
        fail ("ACP " ++ (debug_rpc kind ++ " timed out after 150s"))
          (record s { pending = remove id s.pending })
  ]

  -- The end of a change of model, also of the first one, which the queue waits for.
  unfoldable pub flush_after : SessionActor json.Value → Result (SessionActor json.Value) String
  flush_after s =
      if s.flush_after_set_model
      then flush_queued_commands json (record s { flush_after_set_model = false })
      else ok s

  unfoldable pub handle_rpc_error :
      PendingRpc → String → SessionActor json.Value → Result (SessionActor json.Value) String
  unfolding emit_event start_acp_session_fresh fail send_status flush_after
  handle_rpc_error session_load text s = ok (
      start_acp_session_fresh (
        emit_event (AgentEvent.error ("session history was not restored: " ++ text))
          (record s { suppress_updates = false })))
  handle_rpc_error initialize text s = ok (fail ("ACP handshake failed: " ++ text) s)
  handle_rpc_error session_new text s = ok (fail ("ACP handshake failed: " ++ text) s)
  handle_rpc_error prompt_sent text s = ok (send_status idle (emit_event (AgentEvent.error text) s))
  handle_rpc_error (set_model_sent model_id) text s = flush_after (
      emit_event (AgentEvent.error ("model \"" ++ (model_id ++ ("\" was not applied: " ++ text))))
        s)

  -- The answer to `session/new`: what the session takes over and announces.
  unfoldable pub adopt_new : json.Value → SessionActor json.Value → SessionActor json.Value
  unfolding adopt_session_config send_update
  adopt_new result s =
      let s' =
        adopt_session_config result true (record s {
          suppress_updates = false;
          acp_session_id = str_at json result "sessionId";
        }) in
      send_update
        (record {
          status = some idle;
          title = none;
          acp_session_id = s'.acp_session_id;
          available_models = some (json.models_text s'.available_models);
          current_model_id = s'.current_model_id;
        })
        s'

  unfoldable pub handle_result :
      PendingRpc → json.Value → SessionActor json.Value → Result (SessionActor json.Value) String
  unfolding start_acp_session adopt_new adopt_session_config send_status send_update emit_event
      apply_requested_model_then_flush flush_after
  handle_result initialize result s = ok (start_acp_session s)
  handle_result session_new result s = apply_requested_model_then_flush (adopt_new result s)
  handle_result session_load result s = apply_requested_model_then_flush (
      send_status idle (
        adopt_session_config result false
          (record s { suppress_updates = false; acp_session_id = s.resume_acp_session_id })))
  handle_result prompt_sent result s = ok (
      send_status (if is_some s.pending_question then asked else idle)
        (emit_event (turn_ended (unwrap_or (str_at json result "stopReason") "end_turn")) s))
  handle_result (set_model_sent model_id) result s = flush_after (
      send_update
        (record {
          status = none;
          title = none;
          acp_session_id = none;
          available_models = none;
          current_model_id = some model_id;
        })
        (record s { current_model_id = some model_id }))

  -- The answer to a request that is in flight.
  unfoldable pub settle :
      PendingRpc → json.Value → SessionActor json.Value → Result (SessionActor json.Value) String
  unfolding handle_rpc_error handle_result
  settle kind message s = elim (json.get message "error") [
    | some e ↦
        handle_rpc_error kind (unwrap_or (str_at json e "message") "unknown JSON-RPC error") s
    | none ↦ handle_result kind (unwrap_or (json.get message "result") json.null) s
  ]

  unfoldable pub handle_response :
      ℕ → json.Value → SessionActor json.Value → Result (SessionActor json.Value) String
  unfolding settle
  handle_response id message s = elim (get id s.pending) [
    | none ↦ ok s
    | some kind ↦ settle kind message (record s { pending = remove id s.pending })
  ]
