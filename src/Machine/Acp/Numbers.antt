-- ===== src/Machine/Acp/Numbers.antt =====
-- The numbers of the events that a session sends.
use Prim.Native.String.{◌++◌}
use webmux.Base.{
  ℕ, String, Bool, true, false, Option, List, [], ◌∷◌, Result, ok, err, if◌then◌else◌, arith, ◌>>=◌,
}
use webmux.Hub.Agents.{idle}
use webmux.Machine.Acp.{
  AgentEvent, Json, kills, SessionActor, PendingRpc, initialize, session_new, session_load,
  prompt_sent, set_model_sent, ActorMsg, command, line, eof, handshake_timeout,
}
use webmux.Machine.Acp.Values.{str_at}
use webmux.Machine.Acp.Outputs.{
  effect, emit_event, send_update, send_status, write_message, write_outcome,
}
use webmux.Machine.Acp.Commands.{flush_queued_commands}
use webmux.Machine.Acp.Handshake.{
  adopt_models, adopt_session_config, apply_requested_model_then_flush, start_acp_session_fresh,
  start_acp_session, fail, on_handshake_timeout, flush_after, handle_rpc_error, adopt_new,
  handle_result, settle, handle_response,
}
use webmux.Machine.Acp.Lines.{
  handle_session_update, ask, handle_permission_request, refuse_method, handle_method,
  handle_message, handle_line, on_eof, handle, begin, loop, new, run,
}
use webmux.Machine.Acp.Traces.{
  Trace, Traced, traces, Returns, send_request-Traced, handle_set_model-Traced, flush_loop-Traced,
  handle_command-Traced,
}

module _ (json : Json) where
  adopt-Traced :
      (result : json.Value) (replace : Bool) (s : SessionActor json.Value)
      → Traced s
      → Traced (adopt_session_config json result replace s)
  unfolding adopt_session_config adopt_models
  adopt-Traced result replace s h = grind (arith, traces)

  flush-Traced :
      (s : SessionActor json.Value) → Traced s → Returns Traced (flush_queued_commands json s)
  unfolding flush_queued_commands
  flush-Traced s h = flush_loop-Traced json s.queued_commands s h

  apply-Traced :
      (s : SessionActor json.Value)
      → Traced s
      → Returns Traced (apply_requested_model_then_flush json s)
  unfolding apply_requested_model_then_flush emit_event effect
  apply-Traced s h = grind (arith, traces, flush-Traced, handle_set_model-Traced json)

  fresh-Traced : (s : SessionActor json.Value) → Traced s → Traced (start_acp_session_fresh json s)
  unfolding start_acp_session_fresh
  fresh-Traced s h = grind (arith, traces, send_request-Traced json)

  start-Traced : (s : SessionActor json.Value) → Traced s → Traced (start_acp_session json s)
  unfolding start_acp_session
  start-Traced s h = grind (arith, traces, send_request-Traced json, fresh-Traced)

  fail-Traced : (m : String) (s : SessionActor json.Value) → Traced s → Traced (fail json m s)
  unfolding fail emit_event send_status send_update effect
  fail-Traced m s h = grind (arith, traces)

  timeout-Traced :
      (id : ℕ) (s : SessionActor json.Value) → Traced s → Traced (on_handshake_timeout json id s)
  unfolding on_handshake_timeout
  timeout-Traced id s h = grind (arith, traces, fail-Traced)

  flush_after-Traced :
      (s : SessionActor json.Value) → Traced s → Returns Traced (flush_after json s)
  unfolding flush_after
  flush_after-Traced s h = grind (arith, traces, flush-Traced)

  rpc_error-Traced :
      (kind : PendingRpc) (text : String) (s : SessionActor json.Value)
      → Traced s
      → Returns Traced (handle_rpc_error json kind text s)
  unfolding handle_rpc_error emit_event send_status send_update effect
  rpc_error-Traced session_load text s h =
      fresh-Traced
        (emit_event (AgentEvent.error ("session history was not restored: " ++ text))
          (record s { suppress_updates = false }))
        (search traces)
  rpc_error-Traced initialize text s h = grind (arith, traces, fail-Traced)
  rpc_error-Traced session_new text s h = grind (arith, traces, fail-Traced)
  rpc_error-Traced prompt_sent text s h = grind (arith, traces)
  rpc_error-Traced (set_model_sent m) text s h = grind (arith, traces, flush_after-Traced)

  adopt_new-Traced :
      (result : json.Value) (s : SessionActor json.Value)
      → Traced s
      → Traced (adopt_new json result s)
  unfolding adopt_new send_update effect
  adopt_new-Traced result s h =
      let id = str_at json result "sessionId" in
      let s' : SessionActor json.Value =
        adopt_session_config json result true
          (record s { suppress_updates = false; acp_session_id = id }) in
      Trace.updated s'.seq s'.effects _
        (adopt-Traced result true (record s { suppress_updates = false; acp_session_id = id }) h)

  load-Traced :
      (result : json.Value) (s : SessionActor json.Value)
      → Traced s
      → Traced (send_status idle (adopt_session_config json result false s))
  unfolding send_status send_update effect
  load-Traced result s h =
      let s' : SessionActor json.Value = adopt_session_config json result false s in
      Trace.updated s'.seq s'.effects _ (adopt-Traced result false s h)

  result-Traced :
      (kind : PendingRpc) (result : json.Value) (s : SessionActor json.Value)
      → Traced s
      → Returns Traced (handle_result json kind result s)
  unfolding handle_result emit_event send_status send_update effect
  result-Traced initialize result s h = start-Traced s h
  result-Traced session_new result s h =
      apply-Traced (adopt_new json result s) (adopt_new-Traced result s h)
  result-Traced session_load result s h =
      let s' : SessionActor json.Value = record s {
        suppress_updates = false;
        acp_session_id = s.resume_acp_session_id;
      } in
      apply-Traced (send_status idle (adopt_session_config json result false s'))
        (load-Traced result s' h)
  result-Traced prompt_sent result s h = grind (arith, traces)
  result-Traced (set_model_sent m) result s h = grind (arith, traces, flush_after-Traced)

  response-Traced :
      (id : ℕ) (message : json.Value) (s : SessionActor json.Value)
      → Traced s
      → Returns Traced (handle_response json id message s)
  unfolding handle_response settle
  response-Traced id message s h = grind (arith, traces, result-Traced, rpc_error-Traced)

  method-Traced :
      (method : String) (message : json.Value) (s : SessionActor json.Value)
      → Traced s
      → Traced (handle_method json method message s)
  unfolding handle_method handle_session_update handle_permission_request ask refuse_method
      emit_event send_status send_update write_outcome write_message effect
  method-Traced method message s h = grind (arith, traces)

  line-Traced :
      (text : String) (s : SessionActor json.Value)
      → Traced s
      → Returns Traced (handle_line json text s)
  unfolding handle_line handle_message
  line-Traced text s h = grind (arith, traces, response-Traced, method-Traced)

  handle-Traced :
      (m : ActorMsg) (s : SessionActor json.Value) → Traced s → Returns Traced (handle json m s)
  unfolding handle on_eof effect
  handle-Traced (command c) s h = handle_command-Traced json c s h
  handle-Traced (line text) s h = line-Traced text s h
  handle-Traced (eof reason status) s h = grind (arith, traces)
  handle-Traced (handshake_timeout id) s h = timeout-Traced id s h

  loop-Traced :
      (ms : List ActorMsg) (s : SessionActor json.Value)
      → Traced s
      → Returns Traced (loop json ms s)
  unfolding loop effect
  loop-Traced [] s h = h
  loop-Traced (m ∷ ms) s h = go (handle json m s) (loop-Traced ms) (handle-Traced m s h)
    where
      go :
          (r : Result (SessionActor json.Value) String)
          → ((t : SessionActor json.Value) → Traced t → Returns Traced (loop json ms t))
          → Returns Traced r
          → Returns Traced (
              r >>= λ s'.
              let rest = loop json ms s' in if s'.ended then ok (effect kills s') else rest)
      go (ok s') rest k =
          elim s'.ended
            as (λ b. Returns Traced (if b then ok (effect kills s') else loop json ms s')) [
              | true ↦ Trace.killed s'.seq s'.effects k
              | false ↦ rest s' k
            ]
      go (err e) rest k = tt

  pub run-Traced :
      (ms : List ActorMsg) (id cwd : String) (auto_run : Bool) (resume requested : Option String)
      → Returns Traced (run json ms (new json id cwd auto_run resume requested))
  unfolding run begin new
  run-Traced ms id cwd auto_run resume requested =
      let s : SessionActor json.Value = new json id cwd auto_run resume requested in
      loop-Traced ms (begin json s) (send_request-Traced json _ _ _ s Trace.start)
