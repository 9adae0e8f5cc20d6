-- ===== src/Machine/Acp/Steady.antt =====
-- The handlers of a session's handshake, between two messages.
use Prim.Native.String.{◌++◌}
use webmux.Base.{
  ℕ, ◌≡◌, refl, String, Bool, true, false, ok, if◌then◌else◌, arith, is_some, nat_key,
}
use webmux.Machine.Acp.{
  AgentEvent, Json, SessionActor, PendingRpc, initialize, session_new, session_load, prompt_sent,
  set_model_sent,
}
use webmux.Machine.Acp.Outputs.{
  effect, emit_event, send_update, send_status, write_message, send_request, write_outcome,
}
use webmux.Machine.Acp.Commands.{flush_queued_commands}
use webmux.Machine.Acp.Handshake.{
  adopt_models, adopt_session_config, apply_requested_model_then_flush, start_acp_session_fresh,
  start_acp_session, fail, on_handshake_timeout, flush_after, handle_rpc_error,
}
use webmux.Machine.Acp.Lines.{
  handle_session_update, ask, handle_permission_request, refuse_method, handle_method,
}
use webmux.Machine.Acp.Ready.{
  IsSound, IsReady, Goes, insert-Sound, remove-Sound, set_model-Ready, flush-Ready, forget,
}

module _ (json : Json) where
  pub adopt-Sound :
      (result : json.Value) (replace : Bool) (s : SessionActor json.Value)
      → IsSound s
      → IsSound (adopt_session_config json result replace s)
  unfolding adopt_session_config adopt_models
  adopt-Sound result replace s h = grind arith

  pub adopt-acp :
      (result : json.Value) (replace : Bool) (s : SessionActor json.Value)
      → (adopt_session_config json result replace s).acp_session_id ≡ s.acp_session_id
  unfolding adopt_session_config adopt_models
  adopt-acp result replace s = grind arith

  flush-Sound :
      (s : SessionActor json.Value)
      → IsSound s
      → is_some s.acp_session_id ≡ true
      → Goes IsSound (flush_queued_commands json s)
  flush-Sound s h e = forget json (flush_queued_commands json s) (flush-Ready json s (h, e))

  pub apply-Sound :
      (s : SessionActor json.Value)
      → IsReady s
      → Goes IsSound (apply_requested_model_then_flush json s)
  unfolding apply_requested_model_then_flush emit_event effect
  apply-Sound s h = grind (arith, h.0, h.1, flush-Sound, set_model-Ready json)

  fresh-Sound : (s : SessionActor json.Value) → IsSound s → IsSound (start_acp_session_fresh json s)
  unfolding start_acp_session_fresh send_request write_message effect
  fresh-Sound s h = grind (arith, insert-Sound)

  pub start-Sound : (s : SessionActor json.Value) → IsSound s → IsSound (start_acp_session json s)
  unfolding start_acp_session send_request write_message effect
  start-Sound s h = grind (arith, insert-Sound)

  fail-Sound : (m : String) (s : SessionActor json.Value) → IsSound s → IsSound (fail json m s)
  unfolding fail emit_event send_status send_update effect
  fail-Sound m s h = grind arith

  pub timeout-Sound :
      (id : ℕ) (s : SessionActor json.Value) → IsSound s → IsSound (on_handshake_timeout json id s)
  unfolding on_handshake_timeout
  timeout-Sound id s h = grind (arith, fail-Sound, remove-Sound)

  pub flush_after-Sound :
      (s : SessionActor json.Value) → IsSound s → Goes IsSound (flush_after json s)
  unfolding flush_after
  flush_after-Sound s h =
      elim s.flush_after_set_model
          as (λ b.
            (b ≡ true → is_some s.acp_session_id ≡ true)
            → Goes IsSound (
                if b
                then flush_queued_commands json (record s { flush_after_set_model = false })
                else ok s)) [
                  | true ↦ λ k.
                      flush-Sound (record s { flush_after_set_model = false })
                        (record { loads = h.loads; flushes = λ e. k refl }) (k refl)
                  | false ↦ λ k. h
                ]
        h.flushes

  pub rpc_error-Sound :
      (kind : PendingRpc) (text : String) (s : SessionActor json.Value)
      → IsSound s
      → Goes IsSound (handle_rpc_error json kind text s)
  unfolding handle_rpc_error emit_event send_status send_update effect
  rpc_error-Sound session_load text s h =
      fresh-Sound
        (emit_event (AgentEvent.error ("session history was not restored: " ++ text))
          (record s { suppress_updates = false }))
        h
  rpc_error-Sound initialize text s h = grind (arith, fail-Sound)
  rpc_error-Sound session_new text s h = grind (arith, fail-Sound)
  rpc_error-Sound prompt_sent text s h = grind arith
  rpc_error-Sound (set_model_sent m) text s h =
      flush_after-Sound
        (emit_event (AgentEvent.error ("model \"" ++ (m ++ ("\" was not applied: " ++ text)))) s) h

  pub method-Sound :
      (method : String) (message : json.Value) (s : SessionActor json.Value)
      → IsSound s
      → IsSound (handle_method json method message s)
  unfolding handle_method handle_session_update handle_permission_request ask refuse_method
      emit_event send_status send_update write_outcome write_message effect
  method-Sound method message s h = grind arith
