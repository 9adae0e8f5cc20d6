-- ===== src/Machine/Acp/Answers.antt =====
-- Which answers of its agent a session cannot go on from.
use webmux.Base.{
  ℕ, ◌≡◌, refl, ap, ◌∙◌, ◌⊎◌, String, Bool, true, false, Option, none, some, is_some, nat_key,
  Option-cases, inl, inr,
}
use webmux.Base.Map.{get, remove}
use webmux.Hub.Agents.{idle}
use webmux.Machine.Acp.{
  Json, SessionActor, PendingRpc, initialize, session_new, session_load, prompt_sent,
  set_model_sent, unwrap_or,
}
use webmux.Machine.Acp.Values.{str_at}
use webmux.Machine.Acp.Outputs.{effect, emit_event, send_update, send_status}
use webmux.Machine.Acp.Handshake.{
  adopt_session_config, handle_rpc_error, adopt_new, handle_result, settle, handle_response,
}
use webmux.Machine.Acp.Ready.{IsSound, IsReady, Goes, remove-Sound}
use webmux.Machine.Acp.Steady.{
  adopt-Sound, adopt-acp, apply-Sound, start-Sound, flush_after-Sound, rpc_error-Sound,
}

module _ (json : Json) where
  adopt_new-Ready :
      (result : json.Value) (s : SessionActor json.Value)
      → IsSound s
      → is_some (str_at json result "sessionId") ≡ true
      → IsReady (adopt_new json result s)
  unfolding adopt_new send_update effect
  adopt_new-Ready result s h e =
      let s' : SessionActor json.Value = record s {
        suppress_updates = false;
        acp_session_id = str_at json result "sessionId";
      } in
      (
        adopt-Sound json result true s' (record { loads = h.loads; flushes = λ f. e }),
        ap is_some (adopt-acp json result true s') ∙ e,
      )

  load-Ready :
      (result : json.Value) (s : SessionActor json.Value)
      → IsSound s
      → is_some s.resume_acp_session_id ≡ true
      → IsReady (
          send_status idle (
            adopt_session_config json result false
              (record s { suppress_updates = false; acp_session_id = s.resume_acp_session_id })))
  unfolding send_status send_update effect
  load-Ready result s h e =
      let s' : SessionActor json.Value = record s {
        suppress_updates = false;
        acp_session_id = s.resume_acp_session_id;
      } in
      (
        adopt-Sound json result false s' (record { loads = h.loads; flushes = λ f. e }),
        ap is_some (adopt-acp json result false s') ∙ e,
      )

  -- What an answer must have, by the request that it answers.
  abbrev named : PendingRpc → json.Value → Option String → Bool
  named session_new result resume = is_some (str_at json result "sessionId")
  named session_load result resume = is_some resume
  named initialize result resume = true
  named prompt_sent result resume = true
  named (set_model_sent m) result resume = true

  result-Sound :
      (kind : PendingRpc) (result : json.Value) (s : SessionActor json.Value)
      → IsSound s
      → named kind result s.resume_acp_session_id ≡ true
      → Goes IsSound (handle_result json kind result s)
  unfolding handle_result emit_event send_status send_update effect
  result-Sound initialize result s h e = start-Sound json s h
  result-Sound session_new result s h e =
      apply-Sound json (adopt_new json result s) (adopt_new-Ready result s h e)
  result-Sound session_load result s h e =
      apply-Sound json
        (send_status idle (
          adopt_session_config json result false
            (record s { suppress_updates = false; acp_session_id = s.resume_acp_session_id })))
        (load-Ready result s h e)
  result-Sound prompt_sent result s h e = h
  result-Sound (set_model_sent m) result s h e = flush_after-Sound json _ h

  settle-Sound :
      (kind : PendingRpc) (message : json.Value) (s : SessionActor json.Value)
      → IsSound s
      → named kind (unwrap_or (json.get message "result") json.null) s.resume_acp_session_id ≡ true
      → Goes IsSound (settle json kind message s)
  unfolding settle
  settle-Sound kind message s h e = settled (json.get message "error")
    where
      settled :
          (o : Option json.Value)
          → Goes {V = json.Value} IsSound (elim o [
            | some e ↦
                handle_rpc_error json kind
                  (unwrap_or (str_at json e "message") "unknown JSON-RPC error")
                  s
            | none ↦ handle_result json kind (unwrap_or (json.get message "result") json.null) s
          ])
      settled (some x) =
          rpc_error-Sound json kind (unwrap_or (str_at json x "message") "unknown JSON-RPC error") s
            h
      settled none = result-Sound kind (unwrap_or (json.get message "result") json.null) s h e

  -- An answer to `session/new` that has no session id.
  abbrev pub IsNameless : ℕ → json.Value → SessionActor json.Value → Type 0
  IsNameless id message s =
      (get id s.pending ≡ some session_new)
      × (str_at json (unwrap_or (json.get message "result") json.null) "sessionId" ≡ none)

  pub response-cases :
      (id : ℕ) (message : json.Value) (s : SessionActor json.Value)
      → IsSound s
      → Goes IsSound (handle_response json id message s) ⊎ IsNameless id message s
  unfolding handle_response
  response-cases id message s h =
      let result = unwrap_or (json.get message "result") json.null in
      let s' : SessionActor json.Value = record s { pending = remove id s.pending } in
      let h' =
        remove-Sound id s.pending s.resume_acp_session_id s.acp_session_id s.flush_after_set_model
          h in
      elim (Option-cases (get id s.pending)) [
        | inl e ↦ inl (rw (e, handle_response) h)
        | inr (session_new, e) ↦ elim (Option-cases (str_at json result "sessionId")) [
          | inl f ↦ inr (e, f)
          | inr (x, f) ↦
              inl (rw (e, handle_response) (settle-Sound session_new message s' h' (ap is_some f)))
        ]
        | inr (session_load, e) ↦
            inl (rw (e, handle_response) (settle-Sound session_load message s' h' (h.loads id e)))
        | inr (initialize, e) ↦
            inl (rw (e, handle_response) (settle-Sound initialize message s' h' refl))
        | inr (prompt_sent, e) ↦
            inl (rw (e, handle_response) (settle-Sound prompt_sent message s' h' refl))
        | inr (set_model_sent m, e) ↦
            inl (rw (e, handle_response) (settle-Sound (set_model_sent m) message s' h' refl))
      ]
