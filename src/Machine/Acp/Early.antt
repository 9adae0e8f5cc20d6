-- ===== src/Machine/Acp/Early.antt =====
-- The commands that reach a session before its agent has answered `session/new`.
use webmux.Base.{
  ℕ, ◌≤◌, ◌≡◌, refl, ap, sym, ◌∙◌, String, false, none, some, List, [], ◌∷◌, ◌++◌, map, All, length,
  Result, ok, err, if◌then◌else◌, arith, ◌>>=◌, nat_key,
}
use webmux.Base.Map.{get, remove}
use webmux.Machine.Acp.{
  Json, SessionActor, SessionCommand, command, line, session_new, kills, unwrap_or, and_then,
}
use webmux.Machine.Acp.Values.{str_at}
use webmux.Machine.Acp.Outputs.{effect, send_update}
use webmux.Machine.Acp.Commands.{flush_loop, flush_queued_commands}
use webmux.Machine.Acp.Handshake.{
  adopt_models, adopt_session_config, apply_requested_model_then_flush, adopt_new, handle_result,
  settle, handle_response,
}
use webmux.Machine.Acp.Lines.{handle_message, handle_line, handle, loop}
use webmux.Machine.Acp.Traces.{Returns}
use webmux.Machine.Acp.Queue.{
  IsKept, with_queue, loop-continues, loop-waiting, flush_loop-loop, flush_loop-ended,
}

module _ (json : Json) where
  -- The state in which the queue is flushed.
  abbrev started : ℕ → json.Value → SessionActor json.Value → SessionActor json.Value
  started id message s =
      adopt_new json (unwrap_or (json.get message "result") json.null)
        (record s { pending = remove id s.pending })

  adopt-with_queue :
      (q : List SessionCommand) (result : json.Value) (s : SessionActor json.Value)
      → adopt_new json result (with_queue q s) ≡ with_queue q (adopt_new json result s)
  unfolding adopt_new adopt_session_config adopt_models send_update effect
  adopt-with_queue q result s = ground arith

  adopt-Same :
      (result : json.Value) (s : SessionActor json.Value)
      → ((adopt_new json result s).acp_session_id ≡ str_at json result "sessionId")
        × ((adopt_new json result s).ended ≡ s.ended)
        × ((adopt_new json result s).requested_model_id ≡ s.requested_model_id)
  unfolding adopt_new adopt_session_config adopt_models send_update effect
  adopt-Same result s = ground arith

  apply-starts :
      (q : List SessionCommand) (result : json.Value) (s : SessionActor json.Value)
      → s.requested_model_id ≡ none
      → handle_result json session_new result (with_queue q s)
        ≡ flush_loop json q (with_queue q (adopt_new json result s))
  unfolding handle_result apply_requested_model_then_flush flush_queued_commands
  apply-starts q result s r =
      ap (apply_requested_model_then_flush json) (adopt-with_queue q result s)
      ∙ ground (arith, (adopt-Same result s).2, r)

  handle-starts :
      (text : String) (message : json.Value) (id : ℕ) (q : List SessionCommand)
      (s : SessionActor json.Value)
      → json.from_str text ≡ some message
      → str_at json message "method" ≡ none
      → and_then (json.get message "id") json.as_u64 ≡ some id
      → json.get message "error" ≡ none
      → get id s.pending ≡ some session_new
      → s.requested_model_id ≡ none
      → handle json (line text) (with_queue q s)
        ≡ flush_loop json q (with_queue q (started id message s))
  unfolding handle handle_line handle_message handle_response settle
  handle-starts text message id q s parses method has_id error pending requested =
      let s' : SessionActor json.Value = record s { pending = remove id s.pending } in
      let result = unwrap_or (json.get message "result") json.null in
      let a : handle json (line text) (with_queue q s)
          ≡ handle_result json session_new result (with_queue q s') =
        ground (arith, parses, method, has_id, error, pending) in
      a ∙ apply-starts q result s' requested

  unqueued : (s : SessionActor json.Value) → s.queued_commands ≡ [] → s ≡ with_queue [] s
  unqueued s e = λ i. record s { queued_commands = e i }

  -- A flush is followed by the rest of the loop, which has nothing left to do.
  flush_loop-settles :
      (cs : List SessionCommand) (s : SessionActor json.Value)
      → s.ended ≡ false
      → (flush_loop json cs s >>= λ t.
          let rest = loop json [] t in if t.ended then ok (effect kills t) else rest)
        ≡ flush_loop json cs s
  unfolding loop
  flush_loop-settles cs s d = go (flush_loop json cs s) (flush_loop-ended json cs s d)
    where
      go :
          (r : Result (SessionActor json.Value) String)
          → Returns (λ t. t.ended ≡ false) r
          → (r >>= λ t. if t.ended then ok (effect kills t) else ok t) ≡ r
      go (err x) e = refl
      go (ok t) e = ground (arith, e)

  -- At most 16 commands, none of them a kill, that reach a session before the answer to `session/new`
  -- arrives, do what they do when they arrive right after it. The answer names the session, the session
  -- has not failed or ended, nothing is queued, and no model was asked for.
  pub early_commands :
      (text : String) (message : json.Value) (id : ℕ) (session_id : String)
      (cs : List SessionCommand) (s : SessionActor json.Value)
      → json.from_str text ≡ some message
      → str_at json message "method" ≡ none
      → and_then (json.get message "id") json.as_u64 ≡ some id
      → json.get message "error" ≡ none
      → str_at json (unwrap_or (json.get message "result") json.null) "sessionId" ≡ some session_id
      → get id s.pending ≡ some session_new
      → s.acp_session_id ≡ none
      → s.failed ≡ false
      → s.ended ≡ false
      → s.requested_model_id ≡ none
      → s.queued_commands ≡ []
      → All IsKept cs
      → length cs ≤ 16
      → loop json (map command cs ++ (line text ∷ [])) s ≡ loop json (line text ∷ map command cs) s
  unfolding loop flush_loop
  early_commands text message id session_id cs s parses method has_id error names pending acp failed
        ended requested queue kept few =
      let t = started id message s in
      let same =
        adopt-Same (unwrap_or (json.get message "result") json.null)
          (record s { pending = remove id s.pending }) in
      let starts = λ (q : List SessionCommand).
        handle-starts text message id q s parses method has_id error pending requested in
      ap (loop json (map command cs ++ (line text ∷ []))) (unqueued s queue)
      ∙ loop-waiting json cs [] (line text ∷ []) s kept acp failed ended (omega (arith, few))
      ∙ ap
          (λ r.
            r >>= λ u. let rest = loop json [] u in if u.ended then ok (effect kills u) else rest)
          (starts cs)
      ∙ flush_loop-settles cs (with_queue cs t) (same.1 ∙ ended)
      ∙ flush_loop-loop json cs session_id t kept (same.0 ∙ names) (same.1 ∙ ended)
      ∙ sym (
          loop-continues json (line text) (map command cs) (with_queue [] s) (with_queue [] t)
            (starts []) (same.1 ∙ ended))
      ∙ sym (ap (loop json (line text ∷ map command cs)) (unqueued s queue))
