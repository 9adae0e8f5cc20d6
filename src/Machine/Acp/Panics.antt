-- ===== src/Machine/Acp/Panics.antt =====
-- When a session panics.
use webmux.Base.{
  ℕ, ◌≡◌, refl, ◌⊎◌, String, Bool, Option, none, some, List, [], ◌∷◌, Result, ok, err,
  if◌then◌else◌, arith, ◌>>=◌, nat_key, Option-cases, inl, inr,
}
use webmux.Base.Map.{get, insert}
use webmux.Machine.Acp.{
  Json, SessionActor, kills, ActorMsg, command, line, eof, handshake_timeout, prompt,
  SessionCommand, and_then,
}
use webmux.Machine.Acp.Values.{str_at}
use webmux.Machine.Acp.Outputs.{effect, send_update, write_message, send_request}
use webmux.Machine.Acp.Commands.{
  flush_loop, flush_queued_commands, execute_command, handle_prompt, no_session,
}
use webmux.Machine.Acp.Handshake.{
  adopt_models, adopt_session_config, apply_requested_model_then_flush, adopt_new, handle_result,
  settle, handle_response,
}
use webmux.Machine.Acp.Lines.{handle_message, handle_line, on_eof, handle, begin, loop, new, run}
use webmux.Machine.Acp.Ready.{IsSound, Goes, handle_command-Sound}
use webmux.Machine.Acp.Steady.{timeout-Sound, method-Sound}
use webmux.Machine.Acp.Answers.{IsNameless, response-cases}

module _ (json : Json) where
  -- A line with an answer to `session/new` that has no session id.
  abbrev pub StartsNameless : ActorMsg → SessionActor json.Value → Type 0
  StartsNameless (line text) s =
      (message : json.Value) × (id : ℕ) × (json.from_str text ≡ some message)
      × (and_then (json.get message "id") json.as_u64 ≡ some id)
      × IsNameless json id message s
  StartsNameless (command c) s = ⊥
  StartsNameless (eof reason status) s = ⊥
  StartsNameless (handshake_timeout id) s = ⊥

  message-cases :
      (message : json.Value) (s : SessionActor json.Value)
      → IsSound s
      → Goes IsSound (handle_message json message s)
        ⊎ ((id : ℕ) × (and_then (json.get message "id") json.as_u64 ≡ some id)
            × IsNameless json id message s)
  unfolding handle_message
  message-cases message s h = elim (Option-cases (str_at json message "method")) [
    | inr (method, e) ↦ inl (rw (e, handle_message) (method-Sound json method message s h))
    | inl e ↦ elim (Option-cases (and_then (json.get message "id") json.as_u64)) [
      | inl f ↦ inl (rw (e, f, handle_message) h)
      | inr (id, f) ↦ elim (response-cases json id message s h) [
        | inl g ↦ inl (rw (e, f, handle_message) g)
        | inr g ↦ inr (id, f, g)
      ]
    ]
  ]

  handle-cases :
      (m : ActorMsg) (s : SessionActor json.Value)
      → IsSound s
      → Goes IsSound (handle json m s) ⊎ StartsNameless m s
  unfolding handle handle_line on_eof effect
  handle-cases (command c) s h = inl (handle_command-Sound json c s h)
  handle-cases (eof reason status) s h = inl (grind arith)
  handle-cases (handshake_timeout id) s h = inl (timeout-Sound json id s h)
  handle-cases (line text) s h = elim (Option-cases (json.from_str text)) [
    | inl e ↦ inl (rw (e, handle_line) h)
    | inr (message, e) ↦ elim (message-cases message s h) [
      | inl g ↦ inl (rw (e, handle_line) g)
      | inr (id, f, g) ↦ inr (message, id, e, f, g)
    ]
  ]

  -- A run that meets such a line.
  pub data Meets : List ActorMsg → SessionActor json.Value → Type 0 where
    now :
        (m : ActorMsg) (ms : List ActorMsg) (s : SessionActor json.Value)
        → StartsNameless m s
        → Meets (m ∷ ms) s
    later :
        (m : ActorMsg) (ms : List ActorMsg) (s t : SessionActor json.Value)
        → handle json m s ≡ ok t
        → Meets ms t
        → Meets (m ∷ ms) s

  loop-Meets :
      (ms : List ActorMsg) (s : SessionActor json.Value) (e : String)
      → IsSound s
      → loop json ms s ≡ err e
      → Meets ms s
  unfolding loop
  loop-Meets [] s e h p = absurd (ground (arith, p))
  loop-Meets (m ∷ ms) s e h p = elim (handle-cases m s h) [
    | inr x ↦ Meets.now m ms s x
    | inl g ↦ go (handle json m s) refl g p (loop-Meets ms)
  ]
    where
      go :
          (r : Result (SessionActor json.Value) String)
          → handle json m s ≡ r
          → Goes IsSound r
          → (r >>= λ s'.
              let rest = loop json ms s' in if s'.ended then ok (effect kills s') else rest)
            ≡ err e
          → ((t : SessionActor json.Value) (x : String)
              → IsSound t
              → loop json ms t ≡ err x
              → Meets ms t)
          → Meets (m ∷ ms) s
      go (err x) q k p' rest = absurd k
      go (ok t) q k p' rest = Meets.later m ms s t q (rest t e k (ground (arith, p')))

  begin-Sound :
      (id cwd : String) (auto_run : Bool) (resume requested : Option String)
      → IsSound (begin json (new json id cwd auto_run resume requested))
  unfolding begin new send_request write_message effect get insert
  begin-Sound id cwd auto_run resume requested = record {
    loads = λ j e. ground (arith, e);
    flushes = λ e. ground (arith, e);
  }

  -- Over every sequence of messages, a session panics only where its agent has answered `session/new`
  -- without a session id.
  pub run-Meets :
      (ms : List ActorMsg) (id cwd : String) (auto_run : Bool) (resume requested : Option String)
      (e : String)
      → run json ms (new json id cwd auto_run resume requested) ≡ err e
      → Meets ms (begin json (new json id cwd auto_run resume requested))
  unfolding run
  run-Meets ms id cwd auto_run resume requested e p =
      loop-Meets ms (begin json (new json id cwd auto_run resume requested)) e
        (begin-Sound id cwd auto_run resume requested) p

  -- And there it panics, where the answer is no error, a prompt waits first and no model was asked for.
  pub nameless_panics :
      (id : ℕ) (message : json.Value) (s : SessionActor json.Value) (text : String)
      (cs : List SessionCommand)
      → IsNameless json id message s
      → json.get message "error" ≡ none
      → s.requested_model_id ≡ none
      → s.queued_commands ≡ prompt text ∷ cs
      → handle_response json id message s ≡ err no_session
  unfolding handle_response settle handle_result apply_requested_model_then_flush
      flush_queued_commands flush_loop execute_command handle_prompt adopt_new adopt_session_config
      adopt_models send_update effect
  nameless_panics id message s text cs h e r q = grind (arith, h.0, h.1, e, r, q)
