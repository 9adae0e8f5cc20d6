-- ===== src/Machine/Acp/Ready.antt =====
-- Which handlers of a session can panic: what holds of its state between two messages.
use webmux.Base.{
  ℕ, ◌≡◌, ap, ◌∙◌, String, Bool, true, Option, none, some, List, [], ◌∷◌, Result, ok, err, arith,
  ◌>>=◌, is_some, nat_key, inl, inr, ◌⊎◌, Option-cases,
}
use webmux.Base.Map.{get, insert, remove, get-insert, get-remove}
use webmux.Machine.Acp.{
  Json, SessionActor, SessionCommand, prompt, answer, set_model, cancel, kill, PendingRpc,
  initialize, session_new, session_load, prompt_sent, set_model_sent,
}
use webmux.Machine.Acp.Outputs.{
  effect, emit_event, send_update, send_status, write_message, send_request, send_notification,
  write_outcome, kill_child,
}
use webmux.Machine.Acp.Commands.{
  handle_prompt, handle_set_model, handle_answer, execute_command, flush_loop,
  flush_queued_commands, handle_command_unless_kill, handle_command,
}

-- A session is loaded only where an id to resume was given, and a queue waits for a change of model only
-- where there is a session.
pub record Sound (pending : List (ℕ × PendingRpc)) (resume acp : Option String) (flush : Bool)
    : Type 0 where
  pub loads : (id : ℕ) → get id pending ≡ some session_load → is_some resume ≡ true
  pub flushes : flush ≡ true → is_some acp ≡ true

abbrev pub IsSound : {V : Type 0} → SessionActor V → Type 0
IsSound s = Sound s.pending s.resume_acp_session_id s.acp_session_id s.flush_after_set_model

abbrev pub IsReady : {V : Type 0} → SessionActor V → Type 0
IsReady s = IsSound s × (is_some s.acp_session_id ≡ true)

-- A handler that does not panic, and `P` of the state that it returns.
abbrev pub Goes : {V : Type 0} → (SessionActor V → Type 0) → Result (SessionActor V) String → Type 0
Goes P (ok s) = P s
Goes P (err e) = ⊥

-- A request to load needs an id to resume.
abbrev pub fits : PendingRpc → Option String → Bool
fits session_load resume = is_some resume
fits initialize resume = true
fits session_new resume = true
fits prompt_sent resume = true
fits (set_model_sent model_id) resume = true

pub insert-Sound :
    (id : ℕ) (kind : PendingRpc) (pending : List (ℕ × PendingRpc)) (resume acp : Option String)
    (flush : Bool)
    → fits kind resume ≡ true
    → Sound pending resume acp flush
    → Sound (insert id kind pending) resume acp flush
insert-Sound id kind pending resume acp flush k h = record {
  loads = λ j e. ground (arith, get-insert id j kind pending, e, k, h.loads j);
  flushes = h.flushes;
}

pub remove-Sound :
    (id : ℕ) (pending : List (ℕ × PendingRpc)) (resume acp : Option String) (flush : Bool)
    → Sound pending resume acp flush
    → Sound (remove id pending) resume acp flush
remove-Sound id pending resume acp flush h = record {
  loads = λ j e. ground (arith, get-remove id j pending, e, h.loads j);
  flushes = h.flushes;
}

module _ (json : Json) where
  pub send_request-Sound :
      (kind : PendingRpc) (method : String) (params : json.Value) (s : SessionActor json.Value)
      → fits kind s.resume_acp_session_id ≡ true
      → IsSound s
      → IsSound (send_request json kind method params s)
  unfolding send_request write_message effect
  send_request-Sound kind method params s k h = grind (arith, insert-Sound)

  pub send_request-acp :
      (kind : PendingRpc) (method : String) (params : json.Value) (s : SessionActor json.Value)
      → (send_request json kind method params s).acp_session_id ≡ s.acp_session_id
  unfolding send_request write_message effect
  send_request-acp kind method params s = ground arith

  handle_prompt-Ready :
      (text : String) (s : SessionActor json.Value)
      → IsReady s
      → Goes IsReady (handle_prompt json text s)
  unfolding handle_prompt emit_event send_status send_update effect
  handle_prompt-Ready text s h = ready (Option-cases s.acp_session_id)
    where
      ready :
          (s.acp_session_id ≡ none) ⊎ ((id : String) × (s.acp_session_id ≡ some id))
          → Goes IsReady (handle_prompt json text s)
      ready (inl e) = absurd (ground (arith, e, h.1))
      ready (inr (id, e)) = grind (arith, e, h.1, insert-Sound)

  pub set_model-Ready :
      (m : String) (s : SessionActor json.Value) → IsSound s → IsSound (handle_set_model json m s)
  unfolding handle_set_model effect
  set_model-Ready m s h = grind (arith, insert-Sound)

  pub set_model-acp :
      (m : String) (s : SessionActor json.Value)
      → (handle_set_model json m s).acp_session_id ≡ s.acp_session_id
  unfolding handle_set_model effect
  set_model-acp m s = ground arith

  answer-Ready :
      (r : String) (o t : Option String) (s : SessionActor json.Value)
      → IsReady s
      → IsReady (handle_answer json r o t s)
  unfolding handle_answer emit_event send_status write_outcome send_update effect write_message
  answer-Ready r o t s h = grind (arith, h.1)

  kill-Sound : (s : SessionActor json.Value) → IsSound s → IsSound (kill_child json s)
  unfolding kill_child write_outcome effect write_message
  kill-Sound s h = grind arith

  kill-acp : (s : SessionActor json.Value) → (kill_child json s).acp_session_id ≡ s.acp_session_id
  unfolding kill_child write_outcome effect write_message
  kill-acp s = ground arith

  execute_command-Ready :
      (c : SessionCommand) (s : SessionActor json.Value)
      → IsReady s
      → Goes IsReady (execute_command json c s)
  unfolding execute_command send_notification write_message effect
  execute_command-Ready (prompt text) s h = handle_prompt-Ready text s h
  execute_command-Ready (answer r o t) s h = answer-Ready r o t s h
  execute_command-Ready (set_model m) s h =
      (set_model-Ready m s h.0, ap is_some (set_model-acp m s) ∙ h.1)
  execute_command-Ready cancel s h = grind (arith, h.1)
  execute_command-Ready kill s h = (kill-Sound s h.0, ap is_some (kill-acp s) ∙ h.1)

  -- The rule for a chain of handlers.
  Goes-bind :
      (r : Result (SessionActor json.Value) String)
      (f : SessionActor json.Value → Result (SessionActor json.Value) String)
      → ((s : SessionActor json.Value) → IsReady s → Goes IsReady (f s))
      → Goes IsReady r
      → Goes IsReady (r >>= f)
  Goes-bind (ok s) f k h = k s h
  Goes-bind (err e) f k h = absurd h

  flush_loop-Ready :
      (cs : List SessionCommand) (s : SessionActor json.Value)
      → IsReady s
      → Goes IsReady (flush_loop json cs s)
  unfolding flush_loop
  flush_loop-Ready [] s h = h
  flush_loop-Ready (c ∷ cs) s h =
      Goes-bind (execute_command json c (record s { queued_commands = cs })) (flush_loop json cs)
        (flush_loop-Ready cs) (execute_command-Ready c (record s { queued_commands = cs }) h)

  pub flush-Ready :
      (s : SessionActor json.Value) → IsReady s → Goes IsReady (flush_queued_commands json s)
  unfolding flush_queued_commands
  flush-Ready s h = flush_loop-Ready s.queued_commands s h

  pub forget : (r : Result (SessionActor json.Value) String) → Goes IsReady r → Goes IsSound r
  forget (ok s) h = h.0
  forget (err e) h = h

  command-Sound :
      (c : SessionCommand) (s : SessionActor json.Value)
      → IsSound s
      → Goes IsSound (handle_command_unless_kill json c s)
  unfolding handle_command_unless_kill emit_event effect
  command-Sound c s h = elim (Option-cases s.acp_session_id) [
    | inl e ↦ grind (arith, e)
    | inr (id, e) ↦
        rw (ap is_some e)
          (forget (execute_command json c s) (execute_command-Ready c s (h, ap is_some e)))
  ]

  pub handle_command-Sound :
      (c : SessionCommand) (s : SessionActor json.Value)
      → IsSound s
      → Goes IsSound (handle_command json c s)
  unfolding handle_command
  handle_command-Sound (prompt text) s h = command-Sound (prompt text) s h
  handle_command-Sound (answer r o t) s h = command-Sound (answer r o t) s h
  handle_command-Sound (set_model m) s h = command-Sound (set_model m) s h
  handle_command-Sound cancel s h = command-Sound cancel s h
  handle_command-Sound kill s h = kill-Sound (record s { queued_commands = [] }) h
