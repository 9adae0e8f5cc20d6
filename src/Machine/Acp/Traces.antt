-- ===== src/Machine/Acp/Traces.antt =====
-- What the commands of a session send, as one trace with the numbers of its events.
use webmux.Base.{ℕ, ◌+◌, String, Option, List, [], ◌∷◌, Result, ok, err, ◌>>=◌, arith, ◌≡◌, subst}
use webmux.Hub.Agents.Statements.{SessionUpdate}
use webmux.Hub.Wire.{agent_session_update, agent_session_happened, agent_session_exited}
use webmux.Machine.Acp.{
  AgentEvent, Json, Effect, writes, sends, watches, kills, SessionActor, u64, SessionCommand,
  prompt, answer, set_model, cancel, kill, PendingRpc,
}
use webmux.Machine.Acp.Outputs.{
  effect, emit_event, send_update, send_status, write_message, send_request, send_notification,
  write_outcome, kill_child,
}
use webmux.Machine.Acp.Commands.{
  handle_prompt, handle_set_model, handle_answer, execute_command, flush_loop,
  handle_command_unless_kill, handle_command,
}

-- The effects of the session `id` that has sent `n` events.
pub data Trace {V : Type 0} (id : String) : ℕ → List (Effect V) → Type 0 where
  start : Trace id 0 []
  wrote : (n : ℕ) (es : List (Effect V)) (v : V) → Trace id n es → Trace id n (writes v ∷ es)
  watched : (n : ℕ) (es : List (Effect V)) (k : ℕ) → Trace id n es → Trace id n (watches k ∷ es)
  killed : (n : ℕ) (es : List (Effect V)) → Trace id n es → Trace id n (kills ∷ es)
  updated :
      (n : ℕ) (es : List (Effect V)) (u : SessionUpdate)
      → Trace id n es
      → Trace id n (sends (agent_session_update id u) ∷ es)
  exited :
      (n : ℕ) (es : List (Effect V)) (reason : String)
      → Trace id n es
      → Trace id n (sends (agent_session_exited id reason) ∷ es)
  happened :
      (n : ℕ) (es : List (Effect V)) (event : AgentEvent)
      → Trace id n es
      → Trace id (u64 (n + 1)) (sends (agent_session_happened id (u64 (n + 1)) event) ∷ es)

abbrev pub Traced : {V : Type 0} → SessionActor V → Type 0
Traced s = Trace s.session_id s.seq s.effects

pub ruleset traces = (
  Trace.start, Trace.wrote, Trace.watched, Trace.killed, Trace.updated, Trace.exited,
  Trace.happened,
)

-- `P` of the state that a handler returns; a panic leaves none.
abbrev pub Returns {ℓ} :
    {V : Type 0} → (SessionActor V → Type ℓ) → Result (SessionActor V) String → Type ℓ
Returns P (ok s) = P s
Returns P (err e) = Unit

pub at_ok :
    {V : Type 0} (r : Result (SessionActor V) String) (s : SessionActor V)
    → r ≡ ok s
    → Returns Traced r
    → Traced s
at_ok r s e h = subst (Returns Traced) e h

module _ (json : Json) where
  pub send_request-Traced :
      (kind : PendingRpc) (method : String) (params : json.Value) (s : SessionActor json.Value)
      → Traced s
      → Traced (send_request json kind method params s)
  unfolding send_request write_message effect
  send_request-Traced kind method params s h = grind (arith, traces)

  handle_prompt-Traced :
      (text : String) (s : SessionActor json.Value)
      → Traced s
      → Returns Traced (handle_prompt json text s)
  unfolding handle_prompt emit_event send_status send_update effect
  handle_prompt-Traced text s h = grind (arith, traces, send_request-Traced)

  pub handle_set_model-Traced :
      (m : String) (s : SessionActor json.Value) → Traced s → Traced (handle_set_model json m s)
  unfolding handle_set_model emit_event effect
  handle_set_model-Traced m s h = grind (arith, traces, send_request-Traced)

  handle_answer-Traced :
      (r : String) (o t : Option String) (s : SessionActor json.Value)
      → Traced s
      → Traced (handle_answer json r o t s)
  unfolding handle_answer emit_event send_status write_outcome send_update effect write_message
  handle_answer-Traced r o t s h = grind (arith, traces)

  kill_child-Traced : (s : SessionActor json.Value) → Traced s → Traced (kill_child json s)
  unfolding kill_child write_outcome effect write_message
  kill_child-Traced s h = grind (arith, traces)

  execute_command-Traced :
      (c : SessionCommand) (s : SessionActor json.Value)
      → Traced s
      → Returns Traced (execute_command json c s)
  unfolding execute_command send_notification write_message effect
  execute_command-Traced (prompt text) s h = handle_prompt-Traced text s h
  execute_command-Traced (answer r o t) s h = handle_answer-Traced r o t s h
  execute_command-Traced (set_model m) s h = handle_set_model-Traced m s h
  execute_command-Traced cancel s h = grind (arith, traces)
  execute_command-Traced kill s h = kill_child-Traced s h

  -- The rule for a chain of handlers.
  Returns-bind :
      (r : Result (SessionActor json.Value) String)
      (f : SessionActor json.Value → Result (SessionActor json.Value) String)
      → ((s : SessionActor json.Value) → Traced s → Returns Traced (f s))
      → Returns Traced r
      → Returns Traced (r >>= f)
  Returns-bind (ok s) f k h = k s h
  Returns-bind (err e) f k h = tt

  pub flush_loop-Traced :
      (cs : List SessionCommand) (s : SessionActor json.Value)
      → Traced s
      → Returns Traced (flush_loop json cs s)
  unfolding flush_loop
  flush_loop-Traced [] s h = h
  flush_loop-Traced (c ∷ cs) s h =
      Returns-bind (execute_command json c (record s { queued_commands = cs })) (flush_loop json cs)
        (flush_loop-Traced cs) (execute_command-Traced c (record s { queued_commands = cs }) h)

  pub handle_command-Traced :
      (c : SessionCommand) (s : SessionActor json.Value)
      → Traced s
      → Returns Traced (handle_command json c s)
  unfolding handle_command handle_command_unless_kill emit_event effect
  handle_command-Traced (prompt text) s h = grind (arith, traces, execute_command-Traced)
  handle_command-Traced (answer r o t) s h = grind (arith, traces, execute_command-Traced)
  handle_command-Traced (set_model m) s h = grind (arith, traces, execute_command-Traced)
  handle_command-Traced cancel s h = grind (arith, traces, execute_command-Traced)
  handle_command-Traced kill s h = kill_child-Traced (record s { queued_commands = [] }) h
