-- ===== src/Machine/Acp/Queue.antt =====
-- The queue of a session: its commands wait, and then run as they do on arrival.
use webmux.Base.{
  ◌+◌, ◌≤◌, ◌≡◌, refl, ap, sym, ◌∙◌, String, false, none, some, List, [], ◌∷◌, ◌++◌, map, All,
  length, length-append, Result, ok, err, if◌then◌else◌, arith, ◌>>=◌, nat_key,
}
use mathlib.Core.List.{append_assoc, append-nil}
use webmux.Machine.Acp.{
  Json, SessionActor, SessionCommand, prompt, answer, set_model, cancel, kill, ActorMsg, command,
  kills,
}
use webmux.Machine.Acp.Outputs.{effect, write_message, send_request, send_notification}
use webmux.Machine.Acp.Commands.{
  execute_command, flush_loop, handle_command_unless_kill, handle_command,
}
use webmux.Machine.Acp.Lines.{handle, loop}
use webmux.Machine.Acp.Traces.{Returns}

abbrev pub IsKept : SessionCommand → Type 0
IsKept kill = ⊥
IsKept (prompt text) = Unit
IsKept (answer r o t) = Unit
IsKept (set_model m) = Unit
IsKept cancel = Unit

abbrev pub with_queue : {V : Type 0} → List SessionCommand → SessionActor V → SessionActor V
with_queue q s = record s { queued_commands = q }

module _ (json : Json) where
  -- A command runs whatever the queue is, and leaves it.
  execute-with_queue :
      (c : SessionCommand) (q : List SessionCommand) (s : SessionActor json.Value)
      → execute_command json c (with_queue q s)
        ≡ (execute_command json c s >>= λ u. ok (with_queue q u))
  unfolding execute_command send_request send_notification write_message effect
  execute-with_queue (prompt text) q s = ground arith
  execute-with_queue (answer r o t) q s = ground arith
  execute-with_queue (set_model m) q s = ground arith
  execute-with_queue cancel q s = ground arith
  execute-with_queue kill q s = ground arith

  abbrev Same : SessionActor json.Value → SessionActor json.Value → Type 0
  Same s t = (t.acp_session_id ≡ s.acp_session_id) × (t.ended ≡ s.ended)

  execute-Same :
      (c : SessionCommand) (s : SessionActor json.Value)
      → Returns (Same s) (execute_command json c s)
  unfolding execute_command send_request send_notification write_message effect
  execute-Same (prompt text) s = ground arith
  execute-Same (answer r o t) s = ground arith
  execute-Same (set_model m) s = ground arith
  execute-Same cancel s = ground arith
  execute-Same kill s = ground arith

  -- Once there is a session, a command runs at once.
  handle-ready :
      (c : SessionCommand) (id : String) (s : SessionActor json.Value)
      → IsKept c
      → s.acp_session_id ≡ some id
      → handle json (command c) s ≡ execute_command json c s
  unfolding handle handle_command handle_command_unless_kill
  handle-ready (prompt text) id s k e = ground (arith, e)
  handle-ready (answer r o t) id s k e = ground (arith, e)
  handle-ready (set_model m) id s k e = ground (arith, e)
  handle-ready cancel id s k e = ground (arith, e)
  handle-ready kill id s k e = absurd k

  -- Before, it waits.
  handle-waiting :
      (c : SessionCommand) (s : SessionActor json.Value)
      → IsKept c
      → s.acp_session_id ≡ none
      → s.failed ≡ false
      → length s.queued_commands + 1 ≤ 16
      → handle json (command c) s ≡ ok (with_queue (s.queued_commands ++ (c ∷ [])) s)
  unfolding handle handle_command handle_command_unless_kill
  handle-waiting (prompt text) s k e f l = ground (arith, e, f, l)
  handle-waiting (answer r o t) s k e f l = ground (arith, e, f, l)
  handle-waiting (set_model m) s k e f l = ground (arith, e, f, l)
  handle-waiting cancel s k e f l = ground (arith, e, f, l)
  handle-waiting kill s k e f l = absurd k

  -- One round of the loop, in a session that goes on.
  pub loop-continues :
      (m : ActorMsg) (ms : List ActorMsg) (s t : SessionActor json.Value)
      → handle json m s ≡ ok t
      → t.ended ≡ false
      → loop json (m ∷ ms) s ≡ loop json ms t
  unfolding loop
  loop-continues m ms s t h e = ground (arith, h, e)

  pub loop-waiting :
      (cs : List SessionCommand) (q : List SessionCommand) (ms : List ActorMsg)
      (s : SessionActor json.Value)
      → All IsKept cs
      → s.acp_session_id ≡ none
      → s.failed ≡ false
      → s.ended ≡ false
      → length q + length cs ≤ 16
      → loop json (map command cs ++ ms) (with_queue q s) ≡ loop json ms (with_queue (q ++ cs) s)
  unfolding loop
  loop-waiting [] q ms s k e f d l = rw (append-nil q) refl
  loop-waiting (c ∷ cs) q ms s k e f d l =
      let q' = q ++ (c ∷ []) in
      loop-continues (command c) (map command cs ++ ms) (with_queue q s) (with_queue q' s)
        (handle-waiting c (with_queue q s) k.0 e f (omega (arith, l))) d
      ∙ loop-waiting cs q' ms s k.1 e f d (omega (arith, length-append q (c ∷ []), l))
      ∙ ap (λ z. loop json ms (with_queue z s)) (append_assoc q (c ∷ []) cs)

  -- The queue of a session that is ready runs as the same commands do on arrival.
  pub flush_loop-loop :
      (cs : List SessionCommand) (id : String) (s : SessionActor json.Value)
      → All IsKept cs
      → s.acp_session_id ≡ some id
      → s.ended ≡ false
      → flush_loop json cs (with_queue cs s) ≡ loop json (map command cs) (with_queue [] s)
  unfolding flush_loop loop
  flush_loop-loop [] id s k e d = refl
  flush_loop-loop (c ∷ cs) id s k e d =
      ap (λ r. r >>= flush_loop json cs) (execute-with_queue c cs s)
      ∙ go (execute_command json c s) (execute-Same c s) (λ u. flush_loop-loop cs id u k.1)
      ∙ sym (
          ap
            (λ r. r >>= λ t.
              let rest = loop json (map command cs) t in
              if t.ended then ok (effect kills t) else rest)
            (handle-ready c id (with_queue [] s) k.0 e ∙ execute-with_queue c [] s))
    where
      go :
          (r : Result (SessionActor json.Value) String)
          → Returns (Same s) r
          → ((u : SessionActor json.Value)
              → u.acp_session_id ≡ some id
              → u.ended ≡ false
              → flush_loop json cs (with_queue cs u) ≡ loop json (map command cs) (with_queue [] u))
          → ((r >>= λ u. ok (with_queue cs u)) >>= flush_loop json cs) ≡ (
              (r >>= λ u. ok (with_queue [] u)) >>= λ t.
              let rest = loop json (map command cs) t in
              if t.ended then ok (effect kills t) else rest)
      go (err x) same rest = refl
      go (ok u) same rest = rest u (same.0 ∙ e) (same.1 ∙ d) ∙ ground (arith, same.1 ∙ d)

  pub flush_loop-ended :
      (cs : List SessionCommand) (s : SessionActor json.Value)
      → s.ended ≡ false
      → Returns (λ t. t.ended ≡ false) (flush_loop json cs s)
  unfolding flush_loop
  flush_loop-ended [] s d = d
  flush_loop-ended (c ∷ cs) s d =
      go (execute_command json c (with_queue cs s)) (execute-Same c (with_queue cs s))
        (λ u. flush_loop-ended cs u)
    where
      go :
          (r : Result (SessionActor json.Value) String)
          → Returns (Same (with_queue cs s)) r
          → ((u : SessionActor json.Value)
              → u.ended ≡ false
              → Returns (λ t. t.ended ≡ false) (flush_loop json cs u))
          → Returns (λ t. t.ended ≡ false) (r >>= flush_loop json cs)
      go (err x) same rest = tt
      go (ok u) same rest = rest u (same.1 ∙ d)
