-- ===== src/Machine/Acp/Transcript.antt =====
-- crates/machine/src/acp.rs and crates/hub/src/machine_manager.rs: what browsers see of the events that
-- a session sends. The hub handles the session's messages in order, each at some time of its clock.
use webmux.Base.{
  ℕ, ◌+◌, ◌^◌, ◌≤◌, ◌<◌, max, ◌≡◌, refl, sym, ap, subst, ◌∙◌, String, Bool, true, Option, none,
  some, List, [], ◌∷◌, ◌++◌, length, length-append, drop, arith, is_some, string_key, leb,
  Bool-cases, inl, inr, ok,
}
use mathlib.Core.List.{append-nil}
use webmux.Base.Map.{get}
use webmux.Hub.Agents.{AgentSessionRow, AgentTables, disconnected}
use webmux.Hub.Agents.Statements.{SessionUpdate, apply_update, set_status, find_session}
use webmux.Hub.Agents.Messages.{
  announce, handle_session_update, handle_session_exited, handle_session_event,
}
use webmux.Hub.Agents.Log.{Message, updates, happens, exits, watermark, handle, handle_all}
use webmux.Hub.Agents.Log.Watermark.{watermark-apply_update}
use webmux.Hub.Wire.{Sent}
use webmux.Machine.Acp.{Json, ActorMsg, SessionActor, AgentEvent, Effect, u64}
use webmux.Machine.Acp.Lines.{run, new}
use webmux.Machine.Acp.Numbers.{run-Traced}
use webmux.Machine.Acp.Traces.{Trace, at_ok}
use webmux.Machine.Acp.Arrivals.{
  arrivals, events, shown, exists, shown-append, exists-apply_update, drop-append_one, drop_all,
}
use webmux.Machine.Acp.Deliveries.{
  tables, out, handle_all-append_one, silent, event-tables, event-shown, event-counts,
}

module _ (S : Type 0) (to_json : AgentEvent → String) where
  -- The hub has a row for the session, has shown the events past the first `w`, and has the number of
  -- the last event.
  record Caught (id : String) (w n : ℕ) (es : List (ℕ × AgentEvent)) (db : AgentTables)
      (xs : List (Sent S AgentEvent)) : Type 0 where
    sees : shown id xs ≡ drop w es
    counts : watermark db id ≡ max w n
    present : exists db id ≡ true
    length_is : length es ≡ n

  update-Caught :
      (id : String) (w n : ℕ) (es : List (ℕ × AgentEvent)) (db : AgentTables)
      (xs : List (Sent S AgentEvent)) (u : SessionUpdate) (now : ℕ)
      → Caught id w n es db xs
      → Caught id w n es
          (apply_update db id u now)
          (xs ++ announce id (find_session (apply_update db id u now) id))
  update-Caught id w n es db xs u now c =
      let o : Option AgentSessionRow = find_session (apply_update db id u now) id in
      record {
        sees =
            shown-append id xs (announce id o)
            ∙ rw (silent S to_json id o, append-nil (shown id xs)) c.sees;
        counts = watermark-apply_update db id id u now ∙ c.counts;
        present = exists-apply_update db id id u now ∙ c.present;
        length_is = c.length_is;
      }

  event-Caught :
      (id : String) (w n : ℕ) (es : List (ℕ × AgentEvent)) (db : AgentTables)
      (xs : List (Sent S AgentEvent)) (event : AgentEvent) (now : ℕ)
      → n + 1 < 2 ^ 63
      → Caught id w n es db xs
      → Caught id w
          (n + 1)
          (es ++ ((n + 1, event) ∷ []))
          (handle_session_event {S = S} to_json db id (n + 1) event now).0
          (xs ++ (handle_session_event {S = S} to_json db id (n + 1) event now).1)
  event-Caught id w n es db xs event now small c =
      let k : ℕ = n + 1 in
      let r : AgentTables × List (Sent S AgentEvent) =
        handle_session_event {S = S} to_json db id k event now in
      let t = event-tables S to_json db id k now event c.present in
      let x = event-shown S to_json db id k now event c.present in
      let a = shown-append id xs r.1 in
      elim (Bool-cases (leb k (watermark db id))) [
        | inl l ↦
            let h : n + 1 ≤ w = ground (arith, l, c.counts) in
            record {
              sees = ground (
                arith,
                a,
                x,
                l,
                c.length_is,
                c.sees,
                append-nil (shown id xs),
                drop_all w es (omega (arith, c.length_is)),
                drop-append_one w es (k, event),
              );
              counts = ground (arith, ap (λ d. watermark d id) t, l, c.counts);
              present = ground (arith, ap (λ d. exists d id) t, l, c.present);
              length_is = ground (arith, length-append es ((k, event) ∷ []), c.length_is);
            }
        | inr l ↦
            let q = event-counts S to_json db id k now (to_json event) small c.present l in
            record {
              sees =
                  ground (
                    arith,
                    a,
                    x,
                    l,
                    c.length_is,
                    c.sees,
                    c.counts,
                    drop-append_one w es (k, event),
                  );
              counts = ground (arith, ap (λ d. watermark d id) t, l, q.0, c.counts);
              present = ground (arith, ap (λ d. exists d id) t, l, q.1);
              length_is = ground (arith, length-append es ((k, event) ∷ []), c.length_is);
            }
      ]

  step_to :
      (id : String) (w n : ℕ) (es : List (ℕ × AgentEvent)) (db : AgentTables)
      (ms : List (Message AgentEvent)) (m : Message AgentEvent)
      → Caught id w n es
          (handle {S = S} to_json (tables S to_json db ms) m).0
          (out S to_json db ms ++ (handle to_json (tables S to_json db ms) m).1)
      → Caught id w n es (tables S to_json db (ms ++ (m ∷ []))) (out S to_json db (ms ++ (m ∷ [])))
  step_to id w n es db ms m c =
      subst (λ r. Caught id w n es r.0 r.1) (sym (handle_all-append_one S to_json db ms m)) c

  -- The hub after the messages of a session.
  caught :
      {V : Type 0} (clock : ℕ → ℕ) (db : AgentTables) (id : String) (n : ℕ) (es : List (Effect V))
      → exists db id ≡ true
      → Trace id n es
      → length (events es) < 2 ^ 63
      → Caught id
          (watermark db id)
          n
          (events es)
          (tables S to_json db (arrivals clock es))
          (out S to_json db (arrivals clock es))
  unfolding handle_all handle handle_session_update handle_session_exited set_status
  caught clock db id n es e Trace.start small = record {
    sees = sym (drop_all (watermark db id) [] (omega arith));
    counts = omega arith;
    present = e;
    length_is = refl;
  }
  caught clock db id n es e (Trace.wrote n' es' v t) small = caught clock db id n' es' e t small
  caught clock db id n es e (Trace.watched n' es' k t) small = caught clock db id n' es' e t small
  caught clock db id n es e (Trace.killed n' es' t) small = caught clock db id n' es' e t small
  caught clock db id n es e (Trace.updated n' es' u t) small =
      let now = clock (length es') in
      let ms = arrivals clock es' in
      step_to id (watermark db id) n' (events es') db ms (updates id u now) (
        update-Caught id (watermark db id) n' (events es') (tables S to_json db ms)
          (out S to_json db ms) u now (caught clock db id n' es' e t small))
  caught clock db id n es e (Trace.exited n' es' r t) small =
      let now = clock (length es') in
      let ms = arrivals clock es' in
      let u : SessionUpdate = record {
        status = some disconnected;
        title = none;
        acp_session_id = none;
        available_models = none;
        current_model_id = none;
      } in
      step_to id (watermark db id) n' (events es') db ms (exits id now) (
        update-Caught id (watermark db id) n' (events es') (tables S to_json db ms)
          (out S to_json db ms) u now (caught clock db id n' es' e t small))
  caught clock db id n es e (Trace.happened n' es' event t) small =
      let now = clock (length es') in
      let ms = arrivals clock es' in
      let l = length-append (events es') ((u64 (n' + 1), event) ∷ []) in
      let ih = caught clock db id n' es' e t (omega (arith, l, small)) in
      let fits : n' + 1 < 2 ^ 63 = omega (arith, l, small, ih.length_is) in
      let exact : u64 (n' + 1) ≡ n' + 1 = omega arith in
      rw exact (
        step_to id (watermark db id) (n' + 1) (events es' ++ ((n' + 1, event) ∷ [])) db ms
          (happens id (n' + 1) event now)
          (event-Caught id (watermark db id) n' (events es') (tables S to_json db ms)
            (out S to_json db ms) event now fits ih))

  pub transcript :
      {V : Type 0} (clock : ℕ → ℕ) (db : AgentTables) (id : String) (n : ℕ) (es : List (Effect V))
      → is_some (get id db.agent_sessions) ≡ true
      → Trace id n es
      → length (events es) < 2 ^ 63
      → shown id (handle_all {S = S} to_json db (arrivals clock es)).1
        ≡ drop (watermark db id) (events es)
  transcript clock db id n es e t small = (caught clock db id n es e t small).sees

-- Whatever reaches a session that does not panic and sends fewer than 2^63 events: the hub, which has a row
-- for the session and handles its messages in order, sends browsers the events of the session in order,
-- all but the first ones, as many as the last number that the hub had stored for it.
pub shown-run :
    (S : Type 0) (to_json : AgentEvent → String) (json : Json) (clock : ℕ → ℕ) (db : AgentTables)
    (ms : List ActorMsg) (id cwd : String) (auto_run : Bool) (resume requested : Option String)
    (s : SessionActor json.Value)
    → run json ms (new json id cwd auto_run resume requested) ≡ ok s
    → is_some (get s.session_id db.agent_sessions) ≡ true
    → length (events s.effects) < 2 ^ 63
    → shown s.session_id (handle_all {S = S} to_json db (arrivals clock s.effects)).1
      ≡ drop (watermark db s.session_id) (events s.effects)
shown-run S to_json json clock db ms id cwd auto_run resume requested s ran row few =
    transcript S to_json clock db s.session_id s.seq s.effects row
      (at_ok (run json ms (new json id cwd auto_run resume requested)) s ran
        (run-Traced json ms id cwd auto_run resume requested))
      few
