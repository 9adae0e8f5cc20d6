-- ===== src/Machine/Acp/Questions.antt =====
-- What becomes of the questions that an agent asks.
use webmux.Base.{◌+◌, ◌≡◌, ◌≢◌, String, false, Option, none, some, [], ◌∷◌, arith, string_key}
use webmux.Hub.Agents.{working}
use webmux.Hub.Wire.{agent_session_update, agent_session_happened}
use webmux.Machine.Acp.{question_resolved, Json, SessionActor, sends, writes, u64}
use webmux.Machine.Acp.Values.{rpc_id_string}
use webmux.Machine.Acp.Outputs.{
  emit_event, send_update, send_status, write_message, effect, write_outcome, only_status, response,
  selected, cancelled,
}
use webmux.Machine.Acp.Commands.{handle_answer}
use webmux.Machine.Acp.Lines.{ask}

-- Of two questions with different ids, in a session that does not run on its own, only the later one can
-- be answered, and once. Its answer is written to the agent under that question's id, with the option
-- chosen or as cancelled, then the hub is told that it is resolved and that the session works, and no
-- question is pending. An answer to the earlier one changes nothing, whether it comes before or after
-- the answer to the later one, and so does a second answer to the later one.
pub only_last_question :
    (json : Json) (s : SessionActor json.Value) (a b p q : json.Value) (o o' t t' : Option String)
    → s.auto_run ≡ false
    → rpc_id_string json a ≢ rpc_id_string json b
    → let asked = ask json b q (ask json a p s) in
      let done = handle_answer json (rpc_id_string json b) o t asked in
      (done.effects ≡ (
        sends (agent_session_update s.session_id (only_status working))
        ∷ sends (
            agent_session_happened s.session_id
              (u64 (asked.seq + 1))
              (question_resolved (rpc_id_string json b)))
        ∷ writes (
            response json b (
              json.object
                (("outcome", elim o [ none ↦ cancelled json | some x ↦ selected json x ]) ∷ [])))
        ∷ asked.effects))
      × (done.pending_question ≡ none)
      × (handle_answer json (rpc_id_string json a) o' t' asked ≡ asked)
      × (handle_answer json (rpc_id_string json a) o' t' done ≡ done)
      × (handle_answer json (rpc_id_string json b) o' t' done ≡ done)
unfolding handle_answer ask emit_event send_status send_update write_outcome write_message effect
only_last_question json s a b p q o o' t t' manual differ = (
  ground (arith, manual, string_key.eq_iff (rpc_id_string json b) (rpc_id_string json b)),
  ground (arith, manual, string_key.eq_iff (rpc_id_string json b) (rpc_id_string json b)),
  ground (arith, manual, differ, string_key.eq_iff (rpc_id_string json b) (rpc_id_string json a)),
  ground (arith, manual, string_key.eq_iff (rpc_id_string json b) (rpc_id_string json b)),
  ground (arith, manual, string_key.eq_iff (rpc_id_string json b) (rpc_id_string json b)),
)
