-- ===== src/Machine/Acp/Outputs.antt =====
-- crates/machine/src/acp.rs: how a session writes to its agent and speaks to the hub.
use webmux.Base.{ℕ, ◌+◌, String, Bool, true, false, none, some, [], ◌∷◌, if◌then◌else◌, nat_key}
use webmux.Base.Map.{insert}
use webmux.Hub.Agents.{AgentSessionStatus}
use webmux.Hub.Agents.Statements.{SessionUpdate}
use webmux.Hub.Wire.{agent_session_update, agent_session_happened}
use webmux.Machine.Acp.{
  AgentEvent, Json, PendingRpc, initialize, session_new, session_load, prompt_sent, set_model_sent,
  Effect, writes, sends, watches, kills, SessionActor, u64,
}

unfoldable pub effect : {V : Type 0} → Effect V → SessionActor V → SessionActor V
effect e s = record s { effects = e ∷ s.effects }

unfoldable pub emit_event : {V : Type 0} → AgentEvent → SessionActor V → SessionActor V
unfolding effect
emit_event event s =
    effect (sends (agent_session_happened s.session_id (u64 (s.seq + 1)) event))
      (record s { seq = u64 (s.seq + 1) })

abbrev pub only_status : AgentSessionStatus → SessionUpdate
only_status status = record {
  status = some status;
  title = none;
  acp_session_id = none;
  available_models = none;
  current_model_id = none;
}

unfoldable pub send_update : {V : Type 0} → SessionUpdate → SessionActor V → SessionActor V
unfolding effect
send_update update s = effect (sends (agent_session_update s.session_id update)) s

unfoldable pub send_status : {V : Type 0} → AgentSessionStatus → SessionActor V → SessionActor V
unfolding send_update
send_status status s = send_update (only_status status) s

abbrev pub needs_watchdog : PendingRpc → Bool
needs_watchdog initialize = true
needs_watchdog session_new = true
needs_watchdog session_load = true
needs_watchdog prompt_sent = false
needs_watchdog (set_model_sent model_id) = false

module _ (json : Json) where
  unfoldable pub write_message : json.Value → SessionActor json.Value → SessionActor json.Value
  unfolding effect
  write_message value s = effect (writes value) s

  abbrev pub request : ℕ → String → json.Value → json.Value
  request id method params = json.object (
      ("jsonrpc", json.text "2.0")
      ∷ ("id", json.number id)
      ∷ ("method", json.text method)
      ∷ ("params", params)
      ∷ [])

  unfoldable pub send_request :
      PendingRpc → String → json.Value → SessionActor json.Value → SessionActor json.Value
  unfolding write_message effect
  send_request kind method params s =
      let id = s.next_rpc_id in
      let s' =
        write_message (request id method params)
          (record s { next_rpc_id = u64 (id + 1); pending = insert id kind s.pending }) in
      if needs_watchdog kind then effect (watches id) s' else s'

  unfoldable pub send_notification :
      String → json.Value → SessionActor json.Value → SessionActor json.Value
  unfolding write_message
  send_notification method params s =
      write_message
        (json.object
          (("jsonrpc", json.text "2.0") ∷ ("method", json.text method) ∷ ("params", params) ∷ []))
        s

  abbrev pub response : json.Value → json.Value → json.Value
  response id result =
      json.object (("jsonrpc", json.text "2.0") ∷ ("id", id) ∷ ("result", result) ∷ [])

  abbrev pub selected : String → json.Value
  selected option_id =
      json.object (("outcome", json.text "selected") ∷ ("optionId", json.text option_id) ∷ [])

  abbrev pub cancelled : json.Value
  cancelled = json.object (("outcome", json.text "cancelled") ∷ [])

  -- The answer to a permission request.
  unfoldable pub write_outcome :
      json.Value → json.Value → SessionActor json.Value → SessionActor json.Value
  unfolding write_message
  write_outcome rpc_id outcome s =
      write_message (response rpc_id (json.object (("outcome", outcome) ∷ []))) s

  unfoldable pub kill_child : SessionActor json.Value → SessionActor json.Value
  unfolding effect write_outcome
  kill_child s = effect kills (elim s.pending_question [
    | none ↦ s
    | some (id, rpc_id) ↦ write_outcome rpc_id cancelled (record s { pending_question = none })
  ])
