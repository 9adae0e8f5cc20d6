-- ===== src/Hub/Machines/Messages.antt =====
-- crates/hub/src/machine_manager.rs, `handle_machine_message`: every message of a machine. `to_json` is
-- serde_json's text of an agent's event, and `now` the clock's time.
use webmux.Base.{String, List, [], map, if◌then◌else◌, ℕ, ok, err}
use webmux.Hub.Agents.{AgentTables}
use webmux.Hub.Agents.Messages.{handle_session_update, handle_session_event, handle_session_exited}
use webmux.Hub.Wire.{MachineToHub, Sent}
use webmux.Hub.Machines.{Effect, sends, PendingResult, MachineManager}
use webmux.Hub.Machines.Terminals.{
  answer, handle_created, handle_destroyed, handle_terminal_destroyed_internal, handle_title,
  handle_attention, handle_cwd, apply_resize, handle_stats,
}
use webmux.Hub.Machines.Reconcile.{handle_existing_terminals}

module _ {S A : Type 0} where
  -- A message on an agent's session, which is dropped where the database does not answer.
  unfoldable pub on_agents :
      MachineManager S
      → (AgentTables → AgentTables × List (Sent S A))
      → MachineManager S × List (Effect S A)
  on_agents m f =
      if m.db_is_up
      then (let (tables, out) = f m.db.agent_tables in
          (
            record m { db = record m.db { agent_tables = tables } },
            map (λ x. sends x.target_user_id x.event) out,
          ))
      else (m, [])

  unfoldable pub handle_machine_message :
      (A → String)
      → MachineManager S
      → String
      → MachineToHub S A
      → ℕ
      → MachineManager S × List (Effect S A)
  unfolding on_agents
  handle_machine_message to_json m machine (MachineToHub.register _ _ _ _ _ _) now = (m, [])
  handle_machine_message to_json m machine (MachineToHub.created request_id id title cwd cols rows)
        now =
      handle_created m machine request_id id title cwd cols rows now
  handle_machine_message to_json m machine (MachineToHub.create_error request_id message) now =
      answer m request_id (err message)
  handle_machine_message to_json m machine (MachineToHub.destroyed id) now =
      handle_destroyed m machine id now
  handle_machine_message to_json m machine (MachineToHub.terminal_title id title source) now =
      handle_title m machine id title source
  handle_machine_message to_json m machine (MachineToHub.terminal_attention id attention) now =
      handle_attention m machine id attention
  handle_machine_message to_json m machine (MachineToHub.terminal_cwd id cwd) now =
      handle_cwd m machine id cwd
  handle_machine_message to_json m machine (MachineToHub.fs_list_result request_id entries) now =
      answer m request_id (ok (PendingResult.fs_list_result entries))
  handle_machine_message to_json m machine (MachineToHub.fs_list_error request_id message) now =
      answer m request_id (err message)
  handle_machine_message to_json m machine (MachineToHub.existing_terminals terminals) now =
      handle_existing_terminals m machine terminals now
  handle_machine_message to_json m machine
        (MachineToHub.foreground_process_result request_id has name) now =
      answer m request_id (ok (PendingResult.foreground_process_result has name))
  handle_machine_message to_json m machine (MachineToHub.composer_result request_id receipt) now =
      answer m request_id (ok (PendingResult.composer receipt))
  handle_machine_message to_json m machine MachineToHub.pong now = (m, [])
  handle_machine_message to_json m machine (MachineToHub.resource_stats stats) now =
      handle_stats m machine stats
  handle_machine_message to_json m machine (MachineToHub.attach_died id reason) now = (m, [])
  handle_machine_message to_json m machine (MachineToHub.terminal_died id reason) now =
      handle_terminal_destroyed_internal m machine id now
  handle_machine_message to_json m machine (MachineToHub.resized id cols rows) now =
      apply_resize m machine id cols rows
  handle_machine_message to_json m machine (MachineToHub.agent_session_update id update) now =
      on_agents m (λ db. handle_session_update db id update now)
  handle_machine_message to_json m machine (MachineToHub.agent_session_happened id seq event) now =
      on_agents m (λ db. handle_session_event to_json db id seq event now)
  handle_machine_message to_json m machine (MachineToHub.agent_session_exited id reason) now =
      on_agents m (λ db. handle_session_exited db id now)
