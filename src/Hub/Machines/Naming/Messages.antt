-- ===== src/Hub/Machines/Naming/Messages.antt =====
-- The ids of the terminals, through every message of a machine.
use webmux.Base.{String, none, [], ◌∷◌, string_key, ℕ, ok, err}
use webmux.Base.Map.{get}
use webmux.Hub.Wire.{TerminalInfo, MachineInfo, MachineToHub, TerminalAttention, Sent}
use webmux.Hub.Wire as Wire
use webmux.Hub.Machines.{sends, PendingResult, MachineManager}
use webmux.Hub.Machines.Terminals.{handle_destroyed, handle_terminal_destroyed_internal}
use webmux.Hub.Agents.Messages.{handle_session_update, handle_session_event, handle_session_exited}
use webmux.Hub.Machines.Messages.{handle_machine_message}
use webmux.Hub.Machines.Naming.Handlers.{
  Keeps, Keeps-created, Keeps-answer, Keeps-destroyed, Keeps-title, Keeps-attention, Keeps-cwd,
  Keeps-existing, Keeps-stats, Keeps-resize, Keeps-agents,
}

module _ (S A : Type 0) where
  -- Every message of a machine keeps the invariant.
  pub Keeps-message :
      (to_json : A → String) (m : MachineManager S) (machine : String) (msg : MachineToHub S A)
      (now : ℕ)
      → Keeps S A m (handle_machine_message to_json m machine msg now)
  unfolding handle_machine_message handle_destroyed handle_terminal_destroyed_internal
  Keeps-message to_json m machine (MachineToHub.register _ _ _ _ _ _) now = λ v. v
  Keeps-message to_json m machine (MachineToHub.created request_id id title cwd cols rows) now =
      Keeps-created S A m machine request_id id title cwd cols rows now
  Keeps-message to_json m machine (MachineToHub.create_error request_id message) now =
      Keeps-answer S A m request_id (err message)
  Keeps-message to_json m machine (MachineToHub.destroyed id) now =
      Keeps-destroyed S A m machine id now [] (get machine m.machines)
  Keeps-message to_json m machine (MachineToHub.terminal_title id title source) now =
      Keeps-title S A m machine id title source
  Keeps-message to_json m machine (MachineToHub.terminal_attention id attention) now =
      Keeps-attention S A m machine id attention
  Keeps-message to_json m machine (MachineToHub.terminal_cwd id cwd) now =
      Keeps-cwd S A m machine id cwd
  Keeps-message to_json m machine (MachineToHub.fs_list_result request_id entries) now =
      Keeps-answer S A m request_id (ok (PendingResult.fs_list_result entries))
  Keeps-message to_json m machine (MachineToHub.fs_list_error request_id message) now =
      Keeps-answer S A m request_id (err message)
  Keeps-message to_json m machine (MachineToHub.existing_terminals terminals) now =
      Keeps-existing S A m machine terminals now
  Keeps-message to_json m machine (MachineToHub.foreground_process_result request_id has name) now =
      Keeps-answer S A m request_id (ok (PendingResult.foreground_process_result has name))
  Keeps-message to_json m machine (MachineToHub.composer_result request_id receipt) now =
      Keeps-answer S A m request_id (ok (PendingResult.composer receipt))
  Keeps-message to_json m machine MachineToHub.pong now = λ v. v
  Keeps-message to_json m machine (MachineToHub.resource_stats stats) now =
      Keeps-stats S A m machine stats
  Keeps-message to_json m machine (MachineToHub.attach_died id reason) now = λ v. v
  Keeps-message to_json m machine (MachineToHub.terminal_died id reason) now =
      Keeps-destroyed S A m machine id now (sends none (Wire.terminal_destroyed machine id) ∷ [])
        (get machine m.machines)
  Keeps-message to_json m machine (MachineToHub.resized id cols rows) now =
      Keeps-resize S A m machine id cols rows
  Keeps-message to_json m machine (MachineToHub.agent_session_update id update) now =
      Keeps-agents S A m (λ db. handle_session_update db id update now)
  Keeps-message to_json m machine (MachineToHub.agent_session_happened id seq event) now =
      Keeps-agents S A m (λ db. handle_session_event to_json db id seq event now)
  Keeps-message to_json m machine (MachineToHub.agent_session_exited id reason) now =
      Keeps-agents S A m (λ db. handle_session_exited db id now)
