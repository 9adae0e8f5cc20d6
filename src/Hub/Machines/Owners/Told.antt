-- ===== src/Hub/Machines/Owners/Told.antt =====
-- Who is told what: every message of a machine on its terminals.
use webmux.Base.{String, ◌≡◌, false, ok, err, All, arith, string_key, ℕ}
use webmux.Base.Map.{get}
use webmux.Hub.Wire.{MachineToHub}
use webmux.Hub.Machines.{PendingResult, MachineManager, owner_of}
use webmux.Hub.Machines.Terminals.{handle_destroyed, handle_terminal_destroyed_internal}
use webmux.Hub.Machines.Messages.{handle_machine_message}
use webmux.Hub.Machines.Owners.{IsFor, is_agent}
use webmux.Hub.Machines.Owners.Handlers.{
  answer-for, created-for, existing-for, titles-for, attention-for, stats-for, resize-for, cwd-for,
  destroyed-for, ends-for,
}

-- Every event that a message of a machine on its terminals or resources causes is sent to the owner of
-- the machine's connection, and to no one else. Where the machine has no connection, or the
-- connection no owner, the event is sent to every user.
pub handle_machine_message-IsFor :
    (S A : Type 0) (to_json : A → String) (m : MachineManager S) (machine : String)
    (msg : MachineToHub S A) (now : ℕ)
    → is_agent msg ≡ false
    → All
        (IsFor (owner_of (get machine m.machines)))
        (handle_machine_message to_json m machine msg now).1
unfolding handle_machine_message handle_destroyed handle_terminal_destroyed_internal
handle_machine_message-IsFor S A to_json m machine (MachineToHub.register _ _ _ _ _ _) now a = tt
handle_machine_message-IsFor S A to_json m machine
      (MachineToHub.created request_id id title cwd cols rows) now a =
    created-for S A m machine request_id id title cwd cols rows now
handle_machine_message-IsFor S A to_json m machine (MachineToHub.create_error request_id message)
      now a =
    answer-for S A m (owner_of (get machine m.machines)) request_id (err message)
handle_machine_message-IsFor S A to_json m machine (MachineToHub.destroyed id) now a =
    ends-for S A m machine id now (get machine m.machines)
handle_machine_message-IsFor S A to_json m machine (MachineToHub.terminal_title id title source) now
      a =
    titles-for S A m machine id title source
handle_machine_message-IsFor S A to_json m machine (MachineToHub.terminal_attention id attention)
      now a =
    attention-for S A m machine id attention
handle_machine_message-IsFor S A to_json m machine (MachineToHub.terminal_cwd id cwd) now a =
    cwd-for S A m machine id cwd
handle_machine_message-IsFor S A to_json m machine (MachineToHub.fs_list_result request_id entries)
      now a =
    answer-for S A m (owner_of (get machine m.machines)) request_id
      (ok (PendingResult.fs_list_result entries))
handle_machine_message-IsFor S A to_json m machine (MachineToHub.fs_list_error request_id message)
      now a =
    answer-for S A m (owner_of (get machine m.machines)) request_id (err message)
handle_machine_message-IsFor S A to_json m machine (MachineToHub.existing_terminals terminals) now
      a =
    existing-for S A m machine terminals now
handle_machine_message-IsFor S A to_json m machine
      (MachineToHub.foreground_process_result request_id has name) now a =
    answer-for S A m (owner_of (get machine m.machines)) request_id
      (ok (PendingResult.foreground_process_result has name))
handle_machine_message-IsFor S A to_json m machine (MachineToHub.composer_result request_id receipt)
      now a =
    answer-for S A m (owner_of (get machine m.machines)) request_id
      (ok (PendingResult.composer receipt))
handle_machine_message-IsFor S A to_json m machine MachineToHub.pong now a = tt
handle_machine_message-IsFor S A to_json m machine (MachineToHub.resource_stats stats) now a =
    stats-for S A m machine stats
handle_machine_message-IsFor S A to_json m machine (MachineToHub.attach_died id reason) now a = tt
handle_machine_message-IsFor S A to_json m machine (MachineToHub.terminal_died id reason) now a =
    destroyed-for S A m machine id now (get machine m.machines)
handle_machine_message-IsFor S A to_json m machine (MachineToHub.resized id cols rows) now a =
    resize-for S A m machine id cols rows
handle_machine_message-IsFor S A to_json m machine (MachineToHub.agent_session_update id update) now
      a =
    absurd (ground (arith, a))
handle_machine_message-IsFor S A to_json m machine
      (MachineToHub.agent_session_happened id seq event) now a =
    absurd (ground (arith, a))
handle_machine_message-IsFor S A to_json m machine (MachineToHub.agent_session_exited id reason) now
      a =
    absurd (ground (arith, a))
