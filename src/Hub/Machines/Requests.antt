-- ===== src/Hub/Machines/Requests.antt =====
-- crates/hub/src/machine_manager.rs: the requests to a machine that wait for its answer. A request runs
-- in two parts, with messages of machines between them: it is registered and sent, and it ends with an
-- answer, with its channel closed, or with the time that it may wait. Whether the channel to the
-- machine takes the command is an argument.
use Prim.Native.String.{◌++◌}
use webmux.Base.{
  String, Bool, not, Option, List, Result, ok, err, ◌>>=◌, is_some, if◌then◌else◌, string_key,
}
use webmux.Base.Map.{get}
use webmux.Base.Set.{add, delete}
use webmux.Hub.Wire.{TerminalInfo, DirEntry}
use webmux.Hub.Machines.{
  MachineManager, PendingResult, composer, terminal_created, fs_list_result,
  foreground_process_result,
}
use webmux.Hub.Machines.Terminals.{created_info}

-- How the wait for an answer ends.
pub data Waited : Type 0 where
  answered : Result PendingResult String → Waited
  closed timed_out : Waited

abbrev pub not_found : String → String
not_found machine = "Machine " ++ (machine ++ " not found")

module _ {S : Type 0} where
  unfoldable pub register_pending : MachineManager S → String → MachineManager S
  register_pending m request_id = record m { pending = add request_id m.pending }

  unfoldable pub remove_pending : MachineManager S → String → MachineManager S
  remove_pending m request_id = record m { pending = delete request_id m.pending }

  -- The first part of a request: whether it waits now, or its error.
  unfoldable pub begin_request :
      MachineManager S → String → String → Bool → MachineManager S × Result (Unit {0}) String
  begin_request m machine request_id accepted =
      let waiting = register_pending m request_id in
      if not (is_some (get machine m.machines))
      then (remove_pending waiting request_id, err (not_found machine))
      else if not accepted
      then (remove_pending waiting request_id, err "Machine disconnected")
      else (waiting, ok tt)

  -- The second part: the machine's answer, or the error.
  unfoldable pub end_request :
      MachineManager S → String → String → Waited → MachineManager S × Result PendingResult String
  end_request m request_id timeout (answered result) = (m, result)
  end_request m request_id timeout closed =
      (remove_pending m request_id, err "Machine disconnected")
  end_request m request_id timeout timed_out = (remove_pending m request_id, err timeout)

abbrev pub created_terminal : String → PendingResult → Result TerminalInfo String
created_terminal machine (terminal_created id title cwd cols rows) =
    ok (created_info machine id title cwd cols rows)
created_terminal machine (composer receipt) = err "Unexpected response"
created_terminal machine (fs_list_result entries) = err "Unexpected response"
created_terminal machine (foreground_process_result has name) = err "Unexpected response"

abbrev pub listed : PendingResult → Result (List DirEntry) String
listed (fs_list_result entries) = ok entries
listed (composer receipt) = err "Unexpected response"
listed (terminal_created id title cwd cols rows) = err "Unexpected response"
listed (foreground_process_result has name) = err "Unexpected response"

abbrev pub foreground : PendingResult → Result (Bool × Option String) String
foreground (foreground_process_result has name) = ok (has, name)
foreground (composer receipt) = err "Unexpected response"
foreground (terminal_created id title cwd cols rows) = err "Unexpected response"
foreground (fs_list_result entries) = err "Unexpected response"

module _ {S : Type 0} where
  -- The ends of `create_terminal`, `list_directory` and `check_foreground_process`.
  unfoldable pub create_terminal :
      MachineManager S → String → String → Waited → MachineManager S × Result TerminalInfo String
  create_terminal m machine request_id waited =
      let (m', result) = end_request m request_id "Timeout waiting for terminal creation" waited in
      (m', result >>= created_terminal machine)

  unfoldable pub list_directory :
      MachineManager S → String → Waited → MachineManager S × Result (List DirEntry) String
  list_directory m request_id waited =
      let (m', result) = end_request m request_id "Timeout" waited in (m', result >>= listed)

  unfoldable pub check_foreground_process :
      MachineManager S → String → Waited → MachineManager S × Result (Bool × Option String) String
  check_foreground_process m request_id waited =
      let (m', result) = end_request m request_id "Timeout" waited in (m', result >>= foreground)

  -- `send_to_machine`, and `destroy_terminal`, which sends one command and waits for nothing.
  unfoldable pub send_to_machine : MachineManager S → String → Bool → Result (Unit {0}) String
  send_to_machine m machine accepted =
      if not (is_some (get machine m.machines))
      then err (not_found machine)
      else if accepted
      then ok tt
      else err "Machine disconnected"
