-- ===== src/Hub/Machines/Tests.antt =====
-- Machines at a concrete manager: one machine is connected, with two terminals.
use webmux.Base.{
  string_key, ℕ, String, Option, ◌≡◌, refl, true, false, none, some, List, [], ◌∷◌, All, is_some,
}
use webmux.Base.Map.{get, insert, modify, mapped}
use webmux.Base.Set.{contains}
use webmux.Hub.Machines.Terminals.{handle_created}
use webmux.Hub.Sessions.{osc, none_source}
use webmux.Hub.Wire.{MachineInfo, TerminalInfo, terminal_died, created}
use webmux.Hub.Machines.{Db, MachineConnection, MachineManager, owner_of, terminal_of}
use webmux.Hub.Machines.Connections.{register_machine_with_capabilities, unregister_machine}
use webmux.Hub.Machines.Access.{user_can_access_machine, user_can_access_terminal}
use webmux.Hub.Machines.Reconcile.{handle_existing_terminals}
use webmux.Hub.Machines.Reconnect.{last_report, Named}
use webmux.Hub.Machines.Reconnect.Restored.{as_known, reconnect_exact}
use webmux.Hub.Machines.Messages.{handle_machine_message}
use webmux.Hub.Machines.Owners.{IsFor}
use webmux.Hub.Machines.Owners.Told.{handle_machine_message-IsFor}
use webmux.Hub.Machines.Disconnect.{unregister_machine_exact}
use webmux.Hub.Machines.Naming.Calls.{Call, connects, says, run, run_all, run_all-Named}

abbrev nas : MachineInfo
nas = record { id = "nas"; name = "nas"; os = "linux"; home_dir = "/home"; production = false }

abbrev terminal : String → String → Option String → TerminalInfo
terminal id title group = record {
  id = id;
  machine_id = "nas";
  title = title;
  cwd = "/home";
  title_source = osc;
  workspace_group_id = group;
  cols = 80;
  rows = 24;
  reachable = true;
  attention = none;
}

abbrev connected : MachineConnection ℕ
connected = record {
  conn_id = "c1";
  info = nas;
  user_id = some "u";
  terminals = ("t1", terminal "t1" "build" (some "g1")) ∷ ("t2", terminal "t2" "logs" none) ∷ [];
  latest_stats = none;
  capabilities = [];
}

abbrev tables : Db
tables = record {
  machine_rows =
      (
        "nas",
        record { user_id = "u"; name = "nas"; os = none; home_dir = none; production = false },
      )
      ∷ [];
  terminal_sessions = [];
  workspace_groups = [];
  workspace_layouts = [];
  agent_tables = record { agent_sessions = []; agent_session_events = []; agent_session_seen = [] };
}

abbrev empty : MachineManager ℕ
empty = record {
  machines = [];
  pending = [];
  mode = [];
  db = tables;
  db_is_up = true;
  persisted_terminals = [];
}

abbrev manager : MachineManager ℕ
manager = record empty { machines = ("nas", connected) ∷ [] }

-- The machine reports one of the two, with a title of its own, and a new one.
abbrev two_reported : List TerminalInfo
two_reported = terminal "t1" "zsh" none ∷ terminal "t3" "zsh" none ∷ []

abbrev again : MachineManager ℕ
again = (register_machine_with_capabilities {S = ℕ} {A = String} manager "c2" nas (some "u") []).0

reconnect_exact_example :
    terminal_of
      (handle_existing_terminals {S = ℕ} {A = String} again "nas" two_reported 9).0
      "nas"
      "t1"
    ≡ mapped (as_known (get "t1" connected.terminals)) (last_report "t1" two_reported)
unfolding get
reconnect_exact_example =
    reconnect_exact ℕ String manager "c2" nas (some "u") [] connected two_reported 9 "t1" refl
      (refl, refl, (refl, refl, tt)) refl

handle_machine_message-IsFor_example :
    All
      (IsFor (owner_of (get "nas" manager.machines)))
      (handle_machine_message (λ (e : String). e) manager "nas" (terminal_died "t1" "gone") 9).1
handle_machine_message-IsFor_example =
    handle_machine_message-IsFor ℕ String (λ (e : String). e) manager "nas"
      (terminal_died "t1" "gone") 9 refl

unregister_machine_exact_example :
    let m' = (unregister_machine {S = ℕ} {A = String} manager "nas" "c1" 9).0 in
    (unregister_machine {S = ℕ} {A = String} manager "nas" "c0" 9 ≡ (manager, []))
    × (user_can_access_machine m' "u" "nas" ≡ false)
    × (user_can_access_terminal m' "u" "nas" "t1" ≡ is_some (get "t1" connected.terminals))
unfolding get
unregister_machine_exact_example =
    unregister_machine_exact ℕ String manager "nas" "c0" "u" connected 9 "t1" refl refl
      (refl, refl, (refl, refl, tt)) refl refl refl

abbrev calls : List (Call ℕ String)
calls = connects "c1" nas (some "u") [] ∷ says "nas" (created "r1" "t1" "zsh" "/home" 80 24) 5 ∷ []

abbrev shell : MachineConnection ℕ
shell = record {
  conn_id = "c1";
  info = nas;
  user_id = some "u";
  terminals = ("t1", record (terminal "t1" "zsh" none) { title_source = none_source }) ∷ [];
  latest_stats = none;
  capabilities = [];
}

run_all-Named_example : Named shell.terminals
unfolding get run_all run handle_machine_message handle_created contains
    register_machine_with_capabilities insert modify
run_all-Named_example = run_all-Named ℕ String (λ (e : String). e) empty calls "nas" shell refl refl
