-- ===== src/Hub/Machines/Naming/Calls.antt =====
-- The calls of the manager, in any order, and the ids of the terminals.
use webmux.Base.{String, ◌≡◌, sym, subst, Bool, Option, some, List, [], ◌∷◌, string_key, ℕ}
use webmux.Base.Map.{get}
use webmux.Hub.Wire.{MachineInfo, MachineToHub}
use webmux.Hub.Machines.{MachineConnection, MachineManager}
use webmux.Hub.Machines.Connections.{
  connection, register_machine_with_capabilities, unregister_machine, remove_machine,
  set_machine_production,
}
use webmux.Hub.Machines.Tabs.{set_terminal_workspace_group, clear_workspace_group_assignments}
use webmux.Hub.Machines.Messages.{handle_machine_message}
use webmux.Hub.Machines.Reconnect.{Named}
use webmux.Hub.Machines.Naming.{NamedIn, IsNamed, IsNamed-insert, IsNamed-modify}
use webmux.Hub.Machines.Naming.Messages.{Keeps-message}
use webmux.Hub.Machines.Naming.Operations.{unregister-IsNamed, forget-IsNamed}
use webmux.Hub.Machines.Naming.Tabs.{group-IsNamed, clear-IsNamed}

-- A call of the manager.
pub data Call (S A : Type 0) : Type 0 where
  connects : String → MachineInfo → Option String → List String → Call S A
  says : String → MachineToHub S A → ℕ → Call S A
  disconnects : String → String → ℕ → Call S A
  forgets : String → String → Call S A
  marks : String → Bool → Call S A
  groups : String → String → String → Option String → ℕ → Call S A
  ungroups : String → String → String → Call S A

module _ (S A : Type 0) (to_json : A → String) where
  unfoldable pub run : MachineManager S → Call S A → MachineManager S
  run m (connects conn_id info user capabilities) =
      (register_machine_with_capabilities {S = S} {A = A} m conn_id info user capabilities).0
  run m (says machine msg now) =
      (handle_machine_message {S = S} {A = A} to_json m machine msg now).0
  run m (disconnects machine conn_id now) =
      (unregister_machine {S = S} {A = A} m machine conn_id now).0
  run m (forgets user machine) = (remove_machine {S = S} {A = A} m user machine).0
  run m (marks machine production) = set_machine_production m machine production
  run m (groups user machine id group now) =
      (set_terminal_workspace_group {S = S} {A = A} m user machine id group now).0
  run m (ungroups user machine group) =
      (clear_workspace_group_assignments {S = S} {A = A} m user machine group).0

  unfoldable pub run_all : MachineManager S → List (Call S A) → MachineManager S
  run_all m [] = m
  run_all m (c ∷ cs) = run_all (run m c) cs

  run-IsNamed :
      (m : MachineManager S) (c : Call S A) → IsNamed m.machines → IsNamed (run m c).machines
  unfolding run register_machine_with_capabilities set_machine_production
  run-IsNamed m (connects conn_id info user capabilities) v =
      IsNamed-insert info.id (connection conn_id info user capabilities) m.machines tt v
  run-IsNamed m (says machine msg now) v = Keeps-message S A to_json m machine msg now v
  run-IsNamed m (disconnects machine conn_id now) v = unregister-IsNamed S A m machine conn_id now v
  run-IsNamed m (forgets user machine) v = forget-IsNamed S A m user machine v
  run-IsNamed m (marks machine production) v =
      IsNamed-modify machine
        (λ conn. record conn { info = record conn.info { production = production } }) m.machines
        (λ conn g n. n) v
  run-IsNamed m (groups user machine id group now) v =
      group-IsNamed S A m user machine id group now v
  run-IsNamed m (ungroups user machine group) v = clear-IsNamed S A m user machine group v

  run_all-IsNamed :
      (cs : List (Call S A)) (m : MachineManager S)
      → IsNamed m.machines
      → IsNamed (run_all m cs).machines
  unfolding run_all
  run_all-IsNamed [] m v = v
  run_all-IsNamed (c ∷ cs) m v = run_all-IsNamed cs (run m c) (run-IsNamed m c v)

-- Whatever is called, and in whatever order, from a manager without connections: every terminal of a
-- connected machine stands under its own id, and under no other.
pub run_all-Named :
    (S A : Type 0) (to_json : A → String) (m : MachineManager S) (cs : List (Call S A))
    (machine : String) (conn : MachineConnection S)
    → m.machines ≡ []
    → get machine (run_all S A to_json m cs).machines ≡ some conn
    → Named conn.terminals
unfolding get
run_all-Named S A to_json m cs machine conn e g =
    let v : IsNamed m.machines = subst IsNamed (sym e) (λ k. tt) in
    subst NamedIn g (run_all-IsNamed S A to_json cs m v machine)
