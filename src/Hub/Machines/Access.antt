-- ===== src/Hub/Machines/Access.antt =====
-- crates/hub/src/machine_manager.rs: what a user sees of the machines and their terminals.
use webmux.Base.{
  String, Bool, true, false, not, ◌&&◌, Option, none, some, List, [], ◌∷◌, ◌++◌, map, is_text,
  is_some, any, if◌then◌else◌, string_key, ℕ,
}
use webmux.Base.Set.{contains}
use webmux.Base.Map.{get, keys_where}
use webmux.Hub.Wire.{MachineInfo, TerminalInfo}
use webmux.Hub.Machines.{
  MachineRow, MachineConnection, MachineManager, connection_visible_to, owned_by,
}

-- `machine_info_from_row`, with the strings' default.
abbrev pub machine_info_from_row : String → MachineRow → MachineInfo
machine_info_from_row id row = record {
  id = id;
  name = row.name;
  os = elim row.os [ none ↦ "" | some os ↦ os ];
  home_dir = elim row.home_dir [ none ↦ "" | some home ↦ home ];
  production = row.production;
}

-- The user's rows that are not seen yet (`append_missing_db_machines`).
pub missing_machines : List (String × MachineRow) → String → List String → List MachineInfo
missing_machines [] user seen = []
missing_machines ((id, row) ∷ rows) user seen =
    let rest = missing_machines rows user seen in
    if is_text row.user_id user && not (contains id seen)
    then machine_info_from_row id row ∷ rest
    else rest

-- Without a machine to look for, every machine is meant.
abbrev pub is_meant : Option String → String → Bool
is_meant none machine = true
is_meant (some f) machine = is_text machine f

abbrev pub persisted_has : String → Option (List TerminalInfo) → Bool
persisted_has id none = false
persisted_has id (some terminals) = any (λ t. is_text t.id id) terminals

module _ {S : Type 0} where
  unfoldable pub list_machines : List (String × MachineConnection S) → List MachineInfo
  list_machines machines = map (λ c. c.1.info) machines

  pub visible_machines : List (String × MachineConnection S) → String → List MachineInfo
  visible_machines [] user = []
  visible_machines ((id, conn) ∷ machines) user =
      let rest = visible_machines machines user in
      if connection_visible_to conn user then conn.info ∷ rest else rest

  unfoldable pub list_machines_for_user : MachineManager S → String → List MachineInfo
  unfolding visible_machines
  list_machines_for_user m user = visible_machines m.machines user

  unfoldable pub list_known_machines_for_user : MachineManager S → String → List MachineInfo
  unfolding missing_machines
  list_known_machines_for_user m user =
      let online = list_machines_for_user m user in
      if m.db_is_up
      then online ++ missing_machines m.db.machine_rows user (map (λ i. i.id) online)
      else online

  pub terminals_in : List (String × MachineConnection S) → Option String → List TerminalInfo
  terminals_in [] f = []
  terminals_in ((id, conn) ∷ machines) f =
      let rest = terminals_in machines f in
      if is_meant f id then map (λ t. t.1) conn.terminals ++ rest else rest

  unfoldable pub list_terminals : MachineManager S → Option String → List TerminalInfo
  unfolding terminals_in
  list_terminals m f = terminals_in m.machines f

  pub visible_terminals :
      List (String × MachineConnection S) → String → Option String → List TerminalInfo
  visible_terminals [] user f = []
  visible_terminals ((id, conn) ∷ machines) user f =
      let rest = visible_terminals machines user f in
      if connection_visible_to conn user && is_meant f id
      then map (λ t. t.1) conn.terminals ++ rest
      else rest

  unfoldable pub db_machine_belongs_to_user : MachineManager S → String → String → Bool
  db_machine_belongs_to_user m user machine =
      m.db_is_up && owned_by user (get machine m.db.machine_rows)

  -- The terminals remembered for machines that the user does not see connected.
  pub persisted_for :
      MachineManager S
      → List (String × List TerminalInfo)
      → List String
      → String
      → Option String
      → List TerminalInfo
  unfolding db_machine_belongs_to_user
  persisted_for m [] seen user f = []
  persisted_for m ((id, terminals) ∷ persisted) seen user f =
      let rest = persisted_for m persisted seen user f in
      if not (contains id seen) && is_meant f id && db_machine_belongs_to_user m user id
      then terminals ++ rest
      else rest

  unfoldable pub list_terminals_for_user :
      MachineManager S → String → Option String → List TerminalInfo
  unfolding visible_terminals persisted_for
  list_terminals_for_user m user f =
      let seen = keys_where (λ id conn. connection_visible_to conn user) m.machines in
      visible_terminals m.machines user f ++ persisted_for m m.persisted_terminals seen user f

  unfoldable pub user_can_access_machine : MachineManager S → String → String → Bool
  user_can_access_machine m user machine = elim (get machine m.machines) [
    | none ↦ false
    | some conn ↦ connection_visible_to conn user
  ]

  unfoldable pub machine_info_for_user : MachineManager S → String → String → Option MachineInfo
  machine_info_for_user m user machine = elim (get machine m.machines) [
    | none ↦ none
    | some conn ↦ if connection_visible_to conn user then some conn.info else none
  ]

  unfoldable pub user_can_access_terminal : MachineManager S → String → String → String → Bool
  unfolding db_machine_belongs_to_user
  user_can_access_terminal m user machine id = elim (get machine m.machines) [
    | some conn ↦ connection_visible_to conn user && is_some (get id conn.terminals)
    | none ↦
        persisted_has id (get machine m.persisted_terminals)
        && db_machine_belongs_to_user m user machine
  ]

  unfoldable pub terminal_dimensions : MachineManager S → String → String → Option (ℕ × ℕ)
  terminal_dimensions m machine id = elim (get machine m.machines) [
    | none ↦ none
    | some conn ↦ elim (get id conn.terminals) [ none ↦ none | some t ↦ some (t.cols, t.rows) ]
  ]
