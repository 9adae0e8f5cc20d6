-- ===== src/Hub/Machines/Connections.antt =====
-- crates/hub/src/machine_manager.rs: a machine connects, disconnects, and is forgotten. The id of a
-- connection is the random one that the caller draws.
use webmux.Base.{
  String, Bool, true, false, not, Option, none, some, List, [], ◌∷◌, ◌++◌, map, is_text, is_nil,
  any, if◌then◌else◌, string_key, ℕ, Result, ok, err,
}
use webmux.Base.Map.{get, insert, modify, remove}
use webmux.Hub.Sessions.{Table}
use webmux.Hub.Groups.{Groups}
use webmux.Hub.Layouts.{Layouts}
use webmux.Hub.Agents.{AgentTables, AgentSessionRow}
use webmux.Hub.Agents.Statements.{delete_session}
use webmux.Hub.Agents.Messages.{disconnect_sessions}
use webmux.Hub.Mode.{clear_machine_mode}
use webmux.Hub.Wire.{
  MachineInfo, TerminalInfo, machine_online, machine_offline, machine_removed,
  terminal_reachable_changed, Sent,
}
use webmux.Hub.Machines.{
  Db, Effect, sends, MachineConnection, MachineManager, owned_by, without_group,
}

-- The terminals of a connection that is gone.
abbrev pub unreachable : List (String × TerminalInfo) → List TerminalInfo
unreachable terminals = map (λ t. record t.1 { reachable = false }) terminals

-- They are kept for the machine's next report, if there are any.
abbrev pub stashed :
    {S : Type 0}
    → String
    → Option (MachineConnection S)
    → List (String × List TerminalInfo)
    → List (String × List TerminalInfo)
stashed machine none persisted = persisted
stashed machine (some conn) persisted =
    if is_nil conn.terminals
    then persisted
    else insert machine (unreachable conn.terminals) persisted

abbrev pub connection :
    {S : Type 0} → String → MachineInfo → Option String → List String → MachineConnection S
connection conn_id info user capabilities = record {
  conn_id = conn_id;
  info = info;
  user_id = user;
  terminals = [];
  latest_stats = none;
  capabilities = capabilities;
}

unfoldable pub machine_supports : {S : Type 0} → MachineManager S → String → String → Bool
machine_supports m machine capability = elim (get machine m.machines) [
  | none ↦ false
  | some conn ↦ any (λ c. is_text c capability) conn.capabilities
]

module _ {S A : Type 0} where
  unfoldable pub register_machine_with_capabilities :
      MachineManager S
      → String
      → MachineInfo
      → Option String
      → List String
      → MachineManager S × List (Effect S A)
  register_machine_with_capabilities m conn_id info user capabilities = (
    record m {
      machines = insert info.id (connection conn_id info user capabilities) m.machines;
      persisted_terminals = stashed info.id (get info.id m.machines) m.persisted_terminals;
    },
    sends user (machine_online info) ∷ [],
  )

  abbrev sends_all : List (Sent S A) → List (Effect S A)
  sends_all xs = map (λ x. sends x.target_user_id x.event) xs

  -- The agents' sessions of the machine, where the database answers.
  unfoldable pub end_sessions : MachineManager S → String → ℕ → MachineManager S × List (Effect S A)
  end_sessions m machine now =
      if m.db_is_up
      then (let (tables, out) = disconnect_sessions m.db.agent_tables machine now in
          (record m { db = record m.db { agent_tables = tables } }, sends_all out))
      else (m, [])

  -- A connection that is the machine's present one.
  unfoldable pub drop_connection :
      MachineManager S → String → MachineConnection S → ℕ → MachineManager S × List (Effect S A)
  unfolding end_sessions
  drop_connection m machine conn now =
      let (m', out) =
        end_sessions (record m { machines = remove machine m.machines }) machine now in
      (
        record m' { persisted_terminals = stashed machine (some conn) m'.persisted_terminals },
        out
            ++ map (λ t. sends conn.user_id (terminal_reachable_changed machine t.id false))
                (unreachable conn.terminals)
            ++ sends conn.user_id (machine_offline machine) ∷ [],
      )

  unfoldable pub unregister_machine :
      MachineManager S → String → String → ℕ → MachineManager S × List (Effect S A)
  unfolding drop_connection
  unregister_machine m machine conn_id now = elim (get machine m.machines) [
    | none ↦ (m, [])
    | some conn ↦
        if is_text conn.conn_id conn_id then drop_connection m machine conn now else (m, [])
  ]

-- `ON DELETE CASCADE` of a machine that is deleted: its terminals, tabs, layouts and agents' sessions.
sessions_without : Table → String → Table
sessions_without [] machine = []
sessions_without ((id, row) ∷ rows) machine =
    let rest = sessions_without rows machine in
    if is_text row.machine_id machine then rest else (id, row) ∷ rest

layouts_without : Layouts → String → Layouts
layouts_without [] machine = []
layouts_without (((user, (m, group)), row) ∷ rows) machine =
    let rest = layouts_without rows machine in
    if is_text m machine then rest else ((user, (m, group)), row) ∷ rest

groups_without : Db → Groups → String → Db
unfolding without_group
groups_without db [] machine = db
groups_without db ((id, row) ∷ rows) machine =
    let db' =
      if is_text row.machine_id machine
      then without_group db (remove id db.workspace_groups) id
      else db in
    groups_without db' rows machine

agents_without : AgentTables → List (String × AgentSessionRow) → String → AgentTables
agents_without tables [] machine = tables
agents_without tables ((id, row) ∷ rows) machine =
    agents_without (if is_text row.machine_id machine then delete_session tables id else tables)
      rows machine

pub delete_machine : Db → String → Db
unfolding sessions_without layouts_without groups_without agents_without
delete_machine db machine =
    let db' = record db {
      machine_rows = remove machine db.machine_rows;
      terminal_sessions = sessions_without db.terminal_sessions machine;
      workspace_layouts = layouts_without db.workspace_layouts machine;
      agent_tables = agents_without db.agent_tables db.agent_tables.agent_sessions machine;
    } in
    groups_without db' db.workspace_groups machine

module _ {S A : Type 0} where
  -- Whether the machine was the user's, and is gone; the error where the database does not answer.
  unfoldable pub remove_machine :
      MachineManager S → String → String → MachineManager S × Result Bool String × List (Effect S A)
  unfolding delete_machine
  remove_machine m user machine =
      if not m.db_is_up
      then (m, err "DB error", [])
      else if not (owned_by user (get machine m.db.machine_rows))
      then (m, ok false, [])
      else (
        record m {
          machines = remove machine m.machines;
          persisted_terminals = remove machine m.persisted_terminals;
          mode = clear_machine_mode m.mode user machine;
          db = delete_machine m.db machine;
        },
        ok true,
        sends (some user) (machine_removed machine) ∷ [],
      )

unfoldable pub set_machine_production :
    {S : Type 0} → MachineManager S → String → Bool → MachineManager S
set_machine_production m machine production = record m {
  machines =
      modify machine (λ conn. record conn { info = record conn.info { production = production } })
        m.machines;
}
