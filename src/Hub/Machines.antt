-- ===== src/Hub/Machines.antt =====
-- crates/hub/src/machine_manager.rs: `MachineManager`, the hub's record of the machines that are
-- connected and of their terminals. Each method runs whole, between two others, and returns the manager
-- and its effects in order. The database answers while `db_is_up`; a statement then fails only where a
-- foreign key has no row, or an id is taken. `S` and `A` are the types of resource statistics and
-- of agents' events. The channel to a machine (`cmd_tx`) carries no state here.
pub mod Connections
pub mod Access
pub mod Tabs
pub mod Terminals
pub mod Reconcile
pub mod Messages
pub mod Requests
pub mod Reconnect
pub mod Owners
pub mod Disconnect
pub mod Naming
mod Tests
use webmux.Base.{
  ℕ, String, Bool, true, false, not, ◌&&◌, ◌||◌, Option, none, some, List, [], ◌∷◌, Result, is_text,
  is_some, ◌==◌, if◌then◌else◌, string_key,
}
use webmux.Base.Map.{get, insert, modify, remove}
use webmux.Hub.Sessions as Sessions
use webmux.Hub.Sessions.{Table, count_active_in_workspace_group, clear_workspace_group}
use webmux.Hub.Groups.{Groups, delete_workspace_group_if_auto}
use webmux.Hub.Layouts.{Layouts, delete_workspace_layout}
use webmux.Hub.Agents.{AgentSessionRow, AgentTables}
use webmux.Hub.Mode.{Mode}
use webmux.Hub.Wire.{
  MachineInfo, TerminalInfo, DirEntry, BrowserEvent, workspace_group_deleted, Sent,
}
use webmux.Protocol.Composer.{ComposerReceipt}

-- The columns of a machine's row that the manager reads; the id is the key.
pub record MachineRow : Type 0 where
  pub user_id : String
  pub name : String
  pub os : Option String
  pub home_dir : Option String
  pub production : Bool

-- The tables of the database that the manager reads and writes.
pub record Db : Type 0 where
  pub machine_rows : List (String × MachineRow)
  pub terminal_sessions : Table
  pub workspace_groups : Groups
  pub workspace_layouts : Layouts
  pub agent_tables : AgentTables

pub data PendingResult : Type 0 where
  composer : ComposerReceipt → PendingResult
  terminal_created : String → String → String → ℕ → ℕ → PendingResult
  fs_list_result : List DirEntry → PendingResult
  foreground_process_result : Bool → Option String → PendingResult

-- What a method does outside the manager: an event to browsers, or the answer to a request that waits.
pub data Effect (S A : Type 0) : Type 0 where
  sends : Option String → BrowserEvent S A → Effect S A
  replies : String → Result PendingResult String → Effect S A

pub record MachineConnection (S : Type 0) : Type 0 where
  pub conn_id : String
  pub info : MachineInfo
  pub user_id : Option String
  pub terminals : List (String × TerminalInfo)
  pub latest_stats : Option S
  pub capabilities : List String

pub record MachineManager (S : Type 0) : Type 0 where
  pub machines : List (String × MachineConnection S)
  pub pending : List String
  pub mode : Mode
  pub db : Db
  pub db_is_up : Bool
  pub persisted_terminals : List (String × List TerminalInfo)

-- `connection_visible_to`: a connection without an owner is everyone's.
abbrev pub connection_visible_to : {S : Type 0} → MachineConnection S → String → Bool
connection_visible_to conn user = elim conn.user_id [
  | none ↦ true
  | some owner ↦ is_text owner user
]

abbrev pub owner_of : {S : Type 0} → Option (MachineConnection S) → Option String
owner_of none = none
owner_of (some conn) = conn.user_id

abbrev pub owned_by : String → Option MachineRow → Bool
owned_by user none = false
owned_by user (some row) = is_text row.user_id user

-- `ON DELETE SET NULL` of a tab that is deleted.
clear_sessions : List (String × AgentSessionRow) → String → List (String × AgentSessionRow)
clear_sessions [] group = []
clear_sessions ((id, row) ∷ rows) group =
    (
      id,
      if (elim row.workspace_group_id [ none ↦ false | some g ↦ is_text g group ])
          then record row { workspace_group_id = none }
          else row,
    )
    ∷ clear_sessions rows group

pub without_group : Db → Groups → String → Db
unfolding clear_sessions
without_group db groups group = record db {
  workspace_groups = groups;
  terminal_sessions = clear_workspace_group db.terminal_sessions group;
  agent_tables = record db.agent_tables {
    agent_sessions = clear_sessions db.agent_tables.agent_sessions group;
  };
}

-- The tab and its layout, if the tab is one that the hub made.
pub pruned : Db → String → String → String → Db × Bool
unfolding without_group
pruned db user machine group =
    let (groups, count) = delete_workspace_group_if_auto db.workspace_groups user machine group in
    if count == 0 then (db, false) else (
      record (without_group db groups group) {
        workspace_layouts = delete_workspace_layout db.workspace_layouts (user, (machine, group));
      },
      true,
    )

module _ {S A : Type 0} where
  unfoldable pub prune_auto_tab_if_empty :
      MachineManager S → Option String → String → String → MachineManager S × List (Effect S A)
  unfolding pruned
  prune_auto_tab_if_empty m none machine group = (m, [])
  prune_auto_tab_if_empty m (some user) machine group =
      if m.db_is_up && count_active_in_workspace_group m.db.terminal_sessions group == 0
      then (let (db, deleted) = pruned m.db user machine group in
          (
            record m { db = db },
            if deleted then sends (some user) (workspace_group_deleted machine group) ∷ [] else [],
          ))
      else (m, [])

  abbrev pub prune_opt :
      MachineManager S
      → Option String
      → String
      → Option String
      → MachineManager S × List (Effect S A)
  prune_opt m user machine none = (m, [])
  prune_opt m user machine (some group) = prune_auto_tab_if_empty m user machine group

-- `terminal_sessions::insert`, which asks for the machine's row.
unfoldable pub persist_terminal :
    {S : Type 0}
    → MachineManager S
    → String
    → String
    → String
    → String
    → ℕ
    → ℕ
    → ℕ
    → MachineManager S
persist_terminal m id machine title cwd cols rows now =
    if m.db_is_up && is_some (get machine m.db.machine_rows)
    then record m {
      db = record m.db {
        terminal_sessions =
            Sessions.insert_session m.db.terminal_sessions id machine title cwd cols rows now;
      };
    }
    else m

-- The statements on the table of terminals, where the database answers.
abbrev pub on_sessions : {S : Type 0} → MachineManager S → (Table → Table) → MachineManager S
on_sessions m f =
    if m.db_is_up
    then record m { db = record m.db { terminal_sessions = f m.db.terminal_sessions } }
    else m

-- A terminal of a connected machine.
abbrev pub terminal_of : {S : Type 0} → MachineManager S → String → String → Option TerminalInfo
terminal_of m machine id = elim (get machine m.machines) [
  | none ↦ none
  | some conn ↦ get id conn.terminals
]

abbrev pub set_terminal :
    {S : Type 0} → MachineManager S → String → String → TerminalInfo → MachineManager S
set_terminal m machine id terminal = record m {
  machines =
      modify machine (λ conn. record conn { terminals = insert id terminal conn.terminals })
        m.machines;
}

abbrev pub remove_terminal : {S : Type 0} → MachineManager S → String → String → MachineManager S
remove_terminal m machine id = record m {
  machines =
      modify machine (λ conn. record conn { terminals = remove id conn.terminals }) m.machines;
}
