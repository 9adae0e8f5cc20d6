-- ===== src/Hub/Routes.antt =====
-- crates/hub/src/routes/terminals.rs: the requests of browsers on the tabs of a machine. A handler returns
-- the manager, the answer and the effects in order; a refusal is a status with its message. Each
-- handler runs whole.
pub mod Strangers
mod Tests
use webmux.Base.{
  ℕ, suc, String, Bool, true, false, not, ◌&&◌, ◌||◌, Option, none, some, List, [], ◌∷◌, ◌++◌, map,
  filter, length, any, Result, ok, err, is_text, is_some, leb, ◌==◌, if◌then◌else◌, string_key,
}
use webmux.Base.Map.{get, insert, modify}
use webmux.Base.Set.{contains}
use webmux.Hub.Sessions.{clear_workspace_group}
use webmux.Hub.Groups.{
  Groups, WorkspaceGroupRow, find_workspace_groups_by_machine, workspace_group_belongs_to_machine,
  update_workspace_group_sort_order, delete_workspace_group,
}
use webmux.Hub.Layouts.{delete_workspace_layout}
use webmux.Hub.Wire.{
  MachineInfo, TerminalInfo, WorkspaceGroupInfo, workspace_group_updated, workspace_group_deleted,
}
use webmux.Hub.Machines.{MachineRow, Db, Effect, sends, MachineManager, owned_by, without_group}
use webmux.Hub.Machines.Access.{
  machine_info_for_user, list_terminals_for_user, user_can_access_terminal,
}
use webmux.Hub.Machines.Tabs.{
  set_terminal_workspace_group, clear_workspace_group_assignments, is_group,
}

pub data StatusCode : Type 0 where
  bad_request not_found conflict internal_server_error : StatusCode

abbrev pub Answer : Type 0 → Type 0
Answer A = Result A (StatusCode × String)

-- An answer with what the request did on the way.
abbrev pub Handled : Type 0 → Type 0 → Type 0 → Type 0
Handled S A B = MachineManager S × Answer B × List (Effect S A)

abbrev pub max_panes_per_tab : ℕ
max_panes_per_tab = 4

unfoldable pub workspace_group_info : String × WorkspaceGroupRow → WorkspaceGroupInfo
workspace_group_info (id, row) = record {
  id = id;
  machine_id = row.machine_id;
  name = row.name;
  sort_order = row.sort_order;
}

-- `Some(id) != exclude`.
abbrev pub is_excluded : Option String → String → Bool
is_excluded none id = false
is_excluded (some e) id = is_text id e

unfoldable pub control_action_allowed : Option String → Option String → Bool
control_action_allowed none device = false
control_action_allowed (some controller) none = false
control_action_allowed (some controller) (some device) =
    not (is_text device "") && is_text controller device

-- `ensure_machine_for_user` of crates/hub/src/db/machines.rs, on the columns that the manager reads.
pub ensure_machine_for_user :
    List (String × MachineRow) → MachineInfo → String → List (String × MachineRow)
ensure_machine_for_user rows info user =
    let there =
      if is_some (get info.id rows)
      then rows
      else insert info.id
          (record {
            user_id = user;
            name = info.name;
            os = some info.os;
            home_dir = some info.home_dir;
            production = false;
          })
          rows in
    if owned_by user (get info.id there)
    then modify info.id
        (λ row. record row { name = info.name; os = some info.os; home_dir = some info.home_dir })
        there
    else there

abbrev pub db_error : StatusCode × String
db_error = (internal_server_error, "DB error")

module _ {S : Type 0} where
  unfoldable pub workspace_group_pane_count :
      MachineManager S → String → String → String → Option String → ℕ
  workspace_group_pane_count m user machine group exclude = length (
      filter (λ t. is_group group t.workspace_group_id && not (is_excluded exclude t.id))
        (list_terminals_for_user m user (some machine)))

  unfoldable pub ensure_machine_row :
      MachineManager S → String → String → MachineManager S × Answer MachineInfo
  unfolding ensure_machine_for_user
  ensure_machine_row m user machine =
      if not m.db_is_up then (m, err db_error) else elim (machine_info_for_user m user machine) [
        | some info ↦ (
          record m {
            db = record m.db { machine_rows = ensure_machine_for_user m.db.machine_rows info user };
          },
          ok info,
        )
        | none ↦ elim (get machine m.db.machine_rows) [
          | none ↦ (m, err (not_found, "Machine not found"))
          | some row ↦
              if is_text row.user_id user
              then (
                m,
                ok (record {
                  id = machine;
                  name = row.name;
                  os = elim row.os [ none ↦ "" | some os ↦ os ];
                  home_dir = elim row.home_dir [ none ↦ "" | some home ↦ home ];
                  production = false;
                }),
              )
              else (m, err (not_found, "Machine not found"))
        ]
      ]

  unfoldable pub list_machine_terminals :
      MachineManager S → String → String → MachineManager S × Answer (List TerminalInfo)
  list_machine_terminals m user machine =
      let (m', row) = ensure_machine_row m user machine in
      elim row [
        | err e ↦ (m', err e)
        | ok info ↦ (m', ok (list_terminals_for_user m' user (some machine)))
      ]

  unfoldable pub list_workspace_groups :
      MachineManager S → String → String → MachineManager S × Answer (List WorkspaceGroupInfo)
  list_workspace_groups m user machine =
      let (m', row) = ensure_machine_row m user machine in
      elim row [
        | err e ↦ (m', err e)
        | ok info ↦ (
          m',
          ok (
              map workspace_group_info
                (find_workspace_groups_by_machine m'.db.workspace_groups user machine)),
        )
      ]

  -- What a tab must be for a terminal to go there; the tab_refusal, if it is not.
  pub tab_refusal :
      MachineManager S → String → String → Option String → String → Option (StatusCode × String)
  tab_refusal m user machine none id = none
  tab_refusal m user machine (some group) id =
      if not m.db_is_up
      then some db_error
      else if not (workspace_group_belongs_to_machine m.db.workspace_groups user machine group)
      then some (bad_request, "Workspace tab not found")
      else if leb max_panes_per_tab (workspace_group_pane_count m user machine group (some id))
      then some (conflict, "Tab already holds 4 panes")
      else none

-- `enumerate`: each tab gets its place in the list.
pub place_all : Groups → String → String → List String → ℕ → Groups
place_all groups user machine [] order = groups
place_all groups user machine (id ∷ ids) order =
    place_all (update_workspace_group_sort_order groups user machine id order).0 user machine ids
      (suc order)

-- Both lists hold the same ids.
abbrev pub same_ids : List String → List String → Bool
same_ids xs ys = not (any (λ x. not (contains x ys)) xs) && not (any (λ y. not (contains y xs)) ys)

abbrev pub as_internal : Result TerminalInfo String → Answer TerminalInfo
as_internal (ok t) = ok t
as_internal (err e) = err (internal_server_error, e)

module _ {S A : Type 0} where
  unfoldable pub assign_terminal_workspace_group :
      MachineManager S → String → String → String → Option String → ℕ → Handled S A TerminalInfo
  unfolding tab_refusal
  assign_terminal_workspace_group m user machine id group now =
      if not (user_can_access_terminal m user machine id)
      then (m, err (not_found, "Terminal not found"), [])
      else let (m', row) = ensure_machine_row m user machine in
        elim row [
          | err e ↦ (m', err e, [])
          | ok info ↦ elim (tab_refusal m' user machine group id) [
            | some e ↦ (m', err e, [])
            | none ↦
                let r : MachineManager S × Result TerminalInfo String × List (Effect S A) =
                  set_terminal_workspace_group m' user machine id group now in
                (r.0, as_internal r.1, r.2)
          ]
        ]

  -- Where the list holds each tab of the machine once.
  pub reordered :
      MachineManager S → String → String → List String → Handled S A (List WorkspaceGroupInfo)
  unfolding place_all
  reordered m user machine ids =
      let existing =
        map (λ g. g.0) (find_workspace_groups_by_machine m.db.workspace_groups user machine) in
      if not (same_ids existing ids) || not (length existing == length ids)
      then (m, err (bad_request, "Workspace tab order must include each tab exactly once"), [])
      else (let m' : MachineManager S = record m {
        db = record m.db { workspace_groups = place_all m.db.workspace_groups user machine ids 0 };
      } in
          let groups : List WorkspaceGroupInfo =
            map workspace_group_info
              (find_workspace_groups_by_machine m'.db.workspace_groups user machine) in
          (m', ok groups, map (λ g. sends (some user) (workspace_group_updated g)) groups))

  unfoldable pub reorder_workspace_groups :
      MachineManager S → String → String → List String → Handled S A (List WorkspaceGroupInfo)
  unfolding reordered
  reorder_workspace_groups m user machine ids =
      let (m', row) = ensure_machine_row m user machine in
      elim row [ err e ↦ (m', err e, []) | ok info ↦ reordered m' user machine ids ]

  pub deleted : MachineManager S → String → String → String → Handled S A Unit
  deleted m user machine group =
      if not (workspace_group_belongs_to_machine m.db.workspace_groups user machine group)
      then (m, err (not_found, "Workspace tab not found"), [])
      else (let db1 : Db = record m.db {
        terminal_sessions = clear_workspace_group m.db.terminal_sessions group;
        workspace_layouts = delete_workspace_layout m.db.workspace_layouts (user, (machine, group));
      } in
          let db2 : Db =
            without_group db1 (delete_workspace_group db1.workspace_groups user machine group).0
              group in
          let r : MachineManager S × List (Effect S A) =
            clear_workspace_group_assignments (record m { db = db2 }) user machine group in
          (r.0, ok tt, r.1 ++ sends (some user) (workspace_group_deleted machine group) ∷ []))

  -- `delete_workspace_group`.
  unfoldable pub delete_tab : MachineManager S → String → String → String → Handled S A Unit
  unfolding deleted
  delete_tab m user machine group =
      let (m', row) = ensure_machine_row m user machine in
      elim row [ err e ↦ (m', err e, []) | ok info ↦ deleted m' user machine group ]
