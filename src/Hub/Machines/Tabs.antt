-- ===== src/Hub/Machines/Tabs.antt =====
-- crates/hub/src/machine_manager.rs: the tab that a terminal stands in.
use webmux.Base.{
  String, Bool, true, false, not, ◌&&◌, Option, none, some, List, [], ◌∷◌, ◌++◌, map, is_text,
  is_some, filter, if◌then◌else◌, string_key, ℕ, Result, ok, err,
}
use webmux.Base.Map.{get, insert}
use webmux.Hub.Sessions.{assign_workspace_group}
use webmux.Hub.Wire.{TerminalInfo, terminal_updated}
use webmux.Hub.Machines.{
  Effect, sends, MachineManager, connection_visible_to, on_sessions, set_terminal, persist_terminal,
  prune_opt,
}

abbrev pub with_group : Option String → TerminalInfo → TerminalInfo
with_group group terminal = record terminal { workspace_group_id = group }

-- `iter_mut().find(…)`: the first of the terminals with an id is put in a tab; how it was before.
pub regroup : Option String → String → List TerminalInfo → List TerminalInfo × Option TerminalInfo
regroup group id [] = ([], none)
regroup group id (t ∷ ts) =
    let rest = regroup group id ts in
    if is_text t.id id then (with_group group t ∷ ts, some t) else (t ∷ rest.0, rest.1)

abbrev pub is_group : String → Option String → Bool
is_group group o = elim o [ none ↦ false | some g ↦ is_text g group ]

abbrev pub is_known_group : {S : Type 0} → MachineManager S → Option String → Bool
is_known_group m none = true
is_known_group m (some group) = is_some (get group m.db.workspace_groups)

module _ {S : Type 0} where
  -- The terminal as it was, and the manager with the terminal in its new tab.
  unfoldable pub placed_in_persisted :
      MachineManager S → String → String → Option String → Option (MachineManager S × TerminalInfo)
  unfolding regroup
  placed_in_persisted m machine id group = elim (get machine m.persisted_terminals) [
    | none ↦ none
    | some terminals ↦
        let (terminals', before) = regroup group id terminals in
        elim before [
          | none ↦ none
          | some t ↦ some (
            record m { persisted_terminals = insert machine terminals' m.persisted_terminals },
            t,
          )
        ]
  ]

  unfoldable pub placed :
      MachineManager S
      → String
      → String
      → String
      → Option String
      → Option (MachineManager S × TerminalInfo)
  unfolding placed_in_persisted
  placed m user machine id group = elim (get machine m.machines) [
    | none ↦ placed_in_persisted m machine id group
    | some conn ↦
        if not (connection_visible_to conn user) then none else elim (get id conn.terminals) [
          | none ↦ placed_in_persisted m machine id group
          | some t ↦ some (set_terminal m machine id (with_group group t), t)
        ]
  ]

  -- The two statements on the terminal's row, and whether both succeeded: each asks for the row that it
  -- refers to.
  unfoldable pub recorded :
      MachineManager S → TerminalInfo → String → Option String → ℕ → MachineManager S × Bool
  unfolding persist_terminal
  recorded m t id group now =
      if m.db_is_up && is_some (get t.machine_id m.db.machine_rows)
      then (let m' = persist_terminal m t.id t.machine_id t.title t.cwd t.cols t.rows now in
          if is_known_group m' group
          then (on_sessions m' (λ table. assign_workspace_group table id group), true)
          else (m', false))
      else (m, false)

-- The tab that a terminal leaves.
abbrev pub left_group : Option String → Option String → Option String
left_group none new = none
left_group (some old) new = if is_group old new then none else some old

module _ {S A : Type 0} where
  unfoldable pub regrouped :
      MachineManager S × Bool
      → String
      → String
      → Option String
      → TerminalInfo
      → MachineManager S × Result TerminalInfo String × List (Effect S A)
  regrouped (m, false) user machine old t = (m, err "DB error", [])
  regrouped (m, true) user machine old t =
      let (m', out) = prune_opt m (some user) machine (left_group old t.workspace_group_id) in
      (m', ok t, out ++ sends (some user) (terminal_updated t) ∷ [])

  unfoldable pub set_terminal_workspace_group :
      MachineManager S
      → String
      → String
      → String
      → Option String
      → ℕ
      → MachineManager S × Result TerminalInfo String × List (Effect S A)
  unfolding placed recorded regrouped
  set_terminal_workspace_group m user machine id group now = elim (placed m user machine id group) [
    | none ↦ (m, err "Terminal not found", [])
    | some (m', before) ↦
        let t = with_group group before in
        regrouped (recorded m' t id group now) user machine before.workspace_group_id t
  ]

-- The terminals of a tab, taken out of it.
unfoldable pub clear_terminals :
    String → List (String × TerminalInfo) → List (String × TerminalInfo)
clear_terminals group [] = []
clear_terminals group ((id, t) ∷ ts) =
    (id, if is_group group t.workspace_group_id then with_group none t else t)
    ∷ clear_terminals group ts

pub clear_list : String → List TerminalInfo → List TerminalInfo
clear_list group [] = []
clear_list group (t ∷ ts) =
    (if is_group group t.workspace_group_id then with_group none t else t) ∷ clear_list group ts

abbrev pub in_group : String → List TerminalInfo → List TerminalInfo
in_group group ts = map (with_group none) (filter (λ t. is_group group t.workspace_group_id) ts)

module _ {S : Type 0} where
  unfoldable pub clear_connected :
      MachineManager S → String → String → String → MachineManager S × List TerminalInfo
  unfolding clear_terminals
  clear_connected m user machine group = elim (get machine m.machines) [
    | none ↦ (m, [])
    | some conn ↦
        if connection_visible_to conn user
        then (
          record m {
            machines =
                insert machine (record conn { terminals = clear_terminals group conn.terminals })
                  m.machines;
          },
          in_group group (map (λ t. t.1) conn.terminals),
        )
        else (m, [])
  ]

  unfoldable pub clear_persisted :
      MachineManager S → String → String → MachineManager S × List TerminalInfo
  unfolding clear_list
  clear_persisted m machine group = elim (get machine m.persisted_terminals) [
    | none ↦ (m, [])
    | some ts ↦ (
      record m { persisted_terminals = insert machine (clear_list group ts) m.persisted_terminals },
      in_group group ts,
    )
  ]

unfoldable pub clear_workspace_group_assignments :
    {S A : Type 0}
    → MachineManager S
    → String
    → String
    → String
    → MachineManager S × List (Effect S A)
unfolding clear_connected clear_persisted
clear_workspace_group_assignments m user machine group =
    let (m1, ts) = clear_connected m user machine group in
    let (m2, us) = clear_persisted m1 machine group in
    (m2, map (λ t. sends (some user) (terminal_updated t)) (ts ++ us))
