-- ===== src/Hub/Machines/Reconcile.antt =====
-- crates/hub/src/machine_manager.rs, `handle_machine_message`: a machine that has connected reports the
-- terminals that it has (`ExistingTerminals`), and the hub compares them with those it remembers.
use webmux.Base.{
  String, Bool, true, Option, none, some, List, [], ◌∷◌, ◌++◌, is_text, is_some, any, if◌then◌else◌,
  string_key, ℕ,
}
use webmux.Base.Map.{get, insert, remove}
use webmux.Hub.Sessions.{mark_destroyed, update_metadata}
use webmux.Hub.Wire.{TerminalInfo, terminal_created, terminal_reachable_changed, terminal_destroyed}
use webmux.Hub.Machines.{
  Effect, sends, MachineManager, on_sessions, set_terminal, persist_terminal, prune_opt,
}

-- A list of terminals as a map from their ids.
unfoldable pub by_id :
    List TerminalInfo → List (String × TerminalInfo) → List (String × TerminalInfo)
by_id [] m = m
by_id (t ∷ ts) m = by_id ts (insert t.id t m)

abbrev pub terminals_by_id : List TerminalInfo → List (String × TerminalInfo)
terminals_by_id ts = by_id ts []

-- The tab and the title of a terminal are the hub's: what it remembers of it stays.
abbrev pub restored : Option TerminalInfo → TerminalInfo → TerminalInfo
restored none t = t
restored (some p) t = record t {
  workspace_group_id = p.workspace_group_id;
  title = p.title;
  title_source = p.title_source;
}

abbrev pub reported_row :
    {S : Type 0} → MachineManager S → String → Bool → TerminalInfo → ℕ → MachineManager S
reported_row m machine remembered t now =
    if remembered
    then on_sessions m (λ table. update_metadata table t.id t.title t.cwd t.cols t.rows)
    else persist_terminal m t.id machine t.title t.cwd t.cols t.rows now

abbrev pub is_reported : List TerminalInfo → String → Bool
is_reported ts id = any (λ t. is_text t.id id) ts

abbrev pub remembered_of : {S : Type 0} → MachineManager S → String → List TerminalInfo
remembered_of m machine = elim (get machine m.persisted_terminals) [ none ↦ [] | some ts ↦ ts ]

module _ {S A : Type 0} where
  -- One terminal that the machine reports.
  unfoldable pub report :
      MachineManager S
      → String
      → Option String
      → Option TerminalInfo
      → TerminalInfo
      → ℕ
      → MachineManager S × List (Effect S A)
  report m machine user remembered reported now =
      let t = restored remembered reported in
      (
        reported_row (set_terminal m machine t.id t) machine (is_some remembered) t now,
        sends user (
              if is_some remembered
              then terminal_reachable_changed machine t.id true
              else terminal_created t)
            ∷ [],
      )

  unfoldable pub report_all :
      MachineManager S
      → String
      → Option String
      → List (String × TerminalInfo)
      → List TerminalInfo
      → ℕ
      → MachineManager S × List (Effect S A)
  unfolding report
  report_all m machine user remembered [] now = (m, [])
  report_all m machine user remembered (t ∷ ts) now =
      let (m1, out) = report m machine user (get t.id remembered) t now in
      let (m2, rest) = report_all m1 machine user remembered ts now in (m2, out ++ rest)

  -- One terminal that is remembered and not reported: it died while the machine was away.
  unfoldable pub bury :
      MachineManager S
      → String
      → Option String
      → TerminalInfo
      → ℕ
      → MachineManager S × List (Effect S A)
  bury m machine user t now =
      let (m', out) =
        prune_opt (on_sessions m (λ table. mark_destroyed table t.id now)) user machine
          t.workspace_group_id in
      (m', out ++ sends user (terminal_destroyed machine t.id) ∷ [])

  unfoldable pub bury_all :
      MachineManager S
      → String
      → Option String
      → List TerminalInfo
      → List TerminalInfo
      → ℕ
      → MachineManager S × List (Effect S A)
  unfolding bury
  bury_all m machine user reported [] now = (m, [])
  bury_all m machine user reported (t ∷ ts) now =
      let (m1, out) = if is_reported reported t.id then (m, []) else bury m machine user t now in
      let (m2, rest) = bury_all m1 machine user reported ts now in (m2, out ++ rest)

  unfoldable pub reconcile :
      MachineManager S
      → String
      → Option String
      → List TerminalInfo
      → List TerminalInfo
      → ℕ
      → MachineManager S × List (Effect S A)
  unfolding by_id report_all bury_all
  reconcile m machine user remembered reported now =
      let (m1, out) = report_all m machine user (terminals_by_id remembered) reported now in
      let (m2, rest) = bury_all m1 machine user reported remembered now in (m2, out ++ rest)

  unfoldable pub handle_existing_terminals :
      MachineManager S → String → List TerminalInfo → ℕ → MachineManager S × List (Effect S A)
  unfolding reconcile
  handle_existing_terminals m machine reported now =
      let m' : MachineManager S = record m {
        persisted_terminals = remove machine m.persisted_terminals;
      } in
      elim (get machine m.machines) [
        | none ↦ (m', [])
        | some conn ↦ reconcile m' machine conn.user_id (remembered_of m machine) reported now
      ]
