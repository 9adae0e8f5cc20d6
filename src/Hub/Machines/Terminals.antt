-- ===== src/Hub/Machines/Terminals.antt =====
-- crates/hub/src/machine_manager.rs, `handle_machine_message`: the messages on one terminal.
use webmux.Base.{
  String, Bool, true, false, Option, none, some, List, [], ◌∷◌, ◌++◌, if◌then◌else◌, string_key, ℕ,
  Result, ok,
}
use webmux.Base.Map.{get, modify}
use webmux.Base.Set.{contains, delete}
use webmux.Hub.Sessions.{
  TerminalTitleSource, none_source, TitleUpdateOutcome, updated, unchanged, rejected,
  mark_destroyed, update_size, apply_title_update, apply_cwd_update,
}
use webmux.Hub.Wire.{
  TerminalInfo, TerminalAttention, confirmation, terminal_created, terminal_updated,
  terminal_resized, terminal_destroyed, machine_stats,
}
use webmux.Hub.Machines.{
  Effect, sends, replies, PendingResult, MachineConnection, MachineManager, owner_of, on_sessions,
  terminal_of, set_terminal, remove_terminal, persist_terminal, prune_opt,
}

abbrev pub created_info : String → String → String → String → ℕ → ℕ → TerminalInfo
created_info machine id title cwd cols rows = record {
  id = id;
  machine_id = machine;
  title = title;
  cwd = cwd;
  title_source = none_source;
  workspace_group_id = none;
  cols = cols;
  rows = rows;
  reachable = true;
  attention = none;
}

abbrev pub group_of : Option TerminalInfo → Option String
group_of none = none
group_of (some t) = t.workspace_group_id

abbrev pub same_attention : Option TerminalAttention → Option TerminalAttention → Bool
same_attention none none = true
same_attention none (some confirmation) = false
same_attention (some confirmation) none = false
same_attention (some confirmation) (some confirmation) = true

module _ {S A : Type 0} where
  -- A request that waits is answered once.
  unfoldable pub answer :
      MachineManager S → String → Result PendingResult String → MachineManager S × List (Effect S A)
  answer m request_id result =
      if contains request_id m.pending
      then (record m { pending = delete request_id m.pending }, replies request_id result ∷ [])
      else (m, [])

  unfoldable pub added :
      MachineManager S
      → String
      → TerminalInfo
      → Option (MachineConnection S)
      → MachineManager S × List (Effect S A)
  added m machine t none = (m, [])
  added m machine t (some conn) =
      (set_terminal m machine t.id t, sends conn.user_id (terminal_created t) ∷ [])

  unfoldable pub handle_created :
      MachineManager S
      → String
      → String
      → String
      → String
      → String
      → ℕ
      → ℕ
      → ℕ
      → MachineManager S × List (Effect S A)
  unfolding added persist_terminal answer
  handle_created m machine request_id id title cwd cols rows now =
      let (m1, out) =
        added m machine (created_info machine id title cwd cols rows) (get machine m.machines) in
      let m2 = persist_terminal m1 id machine title cwd cols rows now in
      let (m3, replied) =
        answer m2 request_id (ok (PendingResult.terminal_created id title cwd cols rows)) in
      (m3, out ++ replied)

  -- A terminal of a connected machine ends: its record, its row, the tab that it leaves empty.
  unfoldable pub ended :
      MachineManager S
      → String
      → String
      → MachineConnection S
      → ℕ
      → MachineManager S × List (Effect S A)
  ended m machine id conn now =
      let m1 = on_sessions (remove_terminal m machine id) (λ table. mark_destroyed table id now) in
      let (m2, out) = prune_opt m1 conn.user_id machine (group_of (get id conn.terminals)) in
      (m2, out ++ sends conn.user_id (terminal_destroyed machine id) ∷ [])

  unfoldable pub handle_destroyed :
      MachineManager S → String → String → ℕ → MachineManager S × List (Effect S A)
  unfolding ended
  handle_destroyed m machine id now = elim (get machine m.machines) [
    | none ↦ (m, [])
    | some conn ↦ ended m machine id conn now
  ]

  unfoldable pub handle_terminal_destroyed_internal :
      MachineManager S → String → String → ℕ → MachineManager S × List (Effect S A)
  unfolding ended
  handle_terminal_destroyed_internal m machine id now = elim (get machine m.machines) [
    | none ↦ (m, sends none (terminal_destroyed machine id) ∷ [])
    | some conn ↦ ended m machine id conn now
  ]

  -- A terminal of a connected machine is changed, and the change sent to the machine's user.
  unfoldable pub changed :
      MachineManager S
      → String
      → String
      → (TerminalInfo → TerminalInfo)
      → MachineManager S × List (Effect S A)
  changed m machine id f = elim (terminal_of m machine id) [
    | none ↦ (m, [])
    | some t ↦ (
      set_terminal m machine id (f t),
      sends (owner_of (get machine m.machines)) (terminal_updated (f t)) ∷ [],
    )
  ]

  unfoldable pub retitled :
      MachineManager S
      → String
      → String
      → String
      → TerminalTitleSource
      → TitleUpdateOutcome
      → MachineManager S × List (Effect S A)
  unfolding changed
  retitled m machine id title source updated =
      changed m machine id (λ t. record t { title = title; title_source = source })
  retitled m machine id title source unchanged = (m, [])
  retitled m machine id title source rejected = (m, [])

  unfoldable pub handle_title :
      MachineManager S
      → String
      → String
      → String
      → TerminalTitleSource
      → MachineManager S × List (Effect S A)
  unfolding retitled
  handle_title m machine id title source =
      if m.db_is_up
      then (let (table, outcome) = apply_title_update m.db.terminal_sessions id title source in
          retitled (record m { db = record m.db { terminal_sessions = table } }) machine id title
            source outcome)
      else (m, [])

  unfoldable pub handle_attention :
      MachineManager S
      → String
      → String
      → Option TerminalAttention
      → MachineManager S × List (Effect S A)
  unfolding changed
  handle_attention m machine id attention = elim (terminal_of m machine id) [
    | none ↦ (m, [])
    | some t ↦
        if same_attention t.attention attention
        then (m, [])
        else changed m machine id (λ t. record t { attention = attention })
  ]

  unfoldable pub handle_cwd :
      MachineManager S → String → String → String → MachineManager S × List (Effect S A)
  unfolding changed
  handle_cwd m machine id cwd =
      if m.db_is_up
      then (let (table, moved) = apply_cwd_update m.db.terminal_sessions id cwd in
          let m' = record m { db = record m.db { terminal_sessions = table } } in
          if moved then changed m' machine id (λ t. record t { cwd = cwd }) else (m', []))
      else (m, [])

  -- `TerminalResized`.
  unfoldable pub apply_resize :
      MachineManager S → String → String → ℕ → ℕ → MachineManager S × List (Effect S A)
  apply_resize m machine id cols rows = elim (terminal_of m machine id) [
    | none ↦ (m, [])
    | some t ↦
        let t' : TerminalInfo = record t { cols = cols; rows = rows } in
        (
          on_sessions (set_terminal m machine id t') (λ table. update_size table id cols rows),
          sends (owner_of (get machine m.machines)) (terminal_resized t') ∷ [],
        )
  ]

  -- A controller's resize, before the machine confirms it.
  abbrev pub apply_optimistic_resize :
      MachineManager S → String → String → ℕ → ℕ → MachineManager S × List (Effect S A)
  apply_optimistic_resize m machine id cols rows = apply_resize m machine id cols rows

  unfoldable pub handle_stats : MachineManager S → String → S → MachineManager S × List (Effect S A)
  handle_stats m machine stats = elim (get machine m.machines) [
    | none ↦ (m, [])
    | some conn ↦ (
      record m {
        machines = modify machine (λ c. record c { latest_stats = some stats }) m.machines;
      },
      sends conn.user_id (machine_stats machine stats) ∷ [],
    )
  ]
