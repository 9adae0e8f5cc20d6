-- ===== src/Hub/Machines/Owners/Handlers.antt =====
-- Who is told what: each handler of a message on terminals.
use webmux.Base.{
  String, refl, Bool, true, false, Option, none, some, List, [], ◌∷◌, ok, All-append, if◌then◌else◌,
  arith, string_key, ℕ, Result,
}
use webmux.Base.Map.{get, remove}
use webmux.Hub.Sessions.{
  TerminalTitleSource, TitleUpdateOutcome, updated, unchanged, rejected, mark_destroyed, Table,
  apply_cwd_update, apply_title_update,
}
use webmux.Hub.Wire.{TerminalInfo, MachineToHub, TerminalAttention}
use webmux.Hub.Wire as Wire
use webmux.Hub.Machines.{
  Effect, sends, PendingResult, MachineConnection, MachineManager, owner_of, on_sessions,
  remove_terminal, persist_terminal, prune_opt, prune_auto_tab_if_empty,
}
use webmux.Hub.Machines.Terminals.{
  answer, handle_created, handle_title, handle_attention, handle_cwd, apply_resize, handle_stats,
  added, ended, changed, retitled, created_info, group_of,
}
use webmux.Hub.Machines.Reconcile.{
  report, report_all, is_reported, bury, bury_all, reconcile, handle_existing_terminals,
  remembered_of, terminals_by_id,
}
use webmux.Hub.Machines.Owners.{IsFor, AllFor}

module _ (S A : Type 0) where
  pub prune-for :
      (m : MachineManager S) (user : Option String) (machine : String) (group : Option String)
      → AllFor S A user (prune_opt m user machine group).1
  unfolding prune_auto_tab_if_empty
  prune-for m user machine none = tt
  prune-for m none machine (some g) = tt
  prune-for m (some u) machine (some g) = ground arith

  pub answer-for :
      (m : MachineManager S) (user : Option String) (request_id : String)
      (r : Result PendingResult String)
      → AllFor S A user (answer m request_id r).1
  unfolding answer
  answer-for m user request_id r = ground arith

  pub ended-for :
      (m : MachineManager S) (machine id : String) (conn : MachineConnection S) (now : ℕ)
      → AllFor S A conn.user_id (ended m machine id conn now).1
  unfolding ended
  ended-for m machine id conn now =
      let m1 : MachineManager S =
        on_sessions (remove_terminal m machine id) (λ table. mark_destroyed table id now) in
      let out : List (Effect S A) =
        (prune_opt m1 conn.user_id machine (group_of (get id conn.terminals))).1 in
      All-append (IsFor conn.user_id) out
        (sends conn.user_id (Wire.terminal_destroyed machine id) ∷ [])
        (prune-for m1 conn.user_id machine (group_of (get id conn.terminals))) (refl, tt)

  pub changed-for :
      (m : MachineManager S) (machine id : String) (f : TerminalInfo → TerminalInfo)
      → AllFor S A (owner_of (get machine m.machines)) (changed m machine id f).1
  unfolding changed
  changed-for m machine id f = ground arith

  pub report_all-for :
      (ts : List TerminalInfo) (m : MachineManager S) (machine : String) (user : Option String)
      (remembered : List (String × TerminalInfo)) (now : ℕ)
      → AllFor S A user (report_all m machine user remembered ts now).1
  unfolding report_all report
  report_all-for [] m machine user remembered now = tt
  report_all-for (t ∷ ts) m machine user remembered now = (
    refl,
    report_all-for ts (report {S = S} {A = A} m machine user (get t.id remembered) t now).0 machine
        user remembered now,
  )

  pub bury-for :
      (m : MachineManager S) (machine : String) (user : Option String) (b : Bool) (t : TerminalInfo)
      (now : ℕ)
      → AllFor S A user (if b then (m, []) else bury m machine user t now).1
  unfolding bury
  bury-for m machine user true t now = tt
  bury-for m machine user false t now =
      let m' : MachineManager S = on_sessions m (λ table. mark_destroyed table t.id now) in
      All-append (IsFor user) (prune_opt m' user machine t.workspace_group_id).1
        (sends user (Wire.terminal_destroyed machine t.id) ∷ [])
        (prune-for m' user machine t.workspace_group_id) (refl, tt)

  pub bury_all-for :
      (ts : List TerminalInfo) (m : MachineManager S) (machine : String) (user : Option String)
      (reported : List TerminalInfo) (now : ℕ)
      → AllFor S A user (bury_all m machine user reported ts now).1
  unfolding bury_all
  bury_all-for [] m machine user reported now = tt
  bury_all-for (t ∷ ts) m machine user reported now =
      let step : MachineManager S × List (Effect S A) =
        if is_reported reported t.id then (m, []) else bury m machine user t now in
      All-append (IsFor user) step.1 (bury_all step.0 machine user reported ts now).1
        (bury-for m machine user (is_reported reported t.id) t now)
        (bury_all-for ts step.0 machine user reported now)

  pub added-for :
      (m : MachineManager S) (machine : String) (t : TerminalInfo)
      (o : Option (MachineConnection S))
      → AllFor S A (owner_of o) (added m machine t o).1
  unfolding added
  added-for m machine t none = tt
  added-for m machine t (some conn) = (refl, tt)

  pub created-for :
      (m : MachineManager S) (machine request_id id title cwd : String) (cols rows now : ℕ)
      → AllFor S A
          (owner_of (get machine m.machines))
          (handle_created m machine request_id id title cwd cols rows now).1
  unfolding handle_created
  created-for m machine request_id id title cwd cols rows now =
      let user : Option String = owner_of (get machine m.machines) in
      let t : TerminalInfo = created_info machine id title cwd cols rows in
      let step : MachineManager S × List (Effect S A) =
        added m machine t (get machine m.machines) in
      let m2 : MachineManager S = persist_terminal step.0 id machine title cwd cols rows now in
      let r : Result PendingResult String =
        ok (PendingResult.terminal_created id title cwd cols rows) in
      All-append (IsFor user) step.1 (answer m2 request_id r).1
        (added-for m machine t (get machine m.machines)) (answer-for m2 user request_id r)

  pub reconcile-for :
      (m : MachineManager S) (machine : String) (user : Option String) (old ts : List TerminalInfo)
      (now : ℕ)
      → AllFor S A user (reconcile m machine user old ts now).1
  unfolding reconcile
  reconcile-for m machine user old ts now =
      let step : MachineManager S × List (Effect S A) =
        report_all m machine user (terminals_by_id old) ts now in
      All-append (IsFor user) step.1 (bury_all step.0 machine user ts old now).1
        (report_all-for ts m machine user (terminals_by_id old) now)
        (bury_all-for old step.0 machine user ts now)

  pub existing-for :
      (m : MachineManager S) (machine : String) (ts : List TerminalInfo) (now : ℕ)
      → AllFor S A
          (owner_of (get machine m.machines))
          (handle_existing_terminals m machine ts now).1
  unfolding handle_existing_terminals
  existing-for m machine ts now = by_connection (get machine m.machines)
    where
      by_connection :
          (o : Option (MachineConnection S))
          → AllFor S A
              (owner_of o)
              (elim o as (λ _. MachineManager S × List (Effect S A)) [
                | none ↦
                    (record m { persisted_terminals = remove machine m.persisted_terminals }, [])
                | some conn ↦
                    reconcile
                      (record m { persisted_terminals = remove machine m.persisted_terminals })
                      machine
                      conn.user_id
                      (remembered_of m machine)
                      ts
                      now
              ]).1
      by_connection none = tt
      by_connection (some conn) =
          reconcile-for (record m { persisted_terminals = remove machine m.persisted_terminals })
            machine conn.user_id (remembered_of m machine) ts now

  pub title-for :
      (m : MachineManager S) (machine id title : String) (source : TerminalTitleSource)
      (o : TitleUpdateOutcome)
      → AllFor S A (owner_of (get machine m.machines)) (retitled m machine id title source o).1
  unfolding retitled
  title-for m machine id title source updated =
      changed-for m machine id (λ t. record t { title = title; title_source = source })
  title-for m machine id title source unchanged = tt
  title-for m machine id title source rejected = tt

  pub titles-for :
      (m : MachineManager S) (machine id title : String) (source : TerminalTitleSource)
      → AllFor S A (owner_of (get machine m.machines)) (handle_title m machine id title source).1
  unfolding handle_title
  titles-for m machine id title source =
      let done : Table × TitleUpdateOutcome =
        apply_title_update m.db.terminal_sessions id title source in
      ground (
        arith,
        title-for (record m { db = record m.db { terminal_sessions = done.0 } }) machine id title
            source done.1,
      )

  pub attention-for :
      (m : MachineManager S) (machine id : String) (attention : Option TerminalAttention)
      → AllFor S A (owner_of (get machine m.machines)) (handle_attention m machine id attention).1
  unfolding handle_attention
  attention-for m machine id attention =
      ground (arith, changed-for m machine id (λ t. record t { attention = attention }))

  pub stats-for :
      (m : MachineManager S) (machine : String) (stats : S)
      → AllFor S A (owner_of (get machine m.machines)) (handle_stats m machine stats).1
  unfolding handle_stats
  stats-for m machine stats = ground arith

  pub resize-for :
      (m : MachineManager S) (machine id : String) (cols rows : ℕ)
      → AllFor S A (owner_of (get machine m.machines)) (apply_resize m machine id cols rows).1
  unfolding apply_resize
  resize-for m machine id cols rows = ground arith

  pub cwd-for :
      (m : MachineManager S) (machine id cwd : String)
      → AllFor S A (owner_of (get machine m.machines)) (handle_cwd m machine id cwd).1
  unfolding handle_cwd
  cwd-for m machine id cwd =
      let moved : Table × Bool = apply_cwd_update m.db.terminal_sessions id cwd in
      ground (
        arith,
        changed-for (record m { db = record m.db { terminal_sessions = moved.0 } }) machine id
            (λ t. record t { cwd = cwd }),
      )

  pub destroyed-for :
      (m : MachineManager S) (machine id : String) (now : ℕ) (o : Option (MachineConnection S))
      → AllFor S A
          (owner_of o)
          (elim o as (λ _. MachineManager S × List (Effect S A)) [
            | none ↦ (m, sends none (Wire.terminal_destroyed machine id) ∷ [])
            | some conn ↦ ended m machine id conn now
          ]).1
  destroyed-for m machine id now none = (refl, tt)
  destroyed-for m machine id now (some conn) = ended-for m machine id conn now

  pub ends-for :
      (m : MachineManager S) (machine id : String) (now : ℕ) (o : Option (MachineConnection S))
      → AllFor S A
          (owner_of o)
          (elim o as (λ _. MachineManager S × List (Effect S A)) [
            | none ↦ (m, [])
            | some conn ↦ ended m machine id conn now
          ]).1
  ends-for m machine id now none = tt
  ends-for m machine id now (some conn) = ended-for m machine id conn now
