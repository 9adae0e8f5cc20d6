-- ===== src/Hub/Machines/Naming/Handlers.antt =====
-- The ids of the terminals, through the handlers of messages.
use webmux.Base.{
  ◌⊎◌, inl, inr, String, ◌≡◌, refl, ◌∙◌, sym, subst, Bool, true, false, Option, none, some, List,
  [], ◌∷◌, is_some, if◌then◌else◌, arith, string_key, ℕ, Result,
}
use webmux.Base.Map.{get, modify, remove}
use webmux.Hub.Sessions.{
  TerminalTitleSource, TitleUpdateOutcome, updated, unchanged, rejected, mark_destroyed, Table,
  apply_cwd_update, apply_title_update,
}
use webmux.Hub.Wire.{TerminalInfo, MachineInfo, MachineToHub, TerminalAttention, Sent}
use webmux.Hub.Wire as Wire
use webmux.Hub.Machines.{
  Effect, sends, PendingResult, MachineConnection, MachineManager, owner_of, on_sessions,
  set_terminal, remove_terminal, terminal_of, persist_terminal,
}
use webmux.Hub.Machines.Terminals.{
  answer, handle_created, handle_title, handle_attention, handle_cwd, apply_resize, handle_stats,
  added, ended, changed, retitled, created_info, group_of,
}
use webmux.Hub.Machines.Reconcile.{
  restored, report, report_all, reconcile, handle_existing_terminals, remembered_of,
  terminals_by_id,
}
use webmux.Hub.Machines.Reconnect.{prune-machines, row-machines, bury_all-machines}
use webmux.Hub.Agents.{AgentTables}
use webmux.Hub.Machines.Messages.{on_agents}
use webmux.Hub.Machines.Naming.{Named-remove, IsNamed, IsNamed-modify, IsNamed-set, found_id}

module _ (S A : Type 0) where
  abbrev pub Keeps : MachineManager S → MachineManager S × List (Effect S A) → Type 0
  Keeps m r = IsNamed m.machines → IsNamed r.0.machines

  pub Keeps-same :
      (m : MachineManager S) (r : MachineManager S × List (Effect S A))
      → r.0.machines ≡ m.machines
      → Keeps m r
  Keeps-same m r e v = subst IsNamed (sym e) v

  pub Keeps-answer :
      (m : MachineManager S) (request_id : String) (r : Result PendingResult String)
      → Keeps m (answer m request_id r)
  unfolding answer
  Keeps-answer m request_id r = Keeps-same m (answer m request_id r) (ground arith)

  pub Keeps-ended :
      (m : MachineManager S) (machine id : String) (conn : MachineConnection S) (now : ℕ)
      → Keeps m (ended m machine id conn now)
  unfolding ended
  Keeps-ended m machine id conn now v =
      let m1 : MachineManager S =
        on_sessions (remove_terminal m machine id) (λ table. mark_destroyed table id now) in
      let e : m1.machines ≡ (remove_terminal m machine id).machines = ground arith in
      subst IsNamed
        (sym (prune-machines S A m1 conn.user_id machine (group_of (get id conn.terminals)) ∙ e))
        (IsNamed-modify machine (λ c. record c { terminals = remove id c.terminals }) m.machines
          (λ c g n. Named-remove c.terminals id n) v)

  pub Keeps-changed :
      (m : MachineManager S) (machine id : String) (f : TerminalInfo → TerminalInfo)
      → ((t : TerminalInfo) → (f t).id ≡ t.id)
      → Keeps m (changed m machine id f)
  unfolding changed
  Keeps-changed m machine id f h v =
      by_terminal (terminal_of m machine id) (λ t e. found_id m machine id t v e)
    where
      by_terminal :
          (o : Option TerminalInfo)
          → ((t : TerminalInfo) → o ≡ some t → t.id ≡ id)
          → IsNamed
              (elim o as (λ _. MachineManager S × List (Effect S A)) [
                | none ↦ (m, [])
                | some t ↦ (
                  set_terminal m machine id (f t),
                  sends (owner_of (get machine m.machines)) (Wire.terminal_updated (f t)) ∷ [],
                )
              ]).0.machines
      by_terminal none g = v
      by_terminal (some t) g = IsNamed-set m machine id (f t) (sym (h t ∙ g t refl)) v

  pub Keeps-resize :
      (m : MachineManager S) (machine id : String) (cols rows : ℕ)
      → Keeps m (apply_resize m machine id cols rows)
  unfolding apply_resize changed
  Keeps-resize m machine id cols rows v =
      let r : MachineManager S × List (Effect S A) =
        changed m machine id (λ t. record t { cols = cols; rows = rows }) in
      let e : (apply_resize {S = S} {A = A} m machine id cols rows).0.machines ≡ r.0.machines =
        ground arith in
      subst IsNamed (sym e)
        (Keeps-changed m machine id (λ t. record t { cols = cols; rows = rows }) (λ t. refl) v)

  pub Keeps-report_all :
      (ts : List TerminalInfo) (m : MachineManager S) (machine : String) (user : Option String)
      (remembered : List (String × TerminalInfo)) (now : ℕ)
      → Keeps m (report_all m machine user remembered ts now)
  unfolding report_all report
  Keeps-report_all [] m machine user remembered now v = v
  Keeps-report_all (t ∷ ts) m machine user remembered now v =
      let t' : TerminalInfo = restored (get t.id remembered) t in
      let m1 : MachineManager S =
        (report {S = S} {A = A} m machine user (get t.id remembered) t now).0 in
      Keeps-report_all ts m1 machine user remembered now (
        subst IsNamed
          (sym (
            row-machines S A (set_terminal m machine t'.id t') machine
              (is_some (get t.id remembered)) t' now))
          (IsNamed-set m machine t'.id t' refl v))

  pub Keeps-existing :
      (m : MachineManager S) (machine : String) (ts : List TerminalInfo) (now : ℕ)
      → Keeps m (handle_existing_terminals m machine ts now)
  unfolding handle_existing_terminals reconcile
  Keeps-existing m machine ts now v = by_connection (get machine m.machines)
    where
      m' : MachineManager S
      m' = record m { persisted_terminals = remove machine m.persisted_terminals }

      by_connection :
          (o : Option (MachineConnection S))
          → IsNamed
              (elim o as (λ _. MachineManager S × List (Effect S A)) [
                | none ↦
                    (record m { persisted_terminals = remove machine m.persisted_terminals }, [])
                | some conn ↦
                    reconcile
                      (record m { persisted_terminals = remove machine m.persisted_terminals })
                      machine
                      conn.user_id
                      (remembered_of m machine)
                      ts
                      now
              ]).0.machines
      by_connection none = v
      by_connection (some conn) =
          let old : List TerminalInfo = remembered_of m machine in
          let m0 : MachineManager S = record m {
            persisted_terminals = remove machine m.persisted_terminals;
          } in
          let m1 : MachineManager S =
            (report_all {S = S} {A = A} m0 machine conn.user_id (terminals_by_id old) ts now).0 in
          subst IsNamed (sym (bury_all-machines S A m1 machine conn.user_id ts old now))
            (Keeps-report_all ts m0 machine conn.user_id (terminals_by_id old) now v)

  pub Keeps-added :
      (m : MachineManager S) (machine : String) (t : TerminalInfo)
      (o : Option (MachineConnection S))
      → Keeps m (added m machine t o)
  unfolding added
  Keeps-added m machine t none v = v
  Keeps-added m machine t (some conn) v = IsNamed-set m machine t.id t refl v

  pub Keeps-created :
      (m : MachineManager S) (machine request_id id title cwd : String) (cols rows now : ℕ)
      → Keeps m (handle_created m machine request_id id title cwd cols rows now)
  unfolding handle_created persist_terminal answer
  Keeps-created m machine request_id id title cwd cols rows now v =
      let t : TerminalInfo = created_info machine id title cwd cols rows in
      let r : MachineManager S × List (Effect S A) = added m machine t (get machine m.machines) in
      let e : (handle_created {S = S} {A = A} m machine request_id id title cwd cols rows
            now).0.machines
          ≡ r.0.machines =
        ground arith in
      subst IsNamed (sym e) (Keeps-added m machine t (get machine m.machines) v)

  pub Keeps-if :
      (m : MachineManager S) (b : Bool) (r s : MachineManager S × List (Effect S A))
      → Keeps m r
      → Keeps m s
      → Keeps m (if b then r else s)
  Keeps-if m true r s k l = k
  Keeps-if m false r s k l = l

  pub Keeps-retitled :
      (m : MachineManager S) (machine id title : String) (source : TerminalTitleSource)
      (o : TitleUpdateOutcome)
      → Keeps m (retitled m machine id title source o)
  unfolding retitled
  Keeps-retitled m machine id title source updated =
      Keeps-changed m machine id (λ t. record t { title = title; title_source = source })
        (λ t. refl)
  Keeps-retitled m machine id title source unchanged = λ v. v
  Keeps-retitled m machine id title source rejected = λ v. v

  pub Keeps-title :
      (m : MachineManager S) (machine id title : String) (source : TerminalTitleSource)
      → Keeps m (handle_title m machine id title source)
  unfolding handle_title
  Keeps-title m machine id title source =
      let done : Table × TitleUpdateOutcome =
        apply_title_update m.db.terminal_sessions id title source in
      let m' : MachineManager S = record m { db = record m.db { terminal_sessions = done.0 } } in
      Keeps-if m m.db_is_up (retitled m' machine id title source done.1) (m, [])
        (Keeps-retitled m' machine id title source done.1) (λ v. v)

  pub Keeps-cwd :
      (m : MachineManager S) (machine id cwd : String) → Keeps m (handle_cwd m machine id cwd)
  unfolding handle_cwd
  Keeps-cwd m machine id cwd =
      let done : Table × Bool = apply_cwd_update m.db.terminal_sessions id cwd in
      let m' : MachineManager S = record m { db = record m.db { terminal_sessions = done.0 } } in
      let r : MachineManager S × List (Effect S A) =
        changed m' machine id (λ t. record t { cwd = cwd }) in
      Keeps-if m m.db_is_up (if done.1 then r else (m', [])) (m, [])
        (Keeps-if m done.1 r (m', [])
          (Keeps-changed m' machine id (λ t. record t { cwd = cwd }) (λ t. refl)) (λ v. v))
        (λ v. v)

  pub Keeps-attention :
      (m : MachineManager S) (machine id : String) (attention : Option TerminalAttention)
      → Keeps m (handle_attention m machine id attention)
  unfolding handle_attention changed
  Keeps-attention m machine id attention v =
      let r : MachineManager S × List (Effect S A) =
        changed m machine id (λ t. record t { attention = attention }) in
      let e : ((handle_attention {S = S} {A = A} m machine id attention).0.machines ≡ m.machines)
          ⊎ ((handle_attention {S = S} {A = A} m machine id attention).0.machines ≡ r.0.machines) =
        ground arith in
      elim e [
        | inl f ↦ subst IsNamed (sym f) v
        | inr f ↦
            subst IsNamed (sym f)
              (Keeps-changed m machine id (λ t. record t { attention = attention }) (λ t. refl) v)
      ]

  pub Keeps-stats :
      (m : MachineManager S) (machine : String) (stats : S) → Keeps m (handle_stats m machine stats)
  unfolding handle_stats
  Keeps-stats m machine stats v =
      let e : ((handle_stats {S = S} {A = A} m machine stats).0.machines ≡ m.machines)
          ⊎ ((handle_stats {S = S} {A = A} m machine stats).0.machines
              ≡ modify machine (λ c. record c { latest_stats = some stats }) m.machines) =
        ground arith in
      elim e [
        | inl f ↦ subst IsNamed (sym f) v
        | inr f ↦ subst IsNamed (sym f) (
            IsNamed-modify machine (λ c. record c { latest_stats = some stats }) m.machines
              (λ c g n. n) v)
      ]

  pub Keeps-destroyed :
      (m : MachineManager S) (machine id : String) (now : ℕ) (es : List (Effect S A))
      (o : Option (MachineConnection S))
      → Keeps m (elim o as (λ _. MachineManager S × List (Effect S A)) [
        | none ↦ (m, es)
        | some conn ↦ ended m machine id conn now
      ])
  Keeps-destroyed m machine id now es none = λ v. v
  Keeps-destroyed m machine id now es (some conn) = Keeps-ended m machine id conn now

  pub Keeps-agents :
      (m : MachineManager S) (f : AgentTables → AgentTables × List (Sent S A))
      → Keeps m (on_agents m f)
  unfolding on_agents
  Keeps-agents m f = Keeps-same m (on_agents m f) (ground arith)
