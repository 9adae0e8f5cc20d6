-- ===== src/Hub/Machines/Naming.antt =====
-- crates/hub/src/machine_manager.rs: under which ids the terminals of the connections stand.
pub mod Handlers
pub mod Messages
pub mod Operations
pub mod Tabs
pub mod Calls
use webmux.Base.{
  ◌⊎◌, inl, inr, String, ◌≡◌, refl, ◌∙◌, ap, sym, subst, Bool, true, false, not, ◌&&◌, Option, none,
  some, List, [], ◌∷◌, ◌++◌, map, is_some, is_text, if◌then◌else◌, arith, string_key, ℕ, Result, ok,
  err,
}
use webmux.Base.Map.{get, insert, modify, remove, mapped, get-insert, get-modify, get-remove}
use webmux.Hub.Sessions.{
  TerminalTitleSource, TitleUpdateOutcome, updated, unchanged, rejected, mark_destroyed, Table,
  apply_cwd_update, apply_title_update,
}
use webmux.Hub.Wire.{TerminalInfo, MachineInfo, MachineToHub, TerminalAttention, Sent}
use webmux.Hub.Wire as Wire
use webmux.Hub.Machines.{
  Effect, sends, replies, PendingResult, MachineConnection, MachineManager, owner_of, on_sessions,
  set_terminal, remove_terminal, terminal_of, persist_terminal, prune_opt,
}
use webmux.Hub.Machines.Connections.{
  connection, register_machine_with_capabilities, unregister_machine, remove_machine,
  set_machine_production, drop_connection, end_sessions,
}
use webmux.Hub.Machines.Terminals.{
  answer, handle_created, handle_destroyed, handle_terminal_destroyed_internal, handle_title,
  handle_attention, handle_cwd, apply_resize, handle_stats, added, ended, changed, retitled,
  created_info, group_of,
}
use webmux.Hub.Machines.Reconcile.{
  restored, report, report_all, is_reported, bury, bury_all, reconcile, handle_existing_terminals,
  remembered_of, terminals_by_id,
}
use webmux.Hub.Machines.Reconnect.{Named, prune-machines, row-machines, bury_all-machines}
use webmux.Hub.Agents.{AgentTables}
use webmux.Hub.Agents.Messages.{handle_session_update, handle_session_event, handle_session_exited}
use webmux.Hub.Machines.Messages.{on_agents, handle_machine_message}

Named-get :
    (ts : List (String × TerminalInfo)) (id : String) (t : TerminalInfo)
    → Named ts
    → get id ts ≡ some t
    → t.id ≡ id
unfolding get
Named-get [] id t n e = absurd (ground (arith, e))
Named-get ((k, u) ∷ ts) id t (p, q, n) e =
    ground (arith, e, p, string_key.eq_iff k id, Named-get ts id t n)

Named-insert :
    (ts : List (String × TerminalInfo)) (id : String) (t : TerminalInfo)
    → id ≡ t.id
    → Named ts
    → Named (insert id t ts)
unfolding insert get
Named-insert [] id t e n = (e, refl, tt)
Named-insert ((k, u) ∷ ts) id t e (p, q, n) = ground (
  arith,
  e,
  p,
  q,
  n,
  string_key.eq_iff k id,
  string_key.eq_iff id k,
  get-insert id k t ts,
  Named-insert ts id t e n,
)

Named-remove : (ts : List (String × TerminalInfo)) (id : String) → Named ts → Named (remove id ts)
unfolding remove
Named-remove [] id n = tt
Named-remove ((k, u) ∷ ts) id (p, q, n) =
    ground (arith, p, q, n, string_key.eq_iff k id, get-remove id k ts, Named-remove ts id n)

module _ {S : Type 0} where
  abbrev pub NamedIn : Option (MachineConnection S) → Type 0
  NamedIn none = Unit
  NamedIn (some conn) = Named conn.terminals

  -- The terminals of every connection are named.
  abbrev pub IsNamed : List (String × MachineConnection S) → Type 0
  IsNamed machines = (machine : String) → NamedIn (get machine machines)

  IsNamed-insert :
      (k : String) (conn : MachineConnection S) (machines : List (String × MachineConnection S))
      → Named conn.terminals
      → IsNamed machines
      → IsNamed (insert k conn machines)
  IsNamed-insert k conn machines n v machine =
      ground (arith, get-insert k machine conn machines, n, v machine)

  IsNamed-remove :
      (k : String) (machines : List (String × MachineConnection S))
      → IsNamed machines
      → IsNamed (remove k machines)
  IsNamed-remove k machines v machine = ground (arith, get-remove k machine machines, v machine)

  NamedIn-mapped :
      (f : MachineConnection S → MachineConnection S) (o : Option (MachineConnection S))
      → ((conn : MachineConnection S)
          → o ≡ some conn
          → Named conn.terminals
          → Named (f conn).terminals)
      → NamedIn o
      → NamedIn (mapped f o)
  NamedIn-mapped f none h n = tt
  NamedIn-mapped f (some conn) h n = h conn refl n

  IsNamed-modify :
      (k : String) (f : MachineConnection S → MachineConnection S)
      (machines : List (String × MachineConnection S))
      → ((conn : MachineConnection S)
          → get k machines ≡ some conn
          → Named conn.terminals
          → Named (f conn).terminals)
      → IsNamed machines
      → IsNamed (modify k f machines)
  IsNamed-modify k f machines h v machine = ground (
    arith,
    get-modify k machine f machines,
    NamedIn-mapped f (get k machines) h (v k),
    v machine,
    string_key.eq_iff k machine,
  )

  IsNamed-set :
      (m : MachineManager S) (machine id : String) (t : TerminalInfo)
      → id ≡ t.id
      → IsNamed m.machines
      → IsNamed (set_terminal m machine id t).machines
  IsNamed-set m machine id t e v =
      IsNamed-modify machine (λ conn. record conn { terminals = insert id t conn.terminals })
        m.machines (λ conn g n. Named-insert conn.terminals id t e n) v

  -- A terminal that the manager finds under an id has that id.
  found_id :
      (m : MachineManager S) (machine id : String) (t : TerminalInfo)
      → IsNamed m.machines
      → terminal_of m machine id ≡ some t
      → t.id ≡ id
  found_id m machine id t v e = by_connection (get machine m.machines) (v machine) e
    where
      by_connection :
          (o : Option (MachineConnection S))
          → NamedIn o
          → (elim o as (λ _. Option TerminalInfo) [
            | none ↦ none
            | some conn ↦ get id conn.terminals
          ])
            ≡ some t
          → t.id ≡ id
      by_connection none n e = absurd (ground (arith, e))
      by_connection (some conn) n e = Named-get conn.terminals id t n e
