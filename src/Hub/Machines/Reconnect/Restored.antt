-- ===== src/Hub/Machines/Reconnect/Restored.antt =====
-- What a machine that connects again finds of its terminals.
use webmux.Base.{
  String, ◌≡◌, refl, false, Option, none, some, List, [], is_nil, string_key, arith, ℕ,
}
use webmux.Base.Map.{get, mapped, get-insert}
use webmux.Hub.Wire.{MachineInfo, TerminalInfo}
use webmux.Hub.Machines.{MachineConnection, MachineManager, terminal_of}
use webmux.Hub.Machines.Connections.{unreachable, connection, register_machine_with_capabilities}
use webmux.Hub.Machines.Reconcile.{
  terminals_by_id, restored, remembered_of, handle_existing_terminals,
}
use webmux.Hub.Machines.Reconnect.{
  last_report, or_else, Named, gone, get-all_restored, existing-machines, get-terminals_by_id,
}

-- A report of a terminal, with what the old connection knew of its tab and title.
abbrev pub as_known : Option TerminalInfo → TerminalInfo → TerminalInfo
as_known none t = t
as_known (some p) t = record {
  id = t.id;
  machine_id = t.machine_id;
  title = p.title;
  cwd = t.cwd;
  title_source = p.title_source;
  workspace_group_id = p.workspace_group_id;
  cols = t.cols;
  rows = t.rows;
  reachable = t.reachable;
  attention = t.attention;
}

restored-gone :
    (o r : Option TerminalInfo)
    → or_else (mapped (restored (mapped gone o)) r) none ≡ mapped (as_known o) r
unfolding or_else
restored-gone none none = refl
restored-gone none (some t) = refl
restored-gone (some p) none = refl
restored-gone (some p) (some t) = refl

module _ (S A : Type 0) where
  remembered-register :
      (m : MachineManager S) (conn_id : String) (info : MachineInfo) (user : Option String)
      (capabilities : List String) (conn : MachineConnection S)
      → get info.id m.machines ≡ some conn
      → is_nil conn.terminals ≡ false
      → remembered_of
          (register_machine_with_capabilities {S = S} {A = A} m conn_id info user capabilities).0
          info.id
        ≡ unreachable conn.terminals
  unfolding register_machine_with_capabilities
  remembered-register m conn_id info user capabilities conn g n = ground (
    arith,
    g,
    n,
    get-insert info.id info.id (unreachable conn.terminals) m.persisted_terminals,
    string_key.eq_iff info.id info.id,
  )

  connected-register :
      (m : MachineManager S) (conn_id : String) (info : MachineInfo) (user : Option String)
      (capabilities : List String)
      → get info.id
          (register_machine_with_capabilities {S = S} {A = A} m conn_id info user
            capabilities).0.machines
        ≡ some (connection conn_id info user capabilities)
  unfolding register_machine_with_capabilities
  connected-register m conn_id info user capabilities = ground (
    arith,
    get-insert info.id info.id (connection {S = S} conn_id info user capabilities) m.machines,
    string_key.eq_iff info.id info.id,
  )

-- A machine connects again while the hub still holds its old connection, which has terminals, and
-- reports what terminals it has. Then the hub holds exactly the terminals of the report, as they were
-- last reported, but a terminal that the old connection had keeps its tab, its title and where the
-- title came from.
pub reconnect_exact :
    (S A : Type 0) (m : MachineManager S) (conn_id : String) (info : MachineInfo)
    (user : Option String) (capabilities : List String) (conn : MachineConnection S)
    (ts : List TerminalInfo) (now : ℕ) (id : String)
    → get info.id m.machines ≡ some conn
    → Named conn.terminals
    → is_nil conn.terminals ≡ false
    → let m' =
        (register_machine_with_capabilities {S = S} {A = A} m conn_id info user capabilities).0 in
      terminal_of (handle_existing_terminals {S = S} {A = A} m' info.id ts now).0 info.id id
      ≡ mapped (as_known (get id conn.terminals)) (last_report id ts)
unfolding get
reconnect_exact S A m conn_id info user capabilities conn ts now id g n f =
    let m' : MachineManager S =
      (register_machine_with_capabilities {S = S} {A = A} m conn_id info user capabilities).0 in
    let new : MachineConnection S = connection conn_id info user capabilities in
    ground (
      arith,
      existing-machines S A m' info.id new ts now
          (connected-register S A m conn_id info user capabilities),
      remembered-register S A m conn_id info user capabilities conn g f,
      get-all_restored id (terminals_by_id (remembered_of m' info.id)) ts [],
      get-terminals_by_id id conn.terminals n,
      restored-gone (get id conn.terminals) (last_report id ts),
    )
