-- ===== src/Hub/Machines/Reconnect.antt =====
-- A machine that connects again: what the hub makes of the terminals that it reports.
pub mod Restored
use webmux.Base.{
  String, ◌≡◌, refl, ◌∙◌, Bool, true, false, Option, none, some, List, [], ◌∷◌, is_some, is_nil,
  if◌then◌else◌, string_key, arith, ℕ,
}
use webmux.Base.Map.{get, insert, remove, mapped, get-insert, get-modify}
use webmux.Hub.Sessions.{mark_destroyed}
use webmux.Hub.Wire.{MachineInfo, TerminalInfo}
use webmux.Hub.Machines.{
  MachineConnection, MachineManager, on_sessions, set_terminal, persist_terminal, prune_opt,
  prune_auto_tab_if_empty, terminal_of,
}
use webmux.Hub.Machines.Connections.{unreachable, connection, register_machine_with_capabilities}
use webmux.Hub.Machines.Reconcile.{
  by_id, terminals_by_id, restored, reported_row, report, report_all, is_reported, bury, bury_all,
  remembered_of, reconcile, handle_existing_terminals,
}

-- The last report of a terminal.
abbrev pub last_report : String → List TerminalInfo → Option TerminalInfo
last_report id [] = none
last_report id (t ∷ ts) = elim (last_report id ts) [
  | none ↦ if string_key.eq t.id id then some t else none
  | some u ↦ some u
]

unfoldable pub or_else : Option TerminalInfo → Option TerminalInfo → Option TerminalInfo
or_else none o = o
or_else (some t) o = some t

-- The terminals of a connection after a report.
abbrev all_restored :
    List (String × TerminalInfo)
    → List TerminalInfo
    → List (String × TerminalInfo)
    → List (String × TerminalInfo)
all_restored remembered [] terminals = terminals
all_restored remembered (t ∷ ts) terminals =
    all_restored remembered ts (insert t.id (restored (get t.id remembered) t) terminals)

get-by_id :
    (id : String) (ts : List TerminalInfo) (m : List (String × TerminalInfo))
    → get id (by_id ts m) ≡ or_else (last_report id ts) (get id m)
unfolding by_id or_else
get-by_id id [] m = refl
get-by_id id (t ∷ ts) m = ground (arith, get-by_id id ts (insert t.id t m), get-insert t.id id t m)

pub get-all_restored :
    (id : String) (remembered : List (String × TerminalInfo)) (ts : List TerminalInfo)
    (m : List (String × TerminalInfo))
    → get id (all_restored remembered ts m)
      ≡ or_else (mapped (restored (get id remembered)) (last_report id ts)) (get id m)
unfolding or_else
get-all_restored id remembered [] m = refl
get-all_restored id remembered (t ∷ ts) m = ground (
  arith,
  get-all_restored id remembered ts (insert t.id (restored (get t.id remembered) t) m),
  get-insert t.id id (restored (get t.id remembered) t) m,
  string_key.eq_iff t.id id,
)

module _ (S A : Type 0) where
  pub prune-machines :
      (m : MachineManager S) (user : Option String) (machine : String) (group : Option String)
      → (prune_opt {S = S} {A = A} m user machine group).0.machines ≡ m.machines
  unfolding prune_auto_tab_if_empty
  prune-machines m user machine none = refl
  prune-machines m none machine (some g) = refl
  prune-machines m (some u) machine (some g) = ground arith

  pub row-machines :
      (m : MachineManager S) (machine : String) (b : Bool) (t : TerminalInfo) (now : ℕ)
      → (reported_row m machine b t now).machines ≡ m.machines
  unfolding persist_terminal
  row-machines m machine b t now = ground arith

  bury-machines :
      (m : MachineManager S) (machine : String) (user : Option String) (b : Bool) (t : TerminalInfo)
      (now : ℕ)
      → (if b then (m, []) else bury {S = S} {A = A} m machine user t now).0.machines ≡ m.machines
  unfolding bury
  bury-machines m machine user true t now = refl
  bury-machines m machine user false t now =
      let m' : MachineManager S = on_sessions m (λ table. mark_destroyed table t.id now) in
      prune-machines m' user machine t.workspace_group_id ∙ ground arith

  pub bury_all-machines :
      (m : MachineManager S) (machine : String) (user : Option String)
      (reported ts : List TerminalInfo) (now : ℕ)
      → (bury_all {S = S} {A = A} m machine user reported ts now).0.machines ≡ m.machines
  unfolding bury_all
  bury_all-machines m machine user reported [] now = refl
  bury_all-machines m machine user reported (t ∷ ts) now =
      let m' : MachineManager S =
        (if is_reported reported t.id
          then (m, [])
          else bury {S = S} {A = A} m machine user t now).0 in
      bury_all-machines m' machine user reported ts now
      ∙ bury-machines m machine user (is_reported reported t.id) t now

  report-machines :
      (m : MachineManager S) (machine : String) (user : Option String) (o : Option TerminalInfo)
      (t : TerminalInfo) (now : ℕ)
      → get machine (report {S = S} {A = A} m machine user o t now).0.machines
        ≡ mapped
            (λ conn. record conn { terminals = insert t.id (restored o t) conn.terminals })
            (get machine m.machines)
  unfolding report
  report-machines m machine user o t now = ground (
    arith,
    row-machines (set_terminal m machine (restored o t).id (restored o t)) machine (is_some o)
        (restored o t) now,
    get-modify machine machine
        (λ (conn : MachineConnection S). record conn {
          terminals = insert (restored o t).id (restored o t) conn.terminals;
        })
        m.machines,
    string_key.eq_iff machine machine,
  )

  report_all-machines :
      (ts : List TerminalInfo) (m : MachineManager S) (machine : String) (user : Option String)
      (remembered : List (String × TerminalInfo)) (now : ℕ)
      → get machine (report_all {S = S} {A = A} m machine user remembered ts now).0.machines
        ≡ mapped
            (λ conn. record conn { terminals = all_restored remembered ts conn.terminals })
            (get machine m.machines)
  unfolding report_all
  report_all-machines [] m machine user remembered now = ground arith
  report_all-machines (t ∷ ts) m machine user remembered now = ground (
    arith,
    report-machines m machine user (get t.id remembered) t now,
    report_all-machines ts (report {S = S} {A = A} m machine user (get t.id remembered) t now).0
        machine user remembered now,
  )

  pub existing-machines :
      (m : MachineManager S) (machine : String) (conn : MachineConnection S)
      (ts : List TerminalInfo) (now : ℕ)
      → get machine m.machines ≡ some conn
      → get machine (handle_existing_terminals {S = S} {A = A} m machine ts now).0.machines
        ≡ some (record conn {
          terminals = all_restored (terminals_by_id (remembered_of m machine)) ts conn.terminals;
        })
  unfolding handle_existing_terminals reconcile
  existing-machines m machine conn ts now g =
      let m' : MachineManager S = record m {
        persisted_terminals = remove machine m.persisted_terminals;
      } in
      let old : List TerminalInfo = remembered_of m machine in
      let m1 : MachineManager S =
        (report_all {S = S} {A = A} m' machine conn.user_id (terminals_by_id old) ts now).0 in
      ground (
        arith,
        g,
        report_all-machines ts m' machine conn.user_id (terminals_by_id old) now,
        bury_all-machines m1 machine conn.user_id ts old now,
      )

-- Each terminal of a connection stands under its id, once.
abbrev pub Named : List (String × TerminalInfo) → Type 0
Named [] = Unit
Named ((id, t) ∷ ts) = (id ≡ t.id) × (get id ts ≡ none) × Named ts

abbrev pub gone : TerminalInfo → TerminalInfo
gone t = record t { reachable = false }

last_report-unreachable :
    (id : String) (ts : List (String × TerminalInfo))
    → Named ts
    → last_report id (unreachable ts) ≡ mapped gone (get id ts)
unfolding get
last_report-unreachable id [] n = refl
last_report-unreachable id ((k, t) ∷ ts) (e, f, n) = ground (
  arith,
  e,
  f,
  last_report-unreachable id ts n,
  string_key.eq_iff k id,
  string_key.eq_iff t.id id,
)

pub get-terminals_by_id :
    (id : String) (ts : List (String × TerminalInfo))
    → Named ts
    → get id (terminals_by_id (unreachable ts)) ≡ mapped gone (get id ts)
unfolding or_else get
get-terminals_by_id id ts n =
    ground (arith, get-by_id id (unreachable ts) [], last_report-unreachable id ts n)
