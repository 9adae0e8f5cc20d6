-- ===== src/Hub/Machines/Naming/Tabs.antt =====
-- The ids of the terminals, when a terminal changes its tab.
use webmux.Base.{
  String, ◌≡◌, refl, ◌∙◌, sym, subst, Bool, true, false, not, Option, none, some, List, [], ◌∷◌,
  map, if◌then◌else◌, arith, string_key, ℕ, Result, err,
}
use webmux.Base.Map.{get, insert}
use webmux.Hub.Wire.{TerminalInfo}
use webmux.Hub.Machines.{
  Effect, MachineConnection, MachineManager, connection_visible_to, persist_terminal, set_terminal,
}
use webmux.Hub.Machines.Tabs.{
  set_terminal_workspace_group, clear_workspace_group_assignments, placed, placed_in_persisted,
  recorded, regrouped, left_group, with_group, clear_connected, clear_persisted, clear_terminals,
  in_group,
}
use webmux.Hub.Machines.Reconnect.{Named, prune-machines}
use webmux.Hub.Machines.Naming.{Named-get, NamedIn, IsNamed, IsNamed-insert, IsNamed-set}

get-clear_terminals :
    (group id : String) (ts : List (String × TerminalInfo))
    → get id ts ≡ none
    → get id (clear_terminals group ts) ≡ none
unfolding get clear_terminals
get-clear_terminals group id [] e = refl
get-clear_terminals group id ((k, t) ∷ ts) e = ground (arith, e, get-clear_terminals group id ts)

Named-clear_terminals :
    (group : String) (ts : List (String × TerminalInfo))
    → Named ts
    → Named (clear_terminals group ts)
unfolding clear_terminals
Named-clear_terminals group [] n = tt
Named-clear_terminals group ((k, t) ∷ ts) (p, q, n) =
    ground (arith, p, get-clear_terminals group k ts q, Named-clear_terminals group ts n)

module _ (S A : Type 0) where
  recorded-machines :
      (m : MachineManager S) (t : TerminalInfo) (id : String) (group : Option String) (now : ℕ)
      → (recorded m t id group now).0.machines ≡ m.machines
  unfolding recorded persist_terminal
  recorded-machines m t id group now = ground arith

  regrouped-machines :
      (m : MachineManager S) (b : Bool) (user machine : String) (old : Option String)
      (t : TerminalInfo)
      → (regrouped {S = S} {A = A} (m, b) user machine old t).0.machines ≡ m.machines
  unfolding regrouped
  regrouped-machines m false user machine old t = refl
  regrouped-machines m true user machine old t =
      prune-machines S A m (some user) machine (left_group old t.workspace_group_id)

  PlacedIsNamed : MachineManager S → Option (MachineManager S × TerminalInfo) → Type 0
  PlacedIsNamed m none = Unit
  PlacedIsNamed m (some (m', t)) = IsNamed m'.machines

  PlacedSame : MachineManager S → Option (MachineManager S × TerminalInfo) → Type 0
  PlacedSame m none = Unit
  PlacedSame m (some (m', t)) = m'.machines ≡ m.machines

  placed_in_persisted-same :
      (m : MachineManager S) (machine id : String) (group : Option String)
      → PlacedSame m (placed_in_persisted m machine id group)
  unfolding placed_in_persisted PlacedSame
  placed_in_persisted-same m machine id group = ground arith

  PlacedSame-IsNamed :
      (m : MachineManager S) (o : Option (MachineManager S × TerminalInfo))
      → PlacedSame m o
      → IsNamed m.machines
      → PlacedIsNamed m o
  unfolding PlacedSame PlacedIsNamed
  PlacedSame-IsNamed m none p v = tt
  PlacedSame-IsNamed m (some (m', t)) p v = subst IsNamed (sym p) v

  placed-IsNamed :
      (m : MachineManager S) (user machine id : String) (group : Option String)
      → IsNamed m.machines
      → PlacedIsNamed m (placed m user machine id group)
  unfolding placed PlacedIsNamed
  placed-IsNamed m user machine id group v = by_connection (get machine m.machines) (v machine)
    where
      kept : PlacedIsNamed m (placed_in_persisted m machine id group)
      kept =
          PlacedSame-IsNamed m (placed_in_persisted m machine id group)
            (placed_in_persisted-same m machine id group) v

      by_connection :
          (o : Option (MachineConnection S))
          → NamedIn o
          → PlacedIsNamed m (elim o as (λ _. Option (MachineManager S × TerminalInfo)) [
            | none ↦ placed_in_persisted m machine id group
            | some conn ↦
                if not (connection_visible_to conn user)
                then none
                else elim (get id conn.terminals)
                    as (λ _. Option (MachineManager S × TerminalInfo)) [
                      | none ↦ placed_in_persisted m machine id group
                      | some t ↦ some (set_terminal m machine id (with_group group t), t)
                    ]
          ])
      by_connection none n = kept
      by_connection (some conn) n = by_owner (not (connection_visible_to conn user))
        where
          by_terminal :
              (o : Option TerminalInfo)
              → ((t : TerminalInfo) → o ≡ some t → t.id ≡ id)
              → PlacedIsNamed m (elim o as (λ _. Option (MachineManager S × TerminalInfo)) [
                | none ↦ placed_in_persisted m machine id group
                | some t ↦ some (set_terminal m machine id (with_group group t), t)
              ])
          by_terminal none g = kept
          by_terminal (some t) g = IsNamed-set m machine id (with_group group t) (sym (g t refl)) v

          by_owner :
              (b : Bool)
              → PlacedIsNamed m (
                  if b
                  then none
                  else elim (get id conn.terminals)
                      as (λ _. Option (MachineManager S × TerminalInfo)) [
                        | none ↦ placed_in_persisted m machine id group
                        | some t ↦ some (set_terminal m machine id (with_group group t), t)
                      ])
          by_owner true = tt
          by_owner false =
              by_terminal (get id conn.terminals) (λ t e. Named-get conn.terminals id t n e)

  pub group-IsNamed :
      (m : MachineManager S) (user machine id : String) (group : Option String) (now : ℕ)
      → IsNamed m.machines
      → IsNamed
          (set_terminal_workspace_group {S = S} {A = A} m user machine id group now).0.machines
  unfolding set_terminal_workspace_group PlacedIsNamed
  group-IsNamed m user machine id group now v =
      by_place (placed m user machine id group) (placed-IsNamed m user machine id group v)
    where
      by_place :
          (o : Option (MachineManager S × TerminalInfo))
          → PlacedIsNamed m o
          → IsNamed
              (elim o as (λ _. MachineManager S × Result TerminalInfo String × List (Effect S A)) [
                | none ↦ (m, err "Terminal not found", [])
                | some (m', before) ↦
                    regrouped
                      (recorded m' (with_group group before) id group now)
                      user
                      machine
                      before.workspace_group_id
                      (with_group group before)
              ]).0.machines
      by_place none p = v
      by_place (some (m', before)) p =
          let t : TerminalInfo = with_group group before in
          let r : MachineManager S × Bool = recorded m' t id group now in
          subst IsNamed
            (sym (
              regrouped-machines r.0 r.1 user machine before.workspace_group_id t
              ∙ recorded-machines m' t id group now))
            p

  connected-IsNamed :
      (m : MachineManager S) (user machine group : String)
      → IsNamed m.machines
      → IsNamed (clear_connected m user machine group).0.machines
  unfolding clear_connected
  connected-IsNamed m user machine group v = by_connection (get machine m.machines) (v machine)
    where
      by_connection :
          (o : Option (MachineConnection S))
          → NamedIn o
          → IsNamed
              (elim o as (λ _. MachineManager S × List TerminalInfo) [
                | none ↦ (m, [])
                | some conn ↦
                    if connection_visible_to conn user
                    then (
                      record m {
                        machines =
                            insert machine
                              (record conn { terminals = clear_terminals group conn.terminals })
                              m.machines;
                      },
                      in_group group (map (λ t. t.1) conn.terminals),
                    )
                    else (m, [])
              ]).0.machines
      by_connection none n = v
      by_connection (some conn) n = by_owner (connection_visible_to conn user)
        where
          by_owner :
              (b : Bool)
              → IsNamed
                  (if◌then◌else◌ {A = MachineManager S × List TerminalInfo} b
                    (
                      record m {
                        machines =
                            insert machine
                              (record conn { terminals = clear_terminals group conn.terminals })
                              m.machines;
                      },
                      in_group group (map (λ t. t.1) conn.terminals),
                    )
                    (m, [])).0.machines
          by_owner true =
              IsNamed-insert machine
                (record conn { terminals = clear_terminals group conn.terminals }) m.machines
                (Named-clear_terminals group conn.terminals n) v
          by_owner false = v

  persisted-machines :
      (m : MachineManager S) (machine group : String)
      → (clear_persisted m machine group).0.machines ≡ m.machines
  unfolding clear_persisted
  persisted-machines m machine group = ground arith

  pub clear-IsNamed :
      (m : MachineManager S) (user machine group : String)
      → IsNamed m.machines
      → IsNamed (clear_workspace_group_assignments {S = S} {A = A} m user machine group).0.machines
  unfolding clear_workspace_group_assignments
  clear-IsNamed m user machine group v =
      subst IsNamed
        (sym (persisted-machines (clear_connected m user machine group).0 machine group))
        (connected-IsNamed m user machine group v)
