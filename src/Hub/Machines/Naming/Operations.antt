-- ===== src/Hub/Machines/Naming/Operations.antt =====
-- The ids of the terminals, when a machine disconnects or is forgotten.
use webmux.Base.{
  ◌⊎◌, inl, inr, String, ◌≡◌, sym, subst, Bool, true, false, Option, none, some, List, [], is_text,
  if◌then◌else◌, arith, string_key, ℕ,
}
use webmux.Base.Map.{get, remove}
use webmux.Hub.Machines.{Effect, MachineConnection, MachineManager}
use webmux.Hub.Machines.Connections.{
  unregister_machine, remove_machine, drop_connection, end_sessions,
}
use webmux.Hub.Machines.Naming.{IsNamed, IsNamed-remove}

module _ (S A : Type 0) where
  drop-machines :
      (m : MachineManager S) (machine : String) (conn : MachineConnection S) (now : ℕ)
      → (drop_connection {S = S} {A = A} m machine conn now).0.machines ≡ remove machine m.machines
  unfolding drop_connection end_sessions
  drop-machines m machine conn now = ground arith

  pub unregister-IsNamed :
      (m : MachineManager S) (machine conn_id : String) (now : ℕ)
      → IsNamed m.machines
      → IsNamed (unregister_machine {S = S} {A = A} m machine conn_id now).0.machines
  unfolding unregister_machine
  unregister-IsNamed m machine conn_id now v = by_connection (get machine m.machines)
    where
      by_connection :
          (o : Option (MachineConnection S))
          → IsNamed
              (elim o as (λ _. MachineManager S × List (Effect S A)) [
                | none ↦ (m, [])
                | some conn ↦
                    if is_text conn.conn_id conn_id
                    then drop_connection m machine conn now
                    else (m, [])
              ]).0.machines
      by_connection none = v
      by_connection (some conn) = by_id (is_text conn.conn_id conn_id)
        where
          by_id :
              (b : Bool)
              → IsNamed
                  (if b
                    then drop_connection {S = S} {A = A} m machine conn now
                    else (m, [])).0.machines
          by_id true =
              subst IsNamed (sym (drop-machines m machine conn now))
                (IsNamed-remove machine m.machines v)
          by_id false = v

  pub forget-IsNamed :
      (m : MachineManager S) (user machine : String)
      → IsNamed m.machines
      → IsNamed (remove_machine {S = S} {A = A} m user machine).0.machines
  unfolding remove_machine
  forget-IsNamed m user machine v =
      let m' : MachineManager S = (remove_machine {S = S} {A = A} m user machine).0 in
      let e : (m'.machines ≡ m.machines) ⊎ (m'.machines ≡ remove machine m.machines) =
        ground arith in
      elim e [
        | inl f ↦ subst IsNamed (sym f) v
        | inr f ↦ subst IsNamed (sym f) (IsNamed-remove machine m.machines v)
      ]
