-- ===== src/Hub/Machines/Disconnect.antt =====
-- crates/hub/src/machine_manager.rs: what a disconnect leaves of a machine, and for whom.
use webmux.Base.{
  String, ◌≡◌, refl, true, false, some, List, [], ◌∷◌, is_some, is_nil, is_text, any, arith,
  string_key, ℕ,
}
use webmux.Base.Map.{get, remove, get-insert, get-remove}
use webmux.Hub.Wire.{TerminalInfo}
use webmux.Hub.Machines.{MachineConnection, MachineManager, owned_by}
use webmux.Hub.Machines.Connections.{
  unreachable, stashed, unregister_machine, drop_connection, end_sessions,
}
use webmux.Hub.Machines.Access.{
  user_can_access_machine, user_can_access_terminal, db_machine_belongs_to_user,
}
use webmux.Hub.Machines.Reconnect.{Named}

any-unreachable :
    (ts : List (String × TerminalInfo)) (id : String)
    → Named ts
    → any (λ t. is_text t.id id) (unreachable ts) ≡ is_some (get id ts)
unfolding get
any-unreachable [] id n = refl
any-unreachable ((k, t) ∷ ts) id (p, q, n) =
    ground (arith, p, any-unreachable ts id n, string_key.eq_iff k id, string_key.eq_iff t.id id)

module _ (S A : Type 0) where
  dropped :
      (m : MachineManager S) (machine : String) (conn : MachineConnection S) (now : ℕ)
      → let m' = (drop_connection {S = S} {A = A} m machine conn now).0 in
        (m'.machines ≡ remove machine m.machines)
        × (m'.persisted_terminals ≡ stashed machine (some conn) m.persisted_terminals)
        × (m'.db_is_up ≡ m.db_is_up)
        × (m'.db.machine_rows ≡ m.db.machine_rows)
  unfolding drop_connection end_sessions
  dropped m machine conn now = ground arith

  stale :
      (m : MachineManager S) (machine old : String) (conn : MachineConnection S) (now : ℕ)
      → get machine m.machines ≡ some conn
      → is_text conn.conn_id old ≡ false
      → unregister_machine {S = S} {A = A} m machine old now ≡ (m, [])
  unfolding unregister_machine
  stale m machine old conn now g o = ground (arith, g, o)

  present :
      (m : MachineManager S) (machine : String) (conn : MachineConnection S) (now : ℕ)
      → get machine m.machines ≡ some conn
      → unregister_machine {S = S} {A = A} m machine conn.conn_id now
        ≡ drop_connection m machine conn now
  unfolding unregister_machine
  present m machine conn now g = ground (arith, g, string_key.eq_iff conn.conn_id conn.conn_id)

  unreached :
      (m : MachineManager S) (machine user id : String) (conn : MachineConnection S) (now : ℕ)
      → Named conn.terminals
      → is_nil conn.terminals ≡ false
      → m.db_is_up ≡ true
      → owned_by user (get machine m.db.machine_rows) ≡ true
      → let m' = (drop_connection {S = S} {A = A} m machine conn now).0 in
        (user_can_access_machine m' user machine ≡ false)
        × (user_can_access_terminal m' user machine id ≡ is_some (get id conn.terminals))
  unfolding user_can_access_machine user_can_access_terminal db_machine_belongs_to_user
  unreached m machine user id conn now n f up own = ground (
    arith,
    f,
    up,
    own,
    dropped m machine conn now,
    any-unreachable conn.terminals id n,
    get-remove machine machine m.machines,
    get-insert machine machine (unreachable conn.terminals) m.persisted_terminals,
    string_key.eq_iff machine machine,
  )

-- The disconnect of a connection that another has replaced changes nothing, and no one is told. That of
-- the machine's present connection, while the database answers, takes the machine from its
-- owner's reach, and leaves within it exactly the terminals that the connection had.
pub unregister_machine_exact :
    (S A : Type 0) (m : MachineManager S) (machine old user : String) (conn : MachineConnection S)
    (now : ℕ) (id : String)
    → get machine m.machines ≡ some conn
    → is_text conn.conn_id old ≡ false
    → Named conn.terminals
    → is_nil conn.terminals ≡ false
    → m.db_is_up ≡ true
    → owned_by user (get machine m.db.machine_rows) ≡ true
    → let m' = (unregister_machine {S = S} {A = A} m machine conn.conn_id now).0 in
      (unregister_machine {S = S} {A = A} m machine old now ≡ (m, []))
      × (user_can_access_machine m' user machine ≡ false)
      × (user_can_access_terminal m' user machine id ≡ is_some (get id conn.terminals))
unregister_machine_exact S A m machine old user conn now id g o n f up own =
    let e : unregister_machine {S = S} {A = A} m machine conn.conn_id now
        ≡ drop_connection m machine conn now =
      present S A m machine conn now g in
    let u = unreached S A m machine user id conn now n f up own in
    (stale S A m machine old conn now g o, rw e u.0, rw e u.1)
