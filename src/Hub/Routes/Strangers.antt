-- ===== src/Hub/Routes/Strangers.antt =====
-- What a user gets who neither sees a machine connected nor owns its row.
use webmux.Base.{
  ℕ, String, ◌≡◌, Bool, true, false, Option, none, List, [], Result, ok, err, arith, string_key,
}
use webmux.Base.Map.{get}
use webmux.Hub.Machines.{MachineManager, owned_by}
use webmux.Hub.Machines.Access.{
  machine_info_for_user, user_can_access_machine, user_can_access_terminal,
  db_machine_belongs_to_user,
}
use webmux.Hub.Routes.{
  Handled, ensure_machine_row, list_machine_terminals, list_workspace_groups,
  assign_terminal_workspace_group, reorder_workspace_groups, delete_tab,
}

abbrev pub is_ok {ℓ κ} : {A : Type ℓ} {E : Type κ} → Result A E → Bool
is_ok (ok a) = true
is_ok (err e) = false

-- A request is refused, and neither the manager changes nor is anyone told.
abbrev pub IsRefused : {S A B : Type 0} → MachineManager S → Handled S A B → Type 0
IsRefused m r = (r.0 ≡ m) × (is_ok r.1 ≡ false) × (r.2 ≡ [])

module _ {S : Type 0} where
  hidden :
      (m : MachineManager S) (user machine : String)
      → user_can_access_machine m user machine ≡ false
      → machine_info_for_user m user machine ≡ none
  unfolding user_can_access_machine machine_info_for_user
  hidden m user machine h = ground (arith, h)

  no_row :
      (m : MachineManager S) (user machine : String)
      → user_can_access_machine m user machine ≡ false
      → owned_by user (get machine m.db.machine_rows) ≡ false
      → ((ensure_machine_row m user machine).0 ≡ m)
        × (is_ok (ensure_machine_row m user machine).1 ≡ false)
  unfolding ensure_machine_row
  no_row m user machine h o = ground (arith, hidden m user machine h, o)

  no_terminal :
      (m : MachineManager S) (user machine id : String)
      → user_can_access_machine m user machine ≡ false
      → owned_by user (get machine m.db.machine_rows) ≡ false
      → user_can_access_terminal m user machine id ≡ false
  unfolding user_can_access_machine user_can_access_terminal db_machine_belongs_to_user
  no_terminal m user machine id h o = ground (arith, h, o)

-- A user who neither sees a machine connected nor owns its row is refused the lists of its terminals and
-- of its tabs, and may not put a terminal into a tab, reorder the tabs or delete one: for each of these
-- five requests the answer is an error, the manager stays as it was, and no event is sent.
pub strangers-IsRefused :
    (S A : Type 0) (m : MachineManager S) (user machine id group : String) (to : Option String)
    (ids : List String) (now : ℕ)
    → user_can_access_machine m user machine ≡ false
    → owned_by user (get machine m.db.machine_rows) ≡ false
    → IsRefused {S = S} {A = A} m (assign_terminal_workspace_group m user machine id to now)
      × IsRefused {S = S} {A = A} m (reorder_workspace_groups m user machine ids)
      × IsRefused {S = S} {A = A} m (delete_tab m user machine group)
      × ((list_machine_terminals m user machine).0 ≡ m)
      × (is_ok (list_machine_terminals m user machine).1 ≡ false)
      × ((list_workspace_groups m user machine).0 ≡ m)
      × (is_ok (list_workspace_groups m user machine).1 ≡ false)
unfolding assign_terminal_workspace_group reorder_workspace_groups delete_tab list_machine_terminals
    list_workspace_groups
strangers-IsRefused S A m user machine id group to ids now h o =
    ground (arith, no_row m user machine h o, no_terminal m user machine id h o)
