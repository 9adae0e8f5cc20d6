-- ===== src/Hub/Routes/Tests.antt =====
-- The routes at a concrete machine, which is another user's.
use webmux.Base.{ℕ, String, ◌≡◌, refl, true, false, none, some, [], ◌∷◌, string_key}
use webmux.Base.Map.{get}
use webmux.Hub.Machines.{Db, MachineConnection, MachineManager}
use webmux.Hub.Machines.Access.{user_can_access_machine}
use webmux.Hub.Routes.{
  assign_terminal_workspace_group, reorder_workspace_groups, delete_tab, list_machine_terminals,
  list_workspace_groups,
}
use webmux.Hub.Routes.Strangers.{is_ok, IsRefused, strangers-IsRefused}

abbrev owned : MachineConnection ℕ
owned = record {
  conn_id = "c1";
  info = record { id = "nas"; name = "nas"; os = "linux"; home_dir = "/home"; production = false };
  user_id = some "u";
  terminals = [];
  latest_stats = none;
  capabilities = [];
}

abbrev tables : Db
tables = record {
  machine_rows =
      (
        "nas",
        record { user_id = "u"; name = "nas"; os = none; home_dir = none; production = false },
      )
      ∷ [];
  terminal_sessions = [];
  workspace_groups = [];
  workspace_layouts = [];
  agent_tables = record { agent_sessions = []; agent_session_events = []; agent_session_seen = [] };
}

abbrev hub : MachineManager ℕ
hub = record {
  machines = ("nas", owned) ∷ [];
  pending = [];
  mode = [];
  db = tables;
  db_is_up = true;
  persisted_terminals = [];
}

strangers-IsRefused_example :
    IsRefused {S = ℕ} {A = String} hub
      (assign_terminal_workspace_group hub "v" "nas" "t1" (some "g1") 9)
    × IsRefused {S = ℕ} {A = String} hub (reorder_workspace_groups hub "v" "nas" ("g1" ∷ []))
    × IsRefused {S = ℕ} {A = String} hub (delete_tab hub "v" "nas" "g1")
    × ((list_machine_terminals hub "v" "nas").0 ≡ hub)
    × (is_ok (list_machine_terminals hub "v" "nas").1 ≡ false)
    × ((list_workspace_groups hub "v" "nas").0 ≡ hub)
    × (is_ok (list_workspace_groups hub "v" "nas").1 ≡ false)
unfolding user_can_access_machine get
strangers-IsRefused_example =
    strangers-IsRefused ℕ String hub "v" "nas" "t1" "g1" (some "g1") ("g1" ∷ []) 9 refl refl
