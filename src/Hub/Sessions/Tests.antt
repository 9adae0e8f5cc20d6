-- ===== src/Hub/Sessions/Tests.antt =====
-- crates/hub/src/db/terminal_sessions.rs at concrete rows.
use webmux.Base.{string_key, ◌≡◌, refl, false, none, some, List, [], ◌∷◌}
use webmux.Base.Map.{get}
use webmux.Hub.Sessions.{
  osc, process, SessionRow, Table, rejected, apply_title_update, apply_cwd_update,
}
use webmux.Hub.Sessions.Titles.{Update}
use webmux.Hub.Sessions.Lifetime.{Statement, inserts, names, run_all, run_all-refused}

abbrev shell : SessionRow
shell = record {
  machine_id = "nas";
  title = "zsh";
  title_source = "process";
  cwd = "/home";
  workspace_group_id = none;
  cols = 80;
  rows = 24;
  created_at = 1;
  destroyed_at = none;
}

abbrev table : Table
table = ("t1", shell) ∷ []

abbrev later : List Update
later =
    record { terminal_id = "t1"; title = "cargo"; source = process }
    ∷ record { terminal_id = "t2"; title = "vim"; source = osc }
    ∷ []

abbrev ended : Table
ended = ("t1", record shell { destroyed_at = some 5 }) ∷ []

-- The terminal is reported again.
abbrev again : List Statement
again = inserts "t1" "nas" "zsh" "/home" 80 24 9 ∷ names "t1" "vim" osc ∷ []

run_all-refused_example :
    (apply_title_update (run_all ended again) "t1" "top" osc ≡ (run_all ended again, rejected))
    × (apply_cwd_update (run_all ended again) "t1" "/tmp" ≡ (run_all ended again, false))
unfolding get
run_all-refused_example = run_all-refused again ended "t1" "top" "/tmp" osc 5 refl
