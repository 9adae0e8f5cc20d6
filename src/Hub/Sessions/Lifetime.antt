-- ===== src/Hub/Sessions/Lifetime.antt =====
-- How long a terminal is active: the statements on the table of terminals, in any order.
use webmux.Base.{
  ℕ, String, ◌≡◌, refl, ◌∙◌, false, Option, none, some, List, [], ◌∷◌, if◌then◌else◌, arith,
  string_key,
}
use webmux.Base.Map.{get, get-insert, get-modify}
use webmux.Hub.Sessions.{
  TerminalTitleSource, SessionRow, Table, rejected, is_active, upserted, insert_session,
  mark_destroyed, update_size, update_metadata, assign_workspace_group, clear_workspace_group,
  apply_cwd_update, apply_title_update, judged, retitled,
}
use webmux.Hub.Sessions.Titles.{get-apply_title_update}

-- A statement that changes the table.
pub data Statement : Type 0 where
  inserts : String → String → String → String → ℕ → ℕ → ℕ → Statement
  destroys : String → ℕ → Statement
  resizes : String → ℕ → ℕ → Statement
  describes : String → String → String → ℕ → ℕ → Statement
  assigns : String → Option String → Statement
  clears : String → Statement
  moves : String → String → Statement
  names : String → String → TerminalTitleSource → Statement

unfoldable pub run : Table → Statement → Table
run table (inserts id machine_id title cwd cols rows now) =
    insert_session table id machine_id title cwd cols rows now
run table (destroys id now) = mark_destroyed table id now
run table (resizes id cols rows) = update_size table id cols rows
run table (describes id title cwd cols rows) = update_metadata table id title cwd cols rows
run table (assigns id group) = assign_workspace_group table id group
run table (clears group) = clear_workspace_group table group
run table (moves id cwd) = (apply_cwd_update table id cwd).0
run table (names id title source) = (apply_title_update table id title source).0

unfoldable pub run_all : Table → List Statement → Table
run_all table [] = table
run_all table (s ∷ ss) = run_all (run table s) ss

-- When the terminal was destroyed, if it was.
abbrev pub destroyed : Option SessionRow → Option ℕ
destroyed none = none
destroyed (some row) = row.destroyed_at

abbrev pub destroyed_time : Table → String → Option ℕ
destroyed_time table id = destroyed (get id table)

get-clear_workspace_group :
    (table : Table) (id group : String)
    → destroyed_time (clear_workspace_group table group) id ≡ destroyed_time table id
unfolding clear_workspace_group get
get-clear_workspace_group [] id group = refl
get-clear_workspace_group ((j, row) ∷ rows) id group =
    ground (arith, get-clear_workspace_group rows id group)

moved :
    (table : Table) (id other cwd : String)
    → destroyed_time (apply_cwd_update table id cwd).0 other ≡ destroyed_time table other
unfolding apply_cwd_update
moved table id other cwd =
    ground (arith, get-modify id other (λ row. record row { cwd = cwd }) table)

run-destroyed :
    (table : Table) (id : String) (t : ℕ) (s : Statement)
    → destroyed_time table id ≡ some t
    → destroyed_time (run table s) id ≡ some t
unfolding run insert_session upserted mark_destroyed update_size update_metadata
    assign_workspace_group
run-destroyed table id t (inserts j m ti cwd cols rows now) d = ground (
  arith,
  get-insert j id (upserted m ti cwd cols rows now (get j table)) table,
  string_key.eq_iff j id,
)
run-destroyed table id t (destroys j now) d = ground (
  arith,
  get-modify j id (λ row. if is_active row then record row { destroyed_at = some now } else row)
      table,
  string_key.eq_iff j id,
)
run-destroyed table id t (resizes j cols rows) d =
    ground (arith, get-modify j id (λ row. record row { cols = cols; rows = rows }) table)
run-destroyed table id t (describes j ti cwd cols rows) d = ground (
  arith,
  get-modify j id (λ row. record row { title = ti; cwd = cwd; cols = cols; rows = rows }) table,
)
run-destroyed table id t (assigns j g) d =
    ground (arith, get-modify j id (λ row. record row { workspace_group_id = g }) table)
run-destroyed table id t (clears g) d = get-clear_workspace_group table id g ∙ d
run-destroyed table id t (moves j cwd) d = moved table j id cwd ∙ d
run-destroyed table id t (names j ti source) d =
    ground (arith, get-apply_title_update table j id ti source)

-- A terminal that is marked destroyed stays so under every sequence of statements, a new report of it
-- included, and with the time of the first mark.
pub run_all-destroyed :
    (ss : List Statement) (table : Table) (id : String) (t : ℕ)
    → destroyed_time table id ≡ some t
    → destroyed_time (run_all table ss) id ≡ some t
unfolding run_all
run_all-destroyed [] table id t d = d
run_all-destroyed (s ∷ ss) table id t d =
    run_all-destroyed ss (run table s) id t (run-destroyed table id t s d)

refused :
    (table : Table) (id title cwd : String) (source : TerminalTitleSource) (t : ℕ)
    → destroyed_time table id ≡ some t
    → (apply_title_update table id title source ≡ (table, rejected))
      × (apply_cwd_update table id cwd ≡ (table, false))
unfolding apply_title_update apply_cwd_update judged retitled
refused table id title cwd source t d = ground arith

-- When a terminal was marked destroyed once, then whatever is said of it afterwards, its reports
-- included, its titles and directories are refused.
pub run_all-refused :
    (ss : List Statement) (table : Table) (id title cwd : String) (source : TerminalTitleSource)
    (t : ℕ)
    → destroyed_time table id ≡ some t
    → let table' = run_all table ss in
      (apply_title_update table' id title source ≡ (table', rejected))
      × (apply_cwd_update table' id cwd ≡ (table', false))
run_all-refused ss table id title cwd source t d =
    refused (run_all table ss) id title cwd source t (run_all-destroyed ss table id t d)
