-- ===== src/Hub/Sessions.antt =====
-- crates/hub/src/db/terminal_sessions.rs: the table of terminals in the database. A row stands under
-- its id; each function is the SQL statement that it runs, where the database answers. `now` is the
-- clock's time.
pub mod Titles
pub mod Lifetime
mod Tests
use webmux.Base.{
  ℕ, zero, suc, ◌+◌, String, Bool, true, false, not, ◌&&◌, ◌||◌, Option, none, some, List, [], ◌∷◌,
  if◌then◌else◌, string_key, is_some, is_text,
}
use webmux.Base.Map.{get, insert, modify}

pub data TerminalTitleSource : Type 0 where
  osc process none_source : TerminalTitleSource

unfoldable pub title_source_name : TerminalTitleSource → String
title_source_name osc = "osc"
title_source_name process = "process"
title_source_name none_source = "none"

unfoldable pub title_source_from_name : String → TerminalTitleSource
title_source_from_name name =
    if string_key.eq name "osc"
    then osc
    else if string_key.eq name "process"
    then process
    else none_source

pub record SessionRow : Type 0 where
  pub machine_id : String
  pub title : String
  pub title_source : String
  pub cwd : String
  pub workspace_group_id : Option String
  pub cols : ℕ
  pub rows : ℕ
  pub created_at : ℕ
  pub destroyed_at : Option ℕ

abbrev pub Table : Type 0
Table = List (String × SessionRow)

pub data TitleUpdateOutcome : Type 0 where
  updated unchanged rejected : TitleUpdateOutcome

-- `INSERT … ON CONFLICT(id) DO UPDATE`: the row that is there keeps what the statement does not name.
pub upserted : String → String → String → ℕ → ℕ → ℕ → Option SessionRow → SessionRow
upserted machine_id title cwd cols rows now none = record {
  machine_id = machine_id;
  title = title;
  title_source = "none";
  cwd = cwd;
  workspace_group_id = none;
  cols = cols;
  rows = rows;
  created_at = now;
  destroyed_at = none;
}
upserted machine_id title cwd cols rows now (some row) = record row {
  machine_id = machine_id;
  title = title;
  cwd = cwd;
  cols = cols;
  rows = rows;
}

unfoldable pub insert_session : Table → String → String → String → String → ℕ → ℕ → ℕ → Table
unfolding upserted
insert_session table id machine_id title cwd cols rows now =
    insert id (upserted machine_id title cwd cols rows now (get id table)) table

-- `destroyed_at IS NULL`.
abbrev pub is_active : SessionRow → Bool
is_active row = not (is_some row.destroyed_at)

unfoldable pub mark_destroyed : Table → String → ℕ → Table
mark_destroyed table id now =
    modify id (λ row. if is_active row then record row { destroyed_at = some now } else row) table

unfoldable pub update_size : Table → String → ℕ → ℕ → Table
update_size table id cols rows = modify id (λ row. record row { cols = cols; rows = rows }) table

unfoldable pub update_metadata : Table → String → String → String → ℕ → ℕ → Table
update_metadata table id title cwd cols rows =
    modify id (λ row. record row { title = title; cwd = cwd; cols = cols; rows = rows }) table

unfoldable pub assign_workspace_group : Table → String → Option String → Table
assign_workspace_group table id group =
    modify id (λ row. record row { workspace_group_id = group }) table

-- Whether a row is of a group.
abbrev pub is_in : String → SessionRow → Bool
is_in group row = elim row.workspace_group_id [ none ↦ false | some g ↦ string_key.eq g group ]

unfoldable pub clear_workspace_group : Table → String → Table
clear_workspace_group [] group = []
clear_workspace_group ((id, row) ∷ rows) group =
    (id, if is_in group row then record row { workspace_group_id = none } else row)
    ∷ clear_workspace_group rows group

unfoldable pub count_active_in_workspace_group : Table → String → ℕ
count_active_in_workspace_group [] group = 0
count_active_in_workspace_group ((id, row) ∷ rows) group =
    (if is_in group row && is_active row then 1 else 0) + count_active_in_workspace_group rows group

-- The live directory of a terminal, and whether a row changed.
unfoldable pub apply_cwd_update : Table → String → String → Table × Bool
apply_cwd_update table id cwd = elim (get id table) [
  | none ↦ (table, false)
  | some row ↦
      if is_active row && not (string_key.eq row.cwd cwd)
      then (modify id (λ row. record row { cwd = cwd }) table, true)
      else (table, false)
]

-- The tests of `apply_title_update` on the row that it finds.
pub judged : String → TerminalTitleSource → Option SessionRow → TitleUpdateOutcome
unfolding title_source_name
judged title source none = rejected
judged title source (some row) =
    if not (is_active row)
    then rejected
    else if is_text title "" && is_text row.title ""
    then unchanged
    else if is_text row.title_source "osc" && is_text (title_source_name source) "process"
    then rejected
    else if is_text row.title title && is_text row.title_source (title_source_name source)
    then unchanged
    else updated

abbrev pub retitled : Table → String → String → TerminalTitleSource → TitleUpdateOutcome → Table
unfolding title_source_name
retitled table id title source updated =
    modify id (λ row. record row { title = title; title_source = title_source_name source }) table
retitled table id title source unchanged = table
retitled table id title source rejected = table

unfoldable pub apply_title_update :
    Table → String → String → TerminalTitleSource → Table × TitleUpdateOutcome
unfolding judged
apply_title_update table id title source =
    let outcome = judged title source (get id table) in
    (retitled table id title source outcome, outcome)
