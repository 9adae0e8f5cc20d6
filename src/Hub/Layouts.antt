-- ===== src/Hub/Layouts.antt =====
-- crates/hub/src/db/workspace_layouts.rs: the layouts of the tabs, each under its user, machine and
-- tab, with a revision (`updated_at`) by which a browser that saves shows what it has seen. Each
-- function runs in one transaction, where the database answers; `now` is the clock's time, and a
-- revision stays below the limit of an `i64`. A base revision below 0, of a browser that has seen no
-- layout, is `none`.
pub mod Revisions
pub mod Nodes
mod Tests
use webmux.Base.{
  ℕ, ◌+◌, max, String, Bool, true, false, Option, none, some, List, [], ◌∷◌, is_some, ltb,
  if◌then◌else◌, Key, string_key, pair_key,
}
use webmux.Base.Map.{get, insert, remove}

abbrev pub LayoutKey : Type 0
LayoutKey = String × (String × String)

instance abbrev pub layout_key : Key LayoutKey
layout_key = pair_key ⦃a = string_key⦄ ⦃b = pair_key ⦃a = string_key⦄ ⦃b = string_key⦄⦄

pub record WorkspaceLayoutRow : Type 0 where
  pub root_json : String
  pub updated_at : ℕ

abbrev pub Layouts : Type 0
Layouts = List (LayoutKey × WorkspaceLayoutRow)

abbrev pub revision : Option WorkspaceLayoutRow → Option ℕ
revision none = none
revision (some row) = some row.updated_at

pub workspace_layout_base_conflicts : Option ℕ → Option ℕ → Bool
workspace_layout_base_conflicts existing none = is_some existing
workspace_layout_base_conflicts none (some base) = true
workspace_layout_base_conflicts (some updated_at) (some base) = ltb base updated_at

-- `(row.updated_at + 1).max(now)`, and `now` for the first.
pub next_revision : Option ℕ → ℕ → ℕ
next_revision none now = now
next_revision (some updated_at) now = max (updated_at + 1) now

unfoldable pub upsert_workspace_layout :
    Layouts → LayoutKey → String → ℕ → Layouts × WorkspaceLayoutRow
unfolding next_revision
upsert_workspace_layout layouts key root_json now =
    let row : WorkspaceLayoutRow = record {
      root_json = root_json;
      updated_at = next_revision (revision (get key layouts)) now;
    } in
    (insert key row layouts, row)

-- A conflict is `none`.
unfoldable pub upsert_workspace_layout_checked :
    Layouts → LayoutKey → String → Option ℕ → ℕ → Option (Layouts × WorkspaceLayoutRow)
unfolding workspace_layout_base_conflicts upsert_workspace_layout
upsert_workspace_layout_checked layouts key root_json base now =
    if workspace_layout_base_conflicts (revision (get key layouts)) base
    then none
    else some (upsert_workspace_layout layouts key root_json now)

unfoldable pub delete_workspace_layout : Layouts → LayoutKey → Layouts
delete_workspace_layout layouts key = remove key layouts

-- A layout that a browser drops leaves an empty one, which keeps the revision.
unfoldable pub delete_workspace_layout_checked :
    Layouts → LayoutKey → Option ℕ → ℕ → Option (Layouts × WorkspaceLayoutRow)
unfolding upsert_workspace_layout_checked
delete_workspace_layout_checked layouts key base now =
    upsert_workspace_layout_checked layouts key "null" base now
