-- ===== src/Hub/Groups/Tests.antt =====
-- crates/hub/src/db/workspace_groups.rs at a concrete table.
use webmux.Base.{ℕ, String, false, [], ◌∷◌}
use webmux.Hub.Groups.{WorkspaceGroupRow, Groups}

abbrev tab : ℕ → String → WorkspaceGroupRow
tab order name = record {
  user_id = "u";
  machine_id = "nas";
  name = name;
  sort_order = order;
  created_at = 1;
  auto_created = false;
}

abbrev strip : Groups
strip = ("g1", tab 4 "logs") ∷ ("g2", tab 0 "main") ∷ []

abbrev longer : Groups
longer = ("g1", tab 4 "logs") ∷ ("g2", tab 0 "main") ∷ ("g3", tab 5 "new") ∷ []
