-- ===== src/Hub/Layouts/Nodes.antt =====
-- crates/hub/src/routes/terminals.rs, `validate_workspace_layout_node`: the check of the tree of panes
-- that a browser sends. The ratio of a split is a floating-point number, of a type `F` with the tests
-- of the code: whether it is finite, and whether one number is less than another.
pub mod Validity
use webmux.Base.{
  ℕ, suc, ◌+◌, String, Bool, true, false, not, ◌||◌, List, Result, ok, err, ltb, if◌then◌else◌,
  string_key,
}
use webmux.Base.Set.{contains, add}

pub data WorkspaceSplitDirection : Type 0 where
  horizontal vertical : WorkspaceSplitDirection

pub data WorkspaceLayoutNode (F : Type 0) : Type 0 where
  leaf : String → WorkspaceLayoutNode F
  split :
      WorkspaceSplitDirection
      → F
      → WorkspaceLayoutNode F
      → WorkspaceLayoutNode F
      → WorkspaceLayoutNode F

-- The tests on floating-point numbers, and the constants 0.05 and 0.95.
pub record Floats (F : Type 0) : Type 0 where
  pub is_finite : F → Bool
  pub less_than : F → F → Bool
  pub smallest : F
  pub largest : F

abbrev pub is_valid_ratio : {F : Type 0} → Floats F → F → Bool
is_valid_ratio floats ratio = not (
    not (floats.is_finite ratio)
    || floats.less_than ratio floats.smallest
    || floats.less_than floats.largest ratio)

abbrev pub max_depth : ℕ
max_depth = 64

-- The terminals seen, or the error.
unfoldable pub validate_workspace_layout_node :
    {F : Type 0}
    → Floats F
    → WorkspaceLayoutNode F
    → List String
    → List String
    → ℕ
    → Result (List String) String
validate_workspace_layout_node floats (leaf terminal_id) terminal_ids seen depth =
    if ltb max_depth depth
    then err "Workspace layout is too deep"
    else if not (contains terminal_id terminal_ids)
    then err "Workspace layout references a missing terminal"
    else if contains terminal_id seen
    then err "Workspace layout references a terminal more than once"
    else ok (add terminal_id seen)
validate_workspace_layout_node floats (split direction ratio first second) terminal_ids seen depth =
    if ltb max_depth depth
    then err "Workspace layout is too deep"
    else if not (is_valid_ratio floats ratio)
    then err "Workspace layout split ratio is invalid"
    else elim (validate_workspace_layout_node floats first terminal_ids seen (depth + 1)) [
      | ok seen' ↦ validate_workspace_layout_node floats second terminal_ids seen' (depth + 1)
      | err message ↦ err message
    ]
