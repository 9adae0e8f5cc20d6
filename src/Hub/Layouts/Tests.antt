-- ===== src/Hub/Layouts/Tests.antt =====
-- Layouts at concrete inputs.
use webmux.Base.{ℕ, ◌≡◌, refl, true, ◌&&◌, none, some, List, [], ◌∷◌, arith, leb, ltb}
use webmux.Base.Map.{get, insert}
use webmux.Base.Set.{contains, add}
use webmux.Hub.Layouts.{
  LayoutKey, Layouts, WorkspaceLayoutRow, upsert_workspace_layout, upsert_workspace_layout_checked,
  delete_workspace_layout_checked,
}
use webmux.Hub.Layouts.Revisions.{Request, saves, drops, answer_all, answer_all_conflicts}
use webmux.Hub.Layouts.Nodes.{
  WorkspaceLayoutNode, leaf, split, horizontal, vertical, Floats, validate_workspace_layout_node,
  max_depth,
}
use webmux.Hub.Layouts.Nodes.Validity.{
  is_accepted, depth_of, ratios_valid, all_in, panes, is_distinct,
  validate_workspace_layout_node_exact,
}

abbrev key : LayoutKey
key = ("u", ("nas", "g1"))

abbrev layouts : Layouts
layouts = (key, record { root_json = "null"; updated_at = 10 }) ∷ []

abbrev saved : Layouts × WorkspaceLayoutRow
saved = (
  (key, record { root_json = "a"; updated_at = 12 }) ∷ [],
  record { root_json = "a"; updated_at = 12 },
)

abbrev later : List Request
later = saves key "b" (some 12) 11 ∷ drops key (some 13) 20 ∷ []

answer_all_conflicts_example :
    (upsert_workspace_layout_checked (answer_all saved.0 later) key "c" (some 10) 99 ≡ none)
    × (delete_workspace_layout_checked (answer_all saved.0 later) key (some 10) 99 ≡ none)
unfolding upsert_workspace_layout_checked upsert_workspace_layout get insert
answer_all_conflicts_example =
    answer_all_conflicts layouts key "a" "c" (some 10) (some 10) 12 99 saved later refl
      (omega arith)

-- Ratios in hundredths.
abbrev hundredths : Floats ℕ
hundredths = record { is_finite = λ n. true; less_than = ltb; smallest = 5; largest = 95 }

abbrev tree : WorkspaceLayoutNode ℕ
tree = split horizontal 50 (leaf "t1") (split vertical 30 (leaf "t2") (leaf "t3"))

validate_workspace_layout_node_exact_example :
    is_accepted (validate_workspace_layout_node hundredths tree ("t3" ∷ "t2" ∷ "t1" ∷ []) [] 0) ≡ (
      leb (depth_of tree) max_depth
      && (ratios_valid hundredths tree
          && (all_in ("t3" ∷ "t2" ∷ "t1" ∷ []) (panes tree) && is_distinct (panes tree))))
validate_workspace_layout_node_exact_example =
    validate_workspace_layout_node_exact hundredths tree ("t3" ∷ "t2" ∷ "t1" ∷ [])

tree_accepted :
    is_accepted (validate_workspace_layout_node hundredths tree ("t3" ∷ "t2" ∷ "t1" ∷ []) [] 0)
    ≡ true
unfolding validate_workspace_layout_node contains add
tree_accepted = refl
