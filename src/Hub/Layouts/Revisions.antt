-- ===== src/Hub/Layouts/Revisions.antt =====
-- Browsers that save and drop one layout, each from the revision that it has seen.
use webmux.Base.{ℕ, ◌<◌, ◌≤◌, String, ◌≡◌, Option, none, some, List, [], ◌∷◌, arith}
use webmux.Base.Map.{get, get-insert}
use webmux.Hub.Layouts.{
  LayoutKey, layout_key, WorkspaceLayoutRow, Layouts, revision, workspace_layout_base_conflicts,
  next_revision, upsert_workspace_layout, upsert_workspace_layout_checked,
  delete_workspace_layout_checked,
}

-- What a browser asks for, at a time: that a layout be saved or dropped.
pub data Request : Type 0 where
  saves : LayoutKey → String → Option ℕ → ℕ → Request
  drops : LayoutKey → Option ℕ → ℕ → Request

abbrev pub kept : Layouts → Option (Layouts × WorkspaceLayoutRow) → Layouts
kept layouts none = layouts
kept layouts (some (layouts', row)) = layouts'

unfoldable pub answer : Layouts → Request → Layouts
answer layouts (saves key root_json base now) =
    kept layouts (upsert_workspace_layout_checked layouts key root_json base now)
answer layouts (drops key base now) =
    kept layouts (delete_workspace_layout_checked layouts key base now)

unfoldable pub answer_all : Layouts → List Request → Layouts
answer_all layouts [] = layouts
answer_all layouts (r ∷ rs) = answer_all (answer layouts r) rs

-- The layout has reached a revision.
abbrev pub Reached : ℕ → Option ℕ → Type 0
Reached u none = ⊥
Reached u (some v) = u ≤ v

save-Reached :
    (layouts : Layouts) (key other : LayoutKey) (root : String) (base : Option ℕ) (now u : ℕ)
    → Reached u (revision (get key layouts))
    → Reached u (
        revision
          (get key (kept layouts (upsert_workspace_layout_checked layouts other root base now))))
unfolding upsert_workspace_layout_checked upsert_workspace_layout next_revision
save-Reached layouts key other root base now u h = ground (
  arith,
  layout_key.eq_iff other key,
  get-insert other key
      (record { root_json = root; updated_at = next_revision (revision (get other layouts)) now })
      layouts,
)

answer-Reached :
    (layouts : Layouts) (key : LayoutKey) (r : Request) (u : ℕ)
    → Reached u (revision (get key layouts))
    → Reached u (revision (get key (answer layouts r)))
unfolding answer delete_workspace_layout_checked
answer-Reached layouts key (saves other root base now) u h =
    save-Reached layouts key other root base now u h
answer-Reached layouts key (drops other base now) u h =
    save-Reached layouts key other "null" base now u h

pub answer_all-Reached :
    (rs : List Request) (layouts : Layouts) (key : LayoutKey) (u : ℕ)
    → Reached u (revision (get key layouts))
    → Reached u (revision (get key (answer_all layouts rs)))
unfolding answer_all
answer_all-Reached [] layouts key u h = h
answer_all-Reached (r ∷ rs) layouts key u h =
    answer_all-Reached rs (answer layouts r) key u (answer-Reached layouts key r u h)

-- The browser's revision is older.
abbrev pub Older : Option ℕ → ℕ → Type 0
Older none u = Unit
Older (some base) u = base < u

stale :
    (layouts : Layouts) (key : LayoutKey) (root : String) (base : Option ℕ) (now u : ℕ)
    → Reached u (revision (get key layouts))
    → Older base u
    → upsert_workspace_layout_checked layouts key root base now ≡ none
unfolding upsert_workspace_layout_checked workspace_layout_base_conflicts
stale layouts key root base now u h o = ground arith

get-upsert :
    (layouts : Layouts) (key : LayoutKey) (root : String) (now : ℕ)
    → revision (get key (upsert_workspace_layout layouts key root now).0)
      ≡ some (upsert_workspace_layout layouts key root now).1.updated_at
unfolding upsert_workspace_layout
get-upsert layouts key root now = ground (
  arith,
  layout_key.eq_iff key key,
  get-insert key key
      (record { root_json = root; updated_at = next_revision (revision (get key layouts)) now })
      layouts,
)

unstale :
    (layouts : Layouts) (key : LayoutKey) (root : String) (base : Option ℕ) (now : ℕ)
    (saved : Layouts × WorkspaceLayoutRow)
    → upsert_workspace_layout_checked layouts key root base now ≡ some saved
    → Reached saved.1.updated_at (revision (get key saved.0))
unfolding upsert_workspace_layout_checked
unstale layouts key root base now saved e = ground (arith, get-upsert layouts key root now)

-- After a browser's save succeeds, and whatever is saved and dropped later, a save of the layout by a
-- browser that has seen no revision as new as that save's is a conflict, as is a drop.
pub answer_all_conflicts :
    (layouts : Layouts) (key : LayoutKey) (root root' : String) (base base' : Option ℕ)
    (now now' : ℕ) (saved : Layouts × WorkspaceLayoutRow) (rs : List Request)
    → upsert_workspace_layout_checked layouts key root base now ≡ some saved
    → Older base' saved.1.updated_at
    → (upsert_workspace_layout_checked (answer_all saved.0 rs) key root' base' now' ≡ none)
      × (delete_workspace_layout_checked (answer_all saved.0 rs) key base' now' ≡ none)
unfolding delete_workspace_layout_checked
answer_all_conflicts layouts key root root' base base' now now' saved rs e o =
    let r : Reached saved.1.updated_at (revision (get key (answer_all saved.0 rs))) =
      answer_all-Reached rs saved.0 key saved.1.updated_at
        (unstale layouts key root base now saved e) in
    (
      stale (answer_all saved.0 rs) key root' base' now' saved.1.updated_at r o,
      stale (answer_all saved.0 rs) key "null" base' now' saved.1.updated_at r o,
    )
