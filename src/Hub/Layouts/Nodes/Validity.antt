-- ===== src/Hub/Layouts/Nodes/Validity.antt =====
-- Which trees of panes are accepted.
use webmux.Base.{
  ℕ, suc, ◌+◌, max, String, ◌≡◌, refl, Bool, true, false, not, ◌&&◌, ◌||◌, List, [], ◌∷◌, ◌++◌,
  Result, ok, err, ltb, leb, if◌then◌else◌, arith, string_key,
}
use webmux.Base.Set.{contains, contains-append, contains-add}
use webmux.Hub.Layouts.Nodes.{
  WorkspaceLayoutNode, leaf, split, Floats, is_valid_ratio, max_depth,
  validate_workspace_layout_node,
}

-- The panes of a tree from left to right, its depth, and whether its ratios are valid.
abbrev pub panes : {F : Type 0} → WorkspaceLayoutNode F → List String
panes (leaf id) = id ∷ []
panes (split d r a b) = panes a ++ panes b

abbrev pub depth_of : {F : Type 0} → WorkspaceLayoutNode F → ℕ
depth_of (leaf id) = 0
depth_of (split d r a b) = suc (max (depth_of a) (depth_of b))

abbrev pub ratios_valid : {F : Type 0} → Floats F → WorkspaceLayoutNode F → Bool
ratios_valid floats (leaf id) = true
ratios_valid floats (split d r a b) =
    is_valid_ratio floats r && (ratios_valid floats a && ratios_valid floats b)

abbrev pub all_in : List String → List String → Bool
all_in ids [] = true
all_in ids (x ∷ xs) = contains x ids && all_in ids xs

abbrev pub none_in : List String → List String → Bool
none_in ids [] = true
none_in ids (x ∷ xs) = not (contains x ids) && none_in ids xs

abbrev pub is_distinct : List String → Bool
is_distinct [] = true
is_distinct (x ∷ xs) = not (contains x xs) && is_distinct xs

all_in-append : (ids xs ys : List String) → all_in ids (xs ++ ys) ≡ (all_in ids xs && all_in ids ys)
all_in-append ids [] ys = refl
all_in-append ids (x ∷ xs) ys = ground (arith, all_in-append ids xs ys)

none_in-append :
    (ids xs ys : List String) → none_in ids (xs ++ ys) ≡ (none_in ids xs && none_in ids ys)
none_in-append ids [] ys = refl
none_in-append ids (x ∷ xs) ys = ground (arith, none_in-append ids xs ys)

none_in-cons :
    (x : String) (ids ys : List String)
    → none_in (x ∷ ids) ys ≡ (not (contains x ys) && none_in ids ys)
unfolding contains
none_in-cons x ids [] = refl
none_in-cons x ids (y ∷ ys) =
    ground (arith, none_in-cons x ids ys, string_key.eq_iff x y, string_key.eq_iff y x)

none_in-nil : (ys : List String) → none_in [] ys ≡ true
unfolding contains
none_in-nil [] = refl
none_in-nil (y ∷ ys) = none_in-nil ys

is_distinct-append :
    (xs ys : List String)
    → is_distinct (xs ++ ys) ≡ (is_distinct xs && (is_distinct ys && none_in xs ys))
is_distinct-append [] ys = ground (arith, none_in-nil ys)
is_distinct-append (x ∷ xs) ys =
    ground (arith, contains-append x xs ys, is_distinct-append xs ys, none_in-cons x xs ys)

-- A set that holds what two lists hold.
abbrev Joins : List String → List String → List String → Type 0
Joins s xs ys = (x : String) → contains x s ≡ (contains x xs || contains x ys)

none_in-Joins :
    (s xs ys zs : List String) → Joins s xs ys → none_in s zs ≡ (none_in xs zs && none_in ys zs)
none_in-Joins s xs ys [] j = refl
none_in-Joins s xs ys (z ∷ zs) j = ground (arith, j z, none_in-Joins s xs ys zs j)

abbrev is_fitting :
    {F : Type 0} → Floats F → WorkspaceLayoutNode F → List String → List String → ℕ → Bool
is_fitting floats node ids seen depth =
    leb (depth + depth_of node) max_depth
    && (ratios_valid floats node
        && (all_in ids (panes node) && (none_in seen (panes node) && is_distinct (panes node))))

abbrev Accords : String → Result (List String) String → Bool → List String → List String → Type 0
Accords x (ok s) b xs seen = (b ≡ true) × (contains x s ≡ (contains x xs || contains x seen))
Accords x (err e) b xs seen = b ≡ false

-- The two tests before the parts of a split are read.
judged_tests :
    (p q : Bool) (m n x : String) (r : Result (List String) String) (d : Bool)
    (xs seen : List String)
    → (p ≡ true → d ≡ false)
    → (q ≡ false → d ≡ false)
    → (q ≡ true → Accords x r d xs seen)
    → Accords x (if p then err m else if not q then err n else r) d xs seen
judged_tests true q m n x r d xs seen f g h = f refl
judged_tests false true m n x r d xs seen f g h = h refl
judged_tests false false m n x r d xs seen f g h = g refl

-- The two parts of a split, after the first is read.
judged_split :
    (r : Result (List String) String) (next : List String → Result (List String) String)
    (c : List String → Bool) (xs ys seen : List String) (b d : Bool)
    → ((x : String) → Accords x r b xs seen)
    → ((s : List String) (x : String) → Accords x (next s) (c s) ys s)
    → ((s : List String) → Joins s xs seen → (b && c s) ≡ d)
    → (b ≡ false → d ≡ false)
    → (x : String) → Accords x (elim r [ ok s ↦ next s | err e ↦ err e ]) d (xs ++ ys) seen
judged_split (ok s) next c xs ys seen b d f g e n x = after (next s) (g s x)
  where
    after :
        (r : Result (List String) String) → Accords x r (c s) ys s → Accords x r d (xs ++ ys) seen
    after (ok t) j = ground (arith, e s (λ y. (f y).1), f x, j, contains-append x xs ys)
    after (err m) j = ground (arith, e s (λ y. (f y).1), f x, j)
judged_split (err m) next c xs ys seen b d f g e n x = n (f x)

node_judged :
    {F : Type 0} (floats : Floats F) (node : WorkspaceLayoutNode F) (ids seen : List String)
    (depth : ℕ) (x : String)
    → Accords x
        (validate_workspace_layout_node floats node ids seen depth)
        (is_fitting floats node ids seen depth)
        (panes node)
        seen
unfolding validate_workspace_layout_node contains
node_judged floats (leaf id) ids seen depth x =
    ground (arith, contains-add id x seen, string_key.eq_iff id x)
node_judged floats (split d r a b) ids seen depth x =
    let total : Bool = is_fitting floats (split d r a b) ids seen depth in
    judged_tests (ltb max_depth depth) (is_valid_ratio floats r) "Workspace layout is too deep"
      "Workspace layout split ratio is invalid" x
      (elim (validate_workspace_layout_node floats a ids seen (depth + 1)) [
        | ok seen' ↦ validate_workspace_layout_node floats b ids seen' (depth + 1)
        | err message ↦ err message
      ])
      total (panes a ++ panes b) seen (λ e. ground (arith, e)) (λ e. ground (arith, e))
      (λ e.
        judged_split (validate_workspace_layout_node floats a ids seen (depth + 1))
          (λ s. validate_workspace_layout_node floats b ids s (depth + 1))
          (λ s. is_fitting floats b ids s (depth + 1)) (panes a) (panes b) seen
          (is_fitting floats a ids seen (depth + 1)) total
          (λ y. node_judged floats a ids seen (depth + 1) y)
          (λ s y. node_judged floats b ids s (depth + 1) y)
          (λ s j. ground (
            arith,
            e,
            none_in-Joins s (panes a) seen (panes b) j,
            all_in-append ids (panes a) (panes b),
            none_in-append seen (panes a) (panes b),
            is_distinct-append (panes a) (panes b),
          ))
          (λ n. ground (
            arith,
            e,
            n,
            all_in-append ids (panes a) (panes b),
            none_in-append seen (panes a) (panes b),
            is_distinct-append (panes a) (panes b),
          ))
          x)

abbrev pub is_accepted : Result (List String) String → Bool
is_accepted (ok s) = true
is_accepted (err e) = false

accepted :
    (x : String) (r : Result (List String) String) (b : Bool) (xs : List String)
    → Accords x r b xs []
    → is_accepted r ≡ b
accepted x (ok s) b xs j = ground (arith, j)
accepted x (err e) b xs j = ground (arith, j)

-- A tree of panes is accepted exactly where it is at most 64 splits deep, the ratio of each split is
-- valid, each pane is one of the terminals allowed, and no terminal stands in it twice.
pub validate_workspace_layout_node_exact :
    {F : Type 0} (floats : Floats F) (node : WorkspaceLayoutNode F) (ids : List String)
    → is_accepted (validate_workspace_layout_node floats node ids [] 0) ≡ (
        leb (depth_of node) max_depth
        && (ratios_valid floats node && (all_in ids (panes node) && is_distinct (panes node))))
validate_workspace_layout_node_exact floats node ids = ground (
  arith,
  accepted "" (validate_workspace_layout_node floats node ids [] 0)
      (is_fitting floats node ids [] 0) (panes node) (node_judged floats node ids [] 0 ""),
  none_in-nil (panes node),
)
