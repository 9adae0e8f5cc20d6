-- ===== src/Machine/Codex.antt =====
-- crates/machine/src/codex_title.rs: which process of a terminal is its one Codex, and the title of the
-- session that it has open. The processes, what a process has open, and what a rollout file and the
-- database of its home say are arguments. The loop over the processes to visit runs on fuel.
pub mod Search
pub mod Rollouts
mod Tests
use webmux.Base.{
  Key, ℕ, zero, suc, ◌==◌, ◌&&◌, ◌||◌, String, Bool, true, false, Option, none, some, List, [], ◌∷◌,
  ◌++◌, any, map, length, is_text, if◌then◌else◌, is_some, nat_key, string_key,
}
use webmux.Base.Set.{contains}
use webmux.Base.Map.{get, insert}

pub record Process : Type 0 where
  pub pid : ℕ
  pub parent : Option ℕ
  pub name : String

-- crates/machine/src/pty.rs.
pub record PaneInfo : Type 0 where
  pub pid : Option ℕ
  pub title : Option String
  pub cwd : Option String
  pub current_command : Option String

unfoldable pub is_codex : List Process → ℕ → Bool
is_codex processes pid = any (λ p. p.pid == pid && is_text p.name "codex") processes

abbrev pub is_child : ℕ → Process → Bool
is_child pid p = elim p.parent [ none ↦ false | some q ↦ q == pid ]

unfoldable pub children : List Process → ℕ → List ℕ
children [] pid = []
children (p ∷ ps) pid = if is_child pid p then p.pid ∷ children ps pid else children ps pid

-- `Vec::extend`, on a stack whose top is the head of the list.
unfoldable pub extend : List ℕ → List ℕ → List ℕ
extend [] pending = pending
extend (x ∷ xs) pending = extend xs (x ∷ pending)

-- One round: the process that was taken off the stack, and then the stack, the visited, the candidates.
unfoldable pub visit : List Process → ℕ → List ℕ → List ℕ → List ℕ → List ℕ × List ℕ × List ℕ
unfolding is_codex children extend contains
visit ps pid pending visited candidates =
    if contains pid visited
    then (pending, visited, candidates)
    else if is_codex ps pid
    then (pending, pid ∷ visited, candidates ++ (pid ∷ []))
    else (extend (children ps pid) pending, pid ∷ visited, candidates)

-- `none` where the fuel is spent.
unfoldable pub search : List Process → List ℕ → ℕ → List ℕ → List ℕ → Option (List ℕ)
unfolding visit
search ps [] fuel visited candidates = some candidates
search ps (pid ∷ pending) zero visited candidates = none
search ps (pid ∷ pending) (suc fuel) visited candidates =
    let (pending', visited', candidates') = visit ps pid pending visited candidates in
    search ps pending' fuel visited' candidates'

-- The codex processes of a pane.
unfoldable pub candidates_of : List Process → ℕ → Option (List ℕ)
unfolding search
candidates_of ps root = search ps (root ∷ []) (suc (length ps)) [] []

unfoldable pub is_codex_pane : PaneInfo → Bool
is_codex_pane pane =
    is_some pane.pid
    && elim pane.current_command [ none ↦ false | some c ↦ is_text c "codex" || is_text c "node" ]

-- `SessionTitles`: the last snapshot of the titles.
abbrev pub SessionTitles : Type 0
SessionTitles = List (String × String)

unfoldable pub replace : SessionTitles → SessionTitles → SessionTitles
replace titles old = titles

unfoldable pub for_osc : SessionTitles → String → String → String
unfolding get
for_osc titles terminal_id osc = elim (get terminal_id titles) [ none ↦ osc | some title ↦ title ]

-- What the program asks of the file system and of the databases of Codex: the files that a process has
-- open, the home and the thread that a rollout file tells by its name, and the title of a thread. `le`
-- is the order of the standard library on paths and texts.
pub record CodexFiles : Type 1 where
  pub PathBuf : Type 0
  pub path_key : Key (PathBuf × (PathBuf × String))
  pub le : PathBuf × (PathBuf × String) → PathBuf × (PathBuf × String) → Bool
  pub open_files : ℕ → List PathBuf
  pub rollout_identity : PathBuf → Option (PathBuf × String)
  pub read_title : PathBuf → String → PathBuf → Option String

module _ (files : CodexFiles) where
  abbrev pub Rollout : Type 0
  Rollout = files.PathBuf × (files.PathBuf × String)

  unfoldable pub identified : List files.PathBuf → List Rollout
  identified [] = []
  identified (path ∷ paths) = elim (files.rollout_identity path) [
    | none ↦ identified paths
    | some identity ↦ (path, identity) ∷ identified paths
  ]

  -- `Vec::sort` and `Vec::dedup`.
  unfoldable pub insert_sorted : Rollout → List Rollout → List Rollout
  insert_sorted r [] = r ∷ []
  insert_sorted r (s ∷ rs) =
      let rest = insert_sorted r rs in if files.le r s then r ∷ s ∷ rs else s ∷ rest

  unfoldable pub sort : List Rollout → List Rollout
  unfolding insert_sorted
  sort [] = []
  sort (r ∷ rs) = insert_sorted r (sort rs)

  unfoldable pub dedup_from : Rollout → List Rollout → List Rollout
  dedup_from r [] = r ∷ []
  dedup_from r (s ∷ rs) =
      let same = files.path_key.eq r s in
      let rest = dedup_from (if same then r else s) rs in if same then rest else r ∷ rest

  unfoldable pub dedup : List Rollout → List Rollout
  unfolding dedup_from
  dedup [] = []
  dedup (r ∷ rs) = dedup_from r rs

  -- A slice with one element.
  abbrev pub single {ℓ} : {A : Type ℓ} → List A → Option A
  single [] = none
  single (x ∷ []) = some x
  single (x ∷ y ∷ xs) = none

  unfoldable pub title_of_codex : ℕ → Option String
  unfolding identified sort dedup
  title_of_codex pid = elim (single (dedup (sort (identified (files.open_files pid))))) [
    | none ↦ none
    | some (path, (home, thread)) ↦ files.read_title home thread path
  ]

  unfoldable pub title_of_pane : List Process → ℕ → Option String
  unfolding candidates_of title_of_codex
  title_of_pane ps root = elim (candidates_of ps root) [
    | none ↦ none
    | some cs ↦ elim (single cs) [ none ↦ none | some pid ↦ title_of_codex pid ]
  ]

  unfoldable pub resolve_with : List Process → List (String × PaneInfo) → SessionTitles
  unfolding is_codex_pane title_of_pane insert
  resolve_with ps [] = []
  resolve_with ps ((id, pane) ∷ panes) =
      let rest = resolve_with ps panes in
      if is_codex_pane pane
      then elim pane.pid [
        | none ↦ rest
        | some root ↦ elim (title_of_pane ps root) [
          | none ↦ rest
          | some title ↦ insert id title rest
        ]
      ]
      else rest
