-- ===== src/Machine/Codex/Tests.antt =====
-- crates/machine/src/codex_title.rs at concrete processes.
use webmux.Base.{
  ℕ, ◌≡◌, ◌≢◌, refl, ◌↔◌, String, true, none, some, List, [], ◌∷◌, All, pair_key, string_key,
  is_text, if◌then◌else◌, nat_key,
}
use webmux.Base.Set.{contains}
use webmux.Machine.Codex.{
  Process, CodexFiles, Rollout, identified, is_codex, children, extend, visit, search,
  candidates_of, insert_sorted, sort, dedup_from, dedup, title_of_codex, title_of_pane,
}
use webmux.Machine.Codex.Search.{Below, IsExact, candidates_of-IsExact}
use webmux.Machine.Codex.Rollouts.{title_of_pane_only}

abbrev process : ℕ → ℕ → String → Process
process pid parent name = record { pid = pid; parent = some parent; name = name }

-- A shell that is its own grandparent, with a Codex below it, and a tool of this one.
abbrev processes : List Process
processes =
    process 1 11 "fish" ∷ process 11 1 "node" ∷ process 12 11 "codex" ∷ process 13 12 "codex" ∷ []

candidates_of-IsExact_example :
    (cs : List ℕ) × (candidates_of processes 1 ≡ some cs) × IsExact processes 1 cs
candidates_of-IsExact_example = candidates_of-IsExact processes 1

stops_at_codex : candidates_of processes 1 ≡ some (12 ∷ [])
unfolding candidates_of search visit children extend contains is_codex
stops_at_codex = refl

-- Process 12 has its rollout open twice, and a log.
abbrev files : CodexFiles
files = record {
  PathBuf = String;
  path_key = pair_key ⦃b = pair_key⦄;
  le = λ a b. true;
  open_files = λ pid. "rollout" ∷ "log" ∷ "rollout" ∷ [];
  rollout_identity = λ path. if is_text path "rollout" then some ("home", "thread") else none;
  read_title = λ home thread path. some "Pay the bill";
}

titled : title_of_pane files processes 1 ≡ some "Pay the bill"
unfolding title_of_pane title_of_codex candidates_of search visit children extend contains is_codex
    identified sort insert_sorted dedup dedup_from
titled = refl

title_of_pane_only_example :
    (pid : ℕ) × (r : Rollout files) × ((x : ℕ)
      → (Below processes 1 x × (is_codex processes x ≡ true)) ↔ (x ≡ pid))
    × All (λ s. s ≡ r) (identified files (files.open_files pid))
    × (identified files (files.open_files pid) ≢ [])
    × (files.read_title r.1.0 r.1.1 r.0 ≡ some "Pay the bill")
title_of_pane_only_example = title_of_pane_only files processes 1 "Pay the bill" titled
