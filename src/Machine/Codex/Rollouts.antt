-- ===== src/Machine/Codex/Rollouts.antt =====
-- Which title a pane gets.
use webmux.Base.{
  ℕ, ◌≡◌, ◌≢◌, refl, sym, ◌∙◌, subst, ◌↔◌, String, Bool, true, Option, none, some, List, [], ◌∷◌,
  All, arith, if◌then◌else◌, Option-cases, Bool-cases, inl, inr, ==_iff, nat_key,
}
use webmux.Base.Set.{contains}
use webmux.Machine.Codex.{
  Process, CodexFiles, Rollout, identified, insert_sorted, sort, dedup_from, dedup, single,
  title_of_codex, title_of_pane, is_codex,
}
use webmux.Machine.Codex.Search.{Below, IsExact, candidates_of-IsExact}

module _ (files : CodexFiles) where
  abbrev Each : Rollout files → List (Rollout files) → Type 0
  Each x rs = All (λ r. r ≡ x) rs

  Each-insert_sorted :
      (x r : Rollout files) (rs : List (Rollout files))
      → Each x (insert_sorted files r rs)
      → (r ≡ x) × Each x rs
  unfolding insert_sorted
  Each-insert_sorted x r [] h = (h.0, tt)
  Each-insert_sorted x r (s ∷ rs) h = elim (Bool-cases (files.le r s)) [
    | inl e ↦ subst (λ b. Each x (if b then r ∷ s ∷ rs else s ∷ insert_sorted files r rs)) e h
    | inr e ↦
        let k = subst (λ b. Each x (if b then r ∷ s ∷ rs else s ∷ insert_sorted files r rs)) e h in
        let (er, rest) = Each-insert_sorted x r rs k.1 in (er, (k.0, rest))
  ]

  Each-sort : (x : Rollout files) (rs : List (Rollout files)) → Each x (sort files rs) → Each x rs
  unfolding sort
  Each-sort x [] h = tt
  Each-sort x (r ∷ rs) h =
      let (e, rest) = Each-insert_sorted x r (sort files rs) h in (e, Each-sort x rs rest)

  dedup_from-ne-nil : (r : Rollout files) (rs : List (Rollout files)) → dedup_from files r rs ≢ []
  unfolding dedup_from
  dedup_from-ne-nil r [] e = ground (arith, e)
  dedup_from-ne-nil r (s ∷ rs) e =
      ground (arith, e, dedup_from-ne-nil (if files.path_key.eq r s then r else s) rs)

  Each-dedup_from :
      (x r : Rollout files) (rs : List (Rollout files))
      → dedup_from files r rs ≡ x ∷ []
      → (r ≡ x) × Each x rs
  unfolding dedup_from
  Each-dedup_from x r [] e = (ground (arith, e), tt)
  Each-dedup_from x r (s ∷ rs) e =
      let after : Bool → Type 0 = λ b.
        (let rest = dedup_from files (if b then r else s) rs in if b then rest else r ∷ rest)
        ≡ x ∷ [] in
      elim (Bool-cases (files.path_key.eq r s)) [
        | inl q ↦
            let (er, rest) = Each-dedup_from x r rs (subst after q e) in
            (er, (sym ((files.path_key.eq_iff r s).0 q) ∙ er, rest))
        | inr q ↦
            let k : r ∷ dedup_from files s rs ≡ x ∷ [] = subst after q e in
            absurd (dedup_from-ne-nil s rs (ground (arith, k)))
      ]

  -- One rollout is left where all are the same.
  single-dedup :
      (x : Rollout files) (rs : List (Rollout files))
      → single files (dedup files (sort files rs)) ≡ some x
      → Each x rs × (rs ≢ [])
  unfolding dedup sort
  single-dedup x [] e = absurd (ground (arith, e))
  single-dedup x (r ∷ rs) e = one (sort files (r ∷ rs)) refl e
    where
      one :
          (ss : List (Rollout files))
          → sort files (r ∷ rs) ≡ ss
          → single files (dedup files ss) ≡ some x
          → Each x (r ∷ rs) × (r ∷ rs ≢ [])
      one [] p q = absurd (ground (arith, q))
      one (s ∷ ss) p q = (
        Each-sort x (r ∷ rs)
            (subst (Each x) (sym p) (Each-dedup_from x s ss (only (dedup_from files s ss) q))),
        λ n. ground (arith, n),
      )
        where
          only : (l : List (Rollout files)) → single files l ≡ some x → l ≡ x ∷ []
          only [] f = absurd (ground (arith, f))
          only (y ∷ []) f = ground (arith, f)
          only (y ∷ z ∷ l) f = absurd (ground (arith, f))

  of_codex :
      (pid : ℕ) (title : String)
      → title_of_codex files pid ≡ some title
      → (r : Rollout files) × All (λ s. s ≡ r) (identified files (files.open_files pid))
        × (identified files (files.open_files pid) ≢ [])
        × (files.read_title r.1.0 r.1.1 r.0 ≡ some title)
  unfolding title_of_codex
  of_codex pid title e =
      let open_ones = identified files (files.open_files pid) in
      elim (Option-cases (single files (dedup files (sort files open_ones)))) [
        | inl f ↦ absurd (ground (arith, e, f))
        | inr (r, f) ↦
            let (all, some_open) = single-dedup r open_ones f in
            (r, all, some_open, ground (arith, e, f))
      ]

  only_one :
      (ps : List Process) (root pid : ℕ)
      → IsExact ps root (pid ∷ [])
      → (x : ℕ) → (Below ps root x × (is_codex ps x ≡ true)) ↔ (x ≡ pid)
  unfolding contains
  only_one ps root pid exact x = (
    λ b. ground (arith, (exact x).1 b, ==_iff pid x),
    λ q. (exact x).0 (ground (arith, q, ==_iff pid x)),
  )

  -- A title is never guessed: where a pane gets one, exactly one process below its root is a Codex with no
  -- other above it, the rollouts that this one has open are all the same, and the title is theirs.
  pub title_of_pane_only :
      (ps : List Process) (root : ℕ) (title : String)
      → title_of_pane files ps root ≡ some title
      → (pid : ℕ) × (r : Rollout files) × ((x : ℕ)
          → (Below ps root x × (is_codex ps x ≡ true)) ↔ (x ≡ pid))
        × All (λ s. s ≡ r) (identified files (files.open_files pid))
        × (identified files (files.open_files pid) ≢ [])
        × (files.read_title r.1.0 r.1.1 r.0 ≡ some title)
  unfolding title_of_pane
  title_of_pane_only ps root title e =
      let (cs, found, exact) = candidates_of-IsExact ps root in
      of_candidates cs exact (
        subst
          (λ (o : Option (List ℕ)).
            (elim o as (λ _. Option String) [
              | none ↦ none
              | some ds ↦ elim (single files ds) [
                | none ↦ none
                | some pid ↦ title_of_codex files pid
              ]
            ])
            ≡ some title)
          found e)
    where
      of_candidates :
          (cs : List ℕ)
          → IsExact ps root cs
          → (elim (single files cs) as (λ _. Option String) [
            | none ↦ none
            | some pid ↦ title_of_codex files pid
          ])
            ≡ some title
          → (pid : ℕ) × (r : Rollout files) × ((x : ℕ)
              → (Below ps root x × (is_codex ps x ≡ true)) ↔ (x ≡ pid))
            × All (λ s. s ≡ r) (identified files (files.open_files pid))
            × (identified files (files.open_files pid) ≢ [])
            × (files.read_title r.1.0 r.1.1 r.0 ≡ some title)
      of_candidates [] exact f = absurd (ground (arith, f))
      of_candidates (pid ∷ []) exact f =
          let (r, all, some_open, read) = of_codex pid title f in
          (pid, r, only_one ps root pid exact, all, some_open, read)
      of_candidates (p ∷ q ∷ cs) exact f = absurd (ground (arith, f))
