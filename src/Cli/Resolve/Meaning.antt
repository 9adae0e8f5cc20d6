-- ===== src/Cli/Resolve/Meaning.antt =====
-- What is resolved.
use webmux.Base.{
  ◌∙◌, sym, subst, sym, subst, ℕ, ◌≡◌, ◌⊎◌, refl, Bool, true, false, Option, none, some, List, [],
  ◌∷◌, ◌++◌, Result, ok, err, filter, map, any, arith, if◌then◌else◌, inl, inr,
}
use webmux.Cli.Resolve.{
  join_lines, no_machine, is_ambiguous, CliError, usage, eq_text, starts_with, contains_text,
  eq_ignore_ascii_case, no_id, ambiguous, find, single, matched, resolve_prefix, MachineInfo,
  by_name, or_by_name, resolve_machine,
}

eq_text-starts_with : (s t : List ℕ) → eq_text s t ≡ true → starts_with s t ≡ true
eq_text-starts_with [] [] e = refl
eq_text-starts_with [] (b ∷ t) e = cc
eq_text-starts_with (a ∷ s) [] e = refl
eq_text-starts_with (a ∷ s) (b ∷ t) e = ground (arith, e, eq_text-starts_with s t)

eq_text_refl : (s : List ℕ) → eq_text s s ≡ true
eq_text_refl [] = refl
eq_text_refl (a ∷ s) = ground (arith, eq_text_refl s)

starts_with-append : (s t u : List ℕ) → starts_with s t ≡ true → starts_with (s ++ u) t ≡ true
starts_with-append s [] u e = starts_nil (s ++ u)
  where
    starts_nil : (x : List ℕ) → starts_with x [] ≡ true
    starts_nil [] = refl
    starts_nil (a ∷ x) = refl
starts_with-append [] (b ∷ t) u e = cc
starts_with-append (a ∷ s) (b ∷ t) u e = ground (arith, e, starts_with-append s t u)

contains_text-prefix : (s t u : List ℕ) → contains_text s t ≡ true → contains_text (s ++ u) t ≡ true
contains_text-prefix [] [] [] e = refl
contains_text-prefix [] [] (a ∷ u) e = refl
contains_text-prefix [] (b ∷ t) u e = cc
contains_text-prefix (a ∷ s) t u e =
    ground (arith, e, starts_with-append (a ∷ s) t u, contains_text-prefix s t u)

contains_text-suffix : (p s t : List ℕ) → contains_text s t ≡ true → contains_text (p ++ s) t ≡ true
contains_text-suffix [] s t e = e
contains_text-suffix (a ∷ p) s t e = ground (arith, contains_text-suffix p s t e)

module _ {T : Type 0} where
  find-none :
      (query : List ℕ) (items : List T) (id_of : T → List ℕ)
      → filter (λ x. starts_with (id_of x) query) items ≡ []
      → find (λ x. eq_text (id_of x) query) items ≡ none
  unfolding find
  find-none query [] id_of e = refl
  find-none query (x ∷ items) id_of e =
      ground (arith, e, eq_text-starts_with (id_of x) query, find-none query items id_of)

  find_passes : (p : T → Bool) (items : List T) (x : T) → find p items ≡ some x → p x ≡ true
  unfolding find
  find_passes p [] x e = cc
  find_passes p (y ∷ items) x e = ground (arith, e, find_passes p items x)

  find-append :
      (p : T → Bool) (before after : List T) (x : T)
      → any p before ≡ false
      → p x ≡ true
      → find p (before ++ x ∷ after) ≡ some x
  unfolding find
  find-append p [] after x none_before here = ground (arith, here)
  find-append p (y ∷ before) after x none_before here =
      ground (arith, none_before, here, find-append p before after x)

  -- An id in full stands for the first item that has it, also where other ids begin with it.
  pub resolve_prefix_full :
      (before after : List T) (x : T) (id_of : T → List ℕ)
      → any (λ y. eq_text (id_of y) (id_of x)) before ≡ false
      → resolve_prefix (id_of x) (before ++ x ∷ after) id_of ≡ ok x
  unfolding resolve_prefix matched
  resolve_prefix_full before after x id_of others =
      rw
        (find-append (λ y. eq_text (id_of y) (id_of x)) before after x others
          (eq_text_refl (id_of x)))
        refl

  single_ok :
      (query nothing : List ℕ) (line : T → List ℕ) (xs : List T) (x : T)
      → single query nothing line xs ≡ ok x
      → xs ≡ x ∷ []
  unfolding single
  single_ok query nothing line [] x e = cc
  single_ok query nothing line (y ∷ []) x e = cc
  single_ok query nothing line (y ∷ z ∷ ys) x e = cc

-- The machine has the id, or is the only one whose id begins so, or no id begins so and it is the
-- only one with the name.
abbrev pub Means : List ℕ → List MachineInfo → MachineInfo → Type 0
Means query machines m =
    (eq_text m.id query ≡ true)
    ⊎ ((filter (λ x. starts_with x.id query) machines ≡ m ∷ [])
        ⊎ ((filter (λ x. starts_with x.id query) machines ≡ [])
            × (filter (λ x. eq_ignore_ascii_case x.name query) machines ≡ m ∷ [])))

is_ambiguous-contains :
    (query candidates : List ℕ) → contains_text (is_ambiguous query candidates) ambiguous ≡ true
is_ambiguous-contains query candidates =
    let rest =
      (b' ' ∷ 0xe2 ∷ 0x80 ∷ 0x94 ∷ b' ' ∷ b'c' ∷ b'a' ∷ b'n' ∷ b'd' ∷ b'i' ∷ b'd' ∷ b'a' ∷ b't'
        ∷ b'e' ∷ b's' ∷ b':' ∷ 0x0a ∷ [])
      ++ candidates in
    let words : List ℕ = 0x27 ∷ b' ' ∷ b'i' ∷ b's' ∷ b' ' ∷ ambiguous in
    contains_text-suffix (0x27 ∷ query) (words ++ rest) ambiguous
      (contains_text-prefix words ambiguous rest refl)

if_ok :
    (b : Bool) (e : CliError) (r : Result MachineInfo CliError) (m : MachineInfo)
    → (if b then err e else r) ≡ ok m
    → (b ≡ false) × (r ≡ ok m)
if_ok true e r m q = cc
if_ok false e r m q = (refl, q)

true_not_false : ◌≡◌ {A = Bool} true false → ⊥
true_not_false e = cc

ok_machine : (x m : MachineInfo) → ◌≡◌ {A = Result MachineInfo CliError} (ok x) (ok m) → x ≡ m
ok_machine x m e = cc

by_prefix :
    (query : List ℕ) (machines xs : List MachineInfo) (m : MachineInfo)
    → filter (λ x. starts_with x.id query) machines ≡ xs
    → or_by_name query machines (single query no_id (λ x. b' ' ∷ b' ' ∷ x.id) xs) ≡ ok m
    → Means query machines m
unfolding single or_by_name by_name
by_prefix query machines [] m q e =
    let message : List ℕ = no_id ++ (query ++ 0x27 ∷ []) in
    let (clear, named) =
      if_ok (contains_text message ambiguous) (usage message) (by_name query machines) m e in
    inr (
      inr (
        q,
        single_ok query no_machine (λ x. b' ' ∷ b' ' ∷ (x.id ++ b' ' ∷ b' ' ∷ x.name))
            (filter (λ x. eq_ignore_ascii_case x.name query) machines) m named,
      ))
by_prefix query machines (x ∷ []) m q e =
    inr (
      inl
        (subst (λ y. filter (λ x. starts_with x.id query) machines ≡ y ∷ []) (ok_machine x m e) q))
by_prefix query machines (x ∷ y ∷ xs) m q e =
    let lines = join_lines (map (λ x. b' ' ∷ b' ' ∷ x.id) (x ∷ y ∷ xs)) in
    let message : List ℕ = is_ambiguous query lines in
    let (clear, named) =
      if_ok (contains_text message ambiguous) (usage message) (by_name query machines) m e in
    absurd (true_not_false (sym (is_ambiguous-contains query lines) ∙ clear))

-- A machine that a command acts on is one that the words mean, and no other.
pub resolve_machine-Means :
    (query : List ℕ) (machines : List MachineInfo) (m : MachineInfo)
    → resolve_machine query machines ≡ ok m
    → Means query machines m
unfolding resolve_machine resolve_prefix matched or_by_name
resolve_machine-Means query machines m e = found (find (λ x. eq_text x.id query) machines) refl e
  where
    found :
        (o : Option MachineInfo)
        → find (λ x. eq_text x.id query) machines ≡ o
        → or_by_name query machines (matched query machines (λ x. x.id) o) ≡ ok m
        → Means query machines m
    found none q e' = by_prefix query machines _ m refl e'
    found (some x) q e' = inl (
        subst (λ y. eq_text y.id query ≡ true) (ok_machine x m e')
          (find_passes (λ x. eq_text x.id query) machines x q))

-- A name with the word "ambiguous" in it is not looked for: where no id begins with it, the answer is
-- that there is no such id, even if a machine has that very name.
pub resolve_machine_hides :
    (query : List ℕ) (machines : List MachineInfo)
    → filter (λ x. starts_with x.id query) machines ≡ []
    → contains_text query ambiguous ≡ true
    → resolve_machine query machines ≡ err (usage (no_id ++ (query ++ 0x27 ∷ [])))
unfolding resolve_machine resolve_prefix matched single or_by_name
resolve_machine_hides query machines none_begins word =
    rw
      (
        find-none query machines (λ x. x.id) none_begins,
        none_begins,
        contains_text-suffix no_id _ ambiguous
            (contains_text-prefix query ambiguous (0x27 ∷ []) word),
      )
      refl
