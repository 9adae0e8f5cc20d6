-- ===== src/Machine/Codex/Search.antt =====
-- The search for the Codex of a terminal.
use webmux.Base.{
  ℕ, zero, suc, ◌+◌, ◌≤◌, ◌==◌, ==_iff, ◌≡◌, refl, ◌↔◌, ◌&&◌, ◌||◌, not, Bool, true, false, Option,
  none, some, List, [], ◌∷◌, ◌++◌, length, arith, is_some, if◌then◌else◌, nat_key, Bool-cases, inl,
  inr, subst,
}
use webmux.Base.Set.{contains, contains-append}
use webmux.Machine.Codex.{Process, is_codex, children, extend, visit, search, candidates_of}

length-extend : (xs pending : List ℕ) → length (extend xs pending) ≡ length xs + length pending
unfolding extend
length-extend [] pending = omega arith
length-extend (x ∷ xs) pending = omega (arith, length-extend xs (x ∷ pending))

contains-extend :
    (y : ℕ) (xs pending : List ℕ)
    → contains y (extend xs pending) ≡ (contains y xs || contains y pending)
unfolding extend contains
contains-extend y [] pending = refl
contains-extend y (x ∷ xs) pending = ground (arith, contains-extend y xs (x ∷ pending))

-- The processes that are still to be pushed: those whose parent is not visited.
abbrev is_open : List ℕ → Process → Bool
is_open visited p = elim p.parent [ none ↦ false | some q ↦ not (contains q visited) ]

unseen : List Process → List ℕ → ℕ
unseen [] visited = 0
unseen (p ∷ ps) visited = (if is_open visited p then 1 else 0) + unseen ps visited

unseen-le-length : (ps : List Process) (visited : List ℕ) → unseen ps visited ≤ length ps
unfolding unseen
unseen-le-length [] visited = omega arith
unseen-le-length (p ∷ ps) visited = ground (arith, unseen-le-length ps visited)

-- A visit of a new process pushes what it no longer leaves to be pushed.
unseen-cons :
    (ps : List Process) (pid : ℕ) (visited : List ℕ)
    → contains pid visited ≡ false
    → unseen ps (pid ∷ visited) + length (children ps pid) ≡ unseen ps visited
unfolding unseen children contains
unseen-cons [] pid visited e = omega arith
unseen-cons (p ∷ ps) pid visited e = one p.parent refl (unseen-cons ps pid visited e)
  where
    one :
        (o : Option ℕ)
        → p.parent ≡ o
        → unseen ps (pid ∷ visited) + length (children ps pid) ≡ unseen ps visited
        → unseen (p ∷ ps) (pid ∷ visited) + length (children (p ∷ ps) pid) ≡ unseen (p ∷ ps) visited
    one none q rest = ground (arith, q, rest)
    one (some r) q rest = ground (arith, q, e, ==_iff r pid, ==_iff pid r, rest)

visit-measure :
    (ps : List Process) (pid : ℕ) (pending visited candidates : List ℕ)
    → let (pending', visited', c') = visit ps pid pending visited candidates in
      length pending' + unseen ps visited' ≤ length pending + unseen ps visited
unfolding visit
visit-measure ps pid pending visited candidates =
    ground (arith, length-extend (children ps pid) pending, unseen-cons ps pid visited)

search_total :
    (ps : List Process) (pending : List ℕ) (fuel : ℕ) (visited candidates : List ℕ)
    → length pending + unseen ps visited ≤ fuel
    → is_some (search ps pending fuel visited candidates) ≡ true
unfolding search
search_total ps [] fuel visited candidates h = refl
search_total ps (pid ∷ pending) zero visited candidates h = absurd (omega (arith, h))
search_total ps (pid ∷ pending) (suc fuel) visited candidates h =
    let (pending', visited', c') = visit ps pid pending visited candidates in
    search_total ps pending' fuel visited' c'
      (omega (arith, h, visit-measure ps pid pending visited candidates))

candidates_of_total : (ps : List Process) (root : ℕ) → is_some (candidates_of ps root) ≡ true
unfolding candidates_of
candidates_of_total ps root =
    search_total ps (root ∷ []) (suc (length ps)) [] [] (omega (arith, unseen-le-length ps []))

-- The processes below `root`, down to the first Codex of each branch.
pub data Below (ps : List Process) (root : ℕ) : ℕ → Type 0 where
  here : Below ps root root
  under :
      (p q : ℕ)
      → Below ps root p
      → is_codex ps p ≡ false
      → contains q (children ps p) ≡ true
      → Below ps root q

-- What holds between two rounds.
record Inv (ps : List Process) (root : ℕ) (pending visited candidates : List ℕ) : Type 0 where
  waits : (x : ℕ) → contains x pending ≡ true → Below ps root x
  seen : (x : ℕ) → contains x visited ≡ true → Below ps root x
  found : (x : ℕ) → contains x candidates ≡ (contains x visited && is_codex ps x)
  closed :
      (x y : ℕ)
      → contains x visited ≡ true
      → is_codex ps x ≡ false
      → contains y (children ps x) ≡ true
      → (contains y visited || contains y pending) ≡ true
  rooted : (contains root visited || contains root pending) ≡ true

module _ (ps : List Process) (root pid : ℕ) (pending visited candidates : List ℕ) where
  -- A process that was visited before.
  again-Inv :
      Inv ps root (pid ∷ pending) visited candidates
      → contains pid visited ≡ true
      → Inv ps root pending visited candidates
  unfolding contains
  again-Inv h v = record {
    waits = λ x e. h.waits x (ground (arith, e));
    seen = h.seen;
    found = h.found;
    closed = λ x y e f g. ground (arith, h.closed x y e f g, v, ==_iff pid y);
    rooted = ground (arith, h.rooted, v, ==_iff pid root);
  }

  below : Inv ps root (pid ∷ pending) visited candidates → Below ps root pid
  unfolding contains
  below h = h.waits pid (ground (arith, ==_iff pid pid))

  seen_cons :
      Inv ps root (pid ∷ pending) visited candidates
      → (x : ℕ) → contains x (pid ∷ visited) ≡ true
      → Below ps root x
  unfolding contains
  seen_cons h x e = elim (Bool-cases (pid == x)) [
    | inl q ↦ subst (λ y. Below ps root y) ((==_iff pid x).0 q) (below h)
    | inr q ↦ h.seen x (ground (arith, e, q))
  ]

  -- A Codex.
  codex-Inv :
      Inv ps root (pid ∷ pending) visited candidates
      → contains pid visited ≡ false
      → is_codex ps pid ≡ true
      → Inv ps root pending (pid ∷ visited) (candidates ++ (pid ∷ []))
  unfolding contains
  codex-Inv h v c = record {
    waits = λ x e. h.waits x (ground (arith, e));
    seen = seen_cons h;
    found = λ x. ground (
      arith,
      h.found x,
      h.found pid,
      v,
      c,
      ==_iff pid x,
      contains-append x candidates (pid ∷ []),
    );
    closed = λ x y e f g. grind (arith, h.closed x y, e, f, g, v, c, ==_iff pid x, ==_iff pid y);
    rooted = ground (arith, h.rooted, v, ==_iff pid root);
  }

  -- Any other process.
  other-Inv :
      Inv ps root (pid ∷ pending) visited candidates
      → contains pid visited ≡ false
      → is_codex ps pid ≡ false
      → Inv ps root (extend (children ps pid) pending) (pid ∷ visited) candidates
  unfolding contains
  other-Inv h v c = record {
    waits = λ x e. elim (Bool-cases (contains x (children ps pid))) [
      | inl q ↦ Below.under pid x (below h) c q
      | inr q ↦ h.waits x (ground (arith, e, q, contains-extend x (children ps pid) pending))
    ];
    seen = seen_cons h;
    found = λ x. ground (arith, h.found x, h.found pid, v, c, ==_iff pid x);
    closed = λ x y e f g. grind (
      arith,
      h.closed x y,
      e,
      f,
      g,
      v,
      c,
      ==_iff pid x,
      ==_iff pid y,
      contains-extend y (children ps pid) pending,
    );
    rooted =
        ground
          (arith, h.rooted, v, ==_iff pid root, contains-extend root (children ps pid) pending);
  }

  visit-Inv :
      Inv ps root (pid ∷ pending) visited candidates
      → let r = visit ps pid pending visited candidates in Inv ps root r.0 r.1 r.2
  unfolding visit
  visit-Inv h = elim (Bool-cases (contains pid visited)) [
    | inl v ↦ rw (v, visit) (again-Inv h v)
    | inr v ↦ elim (Bool-cases (is_codex ps pid)) [
      | inl c ↦ rw (v, c, visit) (codex-Inv h v c)
      | inr c ↦ rw (v, c, visit) (other-Inv h v c)
    ]
  ]

-- With nothing left to visit, everything below is visited.
reached :
    (ps : List Process) (root : ℕ) (visited candidates : List ℕ) (x : ℕ)
    → Inv ps root [] visited candidates
    → Below ps root x
    → contains x visited ≡ true
unfolding contains
reached ps root visited candidates x h Below.here = ground (arith, h.rooted)
reached ps root visited candidates x h (Below.under p q b c e) =
    ground (arith, h.closed p q (reached ps root visited candidates p h b) c e)

abbrev pub IsExact : List Process → ℕ → List ℕ → Type 0
IsExact ps root cs = (x : ℕ) → (contains x cs ≡ true) ↔ (Below ps root x × (is_codex ps x ≡ true))

search-IsExact :
    (ps : List Process) (root : ℕ) (pending : List ℕ) (fuel : ℕ) (visited candidates cs : List ℕ)
    → Inv ps root pending visited candidates
    → search ps pending fuel visited candidates ≡ some cs
    → IsExact ps root cs
unfolding search
search-IsExact ps root [] fuel visited candidates cs h e =
    let same : candidates ≡ cs = ground (arith, e) in
    subst (λ c. IsExact ps root c) same
      λ x. (
        λ f. (h.seen x (ground (arith, f, h.found x)), ground (arith, f, h.found x)),
        λ f. ground (arith, f.1, h.found x, reached ps root visited candidates x h f.0),
      )
search-IsExact ps root (pid ∷ pending) zero visited candidates cs h e = absurd (ground (arith, e))
search-IsExact ps root (pid ∷ pending) (suc fuel) visited candidates cs h e =
    let r = visit ps pid pending visited candidates in
    search-IsExact ps root r.0 fuel r.1 r.2 cs (visit-Inv ps root pid pending visited candidates h)
      e

start-Inv : (ps : List Process) (root : ℕ) → Inv ps root (root ∷ []) [] []
unfolding contains
start-Inv ps root = record {
  waits = λ x e. subst (λ y. Below ps root y) (ground (arith, e, ==_iff root x)) Below.here;
  seen = λ x e. absurd (ground (arith, e));
  found = λ x. refl;
  closed = λ x y e f g. absurd (ground (arith, e));
  rooted = ground (arith, ==_iff root root);
}

-- The search for a Codex ends, whatever the parents of the processes are, also round a cycle. It finds
-- exactly the processes named codex that are below the root of the pane with no other Codex above them.
pub candidates_of-IsExact :
    (ps : List Process) (root : ℕ)
    → (cs : List ℕ) × (candidates_of ps root ≡ some cs) × IsExact ps root cs
unfolding candidates_of
candidates_of-IsExact ps root = exact (candidates_of ps root) refl (candidates_of_total ps root)
  where
    exact :
        (r : Option (List ℕ))
        → candidates_of ps root ≡ r
        → is_some r ≡ true
        → (cs : List ℕ) × (candidates_of ps root ≡ some cs) × IsExact ps root cs
    exact none e f = absurd (ground (arith, f))
    exact (some cs) e f =
        (cs, e, search-IsExact ps root (root ∷ []) (suc (length ps)) [] [] cs (start-Inv ps root) e)
