-- ===== src/Machine/Title/Bounds.antt =====
-- What the scanner keeps and what it reports, on any bytes.
use webmux.Base.{
  ℕ, ◌+◌, ◌≤◌, ◌<◌, ◌≡◌, ◌≢◌, Bool, true, false, not, List, [], ◌∷◌, arith, length, length-append,
  filter, All, All-append,
}
use webmux.Base.Utf8.{text_len, len_utf8, is_control, from_utf8_lossy}
use webmux.Machine.Title.{
  State, fitting, sanitize_title, reported, push_title, step, push, max_title_bytes,
  max_sequence_bytes,
}

-- A state whose buffer and counter are within the limits.
abbrev pub IsBounded : State → Type 0
IsBounded (State.title bytes n esc) = (length bytes ≤ max_title_bytes) × (n < max_sequence_bytes)
IsBounded (State.ignore n esc) = n < max_sequence_bytes
IsBounded _ = Unit

step-IsBounded : (s : State) (b : ℕ) → IsBounded s → IsBounded (step s b).0
unfolding step
step-IsBounded (State.title bytes n esc) b i = ground (arith, length-append bytes (b ∷ []))
step-IsBounded s b i = ground arith

push-IsBounded : (s : State) (chunk : List ℕ) → IsBounded s → IsBounded (push s chunk).0
unfolding push
push-IsBounded s [] i = i
push-IsBounded s (b ∷ chunk) i = push-IsBounded (step s b).0 chunk (step-IsBounded s b i)

-- A reported title: some characters, none of them a control character, in at most 128 bytes.
pub record IsTitle (t : List ℕ) : Type 0 where
  pub some_text : t ≢ []
  pub short : text_len t ≤ max_title_bytes
  pub clean : All (λ c. is_control c ≡ false) t

All-filter : (p : ℕ → Bool) (cs : List ℕ) → All (λ c. p c ≡ true) (filter p cs)
All-filter p [] = tt
All-filter p (c ∷ cs) = ground (arith, All-filter p cs)

fitting-short :
    (used : ℕ) (cs : List ℕ)
    → used ≤ max_title_bytes
    → used + text_len (fitting used cs) ≤ max_title_bytes
unfolding fitting text_len
fitting-short used [] h = omega arith
fitting-short used (c ∷ cs) h = ground (arith, fitting-short (used + len_utf8 c) cs)

fitting-All :
    (used : ℕ) (cs : List ℕ)
    → All (λ c. not (is_control c) ≡ true) cs
    → All (λ c. is_control c ≡ false) (fitting used cs)
unfolding fitting
fitting-All used [] h = tt
fitting-All used (c ∷ cs) h = ground (arith, fitting-All (used + len_utf8 c) cs h.1)

sanitize_title-short : (bytes : List ℕ) → text_len (sanitize_title bytes) ≤ max_title_bytes
unfolding sanitize_title
sanitize_title-short bytes =
    omega (arith, fitting-short 0 (filter (λ c. not (is_control c)) (from_utf8_lossy bytes)))

sanitize_title-All : (bytes : List ℕ) → All (λ c. is_control c ≡ false) (sanitize_title bytes)
unfolding sanitize_title
sanitize_title-All bytes =
    fitting-All 0 (filter (λ c. not (is_control c)) (from_utf8_lossy bytes))
      (All-filter (λ c. not (is_control c)) (from_utf8_lossy bytes))

reported-All :
    (t : List ℕ)
    → text_len t ≤ max_title_bytes
    → All (λ c. is_control c ≡ false) t
    → All IsTitle (reported t)
unfolding reported
reported-All [] short clean = tt
reported-All (c ∷ cs) short clean =
    (record { some_text = λ q. cc; short = short; clean = clean }, tt)

push_title-All : (bytes : List ℕ) → All IsTitle (push_title bytes)
unfolding push_title
push_title-All bytes =
    reported-All (sanitize_title bytes) (sanitize_title-short bytes) (sanitize_title-All bytes)

step-All : (s : State) (b : ℕ) → All IsTitle (step s b).1
unfolding step
step-All (State.title bytes n esc) b = ground (arith, push_title-All bytes)
step-All State.ground b = tt
step-All State.escape b = tt
step-All State.command b = tt
step-All (State.semicolon c) b = tt
step-All (State.ignore n esc) b = tt

push-All : (s : State) (chunk : List ℕ) → All IsTitle (push s chunk).1
unfolding push
push-All s [] = tt
push-All s (b ∷ chunk) =
    All-append IsTitle (step s b).1 _ (step-All s b) (push-All (step s b).0 chunk)

-- Whatever bytes arrive in whatever chunks, the scanner buffers at most 128 bytes and counts below
-- 4096, and each title that it reports has a character, no control character, and at most 128 bytes
-- of UTF-8.
pub push_bounds :
    (s : State) (chunk : List ℕ)
    → IsBounded s
    → IsBounded (push s chunk).0 × All IsTitle (push s chunk).1
push_bounds s chunk i = (push-IsBounded s chunk i, push-All s chunk)
