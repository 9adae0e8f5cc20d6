-- ===== src/Secure/Writer/Progress.antt =====
-- A bulk message waits for at most eight small ones.
use webmux.Base.{
  min, All, ◌+◌, ◌≤◌, ◌≡◌, ◌⊎◌, refl, true, Option, none, some, List, [], ◌∷◌, ◌++◌, length, arith,
  ltb, Bool-cases, inl, inr,
}
use webmux.Secure.Channel.{fragment_bytes, is_small, finished}
use webmux.Secure.Writer.{
  may_pass, finished, Queued, Writer, small, pop_front, otherwise, passing, choose,
}

-- What the data queue has brought since the last choice.
abbrev pub arrive : List Queued → Writer → Writer
arrive new w = record w { waiting = w.waiting ++ new }

-- That a bulk message is chosen in one of the rounds, and keeps its place until then.
unfoldable pub ChosenIn : Writer → Queued → List (List Queued) → Type 0
ChosenIn w b [] = ⊥
ChosenIn w b (new ∷ rounds) =
    let (w', next) = choose (arrive new w) none in
    (next ≡ some b) ⊎ ((w'.bulk ≡ some b) × ChosenIn w' b rounds)

passing_bulk :
    (w : Writer) (b : Queued) (o : Option (Queued × List Queued))
    → w.bulk ≡ some b
    → let (w', next) = passing w o in
      (next ≡ some b)
      ⊎ ((w'.bulk ≡ some b) × (w'.urgent_streak ≡ w.urgent_streak + 1) × (w.urgent_streak + 1 ≤ 8))
unfolding passing otherwise
passing_bulk w b none e = rw e (inl refl)
passing_bulk w b (some (x, rest)) e = elim (Bool-cases (ltb w.urgent_streak 8)) [
  | inl room ↦ rw room (inr (e, refl, ground (arith, room)))
  | inr full ↦ rw full (rw e (inl refl))
]

-- While no control message comes, a bulk message under way keeps its place until it is chosen, and
-- that is within nine rounds, whatever messages come in each: sooner by the small messages sent since
-- it was last chosen.
pub continues_soon :
    (w : Writer) (b : Queued) (rounds : List (List Queued))
    → w.bulk ≡ some b
    → 9 ≤ w.urgent_streak + length rounds
    → w.urgent_streak ≤ 8
    → ChosenIn w b rounds
unfolding ChosenIn choose
continues_soon w b [] e h s = absurd (omega arith)
continues_soon w b (new ∷ rounds) e h s =
    let w1 = arrive new w in
    let o = small w1.bulk [] w1.waiting in
    elim (passing_bulk w1 b o e) [
      | inl chosen ↦ inl chosen
      | inr (q, up, low) ↦ inr (
        q,
        continues_soon (passing w1 o).0 b rounds q (omega (arith, h, up)) (omega (arith, low, up)),
      )
    ]

-- A message that no fragment of has been sent.
abbrev pub IsFresh : Queued → Type 0
IsFresh q = q.message.offset ≡ 0

-- The message after a fragment of it.
abbrev pub advanced : Queued → Queued
advanced q = record q {
  message = record q.message {
    offset = min (q.message.offset + fragment_bytes) (length q.message.content);
  };
}

Finishes : Option (Queued × List Queued) → Type 0
Finishes none = Unit
Finishes (some (x, rest)) = finished (advanced x).message ≡ true

small-Finishes :
    (bulk : Option Queued) (earlier l : List Queued)
    → All IsFresh l
    → Finishes (small bulk earlier l)
unfolding small Finishes may_pass is_small finished
small-Finishes bulk earlier [] f = tt
small-Finishes bulk earlier (x ∷ l) f = elim (Bool-cases (may_pass bulk earlier x)) [
  | inl may ↦ rw may (ends may)
  | inr waits ↦ rw waits (small-Finishes bulk (earlier ++ x ∷ []) l f.1)
]
  where
    ends : may_pass bulk earlier x ≡ true → finished (advanced x).message ≡ true
    ends may = ground (arith, may, f.0)

otherwise_no_bulk : (w : Writer) → (otherwise w w.bulk).0.bulk ≡ none
unfolding otherwise pop_front
otherwise_no_bulk w = gone w.bulk w.waiting
  where
    gone :
        (b : Option Queued) (l : List Queued)
        → (otherwise (record w { bulk = b; waiting = l }) b).0.bulk ≡ none
    gone (some b) l = refl
    gone none [] = refl
    gone none (x ∷ l) = refl

passing_room :
    (w : Writer) (o : Option (Queued × List Queued))
    → Finishes o
    → let (w', x) = passing w o in
      (w'.bulk ≡ none) ⊎ (elim x [ none ↦ true | some q ↦ finished (advanced q).message ] ≡ true)
unfolding passing Finishes
passing_room w none f = inl (otherwise_no_bulk w)
passing_room w (some (x, rest)) f = elim (Bool-cases (ltb w.urgent_streak 8)) [
  | inl room ↦ rw room (inr f)
  | inr full ↦ rw full (inl (otherwise_no_bulk w))
]

-- Where nothing of the waiting messages has been sent and no control message comes, the message that
-- is chosen ends with its next fragment, or no bulk message is left whose place it would take.
pub choose_room :
    (w : Writer)
    → All IsFresh w.waiting
    → let (w', x) = choose w none in
      (w'.bulk ≡ none) ⊎ (elim x [ none ↦ true | some q ↦ finished (advanced q).message ] ≡ true)
unfolding choose
choose_room w f = passing_room w (small w.bulk [] w.waiting) (small-Finishes w.bulk [] w.waiting f)
