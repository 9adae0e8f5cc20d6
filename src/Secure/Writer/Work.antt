-- ===== src/Secure/Writer/Work.antt =====
-- What is left for the writer to send, and what the choice and the pull do to it.
use webmux.Base.{
  suc, ℕ, ◌+◌, ◌-◌, ◌≤◌, ◌<◌, ◌⊎◌, inl, inr, ◌≡◌, refl, sym, ap, subst, Bool, false, Option, none,
  some, List, [], ◌∷◌, ◌++◌, arith, length, length-append, ltb, if◌then◌else◌, Bool-cases,
}
use webmux.Secure.Noise.{Transport}
use webmux.Secure.Channel.{finished}
use webmux.Secure.Writer.{Queued, Writer, small, pop_front, otherwise, passing, choose, put_back}
use webmux.Secure.Writer.Order.{started, pending}
use webmux.Secure.Writer.Queues.{Outbound, is_closed, Phase, loops, sleeps, returned, weights}
use webmux.Secure.Writer.Turns.{pull}

-- The bytes of a message that are not sent.
abbrev pub bytes_left : Queued → ℕ
bytes_left q = length q.message.content - q.message.offset

module _ (t : Transport) where
  -- What is left to send.
  abbrev pub work : Outbound t → ℕ
  work o =
      weights bytes_left (pending o.writer)
      + (weights bytes_left o.data_queue + weights bytes_left o.control_queue)

  -- A writer that sleeps has no message.
  abbrev pub IsAtRest : Outbound t → Type 0
  IsAtRest o = elim o.phase [
    | loops ↦ Unit {0}
    | sleeps ↦ pending o.writer ≡ []
    | returned r ↦ Unit {0}
  ]

  -- The moves that are left: one for each byte at most, and one to wake.
  abbrev pub moves_left : Outbound t → ℕ
  moves_left o = elim o.phase [ loops ↦ work o | sleeps ↦ suc (work o) | returned r ↦ work o ]

  -- What an undisturbed move does.
  abbrev pub Drains : Outbound t → Outbound t → Type 0
  Drains o o1 =
      (is_closed t o1 ≡ false) × IsAtRest o1 × ((work o1 ≡ 0) ⊎ (moves_left o1 < moves_left o))

  pub moves_awake : (o : Outbound t) → o.phase ≡ loops → moves_left o ≡ work o
  moves_awake o e =
      ap (λ (p : Phase). elim p [ loops ↦ work o | sleeps ↦ suc (work o) | returned r ↦ work o ]) e

  pub Drains-loops :
      (o o1 : Outbound t)
      → o.phase ≡ loops
      → o1.phase ≡ loops
      → is_closed t o1 ≡ false
      → work o1 < work o
      → Drains o o1
  Drains-loops o o1 e e1 c less = (
    c,
    subst
        (λ (p : Phase). elim p [
          | loops ↦ Unit {0}
          | sleeps ↦ pending o1.writer ≡ []
          | returned r ↦ Unit {0}
        ])
        (sym e1) tt,
    inr (omega (arith, moves_awake o e, moves_awake o1 e1, less)),
  )

  pub moves_asleep : (o : Outbound t) → o.phase ≡ sleeps → moves_left o ≡ suc (work o)
  moves_asleep o e =
      ap (λ (p : Phase). elim p [ loops ↦ work o | sleeps ↦ suc (work o) | returned r ↦ work o ]) e

  pub sent-bytes :
      (w : Writer) (x x' : Queued)
      → (finished x'.message ≡ false → w.bulk ≡ none)
      → bytes_left x' < bytes_left x
      → weights bytes_left (pending (put_back w x')) < bytes_left x + weights bytes_left (pending w)
  unfolding put_back
  sent-bytes w x x' alone less = elim (Bool-cases (finished x'.message)) [
    | inl done ↦ rw done (omega (arith, less))
    | inr more ↦ rw (more, alone more) (omega (arith, less))
  ]

  -- Where nothing is chosen there was nothing.
  unfoldable pub Emptied : Writer → Writer × Option Queued → Type 0
  Emptied w (w', none) = (pending w ≡ []) × (pending w' ≡ [])
  Emptied w (w', some x) = Unit

  pub choose_nothing : (w : Writer) → Emptied w (choose w none)
  unfolding choose passing otherwise pop_front Emptied
  choose_nothing w = from w.bulk w.waiting (small w.bulk [] w.waiting)
    where
      rest :
          (b : Option Queued) (l : List Queued)
          → let v = record w { bulk = b; waiting = l } in Emptied v (otherwise v b)
      rest (some b) l = tt
      rest none [] = (refl, refl)
      rest none (x ∷ l) = tt

      from :
          (b : Option Queued) (l : List Queued) (o : Option (Queued × List Queued))
          → let v = record w { bulk = b; waiting = l } in Emptied v (passing v o)
      from b l none = rest b l
      from b l (some (x, r)) = elim (Bool-cases (ltb w.urgent_streak 8)) [
        | inl room ↦ rw room tt
        | inr full ↦ rw full (rest b l)
      ]

pull-length : (waiting l : List Queued) → length waiting ≤ length (pull waiting l).0
unfolding pull
pull-length waiting [] = omega arith
pull-length waiting (q ∷ l) = elim (Bool-cases (ltb (length waiting) 64)) [
  | inl room ↦
      rw room (omega (arith, pull-length (waiting ++ q ∷ []) l, length-append waiting (q ∷ [])))
  | inr full ↦ rw full (omega arith)
]

pub nothing_waits : (b : Option Queued) (l : List Queued) → started b ++ l ≡ [] → l ≡ []
nothing_waits none l e = e
nothing_waits (some q) l e = cc

pub pull_nothing : (waiting l : List Queued) → (pull waiting l).0 ≡ [] → (pull waiting l).1 ≡ []
unfolding pull
pull_nothing waiting [] e = refl
pull_nothing waiting (q ∷ l) e = elim (Bool-cases (ltb (length waiting) 64)) [
  | inl room ↦ absurd (
      omega (
        arith,
        ap length (
            subst
              (λ (b : Bool). (if b then pull (waiting ++ q ∷ []) l else (waiting, q ∷ l)).0 ≡ [])
              room e),
        pull-length (waiting ++ q ∷ []) l,
        length-append waiting (q ∷ []),
      ))
  | inr full ↦ absurd (ground (arith, full, e))
]
