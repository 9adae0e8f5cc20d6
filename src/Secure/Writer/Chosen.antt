-- ===== src/Secure/Writer/Chosen.antt =====
-- Where the message that the writer chooses comes from, and what is left of the others.
use webmux.Base.{
  ◌⊎◌, inl, inr, ◌≡◌, refl, true, Option, none, some, List, [], ◌∷◌, ◌++◌, All, arith, All-append,
  ltb, Bool-cases,
}
use webmux.Secure.Channel.{is_small}
use webmux.Secure.Writer.{Queued, Writer, may_pass, small, pop_front, otherwise, passing, choose}

module _ (P : Queued → Type 0) where
  -- Of those that wait, where it is small or no bulk message is under way; or the bulk message.
  abbrev pub Takes : Writer → Writer → Option Queued → Type 0
  Takes w w' none = (w.bulk ≡ none) × (w'.bulk ≡ none) × All P w'.waiting
  Takes w w' (some x) =
      All P w'.waiting
      × ((P x × (w'.bulk ≡ w.bulk) × ((w.bulk ≡ none) ⊎ (is_small x.message ≡ true)))
          ⊎ ((w.bulk ≡ some x) × (w'.bulk ≡ none)))

  Passes : Option (Queued × List Queued) → Type 0
  Passes none = Unit
  Passes (some (x, rest)) = P x × All P rest × (is_small x.message ≡ true)

  All-split : (xs ys : List Queued) → All P (xs ++ ys) → All P xs × All P ys
  All-split [] ys h = (tt, h)
  All-split (x ∷ xs) ys h = let (a, b) = All-split xs ys h.1 in ((h.0, a), b)

  small-Passes :
      (bulk : Option Queued) (earlier l : List Queued)
      → All P earlier
      → All P l
      → Passes (small bulk earlier l)
  unfolding small Passes may_pass
  small-Passes bulk earlier [] e h = tt
  small-Passes bulk earlier (x ∷ l) e h = elim (Bool-cases (may_pass bulk earlier x)) [
    | inl may ↦ rw may (h.0, All-append P earlier l e h.1, ground (arith, may))
    | inr waits ↦
        rw waits
          (small-Passes bulk (earlier ++ x ∷ []) l (All-append P earlier (x ∷ []) e (h.0, tt)) h.1)
  ]

  otherwise-Takes :
      (w : Writer) → All P w.waiting → Takes w (otherwise w w.bulk).0 (otherwise w w.bulk).1
  unfolding otherwise pop_front
  otherwise-Takes w h = from w.bulk w.waiting h refl
    where
      from :
          (b : Option Queued) (l : List Queued)
          → All P l
          → w.waiting ≡ l
          → let v = record w { bulk = b; waiting = l } in
            Takes v (otherwise v b).0 (otherwise v b).1
      from (some b) l h e = (h, inr (refl, refl))
      from none [] h e = (refl, refl, tt)
      from none (x ∷ l) h e = (h.1, inl (h.0, refl, inl refl))

  passing-Takes :
      (w : Writer) (o : Option (Queued × List Queued))
      → All P w.waiting
      → Passes o
      → Takes w (passing w o).0 (passing w o).1
  unfolding passing Passes
  passing-Takes w none h p = otherwise-Takes w h
  passing-Takes w (some (x, rest)) h p = elim (Bool-cases (ltb w.urgent_streak 8)) [
    | inl room ↦ rw room (p.1, inl (p.0, refl, inr p.2))
    | inr full ↦ rw full (otherwise-Takes w h)
  ]

  pub choose-Takes : (w : Writer) → All P w.waiting → Takes w (choose w none).0 (choose w none).1
  unfolding choose
  choose-Takes w h = passing-Takes w _ h (small-Passes w.bulk [] w.waiting tt h)
