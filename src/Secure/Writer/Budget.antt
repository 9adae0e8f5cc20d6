-- ===== src/Secure/Writer/Budget.antt =====
-- The budget of queued bytes: no permit is lost or given twice.
use webmux.Base.{
  ℕ, ◌+◌, ◌≤◌, inl, inr, ◌≡◌, refl, ap, subst, ◌||◌, Option, none, some, List, [], ◌∷◌, ◌++◌, arith,
  length, ltb, leb, Bool-cases, Result, ok, err,
}
use mathlib.Core.List.{append_assoc}
use webmux.Secure.Noise.{Transport}
use webmux.Secure.Writer.{Queued, Writer, may_pass, small, pop_front, otherwise, passing, choose}
use webmux.Secure.Writer.Order.{started, pending}
use webmux.Secure.Writer.Queues.{
  Refusal, Outbound, queued_bytes, is_closed, cost, costs, weights, offer_control, offer_data,
  send_data, enter_first,
}
use webmux.Secure.Writer.Turns.{pull}

-- What the messages weigh, by any measure, is divided by the choice and by the pull.
module _ (f : Queued → ℕ) where
  pub weights-append : (xs ys : List Queued) → weights f (xs ++ ys) ≡ weights f xs + weights f ys
  weights-append [] ys = omega arith
  weights-append (x ∷ xs) ys = omega (arith, weights-append xs ys)

  abbrev pub chosen_weight : Option Queued → ℕ
  chosen_weight none = 0
  chosen_weight (some q) = f q

  Weighs : ℕ → Option (Queued × List Queued) → Type 0
  Weighs n none = Unit
  Weighs n (some (x, rest)) = n ≡ f x + weights f rest

  small-Weighs :
      (bulk : Option Queued) (earlier l : List Queued)
      → Weighs (weights f (earlier ++ l)) (small bulk earlier l)
  unfolding small Weighs
  small-Weighs bulk earlier [] = tt
  small-Weighs bulk earlier (x ∷ l) = elim (Bool-cases (may_pass bulk earlier x)) [
    | inl may ↦ rw may (omega (arith, weights-append earlier (x ∷ l), weights-append earlier l))
    | inr waits ↦ rw waits (
        subst (λ (m : List Queued). Weighs (weights f m) (small bulk (earlier ++ x ∷ []) l))
          (append_assoc earlier (x ∷ []) l) (small-Weighs bulk (earlier ++ x ∷ []) l))
  ]

  otherwise-weights :
      (w : Writer)
      → let (w', next) = otherwise w w.bulk in
        weights f (pending w) ≡ chosen_weight next + weights f (pending w')
  unfolding otherwise pop_front
  otherwise-weights w = from w.bulk w.waiting
    where
      from :
          (b : Option Queued) (l : List Queued)
          → let (w', next) = otherwise (record w { bulk = b; waiting = l }) b in
            weights f (started b ++ l) ≡ chosen_weight next + weights f (pending w')
      from (some b) l = refl
      from none [] = omega arith
      from none (x ∷ l) = refl

  -- What is chosen without a control message leaves the rest.
  pub choose-weights :
      (w : Writer)
      → let (w', next) = choose w none in
        weights f (pending w) ≡ chosen_weight next + weights f (pending w')
  unfolding choose passing Weighs
  choose-weights w = from (small w.bulk [] w.waiting) (small-Weighs w.bulk [] w.waiting)
    where
      from :
          (o : Option (Queued × List Queued))
          → Weighs (weights f w.waiting) o
          → let (w', next) = passing w o in
            weights f (pending w) ≡ chosen_weight next + weights f (pending w')
      from none e = otherwise-weights w
      from (some (x, rest)) e = elim (Bool-cases (ltb w.urgent_streak 8)) [
        | inl room ↦ rw room (
            omega (
              arith,
              e,
              weights-append (started w.bulk) w.waiting,
              weights-append (started w.bulk) rest,
            ))
        | inr full ↦ rw full (otherwise-weights w)
      ]

  pub pull-weights :
      (waiting l : List Queued)
      → weights f (pull waiting l).0 + weights f (pull waiting l).1
        ≡ weights f waiting + weights f l
  unfolding pull
  pull-weights waiting [] = refl
  pull-weights waiting (q ∷ l) = elim (Bool-cases (ltb (length waiting) 64)) [
    | inl room ↦
        rw room (omega (arith, pull-weights (waiting ++ q ∷ []) l, weights-append waiting (q ∷ [])))
    | inr full ↦ rw full refl
  ]

module _ (t : Transport) where
  -- The permits that messages and senders hold.
  abbrev pub permits : Outbound t → ℕ
  permits o = costs (pending o.writer) + (costs o.data_queue + costs o.entering)

  pub record Balanced (o : Outbound t) : Type 0 where
    pub total : o.budget + permits o ≡ queued_bytes
    pub controls : costs o.control_queue ≡ 0

  pub offer_control-Balanced :
      (o : Outbound t) (r : Result Queued Refusal)
      → ((q : Queued) → r ≡ ok q → cost q ≡ 0)
      → Balanced o
      → Balanced (offer_control t o r).0
  unfolding offer_control
  offer_control-Balanced o (err e) h b = b
  offer_control-Balanced o (ok q) h b =
      elim (Bool-cases (is_closed t o || leb 4 (length o.control_queue))) [
        | inl full ↦ rw full b
        | inr room ↦ rw room (record {
          total = b.total;
          controls =
              omega (arith, b.controls, h q refl, weights-append cost o.control_queue (q ∷ []));
        })
      ]

  pub offer_data-Balanced :
      (o : Outbound t) (r : Result Queued Refusal)
      → ((q : Queued) → r ≡ ok q → cost q ≤ o.budget)
      → Balanced o
      → Balanced (offer_data t o r).0
  unfolding offer_data
  offer_data-Balanced o (err e) h b = b
  offer_data-Balanced o (ok q) h b =
      elim (Bool-cases (is_closed t o || leb 64 (length o.data_queue))) [
        | inl full ↦ rw full b
        | inr room ↦ rw room (record {
          total = omega (arith, b.total, h q refl, weights-append cost o.data_queue (q ∷ []));
          controls = b.controls;
        })
      ]

  pub send_data-Balanced :
      (o : Outbound t) (r : Result Queued Refusal) → Balanced o → Balanced (send_data t o r).0
  unfolding send_data
  send_data-Balanced o (err e) b = b
  send_data-Balanced o (ok q) b = elim (Bool-cases (ltb o.budget (cost q))) [
    | inl waits ↦ rw waits b
    | inr enough ↦ elim (Bool-cases (is_closed t o)) [
      | inl gone ↦ rw (enough, gone) b
      | inr there ↦
          rw (enough, there)
            (record {
              total = ground (arith, b.total, enough, weights-append cost o.entering (q ∷ []));
              controls = b.controls;
            })
    ]
  ]

  pub enter_first-Balanced :
      (o : Outbound t) (l : List Queued)
      → o.entering ≡ l
      → Balanced o
      → Balanced (enter_first t o l)
  unfolding enter_first
  enter_first-Balanced o [] e b = b
  enter_first-Balanced o (q ∷ rest) e b = elim (Bool-cases (leb 64 (length o.data_queue))) [
    | inl full ↦ rw full b
    | inr room ↦ rw room (record {
      total = omega (arith, b.total, ap costs e, weights-append cost o.data_queue (q ∷ []));
      controls = b.controls;
    })
  ]
