-- ===== src/Secure/Writer/Peer.antt =====
-- Everything that senders and writer do, as the peer sees it.
use webmux.Base.{
  suc, ℕ, inl, inr, ◌≡◌, refl, ap, ◌∙◌, Bool, true, false, not, ◌||◌, List, [], ◌∷◌, ◌++◌, length,
  drop, drop-append_length, Bool-cases, nat_key,
}
use mathlib.Core.List.{append-nil}
use webmux.Secure.Noise.{Transport, Laws}
use webmux.Secure.Channel.{Channel}
use webmux.Secure.Writer.{Queued}
use webmux.Secure.Writer.Queues.{WireMessage, Outbound, is_closed, Phase, loops, sleeps, returned}
use webmux.Secure.Writer.Turns.{
  turn, wake, advance, Move, sends, tries, enters, drops_senders, advances, move, move_all,
}
use webmux.Secure.Writer.Arrivals.{Grown, Grown-same, Grown-enter, send-Grown, try_send-Grown}
use webmux.Secure.Writer.Handover.{unsent, Steady, After, Grown-After}
use webmux.Secure.Writer.Cycle.{advance-After}

module _ {M : Type 0} (wire : WireMessage M) (t : Transport) where
  -- What a move puts in the data queue: a move of the writer, nothing.
  abbrev pub arrivals : Outbound t → Move t wire → List Queued
  arrivals o (advances works) = []
  arrivals o e = drop (length o.data_queue) (move t wire o e).0.data_queue

  unfoldable pub all_arrivals : Outbound t → List (Move t wire) → List Queued
  all_arrivals o [] = []
  all_arrivals o (e ∷ es) = arrivals o e ++ all_arrivals (move t wire o e).0 es

  -- What a move puts in the control queue.
  abbrev pub control_arrivals : Outbound t → Move t wire → List Queued
  control_arrivals o (advances works) = []
  control_arrivals o e = drop (length o.control_queue) (move t wire o e).0.control_queue

  unfoldable pub all_control_arrivals : Outbound t → List (Move t wire) → List Queued
  all_control_arrivals o [] = []
  all_control_arrivals o (e ∷ es) =
      control_arrivals o e ++ all_control_arrivals (move t wire o e).0 es

  -- A move at which the writer may return: the sink fails, or no sender is left.
  abbrev pub may_end : Outbound t → Move t wire → Bool
  may_end o (advances works) = not works || not o.has_sender
  may_end o e = false

  unfoldable pub ever_may_end : Outbound t → List (Move t wire) → Bool
  ever_may_end o [] = false
  ever_may_end o (e ∷ es) = may_end o e || ever_may_end (move t wire o e).0 es

  -- A move of the senders.
  pub record Grows (o : Outbound t) (e : Move t wire) : Type 0 where
    pub grown : Grown wire t o (move t wire o e).0
    pub silent : (move t wire o e).1 ≡ []

  pub sends_grow : (o : Outbound t) (value : M) → Grows o (sends value)
  unfolding move
  sends_grow o value = elim (Bool-cases o.has_sender) [
    | inl there ↦ record { grown = simp there (send-Grown wire t o value); silent = refl }
    | inr gone ↦ record { grown = simp gone (Grown-same wire t o o.has_sender); silent = refl }
  ]

  pub tries_grow : (o : Outbound t) (value : M) → Grows o (tries value)
  unfolding move
  tries_grow o value = elim (Bool-cases o.has_sender) [
    | inl there ↦ record { grown = simp there (try_send-Grown wire t o value); silent = refl }
    | inr gone ↦ record { grown = simp gone (Grown-same wire t o o.has_sender); silent = refl }
  ]

  pub enters_grow : (o : Outbound t) → Grows o enters
  unfolding move
  enters_grow o = record { grown = Grown-enter wire t o; silent = refl }

  pub drops_grow : (o : Outbound t) → Grows o drops_senders
  unfolding move
  drops_grow o = record { grown = from o.entering; silent = refl }
    where
      from :
          (l : List Queued)
          → Grown wire t o (elim l [ [] ↦ record o { has_sender = false } | q ∷ qs ↦ o ])
      from [] = Grown-same wire t o false
      from (q ∷ qs) = Grown-same wire t o o.has_sender

  arrived-Grown :
      (o o1 : Outbound t) (g : Grown wire t o o1)
      → drop (length o.data_queue) o1.data_queue ≡ g.arrived
  arrived-Grown o o1 g =
      ap (λ (d : List Queued). drop (length o.data_queue) d) g.data_queue
      ∙ drop-append_length o.data_queue g.arrived (length o.data_queue) refl

  arrived-control :
      (o o1 : Outbound t) (g : Grown wire t o o1)
      → drop (length o.control_queue) o1.control_queue ≡ g.arrived_controls
  arrived-control o o1 g =
      ap (λ (d : List Queued). drop (length o.control_queue) d) g.control_queue
      ∙ drop-append_length o.control_queue g.arrived_controls (length o.control_queue) refl

  -- A writer that has returned stays so, and sends nothing.
  advance_closed :
      (o : Outbound t) (works : Bool) → is_closed t o ≡ true → advance t o works ≡ (o, [])
  unfolding advance
  advance_closed o works e = from o.phase e
    where
      from :
          (phase : Phase)
          → elim phase [ loops ↦ false | sleeps ↦ false | returned r ↦ true ] ≡ true
          → elim phase [
            | loops ↦ turn t o works
            | sleeps ↦ (wake t o, [])
            | returned result ↦ (o, [])
          ]
            ≡ (o, [])
      from loops q = cc
      from sleeps q = cc
      from (returned r) q = refl

  move_closed :
      (o : Outbound t) (e : Move t wire)
      → is_closed t o ≡ true
      → (is_closed t (move t wire o e).0 ≡ true) × ((move t wire o e).1 ≡ [])
  unfolding move
  move_closed o (sends value) e = ((sends_grow o value).grown.closed ∙ e, refl)
  move_closed o (tries value) e = ((tries_grow o value).grown.closed ∙ e, refl)
  move_closed o enters e = ((enters_grow o).grown.closed ∙ e, refl)
  move_closed o drops_senders e = ((drops_grow o).grown.closed ∙ e, refl)
  move_closed o (advances works) e = let q = advance_closed o works e in rw q (e, refl)

  pub move_all_closed :
      (o : Outbound t) (es : List (Move t wire))
      → is_closed t o ≡ true
      → (is_closed t (move_all t wire o es).0 ≡ true) × ((move_all t wire o es).1 ≡ [])
  unfolding move_all
  move_all_closed o [] e = (e, refl)
  move_all_closed o (m ∷ es) e =
      let (c, silent) = move_closed o m e in
      let rest = move_all_closed (move t wire o m).0 es c in (rest.0, rw (silent, rest.1) refl)

  module _ (l : Laws t) where
    Grows-After :
        (n : ℕ) (o : Outbound t) (r : Channel t) (e : Move t wire)
        → Grows o e
        → Steady wire t l (suc n) o r
        → After wire t l n false
            (unsent wire t l o ++ drop (length o.data_queue) (move t wire o e).0.data_queue)
            (o.control_queue ++ drop (length o.control_queue) (move t wire o e).0.control_queue)
            (move t wire o e).0
            (move t wire o e).1
            r
    Grows-After n o r e g s =
        rw
          (
            g.silent,
            arrived-Grown o (move t wire o e).0 g.grown,
            arrived-control o (move t wire o e).0 g.grown,
          )
          (Grown-After wire t l n o (move t wire o e).0 r g.grown s)

    pub move-After :
        (n : ℕ) (o : Outbound t) (r : Channel t) (e : Move t wire)
        → Steady wire t l (suc n) o r
        → After wire t l n
            (may_end o e)
            (unsent wire t l o ++ arrivals o e)
            (o.control_queue ++ control_arrivals o e)
            (move t wire o e).0
            (move t wire o e).1
            r
    unfolding move
    move-After n o r (sends value) s = Grows-After n o r (sends value) (sends_grow o value) s
    move-After n o r (tries value) s = Grows-After n o r (tries value) (tries_grow o value) s
    move-After n o r enters s = Grows-After n o r enters (enters_grow o) s
    move-After n o r drops_senders s = Grows-After n o r drops_senders (drops_grow o) s
    move-After n o r (advances works) s =
        rw (append-nil (unsent wire t l o), append-nil o.control_queue)
          (advance-After wire t l n o r works s)
