-- ===== src/Secure/Writer/Cycle.antt =====
-- A whole turn of the writer's loop, and its next move in any phase, as the peer sees them.
use webmux.Base.{
  suc, ℕ, ◌≡◌, refl, sym, ap, subst, ◌∙◌, Bool, not, ◌||◌, none, List, [], ◌∷◌, ◌++◌, string_key,
}
use mathlib.Core.List.{append_assoc}
use webmux.Secure.Noise.{Transport, Laws}
use webmux.Secure.Channel.{Channel}
use webmux.Secure.Writer.{Queued, choose}
use webmux.Secure.Writer.Order.{started, choose-order}
use webmux.Secure.Writer.Chosen.{choose-Takes}
use webmux.Secure.Writer.Queues.{WireMessage, Outbound, Phase, loops, sleeps, returned}
use webmux.Secure.Writer.Turns.{pull, try_recv, transmit, turn, wake, advance}
use webmux.Secure.Writer.Steady.{IsNew}
use webmux.Secure.Writer.Budget.{choose-weights}
use webmux.Secure.Writer.Handover.{pull-append, pull-All, unsent, Steady, After}
use webmux.Secure.Writer.Rounds.{still, from_choice, from_control, wake_control-After}

module _ {M : Type 0} (wire : WireMessage M) (t : Transport) (l : Laws t) where
  -- The messages pulled in are still those that are due, in order.
  abbrev pub pulled : Outbound t → Outbound t
  pulled o = record o {
    data_queue = (pull o.writer.waiting o.data_queue).1;
    writer = record o.writer { waiting = (pull o.writer.waiting o.data_queue).0 };
  }

  unsent-pulled : (o : Outbound t) → unsent wire t l (pulled o) ≡ unsent wire t l o
  unsent-pulled o =
      let w = o.writer in
      let p = pull w.waiting o.data_queue in
      append_assoc (started w.bulk) p.0 p.1
      ∙ ap (λ (x : List Queued). started w.bulk ++ x) (pull-append w.waiting o.data_queue)
      ∙ sym (append_assoc (started w.bulk) w.waiting o.data_queue)

  pub pulled-Steady :
      (n : ℕ) (o : Outbound t) (r : Channel t)
      → Steady wire t l n o r
      → Steady wire t l n (pulled o) r
  pulled-Steady n o r s =
      let both = pull-All IsNew o.writer.waiting o.data_queue s.new_waiting s.new_data in
      record {
        synced = s.synced;
        ids = s.ids;
        nonces = s.nonces;
        new_data = both.1;
        new_entering = s.new_entering;
        new_waiting = both.0;
        controls = s.controls;
        holds = s.holds;
      }

  module _ (n : ℕ) (o : Outbound t) (r : Channel t) (s : Steady wire t l (suc n) o r) where
    turn_from :
        (works : Bool) (controls : List Queued)
        → o.control_queue ≡ controls
        → let (urgent, rest) = try_recv controls in
          let (w, next) = choose o.writer urgent in
          let p = transmit t (record o { control_queue = rest; writer = w }) works next in
          After wire t l n
            (not works || not o.has_sender)
            (unsent wire t l o)
            o.control_queue
            p.0
            p.1
            r
    unfolding choose
    turn_from works [] e =
        let (w, next) = choose o.writer none in
        let ends : List Queued → Type 0 = λ (c : List Queued).
          let p = transmit t (record o { control_queue = c; writer = w }) works next in
          After wire t l n (not works || not o.has_sender) (unsent wire t l o) o.control_queue p.0
            p.1 r in
        subst ends e (
          from_choice wire t l n o r s works w next (choose-Takes IsNew o.writer s.new_waiting)
            (λ k. choose-order k o.writer) (λ g. choose-weights g o.writer))
    turn_from works (q ∷ qs) e = from_control wire t l n o r s works q qs e

  turn-After :
      (n : ℕ) (o : Outbound t) (r : Channel t) (works : Bool)
      → Steady wire t l (suc n) o r
      → After wire t l n
          (not works || not o.has_sender)
          (unsent wire t l o)
          o.control_queue
          (turn t o works).0
          (turn t o works).1
          r
  unfolding turn
  turn-After n o r works s =
      subst
        (λ due.
          After wire t l n (not works || not o.has_sender) due o.control_queue (turn t o works).0
            (turn t o works).1 r)
        (unsent-pulled o)
        (turn_from n (pulled o) r (pulled-Steady (suc n) o r s) works o.control_queue refl)

  advance_as :
      (n : ℕ) (o : Outbound t) (r : Channel t) (works : Bool) (phase : Phase)
      → Steady wire t l (suc n) o r
      → let p : Outbound t × List (List ℕ) = elim phase [
        | loops ↦ turn t o works
        | sleeps ↦ (wake t o, [])
        | returned result ↦ (o, [])
      ] in
        After wire t l n
          (not works || not o.has_sender)
          (unsent wire t l o)
          o.control_queue
          p.0
          p.1
          r
  unfolding wake
  advance_as n o r works loops s = turn-After n o r works s
  advance_as n o r works sleeps s =
      wake_control-After wire t l n o r s (not works) o.control_queue refl
  advance_as n o r works (returned result) s =
      still wire t l n _ o o r (unsent wire t l o) o.control_queue s refl s.new_data s.new_entering
        s.new_waiting s.controls s.holds (λ k d. refl) (λ f. refl)

  pub advance-After :
      (n : ℕ) (o : Outbound t) (r : Channel t) (works : Bool)
      → Steady wire t l (suc n) o r
      → After wire t l n
          (not works || not o.has_sender)
          (unsent wire t l o)
          o.control_queue
          (advance t o works).0
          (advance t o works).1
          r
  unfolding advance
  advance-After n o r works s = advance_as n o r works o.phase s
