-- ===== src/Secure/Writer/Delivered.antt =====
-- From the senders on one side to the messages that the peer hands on: the queues, the writer and
-- the two channels together.
use webmux.Base.{
  ℕ, ◌+◌, ◌^◌, ◌≤◌, ◌<◌, ◌⊎◌, inl, inr, String, ◌≡◌, refl, sym, ap, subst, ◌∙◌, Bool, true, ◌||◌,
  none, List, [], ◌∷◌, ◌++◌, arith, length, nat_key, ok,
}
use mathlib.Core.List.{append_assoc, append-nil}
use webmux.Base.Map.{get}
use webmux.Secure.Noise.{Transport, Laws}
use webmux.Secure.Channel.{Channel}
use webmux.Secure.Channel.Hop.{Synced}
use webmux.Secure.Channel.RoundTrip.{decode_stream}
use webmux.Secure.Writer.{Queued}
use webmux.Secure.Writer.Queues.{WireMessage, Outbound, queue, is_closed}
use webmux.Secure.Writer.Turns.{Move, move, move_all}
use webmux.Secure.Writer.Budget.{weights-append}
use webmux.Secure.Writer.Handover.{
  amount, bodies, bodies-append, texts, texts-append, IsDataKey, unsent, Steady, After,
}
use webmux.Secure.Writer.Peer.{
  arrivals, all_arrivals, control_arrivals, all_control_arrivals, may_end, ever_may_end,
  move_all_closed, move-After,
}

module _ {M : Type 0} (wire : WireMessage M) (t : Transport) (l : Laws t) (k : String) where
  -- What the peer makes of all records of a run that has the messages `due` and `controls` to send, or
  -- of a beginning of it: the messages that it hands on, and those that are left, are just these, each
  -- as often, whatever is counted of their keys and bytes; those of the key are handed on in order. What
  -- is left is with the writer or in the queues, unless the writer has returned.
  pub record Reached (r : Channel t) (due controls : List Queued) (may_stop : Bool)
      (run : Outbound t × List (List ℕ)) : Type 0 where
    pub r' : Channel t
    pub handed : List Queued
    pub left : List Queued
    pub left_controls : List Queued
    pub decoded : decode_stream t r run.1 ≡ (r', ok (bodies handed))
    pub in_order : texts k handed ++ texts k left ≡ texts k due
    pub the_same :
        (f : String → List ℕ → ℕ)
        → amount f handed + (amount f left + amount f left_controls)
          ≡ amount f due + amount f controls
    pub kept :
        (may_stop ≡ true) ⊎ ((left ≡ unsent wire t l run.0) × (left_controls ≡ run.0.control_queue))

  module _ (d : IsDataKey wire t l k) where
    -- A first move at which the writer has returned.
    stopped :
        (n : ℕ) (o : Outbound t) (r : Channel t) (e : Move t wire) (es : List (Move t wire))
        (due controls due' controls' : List Queued) (b b' : Bool)
        (a : After wire t l n b due controls (move t wire o e).0 (move t wire o e).1 r)
        → b ≡ true
        → is_closed t (move t wire o e).0 ≡ true
        → a.handed ≡ []
        → Reached r due' controls' (b || b') (move_all t wire o (e ∷ es))
    unfolding move_all decode_stream
    stopped n o r e es due controls due' controls' b b' a may c h =
        let (still_closed, silent) = move_all_closed wire t (move t wire o e).0 es c in
        record {
          r' = a.r1;
          handed = [];
          left = due';
          left_controls = controls';
          decoded =
              rw (silent) (
                a.decoded [] a.r1 [] refl
                ∙ ap (λ (d : List Queued). (a.r1, ok (bodies d ++ []))) h);
          in_order = refl;
          the_same = λ f. omega arith;
          kept = inl (ground (arith, may));
        }

    -- A first move after which the writer goes on.
    went_on :
        (n : ℕ) (o : Outbound t) (r : Channel t) (e : Move t wire) (es : List (Move t wire))
        (due controls : List Queued) (b b' : Bool)
        (a : After wire t l n b due controls (move t wire o e).0 (move t wire o e).1 r)
        → texts k a.handed ++ texts k (unsent wire t l (move t wire o e).0) ≡ texts k due
        → ((f : String → List ℕ → ℕ)
            → let o1 = (move t wire o e).0 in
              amount f a.handed + (amount f (unsent wire t l o1) + amount f o1.control_queue)
              ≡ amount f due + amount f controls)
        → let o1 = (move t wire o e).0 in
          let later = all_control_arrivals wire t o1 es in
          Reached a.r1
            (unsent wire t l o1 ++ all_arrivals wire t o1 es)
            (o1.control_queue ++ later)
            b'
            (move_all t wire o1 es)
          → Reached r
              (due ++ all_arrivals wire t o1 es)
              (controls ++ later)
              (b || b')
              (move_all t wire o (e ∷ es))
    unfolding move_all
    went_on n o r e es due controls b b' a order same rest =
        let o1 = (move t wire o e).0 in
        let more = all_arrivals wire t o1 es in
        let later = all_control_arrivals wire t o1 es in
        record {
          r' = rest.r';
          handed = a.handed ++ rest.handed;
          left = rest.left;
          left_controls = rest.left_controls;
          decoded =
              a.decoded (move_all t wire o1 es).1 rest.r' (bodies rest.handed) rest.decoded
              ∙ ap (λ (d : List (List ℕ)). (rest.r', ok d))
                  (sym (bodies-append a.handed rest.handed));
          in_order = ground (
            arith,
            order,
            rest.in_order,
            texts-append k a.handed rest.handed,
            texts-append k (unsent wire t l o1) more,
            texts-append k due more,
            append_assoc (texts k a.handed) (texts k rest.handed) (texts k rest.left),
            append_assoc (texts k a.handed) (texts k (unsent wire t l o1)) (texts k more),
          );
          the_same = λ f.
              let g : Queued → ℕ = λ x. f x.key x.message.content in
              omega (
                arith,
                same f,
                rest.the_same f,
                weights-append g a.handed rest.handed,
                weights-append g (unsent wire t l o1) more,
                weights-append g due more,
                weights-append g o1.control_queue later,
                weights-append g controls later,
              );
          kept = elim rest.kept [ inl may ↦ inl (ground (arith, may)) | inr q ↦ inr q ];
        }

    reach :
        (o : Outbound t) (r : Channel t) (es : List (Move t wire))
        → Steady wire t l (length es) o r
        → Reached r
            (unsent wire t l o ++ all_arrivals wire t o es)
            (o.control_queue ++ all_control_arrivals wire t o es)
            (ever_may_end wire t o es)
            (move_all t wire o es)
    unfolding move_all all_arrivals all_control_arrivals ever_may_end decode_stream
    reach o r [] s = record {
      r' = r;
      handed = [];
      left = unsent wire t l o;
      left_controls = o.control_queue;
      decoded = refl;
      in_order = ap (texts k) (sym (append-nil (unsent wire t l o)));
      the_same = λ f. omega (
        arith,
        ap (amount f) (append-nil (unsent wire t l o)),
        ap (amount f) (append-nil o.control_queue),
      );
      kept = inr (refl, refl);
    }
    reach o r (e ∷ es) s =
        let a = move-After wire t l (length es) o r e s in
        let o1 = (move t wire o e).0 in
        let due = unsent wire t l o ++ arrivals wire t o e in
        let b = may_end wire t o e in
        let b' = ever_may_end wire t o1 es in
        let controls = o.control_queue ++ control_arrivals wire t o e in
        let later = all_control_arrivals wire t o1 es in
        let more = all_arrivals wire t o1 es in
        let run = move_all t wire o (e ∷ es) in
        let end : Reached r (due ++ more) (controls ++ later) (b || b') run = elim a.outcome [
          | inl (may, closed, none_handed) ↦
              stopped (length es) o r e es due controls (due ++ more) (controls ++ later) b b' a may
                closed none_handed
          | inr (s1, order, same) ↦
              went_on (length es) o r e es due controls b b' a (order k d) same
                (reach o1 a.r1 es s1)
        ] in
        subst
          (λ (x : List Queued).
            Reached r x (o.control_queue ++ (control_arrivals wire t o e ++ later)) (b || b') run)
          (append_assoc (unsent wire t l o) (arrivals wire t o e) more)
          (subst (λ (x : List Queued). Reached r (due ++ more) x (b || b') run)
            (append_assoc o.control_queue (control_arrivals wire t o e) later) end)

    -- On a new queue over a channel in step with the peer's, which has no message under way, and with an
    -- id and a nonce left for each move, whatever the senders send and however they, the writer and its
    -- waits take turns, the peer opens every record and hands on whole messages, none twice and none that
    -- did not enter a queue; of a key that no control message has, the first ones that entered, in order.
    -- The other messages are with the writer or in the queues, unless the sink failed or no sender was
    -- left when the writer moved.
    pub delivered_in_order :
        (s r : Channel t) (es : List (Move t wire))
        → Synced t l s r
        → ((i : ℕ) → get i r.pending ≡ none)
        → s.next_id + length es < 2 ^ 64
        → length es ≤ l.nonces_left s.transport
        → Reached r
            (all_arrivals wire t (queue t s) es)
            (all_control_arrivals wire t (queue t s) es)
            (ever_may_end wire t (queue t s) es)
            (move_all t wire (queue t s) es)
    unfolding queue
    delivered_in_order s r es y idle ids nonces = reach (queue t s) r es (record {
      synced = y;
      ids = ids;
      nonces = nonces;
      new_data = tt;
      new_entering = tt;
      new_waiting = tt;
      controls = tt;
      holds = idle;
    })
