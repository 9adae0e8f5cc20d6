-- ===== src/Secure/Writer/Emptied.antt =====
-- Senders that have sent, and a writer that goes on alone: the peer has everything.
use webmux.Base.{
  zero, suc, ℕ, ◌+◌, ◌^◌, ◌≤◌, ◌<◌, ◌⊎◌, inl, inr, String, ◌≡◌, refl, sym, ap, subst, ◌∙◌, true,
  false, Option, none, some, List, [], ◌∷◌, ◌++◌, All, arith, length, nat_key, ok,
}
use mathlib.Core.List.{append-nil}
use webmux.Base.Map.{get}
use webmux.Secure.Noise.{Transport, Laws}
use webmux.Secure.Channel.{Channel}
use webmux.Secure.Channel.Hop.{Synced}
use webmux.Secure.Channel.RoundTrip.{decode_stream}
use webmux.Secure.Writer.{Queued, Writer}
use webmux.Secure.Writer.Order.{started, pending}
use webmux.Secure.Writer.Queues.{
  WireMessage, Outbound, queue, is_closed, Phase, loops, sleeps, returned, weights,
}
use webmux.Secure.Writer.Turns.{Move, sends, tries, enters, drops_senders, advances, move, move_all}
use webmux.Secure.Writer.Steady.{IsNew, Holds}
use webmux.Secure.Writer.Arrivals.{Grown, IsControl}
use webmux.Secure.Writer.Handover.{amount, bodies, texts, IsDataKey, unsent, Steady}
use webmux.Secure.Writer.Peer.{
  all_arrivals, all_control_arrivals, may_end, ever_may_end, move-After, sends_grow, tries_grow,
  enters_grow, drops_grow,
}
use webmux.Secure.Writer.Budget.{weights-append}
use webmux.Secure.Writer.Work.{bytes_left, work, moves_left, IsAtRest, Drains}
use webmux.Secure.Writer.Drain.{advance-Drains}
use webmux.Secure.Writer.Delivered.{delivered_in_order}

module _ {M : Type 0} (wire : WireMessage M) (t : Transport) where
  -- Moves of the writer alone, with a sink that works.
  abbrev pub undisturbed : ℕ → List (Move t wire)
  undisturbed zero = []
  undisturbed (suc n) = advances true ∷ undisturbed n

module _ {M : Type 0} (wire : WireMessage M) (t : Transport) (l : Laws t) where
  -- The writer runs, is not at its end, and holds no message where it sleeps.
  record Running (n : ℕ) (o : Outbound t) (r : Channel t) : Type 0 where
    steady : Steady wire t l n o r
    running : is_closed t o ≡ false
    at_rest : IsAtRest t o

  Grown-AtRest : (o o1 : Outbound t) → Grown wire t o o1 → IsAtRest t o → IsAtRest t o1
  Grown-AtRest o o1 g h =
      subst
        (λ (p : Phase). elim p [
          | loops ↦ Unit {0}
          | sleeps ↦ pending o1.writer ≡ []
          | returned x ↦ Unit {0}
        ])
        (sym g.phase)
        (subst
          (λ (w : Writer). elim o.phase [
            | loops ↦ Unit {0}
            | sleeps ↦ pending w ≡ []
            | returned x ↦ Unit {0}
          ])
          (sym g.writer) h)

  -- A move at which the writer cannot return.
  move-open :
      (n : ℕ) (o : Outbound t) (r : Channel t) (e : Move t wire)
      → Running (suc n) o r
      → may_end wire t o e ≡ false
      → (is_closed t (move t wire o e).0 ≡ false) × IsAtRest t (move t wire o e).0
  unfolding move
  move-open n o r (sends value) h b =
      let g = (sends_grow wire t o value).grown in
      (g.closed ∙ h.running, Grown-AtRest o _ g h.at_rest)
  move-open n o r (tries value) h b =
      let g = (tries_grow wire t o value).grown in
      (g.closed ∙ h.running, Grown-AtRest o _ g h.at_rest)
  move-open n o r enters h b =
      let g = (enters_grow wire t o).grown in (g.closed ∙ h.running, Grown-AtRest o _ g h.at_rest)
  move-open n o r drops_senders h b =
      let g = (drops_grow wire t o).grown in (g.closed ∙ h.running, Grown-AtRest o _ g h.at_rest)
  move-open n o r (advances true) h b =
      let (c, rest, less) =
        advance-Drains wire t l n o r h.steady h.running h.at_rest (ground (arith, b)) in
      (c, rest)
  move-open n o r (advances false) h b = cc

  move-Running :
      (n : ℕ) (o : Outbound t) (r : Channel t) (e : Move t wire)
      → Running (suc n) o r
      → may_end wire t o e ≡ false
      → (r1 : Channel t) × Running n (move t wire o e).0 r1
  move-Running n o r e h b =
      let a = move-After wire t l n o r e h.steady in
      let (c, rest) = move-open n o r e h b in
      elim a.outcome [
        | inl (may, closed, none_handed) ↦ cc
        | inr (steady, order, same) ↦
            (a.r1, record { steady = steady; running = c; at_rest = rest })
      ]

  move_all-Running :
      (o : Outbound t) (r : Channel t) (es : List (Move t wire))
      → Running (length es) o r
      → ever_may_end wire t o es ≡ false
      → (r1 : Channel t) × Running 0 (move_all t wire o es).0 r1
  unfolding move_all ever_may_end
  move_all-Running o r [] h b = (r, h)
  move_all-Running o r (e ∷ es) h b =
      let (r1, h1) = move-Running (length es) o r e h (ground (arith, b)) in
      move_all-Running (move t wire o e).0 r1 es h1 (ground (arith, b))

  move-Drains :
      (n : ℕ) (o : Outbound t) (r : Channel t)
      → Running (suc n) o r
      → o.has_sender ≡ true
      → Drains t o (move t wire o (advances true)).0
  unfolding move
  move-Drains n o r h sender = advance-Drains wire t l n o r h.steady h.running h.at_rest sender

  new_nothing : (qs : List Queued) → All IsNew qs → weights bytes_left qs ≡ 0 → qs ≡ []
  new_nothing [] h e = refl
  new_nothing (q ∷ qs) h e = absurd (omega (arith, e, h.0.at_start, h.0.filled))

  bulk_nothing :
      (s r : Channel t) (b : Option Queued)
      → Holds t l s r b
      → weights bytes_left (started b) ≡ 0
      → started b ≡ []
  bulk_nothing s r none h e = refl
  bulk_nothing s r (some b) h e = absurd (omega (arith, e, h.sending.unfinished))

  -- Where no byte is left to send, no message is.
  nothing_left :
      (o : Outbound t) (r : Channel t) (n : ℕ)
      → Steady wire t l n o r
      → work t o ≡ 0
      → unsent wire t l o ≡ []
  nothing_left o r n s e =
      let w = o.writer in
      let sum = weights-append bytes_left (started w.bulk) w.waiting in
      let none_under_way = bulk_nothing o.channel r w.bulk s.holds (omega (arith, e, sum)) in
      let none_waiting = new_nothing w.waiting s.new_waiting (omega (arith, e, sum)) in
      let none_queued = new_nothing o.data_queue s.new_data (omega (arith, e)) in
      ap (λ (x : List Queued). (x ++ w.waiting) ++ o.data_queue) none_under_way
      ∙ ap (λ (x : List Queued). x ++ o.data_queue) none_waiting
      ∙ none_queued

  controls_nothing :
      (qs : List Queued) → All (IsControl wire) qs → weights bytes_left qs ≡ 0 → qs ≡ []
  controls_nothing [] h e = refl
  controls_nothing (q ∷ qs) h e = absurd (omega (arith, e, h.0.new.at_start, h.0.new.filled))

  no_controls_left :
      (o : Outbound t) (r : Channel t) (n : ℕ)
      → Steady wire t l n o r
      → work t o ≡ 0
      → o.control_queue ≡ []
  no_controls_left o r n s e = controls_nothing o.control_queue s.controls (omega (arith, e))

  work-le-moves : (o : Outbound t) → work t o ≤ moves_left t o
  work-le-moves o = as_phase o.phase
    where
      as_phase :
          (phase : Phase)
          → work t o
            ≤ elim phase [ loops ↦ work t o | sleeps ↦ suc (work t o) | returned x ↦ work t o ]
      as_phase loops = omega arith
      as_phase sleeps = omega arith
      as_phase (returned x) = omega arith

  moves-le-work : (o : Outbound t) → moves_left t o ≤ suc (work t o)
  moves-le-work o = as_phase o.phase
    where
      as_phase :
          (phase : Phase)
          → elim phase [ loops ↦ work t o | sleeps ↦ suc (work t o) | returned x ↦ work t o ]
            ≤ suc (work t o)
      as_phase loops = omega arith
      as_phase sleeps = omega arith
      as_phase (returned x) = omega arith

  drained :
      (n : ℕ) (o : Outbound t) (r : Channel t)
      → Running (length (undisturbed wire t n)) o r
      → ever_may_end wire t o (undisturbed wire t n) ≡ false
      → (work t o ≡ 0) ⊎ (moves_left t o ≤ n)
      → work t (move_all t wire o (undisturbed wire t n)).0 ≡ 0
  unfolding move_all ever_may_end
  drained zero o r h b enough = omega (arith, enough, work-le-moves o)
  drained (suc n) o r h b enough =
      let (r1, h1) =
        move-Running (length (undisturbed wire t n)) o r (advances true) h (ground (arith, b)) in
      let o1 = (move t wire o (advances true)).0 in
      let d = move-Drains (length (undisturbed wire t n)) o r h (ground (arith, b)) in
      drained n o1 r1 h1 (ground (arith, b)) (elim d.2 [
        | inl z ↦ inl z
        | inr less ↦ elim enough [
          | inl z ↦ inl (omega (arith, z, less, moves-le-work o, work-le-moves o1))
          | inr le ↦ inr (omega (arith, less, le))
        ]
      ])

  queue-Running :
      (s r : Channel t) (n : ℕ)
      → Synced t l s r
      → ((i : ℕ) → get i r.pending ≡ none)
      → s.next_id + n < 2 ^ 64
      → n ≤ l.nonces_left s.transport
      → Running n (queue t s) r
  unfolding queue
  queue-Running s r n y idle ids nonces = record {
    steady = record {
      synced = y;
      ids = ids;
      nonces = nonces;
      new_data = tt;
      new_entering = tt;
      new_waiting = tt;
      controls = tt;
      holds = idle;
    };
    running = refl;
    at_rest = tt;
  }

  -- What the peer makes of all records of a run: just the messages `due` and `controls`, each as often,
  -- whatever is counted of their keys and bytes, and those of the key in order.
  pub record Complete (k : String) (r : Channel t) (due controls : List Queued)
      (records : List (List ℕ)) : Type 0 where
    pub r' : Channel t
    pub handed : List Queued
    pub decoded : decode_stream t r records ≡ (r', ok (bodies handed))
    pub all_in_order : texts k handed ≡ texts k due
    pub the_same : (f : String → List ℕ → ℕ) → amount f handed ≡ amount f due + amount f controls

  all_drained :
      (o : Outbound t) (r : Channel t) (es : List (Move t wire)) (n : ℕ)
      → Running (length (es ++ undisturbed wire t n)) o r
      → ever_may_end wire t o (es ++ undisturbed wire t n) ≡ false
      → moves_left t (move_all t wire o es).0 ≤ n
      → work t (move_all t wire o (es ++ undisturbed wire t n)).0 ≡ 0
  unfolding move_all ever_may_end
  all_drained o r [] n h b enough = drained n o r h b (inr enough)
  all_drained o r (e ∷ es) n h b enough =
      let (r1, h1) =
        move-Running (length (es ++ undisturbed wire t n)) o r e h (ground (arith, b)) in
      all_drained (move t wire o e).0 r1 es n h1 (ground (arith, b)) enough

  module _ (k : String) (d : IsDataKey wire t l k) where
    -- On a new queue over a channel in step with the peer's, which has no message under way, and with
    -- an id and a nonce left for each move: where the sink works and a sender is left at each move of
    -- the writer, whatever the senders send and however they and the writer take turns, and when at
    -- the end the writer moves alone, once for each byte that is left and once to wake, the peer has
    -- opened every record, and has handed on exactly the messages that entered the two queues, whole and
    -- each once, and those of a key that no control message has in order.
    pub all_delivered :
        (s r : Channel t) (es : List (Move t wire)) (n : ℕ)
        → Synced t l s r
        → ((i : ℕ) → get i r.pending ≡ none)
        → s.next_id + length (es ++ undisturbed wire t n) < 2 ^ 64
        → length (es ++ undisturbed wire t n) ≤ l.nonces_left s.transport
        → ever_may_end wire t (queue t s) (es ++ undisturbed wire t n) ≡ false
        → moves_left t (move_all t wire (queue t s) es).0 ≤ n
        → Complete k r
            (all_arrivals wire t (queue t s) (es ++ undisturbed wire t n))
            (all_control_arrivals wire t (queue t s) (es ++ undisturbed wire t n))
            (move_all t wire (queue t s) (es ++ undisturbed wire t n)).1
    all_delivered s r es n y idle ids nonces b enough =
        let all = es ++ undisturbed wire t n in
        let o = queue t s in
        let h = queue-Running s r (length all) y idle ids nonces in
        let reached = delivered_in_order wire t l k d s r all y idle ids nonces in
        let (r1, last) = move_all-Running o r all h b in
        let no_work = all_drained o r es n h b enough in
        let none_left = nothing_left (move_all t wire o all).0 r1 0 last.steady no_work in
        let no_controls = no_controls_left (move_all t wire o all).0 r1 0 last.steady no_work in
        record {
          r' = reached.r';
          handed = reached.handed;
          decoded = reached.decoded;
          all_in_order = elim reached.kept [
            | inl may ↦ cc
            | inr same ↦
                sym (append-nil (texts k reached.handed))
                ∙ ap (λ (x : List Queued). texts k reached.handed ++ texts k x)
                    (sym (same.0 ∙ none_left))
                ∙ reached.in_order
          ];
          the_same = λ f. elim reached.kept [
            | inl may ↦ cc
            | inr same ↦ omega (
              arith,
              reached.the_same f,
              ap (amount f) (same.0 ∙ none_left),
              ap (amount f) (same.1 ∙ no_controls),
            )
          ];
        }
