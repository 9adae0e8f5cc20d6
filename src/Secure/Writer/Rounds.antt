-- ===== src/Secure/Writer/Rounds.antt =====
-- What the writer chooses and what it waits for, as the peer sees them.
use webmux.Base.{
  ◌+◌, suc, ℕ, inl, inr, String, ◌≡◌, refl, sym, ap, subst, ◌∙◌, Bool, true, false, not, ◌||◌,
  Option, none, some, List, [], ◌∷◌, ◌++◌, All, All-append, arith, Bool-cases, string_key,
}
use mathlib.Core.List.{append_assoc}
use webmux.Secure.Noise.{Transport, Laws}
use webmux.Secure.Channel.{Channel}
use webmux.Secure.Channel.Hop.{Synced}
use webmux.Secure.Writer.{Queued, Writer}
use webmux.Secure.Writer.Order.{of_key, of_key-append, started, pending, then_rest}
use webmux.Secure.Writer.Chosen.{Takes}
use webmux.Secure.Writer.Queues.{weights, WireMessage, Outbound, is_closed, sleeps}
use webmux.Secure.Writer.Turns.{transmit, stop, wake_data, wake_control}
use webmux.Secure.Writer.Steady.{IsNew, Holds, Sent, new-Sent, bulk-Sent}
use webmux.Secure.Writer.Arrivals.{IsControl}
use webmux.Secure.Writer.Budget.{weights-append, chosen_weight}
use webmux.Secure.Writer.Handover.{
  amount, texts, IsDataKey, unsent, Steady, After, texts_with, transmit-After,
}

module _ {M : Type 0} (wire : WireMessage M) (t : Transport) (l : Laws t) where
  -- A move that leaves the channel alone: the messages that are left are those that were due.
  pub still :
      (n : ℕ) (b : Bool) (o o1 : Outbound t) (r : Channel t) (due controls : List Queued)
      → Steady wire t l (suc n) o r
      → o1.channel ≡ o.channel
      → All IsNew o1.data_queue
      → All IsNew o1.entering
      → All IsNew o1.writer.waiting
      → All (IsControl wire) o1.control_queue
      → Holds t l o.channel r o1.writer.bulk
      → ((k : String) → IsDataKey wire t l k → texts k (unsent wire t l o1) ≡ texts k due)
      → ((f : String → List ℕ → ℕ)
          → amount f (unsent wire t l o1) + amount f o1.control_queue
            ≡ amount f due + amount f controls)
      → After wire t l n b due controls o1 [] r
  still n b o o1 r due controls s e d en w c h order same = record {
    r1 = r;
    handed = [];
    decoded = λ rest r2 messages q. q;
    outcome = inr (
      record {
        synced = subst (λ x. Synced t l x r) (sym e) s.synced;
        ids = omega (arith, ap (λ (x : Channel t). x.next_id) e, s.ids);
        nonces = omega (arith, ap (λ (x : Channel t). l.nonces_left x.transport) e, s.nonces);
        new_data = d;
        new_entering = en;
        new_waiting = w;
        controls = c;
        holds = subst (λ x. Holds t l x r o1.writer.bulk) (sym e) h;
      },
      order,
      λ f. omega (arith, same f),
    );
  }

  ended_here :
      (n : ℕ) (b : Bool) (o1 : Outbound t) (r : Channel t) (due controls : List Queued)
      → b ≡ true
      → is_closed t o1 ≡ true
      → After wire t l n b due controls o1 [] r
  ended_here n b o1 r due controls may e = record {
    r1 = r;
    handed = [];
    decoded = λ rest r2 messages q. q;
    outcome = inl (may, e, refl);
  }

  module _ (n : ℕ) (o : Outbound t) (r : Channel t) (s : Steady wire t l (suc n) o r) where
    order_texts :
        (k : String) (w' : Writer) (next : Option Queued)
        → of_key k (pending o.writer) ≡ then_rest k next (of_key k (pending w'))
        → texts k (unsent wire t l o) ≡ elim next [
          | none ↦ texts k (pending w' ++ o.data_queue)
          | some x ↦ texts_with wire t l k x (pending w' ++ o.data_queue)
        ]
    order_texts k w' none e = ground (
      arith,
      e,
      of_key-append k (pending o.writer) o.data_queue,
      of_key-append k (pending w') o.data_queue,
    )
    order_texts k w' (some x) e = ground (
      arith,
      e,
      of_key-append k (pending o.writer) o.data_queue,
      of_key-append k (pending w') o.data_queue,
    )

    pub choice-Sent :
        (w' : Writer) (x : Queued) → Takes IsNew o.writer w' (some x) → Sent t l o.channel r w' x
    choice-Sent w' x (waiting, inl (new, same, room)) =
        new-Sent t l o.channel r s.synced (omega (arith, s.ids)) (omega (arith, s.nonces)) o.writer
          w' x new same room s.holds
    choice-Sent w' x (waiting, inr (is, gone)) =
        bulk-Sent t l o.channel r s.synced (omega (arith, s.ids)) (omega (arith, s.nonces)) o.writer
          w' x is gone s.holds

    pub control-Sent : (q : Queued) → IsControl wire q → Sent t l o.channel r o.writer q
    control-Sent q first =
        new-Sent t l o.channel r s.synced (omega (arith, s.ids)) (omega (arith, s.nonces)) o.writer
          o.writer q first.new refl (inr first.short) s.holds

    -- What is chosen without a control message.
    pub from_choice :
        (works : Bool) (w' : Writer) (next : Option Queued)
        → Takes IsNew o.writer w' next
        → ((k : String) → of_key k (pending o.writer) ≡ then_rest k next (of_key k (pending w')))
        → ((g : Queued → ℕ)
            → weights g (pending o.writer) ≡ chosen_weight g next + weights g (pending w'))
        → let p = transmit t (record o { writer = w' }) works next in
          After wire t l n
            (not works || not o.has_sender)
            (unsent wire t l o)
            o.control_queue
            p.0
            p.1
            r
    unfolding transmit
    from_choice works w' none (gone, gone', new) e q =
        still n _ o (record o { writer = w'; phase = sleeps }) r (unsent wire t l o) o.control_queue
          s refl s.new_data s.new_entering new s.controls
          (subst (Holds t l o.channel r) (gone ∙ sym gone') s.holds)
          (λ k d. sym (order_texts k w' none (e k)))
          (λ f.
            let g : Queued → ℕ = λ x. f x.key x.message.content in
            omega (
              arith,
              q g,
              weights-append g (pending o.writer) o.data_queue,
              weights-append g (pending w') o.data_queue,
            ))
    from_choice works w' (some x) takes e q =
        transmit-After wire t l n (record o { writer = w' }) r (unsent wire t l o) o.control_queue x
          s.new_data s.new_entering takes.0 s.controls s.ids s.nonces
          (record {
            sent = choice-Sent w' x takes;
            in_order = λ k d. order_texts k w' (some x) (e k);
            the_same = λ f.
                let g : Queued → ℕ = λ y. f y.key y.message.content in
                omega (
                  arith,
                  q g,
                  weights-append g (pending o.writer) o.data_queue,
                  weights-append g (pending w') o.data_queue,
                );
          })
          works (not o.has_sender)

    -- A control message goes before all others.
    pub from_control :
        (works : Bool) (q : Queued) (qs : List Queued)
        → o.control_queue ≡ q ∷ qs
        → let p = transmit t (record o { control_queue = qs }) works (some q) in
          After wire t l n
            (not works || not o.has_sender)
            (unsent wire t l o)
            o.control_queue
            p.0
            p.1
            r
    from_control works q qs e =
        let c = subst (All (IsControl wire)) e s.controls in
        let first : IsControl wire q = c.0 in
        transmit-After wire t l n (record o { control_queue = qs }) r (unsent wire t l o)
          o.control_queue q s.new_data s.new_entering s.new_waiting c.1 s.ids s.nonces
          (record {
            sent = control-Sent q first;
            in_order = λ k d.
                ground (arith, string_key.eq_iff q.key k, d first.value first.control, first.key);
            the_same = λ f. omega (arith, ap (amount f) e);
          })
          works (not o.has_sender)

    wake_data-After :
        (b : Bool) (queue : List Queued)
        → o.data_queue ≡ queue
        → After wire t l n b (unsent wire t l o) o.control_queue (wake_data t o queue) [] r
    unfolding wake_data
    wake_data-After b [] e =
        still n _ o o r (unsent wire t l o) o.control_queue s refl s.new_data s.new_entering
          s.new_waiting s.controls s.holds (λ k d. refl) (λ f. refl)
    wake_data-After b (q ∷ rest) e =
        let d = subst (All IsNew) e s.new_data in
        let w = o.writer in
        still n _ o (wake_data t o (q ∷ rest)) r (unsent wire t l o) o.control_queue s refl d.1
          s.new_entering (All-append IsNew w.waiting (q ∷ []) s.new_waiting (d.0, tt)) s.controls
          s.holds
          (λ k _. ap (texts k) (
            ap (λ (x : List Queued). x ++ rest)
              (sym (append_assoc (started w.bulk) w.waiting (q ∷ [])))
            ∙ append_assoc (pending w) (q ∷ []) rest
            ∙ ap (λ (x : List Queued). pending w ++ x) (sym e)))
          (λ f.
            let g : Queued → ℕ = λ x. f x.key x.message.content in
            omega (
              arith,
              ap (amount f) e,
              weights-append g (started w.bulk ++ (w.waiting ++ q ∷ [])) rest,
              weights-append g (started w.bulk) (w.waiting ++ q ∷ []),
              weights-append g w.waiting (q ∷ []),
              weights-append g (pending w) o.data_queue,
              weights-append g (started w.bulk) w.waiting,
            ))

    pub wake_control-After :
        (b : Bool) (queue : List Queued)
        → o.control_queue ≡ queue
        → After wire t l n
            (b || not o.has_sender)
            (unsent wire t l o)
            o.control_queue
            (wake_control t o queue)
            []
            r
    unfolding wake_control stop
    wake_control-After b [] e = elim (Bool-cases o.has_sender) [
      | inl sender ↦ simp sender (wake_data-After (b || false) o.data_queue refl)
      | inr none_left ↦
          simp none_left
            (ended_here n (b || true) _ r (unsent wire t l o) o.control_queue (ground arith) refl)
    ]
    wake_control-After b (q ∷ rest) e =
        let c = subst (All (IsControl wire)) e s.controls in
        let first : IsControl wire q = c.0 in
        let w = o.writer in
        still n _ o (wake_control t o (q ∷ rest)) r (unsent wire t l o) o.control_queue s refl
          s.new_data s.new_entering (first.new, s.new_waiting) c.1 s.holds
          (λ k d. ground (
            arith,
            string_key.eq_iff q.key k,
            d first.value first.control,
            first.key,
            of_key-append k (started w.bulk ++ q ∷ w.waiting) o.data_queue,
            of_key-append k (started w.bulk) (q ∷ w.waiting),
            of_key-append k (pending w) o.data_queue,
            of_key-append k (started w.bulk) w.waiting,
          ))
          (λ f.
            let g : Queued → ℕ = λ x. f x.key x.message.content in
            omega (
              arith,
              ap (amount f) e,
              weights-append g (started w.bulk ++ q ∷ w.waiting) o.data_queue,
              weights-append g (started w.bulk) (q ∷ w.waiting),
              weights-append g (pending w) o.data_queue,
              weights-append g (started w.bulk) w.waiting,
            ))
