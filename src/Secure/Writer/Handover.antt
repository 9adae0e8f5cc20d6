-- ===== src/Secure/Writer/Handover.antt =====
-- One move of the system of senders and writer, as the peer sees it.
use webmux.Base.{
  suc, ℕ, ◌+◌, ◌^◌, ◌≤◌, ◌<◌, ◌⊎◌, inl, inr, String, ◌≡◌, ◌≢◌, refl, sym, ap, subst, ◌∙◌, Bool,
  true, false, not, ◌||◌, none, some, List, [], ◌∷◌, ◌++◌, All, All-append, arith, length, ltb,
  if◌then◌else◌, Bool-cases, string_key, ok,
}
use mathlib.Core.List.{append_assoc}
use webmux.Secure.Noise.{Transport, Laws}
use webmux.Secure.Channel.{Channel, OutgoingMessage, finished}
use webmux.Secure.Channel.Hop.{delivered, Synced}
use webmux.Secure.Channel.RoundTrip.{decode_stream, decode_stream_step, and_then}
use webmux.Secure.Writer.{Queued, Writer, put_back}
use webmux.Secure.Writer.Order.{of_key, of_key-append, pending}
use webmux.Secure.Writer.Queues.{WireMessage, Outbound, is_closed, weights}
use webmux.Secure.Writer.Turns.{pull, transmit, transmit_encoded, settle_sent, stop}
use webmux.Secure.Writer.Steady.{IsNew, Holds, Sent}
use webmux.Secure.Writer.Arrivals.{IsControl, Grown}

-- The bytes of the messages of a key, in order.
abbrev pub bodies : List Queued → List (List ℕ)
bodies [] = []
bodies (q ∷ qs) = q.message.content ∷ bodies qs

abbrev pub texts : String → List Queued → List (List ℕ)
texts k l = bodies (of_key k l)

-- Whatever is counted of the keys and the bytes of messages.
abbrev pub amount : (String → List ℕ → ℕ) → List Queued → ℕ
amount f = weights (λ q. f q.key q.message.content)

pub bodies-append : (xs ys : List Queued) → bodies (xs ++ ys) ≡ bodies xs ++ bodies ys
bodies-append [] ys = refl
bodies-append (x ∷ xs) ys = ap (◌∷◌ x.message.content) (bodies-append xs ys)

pub texts-append :
    (k : String) (xs ys : List Queued) → texts k (xs ++ ys) ≡ texts k xs ++ texts k ys
texts-append k xs ys = ap bodies (of_key-append k xs ys) ∙ bodies-append (of_key k xs) (of_key k ys)

pub pull-append :
    (waiting queue : List Queued)
    → (pull waiting queue).0 ++ (pull waiting queue).1 ≡ waiting ++ queue
unfolding pull
pull-append waiting [] = refl
pull-append waiting (q ∷ queue) = elim (Bool-cases (ltb (length waiting) 64)) [
  | inl room ↦ rw room (pull-append (waiting ++ q ∷ []) queue ∙ append_assoc waiting (q ∷ []) queue)
  | inr full ↦ rw full refl
]

module _ (P : Queued → Type 0) where
  pub pull-All :
      (waiting queue : List Queued)
      → All P waiting
      → All P queue
      → All P (pull waiting queue).0 × All P (pull waiting queue).1
  unfolding pull
  pull-All waiting [] a b = (a, tt)
  pull-All waiting (q ∷ queue) a b = elim (Bool-cases (ltb (length waiting) 64)) [
    | inl room ↦
        rw room (pull-All (waiting ++ q ∷ []) queue (All-append P waiting (q ∷ []) a (b.0, tt)) b.1)
    | inr full ↦ rw full (a, b)
  ]

module _ {M : Type 0} (wire : WireMessage M) (t : Transport) (l : Laws t) where
  -- A key that no control message has.
  abbrev pub IsDataKey : String → Type 0
  IsDataKey k = (value : M) → wire.control value ≡ true → wire.key value ≢ k

  -- What the senders were promised and the peer has not got.
  abbrev pub unsent : Outbound t → List Queued
  unsent o = pending o.writer ++ o.data_queue

  -- The writer runs in step with the peer, and has ids and nonces for `n` more moves.
  pub record Steady (n : ℕ) (o : Outbound t) (r : Channel t) : Type 0 where
    pub synced : Synced t l o.channel r
    pub ids : o.channel.next_id + n < 2 ^ 64
    pub nonces : n ≤ l.nonces_left o.channel.transport
    pub new_data : All IsNew o.data_queue
    pub new_entering : All IsNew o.entering
    pub new_waiting : All IsNew o.writer.waiting
    pub controls : All (IsControl wire) o.control_queue
    pub holds : Holds t l o.channel r o.writer.bulk

  -- What the peer makes of the records of a move, and what follows: the writer has returned, if it may,
  -- or what was handed on and what is left are what was due: in order key by key, and in all, the
  -- control messages too, each as often.
  pub record After (n : ℕ) (may_end : Bool) (due controls : List Queued) (o1 : Outbound t)
      (records : List (List ℕ)) (r : Channel t) : Type 0 where
    pub r1 : Channel t
    pub handed : List Queued
    pub decoded :
        (rest : List (List ℕ)) (r2 : Channel t) (messages : List (List ℕ))
        → decode_stream t r1 rest ≡ (r2, ok messages)
        → decode_stream t r (records ++ rest) ≡ (r2, ok (bodies handed ++ messages))
    pub outcome :
        ((may_end ≡ true) × (is_closed t o1 ≡ true) × (handed ≡ []))
        ⊎ (Steady n o1 r1
            × ((k : String) → IsDataKey k → texts k handed ++ texts k (unsent o1) ≡ texts k due)
            × ((f : String → List ℕ → ℕ)
                → amount f handed + (amount f (unsent o1) + amount f o1.control_queue)
                  ≡ amount f due + amount f controls))

  Grown-unsent : (o o1 : Outbound t) (g : Grown wire t o o1) → unsent o1 ≡ unsent o ++ g.arrived
  Grown-unsent o o1 g =
      ap (λ (w : Writer). pending w ++ o1.data_queue) g.writer
      ∙ ap (λ (d : List Queued). pending o.writer ++ d) g.data_queue
      ∙ sym (append_assoc (pending o.writer) o.data_queue g.arrived)

  pub Grown-After :
      (n : ℕ) (o o1 : Outbound t) (r : Channel t) (g : Grown wire t o o1)
      → Steady (suc n) o r
      → After n false (unsent o ++ g.arrived) (o.control_queue ++ g.arrived_controls) o1 [] r
  Grown-After n o o1 r g s = record {
    r1 = r;
    handed = [];
    decoded = λ rest r2 messages e. e;
    outcome = inr (
      record {
        synced = subst (λ c. Synced t l c r) (sym g.channel) s.synced;
        ids = omega (arith, ap (λ (c : Channel t). c.next_id) g.channel, s.ids);
        nonces =
            omega (arith, ap (λ (c : Channel t). l.nonces_left c.transport) g.channel, s.nonces);
        new_data = (g.new s.new_data s.new_entering).0;
        new_entering = (g.new s.new_data s.new_entering).1;
        new_waiting = subst (λ (w : Writer). All IsNew w.waiting) (sym g.writer) s.new_waiting;
        controls = g.controls s.controls;
        holds =
            subst (λ c. Holds t l c r o1.writer.bulk) (sym g.channel)
              (subst (λ (w : Writer). Holds t l o.channel r w.bulk) (sym g.writer) s.holds);
      },
      λ k d. ap (texts k) (Grown-unsent o o1 g),
      λ f. omega (arith, ap (amount f) (Grown-unsent o o1 g), ap (amount f) g.control_queue),
    );
  }

  and_then_ok :
      (r : Channel t) (first : List (List ℕ)) (rest : List (List ℕ)) (r2 : Channel t)
      (messages : List (List ℕ))
      → decode_stream t r rest ≡ (r2, ok messages)
      → and_then t (r, ok first) (λ c. decode_stream t c rest) ≡ (r2, ok (first ++ messages))
  unfolding and_then
  and_then_ok r first rest r2 messages e = rw e refl

  delivered-bodies :
      (x : Queued) (m : OutgoingMessage)
      → delivered m
        ≡ bodies (elim (finished m) [ true ↦ (record x { message = m }) ∷ [] | false ↦ [] ])
  delivered-bodies x m = elim (Bool-cases (finished m)) [
    | inl done ↦ rw done refl
    | inr more ↦ rw more refl
  ]

  put_back-All :
      (P : Queued → Type 0) (w : Writer) (x : Queued)
      → All P w.waiting
      → All P (put_back w x).waiting
  unfolding put_back
  put_back-All P w x h = elim (Bool-cases (finished x.message)) [
    | inl done ↦ rw done h
    | inr more ↦ rw more h
  ]

  -- The messages of a key, with one that is taken before them.
  abbrev pub texts_with : String → Queued → List Queued → List (List ℕ)
  texts_with k x rest =
      if string_key.eq x.key k then x.message.content ∷ texts k rest else texts k rest

  -- What follows from the choice of a message, before its fragment is sent.
  pub record Chosen (o : Outbound t) (r : Channel t) (before controls : List Queued) (x : Queued)
      : Type 0 where
    pub sent : Sent t l o.channel r o.writer x
    pub in_order : (k : String) → IsDataKey k → texts k before ≡ texts_with k x (unsent o)
    pub the_same :
        (f : String → List ℕ → ℕ)
        → amount f before + amount f controls
          ≡ f x.key x.message.content + (amount f (unsent o) + amount f o.control_queue)

  module _ (n : ℕ) (o : Outbound t) (r : Channel t) (before due_controls : List Queued) (x : Queued)
      (new_data : All IsNew o.data_queue) (new_entering : All IsNew o.entering)
      (new_waiting : All IsNew o.writer.waiting) (controls : All (IsControl wire) o.control_queue)
      (ids : o.channel.next_id + suc n < 2 ^ 64)
      (nonces : suc n ≤ l.nonces_left o.channel.transport)
      (c : Chosen o r before due_controls x) where
    sent_order :
        (k : String) (m : OutgoingMessage)
        → m.content ≡ x.message.content
        → (finished m ≡ false → o.writer.bulk ≡ none)
        → let x' = record x { message = m } in
          texts k (elim (finished m) [ true ↦ x' ∷ [] | false ↦ [] ])
            ++ texts k (pending (put_back o.writer x') ++ o.data_queue)
          ≡ texts_with k x (unsent o)
    unfolding put_back
    sent_order k m e alone = elim (Bool-cases (finished m)) [
      | inl done ↦ rw done (ground (arith, e))
      | inr more ↦ rw (more, alone more) (ground (arith, e))
    ]

    sent_amount :
        (f : String → List ℕ → ℕ) (m : OutgoingMessage)
        → m.content ≡ x.message.content
        → (finished m ≡ false → o.writer.bulk ≡ none)
        → let x' = record x { message = m } in
          amount f (elim (finished m) [ true ↦ x' ∷ [] | false ↦ [] ])
            + amount f (pending (put_back o.writer x') ++ o.data_queue)
          ≡ f x.key x.message.content + amount f (unsent o)
    unfolding put_back
    sent_amount f m e alone = elim (Bool-cases (finished m)) [
      | inl done ↦ rw done (omega (arith, ap (f x.key) e))
      | inr more ↦ rw (more, alone more) (omega (arith, ap (f x.key) e))
    ]

    transmit_works :
        (b : Bool)
        → After n b before due_controls
            (transmit t o true (some x)).0
            (transmit t o true (some x)).1
            r
    unfolding transmit transmit_encoded settle_sent
    transmit_works b =
        let (h, holds, alone) = c.sent in
        let x' : Queued = record x { message = h.m' } in
        let handed : List Queued = elim (finished h.m') [ true ↦ x' ∷ [] | false ↦ [] ] in
        rw h.sent (record {
          r1 = h.r';
          handed = handed;
          decoded = λ rest r2 messages e.
              decode_stream_step t r h.r' h.sealed (delivered h.m') rest h.opened
              ∙ and_then_ok h.r' (delivered h.m') rest r2 messages e
              ∙ ap (λ (d : List (List ℕ)). (r2, ok (d ++ messages))) (delivered-bodies x h.m');
          outcome = inr (
            record {
              synced = h.synced;
              ids = omega (arith, h.ids, ids);
              nonces = omega (arith, h.nonces, nonces);
              new_data = new_data;
              new_entering = new_entering;
              new_waiting = put_back-All IsNew o.writer x' new_waiting;
              controls = controls;
              holds = holds;
            },
            λ k d. sent_order k h.m' h.content alone ∙ sym (c.in_order k d),
            λ f. omega (arith, sent_amount f h.m' h.content alone, c.the_same f),
          );
        })

    transmit_breaks :
        After n true before due_controls
          (transmit t o false (some x)).0
          (transmit t o false (some x)).1
          r
    unfolding transmit transmit_encoded stop
    transmit_breaks =
        let (h, holds, alone) = c.sent in
        rw h.sent (record {
          r1 = r;
          handed = [];
          decoded = λ rest r2 messages e. e;
          outcome = inl (refl, refl, refl);
        })

    pub transmit-After :
        (works gone : Bool)
        → After n
            (not works || gone)
            before
            due_controls
            (transmit t o works (some x)).0
            (transmit t o works (some x)).1
            r
    transmit-After true gone = transmit_works gone
    transmit-After false gone = transmit_breaks
