-- ===== src/Secure/Writer/Arrivals.antt =====
-- What the calls of the senders do to the queues.
use webmux.Base.{
  ◌∙◌, ◌-◌, ◌||◌, ℕ, ◌≡◌, refl, sym, ap, subst, Bool, true, false, Option, none, some, List, [],
  ◌∷◌, ◌++◌, All, All-append, Result, ok, err, arith, length, ltb, leb, Bool-cases, inl, inr,
}
use mathlib.Core.List.{append-nil}
use webmux.Secure.Noise.{Transport}
use webmux.Secure.Channel.{is_small, new_message, u32, fragment_bytes}
use webmux.Secure.Writer.{Queued}
use webmux.Secure.Writer.Queues.{
  WireMessage, Refusal, Outbound, is_closed, cost, offer_control, offer_data, send_data,
  enter_first, enter, encoded, queued, try_send_bytes, try_send, send_bytes, send,
}
use webmux.Secure.Writer.Steady.{IsNew}

-- A message whose permit is for just its bytes.
abbrev pub IsPaid : Queued → Type 0
IsPaid q = q.permit ≡ some (length q.message.content)

module _ {M : Type 0} (wire : WireMessage M) where
  -- A new message of one fragment, with the key of a control message.
  pub record IsControl (q : Queued) : Type 0 where
    pub new : IsNew q
    pub short : is_small q.message ≡ true
    pub value : M
    pub control : wire.control value ≡ true
    pub key : wire.key value ≡ q.key
    pub free : q.permit ≡ none

  module _ (t : Transport) where
    -- The queues grow at their ends by new messages, and the writer is where it was.
    pub record Grown (o o1 : Outbound t) : Type 0 where
      pub arrived : List Queued
      pub data_queue : o1.data_queue ≡ o.data_queue ++ arrived
      pub arrived_controls : List Queued
      pub control_queue : o1.control_queue ≡ o.control_queue ++ arrived_controls
      pub writer : o1.writer ≡ o.writer
      pub channel : o1.channel ≡ o.channel
      pub phase : o1.phase ≡ o.phase
      pub closed : is_closed t o1 ≡ is_closed t o
      pub new :
          All IsNew o.data_queue
          → All IsNew o.entering
          → All IsNew o1.data_queue × All IsNew o1.entering
      pub paid :
          All IsPaid o.data_queue
          → All IsPaid o.entering
          → All IsPaid o1.data_queue × All IsPaid o1.entering
      pub controls : All IsControl o.control_queue → All IsControl o1.control_queue

    pub Grown-same : (o : Outbound t) (sender : Bool) → Grown o (record o { has_sender = sender })
    Grown-same o sender = record {
      arrived = [];
      data_queue = sym (append-nil o.data_queue);
      arrived_controls = [];
      control_queue = sym (append-nil o.control_queue);
      writer = refl;
      channel = refl;
      phase = refl;
      closed = refl;
      new = λ a b. (a, b);
      paid = λ a b. (a, b);
      controls = λ c. c;
    }

    unchanged : (o : Outbound t) → Grown o o
    unchanged o = Grown-same o o.has_sender

    Grown-data :
        (o : Outbound t) (q : Queued) (budget : ℕ)
        → IsNew q
        → IsPaid q
        → Grown o (record o { data_queue = o.data_queue ++ q ∷ []; budget = budget })
    Grown-data o q budget h p = record {
      arrived = q ∷ [];
      data_queue = refl;
      arrived_controls = [];
      control_queue = sym (append-nil o.control_queue);
      writer = refl;
      channel = refl;
      phase = refl;
      closed = refl;
      new = λ a b. (All-append IsNew o.data_queue (q ∷ []) a (h, tt), b);
      paid = λ a b. (All-append IsPaid o.data_queue (q ∷ []) a (p, tt), b);
      controls = λ c. c;
    }

    Grown-entering :
        (o : Outbound t) (q : Queued) (budget : ℕ)
        → IsNew q
        → IsPaid q
        → Grown o (record o { entering = o.entering ++ q ∷ []; budget = budget })
    Grown-entering o q budget h p = record {
      arrived = [];
      data_queue = sym (append-nil o.data_queue);
      arrived_controls = [];
      control_queue = sym (append-nil o.control_queue);
      writer = refl;
      channel = refl;
      phase = refl;
      closed = refl;
      new = λ a b. (a, All-append IsNew o.entering (q ∷ []) b (h, tt));
      paid = λ a b. (a, All-append IsPaid o.entering (q ∷ []) b (p, tt));
      controls = λ c. c;
    }

    Grown-control :
        (o : Outbound t) (q : Queued)
        → IsControl q
        → Grown o (record o { control_queue = o.control_queue ++ q ∷ [] })
    Grown-control o q h = record {
      arrived = [];
      data_queue = sym (append-nil o.data_queue);
      arrived_controls = q ∷ [];
      control_queue = refl;
      writer = refl;
      channel = refl;
      phase = refl;
      closed = refl;
      new = λ a b. (a, b);
      paid = λ a b. (a, b);
      controls = λ c. All-append IsControl o.control_queue (q ∷ []) c (h, tt);
    }

    Grown-enter_first :
        (o : Outbound t) (l : List Queued) → o.entering ≡ l → Grown o (enter_first t o l)
    unfolding enter_first
    Grown-enter_first o [] e = unchanged o
    Grown-enter_first o (q ∷ rest) e = elim (Bool-cases (leb 64 (length o.data_queue))) [
      | inl full ↦ rw full (unchanged o)
      | inr room ↦ rw room (record {
        arrived = q ∷ [];
        data_queue = refl;
        arrived_controls = [];
        control_queue = sym (append-nil o.control_queue);
        writer = refl;
        channel = refl;
        phase = refl;
        closed = refl;
        new = λ a b.
            let c = subst (All IsNew) e b in
            (All-append IsNew o.data_queue (q ∷ []) a (c.0, tt), c.1);
        paid = λ a b.
            let c = subst (All IsPaid) e b in
            (All-append IsPaid o.data_queue (q ∷ []) a (c.0, tt), c.1);
        controls = λ c. c;
      })
    ]

    pub Grown-enter : (o : Outbound t) → Grown o (enter t o)
    unfolding enter
    Grown-enter o = Grown-enter_first o o.entering refl

    offer_control-Grown :
        (o : Outbound t) (r : Result Queued Refusal)
        → ((q : Queued) → r ≡ ok q → IsControl q)
        → Grown o (offer_control t o r).0
    unfolding offer_control
    offer_control-Grown o (err e) h = unchanged o
    offer_control-Grown o (ok q) h =
        elim (Bool-cases (is_closed t o || leb 4 (length o.control_queue))) [
          | inl full ↦ rw full (unchanged o)
          | inr room ↦ rw room (Grown-control o q (h q refl))
        ]

    offer_data-Grown :
        (o : Outbound t) (r : Result Queued Refusal)
        → ((q : Queued) → r ≡ ok q → IsNew q × IsPaid q)
        → Grown o (offer_data t o r).0
    unfolding offer_data
    offer_data-Grown o (err e) h = unchanged o
    offer_data-Grown o (ok q) h =
        elim (Bool-cases (is_closed t o || leb 64 (length o.data_queue))) [
          | inl full ↦ rw full (unchanged o)
          | inr room ↦ rw room (Grown-data o q (o.budget - cost q) (h q refl).0 (h q refl).1)
        ]

    send_data-Grown :
        (o : Outbound t) (r : Result Queued Refusal)
        → ((q : Queued) → r ≡ ok q → IsNew q × IsPaid q)
        → Grown o (send_data t o r).0
    unfolding send_data
    send_data-Grown o (err e) h = unchanged o
    send_data-Grown o (ok q) h = elim (Bool-cases (ltb o.budget (cost q))) [
      | inl waits ↦ rw waits (unchanged o)
      | inr enough ↦ elim (Bool-cases (is_closed t o)) [
        | inl gone ↦ rw (enough, gone) (unchanged o)
        | inr there ↦
            rw (enough, there) (Grown-entering o q (o.budget - cost q) (h q refl).0 (h q refl).1)
      ]
    ]

    -- A message that is queued is new, and has the key and the bytes.
    queued-IsNew :
        (value : M) (permit : Option ℕ) (bytes : List ℕ) (q : Queued)
        → queued t wire value permit bytes ≡ ok q
        → IsNew q × (wire.key value ≡ q.key) × (q.message.content ≡ bytes) × (q.permit ≡ permit)
    unfolding queued new_message
    queued-IsNew value permit bytes q e = (
      record {
        unnumbered = ground arith;
        at_start = ground arith;
        filled = ground arith;
        within = ground arith;
      },
      ground arith,
      ground arith,
      ground arith,
    )

    queued-IsPaid :
        (value : M) (bytes : List ℕ) (q : Queued)
        → queued t wire value (some (u32 (length bytes))) bytes ≡ ok q
        → IsNew q × IsPaid q
    queued-IsPaid value bytes q e =
        let (new, key, content, permit) =
          queued-IsNew value (some (u32 (length bytes))) bytes q e in
        let same : u32 (length bytes) ≡ length q.message.content =
          omega (arith, ap length content, new.within) in
        (new, permit ∙ ap some same)

    queued-IsControl :
        (value : M) (bytes : List ℕ) (q : Queued)
        → wire.control value ≡ true
        → ltb fragment_bytes (length bytes) ≡ false
        → queued t wire value none bytes ≡ ok q
        → IsControl q
    unfolding is_small
    queued-IsControl value bytes q c short e =
        let (new, key, content, permit) = queued-IsNew value none bytes q e in
        record {
          new = new;
          short = ground (arith, short, ap length content);
          value = value;
          control = c;
          key = key;
          free = permit;
        }

    try_send_bytes-Grown :
        (o : Outbound t) (value : M) (r : Result (List ℕ) Refusal)
        → Grown o (try_send_bytes t wire o value r).0
    unfolding try_send_bytes
    try_send_bytes-Grown o value (err e) = unchanged o
    try_send_bytes-Grown o value (ok bytes) = elim (Bool-cases (wire.control value)) [
      | inl c ↦ elim (Bool-cases (ltb fragment_bytes (length bytes))) [
        | inl long ↦ rw (c, long) (unchanged o)
        | inr short ↦
            rw (c, short)
              (offer_control-Grown o (queued t wire value none bytes)
                (λ q. queued-IsControl value bytes q c short))
      ]
      | inr c ↦ elim (Bool-cases (ltb o.budget (u32 (length bytes)))) [
        | inl waits ↦ rw (c, waits) (unchanged o)
        | inr enough ↦
            rw (c, enough)
              (offer_data-Grown o (queued t wire value (some (u32 (length bytes))) bytes)
                (queued-IsPaid value bytes))
      ]
    ]

    pub try_send-Grown : (o : Outbound t) (value : M) → Grown o (try_send t wire o value).0
    unfolding try_send
    try_send-Grown o value = try_send_bytes-Grown o value (encoded t wire value)

    send_bytes-Grown :
        (o : Outbound t) (value : M) (r : Result (List ℕ) Refusal)
        → Grown o (send_bytes t wire o value r).0
    unfolding send_bytes
    send_bytes-Grown o value (err e) = unchanged o
    send_bytes-Grown o value (ok bytes) =
        send_data-Grown o (queued t wire value (some (u32 (length bytes))) bytes)
          (queued-IsPaid value bytes)

    pub send-Grown : (o : Outbound t) (value : M) → Grown o (send t wire o value).0
    unfolding send
    send-Grown o value = elim (Bool-cases (wire.control value)) [
      | inl c ↦ rw c (try_send-Grown o value)
      | inr c ↦ rw c (send_bytes-Grown o value (encoded t wire value))
    ]
