-- ===== src/Secure/Writer/Charged.antt =====
-- What the permits are for: the messages that a fragment is sent of, and those put back.
use webmux.Base.{
  ℕ, ◌≤◌, ◌⊎◌, inl, inr, ◌≡◌, refl, sym, ap, subst, ◌∙◌, Bool, true, false, Option, none, some,
  List, [], ◌∷◌, All, arith, length, Bool-cases, Result, ok, err,
}
use webmux.Secure.Noise.{Transport}
use webmux.Secure.Channel.{
  Channel, Error, OutgoingMessage, finished, is_small, fragment_bytes, encode_next,
}
use webmux.Secure.Channel.Failure.{encode_next-content}
use webmux.Secure.Writer.{Queued, Writer, put_back}
use webmux.Secure.Writer.Order.{started}
use webmux.Secure.Writer.Chosen.{Takes}
use webmux.Secure.Writer.Queues.{WireMessage, Refusal, Outbound, cost, weights, interrupted, failed}
use webmux.Secure.Writer.Turns.{stop, settle_sent, transmit_encoded, transmit}
use webmux.Secure.Writer.Arrivals.{IsPaid, IsControl}

-- The bytes of a message that has a permit.
abbrev pub paid_bytes : Queued → ℕ
paid_bytes q = elim q.permit [ none ↦ 0 | some n ↦ length q.message.content ]

module _ {M : Type 0} (wire : WireMessage M) where
  -- A message without a permit, of one fragment, with the key of a control message.
  pub record IsFree (q : Queued) : Type 0 where
    pub free : q.permit ≡ none
    pub short : length q.message.content ≤ fragment_bytes
    pub value : M
    pub control : wire.control value ≡ true
    pub key : wire.key value ≡ q.key

  abbrev pub IsCharged : Queued → Type 0
  IsCharged q = IsPaid q ⊎ IsFree q

  pub control-IsFree : (q : Queued) → IsControl wire q → IsFree q
  unfolding is_small
  control-IsFree q h = record {
    free = h.free;
    short = ground (arith, h.short);
    value = h.value;
    control = h.control;
    key = h.key;
  }

  pub paid-IsCharged : (qs : List Queued) → All IsPaid qs → All IsCharged qs
  paid-IsCharged [] h = tt
  paid-IsCharged (q ∷ qs) h = (inl h.0, paid-IsCharged qs h.1)

  sent-IsCharged :
      (q : Queued) (m : OutgoingMessage)
      → m.content ≡ q.message.content
      → IsCharged q
      → IsCharged (record q { message = m })
  sent-IsCharged q m e (inl h) = inl (h ∙ ap (λ (c : List ℕ). some (length c)) (sym e))
  sent-IsCharged q m e (inr h) = inr (record {
    free = h.free;
    short = omega (arith, h.short, ap length e);
    value = h.value;
    control = h.control;
    key = h.key;
  })

  pub charged_bytes :
      (qs : List Queued) → All IsCharged qs → weights cost qs ≡ weights paid_bytes qs
  charged_bytes [] h = refl
  charged_bytes (q ∷ qs) (inl h, hs) = omega (
    arith,
    charged_bytes qs hs,
    ap {B = ℕ} (λ (p : Option ℕ). elim p [ none ↦ 0 | some n ↦ n ]) h,
    ap {B = ℕ} (λ (p : Option ℕ). elim p [ none ↦ 0 | some n ↦ length q.message.content ]) h,
  )
  charged_bytes (q ∷ qs) (inr h, hs) = omega (
    arith,
    charged_bytes qs hs,
    ap {B = ℕ} (λ (p : Option ℕ). elim p [ none ↦ 0 | some n ↦ n ]) h.free,
    ap {B = ℕ} (λ (p : Option ℕ). elim p [ none ↦ 0 | some n ↦ length q.message.content ]) h.free,
  )

  module _ (t : Transport) where
    pub record Charged (o : Outbound t) : Type 0 where
      pub data_queue : All IsPaid o.data_queue
      pub entering : All IsPaid o.entering
      pub waiting : All IsCharged o.writer.waiting
      pub bulk : All IsCharged (started o.writer.bulk)
      pub controls : All (IsControl wire) o.control_queue

    pub stop-Charged :
        (o : Outbound t) (n : ℕ) (x : Result (Unit {0}) Refusal) → Charged (stop t o n x)
    unfolding stop
    stop-Charged o n x = record {
      data_queue = tt;
      entering = tt;
      waiting = tt;
      bulk = tt;
      controls = tt;
    }

    settle_sent-Charged :
        (o : Outbound t) (x : Queued) → Charged o → IsCharged x → Charged (settle_sent t o x)
    unfolding settle_sent put_back
    settle_sent-Charged o x c h = record {
      data_queue = c.data_queue;
      entering = c.entering;
      waiting = elim (Bool-cases (finished x.message)) [
        | inl done ↦ rw done c.waiting
        | inr more ↦ rw more c.waiting
      ];
      bulk = elim (Bool-cases (finished x.message)) [
        | inl done ↦ rw done c.bulk
        | inr more ↦ rw more (h, tt)
      ];
      controls = c.controls;
    }

    transmit_encoded-Charged :
        (o : Outbound t) (works : Bool) (x : Queued)
        (e : Channel t × OutgoingMessage × Result (List ℕ) Error)
        → e.1.content ≡ x.message.content
        → Charged o
        → IsCharged x
        → Charged (transmit_encoded t o works x e).0
    unfolding transmit_encoded
    transmit_encoded-Charged o works x (ch, m, err y) q c h =
        stop-Charged (record o { channel = ch }) (cost x) (err (failed y))
    transmit_encoded-Charged o true x (ch, m, ok sealed) q c h =
        settle_sent-Charged (record o { channel = ch }) (record x { message = m })
          (record {
            data_queue = c.data_queue;
            entering = c.entering;
            waiting = c.waiting;
            bulk = c.bulk;
            controls = c.controls;
          })
          (sent-IsCharged x m q h)
    transmit_encoded-Charged o false x (ch, m, ok sealed) q c h =
        stop-Charged (record o { channel = ch }) (cost x) (err interrupted)

    abbrev pub IsChargedIf : Option Queued → Type 0
    IsChargedIf none = Unit
    IsChargedIf (some x) = IsCharged x

    pub transmit-Charged :
        (o : Outbound t) (works : Bool) (next : Option Queued)
        → Charged o
        → IsChargedIf next
        → Charged (transmit t o works next).0
    unfolding transmit
    transmit-Charged o works none c h = record {
      data_queue = c.data_queue;
      entering = c.entering;
      waiting = c.waiting;
      bulk = c.bulk;
      controls = c.controls;
    }
    transmit-Charged o works (some x) c h =
        transmit_encoded-Charged o works x (encode_next t o.channel x.message)
          (encode_next-content t o.channel x.message) c h

    pub chosen-Charged :
        (o : Outbound t) (w' : Writer) (next : Option Queued)
        → Charged o
        → Takes IsCharged o.writer w' next
        → Charged (record o { writer = w' }) × IsChargedIf next
    chosen-Charged o w' none c (was, gone, waiting) = (
      record {
        data_queue = c.data_queue;
        entering = c.entering;
        waiting = waiting;
        bulk = subst (λ (b : Option Queued). All IsCharged (started b)) (sym gone) tt;
        controls = c.controls;
      },
      tt,
    )
    chosen-Charged o w' (some x) c (waiting, inl (h, same, room)) = (
      record {
        data_queue = c.data_queue;
        entering = c.entering;
        waiting = waiting;
        bulk = subst (λ (b : Option Queued). All IsCharged (started b)) (sym same) c.bulk;
        controls = c.controls;
      },
      h,
    )
    chosen-Charged o w' (some x) c (waiting, inr (is, gone)) = (
      record {
        data_queue = c.data_queue;
        entering = c.entering;
        waiting = waiting;
        bulk = subst (λ (b : Option Queued). All IsCharged (started b)) (sym gone) tt;
        controls = c.controls;
      },
      (subst (λ (b : Option Queued). All IsCharged (started b)) is c.bulk).0,
    )
