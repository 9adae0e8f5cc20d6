-- ===== src/Hub/Events/Replay.antt =====
-- A browser that comes back misses nothing.
use webmux.Base.{
  ℕ, zero, suc, ◌+◌, ◌-◌, ◌%◌, ◌^◌, ◌≤◌, ◌<◌, String, ◌≡◌, refl, ap, ◌∙◌, true, false, ◌&&◌, Option,
  List, [], ◌∷◌, ◌++◌, length, drop, length-append, arith, ltb, if◌then◌else◌, string_key,
  Bool-cases, inl, inr,
}
use webmux.Hub.Events.{
  EventEnvelope, Events, event_history_limit, remember, send_event, history_has_gap_after_seq,
  missed, build_event_subscription, pop_front,
}

module _ {E : Type 0} where
  abbrev pub start : ℕ → Events E
  start n = record { next_event_seq = n; event_history = [] }

  unfoldable pub send_all : Events E → List (Option String × E) → Events E
  send_all s [] = s
  send_all s ((target, event) ∷ es) = send_all (send_event s target event) es

  -- All that was ever sent, with its numbers.
  unfoldable pub log : ℕ → List (Option String × E) → List (EventEnvelope E)
  log n [] = []
  log n ((target, event) ∷ es) =
      record { seq = n + 1; target_user_id = target; event = event } ∷ log (n + 1) es

  length-log : (n : ℕ) (es : List (Option String × E)) → length (log n es) ≡ length es
  unfolding log
  length-log n [] = refl
  length-log n (e ∷ es) = ap suc (length-log (n + 1) es)

  drop-snoc :
      (xs : List (EventEnvelope E)) (e : EventEnvelope E) (ys : List (EventEnvelope E)) (j k : ℕ)
      → j ≡ k
      → drop j ((xs ++ e ∷ []) ++ ys) ≡ drop k (xs ++ e ∷ ys)
  drop-snoc xs e ys j k q = ground (arith, q, append_assoc xs)
    where
      append_assoc : (zs : List (EventEnvelope E)) → (zs ++ e ∷ []) ++ ys ≡ zs ++ e ∷ ys
      append_assoc [] = refl
      append_assoc (z ∷ zs) = ap (◌∷◌ z) (append_assoc zs)

  -- What is dropped of the log does not depend on when.
  drop-remember :
      (e : EventEnvelope E) (history rest : List (EventEnvelope E)) (k : ℕ)
      → length history ≤ event_history_limit
      → k ≡ length history + suc (length rest) - event_history_limit
      → drop
          (length (remember e history) + length rest - event_history_limit)
          (remember e history ++ rest)
        ≡ drop k (history ++ e ∷ rest)
  unfolding remember pop_front
  drop-remember e [] rest k h q = ap (λ (j : ℕ). drop j (e ∷ rest)) (omega arith)
  drop-remember e (x ∷ xs) rest k h q =
      elim (Bool-cases (ltb event_history_limit (length (x ∷ xs ++ e ∷ [])))) [
        | inl full ↦ rw full (
            let n = length-append xs (e ∷ []) in
            let k' : k ≡ suc (length rest) = ground (arith, n) in
            rw k' (drop-snoc xs e rest _ (length rest) (ground (arith, n))))
        | inr room ↦
            rw room
              (drop-snoc (x ∷ xs) e rest _ k (ground (arith, length-append (x ∷ xs) (e ∷ []))))
      ]

  length-remember :
      (e : EventEnvelope E) (history : List (EventEnvelope E))
      → length history ≤ event_history_limit
      → length (remember e history) ≤ event_history_limit
  unfolding remember pop_front
  length-remember e [] h = omega arith
  length-remember e (x ∷ xs) h = ground (arith, length-append xs (e ∷ []))

  append_nil : (xs : List (EventEnvelope E)) → xs ++ [] ≡ xs
  append_nil [] = refl
  append_nil (x ∷ xs) = ap (◌∷◌ x) (append_nil xs)

  send_all-history :
      (n : ℕ) (history : List (EventEnvelope E)) (es : List (Option String × E))
      → length history ≤ event_history_limit
      → n + length es < 2 ^ 64
      → send_all (record { next_event_seq = n; event_history = history }) es ≡ record {
        next_event_seq = n + length es;
        event_history =
            drop (length history + length es - event_history_limit) (history ++ log n es);
      }
  unfolding send_all send_event log
  send_all-history n history [] h small =
      let z : length history + 0 - event_history_limit ≡ 0 = omega arith in
      let m : n + 0 ≡ n = omega arith in rw (z, m, append_nil history) refl
  send_all-history n history ((t, e) ∷ es) h small =
      let x : EventEnvelope E = record { seq = n + 1; target_user_id = t; event = e } in
      let q : (n + 1) % 2 ^ 64 ≡ n + 1 = ground arith in
      rw q (
        send_all-history (n + 1) (remember x history) es (length-remember x history h)
          (ground arith)
        ∙ ground (
          arith,
          length-log (n + 1) es,
          drop-remember x history (log (n + 1) es)
              (length history + suc (length es) - event_history_limit) h,
        ))

  -- Entries that the browser has seen may be dropped.
  missed-drop :
      (user : Option String) (n a k : ℕ) (es : List (Option String × E))
      → n + k ≤ a
      → missed user a (drop k (log n es)) ≡ missed user a (log n es)
  unfolding missed log
  missed-drop user n a zero es h = refl
  missed-drop user n a (suc k) [] h = refl
  missed-drop user n a (suc k) (e ∷ es) h = ground (arith, missed-drop user (n + 1) a k es)

  gap-drop :
      (n a k : ℕ) (es : List (Option String × E))
      → 0 < a
      → n + length es < 2 ^ 64
      → history_has_gap_after_seq (drop k (log n es)) a ≡ (ltb k (length es) && ltb a (n + k))
  unfolding history_has_gap_after_seq log
  gap-drop n a zero [] p h = ground arith
  gap-drop n a zero (e ∷ es) p h = ground arith
  gap-drop n a (suc k) [] p h = ground arith
  gap-drop n a (suc k) (e ∷ es) p h = ground (arith, gap-drop (n + 1) a k es p)

  -- A browser that has seen the events up to a number, not below where the hub started, is told to
  -- start afresh exactly when more than 1024 events have been sent since; otherwise it gets, once
  -- each and in order, all the later events that were sent and that its user may see. The numbers
  -- are taken to stay below 2^64.
  pub build_event_subscription_exact :
      (n a : ℕ) (es : List (Option String × E)) (user : Option String)
      → n ≤ a
      → 0 < a
      → n + length es < 2 ^ 64
      → build_event_subscription (send_all (start n) es) user a ≡ (
          if ltb (a + event_history_limit) (n + length es)
          then record { replay = []; requires_resync = true }
          else record { replay = missed user a (log n es); requires_resync = false })
  unfolding build_event_subscription
  build_event_subscription_exact n a es user low p small =
      let k = length es - event_history_limit in
      rw (send_all-history n [] es (omega arith) small)
        (ground (arith, gap-drop n a k es p small, missed-drop user n a k es))
