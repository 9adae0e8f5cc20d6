-- ===== src/Secure/Channel/Failure.antt =====
-- What an error leaves behind, and that `encode` always ends.
use webmux.Base.{
  ℕ, zero, suc, ◌+◌, ◌-◌, ◌<◌, ◌≤◌, ◌^◌, ap, ◌||◌, leb, ltb, ◌==◌, ◌≡◌, ◌≢◌, refl, true, false,
  none, some, Option, Result, ok, err, List, [], arith, length, Bool-cases, inl, inr,
}
use webmux.Secure.Noise.{Transport}
use webmux.Secure.Channel.{
  Channel, Error, closed, OutgoingMessage, new_message, finished, decode, decode_inner, settle,
  encode_next, with_id, written, max_message, encode_loop, collect, prepend, encode,
}

module _ (t : Transport) where
  settle_error :
      (f : Channel t × Result (List (List ℕ)) Error) (e : Error)
      → (settle t f).1 ≡ err e
      → ((settle t f).0.failed ≡ true)
        × ((settle t f).0.pending ≡ [])
        × ((settle t f).0.reserved ≡ 0)
  unfolding settle
  settle_error (c, ok messages) e h = cc
  settle_error (c, err x) e h = (refl, refl, refl)

  closed_after :
      (c : Channel t)
      → c.failed ≡ true
      → ((sealed : List ℕ) → decode t c sealed ≡ (c, err closed))
        × ((m : OutgoingMessage) → encode_next t c m ≡ (c, m, err closed))
  unfolding decode encode_next
  closed_after c h = (λ sealed. rw h, λ m. rw h)

  decode-settle :
      (c : Channel t) (sealed : List ℕ)
      → c.failed ≡ false
      → decode t c sealed ≡ settle t (decode_inner t c sealed)
  unfolding decode
  decode-settle c sealed live = rw live

  -- A record that a live channel refuses, for whatever reason, poisons it: every pending message and
  -- its reservation is dropped, and from then on the channel changes no more, decodes nothing and
  -- encodes nothing.
  pub decode_error_poisons :
      (c : Channel t) (sealed : List ℕ) (e : Error)
      → c.failed ≡ false
      → (decode t c sealed).1 ≡ err e
      → let c' = (decode t c sealed).0 in
        (c'.pending ≡ [])
        × (c'.reserved ≡ 0)
        × ((next : List ℕ) → decode t c' next ≡ (c', err closed))
        × ((m : OutgoingMessage) → encode_next t c' m ≡ (c', m, err closed))
  decode_error_poisons c sealed e live h =
      let d = decode-settle c sealed live in
      let (failed, pending, reserved) = settle_error (decode_inner t c sealed) e (rw (← d) h) in
      let (no_decode, no_encode) = closed_after (decode t c sealed).0 (rw d failed) in
      (rw d pending, rw d reserved, no_decode, no_encode)

  -- A round of `encode` either fails or takes the message further, within its bounds.
  abbrev Advances : OutgoingMessage → Channel t × OutgoingMessage × Result (List ℕ) Error → Type 0
  Advances m (c, m', err e) = Unit
  Advances m (c, m', ok sealed) =
      (m'.content ≡ m.content) × (m.offset < m'.offset) × (m'.offset ≤ length m.content)

  written-Advances :
      (c : Channel t) (m : OutgoingMessage) (end : ℕ) (o : Option (List ℕ × t.State))
      → m.offset < end
      → end ≤ length m.content
      → Advances m (written t c m end o)
  unfolding written
  written-Advances c m end none lt le = tt
  written-Advances c m end (some (sealed, state)) lt le = (refl, lt, le)

  with_id-Advances :
      (c : Channel t) (m : OutgoingMessage) (o : Option ℕ)
      → m.offset < length m.content
      → Advances m (with_id t c m o)
  unfolding with_id
  with_id-Advances c m (some id) h = written-Advances c m _ _ (omega arith) (omega arith)
  with_id-Advances c m none h = elim (Bool-cases (leb (2 ^ 64 - 1) c.next_id)) [
    | inl last ↦ rw last tt
    | inr more ↦ rw more (
        written-Advances (record c { next_id = c.next_id + 1 }) (record m { id = some c.next_id }) _
          _ (omega arith) (omega arith))
  ]

  encode_next-Advances :
      (c : Channel t) (m : OutgoingMessage)
      → m.offset < length m.content
      → Advances m (encode_next t c m)
  unfolding encode_next
  encode_next-Advances c m h = elim (Bool-cases c.failed) [
    | inl failed ↦ rw failed tt
    | inr live ↦ elim (Bool-cases (finished m)) [
      | inl done ↦ simp (live, done) tt
      | inr more ↦ simp (live, more) (with_id-Advances c m m.id h)
    ]
  ]

  written-content :
      (c : Channel t) (m : OutgoingMessage) (end : ℕ) (o : Option (List ℕ × t.State))
      → (written t c m end o).1.content ≡ m.content
  unfolding written
  written-content c m end none = refl
  written-content c m end (some (sealed, state)) = refl

  with_id-content :
      (c : Channel t) (m : OutgoingMessage) (o : Option ℕ) → (with_id t c m o).1.content ≡ m.content
  unfolding with_id
  with_id-content c m (some id) = written-content c m _ _
  with_id-content c m none = elim (Bool-cases (leb (2 ^ 64 - 1) c.next_id)) [
    | inl last ↦ rw last refl
    | inr more ↦ rw more (written-content _ (record m { id = some c.next_id }) _ _)
  ]

  -- A call of `encode_next` leaves the bytes of the message as they are.
  pub encode_next-content :
      (c : Channel t) (m : OutgoingMessage) → (encode_next t c m).1.content ≡ m.content
  unfolding encode_next with_id
  encode_next-content c m = elim (Bool-cases c.failed) [
    | inl failed ↦ rw failed refl
    | inr live ↦ elim (Bool-cases (finished m)) [
      | inl done ↦ simp (live, done) refl
      | inr more ↦ simp (live, more) (with_id-content c m m.id)
    ]
  ]

  prepend-ne-none :
      (sealed : List ℕ) (o : Option (Channel t × Result (List (List ℕ)) Error))
      → o ≢ none
      → prepend t sealed o ≢ none
  unfolding prepend
  prepend-ne-none sealed none h = absurd (h refl)
  prepend-ne-none sealed (some (c, ok records)) h = λ e. cc
  prepend-ne-none sealed (some (c, err x)) h = λ e. cc

  collect-ne-none :
      (m : OutgoingMessage) (r : Channel t × OutgoingMessage × Result (List ℕ) Error)
      (rest : Channel t → OutgoingMessage → Option (Channel t × Result (List (List ℕ)) Error))
      → Advances m r
      → ((c : Channel t) (m' : OutgoingMessage)
          → m'.content ≡ m.content
          → m.offset < m'.offset
          → m'.offset ≤ length m.content
          → rest c m' ≢ none)
      → collect t r rest ≢ none
  unfolding collect
  collect-ne-none m (c, m', err e) rest a k = λ q. cc
  collect-ne-none m (c, m', ok sealed) rest (same, lt, le) k =
      prepend-ne-none sealed (rest c m') (k c m' same lt le)

  encode_loop_total :
      (rounds : ℕ) (c : Channel t) (m : OutgoingMessage)
      → m.offset ≤ length m.content
      → length m.content - m.offset < rounds
      → encode_loop t rounds c m ≢ none
  unfolding encode_loop finished
  encode_loop_total zero c m h enough = absurd (omega arith)
  encode_loop_total (suc rounds) c m h enough = elim (Bool-cases (finished m)) [
    | inl done ↦ rw done (λ e. cc)
    | inr more ↦ rw more (
        collect-ne-none m (encode_next t c m) (encode_loop t rounds)
          (encode_next-Advances c m (ground arith))
          (λ c' m' same lt le.
            encode_loop_total rounds c' m' (omega (arith, ap length same))
              (omega (arith, ap length same))))
  ]

  -- The loop of `encode` ends for every message, over any transport: the rounds that the model gives
  -- it, one more than the message has bytes, are enough.
  pub encode_total : (c : Channel t) (content : List ℕ) → encode t c content ≢ none
  unfolding encode new_message
  encode_total c content =
      elim (Bool-cases (length content == 0 || ltb max_message (length content))) [
        | inl bad ↦ rw bad (λ e. cc)
        | inr good ↦
            rw good (encode_loop_total (length content + 1) c _ (omega arith) (omega arith))
      ]
