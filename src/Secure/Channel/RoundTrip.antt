-- ===== src/Secure/Channel/RoundTrip.antt =====
-- A whole message: `encode` on one side, `decode` of each record on the other.
use webmux.Base.{
  refl, ltb, ◌==◌, ◌||◌, none, ◌^◌, ◌+◌, ℕ, zero, suc, ◌-◌, ◌*◌, ◌≤◌, ◌<◌, ◌≡◌, sym, ap, ◌∙◌, inl,
  inr, true, false, some, Option, Result, ok, err, List, [], ◌∷◌, ◌++◌, arith, length, Bool-cases,
}
use webmux.Secure.Noise.{Transport, Laws}
use webmux.Secure.Channel.{
  max_assembly_bytes, max_assemblies, max_message, Channel, Error, OutgoingMessage, finished,
  decode, encode_next, new_message, encode_loop, encode, prepend, fragment_bytes,
}
use webmux.Secure.Channel.Delivery.{IsSending}
use webmux.Secure.Channel.Hop.{delivered, Synced, Carried, unsent, under_way, HasRoom, Hop, hop}

module _ (t : Transport) where
  -- A receiver that decodes records in turn, up to the first error.
  unfoldable pub and_then :
      Channel t × Result (List (List ℕ)) Error
      → (Channel t → Channel t × Result (List (List ℕ)) Error)
      → Channel t × Result (List (List ℕ)) Error
  and_then (c, err e) rest = (c, err e)
  and_then (c, ok messages) rest =
      let r = rest c in (r.0, elim r.1 [ ok more ↦ ok (messages ++ more) | err e ↦ err e ])

  unfoldable pub decode_stream :
      Channel t → List (List ℕ) → Channel t × Result (List (List ℕ)) Error
  unfolding and_then
  decode_stream c [] = (c, ok [])
  decode_stream c (sealed ∷ records) = and_then (decode t c sealed) (λ c'. decode_stream c' records)

  -- The records that `encode` makes of a message, and what the peer makes of them.
  pub record Delivery (l : Laws t) (s r : Channel t) (content : List ℕ)
      (run : Option (Channel t × Result (List (List ℕ)) Error)) : Type 0 where
    pub s' : Channel t
    pub r' : Channel t
    pub records : List (List ℕ)
    pub encoded : run ≡ some (s', ok records)
    pub decoded : decode_stream r records ≡ (r', ok (content ∷ []))
    pub synced : Synced t l s' r'

  encode_loop_done :
      (rounds : ℕ) (s : Channel t) (m : OutgoingMessage)
      → 0 < rounds
      → finished m ≡ true
      → encode_loop t rounds s m ≡ some (s, ok [])
  unfolding encode_loop
  encode_loop_done zero s m h e = absurd (omega arith)
  encode_loop_done (suc rounds) s m h e = rw e

  encode_loop_step :
      (rounds : ℕ) (s s' : Channel t) (m m' : OutgoingMessage) (sealed : List ℕ)
      → finished m ≡ false
      → encode_next t s m ≡ (s', m', ok sealed)
      → encode_loop t (suc rounds) s m ≡ prepend t sealed (encode_loop t rounds s' m')
  unfolding encode_loop
  encode_loop_step rounds s s' m m' sealed e step = rw (e, step)

  pub decode_stream_step :
      (r r' : Channel t) (sealed : List ℕ) (messages : List (List ℕ)) (records : List (List ℕ))
      → decode t r sealed ≡ (r', ok messages)
      → decode_stream r (sealed ∷ records)
        ≡ and_then (r', ok messages) (λ c. decode_stream c records)
  unfolding decode_stream
  decode_stream_step r r' sealed messages records e = rw e

  IsSending-unfinished : (m : OutgoingMessage) → IsSending m → finished m ≡ false
  unfolding finished
  IsSending-unfinished m h = ground (arith, h.unfinished)

  module _ (l : Laws t) (s r : Channel t) (m : OutgoingMessage) (p : Hop t l s r m) where
    -- The last fragment.
    last_hop :
        (rounds : ℕ)
        → 0 < rounds
        → finished m ≡ false
        → finished p.m' ≡ true
        → Delivery l s r m.content (encode_loop t (suc rounds) s m)
    unfolding encode_loop decode_stream
    last_hop rounds pos e done = record {
      s' = p.s';
      r' = p.r';
      records = p.sealed ∷ [];
      encoded =
          encode_loop_step rounds s p.s' m p.m' p.sealed e p.sent
          ∙ ap (prepend t p.sealed) (encode_loop_done rounds p.s' p.m' pos done);
      decoded =
          decode_stream_step r p.r' p.sealed (delivered p.m') [] p.opened
          ∙ ground (arith, done, p.content);
      synced = p.synced;
    }

    -- A fragment before the last.
    more_hops :
        (rounds : ℕ)
        → finished m ≡ false
        → finished p.m' ≡ false
        → Delivery l p.s' p.r' p.m'.content (encode_loop t rounds p.s' p.m')
        → Delivery l s r m.content (encode_loop t (suc rounds) s m)
    unfolding encode_loop decode_stream
    more_hops rounds e more d = record {
      s' = d.s';
      r' = d.r';
      records = p.sealed ∷ d.records;
      encoded =
          encode_loop_step rounds s p.s' m p.m' p.sealed e p.sent
          ∙ ap (prepend t p.sealed) d.encoded;
      decoded =
          decode_stream_step r p.r' p.sealed (delivered p.m') d.records p.opened
          ∙ ground (arith, more, p.content, d.decoded);
      synced = d.synced;
    }

    HasRoom-later : IsSending m → Carried t l p.r' p.m' → HasRoom t l p.s' p.r' p.m'
    HasRoom-later h (unsent e z) n = absurd (omega (arith, p.advanced, h.unfinished))
    HasRoom-later h (under_way id e pos g) n = absurd (cc (sym n ∙ e))

    IsSending-later : IsSending m → finished p.m' ≡ false → IsSending p.m'
    unfolding finished
    IsSending-later h more = ground (arith, p.advanced, ap length p.content, h.within)

  module _ (l : Laws t) where
    encode_loop-Delivery :
        (rounds : ℕ) (s r : Channel t) (m : OutgoingMessage)
        → Synced t l s r
        → IsSending m
        → Carried t l r m
        → HasRoom t l s r m
        → length m.content - m.offset < rounds
        → length m.content - m.offset ≤ l.nonces_left s.transport * fragment_bytes
        → Delivery l s r m.content (encode_loop t rounds s m)
    encode_loop-Delivery zero s r m y h k room enough n = absurd (omega arith)
    encode_loop-Delivery (suc rounds) s r m y h k room enough n =
        let p = hop t l s r m y h k room (omega (arith, h.unfinished)) in
        let e = IsSending-unfinished m h in
        let len = ap length p.content in
        elim (Bool-cases (finished p.m')) [
          | inl done ↦ last_hop l s r m p rounds (omega (arith, h.unfinished)) e done
          | inr more ↦ more_hops l s r m p rounds e more (
              encode_loop-Delivery rounds p.s' p.r' p.m' p.synced (IsSending-later l s r m p h more)
                (p.carried more) (HasRoom-later l s r m p h (p.carried more))
                (omega (arith, len, p.advanced, h.unfinished))
                (omega (arith, len, p.advanced, p.nonces, h.unfinished)))
        ]

  not_refused :
      (content : List ℕ)
      → 0 < length content
      → length content ≤ max_message
      → (length content == 0 || ltb max_message (length content)) ≡ false
  not_refused content pos le = ground arith

  module _ (l : Laws t) (s r : Channel t) (content : List ℕ) where
    -- A message that is neither empty nor too large, sent whole between two channels in step, is
    -- encoded into records that decode to exactly that message, and leave the channels in step.
    -- There is room in the receiver if the message needs more than one fragment; a message id and a
    -- nonce for each fragment are left.
    pub encode-decode :
        Synced t l s r
        → 0 < length content
        → length content ≤ max_message
        → s.next_id + 1 < 2 ^ 64
        → (fragment_bytes < length content
            → (length r.pending < max_assemblies)
              × (r.reserved + length content ≤ max_assembly_bytes))
        → length content ≤ l.nonces_left s.transport * fragment_bytes
        → Delivery l s r content (encode t s content)
    unfolding encode new_message
    encode-decode y pos le ids room n =
        let m : OutgoingMessage = record { content = content; offset = 0; id = none } in
        let d =
          encode_loop-Delivery l (length content + 1) s r m y
            (record { unfinished = pos; within = le }) (unsent refl refl) (λ e. (ids, room))
            (omega arith) (omega arith) in
        rw (not_refused content pos le) d
