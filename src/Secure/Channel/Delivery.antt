-- ===== src/Secure/Channel/Delivery.antt =====
-- What a receiver makes of the records that its peer wrote, fragment by fragment.
use webmux.Base.{
  ℕ, ◌+◌, ◌-◌, ◌^◌, ◌≤◌, ◌<◌, min, ◌≡◌, refl, false, some, List, arith, length, length-drop,
  length-take, drop, take, nat_key,
}
use webmux.Secure.Noise.{Transport, Laws}
use webmux.Secure.Bytes.{to_be_bytes, from_be_bytes}
use webmux.Secure.Channel.{
  Channel, OutgoingMessage, plain, fragment, opened, decode_inner, settle, decode, max_message,
  fragment_bytes, header_bytes,
}

-- Where the next fragment of a message ends.
abbrev pub next_end : OutgoingMessage → ℕ
next_end m = min (m.offset + fragment_bytes) (length m.content)

abbrev pub slice : OutgoingMessage → List ℕ
slice m = take (next_end m - m.offset) (drop m.offset m.content)

-- A message that is neither empty nor too large, with bytes left to send.
pub record IsSending (m : OutgoingMessage) : Type 0 where
  pub unfinished : m.offset < length m.content
  pub within : length m.content ≤ max_message

pub length-slice : (m : OutgoingMessage) → IsSending m → length (slice m) ≡ next_end m - m.offset
length-slice m h = omega (
  arith,
  length-take (next_end m - m.offset) (drop m.offset m.content),
  length-drop m.offset m.content,
)

module _ (t : Transport) where
  pub length-plain :
      (id : ℕ) (m : OutgoingMessage)
      → IsSending m
      → length (plain t id m (next_end m)) ≡ 16 + (next_end m - m.offset)
  unfolding plain to_be_bytes
  length-plain id m h = omega (arith, length-slice m h)

  -- The header is read back, and the rest is the slice.
  fields-plain :
      (id : ℕ) (m : OutgoingMessage)
      → IsSending m
      → id < 2 ^ 64
      → let p = plain t id m (next_end m) in
        (from_be_bytes (take 8 p) ≡ id)
        × (from_be_bytes (take 4 (drop 8 p)) ≡ length m.content)
        × (from_be_bytes (take 4 (drop 12 p)) ≡ m.offset)
        × (drop header_bytes p ≡ slice m)
  unfolding plain to_be_bytes from_be_bytes
  fields-plain id m h small = (omega arith, omega arith, omega arith, refl)

  pub open_record :
      (l : Laws t) (r : Channel t) (id : ℕ) (m : OutgoingMessage) (sealed : List ℕ)
      (state : t.State)
      → IsSending m
      → id < 2 ^ 64
      → r.failed ≡ false
      → t.read_message r.transport sealed ≡ some (plain t id m (next_end m), state)
      → decode t r sealed
        ≡ settle t
            (fragment t (record r { transport = state }) id (length m.content) m.offset (slice m))
  unfolding decode decode_inner opened
  open_record l r id m sealed state h small live e =
      let (f0, f1, f2, f3) = fields-plain id m h small in
      ground (
        arith,
        length-plain id m h,
        l.length-read r.transport sealed (plain t id m (next_end m)) state e,
        f0,
        f1,
        f2,
        f3,
      )
