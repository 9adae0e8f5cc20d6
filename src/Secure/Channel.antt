-- ===== src/Secure/Channel.antt =====
-- crates/secure/src/lib.rs, lines 85 to 256: messages cut into fragments, one Noise record for each,
-- and put together again. A method that takes `&mut self` returns the new channel; `as u32` and
-- `to_be_bytes` keep their widths; `usize` has 64 bits.
pub mod Pending
pub mod Bounds
pub mod Delivery
pub mod Hop
pub mod RoundTrip
pub mod Failure
use webmux.Base.{
  ℕ, suc, zero, ◌+◌, ◌-◌, ◌*◌, ◌%◌, ◌^◌, min, Bool, true, false, not, ◌||◌, ◌&&◌, Option, none,
  some, List, [], ◌∷◌, ◌++◌, Result, ok, err, length, take, drop, ltb, leb, ◌==◌, if◌then◌else◌,
  nat_key,
}
use webmux.Base.Map.{get, insert, remove}
use webmux.Secure.Noise.{Transport}
use webmux.Secure.Bytes.{to_be_bytes, from_be_bytes}

pub data Error : Type 0 where
  noise too_large invalid_message closed : Error

abbrev pub max_message : ℕ
max_message = 32 * 1024 * 1024

abbrev pub fragment_bytes : ℕ
fragment_bytes = 16 * 1024

abbrev pub header_bytes : ℕ
header_bytes = 16

abbrev pub max_assemblies : ℕ
max_assemblies = 8

abbrev pub max_assembly_bytes : ℕ
max_assembly_bytes = 64 * 1024 * 1024

abbrev pub u32 : ℕ → ℕ
u32 n = n % 2 ^ 32

-- The field `data` is `content` here: `data` is a word of the language.
pub record OutgoingMessage : Type 0 where
  pub content : List ℕ
  pub offset : ℕ
  pub id : Option ℕ

unfoldable pub new_message : List ℕ → Result OutgoingMessage Error
new_message content =
    if length content == 0 || ltb max_message (length content)
    then err too_large
    else ok (record { content = content; offset = 0; id = none })

unfoldable pub finished : OutgoingMessage → Bool
finished m = m.offset == length m.content

unfoldable pub is_small : OutgoingMessage → Bool
is_small m = leb (length m.content) fragment_bytes

pub record Assembly : Type 0 where
  pub total : ℕ
  pub content : List ℕ

module _ (t : Transport) where
  pub record Channel : Type 0 where
    pub transport : t.State
    pub next_id : ℕ
    pub last_started : ℕ
    pub pending : List (ℕ × Assembly)
    pub reserved : ℕ
    pub failed : Bool

  unfoldable pub new : t.State → Channel
  new state = record {
    transport = state;
    next_id = 1;
    last_started = 0;
    pending = [];
    reserved = 0;
    failed = false;
  }

  -- The plaintext of one record: the header, and the bytes up to `end`.
  pub plain : ℕ → OutgoingMessage → ℕ → List ℕ
  plain id m end =
      to_be_bytes 8 id
      ++ (to_be_bytes 4 (u32 (length m.content))
          ++ (to_be_bytes 4 (u32 m.offset) ++ take (end - m.offset) (drop m.offset m.content)))

  -- The `match` on `write_message`.
  written :
      Channel
      → OutgoingMessage
      → ℕ
      → Option (List ℕ × t.State)
      → Channel × OutgoingMessage × Result (List ℕ) Error
  written c m end (some (sealed, state)) =
      (record c { transport = state }, record m { offset = end }, ok sealed)
  written c m end none = (record c { failed = true }, m, err noise)

  write_fragment : Channel → OutgoingMessage → ℕ → Channel × OutgoingMessage × Result (List ℕ) Error
  unfolding plain written
  write_fragment c m id =
      let end = min (m.offset + fragment_bytes) (length m.content) in
      written c m end (t.write_message c.transport (plain id m end))

  -- The id of the message, or a new one: `checked_add` fails at the last `u64`.
  with_id : Channel → OutgoingMessage → Option ℕ → Channel × OutgoingMessage × Result (List ℕ) Error
  unfolding write_fragment
  with_id c m (some id) = write_fragment c m id
  with_id c m none =
      if leb (2 ^ 64 - 1) c.next_id
      then (c, m, err closed)
      else write_fragment (record c { next_id = c.next_id + 1 }) (record m { id = some c.next_id })
          c.next_id

  unfoldable pub encode_next :
      Channel → OutgoingMessage → Channel × OutgoingMessage × Result (List ℕ) Error
  unfolding with_id
  encode_next c m =
      if c.failed
      then (c, m, err closed)
      else if finished m
      then (c, m, err invalid_message)
      else with_id c m m.id

  -- The `while` loop of `encode`; `none` means that the rounds given ran out.
  prepend :
      List ℕ
      → Option (Channel × Result (List (List ℕ)) Error)
      → Option (Channel × Result (List (List ℕ)) Error)
  prepend sealed none = none
  prepend sealed (some (c, ok records)) = some (c, ok (sealed ∷ records))
  prepend sealed (some (c, err e)) = some (c, err e)

  collect :
      Channel × OutgoingMessage × Result (List ℕ) Error
      → (Channel → OutgoingMessage → Option (Channel × Result (List (List ℕ)) Error))
      → Option (Channel × Result (List (List ℕ)) Error)
  collect (c, m, err e) rest = some (c, err e)
  collect (c, m, ok sealed) rest = prepend sealed (rest c m)

  encode_loop : ℕ → Channel → OutgoingMessage → Option (Channel × Result (List (List ℕ)) Error)
  unfolding collect prepend
  encode_loop zero c m = none
  encode_loop (suc rounds) c m =
      let rest = collect (encode_next c m) (encode_loop rounds) in
      if finished m then some (c, ok []) else rest

  encode_message :
      Channel → Result OutgoingMessage Error → Option (Channel × Result (List (List ℕ)) Error)
  encode_message c (err e) = some (c, err e)
  encode_message c (ok m) = encode_loop (length m.content + 1) c m

  unfoldable pub encode : Channel → List ℕ → Option (Channel × Result (List (List ℕ)) Error)
  unfolding encode_message encode_loop
  encode c content = encode_message c (new_message content)

  -- A fragment at offset 0 starts a message.
  start : Channel → ℕ → ℕ → List ℕ → Channel × Result (List (List ℕ)) Error
  start c id total content =
      if leb id c.last_started
      then (c, err invalid_message)
      else if length content == total
      then (record c { last_started = id }, ok (content ∷ []))
      else if leb max_assemblies (length c.pending) || ltb max_assembly_bytes (c.reserved + total)
      then (record c { last_started = id }, err too_large)
      else (
        record c {
          last_started = id;
          reserved = c.reserved + total;
          pending = insert id (record { total = total; content = content }) c.pending;
        },
        ok [],
      )

  -- Any other fragment must continue the pending message of its id where that stands.
  extend : Channel → ℕ → ℕ → ℕ → List ℕ → Option Assembly → Channel × Result (List (List ℕ)) Error
  extend c id total offset content none = (c, err invalid_message)
  extend c id total offset content (some a) =
      if not (a.total == total) || not (length a.content == offset)
      then (c, err invalid_message)
      else if length (a.content ++ content) == total
      then (
        record c { reserved = c.reserved - total; pending = remove id c.pending },
        ok ((a.content ++ content) ∷ []),
      )
      else (
        record c { pending = insert id (record a { content = a.content ++ content }) c.pending },
        ok [],
      )

  unfoldable pub fragment : Channel → ℕ → ℕ → ℕ → List ℕ → Channel × Result (List (List ℕ)) Error
  unfolding start extend
  fragment c id total offset content =
      if total == 0 || ltb max_message total || ltb total (offset + length content)
      then (c, err too_large)
      else if offset == 0
      then start c id total content
      else extend c id total offset content (get id c.pending)

  -- The fields of an opened record.
  opened : Channel → Option (List ℕ × t.State) → Channel × Result (List (List ℕ)) Error
  opened c none = (c, err noise)
  opened c (some (plain, state)) =
      let c' = record c { transport = state } in
      if leb (length plain) header_bytes
      then (c', err invalid_message)
      else fragment c' (from_be_bytes (take 8 plain)) (from_be_bytes (take 4 (drop 8 plain)))
          (from_be_bytes (take 4 (drop 12 plain))) (drop header_bytes plain)

  unfoldable pub decode_inner : Channel → List ℕ → Channel × Result (List (List ℕ)) Error
  unfolding opened
  decode_inner c sealed =
      if leb (header_bytes + 17) (length sealed)
        && leb (length sealed) (header_bytes + fragment_bytes + 16)
      then opened c (t.read_message c.transport sealed)
      else (c, err invalid_message)

  pub settle : Channel × Result (List (List ℕ)) Error → Channel × Result (List (List ℕ)) Error
  settle (c, ok messages) = (c, ok messages)
  settle (c, err e) = (record c { failed = true; pending = []; reserved = 0 }, err e)

  unfoldable pub decode : Channel → List ℕ → Channel × Result (List (List ℕ)) Error
  unfolding settle
  decode c sealed = if c.failed then (c, err closed) else settle (decode_inner c sealed)
