-- ===== src/Base/Utf8.antt =====
-- Rust's UTF-8: `str::from_utf8`, `String::from_utf8_lossy`, and the tests on a `char` that the
-- program uses. A `char` is its code point.
use Prim.Native.Nat.{ℕ, ◌+◌, ◌-◌, ◌*◌, ◌<◌, suc, zero}
use mathlib.Core.Bool.{Bool, true, false, ◌&&◌, ◌||◌}
use mathlib.Core.Option.{Option, none, some}
use mathlib.Core.List.{List, [], ◌∷◌, ◌++◌}
use webmux.Base.Tests.{ltb, leb, ◌==◌, if◌then◌else◌}

-- Between two characters, or with `left` more continuation bytes to come, the next of which lies
-- from `lo` to `hi`.
pub data Decoder : Type 0 where
  idle : Decoder
  need : (left lo hi acc : ℕ) → Decoder

between : ℕ → ℕ → ℕ → Bool
between lo hi b = leb lo b && leb b hi

-- The first byte of a character: a decoded character, an error (`none`), or more bytes to come.
first : ℕ → Decoder × List (Option ℕ)
unfolding between
first b =
    if ltb b 0x80
    then (idle, some b ∷ [])
    else if between 0xc2 0xdf b
    then (need 0 0x80 0xbf (b - 0xc0), [])
    else if between 0xe0 0xef b
    then (
      need 1 (if b == 0xe0 then 0xa0 else 0x80) (if b == 0xed then 0x9f else 0xbf) (b - 0xe0),
      [],
    )
    else if between 0xf0 0xf4 b
    then (
      need 2 (if b == 0xf0 then 0x90 else 0x80) (if b == 0xf4 then 0x8f else 0xbf) (b - 0xf0),
      [],
    )
    else (idle, none ∷ [])

-- A byte that does not continue the character ends it with an error, and is read again.
also : Option ℕ → Decoder × List (Option ℕ) → Decoder × List (Option ℕ)
also c (d, cs) = (d, c ∷ cs)

more : ℕ → ℕ → Decoder × List (Option ℕ)
more zero acc = (idle, some acc ∷ [])
more (suc left) acc = (need left 0x80 0xbf acc, [])

step : Decoder → ℕ → Decoder × List (Option ℕ)
unfolding first also more
step idle b = first b
step (need left lo hi acc) b =
    if between lo hi b then more left (acc * 64 + (b - 0x80)) else also none (first b)

decode_from : Decoder → List ℕ → List (Option ℕ)
unfolding step
decode_from idle [] = []
decode_from (need left lo hi acc) [] = none ∷ []
decode_from d (b ∷ bs) = let (d', cs) = step d b in cs ++ decode_from d' bs

replaced : List (Option ℕ) → List ℕ
replaced [] = []
replaced (none ∷ cs) = 0xfffd ∷ replaced cs
replaced (some c ∷ cs) = c ∷ replaced cs

-- `String::from_utf8_lossy(bytes).chars()`.
unfoldable pub from_utf8_lossy : List ℕ → List ℕ
unfolding decode_from replaced
from_utf8_lossy bytes = replaced (decode_from idle bytes)

sound : List (Option ℕ) → Bool
sound [] = true
sound (none ∷ cs) = false
sound (some c ∷ cs) = sound cs

-- `str::from_utf8(bytes).is_ok()`.
unfoldable pub is_utf8 : List ℕ → Bool
unfolding decode_from sound
is_utf8 bytes = sound (decode_from idle bytes)

-- `char::len_utf8`.
unfoldable pub len_utf8 : ℕ → ℕ
len_utf8 c = if ltb c 0x80 then 1 else if ltb c 0x800 then 2 else if ltb c 0x10000 then 3 else 4

-- `char::is_control`: the category Cc.
unfoldable pub is_control : ℕ → Bool
unfolding between
is_control c = ltb c 0x20 || between 0x7f 0x9f c

-- `str::len` of a text given by its characters.
unfoldable pub text_len : List ℕ → ℕ
text_len [] = 0
text_len (c ∷ cs) = len_utf8 c + text_len cs

-- ASCII bytes are their characters.
abbrev pub IsAscii : List ℕ → Type 0
IsAscii [] = Unit
IsAscii (b ∷ bs) = (b < 0x80) × IsAscii bs
