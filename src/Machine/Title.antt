-- ===== src/Machine/Title.antt =====
-- crates/machine/src/osc_title.rs: terminal titles found in the bytes of a terminal.
pub mod Bounds
pub mod Recovery
use webmux.Base.{
  ℕ, suc, ◌+◌, ◌≤◌, Bool, true, false, not, ◌&&◌, ◌||◌, List, [], ◌∷◌, ◌++◌, length, filter, ltb,
  leb, ◌==◌, if◌then◌else◌,
}
use webmux.Base.Utf8.{from_utf8_lossy, len_utf8, is_control, text_len}

abbrev pub max_title_bytes : ℕ
max_title_bytes = 128

abbrev pub max_sequence_bytes : ℕ
max_sequence_bytes = 4096

pub data State : Type 0 where
  ground escape command : State
  semicolon : ℕ → State
  title : (bytes : List ℕ) (sequence_bytes : ℕ) (escape : Bool) → State
  ignore : (sequence_bytes : ℕ) (escape : Bool) → State

-- The loop of `sanitize_title`: characters are taken as long as they fit.
fitting : ℕ → List ℕ → List ℕ
fitting used [] = []
fitting used (c ∷ cs) =
    let rest = fitting (used + len_utf8 c) cs in
    if ltb max_title_bytes (used + len_utf8 c) then [] else c ∷ rest

unfoldable pub sanitize_title : List ℕ → List ℕ
unfolding fitting
sanitize_title bytes = fitting 0 (filter (λ c. not (is_control c)) (from_utf8_lossy bytes))

-- `push_title` on an empty list of titles.
reported : List ℕ → List (List ℕ)
reported [] = []
reported (c ∷ cs) = (c ∷ cs) ∷ []

unfoldable pub push_title : List ℕ → List (List ℕ)
unfolding reported
push_title bytes = reported (sanitize_title bytes)

-- `u8::is_ascii_control`.
unfoldable pub is_ascii_control : ℕ → Bool
is_ascii_control b = ltb b 0x20 || b == 0x7f

-- One round of the loop of `push`: the next state, and the titles that the byte completes.
unfoldable pub step : State → ℕ → State × List (List ℕ)
step ground byte = (if byte == 0x1b then escape else ground, [])
step escape byte = (if byte == b']' then command else if byte == 0x1b then escape else ground, [])
step command byte = (
  if byte == b'0' || byte == b'2'
      then semicolon byte
      else if byte == 0x07
      then ground
      else if byte == 0x1b
      then ignore 1 true
      else ignore 1 false,
  [],
)
step (semicolon c) byte = (
  if byte == b';'
      then title [] 0 false
      else if byte == 0x07
      then ground
      else ignore 1 (byte == 0x1b),
  [],
)
step (title bytes sequence_bytes esc) byte =
    if esc && byte == 0x5c
    then (ground, push_title bytes)
    else if esc && byte == b']'
    then (command, [])
    else if byte == 0x07
    then (ground, push_title bytes)
    else if leb max_sequence_bytes (sequence_bytes + 1)
    then (if byte == 0x1b then escape else ground, [])
    else (
      title
          (if not esc
              && not (byte == 0x1b)
              && not (is_ascii_control byte)
              && ltb (length bytes) max_title_bytes
            then bytes ++ byte ∷ []
            else bytes)
          (sequence_bytes + 1) (byte == 0x1b),
      [],
    )
step (ignore sequence_bytes esc) byte = (
  if byte == 0x07 || (esc && byte == 0x5c)
      then ground
      else if esc && byte == b']'
      then command
      else if leb max_sequence_bytes (sequence_bytes + 1)
      then if byte == 0x1b then escape else ground
      else ignore (sequence_bytes + 1) (byte == 0x1b),
  [],
)

-- The whole of `push`: the scanner after a chunk, and the titles that the chunk completes.
unfoldable pub push : State → List ℕ → State × List (List ℕ)
push s [] = (s, [])
push s (byte ∷ chunk) =
    let (s', titles) = step s byte in let (s'', rest) = push s' chunk in (s'', titles ++ rest)
