-- ===== src/Protocol/Frames.antt =====
-- crates/protocol/src/lib.rs: the binary frames that carry the output of an attach or of a preview,
-- each with the id it belongs to. An id is the bytes of its text; `none` is the panic of an encoder
-- whose id is too long.
pub mod RoundTrip
use webmux.Base.{
  ℕ, ◌+◌, ◌^◌, Bool, true, false, not, Option, none, some, List, [], ◌∷◌, ◌++◌, Result, ok, err,
  length, take, drop, ltb, ◌==◌, if◌then◌else◌,
}
use webmux.Base.Utf8.{is_utf8}
use webmux.Secure.Bytes.{to_be_bytes, from_be_bytes}

abbrev pub attach_frame_magic : ℕ
attach_frame_magic = 0x01

abbrev pub terminal_preview_frame_magic : ℕ
terminal_preview_frame_magic = 0x02

-- The message of a decoder that fails, by its kind.
pub data FrameError : Type 0 where
  empty missing_length truncated not_utf8 : FrameError
  wrong_magic : ℕ → FrameError

encode_frame : ℕ → List ℕ → List ℕ → Option (List ℕ)
encode_frame magic id content =
    if ltb (length id) (2 ^ 16)
    then some (magic ∷ (to_be_bytes 2 (length id) ++ (id ++ content)))
    else none

-- What follows the first byte.
decode_body : List ℕ → Result (List ℕ × List ℕ) FrameError
decode_body [] = err missing_length
decode_body (b ∷ []) = err missing_length
decode_body (b ∷ c ∷ rest) =
    let id_len = from_be_bytes (b ∷ c ∷ []) in
    if ltb (length rest) id_len
    then err truncated
    else if not (is_utf8 (take id_len rest))
    then err not_utf8
    else ok (take id_len rest, drop id_len rest)

decode_frame : ℕ → List ℕ → Result (List ℕ × List ℕ) FrameError
unfolding decode_body
decode_frame magic [] = err empty
decode_frame magic (b ∷ body) = if not (b == magic) then err (wrong_magic b) else decode_body body

unfoldable pub encode_attach_output_frame : List ℕ → List ℕ → Option (List ℕ)
unfolding encode_frame
encode_attach_output_frame = encode_frame attach_frame_magic

unfoldable pub decode_attach_output_frame : List ℕ → Result (List ℕ × List ℕ) FrameError
unfolding decode_frame
decode_attach_output_frame = decode_frame attach_frame_magic

unfoldable pub encode_terminal_preview_output_frame : List ℕ → List ℕ → Option (List ℕ)
unfolding encode_frame
encode_terminal_preview_output_frame = encode_frame terminal_preview_frame_magic

unfoldable pub decode_terminal_preview_output_frame : List ℕ → Result (List ℕ × List ℕ) FrameError
unfolding decode_frame
decode_terminal_preview_output_frame = decode_frame terminal_preview_frame_magic
