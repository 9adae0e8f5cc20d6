-- ===== src/Protocol/Frames/RoundTrip.antt =====
-- A frame decodes to what was encoded, by the decoder of its kind only.
use webmux.Base.{
  ℕ, ◌^◌, ◌<◌, ◌≡◌, refl, true, false, Option, none, some, List, ◌++◌, Result, ok, err, length,
  length-append, take-append_length, drop-append_length, ltb, arith,
}
use webmux.Base.Utf8.{is_utf8}
use webmux.Secure.Bytes.{to_be_bytes, from_be_bytes, from_be_bytes-to_be_bytes_u16}
use webmux.Protocol.Frames.{
  FrameError, wrong_magic, encode_frame, decode_body, decode_frame, attach_frame_magic,
  terminal_preview_frame_magic, encode_attach_output_frame, decode_attach_output_frame,
  encode_terminal_preview_output_frame, decode_terminal_preview_output_frame,
}

decode_body-id :
    (id content : List ℕ)
    → length id < 2 ^ 16
    → is_utf8 id ≡ true
    → decode_body (to_be_bytes 2 (length id) ++ (id ++ content)) ≡ ok (id, content)
unfolding decode_body to_be_bytes
decode_body-id id content short text =
    let n : from_be_bytes (to_be_bytes 2 (length id)) ≡ length id =
      from_be_bytes-to_be_bytes_u16 (length id) short in
    let fits : ltb (length (id ++ content)) (length id) ≡ false =
      ground (arith, length-append id content) in
    rw
      (
        n,
        fits,
        take-append_length id content (length id) refl,
        text,
        drop-append_length id content (length id) refl,
      )
      refl

-- What a decoder makes of an encoder's frame; a panic is no frame.
abbrev pub decoded_by :
    (List ℕ → Result (List ℕ × List ℕ) FrameError)
    → Option (List ℕ)
    → Option (Result (List ℕ × List ℕ) FrameError)
decoded_by decode none = none
decoded_by decode (some frame) = some (decode frame)

-- For an id of fewer than 2^16 bytes that is UTF-8, both encoders give a frame, which decodes to the
-- id and the bytes, and which the decoder of the other kind refuses.
pub decode-encode_frame :
    (id content : List ℕ)
    → length id < 2 ^ 16
    → is_utf8 id ≡ true
    → let attach = encode_attach_output_frame id content in
      let preview = encode_terminal_preview_output_frame id content in
      (decoded_by decode_attach_output_frame attach ≡ some (ok (id, content)))
      × (decoded_by decode_terminal_preview_output_frame preview ≡ some (ok (id, content)))
      × (decoded_by decode_attach_output_frame preview
          ≡ some (err (wrong_magic terminal_preview_frame_magic)))
      × (decoded_by decode_terminal_preview_output_frame attach
          ≡ some (err (wrong_magic attach_frame_magic)))
unfolding encode_attach_output_frame decode_attach_output_frame encode_terminal_preview_output_frame
    decode_terminal_preview_output_frame encode_frame decode_frame
decode-encode_frame id content short text =
    let fits : ltb (length id) (2 ^ 16) ≡ true = ground (arith, short) in
    rw (fits, decode_body-id id content short text) (refl, refl, refl, refl)
