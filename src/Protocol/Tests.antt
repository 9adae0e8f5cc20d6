-- ===== src/Protocol/Tests.antt =====
-- crates/protocol at concrete inputs.
use webmux.Protocol.Frames.{
  encode_attach_output_frame, decode_attach_output_frame, encode_terminal_preview_output_frame,
  decode_terminal_preview_output_frame, wrong_magic, attach_frame_magic,
  terminal_preview_frame_magic,
}
use webmux.Protocol.Frames.RoundTrip as Frames
use webmux.Base.{refl}
use webmux.Base.Utf8.{is_utf8}
use webmux.Base.{List, ℕ, err, some, arith, ◌≡◌, true, [], ◌∷◌, ok, ◌↔◌}
use webmux.Protocol.Composer.{ComposerMessage, validate}
use webmux.Protocol.Composer.Validity.{IsValid, validate_iff}

abbrev hello : ComposerMessage
hello = record { id = "m1"; text = b'h' ∷ b'i' ∷ []; attachments = [] }

validate_iff_example : (validate (λ id. true) hello ≡ ok tt) ↔ IsValid (λ id. true) hello
validate_iff_example = validate_iff (λ id. true) hello

abbrev id_bytes : List ℕ
id_bytes = b'a' ∷ b'1' ∷ []

id_bytes_utf8 : is_utf8 id_bytes ≡ true
unfolding is_utf8
id_bytes_utf8 = refl

decode-encode_frame_example :
    let attach = encode_attach_output_frame id_bytes (0 ∷ 255 ∷ []) in
    let preview = encode_terminal_preview_output_frame id_bytes (0 ∷ 255 ∷ []) in
    (Frames.decoded_by decode_attach_output_frame attach ≡ some (ok (id_bytes, 0 ∷ 255 ∷ [])))
    × (Frames.decoded_by decode_terminal_preview_output_frame preview
        ≡ some (ok (id_bytes, 0 ∷ 255 ∷ [])))
    × (Frames.decoded_by decode_attach_output_frame preview
        ≡ some (err (wrong_magic terminal_preview_frame_magic)))
    × (Frames.decoded_by decode_terminal_preview_output_frame attach
        ≡ some (err (wrong_magic attach_frame_magic)))
decode-encode_frame_example =
    Frames.decode-encode_frame id_bytes (0 ∷ 255 ∷ []) (omega arith) id_bytes_utf8
