-- ===== src/Protocol/Composer.antt =====
-- crates/protocol/src/composer.rs: a message written in the browser's editor, and its receipt. A
-- text is the list of its characters. Whether an id is a UUID is the uuid crate's to say.
pub mod Validity
use webmux.Base.{
  is_nil, ℕ, ◌+◌, ◌-◌, ◌*◌, ◌/◌, ◌^◌, String, Bool, true, false, not, ◌&&◌, ◌||◌, Option, none,
  some, List, [], ◌∷◌, Result, ok, err, ◌>>◌, length, any, ltb, leb, ◌==◌, if◌then◌else◌,
}
use webmux.Base.Utf8.{text_len, is_control}

abbrev pub max_composer_text : ℕ
max_composer_text = 64 * 1024

abbrev pub max_composer_attachments : ℕ
max_composer_attachments = 4

abbrev pub max_composer_attachment_bytes : ℕ
max_composer_attachment_bytes = 20 * 1024 * 1024

pub record ComposerAttachment : Type 0 where
  pub content : List ℕ
  pub mime : List ℕ
  pub filename : Option (List ℕ)

pub record ComposerMessage : Type 0 where
  pub id : String
  pub text : List ℕ
  pub attachments : List ComposerAttachment

pub data ComposerStatus : Type 0 where
  delivered failed unknown : ComposerStatus

pub record ComposerReceipt : Type 0 where
  pub id : String
  pub status : ComposerStatus
  pub detail : String

-- `char::is_whitespace`: the characters with Unicode's property White_Space.
pub is_whitespace : ℕ → Bool
is_whitespace c =
    (leb 9 c && leb c 13)
    || c == 32
    || c == 0x85
    || c == 0xa0
    || c == 0x1680
    || (leb 0x2000 c && leb c 0x200a)
    || c == 0x2028
    || c == 0x2029
    || c == 0x202f
    || c == 0x205f
    || c == 0x3000

-- `text.trim().is_empty()`.
pub is_blank : List ℕ → Bool
unfolding is_whitespace
is_blank text = not (any (λ c. not (is_whitespace c)) text)

-- A character that must not reach a terminal.
pub is_command : ℕ → Bool
is_command c = is_control c && not (c == 0x0a || c == 0x0d || c == 0x09)

-- `saturating_add` on usize.
abbrev pub saturating_add : ℕ → ℕ → ℕ
saturating_add a b = if ltb (a + b) (2 ^ 64) then a + b else 2 ^ 64 - 1

-- The loop over the attachments: the size of all of them.
pub sized : ℕ → List ComposerAttachment → Result ℕ String
sized encoded_size [] = ok encoded_size
sized encoded_size (a ∷ rest) =
    let next = sized (saturating_add encoded_size (text_len a.content)) rest in
    if ltb 255 (text_len a.mime)
      || (elim a.filename [ none ↦ false | some name ↦ ltb 1024 (text_len name) ])
    then err "Attachment metadata is too long"
    else next

pub fits : Result ℕ String → Result (Unit {0}) String
fits (err e) = err e
fits (ok encoded_size) =
    if ltb (max_composer_attachment_bytes * 4 / 3 + 16) encoded_size
    then err "Files must total at most 20 MB"
    else ok tt

unfoldable pub validate : (String → Bool) → ComposerMessage → Result (Unit {0}) String
unfolding is_blank is_command sized fits
validate is_uuid m =
    if not (is_uuid m.id)
    then err "Invalid message ID"
    else if ltb max_composer_text (text_len m.text)
        || ltb max_composer_attachments (length m.attachments)
    then err "Message is too large"
    else if is_blank m.text && is_nil m.attachments
    then err "Write a message or attach a file"
    else if any is_command m.text
    then err "Message contains terminal control characters"
    else fits (sized 0 m.attachments)
