-- ===== src/Protocol/Composer/Validity.antt =====
-- Which messages are let through.
use webmux.Base.{
  ◌⊎◌, inl, inr, Bool-cases, Bool-cases, ℕ, ◌+◌, ◌-◌, ◌*◌, ◌^◌, ◌≤◌, ◌<◌, String, ◌≡◌, refl, Bool,
  true, false, not, ◌&&◌, ◌||◌, Option, none, some, List, [], ◌∷◌, Result, ok, err, length, any,
  All, ltb, if◌then◌else◌, arith, ◌↔◌,
}
use webmux.Base.Utf8.{is_control, text_len}
use webmux.Base.{is_nil}
use webmux.Protocol.Composer.{
  ComposerAttachment, ComposerMessage, max_composer_text, max_composer_attachments, is_blank,
  is_command, saturating_add, sized, fits, validate,
}

-- The bytes of all attachments, as they are encoded.
pub total : List ComposerAttachment → ℕ
total [] = 0
total (a ∷ rest) = text_len a.content + total rest

abbrev pub IsShort : Option (List ℕ) → Type 0
IsShort none = Unit
IsShort (some name) = text_len name ≤ 1024

abbrev pub HasShortNames : ComposerAttachment → Type 0
HasShortNames a = (text_len a.mime ≤ 255) × IsShort a.filename

sized_ok :
    (n : ℕ) (attachments : List ComposerAttachment) (k : ℕ)
    → sized n attachments ≡ ok k
    → k < 2 ^ 64 - 1
    → (k ≡ n + total attachments) × All HasShortNames attachments
unfolding sized total
sized_ok n [] k e h = (ground arith, tt)
sized_ok n (a ∷ rest) k e h =
    ground (arith, sized_ok (saturating_add n (text_len a.content)) rest k, named a.filename)
  where
    named :
        (o : Option (List ℕ))
        → (elim o [ none ↦ false | some name ↦ ltb 1024 (text_len name) ]) ≡ false
        → IsShort o
    named none q = tt
    named (some name) q = ground arith

sized_total :
    (n : ℕ) (attachments : List ComposerAttachment)
    → All HasShortNames attachments
    → n + total attachments < 2 ^ 64
    → sized n attachments ≡ ok (n + total attachments)
unfolding sized total
sized_total n [] short h = ground arith
sized_total n (a ∷ rest) short h =
    ground (arith, sized_total (saturating_add n (text_len a.content)) rest, named a.filename)
  where
    named :
        (o : Option (List ℕ))
        → IsShort o
        → (elim o [ none ↦ false | some name ↦ ltb 1024 (text_len name) ]) ≡ false
    named none q = refl
    named (some name) q = ground arith

fits_ok : (r : Result ℕ String) → fits r ≡ ok tt → (k : ℕ) × ((r ≡ ok k) × (k ≤ 27962042))
unfolding fits
fits_ok (err x) e = cc
fits_ok (ok k) e = (k, (refl, ground (arith, e)))

fits_total :
    (attachments : List ComposerAttachment)
    → All HasShortNames attachments
    → total attachments ≤ 27962042
    → fits (sized 0 attachments) ≡ ok tt
unfolding fits
fits_total attachments short h =
    rw (sized_total 0 attachments short (omega arith)) (ground (arith, h))

-- The chain of checks passes exactly when each does.
chain_iff :
    (valid_id long many blank command : Bool) (r : Result (Unit {0}) String)
    → ((if not valid_id
          then err "Invalid message ID"
          else if long || many
          then err "Message is too large"
          else if blank
          then err "Write a message or attach a file"
          else if command
          then err "Message contains terminal control characters"
          else r)
        ≡ ok tt)
      ↔ ((valid_id ≡ true)
          × (long ≡ false)
          × (many ≡ false)
          × (blank ≡ false)
          × (command ≡ false)
          × (r ≡ ok tt))
chain_iff false long many blank command r = (λ e. cc, λ e. cc)
chain_iff true true many blank command r = (λ e. cc, λ e. cc)
chain_iff true false true blank command r = (λ e. cc, λ e. cc)
chain_iff true false false true command r = (λ e. cc, λ e. cc)
chain_iff true false false false true r = (λ e. cc, λ e. cc)
chain_iff true false false false false r =
    (λ e. (refl, refl, refl, refl, refl, e), λ (_, _, _, _, _, e). e)

-- A control character, if it is one, that only ends a line or sets a column.
abbrev pub IsHarmless : ℕ → Type 0
IsHarmless c = is_control c ≡ true → (c ≡ 0x0a) ⊎ ((c ≡ 0x0d) ⊎ (c ≡ 0x09))

IsHarmless-iff : (c : ℕ) → (is_command c ≡ false) ↔ IsHarmless c
unfolding is_command
IsHarmless-iff c = (
  λ e q. ground arith,
  λ f. elim (Bool-cases (is_control c)) [ inl q ↦ ground (arith, f q) | inr q ↦ ground (arith, q) ],
)

any_iff : (text : List ℕ) → (any is_command text ≡ false) ↔ All IsHarmless text
any_iff [] = (λ e. tt, λ h. refl)
any_iff (c ∷ text) = (
  λ e. elim (Bool-cases (is_command c)) [
    | inl q ↦ absurd (ground (arith, q, e))
    | inr q ↦ ((IsHarmless-iff c).0 q, (any_iff text).0 (ground (arith, q, e)))
  ],
  λ h. ground (arith, (IsHarmless-iff c).1 h.0, (any_iff text).1 h.1),
)

-- What a message that may go to a terminal is like. The bytes of the attachments are counted as they
-- are encoded, in base64.
pub record IsValid (is_uuid : String → Bool) (m : ComposerMessage) : Type 0 where
  pub id_IsUuid : is_uuid m.id ≡ true
  pub text_bytes : text_len m.text ≤ 64 * 1024
  pub attachment_count : length m.attachments ≤ 4
  pub says_something : (is_blank m.text && is_nil m.attachments) ≡ false
  pub no_command : All IsHarmless m.text
  pub short_names : All HasShortNames m.attachments
  pub attachment_bytes : total m.attachments ≤ 27962042

-- A message passes the check exactly when it is valid: it has a UUID, at most 64 KiB of text and
-- four attachments, something to say, no control character but line ends and tabs, short names, and
-- attachments of at most 20 MiB as base64.
pub validate_iff :
    (is_uuid : String → Bool) (m : ComposerMessage)
    → (validate is_uuid m ≡ ok tt) ↔ IsValid is_uuid m
unfolding validate fits
validate_iff is_uuid m =
    let (to, from) =
      chain_iff (is_uuid m.id) (ltb max_composer_text (text_len m.text))
        (ltb max_composer_attachments (length m.attachments))
        (is_blank m.text && is_nil m.attachments) (any is_command m.text)
        (fits (sized 0 m.attachments)) in
    (
      λ e.
          let (i, l, n, b, c, f) = to e in
          let (k, (q, small)) = fits_ok (sized 0 m.attachments) f in
          let (sum, short) = sized_ok 0 m.attachments k q (omega arith) in
          record {
            id_IsUuid = i;
            text_bytes = ground (arith, l);
            attachment_count = ground (arith, n);
            says_something = b;
            no_command = (any_iff m.text).0 c;
            short_names = short;
            attachment_bytes = omega arith;
          },
      λ v. from (
        v.id_IsUuid,
        ground (arith, v.text_bytes),
        ground (arith, v.attachment_count),
        v.says_something,
        (any_iff m.text).1 v.no_command,
        fits_total m.attachments v.short_names v.attachment_bytes,
      ),
    )
