-- ===== src/Hub/Composer/Retry.antt =====
-- What a browser gets that sends a message again.
use webmux.Base.{
  String, ◌≡◌, refl, none, some, List, ok, if◌then◌else◌, string_key, inl, inr, Bool-cases,
}
use webmux.Base.Map.{get}
use webmux.Protocol.Composer.{ComposerMessage, ComposerReceipt, ComposerStatus, validate}
use webmux.Hub.Composer.{
  Address, address_key, Row, Library, answered, begin, begin_valid, reserve_on, reservation,
  reserve, reserve_with, insert_or_ignore, existing, parsed,
}

module _ (lib : Library) where
  -- A valid message that has a row, whose receipt parses: with the digest of the row the receipt stored there is the answer, and
  -- with any other an error is.
  pub begin_again :
      (table : List (Address × Row)) (at : Address) (m : ComposerMessage) (d d' : String)
      (r : ComposerReceipt)
      → lib.from_str (lib.to_string r) ≡ ok r
      → get at table ≡ some (d', lib.to_string r)
      → validate lib.is_uuid m ≡ ok tt
      → lib.digest m ≡ ok d
      → begin lib table at m none ≡ (
        table,
        answered (
            if string_key.eq d d' then r else record {
              id = m.id;
              status = ComposerStatus.unknown;
              detail =
                  "This send ID belongs to different content. The original message was not resent.";
            }),
      )
  unfolding begin begin_valid reserve_on reserve reserve_with insert_or_ignore existing parsed
      reservation
  begin_again table at m d d' r law row valid digest =
      rw (valid, digest, row, law)
        (elim (Bool-cases (string_key.eq d d')) [
          | inl same ↦ rw same refl
          | inr other ↦ rw other refl
        ])
