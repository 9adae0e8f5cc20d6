-- ===== src/Hub/Composer.antt =====
-- crates/hub/src/composer.rs and `submit_composer` of crates/hub/src/machine_manager.rs: a message
-- from the editor is reserved in the database before it is sent to the machine, so that it is sent
-- at most once. `submit` waits in between, and other calls run while it waits: it is cut at those
-- points. The receipts' JSON, the digest (SHA-256 of the message's JSON) and the UUID test are
-- libraries', and what the database and the machine answer is an argument.
pub mod System
pub mod Delivery
pub mod Retry
mod Tests
use webmux.Base.{
  String, ◌≡◌, Bool, true, false, not, Option, none, some, List, [], ◌∷◌, Result, ok, err,
  if◌then◌else◌, string_key, Key, pair_key,
}
use webmux.Base.Map.{get, insert}
use webmux.Protocol.Composer.{ComposerMessage, ComposerReceipt, ComposerStatus, validate}

-- The primary key of `composer_receipts`: user, machine, terminal, message.
abbrev pub Address : Type 0
Address = String × (String × (String × String))

instance unfoldable pub address_key : Key Address
address_key =
    pair_key ⦃a = string_key⦄
      ⦃b = pair_key ⦃a = string_key⦄ ⦃b = pair_key ⦃a = string_key⦄ ⦃b = string_key⦄⦄⦄

-- The rest of a row: digest and receipt.
abbrev pub Row : Type 0
Row = String × String

pub record Library : Type 0 where
  pub is_uuid : String → Bool
  pub digest : ComposerMessage → Result String String
  pub to_string : ComposerReceipt → String
  pub from_str : String → Result ComposerReceipt String

abbrev pub unknown_receipt : String → ComposerReceipt
unknown_receipt id = record {
  id = id;
  status = ComposerStatus.unknown;
  detail =
      "Delivery is pending or unconfirmed. Check status again; this message will not be sent twice.";
}

module _ (lib : Library) where
  -- `from_str(…).map(Some)`.
  parsed : Result ComposerReceipt String → Result (Option ComposerReceipt) String
  parsed (ok r) = ok (some r)
  parsed (err e) = err e

  -- The row found where `INSERT OR IGNORE` inserted none.
  pub existing : String → Option Row → Result (Option ComposerReceipt) String
  unfolding parsed
  existing digest none =
      err "This send ID belongs to different content. The original message was not resent."
  existing digest (some (stored_digest, receipt)) =
      if string_key.eq digest stored_digest
      then parsed (lib.from_str receipt)
      else err "This send ID belongs to different content. The original message was not resent."

  pub insert_or_ignore :
      List (Address × Row)
      → Address
      → ComposerMessage
      → String
      → Option Row
      → List (Address × Row) × Result (Option ComposerReceipt) String
  unfolding existing
  insert_or_ignore table at m digest none =
      (insert at (digest, lib.to_string (unknown_receipt m.id)) table, ok none)
  insert_or_ignore table at m digest (some row) = (table, existing digest (some row))

  pub reserve_with :
      List (Address × Row)
      → Address
      → ComposerMessage
      → Result String String
      → List (Address × Row) × Result (Option ComposerReceipt) String
  unfolding insert_or_ignore
  reserve_with table at m (err e) = (table, err e)
  reserve_with table at m (ok digest) = insert_or_ignore table at m digest (get at table)

  -- `reserve`, where the database answers.
  unfoldable pub reserve :
      List (Address × Row)
      → Address
      → ComposerMessage
      → List (Address × Row) × Result (Option ComposerReceipt) String
  unfolding reserve_with
  reserve table at m = reserve_with table at m (lib.digest m)

-- How far a call of `submit` comes at once: to a receipt, or to a reserved message.
pub data Begun : Type 0 where
  answered : ComposerReceipt → Begun
  reserved : Begun

module _ (lib : Library) where
  abbrev failed_receipt : String → String → ComposerReceipt
  failed_receipt id detail = record { id = id; status = ComposerStatus.failed; detail = detail }

  -- The `match` on the reservation.
  pub reservation : String → Result (Option ComposerReceipt) String → Begun
  reservation id (ok (some receipt)) = answered receipt
  reservation id (err detail) =
      answered (record { id = id; status = ComposerStatus.unknown; detail = detail })
  reservation id (ok none) = reserved

  -- `state.db.get()`, which may fail, and the reservation.
  reserve_on :
      List (Address × Row)
      → Address
      → ComposerMessage
      → Option String
      → List (Address × Row) × Begun
  unfolding reservation
  reserve_on table at m (some detail) = (table, reservation m.id (err detail))
  reserve_on table at m none =
      let (table', r) = reserve lib table at m in (table', reservation m.id r)

  begin_valid :
      List (Address × Row)
      → Address
      → ComposerMessage
      → Option String
      → Result (Unit {0}) String
      → List (Address × Row) × Begun
  unfolding reserve_on
  begin_valid table at m db (err detail) = (table, answered (failed_receipt m.id detail))
  begin_valid table at m db (ok _) = reserve_on table at m db

  -- `submit` up to the dispatch; `db` is the failure of the database, if it fails.
  unfoldable pub begin :
      List (Address × Row)
      → Address
      → ComposerMessage
      → Option String
      → List (Address × Row) × Begun
  unfolding begin_valid
  begin table at m db = begin_valid table at m db (validate lib.is_uuid m)

  -- The receipt without a dispatch, or `none` where `submit_composer` is called.
  pub refusal : String → Bool → Bool → Option ComposerReceipt
  refusal id can_control supports =
      if not can_control
      then some (failed_receipt id "Take control before sending a message")
      else if not supports
      then some (failed_receipt id "Update this machine's offdesk-node to use the local editor")
      else none

  update : List (Address × Row) → Address → ComposerReceipt → Option Row → List (Address × Row)
  update table at receipt none = table
  update table at receipt (some (digest, _)) = insert at (digest, lib.to_string receipt) table

  -- The row is updated under the receipt's id, if the database is there.
  unfoldable pub finish :
      List (Address × Row) → Address → ComposerReceipt → Bool → List (Address × Row)
  unfolding update
  finish table (user, (machine, (terminal, id))) receipt available =
      let at : Address = (user, (machine, (terminal, receipt.id))) in
      if available then update table at receipt (get at table) else table

-- `submit_composer`: what the machine's answer, or its failure to answer, comes to.
pub confirmed : String → Result (Option ComposerReceipt) String → ComposerReceipt
confirmed id (err detail) = record { id = id; status = ComposerStatus.failed; detail = detail }
confirmed id (ok none) = record {
  id = id;
  status = ComposerStatus.unknown;
  detail = "Delivery could not be confirmed. Check the terminal before sending anything again.";
}
confirmed id (ok (some receipt)) = if string_key.eq receipt.id id then receipt else record {
  id = id;
  status = ComposerStatus.unknown;
  detail = "Delivery could not be confirmed. Check the terminal before sending anything again.";
}
