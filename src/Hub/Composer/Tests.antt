-- ===== src/Hub/Composer/Tests.antt =====
-- The editor's messages at concrete inputs.
use webmux.Base.{string_key, ◌+◌, ◌≤◌, ◌≡◌, refl, true, none, some, List, [], ◌∷◌, ok}
use webmux.Base.Utf8.{text_len, len_utf8, is_control}
use webmux.Base.Map.{get, insert}
use webmux.Protocol.Composer.{validate, ComposerMessage, ComposerStatus}
use webmux.Hub.Composer.{Address, address_key, Row, Library, begin}
use webmux.Hub.Composer.System.{take_task, Event, run, submits, dispatches, restarts}
use webmux.Hub.Composer.{unknown_receipt, refusal, reserve}
use webmux.Hub.Composer.Delivery.{count, rows, sent_at_most_once}

-- A library that takes any id, digests a message to its id, and keeps of a receipt its detail.
abbrev plain : Library
plain = record {
  is_uuid = λ id. true;
  digest = λ m. ok m.id;
  to_string = λ r. r.detail;
  from_str = λ s. ok (record { id = "m1"; status = ComposerStatus.unknown; detail = s });
}

abbrev hello : ComposerMessage
hello = record { id = "m1"; text = b'h' ∷ b'i' ∷ []; attachments = [] }

abbrev place : Address
place = ("ann", ("nas", ("t1", "m1")))

-- The message is sent, the hub restarts before the answer, and the browser tries again.
abbrev twice : List Event
twice =
    submits "ann" "nas" "t1" hello true none
    ∷ dispatches place true true
    ∷ restarts
    ∷ submits "ann" "nas" "t1" hello true none
    ∷ dispatches place true true
    ∷ []

sent_at_most_once_example :
    count place (run plain (record { table = []; waiting = []; asking = []; sent = [] }) twice).sent
      + rows (get place [])
    ≤ 1
sent_at_most_once_example = sent_at_most_once plain [] twice place

-- The retry finds the reservation.
twice_sends_once :
    (run plain (record { table = []; waiting = []; asking = []; sent = [] }) twice).sent
    ≡ place ∷ []
unfolding run take_task begin refusal reserve validate get insert address_key text_len len_utf8
    is_control
twice_sends_once = refl

abbrev fresh_row : List (Address × Row)
fresh_row = (place, ("m1", (unknown_receipt "m1").detail)) ∷ []

hello_valid : validate plain.is_uuid hello ≡ ok tt
unfolding validate text_len len_utf8 is_control
hello_valid = refl

fresh_row_found : get place fresh_row ≡ some ("m1", plain.to_string (unknown_receipt "m1"))
unfolding get address_key
fresh_row_found = refl

nothing_found : get {V = Row} place [] ≡ none
unfolding get
nothing_found = refl
