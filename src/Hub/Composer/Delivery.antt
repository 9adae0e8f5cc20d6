-- ===== src/Hub/Composer/Delivery.antt =====
-- A message is sent at most once, whatever calls interleave and whenever the hub restarts.
use webmux.Base.{
  Bool-cases, ℕ, ◌+◌, ◌≤◌, String, ◌≡◌, refl, ap, Bool, true, false, Option, none, some, List, [],
  ◌∷◌, Result, ok, err, arith, if◌then◌else◌, string_key, inl, inr,
}
use webmux.Base.Map.{get, insert, get-insert}
use webmux.Protocol.Composer.{ComposerMessage, ComposerReceipt, validate}
use webmux.Hub.Composer.{
  parsed, unknown_receipt, update, Address, address_key, Row, Library, Begun, answered, reserved,
  begin, begin_valid, reserve_on, reservation, reserve, reserve_with, insert_or_ignore, existing,
  refusal, finish, confirmed,
}
use webmux.Hub.Composer.System.{
  at_eq, Task, Sending, Event, take_task, message_id, begun, dispatch, dispatch_first, step, run,
  submits, dispatches, answers, restarts,
}

-- How often an address occurs.
unfoldable pub count : Address → List Address → ℕ
count at [] = 0
count at (a ∷ rest) = (if at_eq a at then 1 else 0) + count at rest

count_tasks : Address → List Task → ℕ
count_tasks at [] = 0
count_tasks at (t ∷ ts) = (if at_eq t.address at then 1 else 0) + count_tasks at ts

abbrev pub rows : Option Row → ℕ
rows none = 0
rows (some row) = 1

rows_le : (o : Option Row) → rows o ≤ 1
rows_le none = omega arith
rows_le (some row) = omega arith

-- For each address there is at most one call under way or sent, and none without its row.
-- A row that was there at first stands for a message that is not to be sent.
pub AtMostOnce : List (Address × Row) → Sending → Type 0
unfolding count_tasks count
AtMostOnce first s =
    (at : Address)
    → rows (get at first) + count_tasks at s.waiting + count at s.sent ≤ rows (get at s.table)

-- Taking a call of an address away lowers the count of that address by one, and no other.
abbrev Taken : Address → Address → List Task → Option (Task × List Task) → Type 0
unfolding count_tasks
Taken at b ts none = Unit
Taken at b ts (some (t, us)) = count_tasks b ts ≡ (if at_eq at b then 1 else 0) + count_tasks b us

take_task-Taken : (at b : Address) (ts : List Task) → Taken at b ts (take_task at ts)
unfolding take_task count_tasks
take_task-Taken at b [] = tt
take_task-Taken at b (x ∷ ts) = elim (Bool-cases (at_eq x.address at)) [
  | inl same ↦ rw same (
      ground (
        arith,
        address_key.eq_iff x.address at,
        ap (λ (y : Address). at_eq y b) {x = x.address} {y = at},
      ))
  | inr other ↦ rw other (later (take_task at ts) (take_task-Taken at b ts))
]
  where
    later :
        (o : Option (Task × List Task))
        → Taken at b ts o
        → Taken at b (x ∷ ts) (elim o [ none ↦ none | some (u, us) ↦ some (u, x ∷ us) ])
    later none k = tt
    later (some (u, us)) k = ground (arith, k)

module _ (lib : Library) (first : List (Address × Row)) where
  update-rows :
      (table : List (Address × Row)) (at b : Address) (r : ComposerReceipt) (o : Option Row)
      → get at table ≡ o
      → rows (get b (update lib table at r o)) ≡ rows (get b table)
  unfolding update
  update-rows table at b r none e = refl
  update-rows table at b r (some row) e = ground (
    arith,
    get-insert at b (row.0, lib.to_string r) table,
    address_key.eq_iff at b,
    ap (λ (x : Address). rows (get x table)) {x = at} {y = b},
  )

  finish-rows :
      (table : List (Address × Row)) (at b : Address) (r : ComposerReceipt) (available : Bool)
      → rows (get b (finish lib table at r available)) ≡ rows (get b table)
  unfolding finish
  finish-rows table at b r true =
      let here : Address = (at.0, (at.1.0, (at.1.1.0, r.id))) in
      update-rows table here b r (get here table) refl
  finish-rows table at b r false = refl

  -- A call answers and changes nothing, or reserves an address that had no row.
  abbrev Shape : List (Address × Row) → Address → List (Address × Row) × Begun → Type 0
  Shape table at (table', answered r) = table' ≡ table
  Shape table at (table', reserved) =
      (get at table ≡ none) × ((row : Row) × (table' ≡ insert at row table))

  parsed-Shape :
      (table : List (Address × Row)) (at : Address) (id : String)
      (r : Result ComposerReceipt String)
      → Shape table at (table, reservation lib id (parsed lib r))
  unfolding reservation parsed
  parsed-Shape table at id (ok r) = refl
  parsed-Shape table at id (err e) = refl

  existing-Shape :
      (table : List (Address × Row)) (at : Address) (id d : String) (row : Row)
      → Shape table at (table, reservation lib id (existing lib d (some row)))
  unfolding existing reservation
  existing-Shape table at id d row = elim (Bool-cases (string_key.eq d row.0)) [
    | inl same ↦ rw same (parsed-Shape table at id (lib.from_str row.1))
    | inr other ↦ rw other refl
  ]

  insert_or_ignore-Shape :
      (table : List (Address × Row)) (at : Address) (m : ComposerMessage) (d : String)
      (o : Option Row)
      → get at table ≡ o
      → let (t, r) = insert_or_ignore lib table at m d o in
        Shape table at (t, reservation lib m.id r)
  unfolding insert_or_ignore reservation
  insert_or_ignore-Shape table at m d none e =
      (e, ((d, lib.to_string (unknown_receipt m.id)), refl))
  insert_or_ignore-Shape table at m d (some row) e = existing-Shape table at m.id d row

  reserve_with-Shape :
      (table : List (Address × Row)) (at : Address) (m : ComposerMessage) (d : Result String String)
      → let (t, r) = reserve_with lib table at m d in Shape table at (t, reservation lib m.id r)
  unfolding reserve_with reservation
  reserve_with-Shape table at m (err e) = refl
  reserve_with-Shape table at m (ok d) = insert_or_ignore-Shape table at m d (get at table) refl

  reserve_on-Shape :
      (table : List (Address × Row)) (at : Address) (m : ComposerMessage) (db : Option String)
      → Shape table at (reserve_on lib table at m db)
  unfolding reserve_on reserve
  reserve_on-Shape table at m none = reserve_with-Shape table at m (lib.digest m)
  reserve_on-Shape table at m (some e) = refl

  begin_valid-Shape :
      (table : List (Address × Row)) (at : Address) (m : ComposerMessage) (db : Option String)
      (v : Result (Unit {0}) String)
      → Shape table at (begin_valid lib table at m db v)
  unfolding begin_valid
  begin_valid-Shape table at m db (err e) = refl
  begin_valid-Shape table at m db (ok _) = reserve_on-Shape table at m db

  begin-Shape :
      (table : List (Address × Row)) (at : Address) (m : ComposerMessage) (db : Option String)
      → Shape table at (begin lib table at m db)
  unfolding begin
  begin-Shape table at m db = begin_valid-Shape table at m db (validate lib.is_uuid m)

  begun-AtMostOnce :
      (s : Sending) (at : Address) (c : Bool) (x : List (Address × Row) × Begun)
      → Shape s.table at x
      → AtMostOnce first s
      → AtMostOnce first (begun lib s at c x)
  unfolding AtMostOnce begun count_tasks
  begun-AtMostOnce s at c (table, answered r) e inv = λ b. ground (arith, e, inv b)
  begun-AtMostOnce s at c (table, reserved) (fresh, (row, e)) inv = λ b. rw e (
      ground (
        arith,
        fresh,
        get-insert at b row s.table,
        address_key.eq_iff at b,
        ap (λ (x : Address). rows (get x s.table)) {x = at} {y = b},
        inv b,
      ))

  dispatch_first-AtMostOnce :
      (s : Sending) (at : Address) (supports available : Bool) (o : Option (Task × List Task))
      → ((b : Address) → Taken at b s.waiting o)
      → AtMostOnce first s
      → AtMostOnce first (dispatch_first lib s at supports available o)
  unfolding AtMostOnce dispatch_first dispatch count
  dispatch_first-AtMostOnce s at supports available none k inv = inv
  dispatch_first-AtMostOnce s at supports available (some (t, rest)) k inv =
      ended (refusal lib (message_id at) t.can_control supports)
    where
      ended : (r : Option ComposerReceipt) → AtMostOnce first (dispatch lib s at r rest available)
      ended none = λ b. ground (arith, k b, inv b)
      ended (some r) = λ b. ground (arith, k b, inv b, finish-rows s.table at b r available)

  step-AtMostOnce : (s : Sending) (e : Event) → AtMostOnce first s → AtMostOnce first (step lib s e)
  unfolding AtMostOnce step count_tasks
  step-AtMostOnce s (submits user machine terminal m c db) inv =
      let at : Address = (user, (machine, (terminal, m.id))) in
      begun-AtMostOnce s at c (begin lib s.table at m db) (begin-Shape s.table at m db) inv
  step-AtMostOnce s (dispatches at supports available) inv =
      dispatch_first-AtMostOnce s at supports available (take_task at s.waiting)
        (λ b. take_task-Taken at b s.waiting) inv
  step-AtMostOnce s (answers at answer available) inv = λ b.
      ground (arith, inv b, finish-rows s.table at b (confirmed (message_id at) answer) available)
  step-AtMostOnce s restarts inv = λ b. ground (arith, inv b)

  run-AtMostOnce :
      (s : Sending) (es : List Event) → AtMostOnce first s → AtMostOnce first (run lib s es)
  unfolding run
  run-AtMostOnce s [] inv = inv
  run-AtMostOnce s (e ∷ es) inv = run-AtMostOnce (step lib s e) es (step-AtMostOnce s e inv)

  -- Over any rows that the database holds, and whatever happens from then on, the hub hands each
  -- message to the machine at most once, and one that has a row already not at all.
  pub sent_at_most_once :
      (es : List Event) (at : Address)
      → let s = run lib (record { table = first; waiting = []; asking = []; sent = [] }) es in
        count at s.sent + rows (get at first) ≤ 1
  unfolding AtMostOnce count_tasks count
  sent_at_most_once es at =
      let s : Sending = record { table = first; waiting = []; asking = []; sent = [] } in
      let s' = run lib s es in
      ground (arith, run-AtMostOnce s es (λ b. omega arith) at, rows_le (get at s'.table))
