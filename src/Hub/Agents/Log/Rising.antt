-- ===== src/Hub/Agents/Log/Rising.antt =====
-- The numbers of the events of a session, as browsers are sent them.
use webmux.Base.{
  ap, sym, subst, ℕ, ◌<◌, ◌^◌, ◌∙◌, String, ◌≡◌, refl, Option, none, some, List, [], ◌∷◌, ◌++◌, All,
  if◌then◌else◌, arith, string_key, is_text,
}
use mathlib.Core.List.{append_assoc}
use webmux.Base.Map.{get}
use webmux.Hub.Agents.{AgentSessionRow, AgentTables, disconnected}
use webmux.Hub.Agents.Statements.{
  SessionUpdate, apply_update, set_status, find_session, mark_machine_sessions_disconnected,
  disconnect_all, disconnected_rows,
}
use webmux.Hub.Agents.Events.{insert_event}
use webmux.Hub.Agents.Messages.{
  announce, announce_all, handle_session_update, handle_session_exited, handle_session_event,
  disconnect_sessions,
}
use webmux.Hub.Wire.{BrowserEvent, agent_session_event, Sent}
use webmux.Hub.Agents.Log.{
  Message, updates, happens, exits, leaves, IsSmall, watermark_of, watermark, handle, handle_all,
}
use webmux.Hub.Agents.Log.Watermark.{watermark-apply_update, get-disconnect_all, watermark-bump}

-- The numbers of the events of a session, in the order in which they are sent.
abbrev pub seqs_of : {S A : Type 0} → String → BrowserEvent S A → List ℕ
seqs_of id (agent_session_event s n event) = if is_text s id then n ∷ [] else []
seqs_of id event = []

abbrev pub sent_seqs : {S A : Type 0} → String → List (Sent S A) → List ℕ
sent_seqs id [] = []
sent_seqs id (x ∷ xs) = seqs_of id x.event ++ sent_seqs id xs

-- Each number is above the one before it, and the first is above `n`.
abbrev pub Rising : ℕ → List ℕ → Type 0
Rising n [] = Unit
Rising n (x ∷ xs) = (n < x) × Rising x xs

-- What one message does: it sends nothing of the session, or one event, above the watermark.
Step : ℕ → List ℕ → ℕ → Type 0
Step w [] w' = w' ≡ w
Step w (n ∷ []) w' = (w < n) × (w' ≡ n)
Step w (n ∷ m ∷ ns) w' = ⊥

Step-silent : (w w' : ℕ) (ns : List ℕ) → ns ≡ [] → w' ≡ w → Step w ns w'
unfolding Step
Step-silent w w' [] e f = f
Step-silent w w' (n ∷ ns) e f = absurd (ground (arith, e))

sent_seqs-append :
    {S A : Type 0} (id : String) (xs ys : List (Sent S A))
    → sent_seqs id (xs ++ ys) ≡ sent_seqs id xs ++ sent_seqs id ys
sent_seqs-append id [] ys = refl
sent_seqs-append id (x ∷ xs) ys =
    ap (λ zs. seqs_of id x.event ++ zs) (sent_seqs-append id xs ys)
    ∙ sym (append_assoc (seqs_of id x.event) (sent_seqs id xs) (sent_seqs id ys))

Rising-Step : (w w' : ℕ) (ns ms : List ℕ) → Step w ns w' → Rising w' ms → Rising w (ns ++ ms)
unfolding Step
Rising-Step w w' [] ms s r = subst (λ v. Rising v ms) s r
Rising-Step w w' (n ∷ []) ms s r = (s.0, subst (λ v. Rising v ms) s.1 r)
Rising-Step w w' (n ∷ m ∷ ns) ms s r = absurd s

module _ (S A : Type 0) (to_json : A → String) where
  announce-silent :
      (id j : String) (o : Option AgentSessionRow)
      → sent_seqs {S = S} {A = A} j (announce id o) ≡ []
  unfolding announce
  announce-silent id j none = refl
  announce-silent id j (some row) = refl

  announce_all-silent :
      (j : String) (rows : List (String × AgentSessionRow))
      → sent_seqs {S = S} {A = A} j (announce_all rows) ≡ []
  unfolding announce_all
  announce_all-silent j [] = refl
  announce_all-silent j ((id, row) ∷ rows) = announce_all-silent j rows

  event-Step :
      (db : AgentTables) (id j : String) (seq : ℕ) (event : A) (now : ℕ)
      → seq < 2 ^ 63
      → Step
          (watermark db j)
          (sent_seqs {S = S} {A = A} j (handle_session_event to_json db id seq event now).1)
          (watermark (handle_session_event {S = S} {A = A} to_json db id seq event now).0 j)
  unfolding handle_session_event find_session insert_event Step
  event-Step db id j seq event now h = ground (
    arith,
    string_key.eq_iff id j,
    watermark-bump (insert_event db id seq (to_json event)) id j seq now h,
  )

  handle-Step :
      (db : AgentTables) (m : Message A) (j : String)
      → IsSmall m
      → Step
          (watermark db j)
          (sent_seqs {S = S} {A = A} j (handle to_json db m).1)
          (watermark (handle {S = S} {A = A} to_json db m).0 j)
  unfolding handle handle_session_update handle_session_exited disconnect_sessions set_status
      mark_machine_sessions_disconnected
  handle-Step db (updates id u now) j s =
      Step-silent (watermark db j) (watermark (apply_update db id u now) j)
        (sent_seqs {S = S} {A = A} j (announce id (find_session (apply_update db id u now) id)))
        (announce-silent id j (find_session (apply_update db id u now) id))
        (watermark-apply_update db id j u now)
  handle-Step db (happens id seq event now) j s = event-Step db id j seq event now s
  handle-Step db (exits id now) j s =
      let u : SessionUpdate = record {
        status = some disconnected;
        title = none;
        acp_session_id = none;
        available_models = none;
        current_model_id = none;
      } in
      Step-silent (watermark db j) (watermark (apply_update db id u now) j)
        (sent_seqs {S = S} {A = A} j (announce id (find_session (apply_update db id u now) id)))
        (announce-silent id j (find_session (apply_update db id u now) id))
        (watermark-apply_update db id j u now)
  handle-Step db (leaves machine now) j s =
      Step-silent (watermark db j)
        (watermark_of (get j (disconnect_all db.agent_sessions machine now)))
        (sent_seqs {S = S} {A = A} j (announce_all (disconnected_rows db.agent_sessions machine)))
        (announce_all-silent j (disconnected_rows db.agent_sessions machine))
        (get-disconnect_all db.agent_sessions machine j now)

  rising :
      (ms : List (Message A)) (db : AgentTables) (j : String)
      → All IsSmall ms
      → Rising (watermark db j) (sent_seqs {S = S} {A = A} j (handle_all to_json db ms).1)
  unfolding handle_all
  rising [] db j s = tt
  rising (m ∷ ms) db j s =
      let out : List (Sent S A) = (handle to_json db m).1 in
      let db' : AgentTables = (handle {S = S} {A = A} to_json db m).0 in
      subst (λ ns. Rising (watermark db j) ns)
        (sym (sent_seqs-append j out (handle_all to_json db' ms).1))
        (Rising-Step (watermark db j) (watermark db' j) (sent_seqs j out)
          (sent_seqs j (handle_all {S = S} {A = A} to_json db' ms).1) (handle-Step db m j s.0)
          (rising ms db' j s.1))

-- Over every sequence of messages whose sequence numbers are below 2^63, the events of a session that
-- browsers are sent have rising numbers, all above the stored watermark: each is sent at most once,
-- also when a session that is resumed starts again at 1.
pub handle_all-Rising :
    (S A : Type 0) (to_json : A → String) (db : AgentTables) (ms : List (Message A)) (id : String)
    → All IsSmall ms
    → Rising (watermark db id) (sent_seqs {S = S} {A = A} id (handle_all to_json db ms).1)
handle_all-Rising S A to_json db ms id small = rising S A to_json ms db id small
