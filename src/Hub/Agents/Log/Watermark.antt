-- ===== src/Hub/Agents/Log/Watermark.antt =====
-- What the statements on agent sessions make of the watermark.
use webmux.Base.{
  is_some, ℕ, ◌<◌, ◌^◌, ◌∙◌, String, ◌≡◌, refl, true, false, Option, none, some, List, [], ◌∷◌, leb,
  if◌then◌else◌, arith, string_key,
}
use webmux.Base.Map.{get, modify, get-modify, mapped}
use webmux.Hub.Agents.{
  ℤ, pos, negsuc, as_i64, max_zero, larger, AgentSessionRow, AgentTables, status_name,
}
use webmux.Hub.Agents.Statements.{
  SessionUpdate, update_field, update_session, apply_update, bump_last_event_seq, disconnect_all,
}
use webmux.Hub.Agents.Log.{watermark_of, watermark}

watermark-update_field :
    {B : Type 0} (db : AgentTables) (id : String) (now : ℕ) (o : Option B)
    (f : B → AgentSessionRow → AgentSessionRow) (j : String)
    → ((b : B) (row : AgentSessionRow) → (f b row).last_event_seq ≡ row.last_event_seq)
    → watermark (update_field db id now o f) j ≡ watermark db j
unfolding update_field update_session
watermark-update_field db id now none f j e = refl
watermark-update_field db id now (some b) f j e =
    at (get j db.agent_sessions)
      (get-modify id j (λ row. record (f b row) { updated_at = now }) db.agent_sessions)
  where
    at :
        (o : Option AgentSessionRow)
        → get j (modify id (λ row. record (f b row) { updated_at = now }) db.agent_sessions) ≡ (
            if string_key.eq id j
            then mapped (λ row. record (f b row) { updated_at = now }) o
            else o)
        → watermark_of
            (get j (modify id (λ row. record (f b row) { updated_at = now }) db.agent_sessions))
          ≡ watermark_of o
    at none h = ground (arith, h)
    at (some row) h = ground (arith, h, e b row)

pub watermark-apply_update :
    (db : AgentTables) (id j : String) (u : SessionUpdate) (now : ℕ)
    → watermark (apply_update db id u now) j ≡ watermark db j
unfolding apply_update
watermark-apply_update db id j u now =
    let db1 : AgentTables =
      update_field db id now u.status (λ s row. record row { status = status_name s }) in
    let db2 : AgentTables = update_field db1 id now u.title (λ t row. record row { title = t }) in
    let db3 : AgentTables =
      update_field db2 id now u.acp_session_id (λ a row. record row { acp_session_id = some a }) in
    let db4 : AgentTables =
      update_field db3 id now u.available_models
        (λ json row. record row { available_models = json }) in
    watermark-update_field db4 id now u.current_model_id
      (λ m row. record row { current_model_id = some m }) j (λ b row. refl)
    ∙ watermark-update_field db3 id now u.available_models
        (λ json row. record row { available_models = json }) j (λ b row. refl)
    ∙ watermark-update_field db2 id now u.acp_session_id
        (λ a row. record row { acp_session_id = some a }) j (λ b row. refl)
    ∙ watermark-update_field db1 id now u.title (λ t row. record row { title = t }) j
        (λ b row. refl)
    ∙ watermark-update_field db id now u.status (λ s row. record row { status = status_name s }) j
        (λ b row. refl)

pub get-disconnect_all :
    (rows : List (String × AgentSessionRow)) (machine j : String) (now : ℕ)
    → watermark_of (get j (disconnect_all rows machine now)) ≡ watermark_of (get j rows)
unfolding disconnect_all get
get-disconnect_all [] machine j now = refl
get-disconnect_all ((i, row) ∷ rows) machine j now =
    ground (arith, get-disconnect_all rows machine j now)

larger-new :
    (last : ℤ) (seq : ℕ)
    → seq < 2 ^ 63
    → leb seq (max_zero last) ≡ false
    → max_zero (larger last (as_i64 seq)) ≡ seq
larger-new (pos n) seq h l = ground (arith, h, l)
larger-new (negsuc n) seq h l = ground (arith, h, l)

bumped :
    (o : Option AgentSessionRow) (seq now : ℕ)
    → seq < 2 ^ 63
    → is_some o ≡ true
    → leb seq (watermark_of o) ≡ false
    → watermark_of (
        mapped
          (λ (r : AgentSessionRow). record r {
            last_event_seq = larger r.last_event_seq (as_i64 seq);
            updated_at = now;
          })
          o)
      ≡ seq
bumped none seq now h i l = absurd (ground (arith, i))
bumped (some row) seq now h i l = larger-new row.last_event_seq seq h l

pub watermark-bump :
    (db : AgentTables) (id j : String) (seq now : ℕ)
    → seq < 2 ^ 63
    → is_some (get id db.agent_sessions) ≡ true
    → leb seq (watermark db id) ≡ false
    → watermark (bump_last_event_seq db id seq now) j
      ≡ (if string_key.eq id j then seq else watermark db j)
unfolding bump_last_event_seq update_session
watermark-bump db id j seq now h i l = ground (
  arith,
  i,
  l,
  string_key.eq_iff id j,
  bumped (get id db.agent_sessions) seq now h i l,
  get-modify id j
      (λ (r : AgentSessionRow). record r {
        last_event_seq = larger r.last_event_seq (as_i64 seq);
        updated_at = now;
      })
      db.agent_sessions,
)
