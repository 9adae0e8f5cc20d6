-- ===== src/Hub/Agents/Events.antt =====
-- crates/hub/src/db/agent_sessions.rs: the statements on the log of events, and on what users have read.
use webmux.Base.{
  ℕ, ◌+◌, ◌-◌, String, Bool, false, ◌&&◌, ◌||◌, Option, none, some, List, [], ◌∷◌, is_text, ltb,
  if◌then◌else◌, string_key, Key, pair_key,
}
use webmux.Base.Map.{get, insert}
use webmux.Hub.Agents.{ℤ, pos, negsuc, as_i64, max_zero, is_le, larger, EventRow, AgentTables}

abbrev pub event_history_per_session : ℕ
event_history_per_session = 5000

abbrev pub is_eq : ℤ → ℤ → Bool
is_eq a b = is_le a b && is_le b a

pub holds : List EventRow → String → ℤ → Bool
holds [] session seq = false
holds (e ∷ es) session seq =
    (is_text e.session_id session && is_eq e.seq seq) || holds es session seq

-- `MAX(seq)` of a session.
pub max_seq : List EventRow → String → Option ℤ
max_seq [] session = none
max_seq (e ∷ es) session =
    let rest = max_seq es session in
    if is_text e.session_id session
    then some (elim rest [ none ↦ e.seq | some n ↦ larger e.seq n ])
    else rest

abbrev pub plus : ℤ → ℕ → ℤ
plus (pos n) k = pos (n + k)
plus (negsuc n) k = if ltb n k then pos (k - 1 - n) else negsuc (n - k)

-- `seq <= max - 5000`.
abbrev pub is_old : Option ℤ → ℤ → Bool
is_old none seq = false
is_old (some m) seq = is_le (plus seq event_history_per_session) m

pub trim : List EventRow → String → Option ℤ → List EventRow
trim [] session m = []
trim (e ∷ es) session m =
    let rest = trim es session m in
    if is_text e.session_id session && is_old m e.seq then rest else e ∷ rest

unfoldable pub insert_event : AgentTables → String → ℕ → String → AgentTables
unfolding holds max_seq trim
insert_event db session seq json =
    let events =
      if holds db.agent_session_events session (as_i64 seq)
      then db.agent_session_events
      else record { session_id = session; seq = as_i64 seq; event_json = json }
        ∷ db.agent_session_events in
    record db { agent_session_events = trim events session (max_seq events session) }

instance abbrev pub seen_key : Key (String × String)
seen_key = pair_key ⦃a = string_key⦄ ⦃b = string_key⦄

abbrev pub cursor : Option ℤ → ℤ → ℤ
cursor none n = n
cursor (some m) n = larger m n

unfoldable pub upsert_seen : AgentTables → String → String → ℕ → AgentTables × ℕ
upsert_seen db user session seq =
    let n = cursor (get (user, session) db.agent_session_seen) (as_i64 seq) in
    (record db { agent_session_seen = insert (user, session) n db.agent_session_seen }, max_zero n)
