-- ===== src/Hub/Agents/Statements.antt =====
-- crates/hub/src/db/agent_sessions.rs: the statements on the tables of agent sessions.
use webmux.Base.{
  ℕ, String, Bool, ◌&&◌, ◌||◌, Option, none, some, List, [], ◌∷◌, is_text, is_some, if◌then◌else◌,
  string_key,
}
use webmux.Base.Map.{get, insert, modify, remove}
use webmux.Hub.Agents.{
  ℤ, pos, as_i64, larger, AgentKind, AgentSessionStatus, kind_name, status_name, AgentSessionRow,
  EventRow, AgentTables,
}

-- An id that is taken is an error of the statement.
unfoldable pub insert_session :
    AgentTables
    → String
    → String
    → String
    → AgentKind
    → String
    → String
    → AgentSessionStatus
    → Bool
    → Option String
    → Option String
    → ℕ
    → Option AgentTables
unfolding kind_name status_name
insert_session db id user machine kind cwd title status auto_run group model now =
    if is_some (get id db.agent_sessions)
    then none
    else some (record db {
      agent_sessions =
          insert id
            (record {
              user_id = user;
              machine_id = machine;
              agent_kind = kind_name kind;
              cwd = cwd;
              title = title;
              status = status_name status;
              auto_run = auto_run;
              acp_session_id = none;
              workspace_group_id = group;
              available_models = "[]";
              current_model_id = none;
              requested_model_id = model;
              last_event_seq = pos 0;
              created_at = now;
              updated_at = now;
            })
            db.agent_sessions;
    })

unfoldable pub find_session : AgentTables → String → Option AgentSessionRow
find_session db id = get id db.agent_sessions

-- `UPDATE agent_sessions SET … WHERE id = ?`.
unfoldable pub update_session :
    AgentTables → String → (AgentSessionRow → AgentSessionRow) → AgentTables
update_session db id f = record db { agent_sessions = modify id f db.agent_sessions }

-- What a machine says of a session; what it leaves out stays.
pub record SessionUpdate : Type 0 where
  pub status : Option AgentSessionStatus
  pub title : Option String
  pub acp_session_id : Option String
  pub available_models : Option String
  pub current_model_id : Option String

-- The statement for one field that a machine may leave out.
unfoldable pub update_field {ℓ} :
    {A : Type ℓ}
    → AgentTables
    → String
    → ℕ
    → Option A
    → (A → AgentSessionRow → AgentSessionRow)
    → AgentTables
unfolding update_session
update_field db id now none f = db
update_field db id now (some a) f =
    update_session db id (λ row. record (f a row) { updated_at = now })

unfoldable pub apply_update : AgentTables → String → SessionUpdate → ℕ → AgentTables
unfolding update_field status_name
apply_update db id u now =
    let db1 = update_field db id now u.status (λ s row. record row { status = status_name s }) in
    let db2 = update_field db1 id now u.title (λ t row. record row { title = t }) in
    let db3 =
      update_field db2 id now u.acp_session_id (λ a row. record row { acp_session_id = some a }) in
    let db4 =
      update_field db3 id now u.available_models
        (λ json row. record row { available_models = json }) in
    update_field db4 id now u.current_model_id (λ m row. record row { current_model_id = some m })

unfoldable pub set_status : AgentTables → String → AgentSessionStatus → ℕ → AgentTables
unfolding apply_update
set_status db id status now =
    apply_update db id
      (record {
        status = some status;
        title = none;
        acp_session_id = none;
        available_models = none;
        current_model_id = none;
      })
      now

unfoldable pub bump_last_event_seq : AgentTables → String → ℕ → ℕ → AgentTables
unfolding update_session
bump_last_event_seq db id seq now = update_session db id (λ row. record row {
  last_event_seq = larger row.last_event_seq (as_i64 seq);
  updated_at = now;
})

-- `status IN ('starting', 'working', 'asked', 'idle')`.
pub is_live : String → AgentSessionRow → Bool
is_live machine row =
    is_text row.machine_id machine
    && (is_text row.status "starting"
        || is_text row.status "working"
        || is_text row.status "asked"
        || is_text row.status "idle")

unfoldable pub disconnect_all :
    List (String × AgentSessionRow) → String → ℕ → List (String × AgentSessionRow)
disconnect_all [] machine now = []
disconnect_all ((id, row) ∷ rows) machine now =
    (
      id,
      if is_live machine row then record row { status = "disconnected"; updated_at = now } else row,
    )
    ∷ disconnect_all rows machine now

-- The rows as they are returned: with their new status, and the time of their last change before it.
pub disconnected_rows : List (String × AgentSessionRow) → String → List (String × AgentSessionRow)
disconnected_rows [] machine = []
disconnected_rows ((id, row) ∷ rows) machine =
    let rest = disconnected_rows rows machine in
    if is_live machine row then (id, record row { status = "disconnected" }) ∷ rest else rest

unfoldable pub mark_machine_sessions_disconnected :
    AgentTables → String → ℕ → AgentTables × List (String × AgentSessionRow)
unfolding disconnect_all disconnected_rows is_live
mark_machine_sessions_disconnected db machine now = (
  record db { agent_sessions = disconnect_all db.agent_sessions machine now },
  disconnected_rows db.agent_sessions machine,
)

delete_events : List EventRow → String → List EventRow
delete_events [] session = []
delete_events (e ∷ es) session =
    let rest = delete_events es session in if is_text e.session_id session then rest else e ∷ rest

delete_seen : List ((String × String) × ℤ) → String → List ((String × String) × ℤ)
delete_seen [] session = []
delete_seen (((user, s), n) ∷ seen) session =
    let rest = delete_seen seen session in if is_text s session then rest else ((user, s), n) ∷ rest

unfoldable pub delete_session : AgentTables → String → AgentTables
unfolding delete_events delete_seen
delete_session db id = record {
  agent_sessions = remove id db.agent_sessions;
  agent_session_events = delete_events db.agent_session_events id;
  agent_session_seen = delete_seen db.agent_session_seen id;
}
