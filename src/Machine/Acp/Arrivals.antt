-- ===== src/Machine/Acp/Arrivals.antt =====
-- The messages of a session as the hub gets them, each at some time of its clock, and what browsers are
-- sent of its events.
use webmux.Base.{
  ℕ, zero, suc, ◌≤◌, ◌≡◌, refl, sym, ap, ◌∙◌, String, Bool, Option, none, some, List, [], ◌∷◌, ◌++◌,
  length, drop, arith, is_some, is_text, string_key, leb, if◌then◌else◌,
}
use mathlib.Core.List.{append_assoc}
use webmux.Base.Map.{get, get-modify}
use webmux.Hub.Agents.{AgentSessionRow, AgentTables}
use webmux.Hub.Agents.Statements.{SessionUpdate, apply_update, update_field, update_session}
use webmux.Hub.Agents.Log.{Message, updates, happens, exits}
use webmux.Hub.Wire.{
  BrowserEvent, agent_session_event, Sent, agent_session_update, agent_session_happened,
  agent_session_exited,
}
use webmux.Machine.Acp.{AgentEvent, Effect, sends}

-- The messages of a session to the hub, in the order in which they are sent.
abbrev pub arrivals : {V : Type 0} → (ℕ → ℕ) → List (Effect V) → List (Message AgentEvent)
arrivals clock [] = []
arrivals clock (sends (agent_session_update id u) ∷ es) =
    arrivals clock es ++ (updates id u (clock (length es)) ∷ [])
arrivals clock (sends (agent_session_happened id n e) ∷ es) =
    arrivals clock es ++ (happens id n e (clock (length es)) ∷ [])
arrivals clock (sends (agent_session_exited id reason) ∷ es) =
    arrivals clock es ++ (exits id (clock (length es)) ∷ [])
arrivals clock (e ∷ es) = arrivals clock es

-- The events among them, with their numbers.
abbrev pub events : {V : Type 0} → List (Effect V) → List (ℕ × AgentEvent)
events [] = []
events (sends (agent_session_happened id n e) ∷ es) = events es ++ ((n, e) ∷ [])
events (e ∷ es) = events es

-- The events of the session `id` that browsers are sent.
abbrev pub shown_of : {S A : Type 0} → String → BrowserEvent S A → List (ℕ × A)
shown_of id (agent_session_event s n event) = if is_text s id then (n, event) ∷ [] else []
shown_of id event = []

abbrev pub shown : {S A : Type 0} → String → List (Sent S A) → List (ℕ × A)
shown id [] = []
shown id (x ∷ xs) = shown_of id x.event ++ shown id xs

pub shown-append :
    {S A : Type 0} (id : String) (xs ys : List (Sent S A))
    → shown id (xs ++ ys) ≡ shown id xs ++ shown id ys
shown-append id [] ys = refl
shown-append id (x ∷ xs) ys =
    ap (λ zs. shown_of id x.event ++ zs) (shown-append id xs ys)
    ∙ sym (append_assoc (shown_of id x.event) (shown id xs) (shown id ys))

abbrev pub exists : AgentTables → String → Bool
exists db id = is_some (get id db.agent_sessions)

pub exists-update_session :
    (db : AgentTables) (id j : String) (f : AgentSessionRow → AgentSessionRow)
    → exists (update_session db id f) j ≡ exists db j
unfolding update_session
exists-update_session db id j f = ground (arith, get-modify id j f db.agent_sessions)

exists-update_field :
    {B : Type 0} (db : AgentTables) (id : String) (now : ℕ) (o : Option B)
    (f : B → AgentSessionRow → AgentSessionRow) (j : String)
    → exists (update_field db id now o f) j ≡ exists db j
unfolding update_field
exists-update_field db id now none f j = refl
exists-update_field db id now (some b) f j =
    exists-update_session db id j (λ row. record (f b row) { updated_at = now })

pub exists-apply_update :
    (db : AgentTables) (id j : String) (u : SessionUpdate) (now : ℕ)
    → exists (apply_update db id u now) j ≡ exists db j
unfolding apply_update
exists-apply_update db id j u now = simp (exists-update_field) refl

pub drop-append_one :
    {A : Type 0} (w : ℕ) (xs : List A) (x : A)
    → drop w (xs ++ (x ∷ [])) ≡ (if leb w (length xs) then drop w xs ++ (x ∷ []) else [])
drop-append_one zero xs x = ground arith
drop-append_one (suc zero) [] x = refl
drop-append_one (suc (suc w)) [] x = ground arith
drop-append_one (suc w) (y ∷ xs) x = ground (arith, drop-append_one w xs x)

pub drop_all : {A : Type 0} (w : ℕ) (xs : List A) → length xs ≤ w → drop w xs ≡ []
drop_all zero [] h = refl
drop_all (suc w) [] h = refl
drop_all zero (x ∷ xs) h = absurd (omega arith)
drop_all (suc w) (x ∷ xs) h = drop_all w xs (omega arith)
