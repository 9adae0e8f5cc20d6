-- ===== src/Hub/Agents/Names.antt =====
-- The names of agents and statuses in the database.
use webmux.Base.{◌≡◌, refl}
use webmux.Hub.Agents.{
  AgentKind, claude, codex, grok, kimi, AgentSessionStatus, starting, working, asked, idle, error,
  disconnected, kind_name, kind_from_name, status_name, status_from_name,
}

kind_round : (k : AgentKind) → kind_from_name (kind_name k) ≡ k
unfolding kind_name kind_from_name
kind_round claude = refl
kind_round codex = refl
kind_round grok = refl
kind_round kimi = refl

status_round : (s : AgentSessionStatus) → status_from_name (status_name s) ≡ s
unfolding status_name status_from_name
status_round starting = refl
status_round working = refl
status_round asked = refl
status_round idle = refl
status_round error = refl
status_round disconnected = refl

-- The kind of an agent and the status of a session are read back as they were written.
pub names_round_trip :
    (k : AgentKind) (s : AgentSessionStatus)
    → (kind_from_name (kind_name k) ≡ k) × (status_from_name (status_name s) ≡ s)
names_round_trip k s = (kind_round k, status_round s)
