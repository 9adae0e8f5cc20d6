-- ===== src/Hub/Wire.antt =====
-- crates/protocol/src/lib.rs: what machines say to the hub, and the hub to browsers. `S` is the type of
-- a machine's resource statistics and `A` that of an agent's events, which the hub passes on unread. A
-- number of columns or rows is a `u16`, a sequence number a `u64`.
use webmux.Base.{ℕ, String, Bool, Option, List}
use webmux.Hub.Sessions.{TerminalTitleSource}
use webmux.Hub.Agents.{AgentSessionInfo}
use webmux.Hub.Agents.Statements.{SessionUpdate}
use webmux.Protocol.Composer.{ComposerReceipt}

pub record MachineInfo : Type 0 where
  pub id : String
  pub name : String
  pub os : String
  pub home_dir : String
  pub production : Bool

pub data TerminalAttention : Type 0 where
  confirmation : TerminalAttention

pub record TerminalInfo : Type 0 where
  pub id : String
  pub machine_id : String
  pub title : String
  pub cwd : String
  pub title_source : TerminalTitleSource
  pub workspace_group_id : Option String
  pub cols : ℕ
  pub rows : ℕ
  pub reachable : Bool
  pub attention : Option TerminalAttention

pub record WorkspaceGroupInfo : Type 0 where
  pub id : String
  pub machine_id : String
  pub name : String
  pub sort_order : ℕ

-- The tree of panes is its JSON text.
pub record WorkspaceLayoutInfo : Type 0 where
  pub machine_id : String
  pub group_key : String
  pub root : String
  pub updated_at : ℕ

pub record DirEntry : Type 0 where
  pub name : String
  pub path : String
  pub is_dir : Bool

pub data BrowserEvent (S A : Type 0) : Type 0 where
  machine_online : MachineInfo → BrowserEvent S A
  machine_offline machine_removed : String → BrowserEvent S A
  terminal_created terminal_updated terminal_resized : TerminalInfo → BrowserEvent S A
  terminal_destroyed : String → String → BrowserEvent S A
  terminal_reachable_changed : String → String → Bool → BrowserEvent S A
  workspace_group_created workspace_group_updated : WorkspaceGroupInfo → BrowserEvent S A
  workspace_group_deleted : String → String → BrowserEvent S A
  workspace_layout_updated : WorkspaceLayoutInfo → BrowserEvent S A
  machine_stats : String → S → BrowserEvent S A
  mode_changed : String → Option String → BrowserEvent S A
  agent_session_created agent_session_updated : AgentSessionInfo → BrowserEvent S A
  agent_session_destroyed : String → BrowserEvent S A
  agent_session_event : String → ℕ → A → BrowserEvent S A
  agent_session_seen : String → ℕ → BrowserEvent S A

-- An event, and the user that it is sent to: every user, where there is none.
pub record Sent (S A : Type 0) : Type 0 where
  pub target_user_id : Option String
  pub event : BrowserEvent S A

abbrev pub sent : {S A : Type 0} → Option String → BrowserEvent S A → Sent S A
sent user event = record { target_user_id = user; event = event }

pub data MachineToHub (S A : Type 0) : Type 0 where
  composer_result : String → ComposerReceipt → MachineToHub S A
  register : String → String → String → String → String → List String → MachineToHub S A
  created : String → String → String → String → ℕ → ℕ → MachineToHub S A
  create_error : String → String → MachineToHub S A
  destroyed : String → MachineToHub S A
  fs_list_result : String → List DirEntry → MachineToHub S A
  fs_list_error : String → String → MachineToHub S A
  existing_terminals : List TerminalInfo → MachineToHub S A
  resource_stats : S → MachineToHub S A
  foreground_process_result : String → Bool → Option String → MachineToHub S A
  attach_died : String → String → MachineToHub S A
  terminal_died : String → String → MachineToHub S A
  resized : String → ℕ → ℕ → MachineToHub S A
  terminal_title : String → String → TerminalTitleSource → MachineToHub S A
  terminal_cwd : String → String → MachineToHub S A
  terminal_attention : String → Option TerminalAttention → MachineToHub S A
  pong : MachineToHub S A
  agent_session_update : String → SessionUpdate → MachineToHub S A
  agent_session_happened : String → ℕ → A → MachineToHub S A
  agent_session_exited : String → String → MachineToHub S A
