-- ===== src/Hub/Machines/Owners.antt =====
-- Who is told what a machine says of its terminals.
pub mod Handlers
pub mod Told
use webmux.Base.{
  String, ◌≡◌, refl, Bool, true, false, Option, none, some, List, [], ◌∷◌, ok, err, All, All-append,
  if◌then◌else◌, arith, string_key, ℕ, Result,
}
use webmux.Base.Map.{get, remove}
use webmux.Hub.Sessions.{
  TerminalTitleSource, TitleUpdateOutcome, updated, unchanged, rejected, mark_destroyed, Table,
  apply_cwd_update, apply_title_update,
}
use webmux.Hub.Wire.{TerminalInfo, MachineToHub, TerminalAttention}
use webmux.Hub.Wire as Wire
use webmux.Hub.Machines.{
  Effect, sends, replies, PendingResult, MachineConnection, MachineManager, owner_of, on_sessions,
  remove_terminal, persist_terminal, prune_opt, prune_auto_tab_if_empty,
}
use webmux.Hub.Machines.Terminals.{
  answer, handle_created, handle_destroyed, handle_terminal_destroyed_internal, handle_title,
  handle_attention, handle_cwd, apply_resize, handle_stats, added, ended, changed, retitled,
  created_info, group_of,
}
use webmux.Hub.Machines.Reconcile.{
  report, report_all, is_reported, bury, bury_all, reconcile, handle_existing_terminals,
  remembered_of, terminals_by_id,
}
use webmux.Hub.Machines.Messages.{handle_machine_message}

-- An event goes to a user, or to every user where there is none.
abbrev pub IsFor : {S A : Type 0} → Option String → Effect S A → Type 0
IsFor user (sends target event) = target ≡ user
IsFor user (replies request_id result) = Unit

-- The messages on agents' sessions go to the user of the session.
abbrev pub is_agent : {S A : Type 0} → MachineToHub S A → Bool
is_agent (MachineToHub.agent_session_update id update) = true
is_agent (MachineToHub.agent_session_happened id seq event) = true
is_agent (MachineToHub.agent_session_exited id reason) = true
is_agent msg = false

abbrev pub AllFor : (S A : Type 0) → Option String → List (Effect S A) → Type 0
AllFor S A user es = All (IsFor {S = S} {A = A} user) es
