-- ===== src/Machine/Acp.antt =====
-- crates/machine/src/acp.rs: the session of a coding agent, which speaks JSON-RPC over its standard input
-- and output. Here its state; the children have what it reads, what it does, and what it sends. What a
-- session does is a list of effects, the newest first. The task that bridges commands to the actor
-- keeps their order, and is not modelled; the timer of a watchdog is an effect, and its ringing a message.
pub mod Texts
pub mod Cap
pub mod Values
pub mod Outputs
pub mod Commands
pub mod Handshake
pub mod Lines
pub mod Registry
pub mod Traces
pub mod Numbers
pub mod Ready
pub mod Steady
pub mod Answers
pub mod Questions
pub mod Panics
pub mod Queue
pub mod Early
pub mod Arrivals
pub mod Deliveries
pub mod Transcript
mod Tests
use webmux.Base.{ℕ, ◌+◌, ◌%◌, ◌^◌, String, Bool, Option, none, some, List, [], ◌∷◌}
use webmux.Base.Map.{insert}
use webmux.Hub.Wire.{MachineToHub}

-- crates/protocol/src/lib.rs.
pub record AgentModelInfo : Type 0 where
  pub model_id : String
  pub name : String
  pub description : Option String

pub record AgentQuestionOption : Type 0 where
  pub id : String
  pub label : String
  pub detail : Option String

pub data AgentEvent : Type 0 where
  user_message agent_message_chunk thought_chunk : String → AgentEvent
  tool_call : String → String → Option String → String → AgentEvent
  tool_call_update : String → Option String → Option String → AgentEvent
  plan : String → AgentEvent
  question : String → String → List AgentQuestionOption → AgentEvent
  question_resolved turn_ended error : String → AgentEvent

-- `serde_json`: the type of JSON values, how the program reads them and how it builds them; the text
-- that it sends for a list of models, and the `Debug` text of a string.
pub record Json : Type 1 where
  pub Value : Type 0
  pub from_str : String → Option Value
  pub to_string : Value → String
  pub get : Value → String → Option Value
  pub as_str : Value → Option String
  pub as_u64 : Value → Option ℕ
  pub as_array : Value → Option (List Value)
  pub null : Value
  pub text : String → Value
  pub number : ℕ → Value
  pub negative : ℕ → Value
  pub boolean : Bool → Value
  pub array : List Value → Value
  pub object : List (String × Value) → Value
  pub models_text : List AgentModelInfo → String
  pub debug : String → String

pub data SessionCommand : Type 0 where
  prompt : (text : String) → SessionCommand
  answer : (request_id : String) (option_id text : Option String) → SessionCommand
  set_model : (model_id : String) → SessionCommand
  cancel kill : SessionCommand

-- The end of the output comes with what `try_wait` tells of the child, as text.
pub data ActorMsg : Type 0 where
  command : SessionCommand → ActorMsg
  line : String → ActorMsg
  eof : (reason : String) (status : Option String) → ActorMsg
  handshake_timeout : ℕ → ActorMsg

pub data PendingRpc : Type 0 where
  initialize session_new session_load prompt_sent : PendingRpc
  set_model_sent : (model_id : String) → PendingRpc

-- A line to the agent, a message to the hub, a watchdog on a request, and the end of the child.
-- A session sends no statistics of the machine.
pub data Effect (V : Type 0) : Type 0 where
  writes : V → Effect V
  sends : MachineToHub (Unit {0}) AgentEvent → Effect V
  watches : ℕ → Effect V
  kills : Effect V

pub record SessionActor (V : Type 0) : Type 0 where
  pub session_id : String
  pub cwd : String
  pub auto_run : Bool
  pub seq : ℕ
  pub acp_session_id : Option String
  pub resume_acp_session_id : Option String
  pub suppress_updates : Bool
  pub failed : Bool
  pub pending_question : Option (String × V)
  pub queued_commands : List SessionCommand
  pub pending : List (ℕ × PendingRpc)
  pub next_rpc_id : ℕ
  pub available_models : List AgentModelInfo
  pub current_model_id : Option String
  pub supports_models : Bool
  pub requested_model_id : Option String
  pub flush_after_set_model : Bool
  pub modes : Option V
  pub ended : Bool
  pub effects : List (Effect V)

abbrev pub u64 : ℕ → ℕ
u64 n = n % 2 ^ 64

abbrev pub max_queued_commands : ℕ
max_queued_commands = 16

-- `Option::unwrap_or`.
abbrev pub unwrap_or {ℓ} : {A : Type ℓ} → Option A → A → A
unwrap_or none a = a
unwrap_or (some b) a = b

-- `Option::and_then`, and `?` on an option.
abbrev pub and_then {ℓ κ} : {A : Type ℓ} {B : Type κ} → Option A → (A → Option B) → Option B
and_then none f = none
and_then (some a) f = f a
