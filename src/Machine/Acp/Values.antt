-- ===== src/Machine/Acp/Values.antt =====
-- crates/machine/src/acp.rs: what a session reads in a JSON value.
use webmux.Base.{ℕ, String, Bool, false, Option, none, some, List, [], ◌∷◌, is_text, if◌then◌else◌}
use webmux.Machine.Acp.{
  AgentModelInfo, AgentQuestionOption, AgentEvent, agent_message_chunk, thought_chunk, tool_call,
  tool_call_update, plan, Json, unwrap_or, and_then,
}
use webmux.Machine.Acp.Texts.{starts_with, tool_call_content_cap, capped_text}

-- `iter().find(p)`, and `filter_map`.
unfoldable pub find {ℓ} : {A : Type ℓ} → (A → Bool) → List A → Option A
find p [] = none
find p (x ∷ xs) = if p x then some x else find p xs

unfoldable pub filter_map {ℓ κ} : {A : Type ℓ} {B : Type κ} → (A → Option B) → List A → List B
filter_map f [] = []
filter_map f (x ∷ xs) = elim (f x) [ none ↦ filter_map f xs | some y ↦ y ∷ filter_map f xs ]

-- `Option::or_else`.
abbrev pub or_else {ℓ} : {A : Type ℓ} → Option A → Option A → Option A
or_else none o = o
or_else (some a) o = some a

module _ (json : Json) where
  abbrev pub str_at : json.Value → String → Option String
  str_at v key = and_then (json.get v key) json.as_str

  abbrev pub has_text : json.Value → String → String → Bool
  has_text v key t = elim (str_at v key) [ none ↦ false | some s ↦ is_text s t ]

  abbrev pub array_at : json.Value → String → Option (List json.Value)
  array_at v key = and_then (json.get v key) json.as_array

  unfoldable pub capped : json.Value → ℕ → String
  unfolding capped_text
  capped value cap = capped_text (json.to_string value) cap

  unfoldable pub content_text : json.Value → String
  content_text update =
      unwrap_or (and_then (json.get update "content") (λ content. str_at content "text")) ""

  -- One model, whose id has the key `key`.
  unfoldable pub model_info : String → json.Value → Option AgentModelInfo
  model_info key item = and_then (str_at item key) λ id. some (record {
    model_id = id;
    name = unwrap_or (str_at item "name") "";
    description = str_at item "description";
  })

  unfoldable pub model_option : List json.Value → Option json.Value
  unfolding find
  model_option options =
      or_else (find (λ o. has_text o "category" "model") options)
        (find (λ o. has_text o "id" "model") options)

  unfoldable pub parse_session_models : json.Value → Option (List AgentModelInfo × Option String)
  unfolding filter_map model_info model_option
  parse_session_models result = elim (json.get result "models") [
    | some models ↦ some (
      filter_map (model_info "modelId") (unwrap_or (array_at models "availableModels") []),
      str_at models "currentModelId",
    )
    | none ↦ and_then (array_at result "configOptions") λ options.
        and_then (model_option options) λ option. some (
          filter_map (model_info "value") (unwrap_or (array_at option "options") []),
          str_at option "currentValue",
        )
  ]

  unfoldable pub map_session_update : json.Value → Option AgentEvent
  unfolding content_text capped
  map_session_update update = and_then (str_at update "sessionUpdate") λ kind.
      if is_text kind "agent_message_chunk"
      then some (agent_message_chunk (content_text update))
      else if is_text kind "agent_thought_chunk"
      then some (thought_chunk (content_text update))
      else if is_text kind "tool_call"
      then some (
          tool_call (unwrap_or (str_at update "toolCallId") "")
            (unwrap_or (str_at update "title") "") (str_at update "kind")
            (unwrap_or (str_at update "status") "pending"))
      else if is_text kind "tool_call_update"
      then some (
          tool_call_update (unwrap_or (str_at update "toolCallId") "") (str_at update "status")
            (and_then (json.get update "content") (λ c. some (capped c tool_call_content_cap))))
      else if is_text kind "plan"
      then some (
          plan (
            unwrap_or
              (and_then (json.get update "entries") (λ c. some (capped c tool_call_content_cap)))
              "[]"))
      else none

  -- `rpc_id_string`.
  unfoldable pub rpc_id_string : json.Value → String
  rpc_id_string id = unwrap_or (json.as_str id) (json.to_string id)

  -- The option that auto-run picks of a permission request.
  unfoldable pub allowed : List json.Value → Option String
  unfolding find starts_with
  allowed options =
      and_then
        (or_else (find (λ o. has_text o "kind" "allow_once") options) (
          find (λ o. elim (str_at o "kind") [ none ↦ false | some kind ↦ starts_with kind "allow" ])
            options))
        (λ option. str_at option "optionId")

  unfoldable pub question_option : json.Value → AgentQuestionOption
  question_option option = record {
    id = unwrap_or (str_at option "optionId") "";
    label = unwrap_or (str_at option "name") "";
    detail = none;
  }
