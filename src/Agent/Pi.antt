-- ===== src/Agent/Pi.antt =====
-- internal/agent/pi.go and pi_models.go: the events of a Pi process, the dialogs that it asks, and the
-- names of its models.
pub mod Ask
pub mod Session
use lark_coding_agent_bridge.Prelude.{
  ℕ, String, ◌&&◌, ◌||◌, not, Option, none, some, List, [], ◌∷◌, ◌==◌, if◌then◌else◌, switch,
  concat, trim_space, cut_at,
}
use lark_coding_agent_bridge.Agent.Json.{
  Json, dollars, str, arr, obj, Fields, get, as_bool, as_map, any_slice, or_empty, map_field,
  string_field, int_field, count_of,
}
use lark_coding_agent_bridge.Agent.Event.{Event, blank, TerminationReason, EventType}
use lark_coding_agent_bridge.Agent.Codex.{text_event, use_event, result_event, error_message}
use lark_coding_agent_bridge.Agent.OpenCode.{done_event, failed_event}

unfoldable pub pi_model_full_id : Json → String
unfolding string_field as_map
pi_model_full_id value =
    let model = or_empty (as_map value) in
    let provider = string_field model ("provider" ∷ []) in
    let id = string_field model ("id" ∷ []) in
    if provider == "" || id == "" then "" else concat provider (concat "/" id)

-- `parsePiModelRef`, `none` where the reference has no provider or no id.
unfoldable pub parse_pi_model_ref : String → Option (String × String)
unfolding cut_at trim_space
parse_pi_model_ref value = elim (cut_at b'/' value) [
  | none ↦ none
  | some (provider, id) ↦
      if trim_space provider == "" || trim_space id == ""
      then none
      else some (trim_space provider, trim_space id)
]

abbrev pub cost_of : Option Fields → ℕ
unfolding dollars get
cost_of none = 0
cost_of (some cost) = dollars (get cost "total")

-- The usage of an assistant's message.
unfoldable pub pi_usage_event : Json → List Event
unfolding int_field map_field cost_of
pi_usage_event (obj usage) =
    record (blank EventType.usage) {
      input_tokens = count_of (int_field usage ("input" ∷ []));
      output_tokens = count_of (int_field usage ("output" ∷ []));
      cached_input_tokens = count_of (int_field usage ("cacheRead" ∷ []));
      cost_usd = cost_of (map_field usage "cost");
    }
    ∷ []
pi_usage_event _ = []

-- The texts of the parts of a content.
unfoldable pub texts_of_parts : List Json → String
unfolding as_map string_field
texts_of_parts [] = ""
texts_of_parts (p ∷ ps) =
    concat (string_field (or_empty (as_map p)) ("text" ∷ [])) (texts_of_parts ps)

unfoldable pub extract_text_content : Json → String
unfolding texts_of_parts
extract_text_content (str s) = s
extract_text_content (arr vs) = texts_of_parts (any_slice (arr vs))
extract_text_content _ = ""

abbrev pub delta_events : EventType → String → List Event
delta_events kind delta = if delta == "" then [] else record (blank kind) { delta = delta } ∷ []

-- The update of an assistant's message.
unfoldable pub message_update : Option Fields → List Event
unfolding string_field error_message
message_update none = []
message_update (some e) =
    let delta = string_field e ("delta" ∷ []) in
    switch (string_field e ("type" ∷ []))
      (("text_delta", delta_events EventType.text delta)
        ∷ ("thinking_delta", delta_events EventType.thinking delta)
        ∷ ("error", failed_event (error_message e "pi message error") ∷ [])
        ∷ [])
      []

unfoldable pub tool_end : Fields → List Event
unfolding string_field map_field as_bool get extract_text_content
tool_end raw =
    let result = map_field raw "result" in
    let output = extract_text_content (get (or_empty result) "content") in
    record (result_event output (as_bool (get raw "isError"))) {
      id = string_field raw ("toolCallId" ∷ []);
    }
    ∷ []

unfoldable pub message_end : Option Fields → List Event
unfolding string_field get pi_usage_event
message_end none = []
message_end (some message) =
    if string_field message ("role" ∷ []) == "assistant"
    then pi_usage_event (get message "usage")
    else []

-- What an extension only tells.
unfoldable pub notify_event : Fields → List Event
unfolding string_field
notify_event raw =
    let message = string_field raw ("message" ∷ []) in
    let kind = string_field raw ("notifyType" ∷ []) in
    let said =
      if kind == "" || kind == "info"
      then message
      else concat "[" (concat kind (concat "] " message)) in
    if string_field raw ("method" ∷ []) == "notify" && not (message == "")
    then text_event (concat said "\n") ∷ []
    else []

abbrev pub pi_cases : Fields → List (String × List Event)
pi_cases raw =
    ("message_update", message_update (map_field raw "assistantMessageEvent"))
    ∷ (
      "tool_execution_start",
      use_event (string_field raw ("toolCallId" ∷ [])) (string_field raw ("toolName" ∷ []))
            (get raw "args")
          ∷ [],
    )
    ∷ ("tool_execution_end", tool_end raw)
    ∷ ("message_end", message_end (map_field raw "message"))
    ∷ ("extension_ui_request", notify_event raw)
    ∷ ("agent_settled", done_event TerminationReason.normal ∷ [])
    ∷ ("agent_end", done_event TerminationReason.normal ∷ [])
    ∷ []

unfoldable pub translate_pi_event : Fields → List Event
translate_pi_event raw = switch (string_field raw ("type" ∷ [])) (pi_cases raw) []
