-- ===== src/Agent/Codex/Translate.antt =====
-- internal/agent/codex.go: `codexTranslator.translate` and the methods it calls. A method returns its
-- events and the translator after it.
use lark_coding_agent_bridge.Prelude.{
  String, Bool, true, false, ◌||◌, Option, none, some, List, [], ◌∷◌, ◌++◌, ◌==◌, if◌then◌else◌,
  insert, delete, has_key, switch,
}
use lark_coding_agent_bridge.Agent.Json.{
  Fields, get, as_string, map_field, string_field, int_field, count_of,
}
use lark_coding_agent_bridge.Agent.Event.{Event, blank, TerminationReason, EventType}
use lark_coding_agent_bridge.Agent.Codex.{
  Translator, codex_tool_use, cut, error_message, text_event, result_event, codex_todo_output,
  codex_command_result, codex_file_change_result, codex_mcp_result, codex_web_search_result,
  codex_collab_result, switch,
}

abbrev pub Step : Type 0
Step = List Event × Translator

-- What a literal `codexTranslator{model: model}` holds.
abbrev pub fresh : String → Translator
fresh model = record {
  thread_id = "";
  model = model;
  terminal = false;
  pending_agent_message = "";
  started_items = [];
}

unfoldable pub queue_agent_message : Translator → String → Step
queue_agent_message t message = (
  if t.pending_agent_message == "" then [] else text_event t.pending_agent_message ∷ [],
  record t { pending_agent_message = message },
)

-- A message is queued unless it is empty.
unfoldable pub queued : Translator → String → Step
queued t message = if message == "" then ([], t) else queue_agent_message t message

abbrev is_nil : List Event → Bool
is_nil [] = true
is_nil (e ∷ es) = false

unfoldable pub prepend_pending : Step → Step
prepend_pending (events, t) =
    if is_nil events || t.pending_agent_message == ""
    then (events, t)
    else (text_event t.pending_agent_message ∷ events, record t { pending_agent_message = "" })

unfoldable pub terminal_error : Translator → Fields → String → Step
terminal_error t raw fallback = (
  record (blank EventType.error) {
    message = cut 4096 (error_message raw fallback);
    termination_reason = TerminationReason.failed;
  }
      ∷ [],
  record t { terminal = true },
)

unfoldable pub started : Translator → Option Event → Step
started t none = ([], t)
started t (some call) =
    (call ∷ [], record t { started_items = insert call.id call.name t.started_items })

abbrev pub start_item : Translator → Option Fields → Step
start_item t none = ([], t)
start_item t (some it) = started t (codex_tool_use it)

unfoldable pub translate_item_started : Translator → Fields → Step
translate_item_started t raw = start_item t (map_field raw "item")

unfoldable pub completed : Translator → Event → Option Event → Step
completed t result none = ([], t)
completed t result (some call) =
    let done = record result { kind = EventType.tool_result; id = call.id } in
    (
      if has_key call.id t.started_items then done ∷ [] else call ∷ done ∷ [],
      record t { started_items = delete call.id t.started_items },
    )

unfoldable pub complete_tool : Translator → Fields → Event → Step
complete_tool t it result = completed t result (codex_tool_use it)

unfoldable pub thought : Translator → String → Step
thought t text =
    if text == ""
    then ([], t)
    else prepend_pending (record (blank EventType.thinking) { delta = text } ∷ [], t)

-- The items other than a message, by their type.
abbrev pub item_cases : Translator → Fields → List (String × Step)
item_cases t it =
    ("reasoning", thought t (string_field it ("text" ∷ [])))
    ∷ ("plan", thought t (string_field it ("text" ∷ [])))
    ∷ ("command_execution", prepend_pending (complete_tool t it (codex_command_result it)))
    ∷ ("file_change", prepend_pending (complete_tool t it (codex_file_change_result it)))
    ∷ ("mcp_tool_call", prepend_pending (complete_tool t it (codex_mcp_result it)))
    ∷ ("web_search", prepend_pending (complete_tool t it (codex_web_search_result it)))
    ∷ ("collab_tool_call", prepend_pending (complete_tool t it (codex_collab_result it)))
    ∷ (
      "todo_list",
      prepend_pending
          (complete_tool t it (result_event (codex_todo_output (get it "items")) false)),
    )
    ∷ (
      "error",
      prepend_pending (complete_tool t it (result_event (string_field it ("message" ∷ [])) true)),
    )
    ∷ []

-- A completed item of a type.
unfoldable pub item_completed : Translator → Fields → String → Step
item_completed t it kind =
    if kind == "agent_message"
    then queued t (string_field it ("text" ∷ "message" ∷ []))
    else switch kind (item_cases t it) ([], t)

abbrev pub complete_item : Translator → Option Fields → Step
complete_item t none = ([], t)
complete_item t (some it) = item_completed t it (as_string (get it "type"))

unfoldable pub translate_item_completed : Translator → Fields → Step
translate_item_completed t raw = complete_item t (map_field raw "item")

abbrev usage_event : Fields → Event
usage_event usage = record (blank EventType.usage) {
  input_tokens = count_of (int_field usage ("input_tokens" ∷ "inputTokens" ∷ []));
  output_tokens = count_of (int_field usage ("output_tokens" ∷ "outputTokens" ∷ []));
  cached_input_tokens =
      count_of (int_field usage ("cached_input_tokens" ∷ "cachedInputTokens" ∷ []));
  reasoning_output_tokens =
      count_of (int_field usage ("reasoning_output_tokens" ∷ "reasoningOutputTokens" ∷ []));
}

abbrev pub usage_events : Option Fields → List Event
usage_events none = []
usage_events (some usage) = usage_event usage ∷ []

abbrev pub final_text_events : String → List Event
final_text_events message =
    if message == "" then [] else record (blank EventType.final_text) { content = message } ∷ []

unfoldable pub translate_turn_completed : Translator → Fields → Step
translate_turn_completed t raw =
    let done = record (blank EventType.done) {
      thread_id = t.thread_id;
      termination_reason = TerminationReason.normal;
    } in
    (
      final_text_events t.pending_agent_message
          ++ (usage_events (map_field raw "usage") ++ (done ∷ [])),
      record t { terminal = true; pending_agent_message = "" },
    )

unfoldable pub thread_started : Translator → String → Step
thread_started t id = if id == "" then ([], t) else (
  record (blank EventType.system) { thread_id = id; model = t.model } ∷ [],
  record t { thread_id = id },
)

-- The lines, by their type.
abbrev pub line_cases : Translator → Fields → List (String × Step)
line_cases t raw =
    ("thread.started", thread_started t (string_field raw ("thread_id" ∷ [])))
    ∷ ("item.started", prepend_pending (translate_item_started t raw))
    ∷ ("item.completed", translate_item_completed t raw)
    ∷ ("agent_message", queued t (string_field raw ("message" ∷ "text" ∷ [])))
    ∷ ("turn.completed", translate_turn_completed t raw)
    ∷ ("turn.failed", prepend_pending (terminal_error t raw "codex turn failed"))
    ∷ ("error", prepend_pending (terminal_error t raw "codex error"))
    ∷ []

unfoldable pub translate_typed : Translator → Fields → String → Step
translate_typed t raw kind = switch kind (line_cases t raw) ([], t)

unfoldable pub translate : Translator → Option Fields → Step
translate t none = ([], t)
translate t (some raw) =
    if t.terminal then ([], t) else translate_typed t raw (string_field raw ("type" ∷ []))

-- The events of the lines in turn.
unfoldable pub translate_all : Translator → List (Option Fields) → Step
translate_all t [] = ([], t)
translate_all t (line ∷ lines) =
    let step = translate t line in
    let rest = translate_all step.1 lines in (step.0 ++ rest.0, rest.1)
