-- ===== src/Agent/Acp.antt =====
-- internal/agent/acp.go: the updates and permissions of an agent that speaks ACP, and the end of a prompt.
-- What `json.Unmarshal` makes of a message is the argument, `none` where it fails.
pub mod Session
use lark_coding_agent_bridge.Prelude.{
  ℕ, ◌/◌, String, ◌&&◌, ◌||◌, Option, none, some, List, [], ◌∷◌, ◌++◌, ◌==◌, ltb, if◌then◌else◌,
  switch, concat,
}
use lark_coding_agent_bridge.Agent.Json.{
  Json, Fields, get, as_map, any_slice, or_empty, string_field,
}
use lark_coding_agent_bridge.Agent.Event.{Event, blank, TerminationReason, EventType}
use lark_coding_agent_bridge.Agent.Codex.{codex_json, use_event, result_event}
use lark_coding_agent_bridge.Agent.OpenCode.{done_event}
use lark_coding_agent_bridge.Agent.Pi.{delta_events}

unfoldable pub acp_content_text : Json → String
unfolding as_map string_field
acp_content_text content =
    let m = or_empty (as_map content) in
    if string_field m ("type" ∷ []) == "text" then string_field m ("text" ∷ []) else ""

content_texts : List Json → String
unfolding as_map string_field acp_content_text get
content_texts [] = ""
content_texts (part ∷ parts) =
    let m = or_empty (as_map part) in
    let rest = content_texts parts in
    if string_field m ("type" ∷ []) == "content"
    then concat (acp_content_text (get m "content")) rest
    else rest

unfoldable pub acp_tool_content_text : Json → String
unfolding content_texts any_slice
acp_tool_content_text content = content_texts (any_slice content)

-- The end of a tool call; other updates of it say nothing.
unfoldable pub tool_call_update : Fields → List Event
unfolding string_field get codex_json acp_tool_content_text
tool_call_update update =
    let status = string_field update ("status" ∷ []) in
    let raw = codex_json (get update "rawOutput") in
    let output = if raw == "" then acp_tool_content_text (get update "content") else raw in
    if status == "completed" || status == "failed"
    then record (result_event output (status == "failed")) {
      id = string_field update ("toolCallId" ∷ []);
    }
      ∷ []
    else []

abbrev pub update_cases : Fields → List (String × List Event)
update_cases update =
    ("agent_message_chunk", delta_events EventType.text (acp_content_text (get update "content")))
    ∷ (
      "agent_thought_chunk",
      delta_events EventType.thinking (acp_content_text (get update "content")),
    )
    ∷ (
      "tool_call",
      use_event (string_field update ("toolCallId" ∷ []))
            (string_field update ("title" ∷ "kind" ∷ [])) (get update "rawInput")
          ∷ [],
    )
    ∷ ("tool_call_update", tool_call_update update)
    ∷ []

-- The events of an update.
unfoldable pub translate_acp_update : Option Fields → List Event
unfolding string_field
translate_acp_update none = []
translate_acp_update (some update) =
    switch (string_field update ("sessionUpdate" ∷ [])) (update_cases update) []

pub record PermissionOption : Type 0 where
  pub option_id : String
  pub kind : String

-- The first option of a kind.
unfoldable pub of_kind : String → List PermissionOption → String
of_kind kind [] = ""
of_kind kind (o ∷ os) = let rest = of_kind kind os in if o.kind == kind then o.option_id else rest

abbrev pub first_id : List PermissionOption → String
first_id [] = ""
first_id (o ∷ os) = o.option_id

abbrev pub or_else : String → String → String
or_else s other = if s == "" then other else s

-- The option that the bridge selects; `none` where it cancels the request.
unfoldable pub auto_allow_permission : List PermissionOption → Option String
unfolding of_kind
auto_allow_permission options =
    let chosen =
      or_else (of_kind "allow_always" options)
        (or_else (of_kind "allow_once" options) (first_id options)) in
    if chosen == "" then none else some chosen

pub record Counts : Type 0 where
  pub input : ℕ
  pub output : ℕ
  pub cached : ℕ
  pub reasoning : ℕ

-- `_meta` of a prompt's result; a tick is a ten thousandth of a millionth of a dollar.
pub record PromptMeta : Type 0 where
  pub session_id : String
  pub model_id : String
  pub counts : Counts
  pub usage : Option (Counts × ℕ)

pub record PromptResult : Type 0 where
  pub stop_reason : String
  pub meta : Option PromptMeta

abbrev pub prefer : ℕ → ℕ → ℕ
prefer n other = if ltb 0 n then n else other

abbrev pub counts_of : PromptMeta → Counts × ℕ
counts_of m = elim m.usage [
  | none ↦ (m.counts, 0)
  | some (u, ticks) ↦ (
    record {
      input = prefer u.input m.counts.input;
      output = prefer u.output m.counts.output;
      cached = prefer u.cached m.counts.cached;
      reasoning = prefer u.reasoning m.counts.reasoning;
    },
    ticks,
  )
]

abbrev pub count_events : Counts × ℕ → List Event
count_events (c, ticks) =
    if ltb 0 c.input || ltb 0 c.output || ltb 0 c.cached || ltb 0 c.reasoning || ltb 0 ticks
    then record (blank EventType.usage) {
      input_tokens = c.input;
      output_tokens = c.output;
      cached_input_tokens = c.cached;
      reasoning_output_tokens = c.reasoning;
      cost_usd = ticks / 10_000;
    }
      ∷ []
    else []

abbrev pub meta_events : Option PromptMeta → List Event
meta_events none = []
meta_events (some m) = count_events (counts_of m)

abbrev pub prompt_session : String → Option PromptMeta → String × String
prompt_session session none = (session, "")
prompt_session session (some m) = (or_else m.session_id session, m.model_id)

abbrev pub system_events : String × String → List Event
system_events (session, model) =
    if session == "" && model == ""
    then []
    else record (blank EventType.system) { session_id = session; model = model } ∷ []

-- The events at the end of a prompt: `none` where the result is no JSON object or nothing.
unfoldable pub usage_events_from_prompt_result : Option PromptResult → String → List Event
usage_events_from_prompt_result none session = []
usage_events_from_prompt_result (some r) session =
    let named = prompt_session session r.meta in
    let interrupted = r.stop_reason == "cancelled" || r.stop_reason == "interrupted" in
    system_events named
    ++ (meta_events r.meta
        ++ (record (done_event
              (if interrupted then TerminationReason.interrupted else TerminationReason.normal)) {
                session_id = named.0;
              }
            ∷ []))
