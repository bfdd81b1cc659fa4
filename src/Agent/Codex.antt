-- ===== src/Agent/Codex.antt =====
-- internal/agent/codex.go: the translation of the lines of `codex exec --json`, which only tests still
-- call, and helpers of the app server. A line is its decoded value, `none` where it is no JSON object. The bytes of a character that the cut of an error message
-- splits, which stand for no text, are dropped.
pub mod Ends
pub mod Said
pub mod Tools
pub mod Translate
use lark_coding_agent_bridge.Prelude.{
  ℕ, ◌-◌, String, Bool, true, false, ◌&&◌, ◌||◌, not, Option, none, some, List, [], ◌∷◌, ◌==◌, leb,
  if◌then◌else◌, Dict, concat, switch,
}
use Prim.Native.Char.{len_utf8}
use lark_coding_agent_bridge.Agent.Json.{
  Json, null, str, obj, Fields, empty, entry, get, as_string, as_bool, as_map, any_slice, map_field,
  string_field, int_field, is_positive,
}
use lark_coding_agent_bridge.Agent.Marshal.{marshal}
use lark_coding_agent_bridge.Agent.Event.{Event, blank, EventType}

pub record Translator : Type 0 where
  pub thread_id : String
  pub model : String
  pub terminal : Bool
  pub pending_agent_message : String
  pub started_items : Dict String

unfoldable pub codex_json : Json → String
unfolding marshal
codex_json null = ""
codex_json v = marshal v

-- The bytes of a text up to a limit.
unfoldable pub cut : ℕ → String → String
cut n String.[] = String.[]
cut n (String.◌∷◌ c s) =
    let rest = cut (n - len_utf8 c) s in if leb (len_utf8 c) n then String.◌∷◌ c rest else String.[]

-- The message of the error under a key `error`.
error_text : Json → String
unfolding string_field as_string
error_text (obj e) = string_field e ("message" ∷ [])
error_text v = as_string v

unfoldable pub error_message : Fields → String → String
unfolding string_field error_text get
error_message raw fallback =
    let message = string_field raw ("message" ∷ []) in
    let nested = error_text (get raw "error") in
    if not (message == "") then message else if not (nested == "") then nested else fallback

abbrev pub use_event : String → String → Json → Event
use_event id name input = record (blank EventType.tool_use) {
  id = id;
  name = name;
  input = codex_json input;
}

abbrev pub text_event : String → Event
text_event s = record (blank EventType.text) { delta = s }

-- The name of a call of an MCP tool.
unfoldable pub mcp_name : String → String → String
mcp_name server tool =
    if server == "" && tool == "" then "mcp" else concat "mcp:" (concat server (concat "/" tool))

-- The tools, by the type of their item.
abbrev pub tool_cases : String → Fields → List (String × Option Event)
tool_cases id it =
    (
      "command_execution",
      some (
          use_event id "command_execution"
            (obj (entry "command" (str (string_field it ("command" ∷ []))) empty))),
    )
    ∷ (
      "file_change",
      some (use_event id "file_change" (obj (entry "changes" (get it "changes") empty))),
    )
    ∷ (
      "mcp_tool_call",
      some (
          use_event id (mcp_name (string_field it ("server" ∷ [])) (string_field it ("tool" ∷ [])))
            (get it "arguments")),
    )
    ∷ (
      "web_search",
      some (
          use_event id "web_search" (
            obj (
              entry "action" (get it "action")
                (entry "query" (str (string_field it ("query" ∷ []))) empty)))),
    )
    ∷ (
      "collab_tool_call",
      some (
          use_event id (concat "collab:" (string_field it ("tool" ∷ []))) (
            obj (
              entry "prompt" (get it "prompt") (
                entry "receiver_thread_ids" (get it "receiver_thread_ids")
                  (entry "sender_thread_id" (get it "sender_thread_id") empty))))),
    )
    ∷ ("todo_list", some (use_event id "todo_list" (get it "items")))
    ∷ ("error", some (use_event id "codex_error" null))
    ∷ []

unfoldable pub codex_tool_use : Fields → Option Event
unfolding string_field mcp_name get codex_json
codex_tool_use it =
    let id = string_field it ("id" ∷ []) in
    if id == "" then none else switch (string_field it ("type" ∷ [])) (tool_cases id it) none

-- A line after the lines so far.
abbrev pub add_line : String → String → String
add_line out line = if out == "" then line else concat out (concat "\n" line)

changes_from : String → List Json → String
unfolding as_map string_field
changes_from out [] = out
changes_from out (raw ∷ rest) = elim (as_map raw) [
  | none ↦ changes_from out rest
  | some change ↦
      changes_from
        (add_line out (
          concat (string_field change ("kind" ∷ []))
            (concat " " (string_field change ("path" ∷ [])))))
        rest
]

unfoldable pub codex_changes_output : Json → String
unfolding changes_from any_slice
codex_changes_output v = changes_from "" (any_slice v)

todos_from : String → List Json → String
unfolding as_map string_field as_bool get
todos_from out [] = out
todos_from out (raw ∷ rest) = elim (as_map raw) [
  | none ↦ todos_from out rest
  | some todo ↦
      todos_from
        (add_line out (
          concat (if as_bool (get todo "completed") then "☑" else "☐")
            (concat " " (string_field todo ("text" ∷ [])))))
        rest
]

unfoldable pub codex_todo_output : Json → String
unfolding todos_from any_slice
codex_todo_output v = todos_from "" (any_slice v)

-- A tool's result, before its id is filled in.
abbrev pub result_event : String → Bool → Event
result_event output failed = record (blank EventType.tool_result) {
  output = output;
  is_error = failed;
}

unfoldable pub codex_command_result : Fields → Event
unfolding string_field int_field
codex_command_result it =
    let status = string_field it ("status" ∷ []) in
    result_event (string_field it ("aggregated_output" ∷ "output" ∷ "stdout" ∷ []))
      (status == "failed" || status == "declined" || is_positive (int_field it ("exit_code" ∷ [])))

unfoldable pub codex_file_change_result : Fields → Event
unfolding string_field codex_changes_output get
codex_file_change_result it =
    result_event (codex_changes_output (get it "changes"))
      (string_field it ("status" ∷ []) == "failed")

unfoldable pub codex_mcp_result : Fields → Event
unfolding string_field map_field codex_json get
codex_mcp_result it = elim (map_field it "error") [
  | some e ↦ result_event (string_field e ("message" ∷ [])) true
  | none ↦ result_event (codex_json (get it "result")) (string_field it ("status" ∷ []) == "failed")
]

unfoldable pub codex_web_search_result : Fields → Event
unfolding string_field codex_json get
codex_web_search_result it =
    let output = codex_json (get it "action") in
    result_event (if output == "" then string_field it ("query" ∷ []) else output) false

unfoldable pub codex_collab_result : Fields → Event
unfolding string_field codex_json get
codex_collab_result it =
    result_event (codex_json (get it "agents_states")) (string_field it ("status" ∷ []) == "failed")
