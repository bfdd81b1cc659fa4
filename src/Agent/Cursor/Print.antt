-- ===== src/Agent/Cursor/Print.antt =====
-- internal/agent/cursor.go: the print mode of the Cursor CLI, its arguments and its lines, decoded.
use lark_coding_agent_bridge.Prelude.{
  String, Bool, false, ◌&&◌, ◌||◌, not, Option, none, some, List, [], ◌∷◌, ◌++◌, ◌==◌,
  if◌then◌else◌, switch,
}
use lark_coding_agent_bridge.Agent.Event.{Event, blank, TerminationReason, EventType}
use lark_coding_agent_bridge.Ask.Answer.{has_text}
use lark_coding_agent_bridge.Agent.Claude.{
  delta_event, done_events, init_events, option_args, RawUsage,
}
use lark_coding_agent_bridge.Agent.Claude.{usage_events}

unfoldable pub cursor_print_args : String → String → List String → String → List String
cursor_print_args session model extra prompt =
    "-p"
    ∷ "--output-format"
    ∷ "stream-json"
    ∷ "--force"
    ∷ (option_args "--resume" session
        ++ (option_args "--model" model ++ (extra ++ (if prompt == "" then [] else prompt ∷ []))))

-- The arguments and the result of a tool as the texts of their JSON, and whether the result names an error.
pub record ToolBody : Type 0 where
  pub args : String
  pub result : String
  pub has_error : Bool

-- A member of `tool_call` with its text, and its body if it has one.
pub record ToolCall : Type 0 where
  pub key : String
  pub raw : String
  pub body : Option ToolBody

-- `strings.TrimSuffix`.
unfoldable pub trim_suffix : String → String → String
trim_suffix String.[] suffix = String.[]
trim_suffix (String.◌∷◌ c s) suffix =
    let rest = trim_suffix s suffix in
    if String.◌∷◌ c s == suffix then String.[] else String.◌∷◌ c rest

-- Name, input, output and failure of a tool call.
pub record Decoded : Type 0 where
  pub name : String
  pub input : String
  pub output : String
  pub failed : Bool

abbrev decode_body : String → String → Option ToolBody → Decoded
decode_body name raw none = record { name = name; input = ""; output = raw; failed = false }
decode_body name raw (some b) = record {
  name = name;
  input = b.args;
  output = b.result;
  failed = not (b.result == "") && b.has_error;
}

-- Of several members the first counts.
unfoldable pub decode_cursor_tool_call : List ToolCall → Decoded
unfolding trim_suffix
decode_cursor_tool_call [] = record { name = "tool"; input = ""; output = ""; failed = false }
decode_cursor_tool_call (c ∷ cs) =
    let name = trim_suffix c.key "ToolCall" in
    decode_body (if name == "" then c.key else name) c.raw c.body

pub record TextBlock : Type 0 where
  pub kind : String
  pub text : String

pub record RawEvent : Type 0 where
  pub kind : String
  pub subtype : String
  pub session_id : String
  pub cwd : String
  pub model : String
  pub call_id : String
  pub text : String
  pub is_error : Bool
  pub result : String
  pub content : List TextBlock
  pub tool_call : List ToolCall
  pub usage : Option RawUsage

unfoldable pub block_events : List TextBlock → List Event
block_events [] = []
block_events (b ∷ bs) =
    (if b.kind == "text" then delta_event EventType.text b.text else []) ++ block_events bs

abbrev tool_events : String → String → Decoded → List Event
tool_events subtype id d =
    switch subtype
      ((
        "started",
        record (blank EventType.tool_use) { id = id; name = d.name; input = d.input } ∷ [],
      )
        ∷ (
          "completed",
          record (blank EventType.tool_result) { id = id; output = d.output; is_error = d.failed }
              ∷ [],
        )
        ∷ [])
      []

abbrev closing_events : RawEvent → List Event
closing_events raw =
    if raw.is_error || has_text raw.subtype "error"
    then record (blank EventType.error) {
      session_id = raw.session_id;
      message = if raw.result == "" then raw.subtype else raw.result;
      termination_reason = TerminationReason.failed;
    }
      ∷ []
    else done_events raw.session_id

unfoldable pub translate_cursor_line : Option RawEvent → List Event
translate_cursor_line none = []
translate_cursor_line (some raw) =
    switch raw.kind
      (("system", init_events raw.subtype raw.session_id raw.cwd raw.model)
        ∷ ("assistant", delta_event EventType.text raw.text ++ block_events raw.content)
        ∷ ("thinking", delta_event EventType.thinking raw.text)
        ∷ ("tool_call", tool_events raw.subtype raw.call_id (decode_cursor_tool_call raw.tool_call))
        ∷ ("result", usage_events raw.usage 0 ++ closing_events raw)
        ∷ [])
      []
