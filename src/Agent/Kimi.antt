-- ===== src/Agent/Kimi.antt =====
-- internal/agent/kimi.go: the command and its lines, decoded.
use lark_coding_agent_bridge.Prelude.{
  String, Option, none, some, List, [], ◌∷◌, ◌++◌, ◌==◌, if◌then◌else◌, switch, concat,
}
use lark_coding_agent_bridge.Agent.Event.{Event, blank, EventType}
use lark_coding_agent_bridge.Agent.Claude.{delta_event, option_args}

unfoldable pub kimi_args : String → String → String → String → List String → List String
kimi_args system prompt model session extra =
    "-p"
    ∷ concat system (concat "\n\n" prompt)
    ∷ "--output-format"
    ∷ "stream-json"
    ∷ (option_args "-m" model ++ (option_args "-S" session ++ extra))

pub record RawEvent : Type 0 where
  pub role : String
  pub content : String
  pub session_id : String

abbrev session_events : String → List Event
session_events session =
    if session == "" then [] else record (blank EventType.system) { session_id = session } ∷ []

unfoldable pub translate_kimi_line : Option RawEvent → List Event
translate_kimi_line none = []
translate_kimi_line (some raw) =
    switch raw.role
      (("assistant", delta_event EventType.text raw.content)
        ∷ ("meta", session_events raw.session_id)
        ∷ [])
      []
