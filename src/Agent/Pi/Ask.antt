-- ===== src/Agent/Pi/Ask.antt =====
-- internal/agent/pi.go: the dialogs of a Pi extension as questions, and the answers to them.
use lark_coding_agent_bridge.Prelude.{
  String, Bool, true, false, ◌||◌, Option, none, some, List, [], ◌∷◌, ◌==◌, if◌then◌else◌, switch,
  concat, truncate_runes,
}
use lark_coding_agent_bridge.Agent.Json.{
  Json, bool, str, obj, Fields, empty, entry, get, as_string, any_slice, string_field,
}
use lark_coding_agent_bridge.Agent.Event.{Event, AskOption, AskQuestion, blank, EventType}
use lark_coding_agent_bridge.Agent.OpenCode.{first_answer, option_of}

labels : List Json → List AskOption
unfolding as_string
labels [] = []
labels (v ∷ vs) =
    let rest = labels vs in
    let label = as_string v in if label == "" then rest else option_of label ∷ rest

abbrev question_of : String → List AskOption → AskQuestion
question_of prompt options = record { prompt = prompt; options = options; multi_select = false }

-- A dialog's question, and whether it is answered freely; `none` where there is nothing to ask.
abbrev pub Dialog : Type 0
Dialog = Option (AskQuestion × Bool)

abbrev choose : String → List AskOption → Dialog
choose title [] = none
choose title (o ∷ os) = some (question_of title (o ∷ os), false)

unfoldable pub select_dialog : Fields → Dialog
unfolding labels any_slice get string_field
select_dialog raw =
    choose (string_field raw ("title" ∷ [])) (labels (any_slice (get raw "options")))

confirm_prompt : String → String → String
confirm_prompt title message =
    let both =
      if message == ""
      then title
      else if title == ""
      then message
      else concat title (concat "\n" message) in
    if both == "" then "请确认" else both

unfoldable pub confirm_dialog : Fields → Dialog
unfolding confirm_prompt string_field
confirm_dialog raw = some (
  question_of (confirm_prompt (string_field raw ("title" ∷ [])) (string_field raw ("message" ∷ [])))
      (record { key = "yes"; label = "确认" } ∷ record { key = "no"; label = "取消" } ∷ []),
  false,
)

extra_text : Bool → Fields → String
unfolding string_field truncate_runes
extra_text is_input raw =
    let placeholder = string_field raw ("placeholder" ∷ []) in
    let prefill = string_field raw ("prefill" ∷ []) in
    if is_input
    then (if placeholder == "" then "" else concat "\n（占位：" (concat placeholder "）"))
    else if prefill == ""
    then ""
    else concat "\n\n预填内容：\n```\n" (concat (truncate_runes prefill 500) "\n```")

unfoldable pub text_dialog : Bool → Fields → Dialog
unfolding extra_text string_field
text_dialog is_input raw =
    let title = string_field raw ("title" ∷ []) in
    let head = if title == "" then "请输入" else title in
    some (
      question_of
          (concat head (concat (extra_text is_input raw) "\n\n请在下方输入框作答；也可在聊天中直接回复文字，或点「取消」。"))
          (record { key = "__cancel__"; label = "取消" } ∷ []),
      true,
    )

abbrev pub dialog_cases : Fields → List (String × Dialog)
dialog_cases raw =
    ("select", select_dialog raw)
    ∷ ("confirm", confirm_dialog raw)
    ∷ ("input", text_dialog true raw)
    ∷ ("editor", text_dialog false raw)
    ∷ []

abbrev pub asked_event : String → String → Dialog → List Event
asked_event id source none = []
asked_event id source (some (question, free)) =
    record (blank EventType.ask_user) {
      ask_id = id;
      questions = question ∷ [];
      freeform = free;
      source = if source == "" then "pi" else source;
    }
    ∷ []

-- `translatePiUIRequest` of a session with the given source.
unfoldable pub translate_pi_ui_request : String → Fields → List Event
unfolding string_field
translate_pi_ui_request source raw =
    let id = string_field raw ("id" ∷ []) in
    if id == ""
    then []
    else asked_event id source (switch (string_field raw ("method" ∷ [])) (dialog_cases raw) none)

-- What the extension is told: nothing but that the dialog was cancelled, a decision, or a value.
pub data Response : Type 0 where
  cancelled : Response
  confirmed : Bool → Response
  value : String → Response

abbrev answered : Option String → String
answered none = ""
answered (some s) = s

abbrev is_yes : Option String → Bool
is_yes none = false
is_yes (some k) = k == "yes" || k == "确认" || k == "true"

abbrev pub reply_cases : Option String → List (String × Response)
reply_cases answer =
    let text = if answered answer == "__cancel__" then cancelled else value (answered answer) in
    ("confirm", confirmed (is_yes answer))
    ∷ ("select", text)
    ∷ ("input", text)
    ∷ ("editor", text)
    ∷ []

-- `replyExtensionUI`.
unfoldable pub reply_extension_ui : String → List (List String) → Bool → Response
reply_extension_ui method answers was_cancelled =
    if was_cancelled
    then cancelled
    else switch method (reply_cases (first_answer answers)) cancelled

-- The command that goes to the process.
unfoldable pub response_command : String → Response → Json
response_command id cancelled = obj (
    entry "cancelled" (bool true)
      (entry "id" (str id) (entry "type" (str "extension_ui_response") empty)))
response_command id (confirmed yes') = obj (
    entry "confirmed" (bool yes')
      (entry "id" (str id) (entry "type" (str "extension_ui_response") empty)))
response_command id (value s) =
    obj (
      entry "id" (str id)
        (entry "type" (str "extension_ui_response") (entry "value" (str s) empty)))
