-- ===== src/Agent/Cursor.antt =====
-- internal/agent/cursor.go: the questions that the Cursor CLI asks, and the answers to them. What
-- `json.Unmarshal` makes of the parameters is the argument.
pub mod Answers
pub mod Print
use lark_coding_agent_bridge.Prelude.{
  ℕ, ◌+◌, String, Bool, false, ◌||◌, Option, none, some, List, [], ◌∷◌, ◌==◌, if◌then◌else◌, concat,
}
use lark_coding_agent_bridge.Agent.Marshal.{show_nat}
use lark_coding_agent_bridge.Agent.Event.{AskOption, AskQuestion}

pub record RawOption : Type 0 where
  pub id : String
  pub label : String

pub record RawQuestion : Type 0 where
  pub id : String
  pub prompt : String
  pub allow_multiple : Option Bool
  pub options : List RawOption

pub record AskParams : Type 0 where
  pub tool_call_id : String
  pub title : String
  pub questions : List RawQuestion

-- A question with its stable id, `cursorAskQ`.
pub record CursorQuestion : Type 0 where
  pub id : String
  pub question : AskQuestion

abbrev pub fill : String → String → String
fill s other = if s == "" then other else s

unfoldable pub cursor_options : List RawOption → List AskOption
cursor_options [] = []
cursor_options (o ∷ os) =
    let rest = cursor_options os in
    let key = fill o.id o.label in
    if key == "" then rest else record { key = key; label = fill o.label key } ∷ rest

abbrev pub or_ok : List AskOption → List AskOption
or_ok [] = record { key = "ok"; label = "确定" } ∷ []
or_ok (o ∷ os) = o ∷ os

abbrev is_multi : Option Bool → Bool
is_multi none = false
is_multi (some b) = b

-- The questions from an index on.
unfoldable pub cursor_questions : String → ℕ → List RawQuestion → List CursorQuestion
unfolding cursor_options show_nat
cursor_questions title i [] = []
cursor_questions title i (q ∷ qs) =
    let rest = cursor_questions title (i + 1) qs in
    let prompt = fill q.prompt title in
    if prompt == ""
    then rest
    else record {
      id = fill q.id (concat "q" (show_nat (i + 1)));
      question = record {
        prompt = prompt;
        options = or_ok (cursor_options q.options);
        multi_select = is_multi q.allow_multiple;
      };
    }
      ∷ rest

unfoldable pub parse_cursor_ask_params : Option AskParams → String × List CursorQuestion
unfolding cursor_questions
parse_cursor_ask_params none = ("", [])
parse_cursor_ask_params (some p) = (p.tool_call_id, cursor_questions p.title 0 p.questions)

unfoldable pub match_cursor_option_id : List AskOption → String → String
match_cursor_option_id [] answer = answer
match_cursor_option_id (o ∷ os) answer =
    let rest = match_cursor_option_id os answer in
    if o.key == answer || o.label == answer then o.key else rest

unfoldable pub selected_ids : List AskOption → List String → List String
unfolding match_cursor_option_id
selected_ids options [] = []
selected_ids options (v ∷ vs) =
    let rest = selected_ids options vs in
    let id = match_cursor_option_id options v in if id == "" then rest else id ∷ rest

pub record CursorAnswer : Type 0 where
  pub question_id : String
  pub selected_option_ids : List String

-- The outcome that the CLI is told.
pub data CursorOutcome : Type 0 where
  cancelled : CursorOutcome
  answered : List CursorAnswer → CursorOutcome

abbrev pub tail_of : List (List String) → List (List String)
tail_of [] = []
tail_of (a ∷ as') = as'

abbrev pub head_of : List (List String) → List String
head_of [] = []
head_of (a ∷ as') = a

unfoldable pub cursor_answers : List CursorQuestion → List (List String) → List CursorAnswer
unfolding selected_ids
cursor_answers [] answers = []
cursor_answers (q ∷ qs) answers =
    record {
      question_id = q.id;
      selected_option_ids = selected_ids q.question.options (head_of answers);
    }
    ∷ cursor_answers qs (tail_of answers)

unfoldable pub format_cursor_ask_answer :
    List CursorQuestion → List (List String) → Bool → CursorOutcome
unfolding cursor_answers
format_cursor_ask_answer questions answers was_cancelled =
    if was_cancelled then cancelled else answered (cursor_answers questions answers)
