-- ===== src/Agent/Grok.antt =====
-- internal/agent/grok.go: questions of Grok, their answers, and the lines of its print mode, decoded.
use lark_coding_agent_bridge.Prelude.{
  ℕ, String, ◌≡◌, refl, ap, ◌∙◌, Bool, true, false, ◌&&◌, ◌||◌, not, Option, none, some, List, [],
  ◌∷◌, ◌++◌, ◌==◌, if◌then◌else◌, switch, All,
}
use lark_coding_agent_bridge.Agent.Json.{
  Json, str, arr, obj, Items, stop, item, Fields, empty, entry, get, put, get-put, get-put_other,
}
use lark_coding_agent_bridge.Agent.Event.{Event, AskOption, AskQuestion, blank, EventType}
use lark_coding_agent_bridge.Agent.Claude.{delta_event, done_events}
use lark_coding_agent_bridge.Agent.Cursor.{fill, or_ok, head_of, tail_of}

pub record RawOption : Type 0 where
  pub label : String

pub record RawQuestion : Type 0 where
  pub question : String
  pub multi_select : Option Bool
  pub options : List RawOption

pub record AskParams : Type 0 where
  pub tool_call_id : String
  pub questions : List RawQuestion

-- The label is the key; an option without one is left out.
unfoldable pub grok_options : List RawOption → List AskOption
grok_options [] = []
grok_options (o ∷ os) =
    let rest = grok_options os in
    if o.label == "" then rest else record { key = o.label; label = o.label } ∷ rest

abbrev is_multi : Option Bool → Bool
is_multi none = false
is_multi (some b) = b

unfoldable pub grok_questions : List RawQuestion → List AskQuestion
unfolding grok_options
grok_questions [] = []
grok_questions (q ∷ qs) =
    let rest = grok_questions qs in
    if q.question == ""
    then rest
    else record {
      prompt = q.question;
      options = or_ok (grok_options q.options);
      multi_select = is_multi q.multi_select;
    }
      ∷ rest

unfoldable pub parse_grok_ask_params : Option AskParams → String × List AskQuestion
parse_grok_ask_params none = ("", [])
parse_grok_ask_params (some p) = (p.tool_call_id, grok_questions p.questions)

abbrev strings : List String → Items
strings [] = stop
strings (s ∷ ss) = item (str s) (strings ss)

-- A list for several choices, a text for one.
abbrev pub grok_value : Bool → List String → Json
grok_value true vals = arr (strings vals)
grok_value false [] = str ""
grok_value false (v ∷ []) = str v
grok_value false (v ∷ w ∷ vals) = arr (strings (v ∷ w ∷ vals))

unfoldable pub grok_answers : List AskQuestion → List (List String) → Fields → Fields
grok_answers [] answers m = m
grok_answers (q ∷ qs) answers m =
    grok_answers qs (tail_of answers) (put q.prompt (grok_value q.multi_select (head_of answers)) m)

unfoldable pub format_grok_ask_answer : List AskQuestion → List (List String) → Bool → Fields
format_grok_ask_answer questions answers was_cancelled =
    if was_cancelled
    then entry "outcome" (str "cancelled") empty
    else entry "outcome" (str "accepted")
        (entry "answers" (obj (grok_answers questions answers empty)) empty)

abbrev is_nil : List AskQuestion → Bool
is_nil [] = true
is_nil (q ∷ qs) = false

-- What a request of the agent does: nothing where it is not a question, a cancelled question, or an event.
pub data Reverse : Type 0 where
  unknown cancelled : Reverse
  ask : Event → Reverse

-- `handleReverse` for a run in flight; `stamp` is the id of a question that has none.
unfoldable pub handle_reverse : String → String → Bool → Option AskParams → Reverse
handle_reverse stamp method running params =
    let parsed = parse_grok_ask_params params in
    let event = record (blank EventType.ask_user) {
      ask_id = fill parsed.0 stamp;
      questions = parsed.1;
      freeform = true;
      source = "grok";
    } in
    if not (method == "_x.ai/ask_user_question") && not (method == "x.ai/ask_user_question")
    then unknown
    else if is_nil parsed.1 || not running
    then cancelled
    else ask event

pub record EndUsage : Type 0 where
  pub input_tokens : ℕ
  pub output_tokens : ℕ
  pub reasoning_tokens : ℕ
  pub cache_read_input_tokens : ℕ

-- `grokRawEvent`; of the models in use only a name matters.
pub record RawEvent : Type 0 where
  pub kind : String
  pub text : String
  pub usage : Option EndUsage
  pub model_name : String
  pub session_id : String
  pub total_cost_usd : ℕ

abbrev end_usage : Option EndUsage → ℕ → List Event
end_usage none cost = []
end_usage (some u) cost =
    record (blank EventType.usage) {
      input_tokens = u.input_tokens;
      output_tokens = u.output_tokens;
      cached_input_tokens = u.cache_read_input_tokens;
      reasoning_output_tokens = u.reasoning_tokens;
      cost_usd = cost;
    }
    ∷ []

abbrev end_events : RawEvent → List Event
end_events raw =
    let known = record (blank EventType.system) {
      session_id = raw.session_id;
      model = raw.model_name;
    } in
    (if raw.session_id == "" then [] else known ∷ [])
    ++ (end_usage raw.usage raw.total_cost_usd ++ done_events raw.session_id)

unfoldable pub translate_grok_line : Option RawEvent → List Event
translate_grok_line none = []
translate_grok_line (some raw) =
    switch raw.kind
      (("thought", delta_event EventType.thinking raw.text)
        ∷ ("text", delta_event EventType.text raw.text)
        ∷ ("end", end_events raw)
        ∷ [])
      []

-- The answer to every prompt, as it is read from the answers.
abbrev pub Told : List AskQuestion → List (List String) → Fields → Type 0
Told [] answers m = Unit {0}
Told (q ∷ qs) answers m =
    (get m q.prompt ≡ grok_value q.multi_select (head_of answers)) × Told qs (tail_of answers) m

-- No prompt stands twice.
abbrev pub Distinct : List AskQuestion → Type 0
Distinct [] = Unit {0}
Distinct (q ∷ qs) = All (λ (p : AskQuestion). (p.prompt == q.prompt) ≡ false) qs × Distinct qs

grok_answers-other :
    (qs : List AskQuestion) (answers : List (List String)) (m : Fields) (other : String)
    → All (λ (p : AskQuestion). (p.prompt == other) ≡ false) qs
    → get (grok_answers qs answers m) other ≡ get m other
unfolding grok_answers
grok_answers-other [] answers m other h = refl
grok_answers-other (q ∷ qs) answers m other h =
    grok_answers-other qs (tail_of answers) _ other h.1
    ∙ get-put_other q.prompt other (grok_value q.multi_select (head_of answers)) m h.0

-- Where no prompt stands twice, Grok finds under each prompt the answer to its question: a list where
-- several options may be chosen or were, and the text of the one answer otherwise.
pub grok_answers-Told :
    (qs : List AskQuestion) (answers : List (List String)) (m : Fields)
    → Distinct qs
    → Told qs answers (grok_answers qs answers m)
unfolding grok_answers
grok_answers-Told [] answers m d = tt
grok_answers-Told (q ∷ qs) answers m d =
    let value = grok_value q.multi_select (head_of answers) in
    (
      grok_answers-other qs (tail_of answers) (put q.prompt value m) q.prompt d.0
          ∙ get-put q.prompt value m,
      grok_answers-Told qs (tail_of answers) (put q.prompt value m) d.1,
    )

-- Two questions with one prompt: the answer to the first is lost.
pub grok_answers-twice :
    (p q : AskQuestion) (a b : List String) (m : Fields)
    → p.prompt ≡ q.prompt
    → get (grok_answers (p ∷ q ∷ []) (a ∷ b ∷ []) m) p.prompt ≡ grok_value q.multi_select b
unfolding grok_answers
grok_answers-twice p q a b m h = ap (get _) h ∙ get-put q.prompt (grok_value q.multi_select b) _
