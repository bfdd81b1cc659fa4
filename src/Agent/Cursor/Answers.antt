-- ===== src/Agent/Cursor/Answers.antt =====
-- From the keys that the user selects to the ids that the Cursor CLI is told: internal/ask/format.go turns
-- keys into labels, and internal/agent/cursor.go labels back into ids.
use lark_coding_agent_bridge.Prelude.{
  String, ◌≡◌, inl, inr, true, false, ◌||◌, not, List, [], ◌∷◌, arith, ◌==◌, eq_iff, eq_refl,
  if◌then◌else◌, Bool-cases, either_test, All, ap, trim_space, refl,
}
use lark_coding_agent_bridge.Agent.Event.{AskOption}
use lark_coding_agent_bridge.Agent.Cursor.{
  CursorQuestion, match_cursor_option_id, selected_ids, CursorAnswer, cursor_answers,
  format_cursor_ask_answer, head_of, tail_of, answered,
}
use lark_coding_agent_bridge.Ask.Types.{Opt, Question, Result}
use lark_coding_agent_bridge.Ask.Validate.{option_exists}
use lark_coding_agent_bridge.Ask.Answer.{label_for, format_answers, labels_for, format_all}

-- The bridge's copy of the agent's options and questions, internal/bridge/ask.go.
unfoldable pub ask_options : List AskOption → List Opt
ask_options [] = []
ask_options (o ∷ os) = record { key = o.key; label = o.label } ∷ ask_options os

abbrev pub ask_question : CursorQuestion → Question
ask_question q = record {
  prompt = q.question.prompt;
  options = ask_options q.question.options;
  multi_select = q.question.multi_select;
}

unfoldable pub ask_questions : List CursorQuestion → List Question
ask_questions [] = []
ask_questions (q ∷ qs) = ask_question q ∷ ask_questions qs

abbrev shown : AskOption → String
shown o = if not (o.label == "") then o.label else o.key

-- No option is taken for the label of a later one.
abbrev Apart : AskOption → AskOption → Type 0
Apart o p = (o.key == shown p || o.label == shown p) ≡ false

abbrev pub Clear : List AskOption → Type 0
Clear [] = Unit {0}
Clear (o ∷ os) = All (Apart o) os × Clear os

label-Apart :
    (o : AskOption) (os : List AskOption) (key : String)
    → All (Apart o) os
    → option_exists (ask_options os) key ≡ true
    → (o.key == label_for (ask_options os) key || o.label == label_for (ask_options os) key) ≡ false
unfolding label_for option_exists ask_options
label-Apart o [] key h e = cc
label-Apart o (p ∷ ps) key h e =
    either_test (λ (l : String). (o.key == l || o.label == l) ≡ false) (p.key == key) (shown p)
      (label_for (ask_options ps) key) (λ t. h.0)
      (λ t. label-Apart o ps key h.1 (ground (arith, t, e)))

self-match : (o : AskOption) → (o.key == shown o || o.label == shown o) ≡ true
self-match o = ground (arith, eq_refl o.key, eq_refl o.label)

match-label :
    (os : List AskOption) (key : String)
    → Clear os
    → option_exists (ask_options os) key ≡ true
    → match_cursor_option_id os (label_for (ask_options os) key) ≡ key
unfolding match_cursor_option_id label_for option_exists ask_options
match-label [] key h e = cc
match-label (o ∷ os) key h e = elim (Bool-cases (o.key == key)) [
  | inl t ↦ rw (t, self-match o) ((eq_iff o.key key).0 t)
  | inr f ↦
      let later : option_exists (ask_options os) key ≡ true = ground (arith, f, e) in
      rw (f, label-Apart o os key h.0 later) (match-label os key h.1 later)
]

-- A key of an option, not empty.
abbrev Selects : List AskOption → String → Type 0
Selects os key = (option_exists (ask_options os) key ≡ true) × ((key == "") ≡ false)

-- Keys for every question: at least one, each of an option whose label is its own.
abbrev pub Selected : List CursorQuestion → List (List String) → Type 0
Selected [] answers = answers ≡ []
Selected (q ∷ qs) [] = ⊥
Selected (q ∷ qs) ([] ∷ answers) = ⊥
Selected (q ∷ qs) ((key ∷ keys) ∷ answers) =
    Clear q.question.options × All (Selects q.question.options) (key ∷ keys) × Selected qs answers

-- The answers with the selected keys as their ids.
unfoldable pub told : List CursorQuestion → List (List String) → List CursorAnswer
told [] answers = []
told (q ∷ qs) answers =
    record { question_id = q.id; selected_option_ids = head_of answers } ∷ told qs (tail_of answers)

ids-of-labels :
    (os : List AskOption) (keys : List String)
    → Clear os
    → All (Selects os) keys
    → selected_ids os (labels_for (ask_options os) keys) ≡ keys
unfolding selected_ids labels_for
ids-of-labels os [] c h = refl
ids-of-labels os (key ∷ keys) c h =
    rw (match-label os key c h.0.0, h.0.1) (ap (λ l. key ∷ l) (ids-of-labels os keys c h.1))

told-answers :
    (comment : String) (qs : List CursorQuestion) (answers : List (List String))
    → Selected qs answers
    → cursor_answers qs (format_all comment (ask_questions qs) answers) ≡ told qs answers
unfolding cursor_answers format_all ask_questions told
told-answers comment [] answers h = refl
told-answers comment (q ∷ qs) [] h = absurd h
told-answers comment (q ∷ qs) ([] ∷ answers) h = absurd h
told-answers comment (q ∷ qs) ((key ∷ keys) ∷ answers) h =
    rw (ids-of-labels q.question.options (key ∷ keys) h.0 h.1, told-answers comment qs answers h.2)
      refl

-- Where the user selected options of every question, and no option's key or label is the label of a later
-- option of its question, the Cursor CLI is told exactly the selected options by their ids, question by
-- question.
pub format_cursor_ask_answer-format_answers :
    (qs : List CursorQuestion) (r : Result)
    → Selected qs r.answers
    → format_cursor_ask_answer qs (format_answers (ask_questions qs) r) false
      ≡ answered (told qs r.answers)
unfolding format_cursor_ask_answer format_answers
format_cursor_ask_answer-format_answers qs r h =
    ap answered (told-answers (trim_space r.comment) qs r.answers h)
