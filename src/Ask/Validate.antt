-- ===== src/Ask/Validate.antt =====
-- `validateInput` and `optionExists` of internal/ask/broker.go.
use lark_coding_agent_bridge.Prelude.{
  ℕ, ◌+◌, String, ◌≡◌, refl, ◌≢◌, ◌↔◌, Bool, false, ◌||◌, Option, none, some, List, [], ◌∷◌, arith,
  ◌==◌, eq_iff, if◌then◌else◌, All, has,
}
use lark_coding_agent_bridge.Ask.Types.{
  Opt, Question, CreateInput, Error, chat_id_required, questions_required, empty_prompt,
  needs_options, missing_key, duplicate_key,
}

unfoldable pub option_exists : List Opt → String → Bool
option_exists [] key = false
option_exists (o ∷ os) key = o.key == key || option_exists os key

-- The inner loop, with the keys that it has seen.
unfoldable pub validate_options : ℕ → List String → List Opt → Option Error
validate_options i seen [] = none
validate_options i seen (o ∷ os) =
    if o.key == ""
    then some (missing_key i)
    else if has o.key seen
    then some (duplicate_key i o.key)
    else validate_options i (o.key ∷ seen) os

abbrev pub or_else : Option Error → Option Error → Option Error
or_else none e = e
or_else (some e) _ = some e

unfoldable pub validate_question : ℕ → Question → Option Error
validate_question i q =
    if q.prompt == ""
    then some (empty_prompt i)
    else elim q.options [ [] ↦ some (needs_options i) | o ∷ os ↦ validate_options i [] (o ∷ os) ]

unfoldable pub validate_questions : ℕ → List Question → Option Error
validate_questions i [] = none
validate_questions i (q ∷ qs) = or_else (validate_question i q) (validate_questions (i + 1) qs)

unfoldable pub validate_input : CreateInput → Option Error
validate_input input =
    if input.route.chat_id == "" then some chat_id_required else elim input.questions [
      | [] ↦ some questions_required
      | q ∷ qs ↦ validate_questions 0 (q ∷ qs)
    ]

-- The keys are not empty, and each is new among the ones before it.
abbrev pub FreshKeys : List String → List Opt → Type 0
FreshKeys seen [] = Unit {0}
FreshKeys seen (o ∷ os) = (o.key ≢ "") × (has o.key seen ≡ false) × FreshKeys (o.key ∷ seen) os

pub record IsValidQuestion (q : Question) : Type 0 where
  pub prompted : q.prompt ≢ ""
  pub offered : q.options ≢ []
  pub keyed : FreshKeys [] q.options

abbrev pub IsValidInput : CreateInput → Type 0
IsValidInput input =
    (input.route.chat_id ≢ "") × (input.questions ≢ []) × All IsValidQuestion input.questions

validate_options_iff :
    (i : ℕ) (seen : List String) (os : List Opt)
    → (validate_options i seen os ≡ none) ↔ FreshKeys seen os
unfolding validate_options
validate_options_iff i seen [] = (λ e. tt, λ h. refl)
validate_options_iff i seen (o ∷ os) =
    ground (arith, eq_iff o.key "", validate_options_iff i (o.key ∷ seen) os)

validate_question_iff : (i : ℕ) (q : Question) → (validate_question i q ≡ none) ↔ IsValidQuestion q
unfolding validate_question
validate_question_iff i q = ground (arith, eq_iff q.prompt "", validate_options_iff i [] q.options)

validate_questions_iff :
    (i : ℕ) (qs : List Question) → (validate_questions i qs ≡ none) ↔ All IsValidQuestion qs
unfolding validate_questions
validate_questions_iff i [] = (λ e. tt, λ h. refl)
validate_questions_iff i (q ∷ qs) =
    ground (arith, validate_question_iff i q, validate_questions_iff (i + 1) qs)

-- Registration accepts an input exactly if it names a chat, has a question, and every question has
-- a prompt and options whose keys are not empty and pairwise distinct.
pub validate_input_iff : (input : CreateInput) → (validate_input input ≡ none) ↔ IsValidInput input
unfolding validate_input
validate_input_iff input =
    ground (arith, eq_iff input.route.chat_id "", validate_questions_iff 0 input.questions)
