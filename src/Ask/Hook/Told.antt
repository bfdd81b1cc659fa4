-- ===== src/Ask/Hook/Told.antt =====
-- What Claude is told by the directive of its hook: internal/ask/format.go `FormatClaudeAnswer`.
use lark_coding_agent_bridge.Prelude.{
  String, ◌≡◌, refl, ◌∙◌, inl, inr, false, not, List, [], ◌∷◌, ◌==◌, if◌then◌else◌, Bool-cases,
  either, All, keys, trim_space, join,
}
use lark_coding_agent_bridge.Agent.Json.{
  Json, null, str, arr, Fields, empty, get, as_string, as_map, or_empty, map_field, string_field,
  get-put_other, other_way, get-put,
}
use lark_coding_agent_bridge.Ask.Types.{Question, Result}
use lark_coding_agent_bridge.Ask.Answer.{labels_for}
use lark_coding_agent_bridge.Ask.Hook.{put_answer, claude_answers, format_claude_answer, objects}

-- The answer to a question: its labels, the comment, or none.
abbrev pub answer_of : String → Question → List String → Json
answer_of comment q [] = if not (comment == "") then str comment else null
answer_of comment q (key ∷ keys) = str (join ", " (labels_for q.options (key ∷ keys)))

-- Every prompt's answer in a map; an answer that is missing counts as empty.
abbrev pub Told : String → List Question → List (List String) → Fields → Type 0
Told comment [] answers m = Unit {0}
Told comment (q ∷ qs) [] m = (get m q.prompt ≡ answer_of comment q []) × Told comment qs [] m
Told comment (q ∷ qs) (keys ∷ answers) m =
    (get m q.prompt ≡ answer_of comment q keys) × Told comment qs answers m

-- No prompt stands twice.
abbrev pub Distinct : List Question → Type 0
Distinct [] = Unit {0}
Distinct (q ∷ qs) = All (λ (p : Question). (p.prompt == q.prompt) ≡ false) qs × Distinct qs

put_answer-other :
    (comment : String) (q : Question) (keys : List String) (m : Fields) (other : String)
    → (q.prompt == other) ≡ false
    → get (put_answer comment q keys m) other ≡ get m other
put_answer-other comment q [] m other h =
    either (λ (f : Fields). get f other ≡ get m other) (not (comment == "")) _ _
      (get-put_other q.prompt other (str comment) m h) refl
put_answer-other comment q (key ∷ keys) m other h = get-put_other q.prompt other _ m h

put_answer-here :
    (comment : String) (q : Question) (keys : List String) (m : Fields)
    → get m q.prompt ≡ null
    → get (put_answer comment q keys m) q.prompt ≡ answer_of comment q keys
put_answer-here comment q [] m h = elim (Bool-cases (not (comment == ""))) [
  | inl e ↦ rw e (get-put q.prompt (str comment) m)
  | inr e ↦ rw e h
]
put_answer-here comment q (key ∷ keys) m h = get-put q.prompt _ m

claude_answers-other :
    (comment : String) (qs : List Question) (answers : List (List String)) (m : Fields)
    (other : String)
    → All (λ (p : Question). (p.prompt == other) ≡ false) qs
    → get (claude_answers comment qs answers m) other ≡ get m other
unfolding claude_answers
claude_answers-other comment [] answers m other h = refl
claude_answers-other comment (q ∷ qs) [] m other h =
    claude_answers-other comment qs [] (put_answer comment q [] m) other h.1
    ∙ put_answer-other comment q [] m other h.0
claude_answers-other comment (q ∷ qs) (keys ∷ answers) m other h =
    claude_answers-other comment qs answers (put_answer comment q keys m) other h.1
    ∙ put_answer-other comment q keys m other h.0

-- None of the questions is answered yet.
abbrev Unanswered : List Question → Fields → Type 0
Unanswered qs m = All (λ (p : Question). get m p.prompt ≡ null) qs

put_answer-Unanswered :
    (comment : String) (q : Question) (keys : List String) (m : Fields) (qs : List Question)
    → All (λ (p : Question). (p.prompt == q.prompt) ≡ false) qs
    → Unanswered qs m
    → Unanswered qs (put_answer comment q keys m)
put_answer-Unanswered comment q keys m [] h k = tt
put_answer-Unanswered comment q keys m (p ∷ qs) h k = (
  put_answer-other comment q keys m p.prompt (other_way p.prompt q.prompt h.0) ∙ k.0,
  put_answer-Unanswered comment q keys m qs h.1 k.1,
)

claude_answers-Told :
    (comment : String) (qs : List Question) (answers : List (List String)) (m : Fields)
    → Distinct qs
    → Unanswered qs m
    → Told comment qs answers (claude_answers comment qs answers m)
unfolding claude_answers
claude_answers-Told comment [] answers m d u = tt
claude_answers-Told comment (q ∷ qs) [] m d u = (
  claude_answers-other comment qs [] (put_answer comment q [] m) q.prompt d.0
      ∙ put_answer-here comment q [] m u.0,
  claude_answers-Told comment qs [] (put_answer comment q [] m) d.1
      (put_answer-Unanswered comment q [] m qs d.0 u.1),
)
claude_answers-Told comment (q ∷ qs) (keys ∷ answers) m d u = (
  claude_answers-other comment qs answers (put_answer comment q keys m) q.prompt d.0
      ∙ put_answer-here comment q keys m u.0,
  claude_answers-Told comment qs answers (put_answer comment q keys m) d.1
      (put_answer-Unanswered comment q keys m qs d.0 u.1),
)

nothing-Unanswered : (qs : List Question) → Unanswered qs empty
unfolding get
nothing-Unanswered [] = tt
nothing-Unanswered (q ∷ qs) = (refl, nothing-Unanswered qs)

-- How Claude reads a directive: the decision, and the input that it goes on with.
abbrev pub decision : String → Fields → Fields
decision event directive =
    let output = or_empty (map_field directive "hookSpecificOutput") in
    if event == "PermissionRequest" then or_empty (map_field output "decision") else output

abbrev pub updated : String → Fields → Fields
updated event directive = or_empty (map_field (decision event directive) "updatedInput")

-- The directive of either event allows the tool with the raw questions, and where no prompt stands twice,
-- every question has its answer under its prompt: the labels of its keys, else the comment, else none.
pub format_claude_answer-Told :
    (event : String) (raws : List Fields) (qs : List Question) (r : Result)
    → Distinct qs
    → let directive = format_claude_answer event raws qs r in
      (string_field (decision event directive) ("behavior" ∷ "permissionDecision" ∷ []) ≡ "allow")
      × (get (updated event directive) "questions" ≡ arr (objects raws))
      × Told
          (trim_space r.comment)
          qs
          r.answers
          (or_empty (map_field (updated event directive) "answers"))
unfolding format_claude_answer string_field map_field get as_map as_string
format_claude_answer-Told event raws qs r d =
    let told =
      claude_answers-Told (trim_space r.comment) qs r.answers empty d (nothing-Unanswered qs) in
    elim (Bool-cases (event == "PermissionRequest")) [
      | inl e ↦ rw e (refl, refl, told)
      | inr e ↦ rw e (refl, refl, told)
    ]
