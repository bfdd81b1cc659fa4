-- ===== src/Ask/Answer.antt =====
-- What goes back to the agent that asked: internal/ask/format.go `FormatOpenCodeAnswers` with
-- `labelFor` of internal/ask/card.go, and the end of `handleAskUser` of internal/bridge/ask.go.
use lark_coding_agent_bridge.Prelude.{
  String, ◌≡◌, refl, sym, subst, ◌≢◌, ◌↔◌, ◌⊎◌, inl, inr, Bool, true, false, ◌||◌, not, List, [],
  ◌∷◌, arith, ◌==◌, eq_iff, if◌then◌else◌, Bool-cases, All, keys, trim_space, starts_with,
}
use lark_coding_agent_bridge.Ask.Types.{
  Opt, Question, Result, ResultKind, answered, timed_out, invalidated,
}
use lark_coding_agent_bridge.Ask.Click.{keys_exist, answers_exist}
use lark_coding_agent_bridge.Ask.Validate.{option_exists}

unfoldable pub label_for : List Opt → String → String
label_for [] key = key
label_for (o ∷ os) key =
    if o.key == key then if not (o.label == "") then o.label else o.key else label_for os key

unfoldable pub labels_for : List Opt → List String → List String
labels_for os [] = []
labels_for os (key ∷ keys) = label_for os key ∷ labels_for os keys

-- The answer to one question: the labels of its keys, or the comment if there is none.
abbrev pub format_one : String → Question → List String → List String
format_one comment q [] = if not (comment == "") then comment ∷ [] else "" ∷ []
format_one comment q (key ∷ keys) = labels_for q.options (key ∷ keys)

-- An answer that is missing counts as empty.
unfoldable pub format_all : String → List Question → List (List String) → List (List String)
format_all comment [] answers = []
format_all comment (q ∷ qs) [] = format_one comment q [] ∷ format_all comment qs []
format_all comment (q ∷ qs) (keys ∷ answers) =
    format_one comment q keys ∷ format_all comment qs answers

unfoldable pub format_answers : List Question → Result → List (List String)
format_answers questions r = format_all (trim_space r.comment) questions r.answers

-- `strings.Contains`.
unfoldable pub has_text : String → String → Bool
has_text String.[] part = starts_with String.[] part
has_text (String.◌∷◌ c s) part = starts_with (String.◌∷◌ c s) part || has_text s part

abbrev pub is_cancel : List (List String) → Bool
is_cancel ((key ∷ []) ∷ answers) = key == "__cancel__"
is_cancel _ = false

abbrev pub is_answered : ResultKind → Bool
is_answered answered = true
is_answered timed_out = false
is_answered invalidated = false

-- What the agent's reply function is called with.
pub data AgentReply : Type 0 where
  cancelled : AgentReply
  replied : List (List String) → AgentReply

unfoldable pub reply_to_agent : String → List Question → Result → AgentReply
reply_to_agent source questions r =
    if not (is_answered r.kind)
    then cancelled
    else if is_cancel r.answers
    then cancelled
    else if has_text source "permission"
    then replied r.answers
    else replied (format_answers questions r)

-- The text is what an option shows.
abbrev pub IsLabel : String → List Opt → Type 0
IsLabel t [] = ⊥
IsLabel t (o ∷ os) = ((if not (o.label == "") then o.label else o.key) ≡ t) ⊎ IsLabel t os

-- Labels of the options of the question, at least one, or only the comment.
abbrev pub IsAnswer : String → Question → List String → Type 0
IsAnswer comment q texts =
    (texts ≡ comment ∷ []) ⊎ ((texts ≢ []) × All (λ t. IsLabel t q.options) texts)

-- Question by question.
abbrev pub Answers : String → List Question → List (List String) → Type 0
Answers comment [] [] = Unit
Answers comment (q ∷ qs) (texts ∷ rest) = IsAnswer comment q texts × Answers comment qs rest
Answers comment _ _ = ⊥

label_for-here :
    (o : Opt) (os : List Opt) (key : String)
    → o.key == key ≡ true
    → (if not (o.label == "") then o.label else o.key) ≡ label_for (o ∷ os) key
unfolding label_for
label_for-here o os key e = ground (arith, e)

label_for-later :
    (o : Opt) (os : List Opt) (key : String)
    → o.key == key ≡ false
    → label_for (o ∷ os) key ≡ label_for os key
unfolding label_for
label_for-later o os key e = ground (arith, e)

label_for-IsLabel :
    (os : List Opt) (key : String) → option_exists os key ≡ true → IsLabel (label_for os key) os
unfolding option_exists
label_for-IsLabel [] key h = absurd (ground (arith, h))
label_for-IsLabel (o ∷ os) key h = elim (Bool-cases (o.key == key)) [
  | inl e ↦ inl (label_for-here o os key e)
  | inr e ↦ inr (
      subst (λ t. IsLabel t os) (sym (label_for-later o os key e))
        (label_for-IsLabel os key (ground (arith, h, e))))
]

labels_for-IsLabel :
    (os : List Opt) (keys : List String)
    → keys_exist os keys ≡ true
    → All (λ t. IsLabel t os) (labels_for os keys)
unfolding labels_for keys_exist
labels_for-IsLabel os [] h = tt
labels_for-IsLabel os (key ∷ keys) h =
    (label_for-IsLabel os key (ground (arith, h)), labels_for-IsLabel os keys (ground (arith, h)))

comment_alone :
    (comment : String) → (if not (comment == "") then comment ∷ [] else "" ∷ []) ≡ comment ∷ []
comment_alone comment = ground (arith, eq_iff comment "")

-- The answer to one question.
IsAnswer-one :
    (comment : String) (q : Question) (keys : List String)
    → keys_exist q.options keys ≡ true
    → IsAnswer comment q (format_one comment q keys)
unfolding labels_for
IsAnswer-one comment q [] h = inl (comment_alone comment)
IsAnswer-one comment q (key ∷ keys) h =
    inr (ground arith, labels_for-IsLabel q.options (key ∷ keys) h)

format_all-Answers :
    (comment : String) (qs : List Question) (answers : List (List String))
    → answers_exist qs answers ≡ true
    → Answers comment qs (format_all comment qs answers)
unfolding format_all answers_exist keys_exist
format_all-Answers comment [] [] h = tt
format_all-Answers comment [] (a ∷ more) h = absurd (ground (arith, h))
format_all-Answers comment (q ∷ qs) [] h =
    (IsAnswer-one comment q [] refl, format_all-Answers comment qs [] refl)
format_all-Answers comment (q ∷ qs) (keys ∷ more) h = (
  IsAnswer-one comment q keys (ground (arith, h)),
  format_all-Answers comment qs more (ground (arith, h)),
)

-- An agent is told that its question was cancelled exactly if the ask was not answered or its cancel
-- button was pressed. Otherwise, unless it asked for a permission, it gets one answer per question:
-- texts that options of that question show, at least one, or only the trimmed comment.
pub agent_reply :
    (source : String) (questions : List Question) (r : Result)
    → answers_exist questions r.answers ≡ true
    → ((reply_to_agent source questions r ≡ cancelled)
        ↔ ((is_answered r.kind ≡ false) ⊎ (is_cancel r.answers ≡ true)))
      × (is_answered r.kind ≡ true
          → is_cancel r.answers ≡ false
          → has_text source "permission" ≡ false
          → (texts : List (List String)) × (reply_to_agent source questions r ≡ replied texts)
            × Answers (trim_space r.comment) questions texts)
unfolding reply_to_agent format_answers
agent_reply source questions r h = (
  ground arith,
  λ a c p. (
    format_answers questions r,
    ground (arith, a, c, p),
    format_all-Answers (trim_space r.comment) questions r.answers h,
  ),
)
