-- ===== src/Ask/Hook/Accepted.antt =====
-- What the hook of Claude asks, is accepted: internal/ask/format.go and server.go.
use lark_coding_agent_bridge.Prelude.{
  ℕ, ◌+◌, String, ◌≡◌, refl, ◌≢◌, Bool, false, ◌||◌, not, Option, none, some, List, [], ◌∷◌, arith,
  ◌==◌, eq_iff, if◌then◌else◌, either_test, All, has, either,
}
use lark_coding_agent_bridge.Agent.Json.{Json, Fields, get, as_string, as_map}
use lark_coding_agent_bridge.Ask.Types.{Opt, Question, Error, Route, duplicate_key, needs_options}
use lark_coding_agent_bridge.Ask.Hook.{
  malformed, passthrough, hook_option, hook_options, no_options, hook_question, with_question,
  hook_questions, Payload, asking, payload_of, parse_claude_hook_payload, Asking, register, Route,
  handle_ask, AskRequest, ask_payload, ask_listed, either, registration, route_of,
}
use lark_coding_agent_bridge.Ask.Validate.{
  validate_options, validate_question, validate_questions, validate_input, or_else,
}

-- An option with a key.
abbrev Keyed : Opt → Type 0
Keyed o = o.key ≢ ""

-- Questions that an ask may be registered with, but for keys that stand twice.
abbrev pub IsAskable : Question → Type 0
IsAskable q = (q.prompt ≢ "") × (q.options ≢ []) × All Keyed q.options

not-empty : (s : String) → (s == "") ≡ false → s ≢ ""
not-empty s h = ground (arith, eq_iff s "")

Keyed-option :
    (key label : String) (os : List Opt)
    → All Keyed os
    → All Keyed (if key == "" then os else record { key = key; label = label } ∷ os)
Keyed-option key label os h =
    either_test (All Keyed) (key == "") _ _ (λ e. h) (λ e. (not-empty key e, h))

hook_option-Keyed :
    (m : Option Fields) (os : List Opt) → All Keyed os → All Keyed (hook_option m os)
unfolding hook_option
hook_option-Keyed none os h = h
hook_option-Keyed (some m) os h = Keyed-option _ _ os h

hook_options-Keyed : (vs : List Json) → All Keyed (hook_options vs)
unfolding hook_options
hook_options-Keyed [] = tt
hook_options-Keyed (v ∷ vs) = hook_option-Keyed (as_map v) (hook_options vs) (hook_options-Keyed vs)

offered : (os : List Opt) → no_options os ≡ false → os ≢ []
offered [] h = λ e. cc
offered (o ∷ os) h = λ e. cc

IsAskable-question :
    (prompt : String) (os : List Opt) (multi : Bool) (qs : List Question)
    → All Keyed os
    → All IsAskable qs
    → All IsAskable (
        if prompt == "" || no_options os
        then qs
        else record { prompt = prompt; options = os; multi_select = multi } ∷ qs)
IsAskable-question prompt os multi qs k h =
    either_test (All IsAskable) (prompt == "" || no_options os) _ _ (λ e. h)
      (λ e. ((not-empty prompt (ground (arith, e)), offered os (ground (arith, e)), k), h))

hook_question-IsAskable :
    (m : Fields) (qs : List Question) → All IsAskable qs → All IsAskable (hook_question m qs)
unfolding hook_question
hook_question-IsAskable m qs h = IsAskable-question _ _ _ qs (hook_options-Keyed _) h

with_question-IsAskable :
    (m : Option Fields) (parsed : List Question × List Fields)
    → All IsAskable parsed.0
    → All IsAskable (with_question m parsed).0
with_question-IsAskable none (qs, raws) h = h
with_question-IsAskable (some m) (qs, raws) h = hook_question-IsAskable m qs h

hook_questions-IsAskable : (vs : List Json) → All IsAskable (hook_questions vs).0
unfolding hook_questions
hook_questions-IsAskable [] = tt
hook_questions-IsAskable (v ∷ vs) =
    with_question-IsAskable (as_map v) (hook_questions vs) (hook_questions-IsAskable vs)

-- A payload that asks, asks only such questions.
abbrev Asks : Payload → Type 0
Asks (asking q qs raws) = All IsAskable (q ∷ qs)
Asks _ = Unit {0}

payload_of-Asks :
    (parsed : List Question × List Fields) → All IsAskable parsed.0 → Asks (payload_of parsed)
payload_of-Asks ([], raws) h = tt
payload_of-Asks (q ∷ qs, raws) h = h

parse-Asks : (p : Option Fields) → Asks (parse_claude_hook_payload p)
unfolding parse_claude_hook_payload
parse-Asks none = tt
parse-Asks (some p) =
    either_test Asks
      (not (
          as_string (get p "hook_event_name") == "PreToolUse"
          || as_string (get p "hook_event_name") == "PermissionRequest")
        || not (as_string (get p "tool_name") == "AskUserQuestion"))
      _ _ (λ e. tt) (λ e. payload_of-Asks (hook_questions _) (hook_questions-IsAskable _))

-- Keys that stand twice are all that registration may refuse.
abbrev pub Twice : Option Error → Type 0
Twice none = Unit {0}
Twice (some (duplicate_key i key)) = Unit {0}
Twice (some _) = ⊥

options-Twice :
    (i : ℕ) (seen : List String) (os : List Opt) → All Keyed os → Twice (validate_options i seen os)
unfolding validate_options
options-Twice i seen [] h = tt
options-Twice i seen (o ∷ os) h =
    either_test Twice (o.key == "") _ _ (λ e. absurd (h.0 ((eq_iff o.key "").0 e)))
      (λ e.
        either_test Twice (has o.key seen) _ _ (λ e. tt)
          (λ e. options-Twice i (o.key ∷ seen) os h.1))

some_options-Twice :
    (i : ℕ) (os : List Opt)
    → os ≢ []
    → All Keyed os
    → Twice (elim os [ [] ↦ some (needs_options i) | o ∷ os ↦ validate_options i [] (o ∷ os) ])
some_options-Twice i [] n h = absurd (n refl)
some_options-Twice i (o ∷ os) n h = options-Twice i [] (o ∷ os) h

question-Twice : (i : ℕ) (q : Question) → IsAskable q → Twice (validate_question i q)
unfolding validate_question
question-Twice i q h =
    either_test Twice (q.prompt == "") _ _ (λ e. absurd (h.0 ((eq_iff q.prompt "").0 e)))
      (λ e. some_options-Twice i q.options h.1 h.2)

or_else-Twice : (e f : Option Error) → Twice e → Twice f → Twice (or_else e f)
or_else-Twice none f h k = k
or_else-Twice (some e) f h k = h

questions-Twice : (i : ℕ) (qs : List Question) → All IsAskable qs → Twice (validate_questions i qs)
unfolding validate_questions
questions-Twice i [] h = tt
questions-Twice i (q ∷ qs) h =
    or_else-Twice (validate_question i q) (validate_questions (i + 1) qs) (question-Twice i q h.0)
      (questions-Twice (i + 1) qs h.1)

-- What `handle_ask` registers for a payload can be refused only for keys that stand twice.
abbrev pub Accepted : Asking → Type 0
Accepted (register input (raw ∷ raws) event) = Twice (validate_input input)
Accepted _ = Unit {0}

registration-Twice :
    (route : Route) (req : AskRequest) (q : Question) (qs : List Question)
    → (route.chat_id == "") ≡ false
    → All IsAskable (q ∷ qs)
    → Twice (validate_input (registration route req (q ∷ qs)))
unfolding validate_input
registration-Twice route req q qs c h = rw c (questions-Twice 0 (q ∷ qs) h)

payload-Accepted :
    (route : Route) (req : AskRequest) (p : Option Fields) (asked : Payload)
    → (route.chat_id == "") ≡ false
    → Asks asked
    → Accepted (ask_payload route req p asked)
payload-Accepted route req p malformed c h = tt
payload-Accepted route req p passthrough c h = tt
payload-Accepted route req p (asking q qs []) c h = tt
payload-Accepted route req p (asking q qs (raw ∷ raws)) c h = registration-Twice route req q qs c h

questions-Accepted :
    (route : Route) (req : AskRequest) (qs : List Question) (raw : Option (Option Fields))
    → (route.chat_id == "") ≡ false
    → Accepted (ask_listed route req qs raw)
questions-Accepted route req [] none c = tt
questions-Accepted route req [] (some p) c =
    payload-Accepted route req p (parse_claude_hook_payload p) c (parse-Asks p)
questions-Accepted route req (q ∷ qs) raw c = tt

-- Where the ask server registers the questions of a payload of Claude's hook, the broker's check of the
-- input can refuse them only for a key that stands twice.
pub handle_ask-Accepted :
    (resolve : String → Option Route) (post : Bool) (body : Option AskRequest)
    → Accepted (handle_ask resolve post body)
unfolding handle_ask
handle_ask-Accepted resolve post none = either Accepted post _ _ tt tt
handle_ask-Accepted resolve post (some req) =
    let route = route_of resolve req in
    either_test Accepted (not post) _ _ (λ e. tt)
      (λ e.
        either_test Accepted (route.chat_id == "") _ _ (λ e. tt)
          (λ e. questions-Accepted route req req.questions req.raw e))
