-- ===== src/Agent/OpenCode/Poll.antt =====
-- internal/agent/opencode.go `reconcilePoll` and `missingText`: what a poll of the session's messages
-- makes up for where the stream of the server's events lost some.
use lark_coding_agent_bridge.Prelude.{
  ℕ, String, ◌≡◌, sym, ap, ◌∙◌, inl, inr, Bool, true, false, not, Option, none, some, List, [], ◌∷◌,
  ◌++◌, ◌==◌, eq_iff, ltb, eqb, if◌then◌else◌, Bool-cases, concat, runes, drop_runes, starts_with,
  either, refl,
}
use lark_coding_agent_bridge.Agent.Json.{Fields, string_field}
use lark_coding_agent_bridge.Agent.Stream.{running, ended, tail}
use lark_coding_agent_bridge.Agent.Event.{Event, blank, TerminationReason, EventType}
use lark_coding_agent_bridge.Agent.Codex.{text_event}
use text.Mathlib.TextEquality.{starts_with_iff}
use text.Mathlib.TextLemmas.{nil-append, cons-append, append-nil}
use lark_coding_agent_bridge.Agent.OpenCode.{done_event, failed_event}

pub record Tokens : Type 0 where
  pub input : ℕ
  pub output : ℕ
  pub reasoning : ℕ
  pub cache_read : ℕ

pub record Part : Type 0 where
  pub id : String
  pub kind : String
  pub text : String

pub record Failure : Type 0 where
  pub name : String
  pub detail : Fields

-- `ocMessageEntry`; a cost in dollars is a count of millionths.
pub record MessageEntry : Type 0 where
  pub id : String
  pub role : String
  pub completed : ℕ
  pub tokens : Option Tokens
  pub cost : Option ℕ
  pub failure : Option Failure
  pub parts : List Part

-- The text of the message: its text parts in their order.
unfoldable pub text_of : List Part → String
text_of [] = ""
text_of (p ∷ ps) = let rest = text_of ps in if p.kind == "text" then concat p.text rest else rest

unfoldable pub last_assistant : List MessageEntry → Option MessageEntry
last_assistant [] = none
last_assistant (m ∷ ms) = elim (last_assistant ms) [
  | some later ↦ some later
  | none ↦ if m.role == "assistant" then some m else none
]

-- What the stream never delivered of the text.
unfoldable pub missing_text : String → String → String
missing_text delivered full =
    if delivered == ""
    then full
    else if starts_with full delivered
    then drop_runes (runes delivered) full
    else ""

abbrev pub missing_events : String → List Event
missing_events missing = if missing == "" then [] else text_event missing ∷ []

abbrev pub with_tokens : Option Tokens → Event → Event
with_tokens none e = e
with_tokens (some t) e = record e {
  input_tokens = t.input;
  output_tokens = t.output;
  cached_input_tokens = t.cache_read;
  reasoning_output_tokens = t.reasoning;
}

abbrev pub with_cost : Option ℕ → Event → Event
with_cost none e = e
with_cost (some c) e = record e { cost_usd = c }

abbrev pub costs : Option Tokens → Option ℕ → Bool
costs (some t) cost = true
costs none (some c) = ltb 0 c
costs none none = false

abbrev pub poll_usage : MessageEntry → List Event
poll_usage m =
    if costs m.tokens m.cost
    then with_cost m.cost (with_tokens m.tokens (blank EventType.usage)) ∷ []
    else []

abbrev pub closing : Option Failure → Event
closing none = done_event TerminationReason.normal
closing (some f) =
    let detail = string_field f.detail ("message" ∷ []) in
    if f.name == "MessageAbortedError"
    then done_event TerminationReason.interrupted
    else failed_event (concat "opencode: " (if detail == "" then f.name else detail))

abbrev pub is_over : MessageEntry → Bool
is_over m = elim m.failure [ some f ↦ true | none ↦ not (eqb m.completed 0) ]

unfoldable pub reconcile_poll : String → MessageEntry → List Event × Bool
unfolding missing_text text_of string_field
reconcile_poll delivered m =
    let events =
      missing_events (missing_text delivered (text_of m.parts))
      ++ (poll_usage m ++ (closing m.failure ∷ [])) in
    if is_over m then (events, true) else ([], false)

abbrev text_delta : EventType → String → String
text_delta EventType.text s = s
text_delta _ s = ""

-- The text that events add to the stream's.
unfoldable pub shown : List Event → String
shown [] = ""
shown (e ∷ es) = concat (text_delta e.kind e.delta) (shown es)

drop-concat : (s t : String) → drop_runes (runes s) (concat s t) ≡ t
unfolding runes drop_runes
drop-concat String.[] t = nil-append t
drop-concat (String.◌∷◌ c s) t = rw (cons-append c s t) (drop-concat s t)

missing_complete :
    (delivered full : String)
    → starts_with full delivered ≡ true
    → concat delivered (missing_text delivered full) ≡ full
unfolding missing_text
missing_complete delivered full h =
    let prefix = (starts_with_iff full delivered).0 h in
    elim (Bool-cases (delivered == "")) [
      | inl e ↦ rw (e, (eq_iff delivered "").0 e) (nil-append full)
      | inr e ↦ rw (e, h) (rw (← prefix.1) (ap (concat delivered) (drop-concat delivered prefix.0)))
    ]

shown-missing :
    (missing : String) (es : List Event)
    → shown es ≡ ""
    → shown (missing_events missing ++ es) ≡ missing
unfolding shown
shown-missing missing es h = elim (Bool-cases (missing == "")) [
  | inl e ↦ rw e (h ∙ sym ((eq_iff missing "").0 e))
  | inr e ↦ rw e (rw h (append-nil missing))
]

-- Events that add no text, the last of which closes the stream.
abbrev Closes : List Event → Type 0
Closes es = (shown es ≡ "") × (tail running es ≡ ended)

closing-Closes : (f : Option Failure) → Closes (closing f ∷ [])
unfolding shown tail
closing-Closes none = (nil-append "", refl)
closing-Closes (some f) =
    either (λ (e : Event). Closes (e ∷ [])) (f.name == "MessageAbortedError") _ _
      (nil-append "", refl) (nil-append "", refl)

usage-kind :
    (t : Option Tokens) (c : Option ℕ)
    → (with_cost c (with_tokens t (blank EventType.usage))).kind ≡ EventType.usage
usage-kind none none = refl
usage-kind none (some c) = refl
usage-kind (some t) none = refl
usage-kind (some t) (some c) = refl

poll_usage-Closes : (m : MessageEntry) → Closes (poll_usage m ++ (closing m.failure ∷ []))
unfolding shown tail
poll_usage-Closes m =
    let last = closing-Closes m.failure in
    either (λ (l : List Event). Closes (l ++ (closing m.failure ∷ []))) (costs m.tokens m.cost) _ _
      (
        rw (usage-kind m.tokens m.cost) (nil-append (shown (closing m.failure ∷ [])) ∙ last.0),
        rw (usage-kind m.tokens m.cost) last.1,
      )
      last

missing-tail :
    (missing : String) (es : List Event)
    → tail running (missing_events missing ++ es) ≡ tail running es
unfolding tail
missing-tail missing es =
    either (λ (l : List Event). tail running (l ++ es) ≡ tail running es) (missing == "") _ _ refl
      refl

-- Where the stream delivered the beginning of a message, a poll that finds the message over adds exactly
-- the rest of its text and closes the run, the closing event last; otherwise it adds nothing.
pub reconcile_poll_complete :
    (delivered : String) (m : MessageEntry)
    → starts_with (text_of m.parts) delivered ≡ true
    → ((reconcile_poll delivered m).1 ≡ is_over m)
      × (is_over m ≡ false → (reconcile_poll delivered m).0 ≡ [])
      × (is_over m ≡ true
          → (concat delivered (shown (reconcile_poll delivered m).0) ≡ text_of m.parts)
            × (tail running (reconcile_poll delivered m).0 ≡ ended))
unfolding reconcile_poll
reconcile_poll_complete delivered m h =
    let missing = missing_text delivered (text_of m.parts) in
    let others = poll_usage m ++ (closing m.failure ∷ []) in
    let closes = poll_usage-Closes m in
    elim (Bool-cases (is_over m)) [
      | inl e ↦ rw e (
        refl,
        λ d. cc,
        λ d. (
          ap (concat delivered) (shown-missing missing others closes.0)
              ∙ missing_complete delivered (text_of m.parts) h,
          missing-tail missing others ∙ closes.1,
        ),
      )
      | inr e ↦ rw e (refl, λ d. refl, λ d. cc)
    ]
