-- ===== src/Agent/Codex/Ends.antt =====
-- How a run of internal/agent/codex.go ends: by one closing event, behind which nothing follows.
use lark_coding_agent_bridge.Prelude.{
  String, ◌≡◌, refl, sym, ap, ◌∙◌, inl, inr, Bool, true, false, Option, none, some, List, [], ◌∷◌,
  ◌++◌, ◌==◌, eq_iff, if◌then◌else◌, Bool-cases, either, switch_All, has_key,
}
use lark_coding_agent_bridge.Agent.Json.{Fields, get, as_string, map_field, string_field}
use lark_coding_agent_bridge.Agent.Stream.{running, tail, tail-append, standing}
use lark_coding_agent_bridge.Agent.Event.{Event, blank, TerminationReason, EventType}
use lark_coding_agent_bridge.Agent.Codex.{Translator, codex_tool_use}
use lark_coding_agent_bridge.Agent.Codex.Translate.{
  Step, queue_agent_message, prepend_pending, terminal_error, translate_item_started, complete_tool,
  translate_item_completed, translate_turn_completed, translate, translate_all, translate_typed,
  item_completed, thought, thread_started, started, completed, start_item, item_cases,
  complete_item, usage_events, line_cases, queued, final_text_events,
}
use lark_coding_agent_bridge.Agent.Codex.Said.{OfKind, tool_use-OfKind}

-- After a step the stream has ended exactly when the translator has, and then no message waits.
abbrev Ends : Step → Type 0
Ends s =
    (tail running s.0 ≡ standing s.1.terminal)
    × (s.1.terminal ≡ true → s.1.pending_agent_message ≡ "")

-- A step that leaves the stream running.
abbrev Runs : Step → Type 0
Runs s = (tail running s.0 ≡ running) × (s.1.terminal ≡ false)

Runs-Ends : (s : Step) → Runs s → Ends s
Runs-Ends s h = (rw (h.1) (h.0), λ e. cc (h.1, e))

prepend-Runs : (s : Step) → Runs s → Runs (prepend_pending s)
unfolding prepend_pending tail
prepend-Runs ([], u) h = h
prepend-Runs (e ∷ es, u) h = elim (Bool-cases (u.pending_agent_message == "")) [
  | inl b ↦ rw b h
  | inr b ↦ rw b h
]

error-Ends :
    (t : Translator) (raw : Fields) (fallback : String)
    → Ends (prepend_pending (terminal_error t raw fallback))
unfolding prepend_pending terminal_error tail
error-Ends t raw fallback = elim (Bool-cases (t.pending_agent_message == "")) [
  | inl b ↦ rw b (refl, λ e. (eq_iff t.pending_agent_message "").0 b)
  | inr b ↦ rw b (refl, λ e. refl)
]

queued-Runs : (t : Translator) (m : String) → t.terminal ≡ false → Runs (queued t m)
unfolding queued queue_agent_message tail
queued-Runs t m h = elim (Bool-cases (m == "")) [
  | inl b ↦ rw b (refl, h)
  | inr b ↦ elim (Bool-cases (t.pending_agent_message == "")) [
    | inl c ↦ rw (b, c) (refl, h)
    | inr c ↦ rw (b, c) (refl, h)
  ]
]

started-Runs :
    (t : Translator) (o : Option Event) → t.terminal ≡ false → OfKind o → Runs (started t o)
unfolding started tail
started-Runs t none h k = (refl, h)
started-Runs t (some e) h k = (rw k refl, h)

start_item-Runs : (t : Translator) (o : Option Fields) → t.terminal ≡ false → Runs (start_item t o)
unfolding tail
start_item-Runs t none h = (refl, h)
start_item-Runs t (some it) h = started-Runs t (codex_tool_use it) h (tool_use-OfKind it)

completed-Runs :
    (t : Translator) (result : Event) (o : Option Event)
    → t.terminal ≡ false
    → OfKind o
    → Runs (completed t result o)
unfolding completed tail
completed-Runs t result none h k = (refl, h)
completed-Runs t result (some e) h k = elim (Bool-cases (has_key e.id t.started_items)) [
  | inl b ↦ rw b (refl, h)
  | inr b ↦ rw (b, k) (refl, h)
]

thought-Runs : (t : Translator) (text : String) → t.terminal ≡ false → Runs (thought t text)
unfolding thought tail
thought-Runs t text h =
    either Runs (text == "") _ _ (refl, h)
      (prepend-Runs (record (blank EventType.thinking) { delta = text } ∷ [], t) (refl, h))

thread-Runs : (t : Translator) (id : String) → t.terminal ≡ false → Runs (thread_started t id)
unfolding thread_started tail
thread-Runs t id h = either Runs (id == "") _ _ (refl, h) (refl, h)

tail-final :
    (m : String) (es : List Event) → tail running (final_text_events m ++ es) ≡ tail running es
unfolding tail
tail-final m es =
    either (λ (l : List Event). tail running (l ++ es) ≡ tail running es) (m == "") _ _ refl refl

tail-usage :
    (o : Option Fields) (es : List Event) → tail running (usage_events o ++ es) ≡ tail running es
unfolding tail
tail-usage none es = refl
tail-usage (some u) es = refl

module _ (t : Translator) (open_turn : t.terminal ≡ false) where
  same-Runs : Runs ([], t)
  unfolding tail
  same-Runs = (refl, open_turn)

  tool-Runs : (it : Fields) (result : Event) → Runs (prepend_pending (complete_tool t it result))
  unfolding complete_tool
  tool-Runs it result =
      prepend-Runs (completed t result (codex_tool_use it))
        (completed-Runs t result (codex_tool_use it) open_turn (tool_use-OfKind it))

  item-Runs : (it : Fields) (kind : String) → Runs (item_completed t it kind)
  unfolding item_completed
  item-Runs it kind =
      let tool = tool-Runs it in
      either Runs (kind == "agent_message") _ _ (queued-Runs t _ open_turn) (
        switch_All Runs kind (item_cases t it) ([], t)
          (
            thought-Runs t _ open_turn,
            (
              thought-Runs t _ open_turn,
              (tool _, (tool _, (tool _, (tool _, (tool _, (tool _, (tool _, tt))))))),
            ),
          )
          same-Runs)

  complete_item-Runs : (o : Option Fields) → Runs (complete_item t o)
  complete_item-Runs none = same-Runs
  complete_item-Runs (some it) = item-Runs it (as_string (get it "type"))

  turn_completed-Ends : (raw : Fields) → Ends (translate_turn_completed t raw)
  unfolding translate_turn_completed tail
  turn_completed-Ends raw =
      let done = record (blank EventType.done) {
        thread_id = t.thread_id;
        termination_reason = TerminationReason.normal;
      } in
      (
        tail-final t.pending_agent_message (usage_events (map_field raw "usage") ++ (done ∷ []))
            ∙ tail-usage (map_field raw "usage") (done ∷ []),
        λ e. refl,
      )

  typed-Ends : (raw : Fields) (kind : String) → Ends (translate_typed t raw kind)
  unfolding translate_typed translate_item_started translate_item_completed
  typed-Ends raw kind =
      let runs = Runs-Ends in
      let first = map_field raw "item" in
      switch_All Ends kind (line_cases t raw) ([], t)
        (
          runs (thread_started t _) (thread-Runs t _ open_turn),
          (
            runs (prepend_pending (start_item t first))
                (prepend-Runs (start_item t first) (start_item-Runs t first open_turn)),
            (
              runs (complete_item t first) (complete_item-Runs first),
              (
                runs (queued t _) (queued-Runs t _ open_turn),
                (turn_completed-Ends raw, (error-Ends t raw _, (error-Ends t raw _, tt))),
              ),
            ),
          ),
        )
        (runs ([], t) same-Runs)

-- A translator with which nothing waits once its stream has ended.
abbrev pub IsSettled : Translator → Type 0
IsSettled t = t.terminal ≡ true → t.pending_agent_message ≡ ""

unless_ended :
    (t : Translator) (b : Bool) (s : Step)
    → t.terminal ≡ b
    → IsSettled t
    → (t.terminal ≡ false → Ends s)
    → (tail (standing b) (if b then ([], t) else s).0
        ≡ standing (if b then ([], t) else s).1.terminal)
      × IsSettled (if b then ([], t) else s).1
unfolding tail
unless_ended t true s e h k = (sym (ap standing e), h)
unless_ended t false s e h k = k e

translate-Ends :
    (t : Translator) (line : Option Fields)
    → IsSettled t
    → (tail (standing t.terminal) (translate t line).0 ≡ standing (translate t line).1.terminal)
      × IsSettled (translate t line).1
unfolding translate tail
translate-Ends t none h = (refl, h)
translate-Ends t (some raw) h =
    unless_ended t t.terminal (translate_typed t raw (string_field raw ("type" ∷ []))) refl h
      (λ e. typed-Ends t e raw (string_field raw ("type" ∷ [])))

-- From a translator with which no message waits if its stream has ended, such as a new one, and over any
-- lines the stream ends exactly when the translator does, by one closing event with nothing behind it,
-- and then no message waits.
pub translate_all-Ends :
    (t : Translator) (lines : List (Option Fields))
    → IsSettled t
    → (tail (standing t.terminal) (translate_all t lines).0
        ≡ standing (translate_all t lines).1.terminal)
      × IsSettled (translate_all t lines).1
unfolding translate_all tail
translate_all-Ends t [] h = (refl, h)
translate_all-Ends t (line ∷ lines) h =
    let step = translate t line in
    let one = translate-Ends t line h in
    let rest = translate_all-Ends step.1 lines one.1 in
    (
      tail-append (standing t.terminal) step.0 (translate_all step.1 lines).0
          ∙ ap (λ s. tail s (translate_all step.1 lines).0) one.0
          ∙ rest.0,
      rest.1,
    )
