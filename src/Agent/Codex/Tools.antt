-- ===== src/Agent/Codex/Tools.antt =====
-- Tools in the events of internal/agent/codex.go: a result is shown behind the use that it answers.
use lark_coding_agent_bridge.Prelude.{
  String, ◌≡◌, refl, inl, inr, Bool, true, ◌&&◌, Option, none, some, List, [], ◌∷◌, ◌++◌, arith,
  ◌==◌, eq_refl, Bool-cases, either, switch_All, has, insert, delete, has_key, lookup-delete,
  has_key-insert,
}
use lark_coding_agent_bridge.Agent.Json.{Fields, get, as_string, map_field}
use lark_coding_agent_bridge.Agent.Event.{Event, blank, EventType}
use lark_coding_agent_bridge.Agent.Codex.{Translator, codex_tool_use, text_event}
use lark_coding_agent_bridge.Agent.Codex.Translate.{
  Step, queue_agent_message, prepend_pending, terminal_error, translate_item_started, complete_tool,
  translate_item_completed, translate_turn_completed, translate, translate_all, translate_typed,
  item_completed, thought, thread_started, started, completed, start_item, item_cases,
  complete_item, usage_events, line_cases, queued, final_text_events,
}
use lark_coding_agent_bridge.Agent.Codex.Said.{OfKind, tool_use-OfKind}

-- The ids of the tools in use after an event.
abbrev pub note : EventType → String → List String → List String
note EventType.tool_use id ids = id ∷ ids
note _ id ids = ids

abbrev allowed : EventType → String → List String → Bool
allowed EventType.tool_result id ids = has id ids
allowed _ id ids = true

-- Whether every result stands behind a use with its id, after uses of the given ids.
unfoldable pub answers : List String → List Event → Bool
answers ids [] = true
answers ids (e ∷ es) = allowed e.kind e.id ids && answers (note e.kind e.id ids) es

unfoldable pub uses : List String → List Event → List String
uses ids [] = ids
uses ids (e ∷ es) = uses (note e.kind e.id ids) es

-- The tools that the translator takes as started were shown.
abbrev pub Shown : List String → Translator → Type 0
Shown ids t = (k : String) → has_key k t.started_items ≡ true → has k ids ≡ true

abbrev Answers : List String → Step → Type 0
Answers ids s = (answers ids s.0 ≡ true) × Shown (uses ids s.0) s.1

answers-append :
    (ids : List String) (xs ys : List Event)
    → answers ids (xs ++ ys) ≡ (answers ids xs && answers (uses ids xs) ys)
unfolding answers uses
answers-append ids [] ys = refl
answers-append ids (x ∷ xs) ys = ground (arith, answers-append (note x.kind x.id ids) xs ys)

uses-append : (ids : List String) (xs ys : List Event) → uses ids (xs ++ ys) ≡ uses (uses ids xs) ys
unfolding uses
uses-append ids [] ys = refl
uses-append ids (x ∷ xs) ys = uses-append (note x.kind x.id ids) xs ys

has_head : (k : String) (ids : List String) → has k (k ∷ ids) ≡ true
unfolding has
has_head k ids = rw (eq_refl k) refl

has_more : (k id : String) (ids : List String) → has k ids ≡ true → has k (id ∷ ids) ≡ true
unfolding has
has_more k id ids h = ground arith

module _ (ids : List String) where
  same-Answers : (t : Translator) → Shown ids t → Answers ids ([], t)
  unfolding answers uses
  same-Answers t h = (refl, h)

  prepend-Answers : (s : Step) → Answers ids s → Answers ids (prepend_pending s)
  unfolding prepend_pending answers uses
  prepend-Answers ([], u) h = h
  prepend-Answers (e ∷ es, u) h =
      either (Answers ids) (u.pending_agent_message == "") (e ∷ es, u)
        (text_event u.pending_agent_message ∷ e ∷ es, record u { pending_agent_message = "" }) h h

  queued-Answers : (t : Translator) (m : String) → Shown ids t → Answers ids (queued t m)
  unfolding queued queue_agent_message answers uses
  queued-Answers t m h = elim (Bool-cases (m == "")) [
    | inl b ↦ rw b (refl, h)
    | inr b ↦ elim (Bool-cases (t.pending_agent_message == "")) [
      | inl c ↦ rw (b, c) (refl, h)
      | inr c ↦ rw (b, c) (refl, h)
    ]
  ]

  insert-Shown :
      (t : Translator) (e : Event)
      → Shown ids t
      → Shown (e.id ∷ ids) (record t { started_items = insert e.id e.name t.started_items })
  unfolding has
  insert-Shown t e h k p = ground (arith, has_key-insert e.id k e.name t.started_items, h k)

  started-Answers :
      (t : Translator) (o : Option Event) → OfKind o → Shown ids t → Answers ids (started t o)
  unfolding started answers uses
  started-Answers t none o h = (refl, h)
  started-Answers t (some e) o h = rw o (refl, insert-Shown t e h)

  start_item-Answers :
      (t : Translator) (o : Option Fields) → Shown ids t → Answers ids (start_item t o)
  unfolding answers uses
  start_item-Answers t none h = (refl, h)
  start_item-Answers t (some it) h = started-Answers t (codex_tool_use it) (tool_use-OfKind it) h

  delete-Shown :
      (t : Translator) (id : String) (more : List String)
      → Shown ids t
      → ((k : String) → has k ids ≡ true → has k more ≡ true)
      → Shown more (record t { started_items = delete id t.started_items })
  unfolding has_key
  delete-Shown t id more h g k p = ground (arith, lookup-delete id k t.started_items, h k, g k)

  completed-Answers :
      (t : Translator) (result : Event) (o : Option Event)
      → OfKind o
      → Shown ids t
      → Answers ids (completed t result o)
  unfolding completed answers uses
  completed-Answers t result none o h = (refl, h)
  completed-Answers t result (some e) o h = elim (Bool-cases (has_key e.id t.started_items)) [
    | inl b ↦ rw (b, h e.id b) (refl, delete-Shown t e.id ids h (λ k p. p))
    | inr b ↦
        rw (b, o, has_head e.id ids)
          (refl, delete-Shown t e.id (e.id ∷ ids) h (λ k p. has_more k e.id ids p))
  ]

  tool-Answers :
      (t : Translator) (it : Fields) (result : Event)
      → Shown ids t
      → Answers ids (prepend_pending (complete_tool t it result))
  unfolding complete_tool
  tool-Answers t it result h =
      prepend-Answers (completed t result (codex_tool_use it))
        (completed-Answers t result (codex_tool_use it) (tool_use-OfKind it) h)

  thought-Answers : (t : Translator) (text : String) → Shown ids t → Answers ids (thought t text)
  unfolding thought answers uses
  thought-Answers t text h =
      either (Answers ids) (text == "") _ _ (refl, h)
        (prepend-Answers (record (blank EventType.thinking) { delta = text } ∷ [], t) (refl, h))

  item-Answers :
      (t : Translator) (it : Fields) (kind : String)
      → Shown ids t
      → Answers ids (item_completed t it kind)
  unfolding item_completed
  item-Answers t it kind h =
      let tool = λ (result : Event). tool-Answers t it result h in
      either (Answers ids) (kind == "agent_message") _ _ (queued-Answers t _ h) (
        switch_All (Answers ids) kind (item_cases t it) ([], t)
          (
            thought-Answers t _ h,
            (
              thought-Answers t _ h,
              (tool _, (tool _, (tool _, (tool _, (tool _, (tool _, (tool _, tt))))))),
            ),
          )
          (same-Answers t h))

  complete_item-Answers :
      (t : Translator) (o : Option Fields) → Shown ids t → Answers ids (complete_item t o)
  complete_item-Answers t none h = same-Answers t h
  complete_item-Answers t (some it) h = item-Answers t it (as_string (get it "type")) h

  final-Answers :
      (t : Translator) (m : String) (o : Option Fields) (done : Event)
      → done.kind ≡ EventType.done
      → Shown ids t
      → Answers ids (final_text_events m ++ (usage_events o ++ (done ∷ [])), t)
  unfolding answers uses
  final-Answers t m none done k h =
      either (λ (l : List Event). Answers ids (l ++ (done ∷ []), t)) (m == "") _ _ (rw k (refl, h))
        (rw k (refl, h))
  final-Answers t m (some u) done k h =
      either (λ (l : List Event). Answers ids (l ++ (usage_events (some u) ++ (done ∷ [])), t))
        (m == "") _ _ (rw k (refl, h)) (rw k (refl, h))

  thread-Answers : (t : Translator) (id : String) → Shown ids t → Answers ids (thread_started t id)
  unfolding thread_started answers uses
  thread-Answers t id h = either (Answers ids) (id == "") _ _ (refl, h) (refl, h)

  error-Answers :
      (t : Translator) (raw : Fields) (fallback : String)
      → Shown ids t
      → Answers ids (prepend_pending (terminal_error t raw fallback))
  unfolding terminal_error answers uses
  error-Answers t raw fallback h = prepend-Answers (terminal_error t raw fallback) (refl, h)

  typed-Answers :
      (t : Translator) (raw : Fields) (kind : String)
      → Shown ids t
      → Answers ids (translate_typed t raw kind)
  unfolding translate_typed translate_item_started translate_item_completed translate_turn_completed
  typed-Answers t raw kind h =
      let first = map_field raw "item" in
      switch_All (Answers ids) kind (line_cases t raw) ([], t)
        (
          thread-Answers t _ h,
          (
            prepend-Answers (start_item t first) (start_item-Answers t first h),
            (
              complete_item-Answers t first h,
              (
                queued-Answers t _ h,
                (
                  final-Answers t t.pending_agent_message (map_field raw "usage") _ refl h,
                  (error-Answers t raw _ h, (error-Answers t raw _ h, tt)),
                ),
              ),
            ),
          ),
        )
        (same-Answers t h)

  translate-Answers :
      (t : Translator) (line : Option Fields) → Shown ids t → Answers ids (translate t line)
  unfolding translate
  translate-Answers t none h = same-Answers t h
  translate-Answers t (some raw) h =
      either (Answers ids) t.terminal _ _ (same-Answers t h) (typed-Answers t raw _ h)

-- Over any lines, where the tools that the translator takes as started were shown, every result of a
-- tool stands behind a use of the tool with the same id.
pub translate_all-answers :
    (ids : List String) (t : Translator) (lines : List (Option Fields))
    → Shown ids t
    → answers ids (translate_all t lines).0 ≡ true
unfolding translate_all answers
translate_all-answers ids t [] h = refl
translate_all-answers ids t (line ∷ lines) h =
    let one = translate-Answers ids t line h in
    let step = translate t line in
    rw (answers-append ids step.0 (translate_all step.1 lines).0, one.0)
      (translate_all-answers (uses ids step.0) step.1 lines one.1)
