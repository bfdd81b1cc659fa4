-- ===== src/Agent/Codex/Said.antt =====
-- The agent's messages through internal/agent/codex.go: a message waits for the next event, and none is
-- lost, doubled or overtaken.
use lark_coding_agent_bridge.Prelude.{
  String, ◌≡◌, refl, sym, ap, ◌∙◌, inl, inr, Bool, true, false, Option, none, some, List, [], ◌∷◌,
  ◌++◌, arith, ◌==◌, if◌then◌else◌, Bool-cases, either, switch, switch_All, has_key, switch_All2,
  either2,
}
use mathlib.Core.Path.{◌≡⟨◌⟩◌, ◌∎}
use mathlib.Core.List.{append-nil, append_assoc}
use lark_coding_agent_bridge.Agent.Json.{Fields, get, as_string, map_field, string_field}
use lark_coding_agent_bridge.Agent.Event.{Event, blank, TerminationReason, EventType}
use lark_coding_agent_bridge.Agent.Codex.{Translator, codex_tool_use, tool_cases}
use lark_coding_agent_bridge.Agent.Codex.Translate.{
  Step, queue_agent_message, prepend_pending, terminal_error, translate_item_started, complete_tool,
  translate_item_completed, translate_turn_completed, translate, translate_all, translate_typed,
  item_completed, thought, thread_started, started, completed, queued, item_cases, usage_events,
  start_item, complete_item, final_text_events,
}

-- What the events say, the final text included.
abbrev said_by : EventType → Event → List String
said_by EventType.text e = e.delta ∷ []
said_by EventType.final_text e = e.content ∷ []
said_by _ e = []

unfoldable pub said : List Event → List String
said [] = []
said (e ∷ es) = said_by e.kind e ++ said es

abbrev pub some_text : String → List String
some_text s = if s == "" then [] else s ∷ []

-- The message that waits.
abbrev pub waiting : Translator → List String
waiting t = some_text t.pending_agent_message

-- The message that a line brings, as an item or by itself.
abbrev item_message : Option Fields → List String
item_message none = []
item_message (some it) =
    if as_string (get it "type") == "agent_message"
    then some_text (string_field it ("text" ∷ "message" ∷ []))
    else []

-- The message that a line of a type brings.
abbrev message_cases : Fields → List (String × List String)
message_cases raw =
    ("thread.started", [])
    ∷ ("item.started", [])
    ∷ ("item.completed", item_message (map_field raw "item"))
    ∷ ("agent_message", some_text (string_field raw ("message" ∷ "text" ∷ [])))
    ∷ ("turn.completed", [])
    ∷ ("turn.failed", [])
    ∷ ("error", [])
    ∷ []

unfoldable pub message : Fields → List String
message raw = switch (string_field raw ("type" ∷ [])) (message_cases raw) []

abbrev line_message : Bool → Option Fields → List String
line_message terminal none = if terminal then [] else []
line_message terminal (some raw) = if terminal then [] else message raw

-- The messages of the lines up to the end of the turn.
unfoldable pub heard : Translator → List (Option Fields) → List String
unfolding translate message
heard t [] = []
heard t (line ∷ lines) = line_message t.terminal line ++ heard (translate t line).1 lines

said-append : (xs ys : List Event) → said (xs ++ ys) ≡ said xs ++ said ys
unfolding said
said-append [] ys = refl
said-append (x ∷ xs) ys =
    ap (λ l. said_by x.kind x ++ l) (said-append xs ys)
    ∙ sym (append_assoc (said_by x.kind x) (said xs) (said ys))

-- A step that says nothing and keeps what waits.
abbrev Silent : Translator → Step → Type 0
Silent t s = (said s.0 ≡ []) × (s.1.pending_agent_message ≡ t.pending_agent_message)

-- What waited and what came is what was said and what waits.
abbrev Conserves : Translator → List String → Step → Type 0
Conserves t came s = waiting t ++ came ≡ said s.0 ++ waiting s.1

same-Conserves : (t : Translator) → Conserves t [] ([], t)
unfolding said
same-Conserves t = append-nil (waiting t)

prepend-Conserves : (t : Translator) (s : Step) → Silent t s → Conserves t [] (prepend_pending s)
unfolding prepend_pending said
prepend-Conserves t ([], u) h = ground (arith, append-nil (waiting t))
prepend-Conserves t (e ∷ es, u) h = elim (Bool-cases (u.pending_agent_message == "")) [
  | inl b ↦ rw (b, h.0) (rw (← h.1) (rw b refl))
  | inr b ↦ rw (b, h.0) (rw (← h.1) (rw b refl))
]

queued-Conserves : (t : Translator) (m : String) → Conserves t (some_text m) (queued t m)
unfolding queued queue_agent_message said
queued-Conserves t m = elim (Bool-cases (m == "")) [
  | inl b ↦ rw b (append-nil (waiting t))
  | inr b ↦ ground arith
]

abbrev pub OfKind : Option Event → Type 0
OfKind none = Unit {0}
OfKind (some e) = e.kind ≡ EventType.tool_use

pub tool_use-OfKind : (it : Fields) → OfKind (codex_tool_use it)
unfolding codex_tool_use
tool_use-OfKind it =
    let id = string_field it ("id" ∷ []) in
    either OfKind (id == "") none (switch (string_field it ("type" ∷ [])) (tool_cases id it) none)
      tt
      (switch_All OfKind (string_field it ("type" ∷ [])) (tool_cases id it) none
        (refl, (refl, (refl, (refl, (refl, (refl, (refl, tt))))))) tt)

started-Silent : (t : Translator) (o : Option Event) → OfKind o → Silent t (started t o)
unfolding started said
started-Silent t none h = (refl, refl)
started-Silent t (some e) h = (rw h refl, refl)

start_item-Silent : (t : Translator) (o : Option Fields) → Silent t (start_item t o)
unfolding said
start_item-Silent t none = (refl, refl)
start_item-Silent t (some it) = started-Silent t (codex_tool_use it) (tool_use-OfKind it)

item_started-Silent : (t : Translator) (raw : Fields) → Silent t (translate_item_started t raw)
unfolding translate_item_started
item_started-Silent t raw = start_item-Silent t (map_field raw "item")

completed-Silent :
    (t : Translator) (result : Event) (o : Option Event)
    → OfKind o
    → Silent t (completed t result o)
unfolding completed said
completed-Silent t result none h = (refl, refl)
completed-Silent t result (some e) h = elim (Bool-cases (has_key e.id t.started_items)) [
  | inl b ↦ rw b (refl, refl)
  | inr b ↦ rw (b, h) (refl, refl)
]

complete_tool-Silent :
    (t : Translator) (it : Fields) (result : Event) → Silent t (complete_tool t it result)
unfolding complete_tool
complete_tool-Silent t it result =
    completed-Silent t result (codex_tool_use it) (tool_use-OfKind it)

tool-Conserves :
    (t : Translator) (it : Fields) (result : Event)
    → Conserves t [] (prepend_pending (complete_tool t it result))
tool-Conserves t it result =
    prepend-Conserves t (complete_tool t it result) (complete_tool-Silent t it result)

error-Silent :
    (t : Translator) (raw : Fields) (fallback : String) → Silent t (terminal_error t raw fallback)
unfolding terminal_error said
error-Silent t raw fallback = (refl, refl)

thought-Conserves : (t : Translator) (s : String) → Conserves t [] (thought t s)
unfolding thought said
thought-Conserves t s =
    either (Conserves t []) (s == "") _ _ (same-Conserves t)
      (prepend-Conserves t (record (blank EventType.thinking) { delta = s } ∷ [], t) (refl, refl))

-- The message that an item of a type brings.
abbrev item_text : Fields → String → List String
item_text it kind =
    if kind == "agent_message" then some_text (string_field it ("text" ∷ "message" ∷ [])) else []

-- Where the test of a step is the test of what it brings.
both-Conserves :
    (t : Translator) (b : Bool) (came other : List String) (r s : Step)
    → Conserves t came r
    → Conserves t other s
    → Conserves t (if b then came else other) (if b then r else s)
both-Conserves t true came other r s h k = h
both-Conserves t false came other r s h k = k

item-Conserves :
    (t : Translator) (it : Fields) (kind : String)
    → Conserves t (item_text it kind) (item_completed t it kind)
unfolding item_completed
item-Conserves t it kind =
    let tool = tool-Conserves t it in
    both-Conserves t (kind == "agent_message") _ [] _ _ (queued-Conserves t _) (
      switch_All (Conserves t []) kind (item_cases t it) ([], t)
        (
          thought-Conserves t _,
          (
            thought-Conserves t _,
            (tool _, (tool _, (tool _, (tool _, (tool _, (tool _, (tool _, tt))))))),
          ),
        )
        (same-Conserves t))

complete_item-Conserves :
    (t : Translator) (o : Option Fields) → Conserves t (item_message o) (complete_item t o)
complete_item-Conserves t none = same-Conserves t
complete_item-Conserves t (some it) = item-Conserves t it (as_string (get it "type"))

item_completed-Conserves :
    (t : Translator) (raw : Fields)
    → Conserves t (item_message (map_field raw "item")) (translate_item_completed t raw)
unfolding translate_item_completed
item_completed-Conserves t raw = complete_item-Conserves t (map_field raw "item")

said-usage :
    (o : Option Fields) (e : Event) → said_by e.kind e ≡ [] → said (usage_events o ++ (e ∷ [])) ≡ []
unfolding said
said-usage none e h = rw h refl
said-usage (some u) e h = rw h refl

said-final : (m : String) → said (final_text_events m) ≡ some_text m
unfolding said
said-final m = elim (Bool-cases (m == "")) [ inl b ↦ rw b refl | inr b ↦ rw b refl ]

turn_completed-Conserves :
    (t : Translator) (raw : Fields) → Conserves t [] (translate_turn_completed t raw)
unfolding translate_turn_completed
turn_completed-Conserves t raw =
    let done = record (blank EventType.done) {
      thread_id = t.thread_id;
      termination_reason = TerminationReason.normal;
    } in
    let texts = final_text_events t.pending_agent_message in
    let others = usage_events (map_field raw "usage") ++ (done ∷ []) in
    let silent = said-usage (map_field raw "usage") done refl in
    let all = said-append texts others in
    rw (all, silent, said-final t.pending_agent_message)
      (ap (λ l. l ++ []) (sym (append-nil (waiting t))))

thread-Conserves : (t : Translator) (id : String) → Conserves t [] (thread_started t id)
unfolding thread_started said
thread-Conserves t id =
    either (Conserves t []) (id == "") _ _ (same-Conserves t) (append-nil (waiting t))

typed-Conserves :
    (t : Translator) (raw : Fields)
    → Conserves t (message raw) (translate_typed t raw (string_field raw ("type" ∷ [])))
unfolding translate_typed message
typed-Conserves t raw =
    switch_All2 (Conserves t) (string_field raw ("type" ∷ []))
      (("thread.started", [], thread_started t (string_field raw ("thread_id" ∷ [])))
        ∷ ("item.started", [], prepend_pending (translate_item_started t raw))
        ∷ ("item.completed", item_message (map_field raw "item"), translate_item_completed t raw)
        ∷ (
          "agent_message",
          some_text (string_field raw ("message" ∷ "text" ∷ [])),
          queued t (string_field raw ("message" ∷ "text" ∷ [])),
        )
        ∷ ("turn.completed", [], translate_turn_completed t raw)
        ∷ ("turn.failed", [], prepend_pending (terminal_error t raw "codex turn failed"))
        ∷ ("error", [], prepend_pending (terminal_error t raw "codex error"))
        ∷ [])
      [] ([], t)
      (
        thread-Conserves t _,
        (
          prepend-Conserves t (translate_item_started t raw) (item_started-Silent t raw),
          (
            item_completed-Conserves t raw,
            (
              queued-Conserves t _,
              (
                turn_completed-Conserves t raw,
                (
                  prepend-Conserves t (terminal_error t raw "codex turn failed")
                      (error-Silent t raw _),
                  (
                    prepend-Conserves t (terminal_error t raw "codex error") (error-Silent t raw _),
                    tt,
                  ),
                ),
              ),
            ),
          ),
        ),
      )
      (same-Conserves t)

line-Conserves :
    (t : Translator) (line : Option Fields)
    → Conserves t (line_message t.terminal line) (translate t line)
unfolding translate
line-Conserves t none =
    either (λ (l : List String). Conserves t l ([], t)) t.terminal [] [] (same-Conserves t)
      (same-Conserves t)
line-Conserves t (some raw) =
    either2 (Conserves t) t.terminal [] (message raw) ([], t)
      (translate_typed t raw (string_field raw ("type" ∷ []))) (same-Conserves t)
      (typed-Conserves t raw)

-- Over any lines, the messages that came up to the end of the turn are those that the events say, in
-- their order, and at the end the one that still waits.
pub translate_all-said :
    (t : Translator) (lines : List (Option Fields))
    → waiting t ++ heard t lines
      ≡ said (translate_all t lines).0 ++ waiting (translate_all t lines).1
unfolding translate_all heard said
translate_all-said t [] = append-nil (waiting t)
translate_all-said t (line ∷ lines) =
    let step = translate t line in
    let rest = translate_all step.1 lines in
    waiting t ++ (line_message t.terminal line ++ heard step.1 lines)
    ≡⟨ sym (append_assoc (waiting t) (line_message t.terminal line) (heard step.1 lines)) ⟩
      (waiting t ++ line_message t.terminal line) ++ heard step.1 lines
    ≡⟨ ap (λ l. l ++ heard step.1 lines) (line-Conserves t line) ⟩
      (said step.0 ++ waiting step.1) ++ heard step.1 lines
    ≡⟨ append_assoc (said step.0) (waiting step.1) (heard step.1 lines) ⟩
      said step.0 ++ (waiting step.1 ++ heard step.1 lines)
    ≡⟨ ap (λ l. said step.0 ++ l) (translate_all-said step.1 lines) ⟩
      said step.0 ++ (said rest.0 ++ waiting rest.1)
    ≡⟨ sym (append_assoc (said step.0) (said rest.0) (waiting rest.1)) ⟩
      (said step.0 ++ said rest.0) ++ waiting rest.1
    ≡⟨ ap (λ l. l ++ waiting rest.1) (sym (said-append step.0 rest.0)) ⟩
      said (step.0 ++ rest.0) ++ waiting rest.1 ∎
