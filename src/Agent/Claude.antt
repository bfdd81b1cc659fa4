-- ===== src/Agent/Claude.antt =====
-- internal/agent/claude.go: the command and its lines, decoded. An amount is a count of millionths.
use mathlib.Core.List.{append-nil, append_assoc}
use lark_coding_agent_bridge.Prelude.{
  ℕ, String, ◌≡◌, refl, ap, ◌∙◌, Bool, false, ◌&&◌, ◌||◌, not, Option, none, some, List, [], ◌∷◌,
  ◌++◌, ◌==◌, if◌then◌else◌, either, switch, switch_All, sym, All, either_test, arith, Bool-cases,
  inl, eq_iff, inr,
}
use lark_coding_agent_bridge.Agent.Event.{Event, blank, TerminationReason, EventType}
use lark_coding_agent_bridge.Agent.Stream.{tail, tail-append, running, standing, ended}

unfoldable pub claude_permission_mode : String → String
claude_permission_mode access =
    switch access (("workspace", "acceptEdits") ∷ ("read-only", "plan") ∷ []) "bypassPermissions"

-- The arguments of the command, behind those that are always there.
abbrev pub option_args : String → String → List String
option_args name value = if value == "" then [] else name ∷ value ∷ []

unfoldable pub claude_args : String → String → String → String → List String → List String
unfolding claude_permission_mode
claude_args access system_file session model extra =
    "-p"
    ∷ "--output-format"
    ∷ "stream-json"
    ∷ "--verbose"
    ∷ "--permission-mode"
    ∷ claude_permission_mode access
    ∷ "--append-system-prompt-file"
    ∷ system_file
    ∷ (option_args "--resume" session ++ (option_args "--model" model ++ extra))

-- `claudeContentBlock`; `content` is the text of a JSON string, `content_raw` that of any other value.
pub record ContentBlock : Type 0 where
  pub kind : String
  pub text : String
  pub thinking : String
  pub id : String
  pub name : String
  pub input : String
  pub tool_use_id : String
  pub content : Option String
  pub content_raw : String
  pub is_error : Bool

pub record RawUsage : Type 0 where
  pub input_tokens : ℕ
  pub output_tokens : ℕ
  pub cache_read_input_tokens : ℕ

pub record RawEvent : Type 0 where
  pub kind : String
  pub subtype : String
  pub session : String
  pub cwd : String
  pub model : String
  pub content : List ContentBlock
  pub usage : Option RawUsage
  pub total_cost_usd : ℕ

abbrev pub delta_event : EventType → String → List Event
delta_event kind text = if text == "" then [] else record (blank kind) { delta = text } ∷ []

abbrev tool_use_event : ContentBlock → List Event
tool_use_event b =
    if b.id == "" || b.name == ""
    then []
    else record (blank EventType.tool_use) { id = b.id; name = b.name; input = b.input } ∷ []

abbrev pub assistant_cases : ContentBlock → List (String × List Event)
assistant_cases b =
    ("text", delta_event EventType.text b.text)
    ∷ ("thinking", delta_event EventType.thinking b.thinking)
    ∷ ("tool_use", tool_use_event b)
    ∷ []

unfoldable pub assistant_events : List ContentBlock → List Event
assistant_events [] = []
assistant_events (b ∷ bs) = switch b.kind (assistant_cases b) [] ++ assistant_events bs

abbrev result_text : Option String → String → String
result_text none raw = raw
result_text (some s) raw = s

abbrev pub result_events : ContentBlock → List Event
result_events b =
    if b.kind == "tool_result" && not (b.tool_use_id == "")
    then record (blank EventType.tool_result) {
      id = b.tool_use_id;
      output = result_text b.content b.content_raw;
      is_error = b.is_error;
    }
      ∷ []
    else []

unfoldable pub user_events : List ContentBlock → List Event
user_events [] = []
user_events (b ∷ bs) = result_events b ++ user_events bs

abbrev pub usage_events : Option RawUsage → ℕ → List Event
usage_events none cost = []
usage_events (some u) cost =
    record (blank EventType.usage) {
      input_tokens = u.input_tokens;
      output_tokens = u.output_tokens;
      cached_input_tokens = u.cache_read_input_tokens;
      cost_usd = cost;
    }
    ∷ []

abbrev pub init_events : String → String → String → String → List Event
init_events subtype session cwd model =
    if subtype == "init"
    then record (blank EventType.system) { session_id = session; cwd = cwd; model = model } ∷ []
    else []

abbrev pub done_events : String → List Event
done_events session =
    record (blank EventType.done) {
      session_id = session;
      termination_reason = TerminationReason.normal;
    }
    ∷ []

abbrev pub claude_cases : RawEvent → List (String × List Event)
claude_cases raw =
    ("system", init_events raw.subtype raw.session raw.cwd raw.model)
    ∷ ("assistant", assistant_events raw.content)
    ∷ ("user", user_events raw.content)
    ∷ ("result", usage_events raw.usage raw.total_cost_usd ++ done_events raw.session)
    ∷ []

-- The events of a line, `none` where it is not decoded.
unfoldable pub translate_claude_line : Option RawEvent → List Event
translate_claude_line none = []
translate_claude_line (some raw) = switch raw.kind (claude_cases raw) []

unfoldable pub translate_lines : List (Option RawEvent) → List Event
translate_lines [] = []
translate_lines (line ∷ lines) = translate_claude_line line ++ translate_lines lines

-- Lines other than the result leave the stream running.
abbrev Runs : List Event → Type 0
Runs es = tail running es ≡ running

Runs-append : (xs ys : List Event) → Runs xs → Runs ys → Runs (xs ++ ys)
Runs-append xs ys h k = tail-append running xs ys ∙ ap (λ s. tail s ys) h ∙ k

delta-Runs :
    (text : String)
    → Runs (delta_event EventType.text text) × Runs (delta_event EventType.thinking text)
unfolding tail
delta-Runs text = (either Runs (text == "") _ _ refl refl, either Runs (text == "") _ _ refl refl)

assistant-Runs : (bs : List ContentBlock) → Runs (assistant_events bs)
unfolding assistant_events tail
assistant-Runs [] = refl
assistant-Runs (b ∷ bs) =
    let one =
      switch_All Runs b.kind (assistant_cases b) []
        (
          (delta-Runs b.text).0,
          ((delta-Runs b.thinking).1, (either Runs (b.id == "" || b.name == "") _ _ refl refl, tt)),
        )
        refl in
    Runs-append (switch b.kind (assistant_cases b) []) (assistant_events bs) one (assistant-Runs bs)

user-Runs : (bs : List ContentBlock) → Runs (user_events bs)
unfolding user_events tail
user-Runs [] = refl
user-Runs (b ∷ bs) =
    Runs-append (result_events b) (user_events bs)
      (either Runs (b.kind == "tool_result" && not (b.tool_use_id == "")) _ _ refl refl)
      (user-Runs bs)

abbrev pub is_result : Option RawEvent → Bool
is_result none = false
is_result (some raw) = raw.kind == "result"

result-closes :
    (u : Option RawUsage) (cost : ℕ) (session : String)
    → tail running (usage_events u cost ++ done_events session) ≡ ended
unfolding tail
result-closes none cost session = refl
result-closes (some u) cost session = refl

init-Runs : (subtype session cwd model : String) → Runs (init_events subtype session cwd model)
unfolding tail
init-Runs subtype session cwd model = either Runs (subtype == "init") _ _ refl refl

other-Runs :
    (kind : String) (raw : RawEvent)
    → (kind == "result") ≡ false
    → Runs (switch kind (claude_cases raw) [])
unfolding tail
other-Runs kind raw h =
    either Runs (kind == "system") _ _ (init-Runs raw.subtype raw.session raw.cwd raw.model) (
      either Runs (kind == "assistant") _ _ (assistant-Runs raw.content) (
        either Runs (kind == "user") _ _ (user-Runs raw.content) (
          either_test Runs (kind == "result") _ _ (λ e. absurd (ground (arith, e, h)))
            (λ e. refl))))

result-Closes :
    (kind : String) (raw : RawEvent)
    → kind ≡ "result"
    → tail running (switch kind (claude_cases raw) []) ≡ ended
result-Closes kind raw h = rw h (result-closes raw.usage raw.total_cost_usd raw.session)

line-standing :
    (line : Option RawEvent) → tail running (translate_claude_line line) ≡ standing (is_result line)
unfolding translate_claude_line tail
line-standing none = refl
line-standing (some raw) = elim (Bool-cases (raw.kind == "result")) [
  | inl e ↦ result-Closes raw.kind raw ((eq_iff raw.kind "result").0 e) ∙ sym (ap standing e)
  | inr e ↦ other-Runs raw.kind raw e ∙ sym (ap standing e)
]

-- The events of lines without a result, and then a result, close the stream with the last event.
abbrev pub Unfinished : List (Option RawEvent) → Type 0
Unfinished lines = All (λ (line : Option RawEvent). is_result line ≡ false) lines

lines-Runs : (lines : List (Option RawEvent)) → Unfinished lines → Runs (translate_lines lines)
unfolding translate_lines tail
lines-Runs [] h = refl
lines-Runs (line ∷ lines) h =
    Runs-append (translate_claude_line line) (translate_lines lines)
      (line-standing line ∙ ap standing h.0) (lines-Runs lines h.1)

lines-append :
    (xs ys : List (Option RawEvent))
    → translate_lines (xs ++ ys) ≡ translate_lines xs ++ translate_lines ys
unfolding translate_lines
lines-append [] ys = refl
lines-append (x ∷ xs) ys =
    ap (λ es. translate_claude_line x ++ es) (lines-append xs ys)
    ∙ sym (append_assoc (translate_claude_line x) (translate_lines xs) (translate_lines ys))

-- A Claude process that prints no result leaves its stream of events running, and one that prints a result
-- as its last line and nowhere else closes it with the last event.
pub translate_lines-tail :
    (lines : List (Option RawEvent)) (last : Option RawEvent)
    → Unfinished lines
    → tail running (translate_lines (lines ++ (last ∷ []))) ≡ standing (is_result last)
unfolding translate_lines
translate_lines-tail lines last h = rw (lines-append lines (last ∷ [])) (
    tail-append running (translate_lines lines) (translate_claude_line last ++ [])
    ∙ ap (λ s. tail s (translate_claude_line last ++ [])) (lines-Runs lines h)
    ∙ ap (tail running) (append-nil (translate_claude_line last))
    ∙ line-standing last)
