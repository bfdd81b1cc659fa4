-- ===== src/Ask/Hook.antt =====
-- Questions of Claude's hook: internal/ask/format.go `ParseClaudeHookPayload` and `FormatClaudeAnswer`, and
-- `handleAsk` of internal/ask/server.go. A payload is decoded JSON, `none` where it is no JSON object.
pub mod Accepted
pub mod Told
use lark_coding_agent_bridge.Prelude.{
  ℕ, zero, suc, ◌+◌, ◌-◌, ◌*◌, ◌/◌, ◌%◌, ◌≤◌, ◌<◌, String, ◌≡◌, refl, sym, ap, ◌∙◌, subst, ◌≢◌, ◌↔◌,
  ◌⊎◌, inl, inr, Bool, true, false, ◌&&◌, ◌||◌, not, Option, none, some, List, [], ◌∷◌, ◌++◌, map,
  arith, ◌==◌, eq_iff, eq_refl, ltb, leb, eqb, if◌then◌else◌, Bool-cases, either, either2,
  either_test, switch, switch_All2, switch_All, Option-cases, length, get_elem?, set, replicate,
  All, All-append, length-append, length-set, length-replicate, has, without, has-without,
  has-append, has-without_self, Dict, lookup, insert, delete, keep, has_key, keys, lookup-keep,
  DistinctKeys, insert-DistinctKeys, delete-DistinctKeys, lookup-insert, lookup-insert_self,
  lookup-delete, lookup-delete_self, has_key-insert, AllVals, AllVals-insert, AllVals-delete,
  AllVals-keep, AllVals-lookup, ℤ, pos, negsuc, concat, trim_space, runes, take_runes,
  truncate_runes, truncate_runes_bound, cut_at, join, drop_runes, to_lower, starts_with,
}
use lark_coding_agent_bridge.Agent.Json.{
  Json, null, bool, num, frac, dollars, str, arr, obj, Items, stop, item, Fields, empty, entry, get,
  present, as_string, as_bool, as_map, any_slice, any_strings, or_empty, map_field, string_field,
  int_field, count_of, is_positive, put,
}
use lark_coding_agent_bridge.Agent.Marshal.{marshal, show_nat, show_int}
use lark_coding_agent_bridge.Agent.Event.{
  Event, AskOption, AskQuestion, blank, TerminationReason, EventType,
}
use lark_coding_agent_bridge.Agent.Codex.{
  codex_json, text_event, use_event, result_event, error_message, cut,
}
use lark_coding_agent_bridge.Ask.Types.{
  Opt, Question, Route, CreateInput, Result, ResultKind, Error, answered, timed_out, invalidated,
}
use lark_coding_agent_bridge.Ask.Answer.{labels_for, is_answered}

-- The options with a key; a label stands for a key that is missing.
hook_option : Option Fields → List Opt → List Opt
unfolding get as_string
hook_option none os = os
hook_option (some m) os =
    let label = as_string (get m "label") in
    let named = as_string (get m "key") in
    let key = if named == "" then label else named in
    if key == "" then os else record { key = key; label = label } ∷ os

unfoldable pub hook_options : List Json → List Opt
unfolding as_map hook_option
hook_options [] = []
hook_options (v ∷ vs) = hook_option (as_map v) (hook_options vs)

abbrev pub no_options : List Opt → Bool
no_options [] = true
no_options (o ∷ os) = false

-- The question is left out without a prompt or without options.
unfoldable pub hook_question : Fields → List Question → List Question
unfolding get as_bool any_slice string_field
hook_question m qs =
    let prompt = string_field m ("question" ∷ "prompt" ∷ []) in
    let options = hook_options (any_slice (get m "options")) in
    if prompt == "" || no_options options
    then qs
    else record { prompt = prompt; options = options; multi_select = as_bool (get m "multiSelect") }
      ∷ qs

abbrev with_question : Option Fields → List Question × List Fields → List Question × List Fields
with_question none (qs, raws) = (qs, raws)
with_question (some m) (qs, raws) = (hook_question m qs, m ∷ raws)

-- The questions, and the raw ones.
unfoldable pub hook_questions : List Json → List Question × List Fields
unfolding as_map
hook_questions [] = ([], [])
hook_questions (v ∷ vs) = with_question (as_map v) (hook_questions vs)

pub data Payload : Type 0 where
  malformed passthrough : Payload
  asking : Question → List Question → List Fields → Payload

abbrev pub payload_of : List Question × List Fields → Payload
payload_of ([], raws) = passthrough
payload_of (q ∷ qs, raws) = asking q qs raws

unfoldable pub parse_claude_hook_payload : Option Fields → Payload
unfolding get as_string map_field any_slice
parse_claude_hook_payload none = malformed
parse_claude_hook_payload (some p) =
    let event = as_string (get p "hook_event_name") in
    if not (event == "PreToolUse" || event == "PermissionRequest")
      || not (as_string (get p "tool_name") == "AskUserQuestion")
    then passthrough
    else payload_of
        (hook_questions (any_slice (get (or_empty (map_field p "tool_input")) "questions")))

-- The answer under the question's prompt: its labels, or the comment; neither leaves it without one.
abbrev pub put_answer : String → Question → List String → Fields → Fields
put_answer comment q [] m = if not (comment == "") then put q.prompt (str comment) m else m
put_answer comment q (key ∷ keys) m =
    put q.prompt (str (join ", " (labels_for q.options (key ∷ keys)))) m

unfoldable pub claude_answers : String → List Question → List (List String) → Fields → Fields
claude_answers comment [] answers m = m
claude_answers comment (q ∷ qs) [] m = claude_answers comment qs [] (put_answer comment q [] m)
claude_answers comment (q ∷ qs) (keys ∷ answers) m =
    claude_answers comment qs answers (put_answer comment q keys m)

abbrev pub objects : List Fields → Items
objects [] = stop
objects (m ∷ ms) = item (obj m) (objects ms)

abbrev updated_input : List Fields → Fields → Fields
updated_input raws answers =
    entry "questions" (arr (objects raws)) (entry "answers" (obj answers) empty)

abbrev permission_directive : Fields → Fields
permission_directive input = entry "hookEventName" (str "PermissionRequest") (
    entry "decision" (obj (entry "behavior" (str "allow") (entry "updatedInput" (obj input) empty)))
      empty)

abbrev tool_directive : Fields → Fields
tool_directive input =
    entry "hookEventName" (str "PreToolUse")
      (entry "permissionDecision" (str "allow") (entry "updatedInput" (obj input) empty))

unfoldable pub format_claude_answer : String → List Fields → List Question → Result → Fields
format_claude_answer event raws qs r =
    let input = updated_input raws (claude_answers (trim_space r.comment) qs r.answers empty) in
    let output =
      if event == "PermissionRequest" then permission_directive input else tool_directive input in
    entry "hookSpecificOutput" (obj output) empty

-- The request's body; the raw payload may be missing.
pub record AskRequest : Type 0 where
  pub scope : String
  pub chat_id : String
  pub reply_to : String
  pub source : String
  pub timeout_ms : ℤ
  pub questions : List Question
  pub raw : Option (Option Fields)

-- What `handleAsk` does before it registers: an error of HTTP, nothing for Claude, or a registration with
-- the raw questions and the hook's event.
pub data Asking : Type 0 where
  not_a_post bad_json no_route bad_payload no_questions pass_through : Asking
  register : CreateInput → List Fields → String → Asking

abbrev to_scope : String → Option Route → Route → Route
to_scope scope none other = other
to_scope scope (some route) other = record route { scope = scope }

unfoldable pub route_of : (String → Option Route) → AskRequest → Route
route_of resolve req =
    let plain : Route = record {
      chat_id = req.chat_id;
      reply_to = req.reply_to;
      in_thread = false;
      scope = req.scope;
    } in
    if req.chat_id == "" && not (req.scope == "")
    then to_scope req.scope (resolve req.scope) plain
    else plain

-- A 64-bit integer with the value up to a multiple of 2 ^ 64.
unfoldable pub int64 : ℤ → ℤ
int64 (pos n) =
    let m = n % 18446744073709551616 in
    if ltb m 9223372036854775808 then pos m else negsuc (18446744073709551616 - m - 1)
int64 (negsuc n) =
    let m = n % 18446744073709551616 in
    if ltb m 9223372036854775808 then negsuc m else pos (18446744073709551616 - m - 1)

abbrev pub nanoseconds : ℤ → ℤ
nanoseconds (pos n) = pos (n * 1_000_000)
nanoseconds (negsuc n) = negsuc (n * 1_000_000 + 999_999)

-- The broker counts in nanoseconds.
abbrev pub registration : Route → AskRequest → List Question → CreateInput
registration route req qs = record {
  route = route;
  questions = qs;
  timeout = int64 (nanoseconds req.timeout_ms);
  source = if req.source == "" then "hook" else req.source;
  freeform = false;
}

abbrev pub event_of : Option Fields → String
event_of p =
    let event = string_field (or_empty p) ("hook_event_name" ∷ []) in
    if event == "" then "PreToolUse" else event

abbrev pub ask_payload : Route → AskRequest → Option Fields → Payload → Asking
ask_payload route req p malformed = bad_payload
ask_payload route req p passthrough = pass_through
ask_payload route req p (asking q qs raws) =
    register (registration route req (q ∷ qs)) raws (event_of p)

abbrev pub ask_listed : Route → AskRequest → List Question → Option (Option Fields) → Asking
ask_listed route req [] none = no_questions
ask_listed route req [] (some p) = ask_payload route req p (parse_claude_hook_payload p)
ask_listed route req (q ∷ qs) raw = register (registration route req (q ∷ qs)) [] "PreToolUse"

unfoldable pub handle_ask : (String → Option Route) → Bool → Option AskRequest → Asking
handle_ask resolve post none = if post then bad_json else not_a_post
handle_ask resolve post (some req) =
    let route = route_of resolve req in
    if not post
    then not_a_post
    else if route.chat_id == ""
    then no_route
    else ask_listed route req req.questions req.raw

-- A result without an answer tells Claude why.
abbrev pub status_text : ResultKind → String → String
status_text timed_out reason = "（飞书侧超时未作答）"
status_text _ reason = concat "（提问已取消：" (concat reason "）")

unfoldable pub explained : Result → Result
explained r =
    if not (is_answered r.kind) && r.comment == ""
    then record r { comment = status_text r.kind r.reason }
    else r

-- The directive of the response, for questions that came as a raw payload.
unfoldable pub ask_directive : String → List Fields → List Question → Result → Option Fields
ask_directive event [] qs r = none
ask_directive event (raw ∷ raws) qs r =
    some (format_claude_answer event (raw ∷ raws) qs (explained r))
