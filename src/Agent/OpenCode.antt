-- ===== src/Agent/OpenCode.antt =====
-- internal/agent/opencode.go: the events of the server's bus, the questions and permissions that it
-- asks, and the profile's permission policy.
pub mod Models
pub mod Poll
pub mod Server
pub mod Url
use lark_coding_agent_bridge.Prelude.{
  ℕ, String, Bool, true, false, ◌&&◌, ◌||◌, not, Option, none, some, List, [], ◌∷◌, ◌==◌,
  if◌then◌else◌, switch, Dict, lookup, insert, concat, trim_space, truncate_runes, to_lower,
}
use lark_coding_agent_bridge.Agent.Json.{
  Json, str, obj, Fields, empty, entry, get, as_string, as_bool, as_map, any_slice, any_strings,
  or_empty, map_field, string_field,
}
use lark_coding_agent_bridge.Agent.Event.{
  Event, AskOption, AskQuestion, blank, TerminationReason, EventType,
}
use lark_coding_agent_bridge.Agent.Codex.{text_event, use_event, result_event}

abbrev pub option_of : String → AskOption
option_of label = record { key = label; label = label }

-- The options of a question, and the prompt with their descriptions.
unfoldable pub question_options : String → List Json → String × List AskOption
question_options prompt [] = (prompt, [])
question_options prompt (o ∷ os) =
    let om = or_empty (as_map o) in
    let label = as_string (get om "label") in
    let description = as_string (get om "description") in
    let shown =
      if description == ""
      then prompt
      else concat prompt (concat "\n- **" (concat label (concat "**: " description))) in
    let rest = question_options (if label == "" then prompt else shown) os in
    if label == "" then rest else (rest.0, option_of label ∷ rest.1)

-- A header stands in bold over its prompt, unless it is the prompt.
abbrev pub with_header : String → String → String
with_header header prompt =
    if header == "" || header == prompt
    then prompt
    else concat "**" (concat header (concat "**\n" prompt))

unfoldable pub no_options : List AskOption → Bool
no_options [] = true
no_options (o ∷ os) = false

abbrev pub other_option : List AskOption
other_option = record { key = "__other__"; label = "请直接发送文字回答" } ∷ []

-- One question of the list, and whether it may be answered freely; `none` where it cannot be shown.
unfoldable pub oc_question : Fields → Option (AskQuestion × Bool)
unfolding question_options get as_string as_bool any_slice no_options
oc_question m =
    let header = as_string (get m "header") in
    let prompt = with_header header (as_string (get m "question")) in
    let multi = as_bool (get m "multiple") || as_bool (get m "multiSelect") in
    let shown = question_options prompt (any_slice (get m "options")) in
    let custom = as_bool (get m "custom") in
    if shown.0 == "" || (no_options shown.1 && not custom)
    then none
    else some (
      record {
        prompt = shown.0;
        options = if no_options shown.1 then other_option else shown.1;
        multi_select = multi;
      },
      custom,
    )

abbrev pub as_question : Option Fields → Option (AskQuestion × Bool)
as_question none = none
as_question (some m) = oc_question m

abbrev pub add_question :
    Option (AskQuestion × Bool) → List AskQuestion × Bool → List AskQuestion × Bool
add_question none (qs, custom) = (qs, custom)
add_question (some (q, free)) (qs, custom) = (q ∷ qs, free || custom)

unfoldable pub oc_questions : List Json → List AskQuestion × Bool
oc_questions [] = ([], false)
oc_questions (v ∷ vs) = add_question (as_question (as_map v)) (oc_questions vs)

abbrev pub is_single : List Json → Bool
is_single (v ∷ []) = true
is_single _ = false

unfoldable pub parse_oc_questions : Fields → String × List AskQuestion × Bool
unfolding oc_questions any_slice string_field get
parse_oc_questions props =
    let raw = any_slice (get props "questions") in
    let parsed = oc_questions raw in
    (string_field props ("id" ∷ "questionID" ∷ []), parsed.0, parsed.1 && is_single raw)

abbrev pub oc_permission_options : List AskOption
oc_permission_options =
    record { key = "once"; label = "允许一次" }
    ∷ record { key = "always"; label = "始终允许" }
    ∷ record { key = "reject"; label = "拒绝" }
    ∷ []

-- A line with a value in code marks.
unfoldable pub coded_lines : ℕ → List String → String
coded_lines limit [] = ""
coded_lines limit (t ∷ ts) =
    concat "\n- `" (concat (truncate_runes t limit) (concat "`" (coded_lines limit ts)))

unfoldable pub coded_fields : Fields → List String → String
unfolding string_field
coded_fields meta [] = ""
coded_fields meta (k ∷ ks) =
    let rest = coded_fields meta ks in
    let v = string_field meta (k ∷ []) in
    if v == ""
    then rest
    else concat "\n**" (concat k (concat "**: `" (concat (truncate_runes v 300) (concat "`" rest))))

abbrev first_strings : List String → List String → List String
first_strings [] other = other
first_strings (s ∷ ss) other = s ∷ ss

abbrev under : String → String → String
under title lines = if lines == "" then "" else concat title lines

unfoldable pub oc_permission_prompt : Fields → String
unfolding coded_lines coded_fields string_field any_strings map_field get
oc_permission_prompt props =
    let kind = string_field props ("permission" ∷ "action" ∷ []) in
    let targets =
      first_strings (any_strings (get props "patterns")) (any_strings (get props "resources")) in
    let always =
      first_strings (any_strings (get props "always")) (any_strings (get props "save")) in
    let meta = or_empty (map_field props "metadata") in
    concat "🔐 工具权限请求" (
      concat (if kind == "" then "" else concat "\n**类型**: `" (concat kind "`")) (
        concat (under "\n**目标**:" (coded_lines 200 targets)) (
          concat
            (coded_fields meta
              ("command" ∷ "filepath" ∷ "path" ∷ "description" ∷ "title" ∷ "cwd" ∷ []))
            (under "\n\n选择「始终允许」将记住：" (coded_lines 120 always)))))

unfoldable pub parse_oc_permission : Fields → String × List AskQuestion
unfolding string_field oc_permission_prompt
parse_oc_permission props =
    let id = string_field props ("id" ∷ "requestID" ∷ []) in
    if id == "" then ("", []) else (
      id,
      record {
        prompt = oc_permission_prompt props;
        options = oc_permission_options;
        multi_select = false;
      }
          ∷ [],
    )

-- The first answer to the first question.
abbrev pub first_answer : List (List String) → Option String
first_answer ((a ∷ as') ∷ rest) = some a
first_answer _ = none

-- What a card's answer tells the server about a permission.
abbrev pub permission_cases : List (String × String)
permission_cases =
    ("once", "once")
    ∷ ("allow_once", "once")
    ∷ ("allow once", "once")
    ∷ ("允许一次", "once")
    ∷ ("always", "always")
    ∷ ("allow_always", "always")
    ∷ ("allow always", "always")
    ∷ ("始终允许", "always")
    ∷ ("reject", "reject")
    ∷ ("deny", "reject")
    ∷ ("block", "reject")
    ∷ ("拒绝", "reject")
    ∷ []

unfoldable pub permission_of : Option String → String
permission_of none = "reject"
permission_of (some v) = switch (to_lower (trim_space v)) permission_cases "reject"

unfoldable pub oc_permission_reply : List (List String) → Bool → String
unfolding permission_of
oc_permission_reply answers cancelled =
    if cancelled then "reject" else permission_of (first_answer answers)

-- The levels of access of a profile, internal/config.
abbrev pub access_workspace : String
access_workspace = "workspace"

abbrev pub access_read_only : String
access_read_only = "read-only"

abbrev pub access_full : String
access_full = "full"

unfoldable pub normalize_oc_access : String → String
normalize_oc_access access =
    if access == access_workspace || access == access_read_only then access else access_full

unfoldable pub oc_auto_allow_permission : String → Bool
oc_auto_allow_permission access = not (access == access_workspace || access == access_read_only)

unfoldable pub policy_of : String → String → Json
policy_of edit bash = obj (
    entry "bash" (str bash) (
      entry "edit" (str edit) (
        entry "external_directory" (str "deny")
          (entry "webfetch" (str "ask") (entry "websearch" (str "ask") empty)))))

unfoldable pub open_code_permission_policy : String → Json
unfolding policy_of normalize_oc_access
open_code_permission_policy access =
    let level = normalize_oc_access access in
    if level == access_workspace
    then policy_of "allow" "ask"
    else if level == access_read_only
    then policy_of "deny" "deny"
    else str "allow"

-- A tool call's part of a message.
unfoldable pub tool_part : Fields → List Event
unfolding string_field map_field get
tool_part part =
    let state = or_empty (map_field part "state") in
    let status = string_field state ("status" ∷ []) in
    let call = string_field part ("callID" ∷ []) in
    let used = use_event call (string_field part ("tool" ∷ [])) (get state "input") ∷ [] in
    let done =
      record (result_event (string_field state ("output" ∷ "title" ∷ [])) (status == "error")) {
        id = call;
      }
      ∷ [] in
    switch status
      (("pending", used) ∷ ("running", used) ∷ ("completed", done) ∷ ("error", done) ∷ []) []

-- What the bus's event makes: the bridge's events, and whether the turn has ended; with the kinds of
-- the parts seen so far, by their ids.
abbrev pub Bus : Type 0
Bus = List Event × Bool × Dict String

unfoldable pub part_delta : Dict String → Fields → Bus
unfolding string_field lookup
part_delta kinds props =
    let delta = string_field props ("delta" ∷ []) in
    let reasoning : Bool = elim (lookup (string_field props ("partID" ∷ [])) kinds) [
      | some kind ↦ kind == "reasoning"
      | none ↦ false
    ] in
    if delta == ""
    then ([], false, kinds)
    else if reasoning
    then (record (blank EventType.thinking) { delta = delta } ∷ [], false, kinds)
    else (text_event delta ∷ [], false, kinds)

unfoldable pub part_updated : Dict String → Option Fields → Bus
unfolding string_field insert tool_part
part_updated kinds none = ([], false, kinds)
part_updated kinds (some part) =
    let kind = string_field part ("type" ∷ []) in
    let id = string_field part ("id" ∷ []) in
    let seen = if id == "" || kind == "" then kinds else insert id kind kinds in
    (if kind == "tool" then tool_part part else [], false, seen)

unfoldable pub no_questions : List AskQuestion → Bool
no_questions [] = true
no_questions (q ∷ qs) = false

unfoldable pub asked : String → List AskQuestion → Bool → String → List Event
unfolding no_questions
asked id questions free source =
    if id == "" || no_questions questions
    then []
    else record (blank EventType.ask_user) {
      ask_id = id;
      questions = questions;
      freeform = free;
      source = source;
    }
      ∷ []

abbrev pub done_event : TerminationReason → Event
done_event reason = record (blank EventType.done) { termination_reason = reason }

abbrev pub failed_event : String → Event
failed_event message = record (blank EventType.error) {
  message = message;
  termination_reason = TerminationReason.failed;
}

unfoldable pub session_error : Dict String → Fields → Bus
unfolding string_field map_field
session_error kinds failure =
    let name = string_field failure ("name" ∷ []) in
    let detail = string_field (or_empty (map_field failure "data")) ("message" ∷ []) in
    if name == "MessageAbortedError"
    then (done_event TerminationReason.interrupted ∷ [], true, kinds)
    else (
      failed_event (concat "opencode: " (if detail == "" then name else detail)) ∷ [],
      true,
      kinds,
    )

-- `translate`, by the type of the bus's event.
abbrev pub bus_cases : Dict String → Fields → List (String × Bus)
bus_cases kinds props =
    let question = parse_oc_questions props in
    let permission = parse_oc_permission props in
    let gate = asked permission.0 permission.1 false "opencode-permission" in
    ("message.part.delta", part_delta kinds props)
    ∷ ("message.part.updated", part_updated kinds (map_field props "part"))
    ∷ ("question.asked", (asked question.0 question.1 question.2 "opencode", false, kinds))
    ∷ ("permission.asked", (gate, false, kinds))
    ∷ ("permission.v2.asked", (gate, false, kinds))
    ∷ ("session.idle", (done_event TerminationReason.normal ∷ [], false, kinds))
    ∷ ("session.error", session_error kinds (or_empty (map_field props "error")))
    ∷ []

unfoldable pub oc_translate : Dict String → String → Fields → Bus
oc_translate kinds kind props = switch kind (bus_cases kinds props) ([], false, kinds)
