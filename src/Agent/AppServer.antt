-- ===== src/Agent/AppServer.antt =====
-- internal/agent/codex_appserver.go: what the app server's items, questions and permissions are to the
-- bridge, and what the bridge answers.
pub mod Once
pub mod Safe
pub mod Start
pub mod Turn
use lark_coding_agent_bridge.Prelude.{
  ℕ, zero, suc, ◌+◌, ◌-◌, ◌*◌, ◌/◌, ◌%◌, ◌≤◌, ◌<◌, String, ◌≡◌, refl, sym, ap, ◌∙◌, subst, ◌≢◌, ◌↔◌,
  ◌⊎◌, inl, inr, Bool, true, false, ◌&&◌, ◌||◌, not, Option, none, some, List, [], ◌∷◌, ◌++◌, map,
  arith, ◌==◌, eq_iff, eq_refl, ltb, leb, eqb, if◌then◌else◌, Bool-cases, either, either2,
  either_test, switch, switch_All2, switch_All, Option-cases, length, get_elem?, set, replicate,
  All, All-append, length-append, length-set, length-replicate, has, without, has-without,
  has-append, has-without_self, Dict, lookup, insert, delete, keep, has_key, keys, lookup-keep,
  DistinctKeys, insert-DistinctKeys, delete-DistinctKeys, lookup-insert, lookup-insert_self,
  lookup-delete, lookup-delete_self, has_key-insert, AllVals, AllVals-insert, AllVals-delete,
  AllVals-keep, AllVals-lookup, ℤ, pos, negsuc, concat, trim_space, runes, take_runes,
  truncate_runes, truncate_runes_bound, cut_at, join, drop_runes, to_lower, starts_with,
}
use lark_coding_agent_bridge.Agent.Json.{
  Json, null, bool, num, frac, dollars, str, arr, obj, Items, stop, item, Fields, empty, entry, get,
  present, as_string, as_bool, as_map, any_slice, any_strings, or_empty, map_field, string_field,
  int_field, count_of, is_positive,
}
use lark_coding_agent_bridge.Agent.Marshal.{marshal, show_nat, show_int}
use lark_coding_agent_bridge.Agent.Event.{
  Event, AskOption, AskQuestion, blank, TerminationReason, EventType,
}
use lark_coding_agent_bridge.Agent.Codex.{
  codex_json, text_event, use_event, result_event, error_message, cut,
}
use lark_coding_agent_bridge.Agent.OpenCode.{
  done_event, failed_event, first_answer, option_of, with_header, question_options, other_option,
  no_options,
}

-- `truncateRunes` in code marks behind a name in bold; nothing for a blank value.
unfoldable pub markdown_field : String → String → String
unfolding truncate_runes trim_space
markdown_field name value =
    if trim_space value == ""
    then ""
    else concat "\n**" (concat name (concat "**: `" (concat (truncate_runes value 600) "`")))

markdown_items : List String → String
unfolding truncate_runes
markdown_items [] = ""
markdown_items (v ∷ vs) =
    concat "\n- `" (concat (truncate_runes v 300) (concat "`" (markdown_items vs)))

unfoldable pub markdown_list : String → List String → String
unfolding markdown_items
markdown_list name [] = ""
markdown_list name (v ∷ vs) = concat "\n**" (concat name (concat "**:" (markdown_items (v ∷ vs))))

-- `codexAppToolUse` and the results of the items.
abbrev pub app_tool_cases : String → Fields → List (String × Option Event)
app_tool_cases id it =
    (
      "commandExecution",
      some (
          use_event id "command_execution"
            (obj (entry "command" (str (string_field it ("command" ∷ []))) empty))),
    )
    ∷ (
      "fileChange",
      some (use_event id "file_change" (obj (entry "changes" (get it "changes") empty))),
    )
    ∷ (
      "mcpToolCall",
      some (
          use_event id
            (concat "mcp:" (
              concat (string_field it ("server" ∷ []))
                (concat "/" (string_field it ("tool" ∷ [])))))
            (get it "arguments")),
    )
    ∷ (
      "webSearch",
      some (
          use_event id "web_search"
            (obj (entry "query" (str (string_field it ("query" ∷ []))) empty))),
    )
    ∷ (
      "collabAgentToolCall",
      some (
          use_event id (concat "collab:" (string_field it ("tool" ∷ [])))
            (obj (entry "prompt" (str (string_field it ("prompt" ∷ []))) empty))),
    )
    ∷ []

unfoldable pub codex_app_tool_use : Fields → Option Event
codex_app_tool_use it =
    let id = string_field it ("id" ∷ []) in
    if id == "" then none else switch (string_field it ("type" ∷ [])) (app_tool_cases id it) none

changes_lines : List Json → List String
unfolding as_map string_field
changes_lines [] = []
changes_lines (raw ∷ rest) = elim (as_map raw) [
  | none ↦ changes_lines rest
  | some change ↦
      concat (string_field change ("kind" ∷ [])) (concat " " (string_field change ("path" ∷ [])))
      ∷ changes_lines rest
]

unfoldable pub codex_app_changes_output : Json → String
unfolding changes_lines any_slice join
codex_app_changes_output v = join "\n" (changes_lines (any_slice v))

-- The output of an item, and whether it is an error whatever its status.
unfoldable pub mcp_output : Option Fields → Fields → String × Bool
unfolding string_field codex_json get
mcp_output none it = (codex_json (get it "result"), false)
mcp_output (some e) it = (string_field e ("message" ∷ []), true)

abbrev pub output_cases : Fields → List (String × (String × Bool))
output_cases it =
    ("commandExecution", (string_field it ("aggregatedOutput" ∷ []), false))
    ∷ ("fileChange", (codex_app_changes_output (get it "changes"), false))
    ∷ ("mcpToolCall", mcp_output (map_field it "error") it)
    ∷ ("webSearch", (string_field it ("query" ∷ []), false))
    ∷ ("collabAgentToolCall", (codex_json (get it "agentsStates"), false))
    ∷ []

abbrev pub app_result : Fields → Option Event → Option Event
app_result it none = none
app_result it (some use') =
    let status = string_field it ("status" ∷ []) in
    let output = switch (string_field it ("type" ∷ [])) (output_cases it) ("", false) in
    some (record (result_event output.0 (status == "failed" || status == "declined" || output.1)) {
      id = use'.id;
    })

unfoldable pub codex_app_tool_result : Fields → Option Event
codex_app_tool_result it = app_result it (codex_app_tool_use it)

abbrev pub codex_permission_options : List AskOption
codex_permission_options =
    record { key = "once"; label = "允许一次" }
    ∷ record { key = "always"; label = "本会话始终允许" }
    ∷ record { key = "reject"; label = "拒绝" }
    ∷ []

abbrev pub decision_cases : List (String × String)
decision_cases =
    ("once", "accept")
    ∷ ("允许一次", "accept")
    ∷ ("always", "acceptForSession")
    ∷ ("本会话始终允许", "acceptForSession")
    ∷ ("始终允许", "acceptForSession")
    ∷ []

unfoldable pub decision_of : Option String → String
unfolding to_lower trim_space
decision_of none = "decline"
decision_of (some v) = switch (to_lower (trim_space v)) decision_cases "decline"

unfoldable pub codex_approval_decision : List (List String) → Bool → String
unfolding decision_of
codex_approval_decision answers cancelled =
    if cancelled then "decline" else decision_of (first_answer answers)

any_string : String → List Json → Bool
any_string s [] = false
any_string s (str t ∷ vs) = t == s || any_string s vs
any_string s (_ ∷ vs) = any_string s vs

is_empty : List Json → Bool
is_empty [] = true
is_empty (v ∷ vs) = false

unfoldable pub codex_decision_available : Json → String → Bool
unfolding any_string is_empty any_slice
codex_decision_available raw decision =
    is_empty (any_slice raw) || any_string decision (any_slice raw)

-- The decision about a command or a file that the server is told.
unfoldable pub decision_reply : Bool → Fields → List (List String) → Bool → String
unfolding codex_approval_decision codex_decision_available get
decision_reply is_command params answers cancelled =
    let decision = codex_approval_decision answers cancelled in
    if is_command
      && not (codex_decision_available (get params "availableDecisions") decision)
      && decision == "acceptForSession"
    then "accept"
    else decision

-- The permissions that the server is told, and for how long.
unfoldable pub permissions_reply :
    Option Fields → List (List String) → Bool → Option Fields × String
unfolding codex_approval_decision
permissions_reply permissions answers cancelled =
    let decision = codex_approval_decision answers cancelled in
    (
      if decision == "accept" || decision == "acceptForSession" then permissions else some empty,
      if decision == "acceptForSession" then "session" else "turn",
    )

-- An id is an integer, a text or missing.
unfoldable pub rpc_id : Json → String
unfolding show_int
rpc_id (num n) = show_int n
rpc_id (str s) = s
rpc_id _ = "<nil>"

unfoldable pub codex_ask_id : Fields → Json → String
unfolding string_field rpc_id
codex_ask_id params id =
    let named = string_field params ("approvalId" ∷ "itemId" ∷ []) in
    if named == "" then concat "codex-" (rpc_id id) else named

abbrev pub ask_event : String → String → List AskQuestion → Bool → Event
ask_event id source questions free = record (blank EventType.ask_user) {
  ask_id = id;
  questions = questions;
  freeform = free;
  source = source;
}

abbrev pub decision_event : Fields → Json → String → Event
decision_event params id prompt =
    ask_event (codex_ask_id params id) "codex-permission"
      (record { prompt = prompt; options = codex_permission_options; multi_select = false } ∷ [])
      false

unfoldable pub command_approval : Json → Fields → Event
unfolding markdown_field string_field codex_ask_id
command_approval id params = decision_event params id (
    concat "🔐 Codex 请求执行命令" (
      concat (markdown_field "命令" (string_field params ("command" ∷ []))) (
        concat (markdown_field "目录" (string_field params ("cwd" ∷ [])))
          (markdown_field "原因" (string_field params ("reason" ∷ []))))))

unfoldable pub file_approval : Json → Fields → Event
unfolding markdown_field string_field codex_ask_id
file_approval id params = decision_event params id (
    concat "🔐 Codex 请求修改文件" (
      concat (markdown_field "授权目录" (string_field params ("grantRoot" ∷ [])))
        (markdown_field "原因" (string_field params ("reason" ∷ [])))))

file_lines : Option Fields → String
unfolding markdown_list any_strings get
file_lines none = ""
file_lines (some fs) =
    concat (markdown_list "读取" (any_strings (get fs "read")))
      (markdown_list "写入" (any_strings (get fs "write")))

network_line : Option Fields → String
unfolding as_bool get
network_line none = ""
network_line (some network) = if as_bool (get network "enabled") then "\n**网络**: 允许" else ""

unfoldable pub permissions_approval : Json → Fields → Event
unfolding markdown_field string_field map_field file_lines network_line codex_ask_id
permissions_approval id params =
    let permissions = or_empty (map_field params "permissions") in
    decision_event params id (
      concat "🔐 Codex 请求额外权限" (
        concat (markdown_field "目录" (string_field params ("cwd" ∷ []))) (
          concat (markdown_field "原因" (string_field params ("reason" ∷ []))) (
            concat (file_lines (map_field permissions "fileSystem"))
              (network_line (map_field permissions "network"))))))
