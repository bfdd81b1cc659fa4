-- ===== src/Agent/AppServer/Turn.antt =====
-- internal/agent/codex_appserver.go: a turn while it runs. Notifications and requests of the server, the
-- bridge's answers, the stop and the exit of the process come in any order.
use lark_coding_agent_bridge.Prelude.{
  String, Bool, true, false, ◌&&◌, ◌||◌, not, Option, none, some, List, [], ◌∷◌, ◌++◌, ◌==◌,
  if◌then◌else◌, switch, without, concat,
}
use lark_coding_agent_bridge.Agent.Json.{
  Json, Fields, get, present, as_bool, as_map, any_slice, or_empty, map_field, string_field,
  int_field, count_of,
}
use lark_coding_agent_bridge.Agent.Event.{Event, AskQuestion, blank, TerminationReason, EventType}
use lark_coding_agent_bridge.Agent.OpenCode.{
  done_event, failed_event, option_of, with_header, question_options, other_option, no_options,
}
use lark_coding_agent_bridge.Agent.AppServer.{
  codex_app_tool_use, codex_app_tool_result, command_approval, file_approval, permissions_approval,
  ask_event, rpc_id,
}

-- `codexAppRun`; `events` are those that went to the channel, which the bridge keeps reading, and
-- `refused` the ids of the requests that the bridge does not support.
pub record AppRun : Type 0 where
  pub thread_id : String
  pub turn_id : String
  pub model : String
  pub stopped : Bool
  pub finished : Bool
  pub pending : List String
  pub events : List Event
  pub refused : List String
  pub channel_closed : Bool

unfoldable pub emit : AppRun → Event → AppRun
emit r e = if r.channel_closed then r else record r { events = r.events ++ (e ∷ []) }

-- `finish`: the first closing event of the turn, unless it has ended.
unfoldable pub finish : AppRun → Event → AppRun
finish r e = if r.finished then r else emit (record r { finished = true }) e

abbrev pub emit_some : AppRun → Option Event → AppRun
emit_some r none = r
emit_some r (some e) = emit r e

unfoldable pub emit_text : AppRun → EventType → String → AppRun
emit_text r kind delta = if delta == "" then r else emit r (record (blank kind) { delta = delta })

unfoldable pub item_completed : AppRun → Fields → AppRun
item_completed r it =
    let shown = emit_some r (codex_app_tool_result it) in
    let text = string_field it ("text" ∷ []) in
    if string_field it ("type" ∷ []) == "agentMessage" && not (text == "")
    then emit shown (record (blank EventType.final_text) { content = text })
    else shown

unfoldable pub token_usage : AppRun → Option Fields → AppRun
token_usage r none = r
token_usage r (some last) = emit r (record (blank EventType.usage) {
  input_tokens = count_of (int_field last ("inputTokens" ∷ []));
  output_tokens = count_of (int_field last ("outputTokens" ∷ []));
  cached_input_tokens = count_of (int_field last ("cachedInputTokens" ∷ []));
  reasoning_output_tokens = count_of (int_field last ("reasoningOutputTokens" ∷ []));
})

abbrev pub failure_message : Option Fields → String
failure_message none = "Codex turn failed"
failure_message (some e) = string_field e ("message" ∷ [])

-- The closing event of a completed turn.
unfoldable pub turn_closing : AppRun → Fields → Event
turn_closing r turn =
    let status = string_field turn ("status" ∷ []) in
    if status == "failed"
    then failed_event (failure_message (map_field turn "error"))
    else if status == "interrupted"
    then record (done_event TerminationReason.interrupted) { thread_id = r.thread_id }
    else record (done_event TerminationReason.normal) { thread_id = r.thread_id; model = r.model }

unfoldable pub server_error : AppRun → Fields → AppRun
server_error r params =
    let message = string_field (or_empty (map_field params "error")) ("message" ∷ []) in
    let shown = if message == "" then "Codex app-server error" else message in
    if as_bool (get params "willRetry") then r else finish r (failed_event shown)

abbrev pub notification_cases : AppRun → Fields → List (String × AppRun)
notification_cases r params =
    let delta = string_field params ("delta" ∷ []) in
    let it = or_empty (map_field params "item") in
    let usage = or_empty (map_field params "tokenUsage") in
    ("item/agentMessage/delta", emit_text r EventType.text delta)
    ∷ ("item/reasoning/summaryTextDelta", emit_text r EventType.thinking delta)
    ∷ ("item/reasoning/textDelta", emit_text r EventType.thinking delta)
    ∷ ("item/started", emit_some r (codex_app_tool_use it))
    ∷ ("item/completed", item_completed r it)
    ∷ ("thread/tokenUsage/updated", token_usage r (map_field usage "last"))
    ∷ ("turn/completed", finish r (turn_closing r (or_empty (map_field params "turn"))))
    ∷ ("error", server_error r params)
    ∷ []

unfoldable pub handle_notification : AppRun → String → Fields → AppRun
handle_notification r method params = switch method (notification_cases r params) r

-- One question of the server's, with its id and whether it has no options; `none` where it cannot be
-- shown.
abbrev pub UserQuestion : Type 0
UserQuestion = String × AskQuestion × Bool

unfoldable pub user_question : Fields → Option UserQuestion
unfolding string_field get any_slice as_bool question_options no_options
user_question q =
    let id = string_field q ("id" ∷ []) in
    let prompt = with_header (string_field q ("header" ∷ [])) (string_field q ("question" ∷ [])) in
    let shown = question_options prompt (any_slice (get q "options")) in
    let secret = as_bool (get q "isSecret") in
    let text = if secret then concat shown.0 "\n\n为避免泄露敏感信息，此问题不能通过飞书文字作答。" else shown.0 in
    let offered = if secret then option_of "拒绝在聊天中提供敏感信息" ∷ [] else shown.1 in
    if id == "" || text == ""
    then none
    else some (
      id,
      record {
        prompt = text;
        options = if no_options offered then other_option else offered;
        multi_select = false;
      },
      no_options offered,
    )

-- A question that stands alone and may be answered otherwise, unless the answer is secret.
single_other : List Json → Bool
unfolding as_bool get as_map
single_other (v ∷ []) =
    let q = or_empty (as_map v) in as_bool (get q "isOther") && not (as_bool (get q "isSecret"))
single_other _ = false

abbrev add_question : Option UserQuestion → List UserQuestion → List UserQuestion
add_question none qs = qs
add_question (some q) qs = q ∷ qs

unfoldable pub user_questions : List Json → List UserQuestion
unfolding user_question as_map
user_questions [] = []
user_questions (v ∷ vs) = add_question (user_question (or_empty (as_map v))) (user_questions vs)

any_free : List UserQuestion → Bool
any_free [] = false
any_free (q ∷ qs) = q.2 || any_free qs

questions_of : List UserQuestion → List AskQuestion
questions_of [] = []
questions_of (q ∷ qs) = q.1 ∷ questions_of qs

unfoldable pub user_input_event : Fields → Event
unfolding user_questions any_free single_other questions_of any_slice get string_field
user_input_event params =
    let raw = any_slice (get params "questions") in
    let asked = user_questions raw in
    ask_event (string_field params ("itemId" ∷ [])) "codex" (questions_of asked)
      (any_free asked || single_other raw)

-- The answers by the ids of the questions; an answer that is missing is empty, and so is every answer to
-- a question that was called off.
unfoldable pub user_answers : List String → List (List String) → Bool → List (String × List String)
user_answers [] answers cancelled = []
user_answers (id ∷ ids) [] cancelled = (id, []) ∷ user_answers ids [] cancelled
user_answers (id ∷ ids) (a ∷ answers) cancelled =
    (id, (if cancelled then [] else a)) ∷ user_answers ids answers cancelled

unfoldable pub refuse : AppRun → Json → AppRun
refuse r id = record r { refused = r.refused ++ (rpc_id id ∷ []) }

abbrev pub request_cases : AppRun → Json → Fields → List (String × AppRun)
request_cases r id params =
    ("item/tool/requestUserInput", emit r (user_input_event params))
    ∷ ("item/commandExecution/requestApproval", emit r (command_approval id params))
    ∷ ("item/fileChange/requestApproval", emit r (file_approval id params))
    ∷ ("item/permissions/requestApproval", emit r (permissions_approval id params))
    ∷ []

unfoldable pub handle_server_request : AppRun → String → Json → Fields → AppRun
handle_server_request r method id params = switch method (request_cases r id params) (refuse r id)

-- A response: its request waits no longer.
unfoldable pub handle_response : AppRun → Json → AppRun
handle_response r id = record r { pending = without (rpc_id id) r.pending }

-- A round of `readLoop`.
unfoldable pub read_message : AppRun → Option Fields → AppRun
read_message r none = r
read_message r (some raw) =
    let method = string_field raw ("method" ∷ []) in
    let params = or_empty (map_field raw "params") in
    if not (method == "") && present raw "id"
    then handle_server_request r method (get raw "id") params
    else if not (method == "")
    then handle_notification r method params
    else if present raw "id"
    then handle_response r (get raw "id")
    else r

-- `reply`: whether an answer is written.
abbrev pub can_reply : AppRun → Bool
can_reply r = not r.finished

-- `Stop` up to the interrupt, and whether it asks for one.
unfoldable pub request_stop : AppRun → Bool × AppRun
request_stop r =
    (not r.stopped && not (r.thread_id == "" || r.turn_id == ""), record r { stopped = true })

-- `waitLoop`: the process has exited, with the message about it where it failed.
unfoldable pub wait_exit : AppRun → Option String → AppRun
wait_exit r none = record r { finished = true; pending = []; channel_closed = true }
wait_exit r (some message) =
    let over = record r { finished = true; pending = [] } in
    record (if r.finished || r.stopped then over else emit over (failed_event message)) {
      channel_closed = true;
    }

-- What comes from outside: a line of the server, a stop, or the end of the process.
pub data Op : Type 0 where
  message : Option Fields → Op
  stopping : Op
  exited : Option String → Op

abbrev pub perform : AppRun → Op → AppRun
perform r (message raw) = read_message r raw
perform r stopping = (request_stop r).1
perform r (exited failure) = wait_exit r failure

unfoldable pub perform_all : AppRun → List Op → AppRun
perform_all r [] = r
perform_all r (op ∷ ops) = perform_all (perform r op) ops
