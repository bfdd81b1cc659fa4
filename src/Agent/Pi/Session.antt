-- ===== src/Agent/Pi/Session.antt =====
-- internal/agent/pi.go `piSession`: one RPC process, the requests that wait for its answers and the runs
-- that share it. `none` is the panic of a channel that is closed twice. A line is its decoded value,
-- `none` where it is no JSON object.
pub mod Laws
use lark_coding_agent_bridge.Prelude.{
  ℕ, zero, suc, ◌+◌, ◌-◌, ◌*◌, ◌/◌, ◌%◌, ◌≤◌, ◌<◌, String, ◌≡◌, refl, sym, ap, ◌∙◌, subst, ◌≢◌, ◌↔◌,
  ◌⊎◌, inl, inr, Bool, true, false, ◌&&◌, ◌||◌, not, Option, none, some, List, [], ◌∷◌, ◌++◌, map,
  arith, ◌==◌, eq_iff, eq_refl, ltb, leb, eqb, if◌then◌else◌, Bool-cases, either, either2,
  either_test, switch, switch_All2, switch_All, Option-cases, length, get_elem?, set, replicate,
  All, All-append, length-append, length-set, length-replicate, has, without, has-without,
  has-append, has-without_self, Dict, lookup, insert, delete, keep, has_key, keys, lookup-keep,
  DistinctKeys, insert-DistinctKeys, delete-DistinctKeys, lookup-insert, lookup-insert_self,
  lookup-delete, lookup-delete_self, has_key-insert, AllVals, AllVals-insert, AllVals-delete,
  AllVals-keep, AllVals-lookup, ℤ, pos, negsuc, concat, trim_space, runes, take_runes,
  truncate_runes, truncate_runes_bound, cut_at, join, drop_runes, to_lower, starts_with,
}
use lark_coding_agent_bridge.Agent.Json.{
  Json, null, bool, num, frac, dollars, str, arr, obj, Items, stop, item, Fields, empty, entry, get,
  present, as_string, as_bool, as_map, any_slice, any_strings, or_empty, map_field, string_field,
  int_field, count_of, is_positive,
}
use lark_coding_agent_bridge.Agent.Marshal.{marshal, show_nat, show_int}
use lark_coding_agent_bridge.Agent.Event.{
  Event, AskOption, AskQuestion, blank, TerminationReason, EventType,
}
use lark_coding_agent_bridge.Agent.Codex.{
  codex_json, text_event, use_event, result_event, error_message, cut,
}
use lark_coding_agent_bridge.Agent.Runs.{
  Channel, capacity, new_channel, safe_send, send_all, receive, close_channel, Slot, closed_slot,
  close_slot, deliver_one, join_slots, deliver, at, close_registered, read_slot,
}
use lark_coding_agent_bridge.Agent.OpenCode.{done_event, failed_event}
use lark_coding_agent_bridge.Agent.Pi.{translate_pi_event, pi_model_full_id, parse_pi_model_ref}
use lark_coding_agent_bridge.Agent.Pi.Ask.{translate_pi_ui_request}

pub record PiSession : Type 0 where
  pub cwd : String
  pub source : String
  pub label : String
  pub dead : Bool
  pub req_seq : ℕ
  pub pending : List String
  pub runs : List (Slot (Unit {0}))
  pub session_id : String
  pub model_id : String
  pub context_window : ℕ

-- The literal of `spawn`.
abbrev pub new_session : String → String → String → PiSession
new_session cwd source label = record {
  cwd = cwd;
  source = source;
  label = label;
  dead = false;
  req_seq = 0;
  pending = [];
  runs = [];
  session_id = "";
  model_id = "";
  context_window = 0;
}

unfoldable pub agent_label : PiSession → String
agent_label s = if s.label == "" then "Pi" else s.label

-- The id of a command, and the session after it got one.
unfoldable pub request_id : PiSession → String → String × PiSession
unfolding show_nat
request_id s id =
    if id == ""
    then (concat "req-" (show_nat (s.req_seq + 1)), record s { req_seq = s.req_seq + 1 })
    else (id, s)

-- What `send` writes: the command's id, or that the process is gone; a command that is answered waits.
unfoldable pub send : PiSession → String → Bool → Option String × PiSession
unfolding request_id without
send s id want_response =
    let asked = request_id s id in
    let waits = record asked.1 {
      pending = if want_response then asked.0 ∷ asked.1.pending else asked.1.pending;
    } in
    if s.dead
    then (none, record waits { pending = without asked.0 waits.pending })
    else (some asked.0, waits)

pub record PiResponse : Type 0 where
  pub success : Bool
  pub command : String
  pub error : String
  pub values : Option Fields

unfoldable pub pi_response : PiSession → Fields → PiResponse
unfolding as_bool get string_field map_field error_message agent_label
pi_response s raw =
    let success = as_bool (get raw "success") in
    record {
      success = success;
      command = string_field raw ("command" ∷ []);
      error = if success then "" else error_message raw (concat (agent_label s) " command failed");
      values = map_field raw "data";
    }

abbrev is_null : Json → Bool
is_null null = true
is_null _ = false

-- The model that a response's values name.
unfoldable pub response_model : String → Fields → Json
unfolding get
response_model command values =
    let model = get values "model" in
    if is_null model && command == "set_model" then obj values else model

positive : ℤ → ℕ → ℕ
positive (pos zero) old = old
positive (pos (suc n)) old = suc n
positive (negsuc n) old = old

-- What a response tells of the session.
unfoldable pub note_response : PiSession → String → Option Fields → PiSession
unfolding string_field response_model pi_model_full_id as_map int_field positive
note_response s command none = s
note_response s command (some values) =
    let session = string_field values ("sessionId" ∷ []) in
    let model = response_model command values in
    let id = pi_model_full_id model in
    record s {
      session_id = if session == "" then s.session_id else session;
      model_id = if id == "" then s.model_id else id;
      context_window =
          positive (int_field (or_empty (as_map model)) ("contextWindow" ∷ [])) s.context_window;
    }

-- A response: what it tells, and that its request waits no longer.
unfoldable pub on_response : PiSession → Fields → PiSession
unfolding string_field note_response map_field without
on_response s raw =
    let noted = note_response s (string_field raw ("command" ∷ [])) (map_field raw "data") in
    record noted { pending = without (string_field raw ("id" ∷ [])) noted.pending }

is_dialog : String → Bool
is_dialog method =
    switch method (("select", true) ∷ ("confirm", true) ∷ ("input", true) ∷ ("editor", true) ∷ [])
      false

-- The events of a line other than a response.
unfoldable pub line_events : PiSession → Fields → List Event
unfolding string_field is_dialog translate_pi_ui_request translate_pi_event
line_events s raw =
    if string_field raw ("type" ∷ []) == "extension_ui_request"
      && is_dialog (string_field raw ("method" ∷ []))
    then translate_pi_ui_request s.source raw
    else translate_pi_event raw

abbrev pub is_terminal : EventType → Bool
is_terminal EventType.done = true
is_terminal EventType.error = true
is_terminal _ = false

unfoldable pub any_terminal : List Event → Bool
any_terminal [] = false
any_terminal (e ∷ es) = is_terminal e.kind || any_terminal es

abbrev pub with_runs : PiSession → Option (List (Slot (Unit {0}))) → Option PiSession
with_runs s none = none
with_runs s (some runs) = some (record s { runs = runs })

-- Every run in flight gets the events.
unfoldable pub fan_out : PiSession → List Event → Bool → Option PiSession
fan_out s events terminal = with_runs s (deliver (λ u. true) events terminal s.runs)

-- A round of `readLoop`.
unfoldable pub read_line : PiSession → Option Fields → Option PiSession
read_line s none = some s
read_line s (some raw) =
    let events = line_events s raw in
    if string_field raw ("type" ∷ []) == "response"
    then some (on_response s raw)
    else fan_out s events (any_terminal events)

abbrev pub exit_events : String → List Event
exit_events label = failed_event (concat label " 进程意外退出") ∷ []

-- The process has exited: no request waits, and every run fails.
unfoldable pub session_exit : PiSession → Option PiSession
session_exit s = fan_out (record s { dead = true; pending = [] }) (exit_events s.label) true

-- The channel of a new run, with what is known of the session.
unfoldable pub first_channel : PiSession → Channel
first_channel s =
    if s.session_id == "" && s.model_id == ""
    then new_channel
    else safe_send new_channel (record (blank EventType.system) {
      session_id = s.session_id;
      model = s.model_id;
      context_window = s.context_window;
    })

-- `startRun` up to the prompt, behind the questions about state and model.
unfoldable pub begin_run : PiSession → PiSession
begin_run s = record s {
  runs = s.runs ++ (record { info = tt; registered = true; chan = first_channel s } ∷ []);
}

-- `startRun` after a prompt that failed or was refused.
unfoldable pub prompt_failed : PiSession → ℕ → Option PiSession
prompt_failed s n = with_runs s (at close_slot n s.runs)

-- What `ensureModel` asks for: nothing, a model that it cannot name, or a provider's model.
pub data ModelRequest : Type 0 where
  current unnamed : ModelRequest
  change : String → String → ModelRequest

abbrev request_for : Option (String × String) → ModelRequest
request_for none = unnamed
request_for (some (provider, id)) = change provider id

unfoldable pub ensure_model : PiSession → String → ModelRequest
ensure_model s want = if s.model_id == want then current else request_for (parse_pi_model_ref want)

-- A change that the process took.
unfoldable pub model_changed : PiSession → String → PiResponse → PiSession
model_changed s want response =
    let applied = pi_model_full_id (elim response.values [ some m ↦ obj m | none ↦ null ]) in
    record s { model_id = if applied == "" then want else applied }

-- The lines and the exit of the process, and the runs, in any order.
pub data Op : Type 0 where
  line : Option Fields → Op
  begin exit : Op
  failed read : ℕ → Op

abbrev pub perform : PiSession → Op → Option PiSession
perform s (line raw) = read_line s raw
perform s begin = some (begin_run s)
perform s exit = session_exit s
perform s (failed n) = prompt_failed s n
perform s (read n) = with_runs s (at read_slot n s.runs)

unfoldable pub perform_all : PiSession → List Op → Option PiSession
perform_all s [] = some s
perform_all s (op ∷ ops) = elim (perform s op) [ none ↦ none | some next ↦ perform_all next ops ]
