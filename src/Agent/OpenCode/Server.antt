-- ===== src/Agent/OpenCode/Server.antt =====
-- internal/agent/opencode.go `ocServer`: the runs of the sessions, the events that the bus sends them and
-- the polls behind it. A run is known by its place in the list of all runs. `none` is the panic of a
-- channel that is closed twice. Whether the server takes the reply to a permission is a parameter.
pub mod Laws
use lark_coding_agent_bridge.Prelude.{
  ℕ, zero, suc, ◌+◌, ◌-◌, ◌*◌, ◌/◌, ◌%◌, ◌≤◌, ◌<◌, String, ◌≡◌, refl, sym, ap, ◌∙◌, subst, ◌≢◌, ◌↔◌,
  ◌⊎◌, inl, inr, Bool, true, false, ◌&&◌, ◌||◌, not, Option, none, some, List, [], ◌∷◌, ◌++◌, map,
  arith, ◌==◌, eq_iff, eq_refl, ltb, leb, eqb, if◌then◌else◌, Bool-cases, either, either2,
  either_test, switch, switch_All2, switch_All, Option-cases, length, get_elem?, set, replicate,
  All, All-append, length-append, length-set, length-replicate, has, without, has-without,
  has-append, has-without_self, Dict, lookup, insert, delete, keep, has_key, keys, lookup-keep,
  DistinctKeys, insert-DistinctKeys, delete-DistinctKeys, lookup-insert, lookup-insert_self,
  lookup-delete, lookup-delete_self, has_key-insert, AllVals, AllVals-insert, AllVals-delete,
  AllVals-keep, AllVals-lookup, ℤ, pos, negsuc, concat, trim_space, runes, take_runes,
  truncate_runes, truncate_runes_bound, cut_at, join, drop_runes, to_lower, starts_with,
}
use lark_coding_agent_bridge.Agent.Json.{
  Json, null, bool, num, str, arr, obj, Items, stop, item, Fields, empty, entry, get, present,
  as_string, as_bool, as_map, any_slice, any_strings, or_empty, map_field, string_field, int_field,
  count_of, is_positive,
}
use lark_coding_agent_bridge.Agent.Marshal.{marshal, show_nat, show_int}
use lark_coding_agent_bridge.Agent.Event.{
  Event, AskOption, AskQuestion, blank, TerminationReason, EventType,
}
use lark_coding_agent_bridge.Agent.Codex.{
  codex_json, text_event, use_event, result_event, error_message, cut,
}
use lark_coding_agent_bridge.Agent.Runs.{
  Channel, capacity, new_channel, safe_send, send_all, receive, close_channel, Slot, closed_slot,
  close_slot, deliver_one, join_slots, deliver, at, close_registered, read_slot,
}
use lark_coding_agent_bridge.Agent.OpenCode.{
  Bus, oc_translate, failed_event, oc_auto_allow_permission,
}
use lark_coding_agent_bridge.Agent.OpenCode.Poll.{MessageEntry, last_assistant, reconcile_poll}

pub record OcRun : Type 0 where
  pub session : String
  pub directory : String
  pub access : String

pub record Server : Type 0 where
  pub runs : List (Slot OcRun)
  pub part_kinds : Dict String
  -- The text that a session's messages were delivered, by session and message.
  pub delivered : Dict (Dict String)
  pub event_loops : List String
  pub stopping : Bool

-- `startOCServer`.
abbrev pub new_server : Server
new_server = record {
  runs = [];
  part_kinds = [];
  delivered = [];
  event_loops = [];
  stopping = false;
}

abbrev pub of_session : String → OcRun → Bool
of_session session r = r.session == session

-- `registerRun`: the run's channel is new, and its directory has one event loop.
unfoldable pub register_run : Server → OcRun → Server
register_run s r = record s {
  runs = s.runs ++ (record { info = r; registered = true; chan = new_channel } ∷ []);
  event_loops =
      if has r.directory s.event_loops then s.event_loops else r.directory ∷ s.event_loops;
}

-- Whether a registered run of the session is on full access.
unfoldable pub auto_allows : String → List (Slot OcRun) → Bool
auto_allows session [] = false
auto_allows session (r ∷ rs) =
    (r.registered && of_session session r.info && oc_auto_allow_permission r.info.access)
    || auto_allows session rs

abbrev is_ask : EventType → Bool
is_ask EventType.ask_user = true
is_ask _ = false

-- A question about a permission, which full access answers.
abbrev pub is_gate : Event → Bool
is_gate e = is_ask e.kind && e.source == "opencode-permission" && not (e.ask_id == "")

-- The events that are left, and the permissions that were allowed. A reply that fails leaves the event.
unfoldable pub allow_each : (String → Bool) → List Event → List Event × List String
allow_each took [] = ([], [])
allow_each took (e ∷ es) =
    let rest = allow_each took es in
    if is_gate e && took e.ask_id then (rest.0, e.ask_id ∷ rest.1) else (e ∷ rest.0, rest.1)

unfoldable pub auto_allow_permissions :
    (String → Bool) → Server → String → List Event → List Event × List String
auto_allow_permissions took s session events =
    if auto_allows session s.runs then allow_each took events else (events, [])

abbrev count_text : EventType → ℕ → ℕ
count_text EventType.text n = suc n
count_text _ n = n

text_events : List Event → ℕ
text_events [] = 0
text_events (e ∷ es) = count_text e.kind (text_events es)

abbrev pub text_at : String → Dict String → String
text_at key m = elim (lookup key m) [ some s ↦ s | none ↦ "" ]

abbrev pub texts_of : String → Dict (Dict String) → Dict String
texts_of key m = elim (lookup key m) [ some d ↦ d | none ↦ [] ]

-- The delta joins the text delivered so far, once for every text event.
record_delta : String → String → String → ℕ → Dict (Dict String) → Dict (Dict String)
record_delta session message delta zero d = d
record_delta session message delta (suc n) d =
    let texts = texts_of session d in
    record_delta session message delta n
      (insert session (insert message (concat (text_at message texts) delta) texts) d)

unfoldable pub record_delivered :
    String → String → Fields → List Event → Dict (Dict String) → Dict (Dict String)
unfolding text_events record_delta string_field
record_delivered kind session props events d =
    let message = string_field props ("messageID" ∷ []) in
    let delta = string_field props ("delta" ∷ []) in
    if kind == "message.part.delta" && not (message == "" || delta == "")
    then record_delta session message delta (text_events events) d
    else d

abbrev pub is_nil : List Event → Bool
is_nil [] = true
is_nil (e ∷ es) = false

abbrev pub with_runs : Server → Option (List (Slot OcRun)) → Option Server
with_runs s none = none
with_runs s (some runs) = some (record s { runs = runs })

-- The events that are left go to the session's runs.
unfoldable pub fan_out : Server → String → String → Fields → List Event → Bool → Option Server
fan_out s kind session props events terminal =
    let noted = record s { delivered = record_delivered kind session props events s.delivered } in
    if is_nil events && not terminal
    then some s
    else with_runs noted (deliver (of_session session) events terminal s.runs)

-- `dispatch`, with the permissions that it allowed.
unfoldable pub dispatch : (String → Bool) → Server → String → Fields → Option Server × List String
dispatch took s kind props =
    let session = string_field props ("sessionID" ∷ []) in
    let (events, terminal, kinds) = oc_translate s.part_kinds kind props in
    let seen = record s { part_kinds = kinds } in
    let kept = auto_allow_permissions took seen session events in
    if session == ""
    then (some s, [])
    else (fan_out seen kind session props kept.0 terminal, kept.1)

-- `closeRun`, after a prompt that the server refused.
unfoldable pub close_run : Server → ℕ → Option Server
close_run s n = with_runs s (at close_registered n s.runs)

-- The process has exited.
unfoldable pub server_exit : Server → Option Server
server_exit s =
    with_runs s (deliver (λ r. true) (failed_event "opencode serve 进程意外退出" ∷ []) true s.runs)

-- What `pollRun` does to a registered run at a tick, with the messages that the server lists.
unfoldable pub poll_slot : Dict (Dict String) → List MessageEntry → Slot OcRun → Option (Slot OcRun)
poll_slot d messages r = elim (last_assistant messages) [
  | none ↦ some r
  | some last ↦
      let found = reconcile_poll (text_at last.id (texts_of r.info.session d)) last in
      if found.1 then deliver_one found.0 true r else some r
]

unfoldable pub poll_run : Server → ℕ → List MessageEntry → Option Server
poll_run s n messages = with_runs s (at (poll_slot s.delivered messages) n s.runs)

-- The bridge reads an event of a run.
unfoldable pub read_run : Server → ℕ → Option Server
read_run s n = with_runs s (at read_slot n s.runs)

-- The adapter's call of `Run`, the bus, a refused prompt, a poll, the exit and the bridge's reading, in
-- any order.
pub data Op : Type 0 where
  register : OcRun → Op
  bus : String → Fields → Op
  refuse poll_read : ℕ → Op
  poll : ℕ → List MessageEntry → Op
  exit : Op

abbrev pub perform : (String → Bool) → Server → Op → Option Server
perform took s (register r) = some (register_run s r)
perform took s (bus kind props) = (dispatch took s kind props).0
perform took s (refuse n) = close_run s n
perform took s (poll_read n) = read_run s n
perform took s (poll n messages) = poll_run s n messages
perform took s exit = server_exit s

unfoldable pub perform_all : (String → Bool) → Server → List Op → Option Server
perform_all took s [] = some s
perform_all took s (op ∷ ops) = elim (perform took s op) [
  | none ↦ none
  | some next ↦ perform_all took next ops
]
