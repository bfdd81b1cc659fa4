-- ===== src/Agent/AppServer/Start.antt =====
-- internal/agent/codex_appserver.go `initialize`: how a run gets its thread and its turn. What the server
-- answers to a request is a parameter, by the request's method; `none` is an error.
use Prim.Native.Char.{code}
use lark_coding_agent_bridge.Prelude.{
  String, Bool, true, false, ◌&&◌, ◌||◌, not, Option, none, some, List, [], ◌∷◌, ◌++◌, ◌==◌, eqb,
  if◌then◌else◌, set, to_lower,
}
use lark_coding_agent_bridge.Agent.Json.{
  Json, Fields, get, as_map, any_slice, or_empty, map_field, string_field,
}

-- Why no turn is started, and what was started otherwise.
pub data Start : Type 0 where
  no_connection no_thread no_thread_id : Start
  -- The thread runs elsewhere; the server names no turn to steer; the session file shows a turn that the
  -- server does not see.
  busy no_turn_id busy_on_disk : Start
  not_steered bad_mode not_started : Start
  steered started : String → Start

pub record Options : Type 0 where
  pub thread_id : String
  pub shared : Bool
  pub disk_active : Bool
  pub mode : String
  pub model : String

-- The requests that were made, and the outcome, with the model of the thread.
pub record Startup : Type 0 where
  pub requests : List String
  pub outcome : Start
  pub thread_id : String
  pub model : String

unfoldable pub codex_thread_status : Fields → String
unfolding map_field string_field to_lower
codex_thread_status thread =
    to_lower (string_field (or_empty (map_field thread "status")) ("type" ∷ []))

-- A text without underscores and dashes.
unfoldable pub squeeze : String → String
squeeze String.[] = String.[]
squeeze (String.◌∷◌ c s) =
    let rest = squeeze s in
    if eqb (code c) b'_' || eqb (code c) b'-' then rest else String.◌∷◌ c rest

-- The id of the last turn in progress.
abbrev or_turn : Option String → Fields → Option String
or_turn (some id) turn = some id
or_turn none turn =
    if squeeze (to_lower (string_field turn ("status" ∷ []))) == "inprogress"
    then some (string_field turn ("id" ∷ []))
    else none

unfoldable pub last_turn : List Json → Option String
unfolding squeeze to_lower string_field as_map
last_turn [] = none
last_turn (v ∷ vs) = or_turn (last_turn vs) (or_empty (as_map v))

abbrev pub text_of : Option String → String
text_of none = ""
text_of (some s) = s

unfoldable pub codex_active_turn_id : Fields → String
unfolding last_turn any_slice get
codex_active_turn_id thread = text_of (last_turn (any_slice (get thread "turns")))

-- Whether the collaboration mode is set; `none` where it cannot be.
unfoldable pub find_preset : String → String → List Json → Option Bool
unfolding string_field as_map
find_preset mode model [] = none
find_preset mode model (v ∷ vs) =
    let rest = find_preset mode model vs in
    let preset = or_empty (as_map v) in
    let named = string_field preset ("model" ∷ []) in
    if string_field preset ("mode" ∷ []) == mode
    then (if named == "" && model == "" then none else some true)
    else rest

abbrev presets : String → String → Option Fields → Option Bool
presets mode model none = none
presets mode model (some resp) = find_preset mode model (any_slice (get resp "data"))

unfoldable pub resolve_collaboration_mode : String → String → Option Fields → Option Bool
unfolding find_preset any_slice get
resolve_collaboration_mode mode model listed =
    if mode == "" || mode == "default"
    then some false
    else if mode == "plan"
    then presets mode model listed
    else none

module _ (answer : String → Option Fields) (o : Options) where
  abbrev pub open_method : String
  open_method = if o.thread_id == "" then "thread/start" else "thread/resume"

  -- The turn that the run would steer.
  unfoldable pub turn_to_steer : Fields → String
  unfolding codex_active_turn_id map_field
  turn_to_steer thread =
      let here = codex_active_turn_id thread in
      let read = or_empty (map_field (or_empty (answer "thread/read")) "thread") in
      if here == "" then codex_active_turn_id read else here

  abbrev pub steer_requests : Fields → List String
  steer_requests thread = if codex_active_turn_id thread == "" then "thread/read" ∷ [] else []

  unfoldable pub steer_outcome : String → Option Fields → Start
  unfolding string_field
  steer_outcome turn none = not_steered
  steer_outcome turn (some resp) =
      let id = string_field resp ("turnId" ∷ []) in steered (if id == "" then turn else id)

  unfoldable pub start_outcome : Option Fields → Start
  unfolding string_field map_field
  start_outcome none = not_started
  start_outcome (some resp) = started (string_field (or_empty (map_field resp "turn")) ("id" ∷ []))

  unfoldable pub mode_requests : List String
  mode_requests = if o.mode == "plan" then "collaborationMode/list" ∷ [] else []

  abbrev pub start_turn : Option Bool → List String × Start
  start_turn none = (mode_requests, bad_mode)
  start_turn (some set) =
      (mode_requests ++ ("turn/start" ∷ []), start_outcome (answer "turn/start"))

  -- The requests and the outcome on an open thread.
  unfoldable pub take_turn : Fields → String → List String × Start
  unfolding steer_outcome start_outcome mode_requests resolve_collaboration_mode
  take_turn thread model =
      let turn = turn_to_steer thread in
      let mode = resolve_collaboration_mode o.mode model (answer "collaborationMode/list") in
      if codex_thread_status thread == "active"
      then (if not o.shared
          then ([], busy)
          else if turn == ""
          then (steer_requests thread, no_turn_id)
          else (
            steer_requests thread ++ ("turn/steer" ∷ []),
            steer_outcome turn (answer "turn/steer"),
          ))
      else if o.disk_active
      then ([], busy_on_disk)
      else start_turn mode

  abbrev pub or_other : String → String → String
  or_other s other = if s == "" then other else s

  -- The thread is open.
  abbrev pub on_thread : Fields → Startup
  on_thread resp =
      let thread = or_empty (map_field resp "thread") in
      let id = or_other (string_field thread ("id" ∷ [])) o.thread_id in
      let model = or_other (string_field resp ("model" ∷ [])) o.model in
      let taken = take_turn thread model in
      if id == ""
      then record {
        requests = "initialize" ∷ open_method ∷ [];
        outcome = no_thread_id;
        thread_id = "";
        model = o.model;
      }
      else record {
        requests = "initialize" ∷ open_method ∷ taken.0;
        outcome = taken.1;
        thread_id = id;
        model = model;
      }

  abbrev failed_start : List String → Start → Startup
  failed_start requests outcome = record {
    requests = requests;
    outcome = outcome;
    thread_id = "";
    model = o.model;
  }

  abbrev pub open_thread : Option Fields → Startup
  open_thread none = failed_start ("initialize" ∷ open_method ∷ []) no_thread
  open_thread (some resp) = on_thread resp

  abbrev pub connect : Option Fields → Startup
  connect none = failed_start ("initialize" ∷ []) no_connection
  connect (some resp) = open_thread (answer open_method)

  unfoldable pub initialize : Startup
  initialize = connect (answer "initialize")
