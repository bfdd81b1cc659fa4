-- ===== src/Tests/Desks.antt =====
-- Runs, cards, bindings and model cards of a bridge.
use lark_coding_agent_bridge.Agent.Event.{Event, EventType, blank}
use lark_coding_agent_bridge.Bridge.Desk.Finish.{
  new_session, note_all, note_event, finish_run, last_id, has_ids, run_saved, reset_undone,
}
use lark_coding_agent_bridge.Bridge.Desk.{
  reset_session, Desk, Disk, ModelPicker, ModelInfo, stop_run, stop_run_by_card_message, enter_card,
  rotate_run_card, leave_run, resolve_scope_route,
}
use lark_coding_agent_bridge.Bridge.Desk.Picker.{handle_model_select}
use lark_coding_agent_bridge.Bridge.Desk.Binding.{handle_bind}
use lark_coding_agent_bridge.Prelude.{
  refl, List, String, ◌≡◌, ◌≢◌, true, false, none, some, [], ◌∷◌, arith, ◌==◌, eq_iff,
  if◌then◌else◌, lookup, has_key, DistinctKeys,
}
use lark_coding_agent_bridge.Ask.Broker.{new_broker}
use lark_coding_agent_bridge.Bridge.Message.{Message, scope_belongs_to_chat}
use lark_coding_agent_bridge.Store.Sessions.{get_session, no_session, Session}
use lark_coding_agent_bridge.Bridge.Desk.Stop.{cards_stop_their_scope}
use lark_coding_agent_bridge.Bridge.Desk.Model.{session_at, Usable, select_switches}
use lark_coding_agent_bridge.Bridge.Desk.Bind.{Verdict, bind_moves}

abbrev big : ModelInfo
big = record { id = "m2"; display_name = "Big"; description = ""; is_default = false }

abbrev picker : ModelPicker
picker = record { scope = "oc_1:om_1"; models = ("m2", big) ∷ []; expires_at = 900 }

abbrev desk : Desk
desk = record {
  runs = ("oc_1:om_1", 7) ∷ [];
  stopped = [];
  reset = [];
  card_scopes = [];
  active_cards = [];
  asks = new_broker;
  sessions = record { sessions = []; dirty = false; file = [] };
  bindings = record {
    by_session =
        (
          "claude:s1",
          record { scope = "oc_2"; chat_id = "oc_2"; chat_type = "group"; bound_at = 3 },
        )
        ∷ [];
    dirty = false;
    file = [];
  };
  model_pickers = ("n1", picker) ∷ [];
  scope_routes = [];
}

abbrev disk : Disk
disk = record { sessions_written = true; bindings_written = true }

abbrev message : Message
message = record {
  message_id = "om_1";
  chat_id = "oc_1";
  chat_type = "p2p";
  thread_id = "";
  root_id = "";
  parent_id = "";
  sender_id = "ou_own";
  sender_type = "user";
  content = "/bind 1";
  raw_type = "text";
  mentions = [];
  mention_all = false;
  mentioned_bot = false;
  resources = [];
}

no_asks : DistinctKeys desk.asks.pending
unfolding new_broker
no_asks = tt

abbrev first_card : String
first_card = "om_10"

abbrev second_card : String
second_card = "om_11"

abbrev other_card : String
other_card = "om_12"

named_card : second_card ≢ ""
named_card = ground (arith, eq_iff second_card "")

cards_differ : (first_card ≢ second_card) × (other_card ≢ second_card) × (other_card ≢ first_card)
cards_differ = ground (
  arith,
  eq_iff first_card second_card,
  eq_iff other_card second_card,
  eq_iff other_card first_card,
)

cards_stop_their_scope_example :
    let d1 = enter_card "oc_1:om_1" "oc_1" "om_10" "c1" desk in
    let d2 = rotate_run_card "oc_1:om_1" "oc_1" "om_10" "om_11" "c2" true d1 in
    let d3 = leave_run "oc_1:om_1" "om_11" d2 in
    (stop_run_by_card_message "om_10" d1 ≡ stop_run "oc_1:om_1" d1)
    × (stop_run_by_card_message "om_11" d2 ≡ stop_run "oc_1:om_1" d2)
    × (stop_run_by_card_message "om_10" d2 ≡ (d2, false))
    × (lookup "om_12" d3.card_scopes ≡ lookup "om_12" desk.card_scopes)
    × (stop_run_by_card_message "om_11" d3 ≡ (d3, false))
    × (stop_run_by_card_message "om_10" d3 ≡ (d3, false))
    × (resolve_scope_route "oc_1:om_1" d3 ≡ none)
    × (stop_run "oc_1:om_1" d3 ≡ (d3, false))
cards_stop_their_scope_example =
    cards_stop_their_scope "oc_1:om_1" "oc_1" first_card second_card other_card "c1" "c2" true desk
      named_card cards_differ.0 cards_differ.1 cards_differ.2

bind_moves_example :
    Verdict 20 "claude" disk message "s1" "/work" true desk
      (handle_bind 20 "claude" disk true message "s1" "/work" desk)
bind_moves_example = bind_moves 20 "claude" disk message "s1" "/work" true desk

one_binding : DistinctKeys desk.bindings.by_session
unfolding has_key lookup
one_binding = (refl, tt)

abbrev nonce : String
nonce = "n1"

abbrev model_id : String
model_id = "m2"

usable : Usable 5 "oc_1" nonce model_id picker big desk
unfolding lookup scope_belongs_to_chat
usable = (
  ground (arith, eq_iff nonce ""),
  ground (arith, eq_iff model_id ""),
  refl,
  omega arith,
  refl,
  refl,
)

select_switches_example :
    let d' = (handle_model_select 5 disk "oc_1" "n1" "m2" desk).0 in
    (session_at "oc_1:om_1" d' ≡ (
      if picker.scope == "oc_1:om_1"
      then record (session_at "oc_1:om_1" desk) { model = "m2"; updated_at = 5 }
      else session_at "oc_1:om_1" desk))
    × (lookup "n1" d'.model_pickers ≡ none)
select_switches_example = select_switches 5 disk "oc_1" "n1" "m2" "oc_1:om_1" picker big desk usable

abbrev run_events : List Event
run_events =
    record (blank EventType.system) { session_id = "s7"; model = "m1" }
    ∷ record (blank EventType.text) { delta = "Hello." }
    ∷ blank EventType.done
    ∷ []

abbrev ran : Session
ran = note_all run_events (new_session "/work" no_session)

run_saved_example :
    let d' = finish_run 30 "claude" disk "oc_1:om_1" "oc_1" "p2p" no_session ran desk in
    (ran.session_id ≡ last_id "" run_events)
    × (("oc_1:om_1" == "oc_9") ≡ false
        → get_session "oc_9" d'.sessions ≡ get_session "oc_9" desk.sessions)
    × (has_ids ran ≡ false → get_session "oc_9" d'.sessions ≡ get_session "oc_9" desk.sessions)
    × (has_ids ran ≡ true
        → get_session "oc_1:om_1" desk.sessions ≡ none
        → get_session "oc_1:om_1" d'.sessions ≡ some (record ran { updated_at = 30 }))
    × ((latest : Session)
        → has_ids ran ≡ true
        → get_session "oc_1:om_1" desk.sessions ≡ some latest
        → latest.model ≡ no_session.model
        → get_session "oc_1:om_1" d'.sessions ≡ some (record ran { updated_at = 30 }))
    × ((latest : Session)
        → has_ids ran ≡ true
        → get_session "oc_1:om_1" desk.sessions ≡ some latest
        → latest.model ≢ no_session.model
        → get_session "oc_1:om_1" d'.sessions
          ≡ some (record ran { model = latest.model; updated_at = 30 }))
run_saved_example =
    run_saved 30 "claude" disk "oc_1:om_1" "oc_1" "p2p" "oc_9" "/work" no_session run_events desk

ran-has_ids : has_ids ran ≡ true
unfolding note_all note_event
ran-has_ids = refl

reset_undone_example :
    let reset = reset_session disk "oc_1:om_1" (stop_run "oc_1:om_1" desk).0 in
    (get_session "oc_1:om_1" reset.sessions ≡ none)
    × (get_session "oc_1:om_1"
          (finish_run 30 "claude" disk "oc_1:om_1" "oc_1" "p2p" no_session ran reset).sessions
        ≡ some (record ran { updated_at = 30 }))
reset_undone_example =
    reset_undone 30 "claude" disk "oc_1:om_1" "oc_1" "p2p" no_session ran desk ran-has_ids
