-- ===== src/Bridge/Desk.antt =====
-- internal/bridge/bridge.go, bind.go, model.go, ask.go and run_card.go: the running agents by scope,
-- the cards that stop them, the sessions and bindings that commands move, and one-time model cards. A
-- bridge without a broker is one whose broker has no ask; a run is known by its number.
pub mod Picker
pub mod Binding
pub mod Model
pub mod Finish
pub mod Stop
pub mod Bind
pub mod Unbind
use lark_coding_agent_bridge.Prelude.{
  ℕ, ◌+◌, String, Bool, true, false, ◌||◌, not, Option, none, some, List, [], ◌∷◌, ◌==◌, ltb,
  if◌then◌else◌, Dict, lookup, insert, delete, keep,
}
use lark_coding_agent_bridge.Ask.Types.{Route}
use lark_coding_agent_bridge.Ask.Broker.{Broker}
use lark_coding_agent_bridge.Ask.Click.{invalidate_scope}
use lark_coding_agent_bridge.Bridge.Message.{Message, scope, scope_belongs_to_chat}
use lark_coding_agent_bridge.Store.Sessions.{
  Session, no_session, SessionStore, set_session, delete_session, flush_sessions, session_or_blank,
}
use lark_coding_agent_bridge.Store.Bindings.{
  BindingStore, session_key, get_binding, set_binding, set_if_absent, delete_binding,
  delete_by_scope, flush_bindings,
}

-- `agent.ModelInfo`.
pub record ModelInfo : Type 0 where
  pub id : String
  pub display_name : String
  pub description : String
  pub is_default : Bool

pub record ModelPicker : Type 0 where
  pub scope : String
  pub models : Dict ModelInfo
  pub expires_at : ℕ

pub record ActiveCard : Type 0 where
  pub chat_id : String
  pub card_id : String

-- `stopped` lists the runs that were told to stop and `reset` the scopes whose agent process was
-- reset, both newest first.
pub record Desk : Type 0 where
  pub runs : Dict ℕ
  pub stopped : List ℕ
  pub reset : List String
  pub card_scopes : Dict String
  pub active_cards : Dict ActiveCard
  pub asks : Broker
  pub sessions : SessionStore
  pub bindings : BindingStore
  pub model_pickers : Dict ModelPicker
  pub scope_routes : Dict Route

-- Which of the two files can be written just now.
pub record Disk : Type 0 where
  pub sessions_written : Bool
  pub bindings_written : Bool

unfoldable pub set_scope_route : String → String → String → Bool → Desk → Desk
set_scope_route sc chat_id reply_to in_thread d = record d {
  scope_routes =
      insert sc
        (record { chat_id = chat_id; reply_to = reply_to; in_thread = in_thread; scope = sc })
        d.scope_routes;
}

unfoldable pub clear_scope_route : String → Desk → Desk
clear_scope_route sc d = record d { scope_routes = delete sc d.scope_routes }

unfoldable pub resolve_scope_route : String → Desk → Option Route
resolve_scope_route sc d = lookup sc d.scope_routes

unfoldable pub stop_run : String → Desk → Desk × Bool
stop_run sc d = elim (lookup sc d.runs) [
  | none ↦ (d, false)
  | some n ↦ (
    record d {
      runs = delete sc d.runs;
      asks = invalidate_scope sc "run stopped" d.asks;
      stopped = n ∷ d.stopped;
    },
    true,
  )
]

unfoldable pub stop_run_by_card_message : String → Desk → Desk × Bool
stop_run_by_card_message message_id d = elim (lookup message_id d.card_scopes) [
  | none ↦ (d, false)
  | some sc ↦ stop_run sc d
]

unfoldable pub save_active_card : String → String → String → Desk → Desk
save_active_card sc chat_id card_id d = record d {
  active_cards = insert sc (record { chat_id = chat_id; card_id = card_id }) d.active_cards;
}

unfoldable pub remove_active_card : String → Desk → Desk
remove_active_card sc d = record d { active_cards = delete sc d.active_cards }

-- The start of a run in `runBatch`: the route and the run are entered, then the card is created; if
-- that fails the run is stopped and everything entered is taken back by the deferred calls.
unfoldable pub enter_run : String → ℕ → String → String → Bool → Desk → Desk
enter_run sc n chat_id reply_to in_thread d =
    let d = set_scope_route sc chat_id reply_to in_thread d in
    record d { runs = insert sc n d.runs }

unfoldable pub enter_card : String → String → String → String → Desk → Desk
enter_card sc chat_id message_id card_id d =
    let d = save_active_card sc chat_id card_id d in
    record d { card_scopes = insert message_id sc d.card_scopes }

-- The deferred calls of `runBatch`, last one first; the active card is removed before them.
unfoldable pub leave_run : String → String → Desk → Desk
leave_run sc message_id d =
    let d = record d { card_scopes = delete message_id d.card_scopes } in
    let d = record d { runs = delete sc d.runs; asks = invalidate_scope sc "run ended" d.asks } in
    clear_scope_route sc d

-- `rotateRunCard` once the new card is created; the run keeps its number.
unfoldable pub rotate_run_card : String → String → String → String → String → Bool → Desk → Desk
rotate_run_card sc chat_id old_message new_message new_card persist_active d =
    let d = if persist_active then save_active_card sc chat_id new_card d else d in
    let cards = delete old_message d.card_scopes in
    record d {
      card_scopes = if not (new_message == "") then insert new_message sc cards else cards;
    }

unfoldable pub reset_session : Disk → String → Desk → Desk
reset_session disk sc d = record d {
  sessions = (flush_sessions disk.sessions_written (delete_session sc d.sessions)).0;
  bindings = (flush_bindings disk.bindings_written (delete_by_scope sc d.bindings).0).0;
  reset = sc ∷ d.reset;
}

abbrev pub agent_id_of : Session → String
agent_id_of sess = if sess.session_id == "" then sess.thread_id else sess.session_id

unfoldable pub record_group_binding : ℕ → String → String → String → String → Session → Desk → Desk
record_group_binding now kind sc chat_id chat_type sess d =
    if chat_type == "p2p" || chat_id == ""
    then d
    else (let agent_id = agent_id_of sess in
        if agent_id == "" then d else record d {
          bindings =
              (set_if_absent now (session_key kind agent_id)
                (record { scope = sc; chat_id = chat_id; chat_type = "group"; bound_at = 0 })
                d.bindings).0;
        })
