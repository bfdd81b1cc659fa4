-- ===== src/Agent/OpenCode/Server/Laws.antt =====
-- What holds of the server of internal/agent/opencode.go whatever happens in what order: no channel is
-- closed twice, and a permission is allowed by itself only for a run on full access.
use lark_coding_agent_bridge.Prelude.{
  String, ◌≡◌, refl, inl, inr, Bool, true, false, ◌&&◌, not, Option, some, List, [], ◌∷◌, ◌==◌,
  either, Option-cases, All, All-append, Dict,
}
use lark_coding_agent_bridge.Agent.Json.{Fields, string_field}
use lark_coding_agent_bridge.Agent.Event.{Event}
use lark_coding_agent_bridge.Agent.Runs.{
  new_channel, Slot, deliver_one, deliver, at, close_registered, read_slot,
}
use lark_coding_agent_bridge.Agent.Runs.Laws.{
  IsHealthy, Succeeds, One, deliver-Succeeds, at-Succeeds, close_registered-One, deliver_one-One,
  read-One,
}
use lark_coding_agent_bridge.Agent.OpenCode.Poll.{MessageEntry, last_assistant, reconcile_poll}
use lark_coding_agent_bridge.Agent.OpenCode.Server.{
  OcRun, Server, of_session, register_run, auto_allows, auto_allow_permissions, record_delivered,
  with_runs, fan_out, dispatch, close_run, server_exit, poll_slot, poll_run, read_run, Op, perform,
  perform_all, texts_of, text_at, register, bus, refuse, poll_read, poll, exit, is_nil,
}

-- Every registered run's channel is open.
abbrev pub IsSound : Server → Type 0
IsSound s = All IsHealthy s.runs

abbrev Goes : Option Server → Type 0
Goes r = (s : Server) × (r ≡ some s) × IsSound s

with_runs-Goes : (s : Server) (r : Option (List (Slot OcRun))) → Succeeds r → Goes (with_runs s r)
with_runs-Goes s r h = rw (h.1) (record s { runs = h.0 }, refl, h.2)

register-IsSound : (s : Server) (r : OcRun) → IsSound s → IsSound (register_run s r)
unfolding register_run
register-IsSound s r h =
    All-append IsHealthy s.runs (record { info = r; registered = true; chan = new_channel } ∷ []) h
      (λ e. refl, tt)

fan_out-Goes :
    (s : Server) (kind session : String) (props : Fields) (events : List Event) (terminal : Bool)
    → IsSound s
    → Goes (fan_out s kind session props events terminal)
unfolding fan_out
fan_out-Goes s kind session props events terminal h =
    let noted = record s { delivered = record_delivered kind session props events s.delivered } in
    either Goes (is_nil events && not terminal) (some s)
      (with_runs noted (deliver (of_session session) events terminal s.runs)) (s, refl, h)
      (with_runs-Goes noted (deliver (of_session session) events terminal s.runs)
        (deliver-Succeeds (of_session session) events terminal s.runs h))

dispatch-Goes :
    (took : String → Bool) (s : Server) (kind : String) (props : Fields)
    → IsSound s
    → Goes (dispatch took s kind props).0
unfolding dispatch
dispatch-Goes took s kind props h =
    either (λ (r : Option Server × List String). Goes r.0)
      (string_field props ("sessionID" ∷ []) == "") _ _ (s, refl, h)
      (fan_out-Goes _ kind _ props _ _ h)

poll_slot-One :
    (d : Dict (Dict String)) (messages : List MessageEntry) (r : Slot OcRun)
    → IsHealthy r
    → One (poll_slot d messages r)
unfolding poll_slot
poll_slot-One d messages r h = elim (Option-cases (last_assistant messages)) [
  | inl e ↦ rw (e, poll_slot) (r, refl, h)
  | inr (last, e) ↦
      let found = reconcile_poll (text_at last.id (texts_of r.info.session d)) last in
      rw (e, poll_slot)
        (either One found.1 (deliver_one found.0 true r) (some r) (deliver_one-One found.0 true r h)
          (r, refl, h))
]

perform-Goes : (took : String → Bool) (s : Server) (op : Op) → IsSound s → Goes (perform took s op)
unfolding close_run server_exit poll_run read_run
perform-Goes took s (register r) h = (register_run s r, refl, register-IsSound s r h)
perform-Goes took s (bus kind props) h = dispatch-Goes took s kind props h
perform-Goes took s (refuse n) h =
    with_runs-Goes s (at close_registered n s.runs)
      (at-Succeeds close_registered n s.runs close_registered-One h)
perform-Goes took s (poll_read n) h =
    with_runs-Goes s (at read_slot n s.runs) (at-Succeeds read_slot n s.runs read-One h)
perform-Goes took s (poll n messages) h =
    with_runs-Goes s (at (poll_slot s.delivered messages) n s.runs)
      (at-Succeeds (poll_slot s.delivered messages) n s.runs (poll_slot-One s.delivered messages) h)
perform-Goes took s exit h = with_runs-Goes s _ (deliver-Succeeds (λ r. true) _ true s.runs h)

-- From a server in which every registered run's channel is open, and so from a new one, whatever runs,
-- events, refusals, polls and reads come in whatever order, the exit of the process included, no
-- channel is closed twice, and every registered run's channel is open at the end.
pub perform_all-IsSound :
    (took : String → Bool) (s : Server) (ops : List Op)
    → IsSound s
    → (end : Server) × (perform_all took s ops ≡ some end) × IsSound end
unfolding perform_all
perform_all-IsSound took s [] h = (s, refl, h)
perform_all-IsSound took s (op ∷ ops) h =
    let next = perform-Goes took s op h in
    rw (next.1, perform_all) (perform_all-IsSound took next.0 ops next.2)

-- Where no registered run of the session is on full access, no permission is allowed without the user.
pub dispatch-asks :
    (took : String → Bool) (s : Server) (kind : String) (props : Fields)
    → auto_allows (string_field props ("sessionID" ∷ [])) s.runs ≡ false
    → (dispatch took s kind props).1 ≡ []
unfolding dispatch auto_allow_permissions
dispatch-asks took s kind props h =
    either (λ (r : Option Server × List String). r.1 ≡ [])
      (string_field props ("sessionID" ∷ []) == "") _ _ refl (rw h refl)
