-- ===== src/Agent/Pi/Session/Laws.antt =====
-- How a Pi process of internal/agent/pi.go may fail its runs: every order of lines, exits and runs closes
-- a channel once, but for a prompt that fails behind the end of its run.
use lark_coding_agent_bridge.Prelude.{
  ℕ, zero, suc, String, ◌≡◌, refl, sym, ap, subst, Bool, true, false, ◌&&◌, Option, none, some,
  List, [], ◌∷◌, ◌++◌, ◌==◌, either, length, All, All-append,
}
use lark_coding_agent_bridge.Agent.Json.{Fields, map_field, string_field}
use lark_coding_agent_bridge.Agent.Event.{Event}
use lark_coding_agent_bridge.Agent.Runs.{Channel, safe_send, Slot, close_slot, at, read_slot}
use lark_coding_agent_bridge.Agent.Runs.Laws.{
  IsHealthy, Succeeds, deliver-Succeeds, at-Succeeds, read-One, deliver_last, at_last,
  join-Succeeds, close-One,
}
use lark_coding_agent_bridge.Agent.Pi.Session.{
  exit_events, PiSession, on_response, fan_out, read_line, session_exit, first_channel, begin_run,
  prompt_failed, with_runs, line_events, any_terminal, Op, perform, perform_all, line, begin, exit,
  failed, read, note_response,
}

abbrev pub IsSound : PiSession → Type 0
IsSound s = All IsHealthy s.runs

abbrev Goes : Option PiSession → Type 0
Goes r = (s : PiSession) × (r ≡ some s) × IsSound s

with_runs-Goes :
    (s : PiSession) (r : Option (List (Slot (Unit {0})))) → Succeeds r → Goes (with_runs s r)
with_runs-Goes s r h = rw (h.1) (record s { runs = h.0 }, refl, h.2)

fan_out-Goes :
    (s : PiSession) (events : List Event) (terminal : Bool)
    → IsSound s
    → Goes (fan_out s events terminal)
unfolding fan_out
fan_out-Goes s events terminal h =
    with_runs-Goes s _ (deliver-Succeeds (λ u. true) events terminal s.runs h)

note-runs :
    (s : PiSession) (command : String) (values : Option Fields)
    → (note_response s command values).runs ≡ s.runs
unfolding note_response
note-runs s command none = refl
note-runs s command (some values) = refl

response-IsSound : (s : PiSession) (raw : Fields) → IsSound s → IsSound (on_response s raw)
unfolding on_response
response-IsSound s raw h =
    subst (All IsHealthy)
      (sym (note-runs s (string_field raw ("command" ∷ [])) (map_field raw "data"))) h

read_line-Goes : (s : PiSession) (raw : Option Fields) → IsSound s → Goes (read_line s raw)
unfolding read_line
read_line-Goes s none h = (s, refl, h)
read_line-Goes s (some raw) h =
    let events = line_events s raw in
    either Goes (string_field raw ("type" ∷ []) == "response") (some (on_response s raw))
      (fan_out s events (any_terminal events)) (on_response s raw, refl, response-IsSound s raw h)
      (fan_out-Goes s events (any_terminal events) h)

first_channel-open : (s : PiSession) → (first_channel s).closed ≡ false
unfolding first_channel safe_send
first_channel-open s =
    either (λ (c : Channel). c.closed ≡ false) (s.session_id == "" && s.model_id == "") _ _ refl
      refl

begin-IsSound : (s : PiSession) → IsSound s → IsSound (begin_run s)
unfolding begin_run
begin-IsSound s h =
    All-append IsHealthy s.runs
      (record { info = tt; registered = true; chan = first_channel s } ∷ []) h
      (λ e. first_channel-open s, tt)

-- Whether the run at an index is still on the map of its session.
unfoldable pub in_flight : ℕ → List (Slot (Unit {0})) → Bool
in_flight n [] = true
in_flight zero (r ∷ rs) = r.registered
in_flight (suc n) (r ∷ rs) = in_flight n rs

in_flight-Succeeds :
    (n : ℕ) (rs : List (Slot (Unit {0})))
    → All IsHealthy rs
    → in_flight n rs ≡ true
    → Succeeds (at close_slot n rs)
unfolding in_flight at
in_flight-Succeeds n [] h k = ([], refl, tt)
in_flight-Succeeds zero (r ∷ rs) h k =
    join-Succeeds (close_slot r) (some rs) (close-One r (h.0 k)) (rs, refl, h.1)
in_flight-Succeeds (suc n) (r ∷ rs) h k =
    join-Succeeds (some r) (at close_slot n rs) (r, refl, h.0) (in_flight-Succeeds n rs h.1 k)

-- A prompt fails only while its run is in flight.
abbrev pub Timely : PiSession → Op → Type 0
Timely s (failed n) = in_flight n s.runs ≡ true
Timely s _ = Unit {0}

perform-Goes : (s : PiSession) (op : Op) → IsSound s → Timely s op → Goes (perform s op)
unfolding session_exit prompt_failed
perform-Goes s (line raw) h k = read_line-Goes s raw h
perform-Goes s begin h k = (begin_run s, refl, begin-IsSound s h)
perform-Goes s exit h k = fan_out-Goes _ _ true h
perform-Goes s (failed n) h k =
    with_runs-Goes s (at close_slot n s.runs) (in_flight-Succeeds n s.runs h k)
perform-Goes s (read n) h k =
    with_runs-Goes s (at read_slot n s.runs) (at-Succeeds read_slot n s.runs read-One h)

abbrev pub AllTimely : PiSession → List Op → Type 0
AllTimely s [] = Unit {0}
AllTimely s (op ∷ ops) =
    Timely s op × ((next : PiSession) → perform s op ≡ some next → AllTimely next ops)

-- From a session in which every run on the map has an open channel, and so from a new one, and as long as
-- prompts fail only while their runs are in flight, lines, runs, exits and reads in any order close no
-- channel twice, and every run on the map has an open channel at the end.
pub timely-IsSound :
    (s : PiSession) (ops : List Op)
    → IsSound s
    → AllTimely s ops
    → (end : PiSession) × (perform_all s ops ≡ some end) × IsSound end
unfolding perform_all
timely-IsSound s [] h k = (s, refl, h)
timely-IsSound s (op ∷ ops) h k =
    let next = perform-Goes s op h k.0 in
    rw (next.1, perform_all) (timely-IsSound next.0 ops next.2 (k.1 next.0 next.1))

-- In a session in which every run on the map has an open channel: when the process exits while the prompt
-- of a new run waits for its answer, the prompt waits no longer and fails, and closing the run's channel
-- then is a panic.
pub exit_during_prompt :
    (s : PiSession)
    → IsSound s
    → (gone : PiSession) × (session_exit (begin_run s) ≡ some gone)
      × (gone.pending ≡ [])
      × (prompt_failed gone (length s.runs) ≡ none)
unfolding session_exit begin_run fan_out prompt_failed
exit_during_prompt s h =
    let run : Slot (Unit {0}) = record { info = tt; registered = true; chan = first_channel s } in
    let last =
      deliver_last (λ (u : Unit {0}). true) (exit_events s.label) s.runs run h refl refl
        (first_channel-open s) in
    let base = record (begin_run s) { dead = true; pending = [] } in
    let gone = record base { runs = last.0 ++ (last.1 ∷ []) } in
    (
      gone,
      ap (with_runs base) last.2,
      refl,
      ap (with_runs gone) (
          subst (λ (n : ℕ). at close_slot n (last.0 ++ (last.1 ∷ [])) ≡ none) last.3
            (at_last last.0 last.1 last.4)),
    )
