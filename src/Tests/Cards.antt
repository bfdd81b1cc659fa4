-- ===== src/Tests/Cards.antt =====
-- Cards, prices, and the choice of a session.
use lark_coding_agent_bridge.Agent.Match.{
  ExternalSession, match_session, at_index, parse_index, parse_from, exact, prefixed, Reads,
  Unlisted, here, int_range, match_session-chosen,
}
use lark_coding_agent_bridge.Prelude.{
  ℕ, suc, ◌<◌, inl, inr, arith, get_elem?, none, some, String, List, [], ◌∷◌, refl, ◌≡◌, ◌≢◌,
  if◌then◌else◌,
}
use lark_coding_agent_bridge.Agent.Event.{EventType, Event, blank}
use lark_coding_agent_bridge.Card.{
  initial_state, interrupted, idle_timeout, continued, live, finished,
}
use lark_coding_agent_bridge.Card.Reduce.{
  reduce_all, mark_interrupted, mark_idle_timeout, mark_continued, finalize_if_running, is_live,
}
use lark_coding_agent_bridge.Card.Blocks.{shown_from, told_from, OneStream}
use lark_coding_agent_bridge.Card.Transcript.{transcript_faithful}
use lark_coding_agent_bridge.Card.Ends.{Ended, last_verdict, ends}
use lark_coding_agent_bridge.Pricing.{registered, lookup_in, sort_entries, codes}
use lark_coding_agent_bridge.Pricing.Longest.{IsLongest, sorted_lookup-IsLongest}

abbrev events : List Event
events =
    record (blank EventType.text) { delta = "Looking." }
    ∷ record (blank EventType.tool_use) { id = "t1"; name = "Bash" }
    ∷ record (blank EventType.tool_result) { id = "t1"; output = "ok" }
    ∷ record (blank EventType.text) { delta = "Done." }
    ∷ blank EventType.done
    ∷ []

transcript_faithful_example :
    let s = reduce_all (9, 0) initial_state events in
    (shown_from "" s.blocks ≡ told_from "" events) × OneStream s.blocks
transcript_faithful_example = transcript_faithful (9, 0) events

ends_example :
    Ended interrupted (mark_interrupted initial_state)
    × Ended idle_timeout (mark_idle_timeout initial_state)
    × Ended continued (mark_continued initial_state)
    × (initial_state.terminal ≡ live → Ended finished (finalize_if_running initial_state))
    × (initial_state.terminal ≢ live → finalize_if_running initial_state ≡ initial_state)
    × ((finalize_if_running (reduce_all (9, 0) initial_state events)).terminal
        ≡ (if is_live (last_verdict live events) then finished else last_verdict live events))
ends_example = ends (9, 0) events initial_state

abbrev answer : Event
answer = record (blank EventType.tool_result) { id = "t1"; output = "ok" }

sorted_lookup-IsLongest_example :
    IsLongest
      (codes "gpt-4o-mini-2024")
      registered
      (lookup_in (sort_entries registered) (codes "gpt-4o-mini-2024"))
sorted_lookup-IsLongest_example = sorted_lookup-IsLongest registered (codes "gpt-4o-mini-2024")

abbrev session : String → ExternalSession
session id = record {
  id = id;
  cwd = "/work";
  preview = "";
  last_output = "";
  status = "";
  updated_at = 0;
  agent = "claude";
}

abbrev sessions : List ExternalSession
sessions = session "ab12" ∷ session "ab34" ∷ session "cd56" ∷ []

match_session-chosen_example :
    ((i : ℕ) (x : ExternalSession)
      → Reads 0 "cd" (suc i)
      → suc i < int_range
      → get_elem? sessions i ≡ some x
      → match_session sessions "cd" ≡ (some x, []))
    × ((x : ExternalSession)
        → Unlisted sessions "cd"
        → exact "cd" sessions ≡ some x
        → match_session sessions "cd" ≡ (some x, []))
    × (Unlisted sessions "cd"
        → exact "cd" sessions ≡ none
        → prefixed "cd" sessions ≡ []
        → match_session sessions "cd" ≡ (none, []))
    × ((x : ExternalSession)
        → Unlisted sessions "cd"
        → exact "cd" sessions ≡ none
        → prefixed "cd" sessions ≡ x ∷ []
        → match_session sessions "cd" ≡ (some x, []))
    × ((x y : ExternalSession) (more : List ExternalSession)
        → Unlisted sessions "cd"
        → exact "cd" sessions ≡ none
        → prefixed "cd" sessions ≡ x ∷ y ∷ more
        → match_session sessions "cd" ≡ (none, x ∷ y ∷ more))
match_session-chosen_example = match_session-chosen sessions "cd"

-- The hypotheses on the only match of a prefix hold here.
unique_prefix : match_session sessions "cd" ≡ (some (session "cd56"), [])
unfolding exact prefixed
unique_prefix =
    (match_session-chosen sessions "cd").3 (session "cd56") (inl (here (inr (omega arith)))) refl
      refl

second_session : match_session sessions "2" ≡ (some (session "ab34"), [])
unfolding match_session at_index parse_index parse_from
second_session = refl
