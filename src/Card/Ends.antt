-- ===== src/Card/Ends.antt =====
-- How a run's card ends, and what becomes of its tools.
use lark_coding_agent_bridge.Prelude.{
  ℕ, String, ◌≡◌, refl, ap, ◌∙◌, ◌≢◌, ◌⊎◌, inl, inr, Bool, false, Option, none, some, List, [], ◌∷◌,
  arith, eq_iff, if◌then◌else◌, Bool-cases,
}
use lark_coding_agent_bridge.Agent.Event.{Event, EventType, TerminationReason}
use lark_coding_agent_bridge.Card.{
  Block, text, tool, ToolEntry, running, RunState, Terminal, live, finished, continued, interrupted,
  error, idle_timeout, none_shown, initial_state,
}
use lark_coding_agent_bridge.Card.Reduce.{
  close_streaming_text, finish_tools, reduce, reduce_kind, reduce_error, reduce_done, reduce_all,
  mark_interrupted, mark_idle_timeout, mark_continued, finalize_if_running, is_live, is_running,
  last_running,
}

-- The verdict that one event gives, if it gives one.
abbrev pub verdict : Event → Terminal → Terminal
verdict e t = elim e.kind [
  | EventType.error ↦ elim e.termination_reason [
    | TerminationReason.interrupted ↦ interrupted
    | TerminationReason.timeout ↦ idle_timeout
    | _ ↦ error
  ]
  | EventType.done ↦ elim e.termination_reason [
    | TerminationReason.interrupted ↦ interrupted
    | TerminationReason.timeout ↦ idle_timeout
    | _ ↦ finished
  ]
  | _ ↦ t
]

-- The verdict of the last event that gives one.
unfoldable pub last_verdict : Terminal → List Event → Terminal
last_verdict t [] = t
last_verdict t (e ∷ es) = last_verdict (verdict e t) es

reduce-verdict :
    (now : ℕ × ℕ) (s : RunState) (e : Event) → (reduce now s e).terminal ≡ verdict e s.terminal
unfolding reduce reduce_kind reduce_error reduce_done
reduce-verdict now s e = ground arith

reduce_all-verdict :
    (now : ℕ × ℕ) (s : RunState) (es : List Event)
    → (reduce_all now s es).terminal ≡ last_verdict s.terminal es
unfolding reduce_all last_verdict
reduce_all-verdict now s [] = refl
reduce_all-verdict now s (e ∷ es) =
    reduce_all-verdict now (reduce now s e) es
    ∙ ap (λ t. last_verdict t es) (reduce-verdict now s e)

-- All text of the card is closed.
abbrev pub Quiet : List Block → Type 0
Quiet [] = Unit {0}
Quiet (text c s ∷ bs) = (s ≡ false) × Quiet bs
Quiet (tool t ∷ bs) = Quiet bs

close-Quiet : (bs : List Block) → Quiet (close_streaming_text bs)
unfolding close_streaming_text
close-Quiet [] = tt
close-Quiet (text c s ∷ bs) = (refl, close-Quiet bs)
close-Quiet (tool t ∷ bs) = close-Quiet bs

abbrev pub Ended : Terminal → RunState → Type 0
Ended t s =
    (s.terminal ≡ t) × (s.footer ≡ none_shown) × (s.reasoning_active ≡ false) × Quiet s.blocks

-- A card that is marked as interrupted, as timed out, or as continued on another one has that verdict, no
-- footer and no text or reasoning that is still active, and so has a card without a verdict that is
-- closed as finished. Closing a card that has a verdict changes nothing. After any events a closed card
-- has the verdict of the last error or done event, which is interrupted or timed out for these reasons
-- and else failed or finished, and it is finished if there was none.
pub ends :
    (now : ℕ × ℕ) (es : List Event) (s : RunState)
    → Ended interrupted (mark_interrupted s)
      × Ended idle_timeout (mark_idle_timeout s)
      × Ended continued (mark_continued s)
      × (s.terminal ≡ live → Ended finished (finalize_if_running s))
      × (s.terminal ≢ live → finalize_if_running s ≡ s)
      × ((finalize_if_running (reduce_all now initial_state es)).terminal
          ≡ (if is_live (last_verdict live es) then finished else last_verdict live es))
unfolding mark_interrupted mark_idle_timeout mark_continued finalize_if_running initial_state
ends now es s = (
  (refl, refl, refl, close-Quiet s.blocks),
  (refl, refl, refl, close-Quiet s.blocks),
  (refl, refl, refl, close-Quiet s.blocks),
  λ h. ground (arith, close-Quiet s.blocks),
  λ h. ground arith,
  ground (arith, reduce_all-verdict now initial_state es),
)

-- The tool entries of a card, in order.
unfoldable pub tools : List Block → List ToolEntry
tools [] = []
tools (text c s ∷ bs) = tools bs
tools (tool t ∷ bs) = t ∷ tools bs

abbrev pub Settled : String → List ToolEntry → List ToolEntry → Type 0
Settled id [] [] = Unit
Settled id (t ∷ ts) (u ∷ us) =
    (t.id ≡ id → (u.status ≢ running) × (u.id ≡ id) × (u.name ≡ t.name))
    × (t.id ≢ id → u ≡ t)
    × Settled id ts us
Settled id _ _ = ⊥

finish_tools-Settled :
    (id o : String) (x : Bool) (bs : List Block)
    → Settled id (tools bs) (tools (finish_tools id o x bs))
unfolding tools finish_tools
finish_tools-Settled id o x [] = tt
finish_tools-Settled id o x (text c s ∷ bs) = finish_tools-Settled id o x bs
finish_tools-Settled id o x (tool t ∷ bs) = (
  λ h. ground (arith, eq_iff t.id id),
  λ h. ground (arith, eq_iff t.id id),
  finish_tools-Settled id o x bs,
)

-- A tool result ends every tool call with its id and touches no other.
pub result_settles :
    (now : ℕ × ℕ) (e : Event) (s : RunState)
    → e.kind ≡ EventType.tool_result
    → Settled e.id (tools s.blocks) (tools (reduce now s e).blocks)
unfolding reduce reduce_kind
result_settles now e s h =
    rw (h, reduce_kind) (finish_tools-Settled e.id e.output e.is_error s.blocks)

-- What the search for the last running tool finds, from the end of the list.
abbrev pub IsLastRunning : List ToolEntry → Option ToolEntry → Type 0
IsLastRunning [] r = r ≡ none
IsLastRunning (t ∷ ts) none = (t.status ≢ running) × IsLastRunning ts none
IsLastRunning (t ∷ ts) (some u) =
    IsLastRunning ts (some u) ⊎ ((t.status ≡ running) × (u ≡ t) × IsLastRunning ts none)

IsLastRunning-cons :
    (t : ToolEntry) (ts : List ToolEntry) (r : Option ToolEntry)
    → IsLastRunning ts r
    → IsLastRunning
        (t ∷ ts)
        (elim r [ some u ↦ some u | none ↦ if is_running t.status then some t else none ])
IsLastRunning-cons t ts (some u) h = inl h
IsLastRunning-cons t ts none h = elim (Bool-cases (is_running t.status)) [
  | inl k ↦ rw k (inr (ground arith, refl, h))
  | inr k ↦ rw k (ground arith, h)
]

blocks-IsLastRunning : (bs : List Block) → IsLastRunning (tools bs) (last_running bs)
unfolding tools last_running
blocks-IsLastRunning [] = refl
blocks-IsLastRunning (text c s ∷ bs) = blocks-IsLastRunning bs
blocks-IsLastRunning (tool t ∷ bs) =
    IsLastRunning-cons t (tools bs) (last_running bs) (blocks-IsLastRunning bs)
