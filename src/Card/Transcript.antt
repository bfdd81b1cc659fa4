-- ===== src/Card/Transcript.antt =====
-- What folding a run's events into the card keeps of them.
use lark_coding_agent_bridge.Prelude.{
  ℕ, Bool, true, false, ◌≡◌, arith, refl, sym, ap, ◌∙◌, subst, List, [], ◌∷◌, String,
}
use lark_coding_agent_bridge.Agent.Event.{Event, EventType, TerminationReason}
use lark_coding_agent_bridge.Card.{RunState, initial_state, String}
use lark_coding_agent_bridge.Card.Reduce.{
  reduce, reduce_kind, reduce_error, reduce_done, reduce_all, new_tool,
}
use lark_coding_agent_bridge.Card.Blocks.{
  Script, over, call, shown_from, told_from, told_after, OneStream, append_text-told_after,
  append_text-OneStream, close-told_after, close-shown_from, close-OneStream, close_only-OneStream,
  finish-shown_from, finish-OneStream,
}

-- The card after an event, and what is told after it, is what the event and the rest are told to be.
abbrev Kept : RunState → Event → RunState → Type 0
Kept s e s' =
    ((es : List Event)
      → told_after (shown_from "" s'.blocks) es ≡ told_after (shown_from "" s.blocks) (e ∷ es))
    × OneStream s'.blocks

-- Any kind of event but a text delta and a tool call.
abbrev is_silent : EventType → Bool
is_silent EventType.text = false
is_silent EventType.tool_use = false
is_silent _ = true

silent-told_from :
    (t : String) (e : Event) (es : List Event)
    → is_silent e.kind ≡ true
    → told_from t (e ∷ es) ≡ told_from t es
unfolding told_from
silent-told_from t e es h = ground (arith, h)

silent-told_after :
    (r : Script) (e : Event) (es : List Event)
    → is_silent e.kind ≡ true
    → told_after r (e ∷ es) ≡ told_after r es
unfolding told_after
silent-told_after (over t) e es h = silent-told_from t e es h
silent-told_after (call t id r) e es h = ap (call t id) (silent-told_after r e es h)

Kept-silent :
    (s s' : RunState) (e : Event)
    → is_silent e.kind ≡ true
    → shown_from "" s'.blocks ≡ shown_from "" s.blocks
    → OneStream s'.blocks
    → Kept s e s'
Kept-silent s s' e h q o =
    (λ es. ap (λ r. told_after r es) q ∙ sym (silent-told_after (shown_from "" s.blocks) e es h), o)

reduce_error-blocks :
    (r : TerminationReason) (e : Event) (s : RunState) → (reduce_error r e s).blocks ≡ s.blocks
unfolding reduce_error
reduce_error-blocks TerminationReason.interrupted e s = refl
reduce_error-blocks TerminationReason.timeout e s = refl
reduce_error-blocks _ e s = refl

reduce_kind-Kept :
    (k : EventType) (now : ℕ × ℕ) (e : Event) (s : RunState)
    → e.kind ≡ k
    → OneStream s.blocks
    → Kept s e (reduce_kind k now e s)
unfolding reduce_kind reduce_done
reduce_kind-Kept EventType.text now e s q h =
    (λ es. append_text-told_after e es "" s.blocks q, append_text-OneStream s.blocks e.delta h)
reduce_kind-Kept EventType.tool_use now e s q h = (
  λ es. close-told_after e es "" s.blocks (new_tool e) q refl,
  close-OneStream s.blocks (new_tool e),
)
reduce_kind-Kept EventType.tool_result now e s q h =
    Kept-silent s (reduce_kind EventType.tool_result now e s) e (rw q refl)
      (finish-shown_from e.id e.output e.is_error "" s.blocks)
      (finish-OneStream e.id e.output e.is_error s.blocks h)
reduce_kind-Kept EventType.error now e s q h =
    let p = reduce_error-blocks e.termination_reason e s in
    Kept-silent s (reduce_kind EventType.error now e s) e (rw q refl) (ap (shown_from "") p)
      (subst OneStream (sym p) h)
reduce_kind-Kept EventType.done now e s q h =
    Kept-silent s (reduce_kind EventType.done now e s) e (rw q refl) (close-shown_from "" s.blocks)
      (close_only-OneStream s.blocks)
reduce_kind-Kept EventType.final_text now e s q h =
    Kept-silent s (reduce_kind EventType.final_text now e s) e (rw q refl) refl h
reduce_kind-Kept EventType.thinking now e s q h =
    Kept-silent s (reduce_kind EventType.thinking now e s) e (rw q refl) refl h
reduce_kind-Kept EventType.system now e s q h =
    Kept-silent s (reduce_kind EventType.system now e s) e (rw q refl) refl h
reduce_kind-Kept EventType.usage now e s q h =
    Kept-silent s (reduce_kind EventType.usage now e s) e (rw q refl) refl h
reduce_kind-Kept EventType.ask_user now e s q h = Kept-silent s s e (rw q refl) refl h

told_after-none : (r : Script) → told_after r [] ≡ r
unfolding told_after told_from
told_after-none (over t) = refl
told_after-none (call t id r) = ap (call t id) (told_after-none r)

reduce_all-Kept :
    (now : ℕ × ℕ) (s : RunState) (es : List Event)
    → OneStream s.blocks
    → (shown_from "" (reduce_all now s es).blocks ≡ told_after (shown_from "" s.blocks) es)
      × OneStream (reduce_all now s es).blocks
unfolding reduce_all reduce
reduce_all-Kept now s [] h = (sym (told_after-none (shown_from "" s.blocks)), h)
reduce_all-Kept now s (e ∷ es) h =
    let (t, o) = reduce_kind-Kept e.kind now e s refl h in
    let (t', o') = reduce_all-Kept now (reduce now s e) es o in (t' ∙ t es, o')

-- Whatever events a run reports, its card shows, from top to bottom, what they report in their order: all
-- text deltas up to a tool call, that tool, the deltas up to the next, and so on, the remaining deltas
-- last; and no block but the last is still streaming text.
pub transcript_faithful :
    (now : ℕ × ℕ) (es : List Event)
    → let s = reduce_all now initial_state es in
      (shown_from "" s.blocks ≡ told_from "" es) × OneStream s.blocks
unfolding initial_state shown_from told_after
transcript_faithful now es = reduce_all-Kept now initial_state es tt
