-- ===== src/Agent/Stream.antt =====
-- How the streams of events of internal/agent end.
use lark_coding_agent_bridge.Prelude.{◌≡◌, refl, Bool, List, [], ◌∷◌, ◌++◌, if◌then◌else◌}
use lark_coding_agent_bridge.Agent.Event.{Event, EventType}

-- A stream of events that runs, that a closing event has ended, or that went on after one.
pub data Tail : Type 0 where
  running ended overrun : Tail

abbrev pub close : Tail → Tail
close running = ended
close _ = overrun

abbrev pub follow : Tail → Tail
follow running = running
follow _ = overrun

abbrev pub advance : EventType → Tail → Tail
advance EventType.done s = close s
advance EventType.error s = close s
advance _ s = follow s

unfoldable pub tail : Tail → List Event → Tail
tail s [] = s
tail s (e ∷ es) = tail (advance e.kind s) es

pub tail-append : (s : Tail) (xs ys : List Event) → tail s (xs ++ ys) ≡ tail (tail s xs) ys
unfolding tail
tail-append s [] ys = refl
tail-append s (x ∷ xs) ys = tail-append (advance x.kind s) xs ys

abbrev pub standing : Bool → Tail
standing terminal = if terminal then ended else running
