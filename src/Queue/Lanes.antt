-- ===== src/Queue/Lanes.antt =====
-- The queue together with `Bridge.flush` of internal/bridge/bridge.go, which blocks the scope of a
-- batch, runs the batch in a goroutine and unblocks. The mutex of the queue is free between the
-- hand-over of a batch and the call of `Block`.
use lark_coding_agent_bridge.Prelude.{
  ℕ, ◌+◌, ◌-◌, String, ◌≡◌, ◌⊎◌, Bool, true, false, ◌&&◌, ◌||◌, not, Option, none, some, List, [],
  ◌∷◌, ◌==◌, eqb, if◌then◌else◌, lookup,
}
use lark_coding_agent_bridge.Bridge.Message.{Message}
use lark_coding_agent_bridge.Queue.{
  ScopeQueue, PendingQueue, push, block, unblock, expire, fire, elem, is_nil, new_pending_queue,
}

-- Batches of each scope that are handed over and not yet blocked for, and its run goroutines.
pub record Lanes : Type 0 where
  pub queue : PendingQueue
  pub handed : String → ℕ
  pub running : String → ℕ

abbrev pub bump : (String → ℕ) → String → String → ℕ
bump f s t = if s == t then f t + 1 else f t

abbrev pub drop_one : (String → ℕ) → String → String → ℕ
drop_one f s t = if s == t then f t - 1 else f t

-- Whether the callback of a timer finds a batch to hand over.
unfoldable pub takes : String → ℕ → PendingQueue → Bool
takes s id q = elim (lookup s q.queues) [
  | none ↦ false
  | some sq ↦ elem id sq.started && not (sq.blocked || is_nil sq.buffer)
]

-- The callback of a timer, up to the call of `onFlush`.
unfoldable pub hand_over : String → ℕ → Lanes → Lanes
hand_over s id l = record l {
  queue = fire s id l.queue;
  handed = if takes s id l.queue then bump l.handed s else l.handed;
}

-- `flush`: the scope is blocked and its run starts.
unfoldable pub flush : String → Lanes → Lanes
flush s l = if eqb (l.handed s) 0 then l else record {
  queue = block s l.queue;
  handed = drop_one l.handed s;
  running = bump l.running s;
}

-- The deferred call at the end of a run.
unfoldable pub finish : String → Lanes → Lanes
finish s l =
    if eqb (l.running s) 0
    then l
    else record l { queue = unblock s l.queue; running = drop_one l.running s }

pub data Move : Type 0 where
  arrives : String → Message → Move
  runs_out : String → ℕ → Move
  hands : String → ℕ → Move
  flushes : String → Move
  finishes : String → Move

unfoldable pub move : Lanes → Move → Lanes
move l (arrives s msg) = record l { queue = push s msg l.queue }
move l (runs_out s id) = record l { queue = expire s id l.queue }
move l (hands s id) = hand_over s id l
move l (flushes s) = flush s l
move l (finishes s) = finish s l

unfoldable pub moves : Lanes → List Move → Lanes
moves l [] = l
moves l (m ∷ ms) = moves (move l m) ms

unfoldable pub new_lanes : Lanes
new_lanes = record { queue = new_pending_queue; handed = λ s. 0; running = λ s. 0 }

-- No timer of a scope gets the mutex while a batch of the scope waits for its `Block`.
abbrev pub IsPrompt : Lanes → Move → Type 0
IsPrompt l (hands s id) = l.handed s ≡ 0
IsPrompt l _ = Unit

abbrev pub AllPrompt : Lanes → List Move → Type 0
AllPrompt l [] = Unit {0}
AllPrompt l (m ∷ ms) = IsPrompt l m × AllPrompt (move l m) ms

abbrev pub is_blocked : Option ScopeQueue → Bool
is_blocked none = false
is_blocked (some sq) = sq.blocked

abbrev pub is_there : Option ScopeQueue → Bool
is_there none = false
is_there (some sq) = true

-- A scope is open and idle, or one batch of it is about to run, or it is blocked by its one run.
abbrev pub IsSerial : Lanes → String → Type 0
IsSerial l s =
    ((l.handed s ≡ 0) × (l.running s ≡ 0) × (is_blocked (lookup s l.queue.queues) ≡ false))
    ⊎ ((l.handed s ≡ 1)
        × (l.running s ≡ 0)
        × (is_blocked (lookup s l.queue.queues) ≡ false)
        × (is_there (lookup s l.queue.queues) ≡ true))
    ⊎ ((l.handed s ≡ 0) × (l.running s ≡ 1) × (is_blocked (lookup s l.queue.queues) ≡ true))
