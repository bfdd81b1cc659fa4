-- ===== src/Queue.antt =====
-- internal/bridge/queue.go: messages of a scope are batched by a quiet-window timer, and a scope is
-- blocked while its run is in flight. A timer that has gone off may wait for the mutex while others
-- hold it, so `Stop` cannot call it back: `ticking` timers still run, `started` ones wait.
pub mod Order
pub mod Live
pub mod Lanes
pub mod Serial
use lark_coding_agent_bridge.Prelude.{
  ℕ, zero, suc, ◌+◌, ◌-◌, ◌*◌, ◌/◌, ◌%◌, ◌≤◌, ◌<◌, String, ◌≡◌, refl, sym, ap, ◌∙◌, subst, ◌≢◌, ◌↔◌,
  ◌⊎◌, inl, inr, Bool, true, false, ◌&&◌, ◌||◌, not, Option, none, some, List, [], ◌∷◌, ◌++◌, map,
  arith, ◌==◌, eq_iff, eq_refl, ltb, leb, eqb, if◌then◌else◌, Bool-cases, Option-cases, length,
  get_elem?, set, replicate, All, All-append, length-append, length-set, length-replicate, has,
  without, has-without, has-append, has-without_self, Dict, lookup, insert, delete, keep, has_key,
  lookup-insert, lookup-insert_self, lookup-delete, lookup-delete_self, AllVals, AllVals-insert,
  AllVals-delete, AllVals-keep, AllVals-lookup, ℤ, pos, negsuc, concat,
}
use lark_coding_agent_bridge.Bridge.Message.{Message}

pub record ScopeQueue : Type 0 where
  pub buffer : List Message
  pub timer : Option ℕ
  pub blocked : Bool
  pub ticking : List ℕ
  pub started : List ℕ
  pub next_timer : ℕ

-- `flushed` are the calls of `onFlush`, oldest first.
pub record PendingQueue : Type 0 where
  pub queues : Dict ScopeQueue
  pub flushed : List (String × List Message)

abbrev pub new_scope_queue : ScopeQueue
new_scope_queue = record {
  buffer = [];
  timer = none;
  blocked = false;
  ticking = [];
  started = [];
  next_timer = 0;
}

unfoldable pub new_pending_queue : PendingQueue
new_pending_queue = record { queues = []; flushed = [] }

unfoldable pub elem : ℕ → List ℕ → Bool
elem n [] = false
elem n (x ∷ xs) = eqb x n || elem n xs

unfoldable pub remove : ℕ → List ℕ → List ℕ
remove n [] = []
remove n (x ∷ xs) = let rest = remove n xs in if eqb x n then rest else x ∷ rest

-- `timer.Stop()` where there is a timer.
abbrev pub stop : Option ℕ → List ℕ → List ℕ
stop none ticking = ticking
stop (some id) ticking = remove id ticking

unfoldable pub arm : ScopeQueue → ScopeQueue
arm sq = if sq.blocked then sq else record sq {
  timer = some sq.next_timer;
  ticking = sq.next_timer ∷ stop sq.timer sq.ticking;
  next_timer = sq.next_timer + 1;
}

abbrev pub queue_or_new : Option ScopeQueue → ScopeQueue
queue_or_new none = new_scope_queue
queue_or_new (some sq) = sq

abbrev pub push_one : Message → ScopeQueue → ScopeQueue
push_one msg sq = arm (record sq { buffer = sq.buffer ++ (msg ∷ []) })

abbrev pub put : String → ScopeQueue → PendingQueue → PendingQueue
put scope sq q = record q { queues = insert scope sq q.queues }

unfoldable pub push : String → Message → PendingQueue → PendingQueue
push scope msg q = put scope (push_one msg (queue_or_new (lookup scope q.queues))) q

abbrev pub block_one : ScopeQueue → ScopeQueue
block_one sq = record sq { blocked = true; timer = none; ticking = stop sq.timer sq.ticking }

unfoldable pub block : String → PendingQueue → PendingQueue
block scope q = elim (lookup scope q.queues) [ none ↦ q | some sq ↦ put scope (block_one sq) q ]

abbrev pub is_nil : List Message → Bool
is_nil [] = true
is_nil (m ∷ ms) = false

abbrev pub unblock_one : ScopeQueue → ScopeQueue
unblock_one sq =
    let free = record sq { blocked = false } in if is_nil sq.buffer then free else arm free

unfoldable pub unblock : String → PendingQueue → PendingQueue
unblock scope q = elim (lookup scope q.queues) [ none ↦ q | some sq ↦ put scope (unblock_one sq) q ]

-- A timer runs out: its callback waits for the mutex.
abbrev pub expire_one : ℕ → ScopeQueue → ScopeQueue
expire_one id sq =
    if elem id sq.ticking
    then record sq { ticking = remove id sq.ticking; started = id ∷ sq.started }
    else sq

unfoldable pub expire : String → ℕ → PendingQueue → PendingQueue
expire scope id q = elim (lookup scope q.queues) [
  | none ↦ q
  | some sq ↦ put scope (expire_one id sq) q
]

abbrev pub idle_fire : ℕ → ScopeQueue → ScopeQueue
idle_fire id sq = record sq { started = remove id sq.started }

abbrev pub taken : ℕ → ScopeQueue → ScopeQueue
taken id sq = record sq { started = remove id sq.started; buffer = []; timer = none }

-- The callback of timer `id` of a scope has the mutex.
unfoldable pub fire : String → ℕ → PendingQueue → PendingQueue
fire scope id q = elim (lookup scope q.queues) [
  | none ↦ q
  | some sq ↦
      if not (elem id sq.started)
      then q
      else if sq.blocked || is_nil sq.buffer
      then put scope (idle_fire id sq) q
      else record q {
        queues = insert scope (taken id sq) q.queues;
        flushed = q.flushed ++ ((scope, sq.buffer) ∷ []);
      }
]

pub data Event : Type 0 where
  pushes : String → Message → Event
  blocks unblocks : String → Event
  expires fires : String → ℕ → Event

unfoldable pub step : PendingQueue → Event → PendingQueue
step q (pushes scope msg) = push scope msg q
step q (blocks scope) = block scope q
step q (unblocks scope) = unblock scope q
step q (expires scope id) = expire scope id q
step q (fires scope id) = fire scope id q

unfoldable pub run : PendingQueue → List Event → PendingQueue
run q [] = q
run q (e ∷ es) = run (step q e) es
