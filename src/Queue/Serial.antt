-- ===== src/Queue/Serial.antt =====
-- One run of the agent at a time for a scope.
use lark_coding_agent_bridge.Queue.Lanes.{
  Lanes, takes, hand_over, flush, finish, Move, arrives, runs_out, hands, flushes, finishes, move,
  moves, new_lanes, IsPrompt, AllPrompt, is_blocked, is_there, IsSerial,
}
use lark_coding_agent_bridge.Prelude.{
  ℕ, String, ◌≡◌, refl, inl, inr, true, false, List, [], ◌∷◌, arith, ◌==◌, eq_iff, if◌then◌else◌,
  Option-cases, lookup, lookup-insert,
}
use lark_coding_agent_bridge.Bridge.Message.{Message}
use lark_coding_agent_bridge.Queue.{
  PendingQueue, queue_or_new, arm, push_one, push, block, block_one, unblock, unblock_one, expire,
  expire_one, fire, idle_fire, taken, new_pending_queue,
}

push-blocked :
    (s t : String) (msg : Message) (q : PendingQueue)
    → is_blocked (lookup s (push t msg q).queues) ≡ is_blocked (lookup s q.queues)
unfolding push arm
push-blocked s t msg q = ground (
  arith,
  eq_iff t s,
  lookup-insert t s (push_one msg (queue_or_new (lookup t q.queues))) q.queues,
)

expire-blocked :
    (s t : String) (id : ℕ) (q : PendingQueue)
    → is_blocked (lookup s (expire t id q).queues) ≡ is_blocked (lookup s q.queues)
unfolding expire
expire-blocked s t id q = elim (Option-cases (lookup t q.queues)) [
  | inl e ↦ ground arith
  | inr (sq, e) ↦ ground (arith, eq_iff t s, lookup-insert t s (expire_one id sq) q.queues)
]

fire-blocked :
    (s t : String) (id : ℕ) (q : PendingQueue)
    → is_blocked (lookup s (fire t id q).queues) ≡ is_blocked (lookup s q.queues)
unfolding fire
fire-blocked s t id q = elim (Option-cases (lookup t q.queues)) [
  | inl e ↦ ground arith
  | inr (sq, e) ↦ ground (
    arith,
    eq_iff t s,
    lookup-insert t s (idle_fire id sq) q.queues,
    lookup-insert t s (taken id sq) q.queues,
  )
]

block-blocked :
    (s t : String) (q : PendingQueue)
    → is_blocked (lookup s (block t q).queues)
      ≡ (if t == s then is_there (lookup s q.queues) else is_blocked (lookup s q.queues))
unfolding block
block-blocked s t q = elim (Option-cases (lookup t q.queues)) [
  | inl e ↦ ground (arith, eq_iff t s)
  | inr (sq, e) ↦ ground (arith, eq_iff t s, lookup-insert t s (block_one sq) q.queues)
]

unblock-blocked :
    (s t : String) (q : PendingQueue)
    → is_blocked (lookup s (unblock t q).queues)
      ≡ (if t == s then false else is_blocked (lookup s q.queues))
unfolding unblock arm
unblock-blocked s t q = elim (Option-cases (lookup t q.queues)) [
  | inl e ↦ ground (arith, eq_iff t s)
  | inr (sq, e) ↦ ground (arith, eq_iff t s, lookup-insert t s (unblock_one sq) q.queues)
]

push-there :
    (s t : String) (msg : Message) (q : PendingQueue)
    → is_there (lookup s q.queues) ≡ true
    → is_there (lookup s (push t msg q).queues) ≡ true
unfolding push
push-there s t msg q h =
    ground (arith, h, lookup-insert t s (push_one msg (queue_or_new (lookup t q.queues))) q.queues)

expire-there :
    (s t : String) (id : ℕ) (q : PendingQueue)
    → is_there (lookup s q.queues) ≡ true
    → is_there (lookup s (expire t id q).queues) ≡ true
unfolding expire
expire-there s t id q h = elim (Option-cases (lookup t q.queues)) [
  | inl e ↦ ground (arith, h)
  | inr (sq, e) ↦ ground (arith, h, lookup-insert t s (expire_one id sq) q.queues)
]

fire-there :
    (s t : String) (id : ℕ) (q : PendingQueue)
    → is_there (lookup s q.queues) ≡ true
    → is_there (lookup s (fire t id q).queues) ≡ true
unfolding fire
fire-there s t id q h = elim (Option-cases (lookup t q.queues)) [
  | inl e ↦ ground (arith, h)
  | inr (sq, e) ↦ ground (
    arith,
    h,
    lookup-insert t s (idle_fire id sq) q.queues,
    lookup-insert t s (taken id sq) q.queues,
  )
]

block-there :
    (s t : String) (q : PendingQueue)
    → is_there (lookup s q.queues) ≡ true
    → is_there (lookup s (block t q).queues) ≡ true
unfolding block
block-there s t q h = elim (Option-cases (lookup t q.queues)) [
  | inl e ↦ ground (arith, h)
  | inr (sq, e) ↦ ground (arith, h, lookup-insert t s (block_one sq) q.queues)
]

unblock-there :
    (s t : String) (q : PendingQueue)
    → is_there (lookup s q.queues) ≡ true
    → is_there (lookup s (unblock t q).queues) ≡ true
unfolding unblock
unblock-there s t q h = elim (Option-cases (lookup t q.queues)) [
  | inl e ↦ ground (arith, h)
  | inr (sq, e) ↦ ground (arith, h, lookup-insert t s (unblock_one sq) q.queues)
]

takes-open :
    (s : String) (id : ℕ) (q : PendingQueue)
    → takes s id q ≡ true
    → (is_blocked (lookup s q.queues) ≡ false) × (is_there (lookup s q.queues) ≡ true)
unfolding takes
takes-open s id q h = elim (Option-cases (lookup s q.queues)) [
  | inl e ↦ absurd (ground arith)
  | inr (sq, e) ↦ (ground arith, ground arith)
]

hand_over-IsSerial :
    (l : Lanes) (s t : String) (id : ℕ)
    → l.handed t ≡ 0
    → IsSerial l s
    → IsSerial (hand_over t id l) s
unfolding hand_over
hand_over-IsSerial l s t id p h = ground (
  arith,
  p,
  h,
  eq_iff t s,
  fire-blocked s t id l.queue,
  fire-there s t id l.queue,
  takes-open t id l.queue,
)

flush-IsSerial : (l : Lanes) (s t : String) → IsSerial l s → IsSerial (flush t l) s
unfolding flush
flush-IsSerial l s t h =
    ground (arith, h, eq_iff t s, block-blocked s t l.queue, block-there s t l.queue)

finish-IsSerial : (l : Lanes) (s t : String) → IsSerial l s → IsSerial (finish t l) s
unfolding finish
finish-IsSerial l s t h =
    ground (arith, h, eq_iff t s, unblock-blocked s t l.queue, unblock-there s t l.queue)

move-IsSerial :
    (l : Lanes) (m : Move) (s : String) → IsPrompt l m → IsSerial l s → IsSerial (move l m) s
unfolding move
move-IsSerial l (arrives t msg) s p h =
    ground (arith, h, push-blocked s t msg l.queue, push-there s t msg l.queue)
move-IsSerial l (runs_out t id) s p h =
    ground (arith, h, expire-blocked s t id l.queue, expire-there s t id l.queue)
move-IsSerial l (hands t id) s p h = hand_over-IsSerial l s t id p h
move-IsSerial l (flushes t) s p h = flush-IsSerial l s t h
move-IsSerial l (finishes t) s p h = finish-IsSerial l s t h

moves-IsSerial :
    (l : Lanes) (ms : List Move) (s : String)
    → AllPrompt l ms
    → IsSerial l s
    → IsSerial (moves l ms) s
unfolding moves
moves-IsSerial l [] s p h = h
moves-IsSerial l (m ∷ ms) s p h = moves-IsSerial (move l m) ms s p.1 (move-IsSerial l m s p.0 h)

-- If no timer of a scope gets the mutex between the hand-over of a batch of the scope and its call of
-- `Block`, a scope has at most one run in flight or about to start, and it is blocked exactly while
-- one is in flight.
pub one_run_per_scope :
    (ms : List Move) (s : String) → AllPrompt new_lanes ms → IsSerial (moves new_lanes ms) s
unfolding new_lanes new_pending_queue lookup
one_run_per_scope ms s p = moves-IsSerial new_lanes ms s p (inl (refl, refl, refl))
