-- ===== src/Queue/Order.antt =====
-- No message is lost, doubled or overtaken in the queue.
use lark_coding_agent_bridge.Prelude.{
  ℕ, String, ◌≡◌, refl, sym, ◌∙◌, inl, inr, false, ◌||◌, some, List, [], ◌∷◌, ◌++◌, arith, ◌==◌,
  eq_iff, if◌then◌else◌, Bool-cases, Option-cases, lookup, lookup-insert,
}
use mathlib.Core.List.{append-nil, append_assoc}
use lark_coding_agent_bridge.Bridge.Message.{Message}
use lark_coding_agent_bridge.Queue.{
  ScopeQueue, PendingQueue, queue_or_new, arm, push_one, put, push, block, block_one, unblock,
  unblock_one, expire, expire_one, fire, idle_fire, taken, elem, is_nil, Event, pushes, blocks,
  unblocks, expires, fires, step, run, new_pending_queue,
}

-- The messages of a scope in the batches handed over so far, in order.
unfoldable pub delivered : String → List (String × List Message) → List Message
delivered s [] = []
delivered s ((t, batch) ∷ rest) = if t == s then batch ++ delivered s rest else delivered s rest

abbrev pub buffered : String → PendingQueue → List Message
buffered s q = (queue_or_new (lookup s q.queues)).buffer

-- The messages that a history pushes to a scope, in order.
unfoldable pub pushed : String → List Event → List Message
pushed s [] = []
pushed s (pushes t msg ∷ es) = if t == s then msg ∷ pushed s es else pushed s es
pushed s (_ ∷ es) = pushed s es

delivered-append :
    (s : String) (xs ys : List (String × List Message))
    → delivered s (xs ++ ys) ≡ delivered s xs ++ delivered s ys
unfolding delivered
delivered-append s [] ys = refl
delivered-append s ((t, b) ∷ xs) ys =
    ground (arith, delivered-append s xs ys, append_assoc b (delivered s xs) (delivered s ys))

delivered_one :
    (s t : String) (b : List Message) → delivered s ((t, b) ∷ []) ≡ (if t == s then b else [])
unfolding delivered
delivered_one s t b = ground (arith, append-nil b)

abbrev pub all_of : String → PendingQueue → List Message
all_of s q = delivered s q.flushed ++ buffered s q

put-buffered :
    (s t : String) (sq : ScopeQueue) (q : PendingQueue)
    → buffered s (put t sq q) ≡ (if t == s then sq.buffer else buffered s q)
put-buffered s t sq q = ground (arith, lookup-insert t s sq q.queues)

arm-buffer : (sq : ScopeQueue) → (arm sq).buffer ≡ sq.buffer
unfolding arm
arm-buffer sq = ground arith

abbrev one_pushed : String → Event → List Message
one_pushed s (pushes t msg) = if t == s then msg ∷ [] else []
one_pushed s _ = []

push-all :
    (s t : String) (msg : Message) (q : PendingQueue)
    → all_of s (push t msg q) ≡ all_of s q ++ (if t == s then msg ∷ [] else [])
unfolding push
push-all s t msg q = ground (
  arith,
  eq_iff t s,
  lookup-insert t s (push_one msg (queue_or_new (lookup t q.queues))) q.queues,
  arm-buffer (record (queue_or_new (lookup t q.queues)) {
    buffer = (queue_or_new (lookup t q.queues)).buffer ++ (msg ∷ []);
  }),
  append_assoc (delivered s q.flushed) (buffered s q) (msg ∷ []),
  append-nil (delivered s q.flushed ++ buffered s q),
)

-- A write that keeps the buffer of its scope changes nothing that is counted.
put-all :
    (s t : String) (sq sq' : ScopeQueue) (q : PendingQueue)
    → lookup t q.queues ≡ some sq
    → sq'.buffer ≡ sq.buffer
    → all_of s (put t sq' q) ≡ all_of s q
put-all s t sq sq' q e h = ground (arith, eq_iff t s, lookup-insert t s sq' q.queues)

unblock-buffer : (sq : ScopeQueue) → (unblock_one sq).buffer ≡ sq.buffer
unblock-buffer sq = ground (arith, arm-buffer (record sq { blocked = false }))

fire-all : (s t : String) (id : ℕ) (q : PendingQueue) → all_of s (fire t id q) ≡ all_of s q
unfolding fire
fire-all s t id q = elim (Option-cases (lookup t q.queues)) [
  | inl e ↦ ground arith
  | inr (sq, e) ↦ elim (Bool-cases (elem id sq.started)) [
    | inr h ↦ ground arith
    | inl h ↦ elim (Bool-cases (sq.blocked || is_nil sq.buffer)) [
      | inl k ↦ ground (arith, put-all s t sq (idle_fire id sq) q)
      | inr k ↦ ground (
        arith,
        eq_iff t s,
        lookup-insert t s (taken id sq) q.queues,
        delivered-append s q.flushed ((t, sq.buffer) ∷ []),
        delivered_one s t sq.buffer,
        append-nil (delivered s q.flushed),
        append-nil (delivered s q.flushed ++ sq.buffer),
      )
    ]
  ]
]

step-all :
    (s : String) (q : PendingQueue) (e : Event) → all_of s (step q e) ≡ all_of s q ++ one_pushed s e
unfolding step block unblock expire
step-all s q (pushes t msg) = push-all s t msg q
step-all s q (blocks t) = elim (Option-cases (lookup t q.queues)) [
  | inl e ↦ ground (arith, append-nil (all_of s q))
  | inr (sq, e) ↦ ground (arith, append-nil (all_of s q), put-all s t sq (block_one sq) q)
]
step-all s q (unblocks t) = elim (Option-cases (lookup t q.queues)) [
  | inl e ↦ ground (arith, append-nil (all_of s q))
  | inr (sq, e) ↦
      ground (arith, append-nil (all_of s q), put-all s t sq (unblock_one sq) q, unblock-buffer sq)
]
step-all s q (expires t id) = elim (Option-cases (lookup t q.queues)) [
  | inl e ↦ ground (arith, append-nil (all_of s q))
  | inr (sq, e) ↦ ground (arith, append-nil (all_of s q), put-all s t sq (expire_one id sq) q)
]
step-all s q (fires t id) = fire-all s t id q ∙ sym (append-nil (all_of s q))

pushed-cons :
    (s : String) (e : Event) (es : List Event) → pushed s (e ∷ es) ≡ one_pushed s e ++ pushed s es
unfolding pushed
pushed-cons s (pushes t msg) es = ground arith
pushed-cons s (blocks t) es = refl
pushed-cons s (unblocks t) es = refl
pushed-cons s (expires t id) es = refl
pushed-cons s (fires t id) es = refl

run-all :
    (s : String) (q : PendingQueue) (es : List Event)
    → all_of s (run q es) ≡ all_of s q ++ pushed s es
unfolding run
run-all s q [] = unfold pushed in sym (append-nil (all_of s q))
run-all s q (e ∷ es) = ground (
  arith,
  run-all s (step q e) es,
  step-all s q e,
  pushed-cons s e es,
  append_assoc (all_of s q) (one_pushed s e) (pushed s es),
)

-- After any history of pushes, blocks, unblocks and timers in any order, the batches handed over for
-- a scope, followed by what is still buffered for it, are exactly the messages pushed to that scope,
-- in their order.
pub flush_conserves :
    (s : String) (es : List Event)
    → delivered s (run new_pending_queue es).flushed ++ buffered s (run new_pending_queue es)
      ≡ pushed s es
unfolding new_pending_queue delivered lookup
flush_conserves s es = run-all s new_pending_queue es
