-- ===== src/Queue/Live.antt =====
-- A scope that is not blocked never strands its messages.
use lark_coding_agent_bridge.Prelude.{
  ℕ, String, ◌≡◌, refl, ◌≢◌, inl, inr, Bool, true, false, ◌||◌, none, some, List, [], ◌∷◌, ◌++◌,
  arith, eqb, if◌then◌else◌, Bool-cases, Option-cases, lookup, insert, lookup-insert_self, AllVals,
  AllVals-insert, AllVals-lookup,
}
use lark_coding_agent_bridge.Bridge.Message.{Message}
use lark_coding_agent_bridge.Queue.{
  ScopeQueue, PendingQueue, queue_or_new, arm, push_one, put, push, block, block_one, unblock,
  unblock_one, expire, expire_one, fire, idle_fire, taken, elem, remove, is_nil, Event, pushes,
  blocks, unblocks, expires, fires, step, run, new_pending_queue,
}

-- The timer of the scope is one that still runs or whose callback waits for the mutex.
abbrev pub armed : ScopeQueue → Bool
armed sq = elim sq.timer [ none ↦ false | some id ↦ elem id sq.ticking || elem id sq.started ]

abbrev pub IsLive : ScopeQueue → Type 0
IsLive sq = is_nil sq.buffer ≡ false → sq.blocked ≡ false → armed sq ≡ true

elem-remove :
    (i j : ℕ) (xs : List ℕ) → elem j (remove i xs) ≡ (if eqb i j then false else elem j xs)
unfolding elem remove
elem-remove i j [] = ground arith
elem-remove i j (x ∷ xs) = ground (arith, elem-remove i j xs)

arm-armed : (sq : ScopeQueue) → sq.blocked ≡ false → armed (arm sq) ≡ true
unfolding arm elem
arm-armed sq h = ground arith

arm-blocked : (sq : ScopeQueue) → (arm sq).blocked ≡ sq.blocked
unfolding arm
arm-blocked sq = ground arith

push_one-IsLive : (msg : Message) (sq : ScopeQueue) → IsLive (push_one msg sq)
push_one-IsLive msg sq n h =
    arm-armed (record sq { buffer = sq.buffer ++ (msg ∷ []) })
      (ground (arith, arm-blocked (record sq { buffer = sq.buffer ++ (msg ∷ []) })))

unblock_one-IsLive : (sq : ScopeQueue) → IsLive (unblock_one sq)
unblock_one-IsLive sq n h = elim (Bool-cases (is_nil sq.buffer)) [
  | inl k ↦ ground arith
  | inr k ↦ ground (arith, arm-armed (record sq { blocked = false }) refl)
]

expire_one-IsLive : (id : ℕ) (sq : ScopeQueue) → IsLive sq → IsLive (expire_one id sq)
unfolding elem
expire_one-IsLive id sq l n h = elim (Option-cases sq.timer) [
  | inl t ↦ ground (arith, l)
  | inr (j, t) ↦ ground (arith, l, elem-remove id j sq.ticking)
]

abbrev AllLive : PendingQueue → Type 0
AllLive q = AllVals (λ s sq. IsLive sq) q.queues

module _ (q : PendingQueue) (live : AllLive q) where
  put-AllLive : (s : String) (sq : ScopeQueue) → IsLive sq → AllLive (put s sq q)
  put-AllLive s sq h = AllVals-insert (λ s sq. IsLive sq) s sq q.queues h live

  get-IsLive : (s : String) (sq : ScopeQueue) → lookup s q.queues ≡ some sq → IsLive sq
  get-IsLive s sq e = AllVals-lookup (λ s sq. IsLive sq) s q.queues sq live e

  fire-AllLive : (s : String) (id : ℕ) → AllLive (fire s id q)
  unfolding fire
  fire-AllLive s id = elim (Option-cases (lookup s q.queues)) [
    | inl e ↦ rw (e, fire) live
    | inr (sq, e) ↦ elim (Bool-cases (elem id sq.started)) [
      | inr h ↦ simp (e, fire, h) live
      | inl h ↦ elim (Bool-cases (sq.blocked || is_nil sq.buffer)) [
        | inl k ↦ simp (e, fire, h, k) (put-AllLive s (idle_fire id sq) (λ n b. ground arith))
        | inr k ↦ simp (e, fire, h, k) (put-AllLive s (taken id sq) (λ n b. ground arith))
      ]
    ]
  ]

  step-AllLive : (e : Event) → AllLive (step q e)
  unfolding step push block unblock expire
  step-AllLive (pushes s msg) =
      put-AllLive s (push_one msg (queue_or_new (lookup s q.queues)))
        (push_one-IsLive msg (queue_or_new (lookup s q.queues)))
  step-AllLive (blocks s) = elim (Option-cases (lookup s q.queues)) [
    | inl e ↦ rw (e, block) live
    | inr (sq, e) ↦ rw (e, block) (put-AllLive s (block_one sq) (λ n b. ground arith))
  ]
  step-AllLive (unblocks s) = elim (Option-cases (lookup s q.queues)) [
    | inl e ↦ rw (e, unblock) live
    | inr (sq, e) ↦ rw (e, unblock) (put-AllLive s (unblock_one sq) (unblock_one-IsLive sq))
  ]
  step-AllLive (expires s id) = elim (Option-cases (lookup s q.queues)) [
    | inl e ↦ rw (e, expire) live
    | inr (sq, e) ↦
        rw (e, expire)
          (put-AllLive s (expire_one id sq) (expire_one-IsLive id sq (get-IsLive s sq e)))
  ]
  step-AllLive (fires s id) = fire-AllLive s id

run-AllLive : (q : PendingQueue) (es : List Event) → AllLive q → AllLive (run q es)
unfolding run
run-AllLive q [] l = l
run-AllLive q (e ∷ es) l = run-AllLive (step q e) es (step-AllLive q l e)

flush_one :
    (s : String) (id : ℕ) (q : PendingQueue) (sq : ScopeQueue)
    → lookup s q.queues ≡ some sq
    → is_nil sq.buffer ≡ false
    → sq.blocked ≡ false
    → (elem id sq.ticking || elem id sq.started) ≡ true
    → let q' = fire s id (expire s id q) in
      (q'.flushed ≡ q.flushed ++ ((s, sq.buffer) ∷ []))
      × ((queue_or_new (lookup s q'.queues)).buffer ≡ [])
unfolding fire expire elem
flush_one s id q sq e n h a = ground (
  arith,
  lookup-insert_self s (expire_one id sq) q.queues,
  lookup-insert_self s (taken id (expire_one id sq)) (insert s (expire_one id sq) q.queues),
)

-- After any history, a scope that has messages buffered and is not blocked has a timer whose
-- running out hands over the whole buffer.
pub buffered_flushes :
    (es : List Event) (s : String) (sq : ScopeQueue)
    → let q = run new_pending_queue es in
      lookup s q.queues ≡ some sq
      → sq.buffer ≢ []
      → sq.blocked ≡ false
      → (id : ℕ) × (sq.timer ≡ some id)
        × ((fire s id (expire s id q)).flushed ≡ q.flushed ++ ((s, sq.buffer) ∷ []))
        × ((queue_or_new (lookup s (fire s id (expire s id q)).queues)).buffer ≡ [])
unfolding new_pending_queue
buffered_flushes es s sq e n h =
    let full : is_nil sq.buffer ≡ false = ground arith in
    let a : armed sq ≡ true =
      get-IsLive (run new_pending_queue es) (run-AllLive new_pending_queue es tt) s sq e full h in
    elim (Option-cases sq.timer) [
      | inl t ↦ absurd (ground arith)
      | inr (id, t) ↦
          let (out, rest) = flush_one s id (run new_pending_queue es) sq e full h (ground arith) in
          (id, t, out, rest)
    ]
