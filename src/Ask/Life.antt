-- ===== src/Ask/Life.antt =====
-- The specification of one ask's life, met by every interleaving of internal/ask/broker.go.
use lark_coding_agent_bridge.Ask.Types.{Result}
use lark_coding_agent_bridge.Prelude.{
  String, ◌≡◌, refl, ◌∙◌, Bool, true, Option, none, some, List, [], ◌∷◌, arith, lookup, subst, sym,
  ◌==◌, false, Option-cases, ◌||◌, inr, inl, ◌≢◌, has,
}
use lark_coding_agent_bridge.Ask.Broker.{
  InternalAsk, Broker, new_broker, set_dispatcher, settle_ask,
}
use lark_coding_agent_bridge.Ask.Trace.{
  Event, wires, registers, dispatches, toggles, settles, retires, step, run, Phase, unborn, waiting,
  gone, done, phase, phase_of, Advance, Later, IsFresh, AllFresh,
}
use lark_coding_agent_bridge.Ask.Change.{
  Change, same, born, edited, ended, dropped, Changes, CellSound, Consistent, Change-CellSound,
  settle-Changes, toggle-Edits, Edits-Changes, dispatched-Changes, retire-Changes, register-Changes,
}

Advance-refl : (p : Phase) → Advance p p
Advance-refl unborn = tt
Advance-refl waiting = tt
Advance-refl gone = tt
Advance-refl (done r s) = (refl, refl)

dropped_Advance :
    (o : Option InternalAsk) (w : Bool) → w ≡ true → CellSound w o → Advance (phase_of true o) gone
dropped_Advance none w p h = tt
dropped_Advance (some ia) w p h = ground arith

-- The phase depends on these fields alone.
phase_of-edited :
    (w : Bool) (ia ia' : InternalAsk)
    → ia'.info.settled ≡ ia.info.settled
    → ia'.resolve ≡ ia.resolve
    → ia'.info.result ≡ ia.info.result
    → phase_of w (some ia') ≡ phase_of w (some ia)
phase_of-edited w ia ia' r s x = ground (arith, r, s, x)

Change-Advance :
    (timer : Bool) (o o' : Option InternalAsk) (w w' : Bool)
    → Change timer o w o' w'
    → CellSound w o
    → Advance (phase_of w o) (phase_of w' o')
unfolding settle_ask
Change-Advance timer o o' w w' (same p q) h = rw (p, q) (Advance-refl (phase_of w o))
Change-Advance timer o o' w w' (born ia p q r s t u) h = ground arith
Change-Advance timer o o' w w' (edited ia ia' p q r s x t) h =
    rw (p, q)
      (subst (Advance (phase_of w (some ia))) (sym (phase_of-edited w ia ia' r s x))
        (Advance-refl (phase_of w (some ia))))
Change-Advance timer o o' w w' (ended ia r p q s t) h = ground arith
Change-Advance timer o o' w w' (dropped d p q r) h = rw (r, q, p) (dropped_Advance o w p h)

-- The event is the end of an ask's retention timer.
abbrev pub ends_retention : Event → String → Bool
ends_retention (retires id) j = id == j
ends_retention _ j = false

step-Changes :
    (b : Broker) (e : Event) (j : String)
    → IsFresh b e
    → Changes (ends_retention e j) b (step b e) j
unfolding step set_dispatcher
step-Changes b wires j f = same (ground arith) (ground arith)
step-Changes b (registers input id nonce now) j f = register-Changes b id j input nonce now f
step-Changes b (dispatches id reply) j f = dispatched-Changes b id j reply
step-Changes b (toggles id nonce qi key) j f =
    Edits-Changes b id j _ (toggle-Edits b id j nonce qi key)
step-Changes b (settles id r n) j f = settle-Changes b id j r n
step-Changes b (retires id) j f = retire-Changes b id j

step-Consistent : (b : Broker) (e : Event) → IsFresh b e → Consistent b → Consistent (step b e)
step-Consistent b e f c j = Change-CellSound _ _ _ _ _ (step-Changes b e j f) (c j)

-- Whatever one critical section does, every ask of a consistent broker moves by at most one stage
-- of its life (unborn, waiting, done with one result for caller and card, gone) if registered ids
-- are fresh, and the broker stays consistent: what the caller gets is what the card shows.
pub step-Advance :
    (b : Broker) (e : Event)
    → IsFresh b e
    → Consistent b
    → ((j : String) → Advance (phase j b) (phase j (step b e))) × Consistent (step b e)
unfolding phase
step-Advance b e f c =
    (λ j. Change-Advance _ _ _ _ _ (step-Changes b e j f) (c j), step-Consistent b e f c)

Later-Advance : (p q r : Phase) → Advance p q → Later q r → Later p r
Later-Advance unborn q r a l = tt
Later-Advance waiting waiting r a l = l
Later-Advance waiting (done x x') (done y y') a l = tt
Later-Advance waiting (done x x') gone a l = tt
Later-Advance (done x x') (done y y') (done z z') a l = (a.0 ∙ l.0, a.1 ∙ l.1)
Later-Advance (done x x') (done y y') gone a l = tt
Later-Advance (done x x') gone gone a l = tt
Later-Advance gone gone r a l = l
Later-Advance _ _ _ a l = ground arith

Later-refl : (p : Phase) → Later p p
Later-refl unborn = tt
Later-refl waiting = tt
Later-refl gone = tt
Later-refl (done r s) = (refl, refl)

new_broker-Consistent : Consistent new_broker
unfolding new_broker lookup
new_broker-Consistent j = tt

run-Later :
    (b : Broker) (es : List Event) (j : String)
    → AllFresh b es
    → Consistent b
    → Later (phase j b) (phase j (run b es))
unfolding run
run-Later b [] j f c = Later-refl (phase j b)
run-Later b (e ∷ es) j f c =
    Later-Advance _ _ _ ((step-Advance b e f.0 c).0 j)
      (run-Later (step b e) es j f.1 (step-Consistent b e f.0 c))

run-Consistent :
    (b : Broker) (es : List Event) → AllFresh b es → Consistent b → Consistent (run b es)
unfolding run
run-Consistent b [] f c = c
run-Consistent b (e ∷ es) f c = run-Consistent (step b e) es f.1 (step-Consistent b e f.0 c)

-- An entry that is there stays where no retention timer runs out.
Change-stays :
    (o o' : Option InternalAsk) (w w' : Bool) (ia : InternalAsk)
    → Change false o w o' w'
    → o ≡ some ia
    → (ia' : InternalAsk) × (o' ≡ some ia')
Change-stays o o' w w' ia (same p q) h = (ia, p ∙ h)
Change-stays o o' w w' ia (born ib p q r s t u) h = (ib, r)
Change-stays o o' w w' ia (edited ib ib' p q r s x t) h = (ib', q)
Change-stays o o' w w' ia (ended ib r p q s t) h = (settle_ask ib r, s)
Change-stays o o' w w' ia (dropped d p q r) h = absurd (ground (arith, d))

-- The end of the retention timer is among the events.
unfoldable pub retention_ends : List Event → String → Bool
retention_ends [] j = false
retention_ends (e ∷ es) j = ends_retention e j || retention_ends es j

phase-entry :
    (b : Broker) (j : String) (r : Result) (s : Option Result)
    → phase j b ≡ done r s
    → (ia : InternalAsk) × (lookup j b.pending ≡ some ia)
unfolding phase
phase-entry b j r s h = elim (Option-cases (lookup j b.pending)) [
  | inr found ↦ found
  | inl e ↦ absurd (ground (arith, h, e))
]

run-stays :
    (b : Broker) (es : List Event) (j : String) (ia : InternalAsk)
    → AllFresh b es
    → retention_ends es j ≡ false
    → lookup j b.pending ≡ some ia
    → (ia' : InternalAsk) × (lookup j (run b es).pending ≡ some ia')
unfolding run retention_ends
run-stays b [] j ia f n h = (ia, h)
run-stays b (e ∷ es) j ia f n h =
    let timer : ends_retention e j ≡ false = ground (arith, n) in
    let (ia', h') =
      Change-stays _ _ _ _ ia (subst (λ d. Changes d b (step b e) j) timer (step-Changes b e j f.0))
        h in
    run-stays (step b e) es j ia' f.1 (ground (arith, n)) h'

phase_of-gone : (w : Bool) (ia : InternalAsk) → phase_of w (some ia) ≢ gone
phase_of-gone w ia = ground arith

entry_not_gone :
    (b : Broker) (j : String) (ia : InternalAsk) → lookup j b.pending ≡ some ia → phase j b ≢ gone
unfolding phase
entry_not_gone b j ia h = rw h (phase_of-gone (has j b.retiring) ia)

Later-done :
    (r : Result) (s : Option Result) (p q : Phase)
    → p ≡ done r s
    → Later p q
    → q ≢ gone
    → q ≡ done r s
Later-done r s p (done t u) h l n =
    let parts = subst (λ x. Later x (done t u)) h l in rw (parts.0, parts.1) refl
Later-done r s p gone h l n = absurd (n refl)
Later-done r s p waiting h l n = absurd (subst (λ x. Later x waiting) h l)
Later-done r s p unborn h l n = absurd (subst (λ x. Later x unborn) h l)

-- After any history of a new broker in which registered ids are fresh, and whatever happens next,
-- no ask ever goes back a stage: one that has a result keeps exactly that result, both the one its
-- caller gets and the one its card shows, however often clicks, timeouts and invalidations race for
-- it, until it is gone for good; and as long as its retention timer does not run out, it is not gone.
pub settled_once :
    (es fs : List Event) (j : String)
    → AllFresh new_broker es
    → AllFresh (run new_broker es) fs
    → let before = phase j (run new_broker es) in
      let after = phase j (run (run new_broker es) fs) in
      Later before after
      × ((r : Result) (s : Option Result)
          → before ≡ done r s
          → retention_ends fs j ≡ false
          → after ≡ done r s)
settled_once es fs j f g =
    let b = run new_broker es in
    let later = run-Later b fs j g (run-Consistent new_broker es f new_broker-Consistent) in
    (
      later,
      λ r s h n.
          let entry = phase-entry b j r s h in
          let stays = run-stays b fs j entry.0 g n entry.1 in
          Later-done r s _ _ h later (entry_not_gone (run b fs) j stays.0 stays.1),
    )
