-- ===== src/Ask/Bulk.antt =====
-- The searches and bulk operations of internal/ask/broker.go, which iterate over the map.
use lark_coding_agent_bridge.Prelude.{
  ℕ, ◌≤◌, String, ◌≡◌, refl, ap, ◌∙◌, ◌⊎◌, inl, inr, Bool, true, false, ◌&&◌, not, Option, none,
  some, List, [], ◌∷◌, arith, ◌==◌, eq_iff, if◌then◌else◌, Option-cases, has, Dict, lookup, has_key,
  lookup-insert, AllVals, DistinctKeys, delete-DistinctKeys, insert-DistinctKeys,
}
use lark_coding_agent_bridge.Ask.Trace.{
  Event, wires, registers, dispatches, toggles, settles, retires, step, run,
}
use lark_coding_agent_bridge.Ask.Broker.{
  dispatched, new_broker, set_dispatcher, register, retire, new_ask, InternalAsk, Broker, settle,
  settle_with, settle_ask,
}
use lark_coding_agent_bridge.Ask.Change.{toggle-Edits, settle_cases}
use lark_coding_agent_bridge.Ask.Types.{Result, Pending, invalidated}
use lark_coding_agent_bridge.Ask.Click.{
  is_candidate, invalidate, is_open_in, scope_ids, invalidate_all, invalidate_scope,
  find_freeform_from, find_freeform_by_chat, newer,
}

settle-DistinctKeys :
    (id : String) (r : Result) (n : Bool) (b : Broker)
    → DistinctKeys b.pending
    → DistinctKeys (settle id r n b).0.pending
unfolding settle_with
settle-DistinctKeys id r n b d = elim (settle_cases b id id r n) [
  | inl e ↦ rw e d
  | inr (ia, e, h, q) ↦ rw q (insert-DistinctKeys id (settle_ask ia r) b.pending d)
]

abbrev pub called_off : String → Result
called_off reason = record {
  kind = invalidated;
  answers = [];
  by = "";
  comment = "";
  reason = reason;
}

-- What calling off a scope does to one entry.
abbrev pub called_off_if : Bool → String → Option InternalAsk → Option InternalAsk
called_off_if hit reason none = none
called_off_if hit reason (some ia) =
    if hit && not ia.info.settled then some (settle_ask ia (called_off reason)) else some ia

module _ (reason : String) where
  lookup-invalidate :
      (id j : String) (b : Broker)
      → lookup j (invalidate id reason b).pending
        ≡ called_off_if (id == j) reason (lookup j b.pending)
  unfolding invalidate settle settle_with
  lookup-invalidate id j b = elim (Option-cases (lookup id b.pending)) [
    | inl e ↦ ground (arith, eq_iff id j)
    | inr (ia, e) ↦
        ground
          (arith, lookup-insert id j (settle_ask ia (called_off reason)) b.pending, eq_iff id j)
  ]

  lookup-invalidate_all :
      (ids : List String) (j : String) (b : Broker)
      → lookup j (invalidate_all ids reason b).pending
        ≡ called_off_if (has j ids) reason (lookup j b.pending)
  unfolding invalidate_all has settle_ask
  lookup-invalidate_all [] j b = ground arith
  lookup-invalidate_all (id ∷ ids) j b =
      ground (arith, lookup-invalidate_all ids j (invalidate id reason b), lookup-invalidate id j b)

abbrev pub open_here : String → Option InternalAsk → Bool
open_here scope none = false
open_here scope (some ia) = is_open_in scope ia

has-scope_ids :
    (scope j : String) (m : Dict InternalAsk)
    → DistinctKeys m
    → has j (scope_ids scope m) ≡ open_here scope (lookup j m)
unfolding scope_ids has lookup has_key
has-scope_ids scope j [] d = refl
has-scope_ids scope j ((k, ia) ∷ m) d = ground (arith, has-scope_ids scope j m d.1, eq_iff k j)

pub lookup-invalidate_scope :
    (scope reason j : String) (b : Broker)
    → DistinctKeys b.pending
    → lookup j (invalidate_scope scope reason b).pending
      ≡ called_off_if (open_here scope (lookup j b.pending)) reason (lookup j b.pending)
unfolding invalidate_scope
lookup-invalidate_scope scope reason j b d =
    lookup-invalidate_all reason (scope_ids scope b.pending) j b
    ∙ ap (λ h. called_off_if h reason (lookup j b.pending)) (has-scope_ids scope j b.pending d)

dispatched-DistinctKeys :
    (id : String) (reply : String ⊎ (String × String)) (b : Broker)
    → DistinctKeys b.pending
    → DistinctKeys (dispatched id reply b).pending
unfolding dispatched
dispatched-DistinctKeys id (inl err) b d = settle-DistinctKeys id _ false b d
dispatched-DistinctKeys id (inr (m, c)) b d = elim (Option-cases (lookup id b.pending)) [
  | inl e ↦ ground arith
  | inr (ia, e) ↦ ground (
    arith,
    insert-DistinctKeys id
        (record ia { info = record (ia.info) { card_message_id = m; card_entity_id = c } })
        b.pending d,
  )
]

step-DistinctKeys :
    (b : Broker) (e : Event) → DistinctKeys b.pending → DistinctKeys (step b e).pending
unfolding step set_dispatcher register retire
step-DistinctKeys b wires d = d
step-DistinctKeys b (registers input id nonce now) d =
    ground (arith, insert-DistinctKeys id (new_ask input id nonce now) b.pending d)
step-DistinctKeys b (dispatches id reply) d = dispatched-DistinctKeys id reply b d
step-DistinctKeys b (toggles id nonce qi key) d = elim (toggle-Edits b id id nonce qi key) [
  | inl e ↦ ground arith
  | inr (ia, ia', l, s, r, x, q) ↦ ground (arith, insert-DistinctKeys id ia' b.pending d)
]
step-DistinctKeys b (settles id r n) d = settle-DistinctKeys id r n b d
step-DistinctKeys b (retires id) d = ground (arith, delete-DistinctKeys id b.pending d)

run-DistinctKeys :
    (b : Broker) (es : List Event) → DistinctKeys b.pending → DistinctKeys (run b es).pending
unfolding run
run-DistinctKeys b [] d = d
run-DistinctKeys b (e ∷ es) d = run-DistinctKeys (step b e) es (step-DistinctKeys b e d)

-- After any history of a new broker, calling off a scope settles exactly the open asks of that
-- scope, as invalidated with the given reason, and leaves every other entry as it was.
pub invalidate_scope_exact :
    (es : List Event) (scope reason j : String)
    → let b = run new_broker es in
      lookup j (invalidate_scope scope reason b).pending
      ≡ called_off_if (open_here scope (lookup j b.pending)) reason (lookup j b.pending)
unfolding new_broker
invalidate_scope_exact es scope reason j =
    lookup-invalidate_scope scope reason j (run new_broker es) (run-DistinctKeys new_broker es tt)

-- The entry is a candidate that is not older than any other.
abbrev pub NotOlder : String → ℕ → Dict InternalAsk → Type 0
NotOlder chat t m = AllVals (λ k ia. is_candidate chat ia ≡ true → ia.info.created_at ≤ t) m

abbrev pub Holds : Pending → String → Dict InternalAsk → Type 0
Holds p chat [] = ⊥
Holds p chat ((k, ia) ∷ m) = ((is_candidate chat ia ≡ true) × (ia.info ≡ p)) ⊎ Holds p chat m

abbrev NoNewer : Option Pending → Pending → Type 0
NoNewer none p = Unit {0}
NoNewer (some q) p = q.created_at ≤ p.created_at

abbrev Found : String → Option Pending → Dict InternalAsk → Option Pending → Type 0
Found chat best m none = (best ≡ none) × AllVals (λ k ia. is_candidate chat ia ≡ false) m
Found chat best m (some p) =
    NotOlder chat p.created_at m × NoNewer best p × ((best ≡ some p) ⊎ Holds p chat m)

Found-cons :
    (chat k : String) (ia : InternalAsk) (m : Dict InternalAsk) (best r : Option Pending)
    → Found chat (if is_candidate chat ia then newer best ia.info else best) m r
    → Found chat best ((k, ia) ∷ m) r
Found-cons chat k ia m none none f = ground arith
Found-cons chat k ia m (some q) none f = ground arith
Found-cons chat k ia m none (some p) f = ground arith
Found-cons chat k ia m (some q) (some p) f = ground arith

find-Found :
    (chat : String) (best : Option Pending) (m : Dict InternalAsk)
    → Found chat best m (find_freeform_from best chat m)
unfolding find_freeform_from
find-Found chat none [] = (refl, tt)
find-Found chat (some q) [] = (tt, omega arith, inl refl)
find-Found chat best ((k, ia) ∷ m) =
    Found-cons chat k ia m best _
      (find-Found chat (if is_candidate chat ia then newer best ia.info else best) m)

abbrev pub Newest : String → Dict InternalAsk → Option Pending → Type 0
Newest chat m none = AllVals (λ k ia. is_candidate chat ia ≡ false) m
Newest chat m (some p) = NotOlder chat p.created_at m × Holds p chat m

Newest-Found :
    (chat : String) (m : Dict InternalAsk) (r : Option Pending)
    → Found chat none m r
    → Newest chat m r
Newest-Found chat m none f = f.1
Newest-Found chat m (some p) f = ground arith

-- The search for the ask that a typed reply answers finds nothing exactly when no open freeform ask
-- of the chat is there, and otherwise one of those that none of them is newer than.
pub find_freeform-Newest :
    (chat : String) (b : Broker) → Newest chat b.pending (find_freeform_by_chat chat b)
unfolding find_freeform_by_chat
find_freeform-Newest chat b =
    Newest-Found chat b.pending (find_freeform_from none chat b.pending)
      (find-Found chat none b.pending)
