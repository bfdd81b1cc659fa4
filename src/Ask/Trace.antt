-- ===== src/Ask/Trace.antt =====
-- The life of one ask under any interleaving of the calls that hold the mutex of
-- internal/ask/broker.go, timers and dispatch answers included.
use lark_coding_agent_bridge.Prelude.{
  ℕ, String, ◌≡◌, ◌⊎◌, Bool, Option, none, some, List, [], ◌∷◌, if◌then◌else◌, has, lookup, ℤ,
}
use lark_coding_agent_bridge.Ask.Types.{CreateInput, Result}
use lark_coding_agent_bridge.Ask.Broker.{
  InternalAsk, Broker, Registered, refused, registered, set_dispatcher, register, dispatched,
  toggle, settle, retire,
}

-- One critical section.
pub data Event : Type 0 where
  wires : Event
  registers : CreateInput → String → String → ℕ → Event
  dispatches : String → String ⊎ (String × String) → Event
  toggles : String → String → ℤ → String → Event
  settles : String → Result → Bool → Event
  retires : String → Event

abbrev after : Broker → Registered → Broker
after b (refused e) = b
after b (registered b') = b'

unfoldable pub step : Broker → Event → Broker
step b wires = set_dispatcher b
step b (registers input id nonce now) = after b (register input id nonce now b)
step b (dispatches id reply) = dispatched id reply b
step b (toggles id nonce qi key) = (toggle id nonce qi key b).0
step b (settles id r notify) = (settle id r notify b).0
step b (retires id) = retire id b

unfoldable pub run : Broker → List Event → Broker
run b [] = b
run b (e ∷ es) = run (step b e) es

-- Where an ask stands, once done with the result that the caller gets and the one that the card
-- shows; `gone` is the time after the retention timer has dropped it.
pub data Phase : Type 0 where
  unborn waiting gone : Phase
  done : Result → Option Result → Phase

abbrev pub phase_of : Bool → Option InternalAsk → Phase
phase_of retired none = if retired then gone else unborn
phase_of retired (some ia) =
    if ia.info.settled
    then elim ia.resolve [ none ↦ waiting | some r ↦ done r ia.info.result ]
    else waiting

unfoldable pub phase : String → Broker → Phase
phase id b = phase_of (has id b.retiring) (lookup id b.pending)

-- The specification: an ask is born, waits, is done with one result, and is gone, in this order.
abbrev pub Advance : Phase → Phase → Type 0
Advance unborn unborn = Unit
Advance unborn waiting = Unit
Advance waiting waiting = Unit
Advance waiting (done r s) = s ≡ some r
Advance (done r s) (done t u) = (r ≡ t) × (s ≡ u)
Advance (done r s) gone = Unit
Advance gone gone = Unit
Advance _ _ = ⊥

-- Several of these in a row.
abbrev pub Later : Phase → Phase → Type 0
Later unborn _ = Unit
Later waiting unborn = ⊥
Later waiting _ = Unit
Later (done r s) (done t u) = (r ≡ t) × (s ≡ u)
Later (done r s) gone = Unit
Later (done r s) _ = ⊥
Later gone gone = Unit
Later gone _ = ⊥

-- A registered id was never used before: ids are 16 random bytes.
abbrev pub IsFresh : Broker → Event → Type 0
IsFresh b (registers input id nonce now) = phase id b ≡ unborn
IsFresh b _ = Unit

abbrev pub AllFresh : Broker → List Event → Type 0
AllFresh b [] = Unit {0}
AllFresh b (e ∷ es) = IsFresh b e × AllFresh (step b e) es
