-- ===== src/Ask/Broker.antt =====
-- internal/ask/broker.go: the pending asks and the ways in which one is settled. A definition is
-- what one holder of the mutex does; ids, nonces and the clock are arguments.
use lark_coding_agent_bridge.Prelude.{
  ℕ, zero, suc, ◌+◌, ◌*◌, String, ◌⊎◌, inl, inr, Bool, true, false, ◌&&◌, not, Option, none, some,
  List, [], ◌∷◌, ◌==◌, ltb, if◌then◌else◌, length, get_elem?, set, replicate, has, without, Dict,
  lookup, insert, delete, ℤ, pos, negsuc, concat,
}
use lark_coding_agent_bridge.Ask.Types.{
  Question, CreateInput, Result, invalidated, ClickOutcome, toggled, stale, already_settled,
  Pending, Error, dispatcher_not_wired,
}
use lark_coding_agent_bridge.Ask.Validate.{validate_input, option_exists}

-- `resolve` is the channel of capacity one, `timer` says that the timeout is armed, and a set of
-- selected keys is a list without repetition.
pub record InternalAsk : Type 0 where
  pub info : Pending
  pub resolve : Option Result
  pub timer : Bool
  pub sets : List (List String)

-- `wired` is a dispatcher that is not nil; `retiring` are the ids with a running retention timer;
-- `notified` are the calls of `OnSettle`, newest first.
pub record Broker : Type 0 where
  pub pending : Dict InternalAsk
  pub wired : Bool
  pub retiring : List String
  pub notified : List (Pending × Result)

unfoldable pub new_broker : Broker
new_broker = record { pending = []; wired = false; retiring = []; notified = [] }

unfoldable pub set_dispatcher : Broker → Broker
set_dispatcher b = record b { wired = true }

abbrev pub second : ℕ
second = 1000000000

abbrev pub default_timeout : ℕ
default_timeout = 1800 * second

abbrev pub min_timeout : ℕ
min_timeout = 5 * second

abbrev pub positive_timeout : ℤ → ℕ
positive_timeout (pos zero) = default_timeout
positive_timeout (pos (suc n)) = suc n
positive_timeout (negsuc n) = default_timeout

unfoldable pub clamp_timeout : ℤ → ℕ
clamp_timeout t =
    let timeout = positive_timeout t in if ltb timeout min_timeout then min_timeout else timeout

unfoldable pub materialize_selections : List (List String) → List (List String)
materialize_selections [] = []
materialize_selections (s ∷ ss) = s ∷ materialize_selections ss

unfoldable pub new_ask : CreateInput → String → String → ℕ → InternalAsk
new_ask input id nonce now = record {
  info = record {
    id = id;
    nonce = nonce;
    route = input.route;
    questions = input.questions;
    selections = replicate (length input.questions) [];
    source = input.source;
    freeform = input.freeform;
    created_at = now;
    deadline_at = now + clamp_timeout input.timeout;
    card_message_id = "";
    card_entity_id = "";
    settled = false;
    result = none;
  };
  resolve = none;
  timer = true;
  sets = replicate (length input.questions) [];
}

pub data Registered : Type 0 where
  refused : Error → Registered
  registered : Broker → Registered

-- `Register` up to the call of the dispatcher.
unfoldable pub register : CreateInput → String → String → ℕ → Broker → Registered
register input id nonce now b = elim (validate_input input) [
  | some e ↦ refused e
  | none ↦
      if not b.wired
      then refused dispatcher_not_wired
      else registered (record b { pending = insert id (new_ask input id nonce now) b.pending })
]

-- A send that does not block: a full channel keeps what it holds.
abbrev pub send : Option Result → Result → Option Result
send none r = some r
send (some q) r = some q

unfoldable pub settle_ask : InternalAsk → Result → InternalAsk
settle_ask ia r = record {
  info = record (ia.info) { settled = true; result = some r };
  resolve = send ia.resolve r;
  timer = false;
  sets = ia.sets;
}

-- What `settle` does with an entry that is there and not settled.
unfoldable pub settle_with : String → Result → Bool → Broker → InternalAsk → Broker
settle_with id r notify b ia = record b {
  pending = insert id (settle_ask ia r) b.pending;
  retiring = id ∷ b.retiring;
  notified = if notify && b.wired then ((settle_ask ia r).info, r) ∷ b.notified else b.notified;
}

unfoldable pub settle : String → Result → Bool → Broker → Broker × Bool
settle id r notify b = elim (lookup id b.pending) [
  | none ↦ (b, false)
  | some ia ↦ if ia.info.settled then (b, false) else (settle_with id r notify b ia, true)
]

-- `Register` after the dispatcher has answered: an error settles the ask, a success records the card.
unfoldable pub dispatched : String → String ⊎ (String × String) → Broker → Broker
dispatched id (inl err) b =
    (settle id
      (record {
        kind = invalidated;
        answers = [];
        by = "";
        comment = "";
        reason = concat "card dispatch failed: " err;
      })
      false b).0
dispatched id (inr (message_id, card_id)) b = elim (lookup id b.pending) [
  | none ↦ b
  | some ia ↦ if ia.info.settled then b else record b {
    pending =
        insert id
          (record ia {
            info = record (ia.info) { card_message_id = message_id; card_entity_id = card_id };
          })
          b.pending;
  }
]

-- The retention timer of a settled ask.
unfoldable pub retire : String → Broker → Broker
retire id b = if has id b.retiring then record b { pending = delete id b.pending } else b

unfoldable pub snapshot : String → Broker → Option Pending
snapshot id b = elim (lookup id b.pending) [ none ↦ none | some ia ↦ some ia.info ]

-- The entry that a click with this nonce is about; the answer to a click that is about none.
unfoldable pub find_open : String → String → Broker → ClickOutcome ⊎ InternalAsk
find_open id nonce b = elim (lookup id b.pending) [
  | none ↦ inl stale
  | some ia ↦
      if not (ia.info.nonce == nonce)
      then inl stale
      else if ia.info.settled
      then inl already_settled
      else inr ia
]

abbrev pub flip_key : Question → String → List String → List String
flip_key q key sel =
    if q.multi_select then (if has key sel then without key sel else key ∷ sel) else key ∷ []

-- A question at a Go index, which may be negative or past the end.
abbrev pub question_at : List Question → ℤ → Option Question
question_at qs (pos i) = get_elem? qs i
question_at qs (negsuc i) = none

abbrev pub index_of : ℤ → ℕ
index_of (pos i) = i
index_of (negsuc i) = 0

abbrev pub selected : List (List String) → ℕ → List String
selected sets i = elim (get_elem? sets i) [ none ↦ [] | some s ↦ s ]

unfoldable pub toggle_ask : InternalAsk → ℕ → Question → String → InternalAsk
toggle_ask ia i q key =
    let sets = set ia.sets i (flip_key q key (selected ia.sets i)) in
    record ia { info = record (ia.info) { selections = materialize_selections sets }; sets = sets }

unfoldable pub toggle : String → String → ℤ → String → Broker → Broker × ClickOutcome
toggle id nonce qi key b = elim (find_open id nonce b) [
  | inl o ↦ (b, o)
  | inr ia ↦ elim (question_at ia.info.questions qi) [
    | none ↦ (b, stale)
    | some q ↦ if not (option_exists q.options key) then (b, stale) else (
      record b { pending = insert id (toggle_ask ia (index_of qi) q key) b.pending },
      toggled,
    )
  ]
]
