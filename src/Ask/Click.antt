-- ===== src/Ask/Click.antt =====
-- The clicks and bulk operations of internal/ask/broker.go. Each releases the mutex between its
-- checks and `settle`; here a call runs undisturbed, and Ask/Trace has the interleavings.
use lark_coding_agent_bridge.Prelude.{
  ℕ, ◌+◌, String, inl, inr, Bool, true, false, ◌&&◌, ◌||◌, not, Option, none, some, List, [], ◌∷◌,
  ◌==◌, ltb, if◌then◌else◌, length, replicate, Dict, lookup, trim_space,
}
use lark_coding_agent_bridge.Ask.Types.{
  Opt, Question, Result, answered, invalidated, ClickOutcome, accepted, stale, already_settled,
  need_selection, need_input, Pending,
}
use lark_coding_agent_bridge.Ask.Validate.{option_exists}
use lark_coding_agent_bridge.Ask.Broker.{
  InternalAsk, Broker, settle, find_open, materialize_selections,
}

abbrev pub answer : List (List String) → String → String → Result
answer answers by comment = record {
  kind = answered;
  answers = answers;
  by = by;
  comment = comment;
  reason = "";
}

-- The second half of a click.
unfoldable pub settle_click : String → Result → Broker → Broker × ClickOutcome
settle_click id r b =
    let (b', won) = settle id r true b in (b', if won then accepted else already_settled)

abbrev pub only : List Question → Option Question
only [] = none
only (q ∷ []) = some q
only (q ∷ p ∷ qs) = none

-- The checks of `Select`: the answer at once, or leave to settle.
unfoldable pub select_check : InternalAsk → String → Bool
select_check ia key = elim (only ia.info.questions) [
  | none ↦ false
  | some q ↦ not q.multi_select && option_exists q.options key
]

unfoldable pub select : String → String → String → String → Broker → Broker × ClickOutcome
select id nonce key by b = elim (find_open id nonce b) [
  | inl o ↦ (b, o)
  | inr ia ↦
      if select_check ia key then settle_click id (answer ((key ∷ []) ∷ []) by "") b else (b, stale)
]

abbrev pub is_empty : List String → Bool
is_empty [] = true
is_empty (x ∷ xs) = false

unfoldable pub any_selected : List (List String) → Bool
any_selected [] = false
any_selected (a ∷ more) = not (is_empty a) || any_selected more

unfoldable pub keys_exist : List Opt → List String → Bool
keys_exist os [] = true
keys_exist os (k ∷ ks) = option_exists os k && keys_exist os ks

-- Every answer belongs to a question, and each of its keys to an option of that question.
unfoldable pub answers_exist : List Question → List (List String) → Bool
answers_exist qs [] = true
answers_exist [] (a ∷ more) = false
answers_exist (q ∷ qs) (a ∷ more) = keys_exist q.options a && answers_exist qs more

abbrev pub answers_of : Option (List (List String)) → InternalAsk → List (List String)
answers_of none ia = materialize_selections ia.sets
answers_of (some overrides) ia = overrides

unfoldable pub submit :
    String → String → String → Option (List (List String)) → Broker → Broker × ClickOutcome
submit id nonce by overrides b = elim (find_open id nonce b) [
  | inl o ↦ (b, o)
  | inr ia ↦
      let answers = answers_of overrides ia in
      if not (any_selected answers)
      then (b, need_selection)
      else if not (answers_exist ia.info.questions answers)
      then (b, stale)
      else settle_click id (answer answers by "") b
]

abbrev pub no_answers : InternalAsk → List (List String)
no_answers ia = replicate (length ia.info.questions) []

unfoldable pub submit_input : String → String → String → String → Broker → Broker × ClickOutcome
submit_input id nonce by text b =
    let text = trim_space text in
    if text == "" then (b, need_input) else elim (find_open id nonce b) [
      | inl o ↦ (b, o)
      | inr ia ↦
          if not ia.info.freeform
          then (b, stale)
          else settle_click id (answer (no_answers ia) by text) b
    ]

-- A typed reply carries no nonce.
unfoldable pub submit_comment : String → String → String → Broker → Broker × ClickOutcome
submit_comment id by comment b =
    let comment = trim_space comment in
    if comment == "" then (b, need_selection) else elim (lookup id b.pending) [
      | none ↦ (b, stale)
      | some ia ↦
          if ia.info.settled
          then (b, already_settled)
          else if not ia.info.freeform
          then (b, stale)
          else settle_click id (answer (no_answers ia) by comment) b
    ]

abbrev pub is_candidate : String → InternalAsk → Bool
is_candidate chat_id ia =
    not (ia.info.settled || not ia.info.freeform || not (ia.info.route.chat_id == chat_id))

abbrev pub newer : Option Pending → Pending → Option Pending
newer none p = some p
newer (some best) p = if ltb best.created_at p.created_at then some p else some best

-- The loop over the map, with the best ask so far.
unfoldable pub find_freeform_from : Option Pending → String → Dict InternalAsk → Option Pending
find_freeform_from best chat_id [] = best
find_freeform_from best chat_id ((k, ia) ∷ m) =
    find_freeform_from (if is_candidate chat_id ia then newer best ia.info else best) chat_id m

unfoldable pub find_freeform_by_chat : String → Broker → Option Pending
find_freeform_by_chat chat_id b = find_freeform_from none chat_id b.pending

unfoldable pub invalidate : String → String → Broker → Broker
invalidate id reason b =
    (settle id (record { kind = invalidated; answers = []; by = ""; comment = ""; reason = reason })
      true b).0

abbrev pub is_open_in : String → InternalAsk → Bool
is_open_in scope ia = not ia.info.settled && ia.info.route.scope == scope

unfoldable pub scope_ids : String → Dict InternalAsk → List String
scope_ids scope [] = []
scope_ids scope ((k, ia) ∷ m) =
    let rest = scope_ids scope m in if is_open_in scope ia then k ∷ rest else rest

unfoldable pub invalidate_all : List String → String → Broker → Broker
invalidate_all [] reason b = b
invalidate_all (id ∷ ids) reason b = invalidate_all ids reason (invalidate id reason b)

unfoldable pub invalidate_scope : String → String → Broker → Broker
invalidate_scope scope reason b = invalidate_all (scope_ids scope b.pending) reason b

unfoldable pub pending_count : Dict InternalAsk → ℕ
pending_count [] = 0
pending_count ((k, ia) ∷ m) = (if ia.info.settled then 0 else 1) + pending_count m

unfoldable pub pending_count_for_scope : String → Dict InternalAsk → ℕ
pending_count_for_scope scope [] = 0
pending_count_for_scope scope ((k, ia) ∷ m) =
    (if is_open_in scope ia then 1 else 0) + pending_count_for_scope scope m
