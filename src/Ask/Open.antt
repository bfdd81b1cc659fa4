-- ===== src/Ask/Open.antt =====
-- What an open ask of internal/ask/broker.go accepts.
use lark_coding_agent_bridge.Prelude.{
  String, ◌≡◌, refl, ◌≢◌, ◌⊎◌, inl, inr, true, false, Option, some, List, [], ◌∷◌, arith, none, All,
  lookup, trim_space, eq_iff,
}
use lark_coding_agent_bridge.Ask.Validate.{option_exists}
use lark_coding_agent_bridge.Ask.Types.{Opt, Question, Result, accepted}
use lark_coding_agent_bridge.Ask.Broker.{InternalAsk, Broker, materialize_selections}
use lark_coding_agent_bridge.Ask.Click.{
  answer, select_check, select, any_selected, keys_exist, answers_exist, answers_of, submit,
  no_answers, submit_input, submit_comment,
}
use lark_coding_agent_bridge.Ask.Outcome.{find_open-some, settle_click_open}

-- One of the options has the key.
abbrev pub HasOption : String → List Opt → Type 0
HasOption key [] = ⊥
HasOption key (o ∷ os) = (o.key ≡ key) ⊎ HasOption key os

-- Some question has an answer.
abbrev pub AnySelected : List (List String) → Type 0
AnySelected [] = ⊥
AnySelected (a ∷ more) = (a ≢ []) ⊎ AnySelected more

-- Every answer has a question, of whose options it names the keys.
abbrev pub Fits : List Question → List (List String) → Type 0
Fits qs [] = Unit
Fits [] (a ∷ more) = ⊥
Fits (q ∷ qs) (a ∷ more) = All (λ key. HasOption key q.options) a × Fits qs more

-- The answers of a submit: the given ones, or those selected on the card.
abbrev pub Submits : Option (List (List String)) → InternalAsk → List (List String) → Type 0
Submits overrides ia answers =
    (overrides ≡ some answers) ⊎ ((overrides ≡ none) × (materialize_selections ia.sets ≡ answers))

HasOption-option_exists :
    (key : String) (os : List Opt) → HasOption key os → option_exists os key ≡ true
unfolding option_exists
HasOption-option_exists key [] h = absurd h
HasOption-option_exists key (o ∷ os) (inl e) = ground (arith, e, eq_iff o.key key)
HasOption-option_exists key (o ∷ os) (inr h) = ground (arith, HasOption-option_exists key os h)

AnySelected-any_selected :
    (answers : List (List String)) → AnySelected answers → any_selected answers ≡ true
unfolding any_selected
AnySelected-any_selected [] h = absurd h
AnySelected-any_selected ([] ∷ more) (inl e) = absurd (e refl)
AnySelected-any_selected ((x ∷ xs) ∷ more) (inl e) = refl
AnySelected-any_selected (a ∷ more) (inr h) = ground (arith, AnySelected-any_selected more h)

All-keys_exist :
    (os : List Opt) (keys : List String)
    → All (λ key. HasOption key os) keys
    → keys_exist os keys ≡ true
unfolding keys_exist
All-keys_exist os [] h = refl
All-keys_exist os (key ∷ keys) h =
    rw (HasOption-option_exists key os h.0) (All-keys_exist os keys h.1)

Fits-answers_exist :
    (qs : List Question) (answers : List (List String))
    → Fits qs answers
    → answers_exist qs answers ≡ true
unfolding answers_exist
Fits-answers_exist qs [] h = refl
Fits-answers_exist [] (a ∷ more) h = absurd h
Fits-answers_exist (q ∷ qs) (a ∷ more) h =
    rw (All-keys_exist q.options a h.0) (Fits-answers_exist qs more h.1)

answers_of-Submits :
    (overrides : Option (List (List String))) (ia : InternalAsk) (answers : List (List String))
    → Submits overrides ia answers
    → answers_of overrides ia ≡ answers
answers_of-Submits overrides ia answers (inl e) = rw e refl
answers_of-Submits overrides ia answers (inr (e, m)) = rw e m

select_check-true :
    (ia : InternalAsk) (q : Question) (key : String)
    → ia.info.questions ≡ q ∷ []
    → q.multi_select ≡ false
    → HasOption key q.options
    → select_check ia key ≡ true
unfolding select_check
select_check-true ia q key e m h = ground (arith, e, m, HasOption-option_exists key q.options h)

-- An open ask does accept. Under its nonce: a select of a key of an option, if it has a single question
-- that takes a single option; a submit, if some of its answers is not empty and each is of keys of the
-- options of its question, where the answers are those given or else those selected on the card; and, if
-- it is freeform, a text that is not blank. Such a text is accepted without the nonce as well.
pub open_accepts :
    (id nonce by key text : String) (overrides : Option (List (List String))) (b : Broker)
    (ia : InternalAsk)
    → lookup id b.pending ≡ some ia
    → ia.info.settled ≡ false
    → ia.info.nonce ≡ nonce
    → ((q : Question)
        → ia.info.questions ≡ q ∷ []
        → q.multi_select ≡ false
        → HasOption key q.options
        → (select id nonce key by b).1 ≡ accepted)
      × ((answers : List (List String))
          → Submits overrides ia answers
          → AnySelected answers
          → Fits ia.info.questions answers
          → (submit id nonce by overrides b).1 ≡ accepted)
      × (ia.info.freeform ≡ true
          → trim_space text ≢ ""
          → ((submit_input id nonce by text b).1 ≡ accepted)
            × ((submit_comment id by text b).1 ≡ accepted))
unfolding select submit submit_input submit_comment
open_accepts id nonce by key text overrides b ia e h n =
    let f = find_open-some id nonce b ia e h n in
    let r₁ : Result = answer ((key ∷ []) ∷ []) by "" in
    let r₂ : Result = answer (answers_of overrides ia) by "" in
    let r₃ : Result = answer (no_answers ia) by (trim_space text) in
    (
      (λ q one m k.
          let c = select_check-true ia q key one m k in
          ground (arith, c, f, settle_click_open id r₁ b ia e h)),
      (λ answers g a k.
          let t = answers_of-Submits overrides ia answers g in
          let s : any_selected (answers_of overrides ia) ≡ true =
            rw t (AnySelected-any_selected answers a) in
          let x : answers_exist ia.info.questions (answers_of overrides ia) ≡ true =
            rw t (Fits-answers_exist ia.info.questions answers k) in
          ground (arith, s, x, f, settle_click_open id r₂ b ia e h)),
      λ w t. (
        ground (arith, settle_click_open id r₃ b ia e h, eq_iff (trim_space text) ""),
        ground (arith, settle_click_open id r₃ b ia e h, eq_iff (trim_space text) ""),
      ),
    )
