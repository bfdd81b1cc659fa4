-- ===== src/Ask/Outcome.antt =====
-- What the clicks and bulk operations of internal/ask/broker.go answer and change.
use lark_coding_agent_bridge.Prelude.{
  String, ◌≡◌, refl, ◌≢◌, ◌⊎◌, inl, inr, true, false, Option, some, List, [], ◌∷◌, arith, ◌==◌,
  Bool-cases, Option-cases, length, replicate, lookup, trim_space, eq_iff,
}
use lark_coding_agent_bridge.Ask.Types.{Question, Result, answered, ClickOutcome, accepted, Pending}
use lark_coding_agent_bridge.Ask.Broker.{InternalAsk, Broker, settle, settle_with, find_open}
use lark_coding_agent_bridge.Ask.Change.{found_open}
use lark_coding_agent_bridge.Ask.Click.{
  answer, settle_click, select_check, select, any_selected, keys_exist, answers_exist, answers_of,
  submit, no_answers, submit_input, submit_comment,
}

-- The four clicks that can settle an ask.
pub data Click : Type 0 where
  selects : String → String → String → String → Click
  submits : String → String → String → Option (List (List String)) → Click
  inputs : String → String → String → String → Click
  comments : String → String → String → Click

unfoldable pub click : Click → Broker → Broker × ClickOutcome
click (selects id nonce key by) b = select id nonce key by b
click (submits id nonce by overrides) b = submit id nonce by overrides b
click (inputs id nonce by text) b = submit_input id nonce by text b
click (comments id by comment) b = submit_comment id by comment b

abbrev pub ask_of : Click → String
ask_of (selects id nonce key by) = id
ask_of (submits id nonce by overrides) = id
ask_of (inputs id nonce by text) = id
ask_of (comments id by comment) = id

-- A typed reply needs no nonce.
abbrev pub HasNonce : Click → Pending → Type 0
HasNonce (selects id nonce key by) p = p.nonce ≡ nonce
HasNonce (submits id nonce by overrides) p = p.nonce ≡ nonce
HasNonce (inputs id nonce by text) p = p.nonce ≡ nonce
HasNonce (comments id by comment) p = Unit

-- The click is refused and changes nothing, or it settles an open ask with an answer of its own.
abbrev pub Effect : Click → Broker → Broker × ClickOutcome → Type 0
Effect c b out =
    ((out.0 ≡ b) × (out.1 ≢ accepted))
    ⊎ ((ia : InternalAsk) × (r : Result) × (lookup (ask_of c) b.pending ≡ some ia)
        × (ia.info.settled ≡ false)
        × HasNonce c ia.info
        × (r.kind ≡ answered)
        × (answers_exist ia.info.questions r.answers ≡ true)
        × (out ≡ (settle_with (ask_of c) r true b ia, accepted)))

pub settle_click_open :
    (id : String) (r : Result) (b : Broker) (ia : InternalAsk)
    → lookup id b.pending ≡ some ia
    → ia.info.settled ≡ false
    → settle_click id r b ≡ (settle_with id r true b ia, accepted)
unfolding settle_click settle
settle_click_open id r b ia e h = ground arith

no_answers_exist : (qs : List Question) → answers_exist qs (replicate (length qs) []) ≡ true
unfolding answers_exist keys_exist
no_answers_exist [] = refl
no_answers_exist (q ∷ qs) = ground (arith, no_answers_exist qs)

select_answer_exists :
    (ia : InternalAsk) (key : String)
    → select_check ia key ≡ true
    → answers_exist ia.info.questions ((key ∷ []) ∷ []) ≡ true
unfolding select_check answers_exist keys_exist
select_answer_exists ia key h = ground arith

module _ (b : Broker) where
  refused_click :
      (id nonce : String) (o : ClickOutcome) → find_open id nonce b ≡ inl o → o ≢ accepted
  unfolding find_open
  refused_click id nonce o e = elim (Option-cases (lookup id b.pending)) [
    | inl n ↦ ground arith
    | inr (ia, n) ↦ ground arith
  ]

  select-Effect :
      (id nonce key by : String) → Effect (selects id nonce key by) b (select id nonce key by b)
  unfolding select
  select-Effect id nonce key by = go (find_open id nonce b) refl
    where
      go :
          (f : ClickOutcome ⊎ InternalAsk)
          → find_open id nonce b ≡ f
          → Effect (selects id nonce key by) b (select id nonce key by b)
      go (inl o) e = inl (ground arith, ground (arith, refused_click id nonce o e))
      go (inr ia) e = elim (Bool-cases (select_check ia key)) [
        | inr h ↦ inl (ground arith, ground arith)
        | inl h ↦
            let (l, still, n) = found_open b id id nonce ia e in
            inr (
              ia,
              answer ((key ∷ []) ∷ []) by "",
              l,
              still,
              n,
              refl,
              select_answer_exists ia key h,
              ground (arith, settle_click_open id (answer ((key ∷ []) ∷ []) by "") b ia l still),
            )
      ]

  submit-Effect :
      (id nonce by : String) (overrides : Option (List (List String)))
      → Effect (submits id nonce by overrides) b (submit id nonce by overrides b)
  unfolding submit
  submit-Effect id nonce by overrides = go (find_open id nonce b) refl
    where
      go :
          (f : ClickOutcome ⊎ InternalAsk)
          → find_open id nonce b ≡ f
          → Effect (submits id nonce by overrides) b (submit id nonce by overrides b)
      go (inl o) e = inl (ground arith, ground (arith, refused_click id nonce o e))
      go (inr ia) e =
          let as_given = answers_of overrides ia in
          elim (Bool-cases (any_selected as_given)) [
            | inr h ↦ inl (ground arith, ground arith)
            | inl s ↦ elim (Bool-cases (answers_exist ia.info.questions as_given)) [
              | inr h ↦ inl (ground arith, ground arith)
              | inl h ↦
                  let (l, still, n) = found_open b id id nonce ia e in
                  inr (
                    ia,
                    answer as_given by "",
                    l,
                    still,
                    n,
                    refl,
                    h,
                    ground (arith, settle_click_open id (answer as_given by "") b ia l still),
                  )
            ]
          ]

  submit_input-Effect :
      (id nonce by text : String)
      → Effect (inputs id nonce by text) b (submit_input id nonce by text b)
  unfolding submit_input
  submit_input-Effect id nonce by text = elim (Bool-cases (trim_space text == "")) [
    | inl t ↦ inl (ground arith, ground arith)
    | inr t ↦ go t (find_open id nonce b) refl
  ]
    where
      go :
          ((trim_space text == "") ≡ false)
          → (f : ClickOutcome ⊎ InternalAsk) → find_open id nonce b ≡ f
          → Effect (inputs id nonce by text) b (submit_input id nonce by text b)
      go t (inl o) e = inl (ground arith, ground (arith, refused_click id nonce o e))
      go t (inr ia) e = elim (Bool-cases ia.info.freeform) [
        | inr h ↦ inl (ground arith, ground arith)
        | inl h ↦
            let (l, still, n) = found_open b id id nonce ia e in
            let r : Result = answer (no_answers ia) by (trim_space text) in
            inr (
              ia,
              r,
              l,
              still,
              n,
              refl,
              no_answers_exist ia.info.questions,
              ground (arith, settle_click_open id r b ia l still),
            )
      ]

  submit_comment-Effect :
      (id by comment : String) → Effect (comments id by comment) b (submit_comment id by comment b)
  unfolding submit_comment
  submit_comment-Effect id by comment = elim (Bool-cases (trim_space comment == "")) [
    | inl t ↦ inl (ground arith, ground arith)
    | inr t ↦ elim (Option-cases (lookup id b.pending)) [
      | inl n ↦ inl (ground arith, ground arith)
      | inr (ia, l) ↦ elim (Bool-cases ia.info.settled) [
        | inl h ↦ inl (ground arith, ground arith)
        | inr still ↦ elim (Bool-cases ia.info.freeform) [
          | inr h ↦ inl (ground arith, ground arith)
          | inl h ↦
              let r : Result = answer (no_answers ia) by (trim_space comment) in
              inr (
                ia,
                r,
                l,
                still,
                tt,
                refl,
                no_answers_exist ia.info.questions,
                ground (arith, settle_click_open id r b ia l still),
              )
        ]
      ]
    ]
  ]

-- Every click that can settle an ask is refused and changes nothing, or finds the ask open under
-- the nonce it carries (a typed reply carries none) and settles it with an answer whose keys are
-- all options of the questions that they answer.
pub click-Effect : (c : Click) (b : Broker) → Effect c b (click c b)
unfolding click
click-Effect (selects id nonce key by) b = select-Effect b id nonce key by
click-Effect (submits id nonce by overrides) b = submit-Effect b id nonce by overrides
click-Effect (inputs id nonce by text) b = submit_input-Effect b id nonce by text
click-Effect (comments id by comment) b = submit_comment-Effect b id by comment

pub find_open-some :
    (id nonce : String) (b : Broker) (ia : InternalAsk)
    → lookup id b.pending ≡ some ia
    → ia.info.settled ≡ false
    → ia.info.nonce ≡ nonce
    → find_open id nonce b ≡ inr ia
unfolding find_open
find_open-some id nonce b ia e h n = ground (arith, eq_iff ia.info.nonce nonce)
