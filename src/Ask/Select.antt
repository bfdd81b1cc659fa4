-- ===== src/Ask/Select.antt =====
-- The selections that `Toggle` of internal/ask/broker.go accumulates.
use lark_coding_agent_bridge.Ask.Trace.{
  wires, registers, dispatches, toggles, settles, retires, Event, run, step,
}
use lark_coding_agent_bridge.Ask.Change.{settle_cases, toggle_cases}
use lark_coding_agent_bridge.Prelude.{
  ℕ, zero, suc, ◌≤◌, String, ◌≡◌, refl, ap, true, false, some, List, [], ◌∷◌, arith, length,
  get_elem?, set, replicate, without, AllVals, lookup, AllVals-lookup, ℤ, insert, ◌⊎◌, inl,
  AllVals-insert, inr, Bool, Option-cases, Bool-cases, has, AllVals-delete, if◌then◌else◌, ◌==◌,
  pos, negsuc, not, has-without, has-without_self, eq_iff, lookup-insert_self,
}
use lark_coding_agent_bridge.Ask.Types.{Opt, Question, Result, toggled, CreateInput}
use lark_coding_agent_bridge.Ask.Validate.{option_exists, validate_input}
use lark_coding_agent_bridge.Ask.Click.{keys_exist}
use lark_coding_agent_bridge.Ask.Broker.{
  InternalAsk, flip_key, selected, materialize_selections, Broker, toggle, settle_with, dispatched,
  settle_ask, settle, question_at, toggle_ask, new_broker, retire, index_of, set_dispatcher,
  register, new_ask,
}

-- Question by question: every selected key is an option, and a question with one choice has at most
-- one key selected.
abbrev pub Picks : List Question → List (List String) → Type 0
Picks [] [] = Unit
Picks (q ∷ qs) (s ∷ ss) =
    (keys_exist q.options s ≡ true) × (q.multi_select ≡ false → length s ≤ 1) × Picks qs ss
Picks _ _ = ⊥

-- The selections are legal, and what the card shows is what the sets hold.
abbrev pub IsShown : InternalAsk → Type 0
IsShown ia = Picks ia.info.questions ia.sets × (ia.info.selections ≡ ia.sets)

materialize_lem : (ss : List (List String)) → materialize_selections ss ≡ ss
unfolding materialize_selections
materialize_lem [] = refl
materialize_lem (s ∷ ss) = ap (◌∷◌ s) (materialize_lem ss)

keys_exist-without :
    (os : List Opt) (k : String) (ks : List String)
    → keys_exist os ks ≡ true
    → keys_exist os (without k ks) ≡ true
unfolding keys_exist without
keys_exist-without os k [] h = refl
keys_exist-without os k (x ∷ ks) h = ground (arith, keys_exist-without os k ks)

Picks-replicate : (qs : List Question) → Picks qs (replicate (length qs) [])
unfolding keys_exist
Picks-replicate [] = tt
Picks-replicate (q ∷ qs) = (refl, λ h. omega arith, Picks-replicate qs)

Picks-flip :
    (qs : List Question) (ss : List (List String)) (i : ℕ) (q : Question) (key : String)
    → get_elem? qs i ≡ some q
    → option_exists q.options key ≡ true
    → Picks qs ss
    → Picks qs (set ss i (flip_key q key (selected ss i)))
unfolding keys_exist
Picks-flip [] [] i q key e h p = tt
Picks-flip (r ∷ qs) (s ∷ ss) zero q key e h p = ground (arith, keys_exist-without q.options key s)
Picks-flip (r ∷ qs) (s ∷ ss) (suc i) q key e h p = (p.0, p.1, Picks-flip qs ss i q key e h p.2)
Picks-flip [] (s ∷ ss) i q key e h p = absurd p
Picks-flip (r ∷ qs) [] i q key e h p = absurd p

question_at-get :
    (qs : List Question) (qi : ℤ) (q : Question)
    → question_at qs qi ≡ some q
    → get_elem? qs (index_of qi) ≡ some q
question_at-get qs (pos i) q e = e
question_at-get qs (negsuc i) q e = cc

abbrev pub AllShown : Broker → Type 0
AllShown b = AllVals (λ k ia. IsShown ia) b.pending

module _ (b : Broker) (shown : AllShown b) where
  write-IsShown :
      (id : String) (ia : InternalAsk)
      → IsShown ia
      → AllVals (λ k ia. IsShown ia) (insert id ia b.pending)
  write-IsShown id ia h = AllVals-insert (λ k ia. IsShown ia) id ia b.pending h shown

  read-IsShown : (id : String) (ia : InternalAsk) → lookup id b.pending ≡ some ia → IsShown ia
  read-IsShown id ia e = AllVals-lookup (λ k ia. IsShown ia) id b.pending ia shown e

  settle-AllShown : (id : String) (r : Result) (n : Bool) → AllShown (settle id r n b).0
  unfolding settle_with settle_ask
  settle-AllShown id r n = elim (settle_cases b id id r n) [
    | inl e ↦ rw e shown
    | inr (ia, e, h, q) ↦ rw q (write-IsShown id (settle_ask ia r) (read-IsShown id ia e))
  ]

  dispatched-AllShown :
      (id : String) (reply : String ⊎ (String × String)) → AllShown (dispatched id reply b)
  unfolding dispatched
  dispatched-AllShown id (inl err) = settle-AllShown id _ false
  dispatched-AllShown id (inr (m, c)) = elim (Option-cases (lookup id b.pending)) [
    | inl e ↦ rw (e, dispatched) shown
    | inr (ia, e) ↦ elim (Bool-cases ia.info.settled) [
      | inl h ↦ simp (e, dispatched, h) shown
      | inr h ↦
          let ia' : InternalAsk = record ia {
            info = record (ia.info) { card_message_id = m; card_entity_id = c };
          } in
          let q : dispatched id (inr (m, c)) b ≡ record b { pending = insert id ia' b.pending } =
            ground arith in
          rw q (write-IsShown id ia' (read-IsShown id ia e))
    ]
  ]

  register-AllShown :
      (input : CreateInput) (id nonce : String) (now : ℕ)
      → AllShown (step b (registers input id nonce now))
  unfolding step register new_ask
  register-AllShown input id nonce now = elim (Option-cases (validate_input input)) [
    | inr (err, e) ↦ ground arith
    | inl e ↦ elim (Bool-cases b.wired) [
      | inr w ↦ ground arith
      | inl w ↦ ground (
        arith,
        write-IsShown id (new_ask input id nonce now) (Picks-replicate input.questions, refl),
      )
    ]
  ]

  retire-AllShown : (id : String) → AllShown (retire id b)
  unfolding retire
  retire-AllShown id = elim (Bool-cases (has id b.retiring)) [
    | inl h ↦ rw (h, retire) (AllVals-delete (λ k ia. IsShown ia) id b.pending shown)
    | inr h ↦ rw (h, retire) shown
  ]

  toggle-AllShown :
      (id nonce : String) (qi : ℤ) (key : String) → AllShown (toggle id nonce qi key b).0
  unfolding toggle_ask
  toggle-AllShown id nonce qi key = elim (toggle_cases b id id nonce qi key) [
    | inl (e, o) ↦ rw e shown
    | inr (ia, q, l, still, m, k, e) ↦ rw e (
        write-IsShown id (toggle_ask ia (index_of qi) q key) (
          Picks-flip ia.info.questions ia.sets (index_of qi) q key
              (question_at-get ia.info.questions qi q m) k (read-IsShown id ia l).0,
          materialize_lem _,
        ))
  ]

step-AllShown : (b : Broker) (e : Event) → AllShown b → AllShown (step b e)
unfolding step set_dispatcher
step-AllShown b wires s = s
step-AllShown b (registers input id nonce now) s = register-AllShown b s input id nonce now
step-AllShown b (dispatches id reply) s = dispatched-AllShown b s id reply
step-AllShown b (toggles id nonce qi key) s = toggle-AllShown b s id nonce qi key
step-AllShown b (settles id r n) s = settle-AllShown b s id r n
step-AllShown b (retires id) s = retire-AllShown b s id

run-AllShown : (b : Broker) (es : List Event) → AllShown b → AllShown (run b es)
unfolding run
run-AllShown b [] s = s
run-AllShown b (e ∷ es) s = run-AllShown (step b e) es (step-AllShown b e s)

-- After any history of a new broker, every entry holds legal selections (each selected key is an
-- option of its question, and at most one is selected where one is allowed), and its card shows
-- exactly these.
pub selections_legal :
    (es : List Event) (id : String) (ia : InternalAsk)
    → lookup id (run new_broker es).pending ≡ some ia
    → IsShown ia
unfolding new_broker
selections_legal es id ia e =
    AllVals-lookup (λ k ia. IsShown ia) id (run new_broker es).pending ia
      (run-AllShown new_broker es tt) e

has-flip :
    (q : Question) (key j : String) (s : List String)
    → q.multi_select ≡ true
    → has j (flip_key q key s) ≡ (if key == j then not (has key s) else has j s)
unfolding has
has-flip q key j s h = ground (arith, has-without j key s, has-without_self key s, eq_iff key j)

-- A toggle that is taken flips the key in the selection of its question, where several are allowed,
-- and otherwise makes it the only selected key.
pub toggle_flips :
    (b : Broker) (id nonce : String) (qi : ℤ) (key : String)
    → (toggle id nonce qi key b).1 ≡ toggled
    → (ia ia' : InternalAsk) × (q : Question) × (lookup id b.pending ≡ some ia)
      × (lookup id (toggle id nonce qi key b).0.pending ≡ some ia')
      × (question_at ia.info.questions qi ≡ some q)
      × (ia'.sets ≡ set ia.sets (index_of qi) (flip_key q key (selected ia.sets (index_of qi))))
      × (q.multi_select ≡ false → flip_key q key (selected ia.sets (index_of qi)) ≡ key ∷ [])
      × (q.multi_select ≡ true
          → (j : String)
          → has j (flip_key q key (selected ia.sets (index_of qi))) ≡ (
              if key == j
              then not (has key (selected ia.sets (index_of qi)))
              else has j (selected ia.sets (index_of qi))))
unfolding toggle_ask
toggle_flips b id nonce qi key h = elim (toggle_cases b id id nonce qi key) [
  | inl (e, o) ↦ absurd (o h)
  | inr (ia, q, l, still, m, k, e) ↦ (
    ia,
    toggle_ask ia (index_of qi) q key,
    q,
    l,
    rw e (lookup-insert_self id (toggle_ask ia (index_of qi) q key) b.pending),
    m,
    refl,
    λ one. ground arith,
    λ multi j. has-flip q key j (selected ia.sets (index_of qi)) multi,
  )
]
