-- ===== src/Ask/Change.antt =====
-- What one critical section of internal/ask/broker.go can do to the entry of an id.
use lark_coding_agent_bridge.Prelude.{
  String, ◌≡◌, refl, sym, subst, ◌≢◌, ◌⊎◌, inl, inr, Bool, true, false, Option, none, some, arith,
  ◌==◌, eq_iff, eq_refl, Bool-cases, Option-cases, has, lookup, insert, lookup-insert,
  lookup-insert_self, lookup-delete, ℤ, ℕ,
}
use lark_coding_agent_bridge.Ask.Validate.{validate_input, option_exists}
use lark_coding_agent_bridge.Ask.Trace.{registers, step, unborn, phase}
use lark_coding_agent_bridge.Ask.Types.{Result, ClickOutcome, CreateInput, toggled, Question}
use lark_coding_agent_bridge.Ask.Broker.{
  InternalAsk, Broker, settle, settle_with, settle_ask, find_open, retire, toggle, dispatched,
  toggle_ask, question_at, register, index_of, new_ask,
}

-- The entry of an id, with whether its retention timer was started, before and after; it is dropped only
-- where its retention timer runs out.
pub data Change (timer : Bool) (o : Option InternalAsk) (w : Bool) (o' : Option InternalAsk)
    (w' : Bool) : Type 0 where
  same : o' ≡ o → w' ≡ w → Change timer o w o' w'
  born :
      (ia : InternalAsk)
      → o ≡ none
      → w ≡ false
      → o' ≡ some ia
      → ia.info.settled ≡ false
      → ia.resolve ≡ none
      → w' ≡ w
      → Change timer o w o' w'
  edited :
      (ia ia' : InternalAsk)
      → o ≡ some ia
      → o' ≡ some ia'
      → ia'.info.settled ≡ ia.info.settled
      → ia'.resolve ≡ ia.resolve
      → ia'.info.result ≡ ia.info.result
      → w' ≡ w
      → Change timer o w o' w'
  ended :
      (ia : InternalAsk) (r : Result)
      → o ≡ some ia
      → ia.info.settled ≡ false
      → o' ≡ some (settle_ask ia r)
      → w' ≡ true
      → Change timer o w o' w'
  dropped : timer ≡ true → w ≡ true → o' ≡ none → w' ≡ w → Change timer o w o' w'

abbrev pub Changes : Bool → Broker → Broker → String → Type 0
Changes timer b b' j =
    Change timer (lookup j b.pending) (has j b.retiring) (lookup j b'.pending) (has j b'.retiring)

-- The channel is empty exactly until the ask is settled, then it holds what the card shows, and
-- settled asks are those that retire.
abbrev pub CellSound : Bool → Option InternalAsk → Type 0
CellSound w none = Unit
CellSound w (some ia) =
    (ia.info.settled ≡ w)
    × (w ≡ false → ia.resolve ≡ none)
    × (w ≡ true → ia.resolve ≢ none)
    × (w ≡ true → ia.info.result ≡ ia.resolve)

abbrev pub Consistent : Broker → Type 0
Consistent b = (j : String) → CellSound (has j b.retiring) (lookup j b.pending)

pub Change-CellSound :
    (timer : Bool) (o o' : Option InternalAsk) (w w' : Bool)
    → Change timer o w o' w'
    → CellSound w o
    → CellSound w' o'
unfolding settle_ask
Change-CellSound timer o o' w w' (same p q) h = rw (p, q) h
Change-CellSound timer o o' w w' (born ia p q r s t u) h = rw (r, u, q) (ground arith)
Change-CellSound timer o o' w w' (edited ia ia' p q r s x t) h = rw (q, t) (ground arith)
Change-CellSound timer o o' w w' (ended ia r p q s t) h = rw (s, t) (ground arith)
Change-CellSound timer o o' w w' (dropped d p q r) h = rw q tt

module _ (b : Broker) (id j : String) where
  -- A write to the entry of an id changes no other entry.
  write-Changes :
      (v : InternalAsk) (b' : Broker)
      → b'.pending ≡ insert id v b.pending
      → (id ≡ j
          → Change false (lookup id b.pending) (has id b.retiring) (some v) (has id b'.retiring))
      → (id ≢ j → has j b'.retiring ≡ has j b.retiring)
      → Changes false b b' j
  write-Changes v b' e at_id elsewhere = elim (Bool-cases (id == j)) [
    | inl h ↦
        let q : id ≡ j = (eq_iff id j).0 h in
        let l : lookup id b'.pending ≡ some v = rw e (lookup-insert_self id v b.pending) in
        subst (Changes false b b') q (
          subst (λ o. Change false (lookup id b.pending) (has id b.retiring) o (has id b'.retiring))
            (sym l) (at_id q))
    | inr h ↦
        same (rw e (rw (lookup-insert id j v b.pending) (rw h refl)))
          (elsewhere (λ q. ground (arith, eq_iff id j)))
  ]

  pub settle_cases :
      (r : Result) (n : Bool)
      → (settle id r n b ≡ (b, false))
        ⊎ ((ia : InternalAsk) × (lookup id b.pending ≡ some ia)
            × (ia.info.settled ≡ false)
            × (settle id r n b ≡ (settle_with id r n b ia, true)))
  unfolding settle
  settle_cases r n = elim (Option-cases (lookup id b.pending)) [
    | inl e ↦ inl (ground arith)
    | inr (ia, e) ↦ elim (Bool-cases ia.info.settled) [
      | inl h ↦ inl (ground arith)
      | inr h ↦ inr (ia, e, h, ground arith)
    ]
  ]

  pub settle-Changes : (r : Result) (n : Bool) → Changes false b (settle id r n b).0 j
  unfolding settle_with has
  settle-Changes r n = elim (settle_cases r n) [
    | inl e ↦ rw e (same refl refl)
    | inr (ia, e, h, q) ↦ rw q (
        write-Changes (settle_ask ia r) (settle_with id r n b ia) refl
          (λ _. ended ia r e h refl (ground (arith, eq_refl id)))
          (λ ne. ground (arith, eq_iff id j)))
  ]

  -- The broker is untouched, or one entry is rewritten and stays settled or open as it was.
  abbrev pub Edits : Broker → Type 0
  Edits b' =
      (b' ≡ b)
      ⊎ ((ia ia' : InternalAsk) × (lookup id b.pending ≡ some ia)
          × (ia'.info.settled ≡ ia.info.settled)
          × (ia'.resolve ≡ ia.resolve)
          × (ia'.info.result ≡ ia.info.result)
          × (b' ≡ record b { pending = insert id ia' b.pending }))

  pub Edits-Changes : (b' : Broker) → Edits b' → Changes false b b' j
  Edits-Changes b' (inl e) = rw e (same refl refl)
  Edits-Changes b' (inr (ia, ia', e, s, r, x, q)) = rw q (
      write-Changes ia' (record b { pending = insert id ia' b.pending }) refl
        (λ _. edited ia ia' e refl s r x refl) (λ _. refl))

  pub found_open :
      (nonce : String) (ia : InternalAsk)
      → find_open id nonce b ≡ inr ia
      → (lookup id b.pending ≡ some ia) × (ia.info.settled ≡ false) × (ia.info.nonce ≡ nonce)
  unfolding find_open
  found_open nonce ia h = elim (Option-cases (lookup id b.pending)) [
    | inl e ↦ ground arith
    | inr (ib, e) ↦ ground (arith, eq_iff ib.info.nonce nonce)
  ]

  not_toggled : (nonce : String) (o : ClickOutcome) → find_open id nonce b ≡ inl o → o ≢ toggled
  unfolding find_open
  not_toggled nonce o e = elim (Option-cases (lookup id b.pending)) [
    | inl n ↦ ground arith
    | inr (ia, n) ↦ ground arith
  ]

  -- A toggle is refused, or it flips a key of an open ask.
  pub toggle_cases :
      (nonce : String) (qi : ℤ) (key : String)
      → (((toggle id nonce qi key b).0 ≡ b) × ((toggle id nonce qi key b).1 ≢ toggled))
        ⊎ ((ia : InternalAsk) × (q : Question) × (lookup id b.pending ≡ some ia)
            × (ia.info.settled ≡ false)
            × (question_at ia.info.questions qi ≡ some q)
            × (option_exists q.options key ≡ true)
            × (toggle id nonce qi key b ≡ (
              record b { pending = insert id (toggle_ask ia (index_of qi) q key) b.pending },
              toggled,
            )))
  unfolding toggle
  toggle_cases nonce qi key = go (find_open id nonce b) refl
    where
      go :
          (f : ClickOutcome ⊎ InternalAsk)
          → find_open id nonce b ≡ f
          → (((toggle id nonce qi key b).0 ≡ b) × ((toggle id nonce qi key b).1 ≢ toggled))
            ⊎ ((ia : InternalAsk) × (q : Question) × (lookup id b.pending ≡ some ia)
                × (ia.info.settled ≡ false)
                × (question_at ia.info.questions qi ≡ some q)
                × (option_exists q.options key ≡ true)
                × (toggle id nonce qi key b ≡ (
                  record b { pending = insert id (toggle_ask ia (index_of qi) q key) b.pending },
                  toggled,
                )))
      go (inl o) e = inl (ground arith, ground (arith, not_toggled nonce o e))
      go (inr ia) e = elim (Option-cases (question_at ia.info.questions qi)) [
        | inl m ↦ inl (ground arith, ground arith)
        | inr (q, m) ↦ elim (Bool-cases (option_exists q.options key)) [
          | inl k ↦
              let (l, still, n) = found_open nonce ia e in inr (ia, q, l, still, m, k, ground arith)
          | inr k ↦ inl (ground arith, ground arith)
        ]
      ]

  pub toggle-Edits : (nonce : String) (qi : ℤ) (key : String) → Edits (toggle id nonce qi key b).0
  unfolding toggle_ask
  toggle-Edits nonce qi key = elim (toggle_cases nonce qi key) [
    | inl (e, o) ↦ inl e
    | inr (ia, q, l, still, m, k, e) ↦
        inr (ia, toggle_ask ia (index_of qi) q key, l, refl, refl, refl, ground arith)
  ]

  pub dispatched-Changes :
      (reply : String ⊎ (String × String)) → Changes false b (dispatched id reply b) j
  unfolding dispatched
  dispatched-Changes (inl err) = settle-Changes _ false
  dispatched-Changes (inr (m, c)) = elim (Option-cases (lookup id b.pending)) [
    | inl e ↦ Edits-Changes (dispatched id (inr (m, c)) b) (inl (ground arith))
    | inr (ia, e) ↦ elim (Bool-cases ia.info.settled) [
      | inl h ↦ Edits-Changes (dispatched id (inr (m, c)) b) (inl (ground arith))
      | inr h ↦ Edits-Changes (dispatched id (inr (m, c)) b) (
          inr (
            ia,
            record ia { info = record (ia.info) { card_message_id = m; card_entity_id = c } },
            e,
            refl,
            refl,
            refl,
            ground arith,
          ))
    ]
  ]

  pub retire-Changes : Changes (id == j) b (retire id b) j
  unfolding retire
  retire-Changes = elim (Bool-cases (has id b.retiring)) [
    | inr h ↦ same (ground arith) (ground arith)
    | inl h ↦ elim (Bool-cases (id == j)) [
      | inl q ↦
          dropped q (ground (arith, eq_iff id j)) (ground (arith, lookup-delete id j b.pending))
            (ground arith)
      | inr q ↦ same (ground (arith, lookup-delete id j b.pending)) (ground arith)
    ]
  ]

  pub register-Changes :
      (input : CreateInput) (nonce : String) (now : ℕ)
      → phase id b ≡ unborn
      → Changes false b (step b (registers input id nonce now)) j
  unfolding step register new_ask phase
  register-Changes input nonce now h = elim (Option-cases (validate_input input)) [
    | inr (err, e) ↦ same (ground arith) (ground arith)
    | inl e ↦ elim (Bool-cases b.wired) [
      | inr w ↦ same (ground arith) (ground arith)
      | inl w ↦
          write-Changes (new_ask input id nonce now) (step b (registers input id nonce now))
            (ground arith)
            (λ _.
              born (new_ask input id nonce now) (ground arith) (ground arith) refl refl refl
                (ground arith))
            (λ _. ground arith)
    ]
  ]
