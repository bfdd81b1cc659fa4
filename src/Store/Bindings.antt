-- ===== src/Store/Bindings.antt =====
-- internal/state/bindings.go: which chat owns an agent session.
use mathlib.Core.Option.{some_inj}
use lark_coding_agent_bridge.Prelude.{
  ℕ, String, ◌≡◌, refl, sym, ap, ◌∙◌, ◌≢◌, ◌↔◌, ◌⊎◌, inl, inr, Bool, true, false, ◌&&◌, ◌||◌, not,
  Option, none, some, List, [], ◌∷◌, arith, ◌==◌, eq_iff, if◌then◌else◌, Bool-cases, Option-cases,
  Dict, lookup, insert, delete, keep, lookup-keep, DistinctKeys, lookup-insert, lookup-insert_self,
  concat,
}

pub record Binding : Type 0 where
  pub scope : String
  pub chat_id : String
  pub chat_type : String
  pub bound_at : ℕ

pub record BindingStore : Type 0 where
  pub by_session : Dict Binding
  pub dirty : Bool
  pub file : Dict Binding

unfoldable pub load_bindings : Option (Dict Binding) → BindingStore
load_bindings none = record { by_session = []; dirty = false; file = [] }
load_bindings (some m) = record { by_session = m; dirty = false; file = m }

-- The agent kind is its text.
unfoldable pub session_key : String → String → String
session_key kind session_id = concat kind (concat ":" session_id)

abbrev pub points_at : String → Binding → Bool
points_at scope b = b.scope == scope

unfoldable pub any_scope : String → Dict Binding → Bool
any_scope scope [] = false
any_scope scope ((k, b) ∷ m) = points_at scope b || any_scope scope m

unfoldable pub has_scope : String → BindingStore → Bool
has_scope scope s = any_scope scope s.by_session

unfoldable pub get_binding : String → BindingStore → Option Binding
get_binding key s = lookup key s.by_session

unfoldable pub first_at : String → Dict Binding → Option (String × Binding)
first_at scope [] = none
first_at scope ((k, b) ∷ m) = if points_at scope b then some (k, b) else first_at scope m

unfoldable pub get_by_scope : String → BindingStore → Option (String × Binding)
get_by_scope scope s = first_at scope s.by_session

unfoldable pub set_binding : ℕ → String → Binding → BindingStore → BindingStore
set_binding now key b s = record s {
  by_session = insert key (record b { bound_at = now }) s.by_session;
  dirty = true;
}

-- The entry is there already.
abbrev pub refresh : ℕ → String → Binding → Binding → BindingStore → BindingStore × Bool
refresh now key b existing s =
    if existing.scope == b.scope && existing.chat_id == b.chat_id
    then (
      if not (b.chat_type == "") && not (existing.chat_type == b.chat_type)
          then record s {
            by_session =
                insert key (record existing { chat_type = b.chat_type; bound_at = now })
                  s.by_session;
            dirty = true;
          }
          else s,
      true,
    )
    else (s, false)

unfoldable pub set_if_absent : ℕ → String → Binding → BindingStore → BindingStore × Bool
set_if_absent now key b s = elim (lookup key s.by_session) [
  | some existing ↦ refresh now key b existing s
  | none ↦ (set_binding now key b s, true)
]

unfoldable pub keys_at : String → Dict Binding → List String
keys_at scope [] = []
keys_at scope ((k, b) ∷ m) =
    let rest = keys_at scope m in if points_at scope b then k ∷ rest else rest

unfoldable pub delete_by_scope : String → BindingStore → BindingStore × List String
delete_by_scope scope s = (
  record s {
    by_session = keep (λ k b. not (points_at scope b)) s.by_session;
    dirty = s.dirty || any_scope scope s.by_session;
  },
  keys_at scope s.by_session,
)

unfoldable pub delete_binding : String → BindingStore → BindingStore
delete_binding key s = record s { by_session = delete key s.by_session; dirty = true }

unfoldable pub flush_bindings : Bool → BindingStore → BindingStore × Bool
flush_bindings written s =
    if not s.dirty
    then (s, true)
    else if written
    then (record s { dirty = false; file = s.by_session }, true)
    else (s, false)

differ-somewhere :
    (x b : Binding)
    → x.scope == b.scope && x.chat_id == b.chat_id ≡ false
    → (x.scope ≢ b.scope) ⊎ (x.chat_id ≢ b.chat_id)
differ-somewhere x b h = elim (Bool-cases (x.scope == b.scope)) [
  | inl e ↦ inr (λ q. absurd (ground (arith, h, e, eq_iff x.chat_id b.chat_id)))
  | inr e ↦ inl (λ q. absurd (ground (arith, e, eq_iff x.scope b.scope)))
]

same-agrees :
    (x b y : Binding)
    → x.scope == b.scope && x.chat_id == b.chat_id ≡ true
    → some x ≡ some y
    → (y.scope ≢ b.scope) ⊎ (y.chat_id ≢ b.chat_id)
    → ⊥
same-agrees x b y h q (inl n) =
    n (ap (λ o. o.scope) (sym (some_inj.0 q)) ∙ ground (arith, h, eq_iff x.scope b.scope))
same-agrees x b y h q (inr n) =
    n (ap (λ o. o.chat_id) (sym (some_inj.0 q)) ∙ ground (arith, h, eq_iff x.chat_id b.chat_id))

-- An automatic link never steals a session: it is refused exactly if the session is bound to another
-- scope or chat, then nothing changes, and otherwise the session is bound to the given scope and chat.
-- No other session is touched.
pub set_if_absent_keeps :
    (now : ℕ) (key other : String) (b : Binding) (s : BindingStore)
    → let (s', taken) = set_if_absent now key b s in
      ((taken ≡ false) ↔ (
        (e : Binding) × (get_binding key s ≡ some e)
        × ((e.scope ≢ b.scope) ⊎ (e.chat_id ≢ b.chat_id))))
      × (taken ≡ false → s' ≡ s)
      × (taken ≡ true
          → (e : Binding) × (get_binding key s' ≡ some e)
            × (e.scope ≡ b.scope)
            × (e.chat_id ≡ b.chat_id))
      × (key ≢ other → get_binding other s' ≡ get_binding other s)
unfolding set_if_absent get_binding set_binding
set_if_absent_keeps now key other b s = elim (Option-cases (lookup key s.by_session)) [
  | inl e ↦ (
    (λ h. absurd (ground arith), λ w. absurd (ground arith)),
    λ h. absurd (ground arith),
    λ h. (
      record b { bound_at = now },
      ground (arith, lookup-insert_self key (record b { bound_at = now }) s.by_session),
      refl,
      refl,
    ),
    λ h. ground (
      arith,
      eq_iff key other,
      lookup-insert key other (record b { bound_at = now }) s.by_session,
    ),
  )
  | inr (old, e) ↦ elim (Bool-cases (old.scope == b.scope && old.chat_id == b.chat_id)) [
    | inl same ↦ elim (Bool-cases (not (b.chat_type == "") && not (old.chat_type == b.chat_type))) [
      | inl fresh ↦
          let next = record old { chat_type = b.chat_type; bound_at = now } in
          (
            (
              λ h. absurd (ground (arith, e, same, fresh)),
              λ w. absurd (same-agrees old b w.0 same (sym e ∙ w.1) w.2),
            ),
            λ h. absurd (ground (arith, e, same, fresh)),
            λ h. (
              next,
              ground (arith, e, same, fresh, lookup-insert_self key next s.by_session),
              ground (arith, same, eq_iff old.scope b.scope),
              ground (arith, same, eq_iff old.chat_id b.chat_id),
            ),
            λ h. ground (arith, eq_iff key other, lookup-insert key other next s.by_session),
          )
      | inr stale ↦ (
        (
          λ h. absurd (ground (arith, e, same, stale)),
          λ w. absurd (same-agrees old b w.0 same (sym e ∙ w.1) w.2),
        ),
        λ h. absurd (ground (arith, e, same, stale)),
        λ h. (
          old,
          ground (arith, e, same, stale),
          ground (arith, same, eq_iff old.scope b.scope),
          ground (arith, same, eq_iff old.chat_id b.chat_id),
        ),
        λ h. ground (arith, e, same, stale),
      )
    ]
    | inr differs ↦ (
      (λ h. (old, e, differ-somewhere old b differs), λ w. ground (arith, e, differs)),
      λ h. ground (arith, e, differs),
      λ h. absurd (ground (arith, e, differs)),
      λ h. ground (arith, e, differs),
    )
  ]
]

any_scope-keep :
    (scope : String) (m : Dict Binding)
    → any_scope scope (keep (λ k b. not (points_at scope b)) m) ≡ false
unfolding any_scope keep
any_scope-keep scope [] = refl
any_scope-keep scope ((k, b) ∷ m) = ground (arith, any_scope-keep scope m)

-- Unbinding a scope removes exactly the sessions bound to it: a session is found afterwards as before
-- unless it was bound to the scope, then it is gone, and no session is left at the scope.
pub delete_by_scope_exact :
    (scope key : String) (s : BindingStore)
    → DistinctKeys s.by_session
    → let s' = (delete_by_scope scope s).0 in
      (get_binding key s' ≡ elim (get_binding key s) [
        | none ↦ none
        | some b ↦ if b.scope == scope then none else some b
      ])
      × (has_scope scope s' ≡ false)
unfolding delete_by_scope get_binding has_scope
delete_by_scope_exact scope key s d = (
  ground (arith, lookup-keep (λ k b. not (points_at scope b)) key s.by_session d),
  any_scope-keep scope s.by_session,
)
