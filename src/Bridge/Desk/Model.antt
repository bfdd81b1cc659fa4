-- ===== src/Bridge/Desk/Model.antt =====
-- One-time model cards.
use lark_coding_agent_bridge.Prelude.{
  ℕ, ◌≤◌, String, ◌≡◌, refl, sym, ap, ◌∙◌, subst, ◌≢◌, ◌⊎◌, inl, inr, Bool, true, false, ◌||◌, none,
  some, arith, ◌==◌, eq_iff, ltb, if◌then◌else◌, Bool-cases, Option-cases, lookup, lookup-insert,
  lookup-delete_self,
}
use lark_coding_agent_bridge.Bridge.Desk.{Desk, Disk, ModelPicker, ModelInfo, stop_run}
use lark_coding_agent_bridge.Bridge.Desk.Picker.{
  Selected, expired, invalid, switched, not_saved, bad_parameters, handle_model_select,
  switch_model, delete_model_picker,
}
use lark_coding_agent_bridge.Bridge.Message.{scope_belongs_to_chat}
use lark_coding_agent_bridge.Store.Sessions.{
  Session, SessionStore, set_session, session_or_blank, flush_sessions,
}

stop_run-pickers : (sc : String) (d : Desk) → (stop_run sc d).0.model_pickers ≡ d.model_pickers
unfolding stop_run
stop_run-pickers sc d = ground arith

stop_run-sessions : (sc : String) (d : Desk) → (stop_run sc d).0.sessions ≡ d.sessions
unfolding stop_run
stop_run-sessions sc d = ground arith

flush-sessions : (w : Bool) (s : SessionStore) → (flush_sessions w s).0.sessions ≡ s.sessions
unfolding flush_sessions
flush-sessions w s = ground arith

switch-pickers :
    (now : ℕ) (disk : Disk) (sc : String) (model : ModelInfo) (d : Desk)
    → (switch_model now disk sc model d).0.model_pickers ≡ d.model_pickers
switch-pickers now disk sc model d = stop_run-pickers sc d

-- The session of a scope, a blank one if it has none.
abbrev pub session_at : String → Desk → Session
session_at sc d = session_or_blank sc d.sessions

session-saved :
    (now : ℕ) (w : Bool) (sc other : String) (x : Session) (s : SessionStore)
    → session_or_blank other (flush_sessions w (set_session now sc x s)).0
      ≡ (if sc == other then record x { updated_at = now } else session_or_blank other s)
unfolding session_or_blank set_session flush_sessions
session-saved now w sc other x s =
    ground (arith, lookup-insert sc other (record x { updated_at = now }) s.sessions)

switch-session :
    (now : ℕ) (disk : Disk) (sc other : String) (model : ModelInfo) (d : Desk)
    → session_at other (switch_model now disk sc model d).0 ≡ (
        if sc == other
        then record (session_at sc d) { model = model.id; updated_at = now }
        else session_at other d)
switch-session now disk sc other model d =
    subst
      (λ s.
        session_or_blank other
          (flush_sessions disk.sessions_written
            (set_session now sc (record (session_or_blank sc s) { model = model.id }) s)).0
        ≡ (if sc == other
            then record (session_at sc d) { model = model.id; updated_at = now }
            else session_at other d))
      (sym (stop_run-sessions sc d))
      (session-saved now disk.sessions_written sc other
        (record (session_at sc d) { model = model.id }) d.sessions)

-- The card can be used: it is known, not expired, offers the model, and stands in a chat of its scope.
abbrev pub Usable : ℕ → String → String → String → ModelPicker → ModelInfo → Desk → Type 0
Usable now chat_id nonce model_id p model d =
    (nonce ≢ "")
    × (model_id ≢ "")
    × (lookup nonce d.model_pickers ≡ some p)
    × (now ≤ p.expires_at)
    × (lookup model_id p.models ≡ some model)
    × (scope_belongs_to_chat p.scope chat_id ≡ true)

-- A click on a usable model card changes the model of the session of the card's scope and nothing else
-- of it, touches no other session, and uses the card up.
pub select_switches :
    (now : ℕ) (disk : Disk) (chat_id nonce model_id other : String) (p : ModelPicker)
    (model : ModelInfo) (d : Desk)
    → Usable now chat_id nonce model_id p model d
    → let d' = (handle_model_select now disk chat_id nonce model_id d).0 in
      (session_at other d' ≡ (
        if p.scope == other
        then record (session_at p.scope d) { model = model.id; updated_at = now }
        else session_at other d))
      × (lookup nonce d'.model_pickers ≡ none)
unfolding handle_model_select delete_model_picker
select_switches now disk chat_id nonce model_id other p model d (n, m, e, t, f, c) =
    let left = delete_model_picker nonce d in
    let q : handle_model_select now disk chat_id nonce model_id d
        ≡ switch_model now disk p.scope model left =
      ground (arith, e, f, c, eq_iff nonce "", eq_iff model_id "") in
    (
      ap (λ r. session_at other r.0) q ∙ switch-session now disk p.scope other model left,
      ap (λ r. lookup nonce r.0.model_pickers) q
          ∙ ap (lookup nonce) (switch-pickers now disk p.scope model left)
          ∙ lookup-delete_self nonce d.model_pickers,
    )

abbrev pub is_success : Selected → Bool
is_success bad_parameters = false
is_success expired = false
is_success invalid = false
is_success not_saved = false
is_success (switched m) = true

-- Sessions and runs are as before and the reply is no success.
abbrev pub Untouched : Desk → Desk × Selected → Type 0
Untouched d r = (r.0.sessions ≡ d.sessions) × (r.0.runs ≡ d.runs) × (is_success r.1 ≡ false)

Untouched-by : (d : Desk) (r r' : Desk × Selected) → r ≡ r' → Untouched d r' → Untouched d r
Untouched-by d r r' q u = subst (Untouched d) (sym q) u

-- A click on a model card that is unknown or used up, has expired, does not offer the model or stands
-- in another chat switches nothing and stops no run.
pub select_guarded :
    (now : ℕ) (disk : Disk) (chat_id nonce model_id : String) (d : Desk)
    → ((p : ModelPicker) × (model : ModelInfo) × Usable now chat_id nonce model_id p model d)
      ⊎ Untouched d (handle_model_select now disk chat_id nonce model_id d)
unfolding handle_model_select delete_model_picker
select_guarded now disk chat_id nonce model_id d =
    let r = handle_model_select now disk chat_id nonce model_id d in
    let left = delete_model_picker nonce d in
    elim (Bool-cases (nonce == "" || model_id == "")) [
      | inl e ↦ inr (Untouched-by d r (d, bad_parameters) (ground (arith, e)) (refl, refl, refl))
      | inr e ↦ elim (Option-cases (lookup nonce d.model_pickers)) [
        | inl ep ↦ inr (Untouched-by d r (d, expired) (ground (arith, e, ep)) (refl, refl, refl))
        | inr (p, ep) ↦ elim (Bool-cases (ltb p.expires_at now)) [
          | inl t ↦
              inr (Untouched-by d r (left, expired) (ground (arith, e, ep, t)) (refl, refl, refl))
          | inr t ↦ elim (Option-cases (lookup model_id p.models)) [
            | inl em ↦
                inr
                  (Untouched-by d r (d, invalid) (ground (arith, e, ep, t, em)) (refl, refl, refl))
            | inr (model, em) ↦ elim (Bool-cases (scope_belongs_to_chat p.scope chat_id)) [
              | inl c ↦ inl (
                p,
                model,
                (
                  ground (arith, e, eq_iff nonce ""),
                  ground (arith, e, eq_iff model_id ""),
                  ep,
                  ground (arith, t),
                  em,
                  c,
                ),
              )
              | inr c ↦ inr (
                  Untouched-by d r (left, invalid) (ground (arith, e, ep, t, em, c))
                    (refl, refl, refl))
            ]
          ]
        ]
      ]
    ]
