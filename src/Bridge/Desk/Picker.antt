-- ===== src/Bridge/Desk/Picker.antt =====
-- The one-time model cards of internal/bridge/model.go.
use lark_coding_agent_bridge.Prelude.{
  ℕ, ◌+◌, String, ◌||◌, not, none, some, List, [], ◌∷◌, ◌==◌, ltb, if◌then◌else◌, Dict, lookup,
  insert, delete, keep,
}
use lark_coding_agent_bridge.Bridge.Message.{scope_belongs_to_chat}
use lark_coding_agent_bridge.Store.Sessions.{set_session, flush_sessions, session_or_blank}
use lark_coding_agent_bridge.Bridge.Desk.{ModelInfo, Desk, Disk, stop_run}

-- `modelPickerTTL` in seconds.
abbrev pub model_picker_ttl : ℕ
model_picker_ttl = 900

-- A later model with the same id wins.
unfoldable pub choices_of : Dict ModelInfo → List ModelInfo → Dict ModelInfo
choices_of m [] = m
choices_of m (x ∷ xs) = choices_of (if x.id == "" then m else insert x.id x m) xs

unfoldable pub register_model_picker : ℕ → String → String → List ModelInfo → Desk → Desk
register_model_picker now nonce sc models d = record d {
  model_pickers =
      insert nonce
        (record { scope = sc; models = choices_of [] models; expires_at = now + model_picker_ttl })
        (keep (λ k p. not (ltb p.expires_at now)) d.model_pickers);
}

unfoldable pub delete_model_picker : String → Desk → Desk
delete_model_picker nonce d = record d { model_pickers = delete nonce d.model_pickers }

pub data Selected : Type 0 where
  bad_parameters expired invalid not_saved : Selected
  switched : ModelInfo → Selected

abbrev pub switch_model : ℕ → Disk → String → ModelInfo → Desk → Desk × Selected
switch_model now disk sc model d =
    let d = (stop_run sc d).0 in
    let sess = session_or_blank sc d.sessions in
    let (sessions, saved) =
      flush_sessions disk.sessions_written
        (set_session now sc (record sess { model = model.id }) d.sessions) in
    (record d { sessions = sessions }, if saved then switched model else not_saved)

-- The picker is used up before the chat is checked.
unfoldable pub handle_model_select : ℕ → Disk → String → String → String → Desk → Desk × Selected
handle_model_select now disk chat_id nonce model_id d =
    if nonce == "" || model_id == ""
    then (d, bad_parameters)
    else elim (lookup nonce d.model_pickers) [
      | none ↦ (d, expired)
      | some picker ↦
          if ltb picker.expires_at now
          then (delete_model_picker nonce d, expired)
          else elim (lookup model_id picker.models) [
            | none ↦ (d, invalid)
            | some model ↦
                let d = delete_model_picker nonce d in
                if not (scope_belongs_to_chat picker.scope chat_id)
                then (d, invalid)
                else switch_model now disk picker.scope model d
          ]
    ]
