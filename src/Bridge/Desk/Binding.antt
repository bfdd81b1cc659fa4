-- ===== src/Bridge/Desk/Binding.antt =====
-- /bind and /unbind of internal/bridge/bind.go.
use lark_coding_agent_bridge.Prelude.{
  ℕ, String, Bool, true, false, not, none, some, List, [], ◌∷◌, ◌==◌, if◌then◌else◌,
}
use lark_coding_agent_bridge.Bridge.Message.{Message, scope}
use lark_coding_agent_bridge.Store.Sessions.{
  Session, no_session, set_session, delete_session, flush_sessions,
}
use lark_coding_agent_bridge.Store.Bindings.{
  session_key, get_binding, set_binding, delete_binding, delete_by_scope, flush_bindings,
}
use lark_coding_agent_bridge.Bridge.Desk.{Desk, Disk, stop_run}

-- A session that continues the agent's own one.
unfoldable pub resuming : String → String → String → Session
resuming kind id cwd =
    if kind == "codex"
    then record no_session { thread_id = id; cwd = cwd }
    else record no_session { session_id = id; cwd = cwd }

-- `handleBind` after the session to bind is found.
abbrev pub rebind : ℕ → String → Disk → Message → String → String → Desk → Desk
rebind now kind disk msg id cwd d =
    let sc = scope msg in
    let d = (stop_run sc d).0 in
    let chat_type = if msg.chat_type == "" then "p2p" else msg.chat_type in
    record d {
      sessions =
          (flush_sessions disk.sessions_written
            (set_session now sc (resuming kind id cwd) d.sessions)).0;
      bindings =
          (flush_bindings disk.bindings_written (
            set_binding now (session_key kind id)
              (record { scope = sc; chat_id = msg.chat_id; chat_type = chat_type; bound_at = 0 })
              d.bindings)).0;
    }

-- The other scope loses the session.
abbrev pub release : String → String → Desk → Desk
release key other d =
    let d = (stop_run other d).0 in
    record d {
      sessions = delete_session other d.sessions;
      bindings = delete_binding key d.bindings;
    }

-- The flag tells whether the session was bound.
unfoldable pub handle_bind :
    ℕ → String → Disk → Bool → Message → String → String → Desk → Desk × Bool
handle_bind now kind disk force msg id cwd d =
    let key = session_key kind id in
    elim (get_binding key d.bindings) [
      | none ↦ (rebind now kind disk msg id cwd d, true)
      | some bind ↦
          if bind.scope == scope msg
          then (rebind now kind disk msg id cwd d, true)
          else if not force
          then (d, false)
          else (rebind now kind disk msg id cwd (release key bind.scope d), true)
    ]

abbrev pub nonempty : List String → Bool
nonempty [] = false
nonempty (x ∷ xs) = true

-- The flag tells whether there was a binding.
unfoldable pub handle_unbind : Disk → Message → Desk → Desk × Bool
handle_unbind disk msg d =
    let (bindings, removed) = delete_by_scope (scope msg) d.bindings in
    (
      record d {
        bindings = (flush_bindings disk.bindings_written bindings).0;
        sessions = (flush_sessions disk.sessions_written (delete_session (scope msg) d.sessions)).0;
      },
      nonempty removed,
    )

unfoldable pub ensure_group_session : ℕ → String → Disk → String → String → String → Desk → Desk
ensure_group_session now kind disk group_id id cwd d = record d {
  sessions =
      (flush_sessions disk.sessions_written
        (set_session now group_id (resuming kind id cwd) d.sessions)).0;
}
