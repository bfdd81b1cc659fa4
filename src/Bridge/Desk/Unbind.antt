-- ===== src/Bridge/Desk/Unbind.antt =====
-- What /unbind leaves behind.
use lark_coding_agent_bridge.Store.Reads.{
  get-delete_session, get-flush_sessions, get-flush_bindings,
}
use lark_coding_agent_bridge.Prelude.{
  String, ◌≡◌, ◌∙◌, none, some, ◌==◌, if◌then◌else◌, DistinctKeys,
}
use lark_coding_agent_bridge.Bridge.Desk.{Desk, Disk, delete_by_scope}
use lark_coding_agent_bridge.Bridge.Desk.Binding.{handle_unbind}
use lark_coding_agent_bridge.Bridge.Message.{Message, scope}
use lark_coding_agent_bridge.Store.Sessions.{get_session, delete_session}
use lark_coding_agent_bridge.Store.Bindings.{get_binding, delete_by_scope, delete_by_scope_exact}

-- /unbind leaves the scope of the message without a session and without any binding, and touches no
-- session of another scope and no binding to another scope.
pub unbind_detaches :
    (disk : Disk) (msg : Message) (d : Desk)
    → DistinctKeys d.bindings.by_session
    → let d' = (handle_unbind disk msg d).0 in
      ((sc : String)
        → get_session sc d'.sessions
          ≡ (if scope msg == sc then none else get_session sc d.sessions))
      × ((key : String)
          → get_binding key d'.bindings ≡ elim (get_binding key d.bindings) [
            | none ↦ none
            | some b ↦ if b.scope == scope msg then none else some b
          ])
unfolding handle_unbind
unbind_detaches disk msg d distinct = (
  λ sc.
      get-flush_sessions disk.sessions_written sc (delete_session (scope msg) d.sessions)
      ∙ get-delete_session (scope msg) sc d.sessions,
  λ key.
      get-flush_bindings disk.bindings_written key (delete_by_scope (scope msg) d.bindings).0
      ∙ (delete_by_scope_exact (scope msg) key d.bindings distinct).0,
)
