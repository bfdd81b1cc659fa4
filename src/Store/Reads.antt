-- ===== src/Store/Reads.antt =====
-- What a store answers after a write, a removal and a flush.
use lark_coding_agent_bridge.Prelude.{
  ℕ, String, ◌≡◌, ap, Bool, none, some, arith, ◌==◌, if◌then◌else◌, lookup, lookup-insert,
  lookup-delete, lookup-delete_self,
}
use lark_coding_agent_bridge.Store.Sessions.{
  Session, SessionStore, set_session, get_session, delete_session, flush_sessions,
}
use lark_coding_agent_bridge.Store.Bindings.{
  Binding, BindingStore, get_binding, set_binding, delete_binding, flush_bindings,
}

pub get-set_session :
    (now : ℕ) (w : Bool) (sc other : String) (x : Session) (s : SessionStore)
    → get_session other (flush_sessions w (set_session now sc x s)).0
      ≡ (if sc == other then some (record x { updated_at = now }) else get_session other s)
unfolding get_session set_session flush_sessions
get-set_session now w sc other x s =
    ground (arith, lookup-insert sc other (record x { updated_at = now }) s.sessions)

pub get-set_binding :
    (now : ℕ) (w : Bool) (key other : String) (x : Binding) (s : BindingStore)
    → get_binding other (flush_bindings w (set_binding now key x s)).0
      ≡ (if key == other then some (record x { bound_at = now }) else get_binding other s)
unfolding get_binding set_binding flush_bindings
get-set_binding now w key other x s =
    ground (arith, lookup-insert key other (record x { bound_at = now }) s.by_session)

pub get-delete_session :
    (sc other : String) (s : SessionStore)
    → get_session other (delete_session sc s) ≡ (if sc == other then none else get_session other s)
unfolding get_session delete_session
get-delete_session sc other s = ground (arith, lookup-delete sc other s.sessions)

pub get-delete_binding :
    (key other : String) (s : BindingStore)
    → get_binding other (delete_binding key s)
      ≡ (if key == other then none else get_binding other s)
unfolding get_binding delete_binding
get-delete_binding key other s = ground (arith, lookup-delete key other s.by_session)

flush-bindings : (w : Bool) (s : BindingStore) → (flush_bindings w s).0.by_session ≡ s.by_session
unfolding flush_bindings
flush-bindings w s = ground arith

pub get-flush_bindings :
    (w : Bool) (key : String) (s : BindingStore)
    → get_binding key (flush_bindings w s).0 ≡ get_binding key s
unfolding get_binding
get-flush_bindings w key s = ap (lookup key) (flush-bindings w s)

pub get-flush_sessions :
    (w : Bool) (sc : String) (s : SessionStore)
    → get_session sc (flush_sessions w s).0 ≡ get_session sc s
unfolding get_session flush_sessions
get-flush_sessions w sc s = ground arith

pub get-delete_session_self :
    (sc : String) (s : SessionStore) → get_session sc (delete_session sc s) ≡ none
unfolding get_session delete_session
get-delete_session_self sc s = lookup-delete_self sc s.sessions
