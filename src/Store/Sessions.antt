-- ===== src/Store/Sessions.antt =====
-- internal/state/state.go: agent sessions by scope.
use lark_coding_agent_bridge.Prelude.{
  ℕ, String, ◌≡◌, refl, Bool, true, false, ◌||◌, not, Option, none, some, List, [], ◌∷◌, arith,
  ◌==◌, if◌then◌else◌, Dict, lookup, insert, delete,
}

pub record Session : Type 0 where
  pub session_id : String
  pub thread_id : String
  pub cwd : String
  pub model : String
  pub collaboration_mode : String
  pub updated_at : ℕ

abbrev pub no_session : Session
no_session = record {
  session_id = "";
  thread_id = "";
  cwd = "";
  model = "";
  collaboration_mode = "";
  updated_at = 0;
}

-- `file` is what the file holds.
pub record SessionStore : Type 0 where
  pub sessions : Dict Session
  pub dirty : Bool
  pub file : Dict Session

-- A missing file reads as no session.
unfoldable pub load_sessions : Option (Dict Session) → SessionStore
load_sessions none = record { sessions = []; dirty = false; file = [] }
load_sessions (some m) = record { sessions = m; dirty = false; file = m }

unfoldable pub get_session : String → SessionStore → Option Session
get_session scope s = lookup scope s.sessions

-- The `sess, _ := Get(scope)` of the callers.
unfoldable pub session_or_blank : String → SessionStore → Session
session_or_blank scope s = elim (lookup scope s.sessions) [ none ↦ no_session | some x ↦ x ]

unfoldable pub set_session : ℕ → String → Session → SessionStore → SessionStore
set_session now scope sess s = record s {
  sessions = insert scope (record sess { updated_at = now }) s.sessions;
  dirty = true;
}

unfoldable pub delete_session : String → SessionStore → SessionStore
delete_session scope s = record s { sessions = delete scope s.sessions; dirty = true }

unfoldable pub find_agent : String → Dict Session → Option (String × Session)
find_agent agent_id [] = none
find_agent agent_id ((scope, x) ∷ m) =
    if x.session_id == agent_id || x.thread_id == agent_id
    then some (scope, x)
    else find_agent agent_id m

unfoldable pub find_by_agent_id : String → SessionStore → Option (String × Session)
find_by_agent_id agent_id s = if agent_id == "" then none else find_agent agent_id s.sessions

-- Whether the write succeeds is the environment's choice; a failed flush may be tried again.
unfoldable pub flush_sessions : Bool → SessionStore → SessionStore × Bool
flush_sessions written s =
    if not s.dirty
    then (s, true)
    else if written
    then (record s { dirty = false; file = s.sessions }, true)
    else (s, false)

pub data Call : Type 0 where
  sets : ℕ → String → Session → Call
  deletes : String → Call
  flushes : Bool → Call

unfoldable pub call : SessionStore → Call → SessionStore
call s (sets now scope x) = set_session now scope x s
call s (deletes scope) = delete_session scope s
call s (flushes written) = (flush_sessions written s).0

unfoldable pub calls : SessionStore → List Call → SessionStore
calls s [] = s
calls s (c ∷ cs) = calls (call s c) cs

call_clean :
    (s : SessionStore) (c : Call)
    → (s.dirty ≡ false → s.file ≡ s.sessions)
    → (call s c).dirty ≡ false
    → (call s c).file ≡ (call s c).sessions
unfolding call set_session delete_session flush_sessions
call_clean s (sets now scope x) h d = absurd (ground arith)
call_clean s (deletes scope) h d = absurd (ground arith)
call_clean s (flushes written) h d = ground (arith, h)

calls_clean :
    (s : SessionStore) (cs : List Call)
    → (s.dirty ≡ false → s.file ≡ s.sessions)
    → (calls s cs).dirty ≡ false
    → (calls s cs).file ≡ (calls s cs).sessions
unfolding calls
calls_clean s [] h = h
calls_clean s (c ∷ cs) h = calls_clean (call s c) cs (call_clean s c h)

load_clean :
    (file : Option (Dict Session)) → (load_sessions file).file ≡ (load_sessions file).sessions
unfolding load_sessions
load_clean none = refl
load_clean (some m) = refl

-- After any calls on a loaded store, a store that is not dirty is on disk as it is in memory, and a
-- flush whose write succeeds brings it there without changing a session.
pub flush_persists :
    (file : Option (Dict Session)) (cs : List Call)
    → let s = calls (load_sessions file) cs in
      let s' = (flush_sessions true s).0 in
      (s.dirty ≡ false → s.file ≡ s.sessions) × (s'.file ≡ s.sessions) × (s'.sessions ≡ s.sessions)
unfolding flush_sessions
flush_persists file cs =
    let clean = calls_clean (load_sessions file) cs (λ d. load_clean file) in
    (clean, ground (arith, clean), ground arith)
