-- ===== src/Bridge/Desk/Finish.antt =====
-- The end of a run in `runBatch` of internal/bridge/bridge.go: the session that the events of the run
-- add up to, and what is saved of it. The clock is read once.
use lark_coding_agent_bridge.Store.Reads.{
  get-flush_sessions, get-set_session, get-delete_session_self,
}
use lark_coding_agent_bridge.Prelude.{
  eq_refl, ◌∙◌, ap, ◌||◌, ℕ, String, ◌≡◌, refl, Bool, true, false, not, Option, none, some, List,
  [], ◌∷◌, arith, ◌==◌, if◌then◌else◌, Bool-cases, ◌≢◌, eq_iff, inl, inr,
}
use lark_coding_agent_bridge.Agent.Event.{EventType, Event}
use lark_coding_agent_bridge.Store.Sessions.{
  Session, no_session, set_session, get_session, delete_session, flush_sessions,
}
use lark_coding_agent_bridge.Store.Bindings.{flush_bindings}
use lark_coding_agent_bridge.Bridge.Desk.{Desk, Disk, record_group_binding, reset_session, stop_run}

-- The session that a run starts with, in a directory.
abbrev pub new_session : String → Session → Session
new_session cwd sess = record no_session {
  cwd = cwd;
  model = sess.model;
  collaboration_mode = sess.collaboration_mode;
}

abbrev pub or_keep : String → String → String
or_keep new old = if new == "" then old else new

abbrev pub with_ids : Event → Session → Session
with_ids e x = record x {
  session_id = or_keep e.session_id x.session_id;
  thread_id = or_keep e.thread_id x.thread_id;
  model = or_keep e.model x.model;
}

abbrev pub note_at : EventType → Event → Session → Session
note_at EventType.system e x = with_ids e x
note_at EventType.done e x = with_ids e x
note_at _ e x = x

-- One event of the loop.
unfoldable pub note_event : Event → Session → Session
note_event e x = note_at e.kind e x

unfoldable pub note_all : List Event → Session → Session
note_all [] x = x
note_all (e ∷ es) x = note_all es (note_event e x)

-- A model that was chosen during the run wins over the run's own.
abbrev pub latest_model : Option Session → Session → Session → Session
latest_model none sess x = x
latest_model (some latest) sess x =
    if latest.model == sess.model then x else record x { model = latest.model }

-- `sess` is the session before the run, `x` the one that its events give.
unfoldable pub finish_run :
    ℕ → String → Disk → String → String → String → Session → Session → Desk → Desk
finish_run now kind disk sc chat_id chat_type sess x d =
    let x = latest_model (get_session sc d.sessions) sess x in
    let d =
      if not (x.session_id == "") || not (x.thread_id == "")
      then record_group_binding now kind sc chat_id chat_type x
          (record d { sessions = set_session now sc x d.sessions })
      else d in
    record d {
      sessions = (flush_sessions disk.sessions_written d.sessions).0;
      bindings = (flush_bindings disk.bindings_written d.bindings).0;
    }

-- The id that an event of the start or the end of the agent names.
abbrev pub named_id : EventType → String → String
named_id EventType.system id = id
named_id EventType.done id = id
named_id _ id = ""

-- The last such id.
unfoldable pub last_id : String → List Event → String
last_id id [] = id
last_id id (e ∷ es) = last_id (or_keep (named_id e.kind e.session_id) id) es

note_at-session_id :
    (k : EventType) (e : Event) (x : Session)
    → (note_at k e x).session_id ≡ or_keep (named_id k e.session_id) x.session_id
note_at-session_id EventType.system e x = refl
note_at-session_id EventType.done e x = refl
note_at-session_id EventType.text e x = refl
note_at-session_id EventType.final_text e x = refl
note_at-session_id EventType.thinking e x = refl
note_at-session_id EventType.tool_use e x = refl
note_at-session_id EventType.tool_result e x = refl
note_at-session_id EventType.ask_user e x = refl
note_at-session_id EventType.usage e x = refl
note_at-session_id EventType.error e x = refl

note_all-session_id :
    (es : List Event) (x : Session) → (note_all es x).session_id ≡ last_id x.session_id es
unfolding note_all note_event last_id
note_all-session_id [] x = refl
note_all-session_id (e ∷ es) x =
    note_all-session_id es (note_event e x) ∙ ap (λ i. last_id i es) (note_at-session_id e.kind e x)

group-sessions :
    (now : ℕ) (kind sc chat_id chat_type : String) (x : Session) (d : Desk)
    → (record_group_binding now kind sc chat_id chat_type x d).sessions ≡ d.sessions
unfolding record_group_binding
group-sessions now kind sc chat_id chat_type x d = ground arith

-- The run has named an agent session.
abbrev pub has_ids : Session → Bool
has_ids x = not (x.session_id == "") || not (x.thread_id == "")

latest-has_ids :
    (o : Option Session) (sess x : Session)
    → has_ids x ≡ true
    → has_ids (latest_model o sess x) ≡ true
latest-has_ids none sess x h = h
latest-has_ids (some l) sess x h = ground (arith, h)

latest-has_ids-not :
    (o : Option Session) (sess x : Session)
    → has_ids x ≡ false
    → has_ids (latest_model o sess x) ≡ false
latest-has_ids-not none sess x h = h
latest-has_ids-not (some l) sess x h = ground (arith, h)

finish-saved :
    (now : ℕ) (kind : String) (disk : Disk) (sc chat_id chat_type other : String) (sess x : Session)
    (d : Desk)
    → has_ids x ≡ true
    → get_session other (finish_run now kind disk sc chat_id chat_type sess x d).sessions ≡ (
        if sc == other
        then some (record (latest_model (get_session sc d.sessions) sess x) { updated_at = now })
        else get_session other d.sessions)
unfolding finish_run
finish-saved now kind disk sc chat_id chat_type other sess x d h =
    let y = latest_model (get_session sc d.sessions) sess x in
    let q : has_ids y ≡ true = latest-has_ids (get_session sc d.sessions) sess x h in
    let saved = record d { sessions = set_session now sc y d.sessions } in
    simp (q) (
      ap (λ s. get_session other (flush_sessions disk.sessions_written s).0)
        (group-sessions now kind sc chat_id chat_type y saved)
      ∙ get-set_session now disk.sessions_written sc other y d.sessions)

finish-kept :
    (now : ℕ) (kind : String) (disk : Disk) (sc chat_id chat_type other : String) (sess x : Session)
    (d : Desk)
    → has_ids x ≡ false
    → get_session other (finish_run now kind disk sc chat_id chat_type sess x d).sessions
      ≡ get_session other d.sessions
unfolding finish_run
finish-kept now kind disk sc chat_id chat_type other sess x d h =
    let y = latest_model (get_session sc d.sessions) sess x in
    let q : has_ids y ≡ false = latest-has_ids-not (get_session sc d.sessions) sess x h in
    simp (q) (get-flush_sessions disk.sessions_written other d.sessions)

finish-other :
    (now : ℕ) (kind : String) (disk : Disk) (sc chat_id chat_type other : String) (sess x : Session)
    (d : Desk)
    → (sc == other) ≡ false
    → get_session other (finish_run now kind disk sc chat_id chat_type sess x d).sessions
      ≡ get_session other d.sessions
finish-other now kind disk sc chat_id chat_type other sess x d h = elim (Bool-cases (has_ids x)) [
  | inl e ↦ finish-saved now kind disk sc chat_id chat_type other sess x d e ∙ rw h refl
  | inr e ↦ finish-kept now kind disk sc chat_id chat_type other sess x d e
]

-- What the end saves under the scope, by the session that is there.
finish-here :
    (now : ℕ) (kind : String) (disk : Disk) (sc chat_id chat_type : String) (sess x : Session)
    (d : Desk) (there : Option Session)
    → has_ids x ≡ true
    → get_session sc d.sessions ≡ there
    → get_session sc (finish_run now kind disk sc chat_id chat_type sess x d).sessions
      ≡ some (record (latest_model there sess x) { updated_at = now })
finish-here now kind disk sc chat_id chat_type sess x d there h e =
    finish-saved now kind disk sc chat_id chat_type sc sess x d h ∙ rw (eq_refl sc, e) refl

latest-same :
    (latest sess x : Session) → latest.model ≡ sess.model → latest_model (some latest) sess x ≡ x
latest-same latest sess x e = rw ((eq_iff latest.model sess.model).1 e) refl

latest-chosen :
    (latest sess x : Session)
    → latest.model ≢ sess.model
    → latest_model (some latest) sess x ≡ record x { model = latest.model }
latest-chosen latest sess x n = ground (arith, n, eq_iff latest.model sess.model)

-- When a run ends, the session id that it has is the last one that an event of its start or end named.
-- If it has one, or a thread, the session of its scope becomes the run's own: as it is if the session
-- found there has the model that the run started with, or if there is none, and with the model found
-- there if that is another one. Otherwise every session stays. No other scope is touched.
pub run_saved :
    (now : ℕ) (kind : String) (disk : Disk) (sc chat_id chat_type other cwd : String)
    (sess : Session) (es : List Event) (d : Desk)
    → let x = note_all es (new_session cwd sess) in
      let d' = finish_run now kind disk sc chat_id chat_type sess x d in
      (x.session_id ≡ last_id "" es)
      × ((sc == other) ≡ false → get_session other d'.sessions ≡ get_session other d.sessions)
      × (has_ids x ≡ false → get_session other d'.sessions ≡ get_session other d.sessions)
      × (has_ids x ≡ true
          → get_session sc d.sessions ≡ none
          → get_session sc d'.sessions ≡ some (record x { updated_at = now }))
      × ((latest : Session)
          → has_ids x ≡ true
          → get_session sc d.sessions ≡ some latest
          → latest.model ≡ sess.model
          → get_session sc d'.sessions ≡ some (record x { updated_at = now }))
      × ((latest : Session)
          → has_ids x ≡ true
          → get_session sc d.sessions ≡ some latest
          → latest.model ≢ sess.model
          → get_session sc d'.sessions ≡ some (record x { model = latest.model; updated_at = now }))
run_saved now kind disk sc chat_id chat_type other cwd sess es d =
    let x = note_all es (new_session cwd sess) in
    let here = finish-here now kind disk sc chat_id chat_type sess x d in
    (
      note_all-session_id es (new_session cwd sess),
      finish-other now kind disk sc chat_id chat_type other sess x d,
      finish-kept now kind disk sc chat_id chat_type other sess x d,
      (λ h e. here none h e),
      (λ latest h e m.
          here (some latest) h e
          ∙ ap {A = Session} (λ y. some (record y { updated_at = now }))
              (latest-same latest sess x m)),
      (λ latest h e m.
          here (some latest) h e
          ∙ ap {A = Session} (λ y. some (record y { updated_at = now }))
              (latest-chosen latest sess x m)),
    )

reset-gone :
    (disk : Disk) (sc : String) (d : Desk)
    → get_session sc (reset_session disk sc d).sessions ≡ none
unfolding reset_session
reset-gone disk sc d =
    get-flush_sessions disk.sessions_written sc (delete_session sc d.sessions)
    ∙ get-delete_session_self sc d.sessions

-- A reset that stops a running agent does not last: /new, /cd and /ws use delete the session of the
-- scope, but if the run has named an agent session by then, its end saves that one again, and the next
-- message resumes it.
pub reset_undone :
    (now : ℕ) (kind : String) (disk : Disk) (sc chat_id chat_type : String) (sess x : Session)
    (d : Desk)
    → has_ids x ≡ true
    → let reset = reset_session disk sc (stop_run sc d).0 in
      (get_session sc reset.sessions ≡ none)
      × (get_session sc (finish_run now kind disk sc chat_id chat_type sess x reset).sessions
          ≡ some (record x { updated_at = now }))
reset_undone now kind disk sc chat_id chat_type sess x d h =
    let reset = reset_session disk sc (stop_run sc d).0 in
    let gone = reset-gone disk sc (stop_run sc d).0 in
    let saved = finish-saved now kind disk sc chat_id chat_type sc sess x reset h in
    (gone, ground (arith, gone, saved, eq_refl sc))
