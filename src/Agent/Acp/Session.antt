-- ===== src/Agent/Acp/Session.antt =====
-- internal/agent/cursor.go and grok.go over acp.go: a session with an ACP process, one run at a time. The
-- process, the prompt of a run and the bridge act side by side; each operation is one of their critical
-- sections. What the process answers to session/load and session/new is a parameter, `none` for an error.
use lark_coding_agent_bridge.Prelude.{
  ℕ, zero, suc, ◌<◌, String, ◌≡◌, refl, sym, ap, ◌∙◌, subst, Bool, true, false, ◌&&◌, ◌||◌, not,
  Option, none, some, List, [], ◌∷◌, ◌++◌, arith, ◌==◌, ltb, eqb, if◌then◌else◌, length, concat,
  eqb_iff,
}
use lark_coding_agent_bridge.Agent.Event.{Event, blank, EventType}
use lark_coding_agent_bridge.Agent.Runs.{Channel, capacity, new_channel, safe_send, send_all}
use lark_coding_agent_bridge.Agent.OpenCode.{failed_event}
use lark_coding_agent_bridge.Agent.Acp.{PromptResult, usage_events_from_prompt_result, or_else}

-- The run's channel, `runCh`, is the place of the run in the list of all channels.
pub record AcpSession : Type 0 where
  pub name : String
  pub dead : Bool
  pub session_id : String
  pub run_ch : Option ℕ
  pub chans : List Channel

-- What every event tells of the session's id.
abbrev named : EventType → String → String → String
named EventType.system id old = or_else id old
named _ id old = old

unfoldable pub note_ids : String → List Event → String
note_ids old [] = old
note_ids old (e ∷ es) = note_ids (named e.kind e.session_id old) es

unfoldable pub send_to : ℕ → List Event → List Channel → List Channel
send_to n es [] = []
send_to zero es (c ∷ cs) = send_all c es ∷ cs
send_to (suc n) es (c ∷ cs) = c ∷ send_to n es cs

-- `handleUpdate`: without a run the events are dropped.
abbrev pub update_run : Option ℕ → AcpSession → List Event → AcpSession
update_run none s events = s
update_run (some n) s events = record s {
  session_id = note_ids s.session_id events;
  chans = send_to n events s.chans;
}

unfoldable pub handle_update : AcpSession → List Event → AcpSession
handle_update s events = update_run s.run_ch s events

-- `ensureSession`: the session for a run, and the session after it.
abbrev pub keep_or_create : AcpSession → Option String → Option String × AcpSession
keep_or_create s created =
    if not (s.session_id == "")
    then (some s.session_id, s)
    else elim created [ none ↦ (none, s) | some id ↦ (some id, record s { session_id = id }) ]

unfoldable pub ensure_session :
    AcpSession → String → Option String → Option String → Option String × AcpSession
ensure_session s want loaded created =
    let load = not (want == "" || want == s.session_id) in
    let id = elim loaded as (λ o. String) [ none ↦ "" | some id ↦ id ] in
    if load && not (id == "")
    then (some id, record s { session_id = id })
    else keep_or_create s created

is_none : Option ℕ → Bool
is_none none = true
is_none (some n) = false

-- `startRun`, behind `ensureSession`: the place of the new run, unless there is one already.
unfoldable pub start_run : AcpSession → String → String → Option (ℕ × AcpSession)
unfolding is_none
start_run s session model =
    let first = record (blank EventType.system) { session_id = session; model = model } in
    if is_none s.run_ch
    then some (
      length s.chans,
      record s {
        run_ch = some (length s.chans);
        chans = s.chans ++ (safe_send new_channel first ∷ []);
      },
    )
    else none

unfoldable pub shut : ℕ → List Channel → List Channel
shut n [] = []
shut zero (c ∷ cs) = record c { closed = true } ∷ cs
shut (suc n) (c ∷ cs) = c ∷ shut n cs

abbrev pub leave : ℕ → Option ℕ → Option ℕ
leave n none = none
leave n (some k) = if eqb k n then none else some k

-- `finish`: the run's channel is closed. It runs once for each run.
unfoldable pub finish : AcpSession → ℕ → AcpSession
finish s n = record s { run_ch = leave n s.run_ch; chans = shut n s.chans }

-- The prompt of a run has returned.
unfoldable pub prompt_done : AcpSession → ℕ → String → Option PromptResult → AcpSession
prompt_done s n session result =
    let events = usage_events_from_prompt_result result session in
    finish
      (record s { session_id = note_ids s.session_id events; chans = send_to n events s.chans }) n

-- The prompt of a run has failed.
unfoldable pub prompt_failed : AcpSession → ℕ → String → AcpSession
prompt_failed s n message =
    let told = record s { chans = send_to n (failed_event message ∷ []) s.chans } in
    if s.dead then finish s n else finish told n

-- The process has exited: first the requests fail, then the run is told.
unfoldable pub exit_mark : AcpSession → AcpSession
exit_mark s = record s { dead = true }

abbrev pub exit_events : String → List Event
exit_events name = failed_event (concat name " ACP 进程意外退出") ∷ []

unfoldable pub exit_tell : AcpSession → AcpSession
exit_tell s = handle_update s (exit_events s.name)

abbrev pub channel_at : ℕ → List Channel → Channel
channel_at n [] = new_channel
channel_at zero (c ∷ cs) = c
channel_at (suc n) (c ∷ cs) = channel_at n cs

-- The events of a run, and whether they can be read to the end.
abbrev pub sent_to : AcpSession → ℕ → List Event
sent_to s n = (channel_at n s.chans).sent

abbrev pub is_closed : AcpSession → ℕ → Bool
is_closed s n = (channel_at n s.chans).closed

shut-at :
    (n : ℕ) (cs : List Channel)
    → n < length cs
    → ((channel_at n (shut n cs)).closed ≡ true)
      × ((channel_at n (shut n cs)).sent ≡ (channel_at n cs).sent)
unfolding shut
shut-at n [] h = absurd (omega arith)
shut-at zero (c ∷ cs) h = (refl, refl)
shut-at (suc n) (c ∷ cs) h = shut-at n cs (omega arith)

send-at :
    (n : ℕ) (es : List Event) (cs : List Channel)
    → n < length cs
    → channel_at n (send_to n es cs) ≡ send_all (channel_at n cs) es
unfolding send_to
send-at n es [] h = absurd (omega arith)
send-at zero es (c ∷ cs) h = refl
send-at (suc n) es (c ∷ cs) h = send-at n es cs (omega arith)

length-send_to :
    (n : ℕ) (es : List Event) (cs : List Channel) → length (send_to n es cs) ≡ length cs
unfolding send_to
length-send_to n es [] = refl
length-send_to zero es (c ∷ cs) = refl
length-send_to (suc n) es (c ∷ cs) = ap (λ (k : ℕ). suc k) (length-send_to n es cs)

leave_self : (n : ℕ) → leave n (some n) ≡ none
leave_self n = rw ((eqb_iff n n).1 refl) refl

unseen : (s : AcpSession) (n : ℕ) → s.run_ch ≡ some n → exit_tell (finish s n) ≡ finish s n
unfolding exit_tell handle_update finish
unseen s n r =
    ap (λ o. update_run o (finish s n) (exit_events s.name)) (ap (leave n) r ∙ leave_self n)

told_first :
    (s : AcpSession) (n : ℕ) (message : String)
    → s.run_ch ≡ some n
    → (prompt_failed (exit_tell (exit_mark s)) n message).chans
      ≡ shut n (send_to n (exit_events s.name) s.chans)
unfolding prompt_failed exit_tell exit_mark handle_update finish
told_first s n message r =
    ap
      (λ (o : Option ℕ).
        (prompt_failed (update_run o (exit_mark s) (exit_events s.name)) n message).chans)
      r

told_last :
    (s : AcpSession) (n : ℕ) (message : String)
    → s.run_ch ≡ some n
    → (exit_tell (prompt_failed (exit_mark s) n message)).chans ≡ shut n s.chans
unfolding prompt_failed exit_mark finish
told_last s n message r = ap (λ (u : AcpSession). u.chans) (unseen (exit_mark s) n r)

told-one :
    (c : Channel) (e : Event)
    → c.closed ≡ false
    → ltb c.unread capacity ≡ true
    → (send_all c (e ∷ [])).sent ≡ c.sent ++ (e ∷ [])
unfolding send_all safe_send
told-one c e h k = rw (h, k) refl

-- A process that exits ends the prompt of its run, whose channel is open and has room. If the run is told
-- of the exit before the prompt's failure is seen, its channel gets the error as its last event. If the failure is
-- seen first, the run's channel is closed with the events that it had: no error is shown for the exit.
pub exit_unseen :
    (s : AcpSession) (n : ℕ) (message : String)
    → s.run_ch ≡ some n
    → n < length s.chans
    → (channel_at n s.chans).closed ≡ false
    → ltb (channel_at n s.chans).unread capacity ≡ true
    → (is_closed (prompt_failed (exit_tell (exit_mark s)) n message) n ≡ true)
      × (sent_to (prompt_failed (exit_tell (exit_mark s)) n message) n
          ≡ sent_to s n ++ exit_events s.name)
      × (is_closed (exit_tell (prompt_failed (exit_mark s) n message)) n ≡ true)
      × (sent_to (exit_tell (prompt_failed (exit_mark s) n message)) n ≡ sent_to s n)
exit_unseen s n message r h c room =
    let events = exit_events s.name in
    let told = send_to n events s.chans in
    let closing =
      shut-at n told (subst (λ (k : ℕ). n < k) (sym (length-send_to n events s.chans)) h) in
    let silent = shut-at n s.chans h in
    rw (told_first s n message r, told_last s n message r)
      (
        closing.0,
        closing.1
            ∙ ap (λ (ch : Channel). ch.sent) (send-at n events s.chans h)
            ∙ told-one (channel_at n s.chans) _ c room,
        silent.0,
        silent.1,
      )
