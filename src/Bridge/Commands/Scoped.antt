-- ===== src/Bridge/Commands/Scoped.antt =====
-- What commands leave alone: internal/bridge/commands.go and mode.go.
use lark_coding_agent_bridge.Prelude.{
  Bool, true, arith, lookup-delete_self, ℕ, String, ◌≡◌, refl, ◌∙◌, ◌⊎◌, inl, inr, false, ◌||◌, not,
  Option, none, some, List, [], ◌∷◌, ◌==◌, if◌then◌else◌, either, switch_All, Option-cases, has,
  lookup, lookup-delete, to_lower,
}
use lark_coding_agent_bridge.Bridge.Desk.{Desk, Disk, stop_run, reset_session}
use lark_coding_agent_bridge.Store.Workspaces.{remove, lookup_workspace}
use lark_coding_agent_bridge.Store.Reads.{
  get-delete_session_self, get-set_session, get-delete_session, get-flush_sessions,
}
use lark_coding_agent_bridge.Bridge.Commands.{
  expand_home, or_blank, missing, shown, nothing_to_save, unsupported, mode_set, not_saved,
  started_over, switched, stopped, nothing_running, check_kind, stop_command, ws_cases, usage, Room,
  System, Reply, validate_workspace, start_over, change_directory, enter, handle_cd, use_workspace,
  save_workspace, remove_workspace, ws_action, handle_ws_command, set_collaboration_mode, mode_args,
  handle_mode,
}
use lark_coding_agent_bridge.Store.Sessions.{
  session_or_blank, set_session, flush_sessions, get_session, delete_session,
}

-- Runs and sessions of every other scope are as before.
abbrev pub Kept : String → Desk → Desk → Type 0
Kept sc d e =
    (other : String)
    → (sc == other) ≡ false
    → (lookup other e.runs ≡ lookup other d.runs)
      × (get_session other e.sessions ≡ get_session other d.sessions)

stop_run-Kept : (sc : String) (d : Desk) → Kept sc d (stop_run sc d).0
unfolding stop_run
stop_run-Kept sc d other h = elim (Option-cases (lookup sc d.runs)) [
  | inl e ↦ rw (e, stop_run) (refl, refl)
  | inr (n, e) ↦ rw (e, stop_run) (rw (lookup-delete sc other d.runs, h) (refl, refl))
]

reset_session-Kept : (disk : Disk) (sc : String) (d : Desk) → Kept sc d (reset_session disk sc d)
unfolding reset_session
reset_session-Kept disk sc d other h = (
  refl,
  get-flush_sessions disk.sessions_written other (delete_session sc d.sessions)
      ∙ get-delete_session sc other d.sessions
      ∙ rw h refl,
)

pub start_over-Kept :
    (sys : System) (sc : String) (r : Room) → Kept sc r.desk (start_over sys sc r).desk
unfolding start_over
start_over-Kept sys sc r other h =
    let ended = stop_run-Kept sc r.desk other h in
    let started = reset_session-Kept sys.written sc (stop_run sc r.desk).0 other h in
    (started.0 ∙ ended.0, started.1 ∙ ended.1)

-- The scope has no run and no session.
abbrev pub IsCleared : String → Desk → Type 0
IsCleared sc d = (lookup sc d.runs ≡ none) × (get_session sc d.sessions ≡ none)

-- What the user is told when the session starts over.
abbrev pub starts_over : Reply → Bool
starts_over started_over = true
starts_over switched = true
starts_over _ = false

-- A command that keeps the other scopes, and clears its own where it says so.
abbrev pub KeptBy : String → Room → Room × Reply → Type 0
KeptBy sc r result =
    Kept sc r.desk result.0.desk × (starts_over result.1 ≡ true → IsCleared sc result.0.desk)

stop_run-none : (sc : String) (d : Desk) → lookup sc (stop_run sc d).0.runs ≡ none
unfolding stop_run
stop_run-none sc d = elim (Option-cases (lookup sc d.runs)) [
  | inl e ↦ rw (stop_run, e) e
  | inr (n, e) ↦ rw (stop_run, e) (lookup-delete_self sc d.runs)
]

pub start_over-IsCleared :
    (sys : System) (sc : String) (r : Room) → IsCleared sc (start_over sys sc r).desk
unfolding start_over reset_session
start_over-IsCleared sys sc r = (
  stop_run-none sc r.desk,
  get-flush_sessions sys.written.sessions_written sc
        (delete_session sc (stop_run sc r.desk).0.sessions)
      ∙ get-delete_session_self sc (stop_run sc r.desk).0.sessions,
)

-- A command that starts nothing over.
pub quiet-KeptBy :
    (sc : String) (r r' : Room) (reply : Reply)
    → starts_over reply ≡ false
    → Kept sc r.desk r'.desk
    → KeptBy sc r (r', reply)
quiet-KeptBy sc r r' reply q k = (k, λ h. absurd (ground (arith, q, h)))

pub same-Kept : (sc : String) (d : Desk) → Kept sc d d
same-Kept sc d other h = (refl, refl)

change_directory-Kept :
    (sys : System) (sc dir : String) (r : Room)
    → Kept sc r.desk (change_directory sys sc dir r).desk
      × IsCleared sc (change_directory sys sc dir r).desk
unfolding change_directory
change_directory-Kept sys sc dir r = (start_over-Kept sys sc r, start_over-IsCleared sys sc r)

refused_quietly :
    (dir : String) (blocked : List String) (o : Option Bool) (reason : Reply)
    → check_kind dir blocked o ≡ inr reason
    → starts_over reason ≡ false
refused_quietly dir blocked o reason h = ground (arith, h)

-- A refused directory starts nothing over.
validate_workspace-quiet :
    (sys : System) (input : String) (reason : Reply)
    → validate_workspace sys input ≡ inr reason
    → starts_over reason ≡ false
unfolding validate_workspace
validate_workspace-quiet sys input reason h =
    let dir = expand_home sys.home (sys.expand input) in
    let blocked = "/" ∷ or_blank sys.home ∷ "/tmp" ∷ "/var" ∷ "/private/tmp" ∷ sys.temp ∷ [] in
    refused_quietly dir blocked (sys.stat dir) reason h

enter-Kept :
    (sys : System) (sc target : String) (r : Room) (checked : String ⊎ Reply)
    → ((reason : Reply) → checked ≡ inr reason → starts_over reason ≡ false)
    → KeptBy sc r (enter sys sc target r checked)
enter-Kept sys sc target r (inl dir) q =
    let (k, c) = change_directory-Kept sys sc (if target == "" then dir else target) r in
    (k, λ h. c)
enter-Kept sys sc target r (inr reason) q =
    quiet-KeptBy sc r r reason (q reason refl) (same-Kept sc r.desk)

pub handle_cd-Kept :
    (sys : System) (sc : String) (args : List String) (r : Room)
    → KeptBy sc r (handle_cd sys sc args r)
handle_cd-Kept sys sc [] r = quiet-KeptBy sc r r usage refl (same-Kept sc r.desk)
handle_cd-Kept sys sc (input ∷ args) r =
    enter-Kept sys sc "" r (validate_workspace sys input) (validate_workspace-quiet sys input)

use_workspace-Kept :
    (sys : System) (sc : String) (dir : Option String) (r : Room)
    → KeptBy sc r (use_workspace sys sc dir r)
use_workspace-Kept sys sc none r = quiet-KeptBy sc r r missing refl (same-Kept sc r.desk)
use_workspace-Kept sys sc (some dir) r =
    enter-Kept sys sc dir r (validate_workspace sys dir) (validate_workspace-quiet sys dir)

save_workspace-Kept :
    (sys : System) (sc name : String) (r : Room) → KeptBy sc r (save_workspace sys name r)
unfolding save_workspace
save_workspace-Kept sys sc name r =
    either (KeptBy sc r) (r.workspaces.current == "") _ _
      (quiet-KeptBy sc r r nothing_to_save refl (same-Kept sc r.desk))
      (same-Kept sc r.desk, λ h. absurd (ground (arith, h)))

remove_workspace-Kept :
    (sys : System) (sc name : String) (r : Room) → KeptBy sc r (remove_workspace sys name r)
unfolding remove_workspace
remove_workspace-Kept sys sc name r =
    either (KeptBy sc r) (remove name r.workspaces).1 _ _
      (same-Kept sc r.desk, λ h. absurd (ground (arith, h)))
      (quiet-KeptBy sc r r missing refl (same-Kept sc r.desk))

ws_action-Kept :
    (sc : String) (act : String → Room × Reply) (args : List String) (r : Room)
    → ((name : String) → KeptBy sc r (act name))
    → KeptBy sc r (ws_action act args r)
ws_action-Kept sc act [] r h = quiet-KeptBy sc r r usage refl (same-Kept sc r.desk)
ws_action-Kept sc act (name ∷ args) r h = h name

pub handle_ws_command-Kept :
    (sys : System) (sc : String) (args : List String) (r : Room)
    → KeptBy sc r (handle_ws_command sys sc args r)
unfolding handle_ws_command
handle_ws_command-Kept sys sc [] r = quiet-KeptBy sc r r usage refl (same-Kept sc r.desk)
handle_ws_command-Kept sys sc (action ∷ args) r =
    let same = same-Kept sc r.desk in
    switch_All (KeptBy sc r) action (ws_cases sys sc args r) (r, usage)
      (
        quiet-KeptBy sc r r shown refl same,
        (
          ws_action-Kept sc _ args r (λ name. save_workspace-Kept sys sc name r),
          (
            ws_action-Kept sc _ args r
                (λ name. use_workspace-Kept sys sc (lookup_workspace name r.workspaces) r),
            (ws_action-Kept sc _ args r (λ name. remove_workspace-Kept sys sc name r), tt),
          ),
        ),
      )
      (quiet-KeptBy sc r r usage refl same)

mode_reply : (written : Bool) → starts_over (if written then mode_set else not_saved) ≡ false
mode_reply true = refl
mode_reply false = refl

set_collaboration_mode-Kept :
    (now : ℕ) (sys : System) (modes : List String) (sc want : String) (r : Room)
    → KeptBy sc r (set_collaboration_mode now sys modes sc want r)
unfolding set_collaboration_mode
set_collaboration_mode-Kept now sys modes sc want r =
    let desk = (stop_run sc r.desk).0 in
    let session = record (session_or_blank sc desk.sessions) { collaboration_mode = want } in
    let (sessions, written) =
      flush_sessions sys.written.sessions_written (set_session now sc session desk.sessions) in
    either (KeptBy sc r) (want == "" || not (has want modes)) _ _
      (quiet-KeptBy sc r r unsupported refl (same-Kept sc r.desk))
      (
        λ other h.
            let ended = stop_run-Kept sc r.desk other h in
            (
              ended.0,
              get-set_session now sys.written.sessions_written sc other _ desk.sessions
                  ∙ rw h refl
                  ∙ ended.1,
            ),
        λ h. absurd (ground (arith, h, mode_reply written)),
      )

mode_args-Kept :
    (now : ℕ) (sys : System) (modes : List String) (sc : String) (args : List String) (r : Room)
    → KeptBy sc r (mode_args now sys modes sc args r)
mode_args-Kept now sys modes sc [] r = quiet-KeptBy sc r r shown refl (same-Kept sc r.desk)
mode_args-Kept now sys modes sc (want ∷ []) r =
    set_collaboration_mode-Kept now sys modes sc (to_lower want) r
mode_args-Kept now sys modes sc (want ∷ more ∷ args) r =
    quiet-KeptBy sc r r usage refl (same-Kept sc r.desk)

pub handle_mode-Kept :
    (now : ℕ) (sys : System) (modes : Option (List String)) (sc : String) (args : List String)
    (r : Room)
    → KeptBy sc r (handle_mode now sys modes sc args r)
handle_mode-Kept now sys none sc args r = quiet-KeptBy sc r r unsupported refl (same-Kept sc r.desk)
handle_mode-Kept now sys (some modes) sc args r = mode_args-Kept now sys modes sc args r

stop_reply :
    (was_running : Bool) → starts_over (if was_running then stopped else nothing_running) ≡ false
stop_reply true = refl
stop_reply false = refl

pub stop_command-Kept : (sc : String) (r : Room) → KeptBy sc r (stop_command sc r)
stop_command-Kept sc r =
    (stop_run-Kept sc r.desk, λ h. absurd (ground (arith, h, stop_reply (stop_run sc r.desk).1)))
