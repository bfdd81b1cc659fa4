-- ===== src/Bridge/Commands.antt =====
-- internal/bridge/commands.go and mode.go: the commands that stop a run, start a session over, and change
-- the working directory or the collaboration mode.
pub mod Scoped
pub mod Dispatch
use lark_coding_agent_bridge.Prelude.{
  ℕ, String, ◌⊎◌, inl, inr, Bool, true, false, ◌&&◌, ◌||◌, not, Option, none, some, List, [], ◌∷◌,
  ◌==◌, if◌then◌else◌, switch, has, concat, drop_runes, to_lower, starts_with,
}
use lark_coding_agent_bridge.Bridge.Desk.{Desk, Disk, stop_run, reset_session}
use lark_coding_agent_bridge.Store.Workspaces.{
  WorkspaceStore, set_current, save, remove, lookup_workspace, flush_workspaces,
}
use lark_coding_agent_bridge.Store.Sessions.{session_or_blank, set_session, flush_sessions}

-- What the commands change: the desk, and the working directories.
pub record Room : Type 0 where
  pub desk : Desk
  pub workspaces : WorkspaceStore

-- The system: what variables stand for, the home directory if there is one, the directory for temporary
-- files, and whether a path is there and is a directory.
pub record System : Type 0 where
  pub expand : String → String
  pub home : Option String
  pub temp : String
  pub stat : String → Option Bool
  pub written : Disk
  pub workspaces_written : Bool

-- What the command is answered with.
pub data Reply : Type 0 where
  usage missing file too_broad unknown unsupported : Reply
  started_over stopped nothing_running switched saved nothing_to_save removed mode_set not_saved :
      Reply
  shown : Reply

-- The handlers of other files that a command is passed on to.
pub data Handler : Type 0 where
  new_chat list_sessions bind_session open_session unbind_session show_status pick_model : Handler
  show_usage invite remove_access : Handler

-- A command is carried out here, or by another handler.
pub data Handled : Type 0 where
  here : Room → Reply → Handled
  delegated : Handler → Handled

abbrev pub by_result : Room × Reply → Handled
by_result (r, reply) = here r reply

abbrev pub or_blank : Option String → String
or_blank none = ""
or_blank (some s) = s

-- `~` and `~/` stand for the home directory.
unfoldable pub expand_home : Option String → String → String
expand_home none dir = dir
expand_home (some home) dir =
    if dir == "~"
    then home
    else if starts_with dir "~/"
    then concat home (drop_runes 1 dir)
    else dir

abbrev pub check_kind : String → List String → Option Bool → String ⊎ Reply
check_kind dir blocked none = inr missing
check_kind dir blocked (some false) = inr file
check_kind dir blocked (some true) =
    if not (dir == "") && has dir blocked then inr too_broad else inl dir

-- A directory that agents may work in, or why it is refused.
unfoldable pub validate_workspace : System → String → String ⊎ Reply
unfolding expand_home
validate_workspace sys input =
    let dir = expand_home sys.home (sys.expand input) in
    let blocked = "/" ∷ or_blank sys.home ∷ "/tmp" ∷ "/var" ∷ "/private/tmp" ∷ sys.temp ∷ [] in
    check_kind dir blocked (sys.stat dir)

unfoldable pub start_over : System → String → Room → Room
start_over sys sc r = record r { desk = reset_session sys.written sc (stop_run sc r.desk).0 }

-- A run of the scope ends, the directory is saved, and the session starts over.
unfoldable pub change_directory : System → String → String → Room → Room
change_directory sys sc dir r = record (start_over sys sc r) {
  workspaces = (flush_workspaces sys.workspaces_written (set_current dir r.workspaces)).0;
}

abbrev pub enter : System → String → String → Room → String ⊎ Reply → Room × Reply
enter sys sc target r (inl dir) =
    (change_directory sys sc (if target == "" then dir else target) r, switched)
enter sys sc target r (inr reason) = (r, reason)

-- `/cd`.
abbrev pub handle_cd : System → String → List String → Room → Room × Reply
handle_cd sys sc [] r = (r, usage)
handle_cd sys sc (input ∷ args) r = enter sys sc "" r (validate_workspace sys input)

-- `/ws use`: the directory as it was saved.
abbrev pub use_workspace : System → String → Option String → Room → Room × Reply
use_workspace sys sc none r = (r, missing)
use_workspace sys sc (some dir) r = enter sys sc dir r (validate_workspace sys dir)

unfoldable pub save_workspace : System → String → Room → Room × Reply
save_workspace sys name r = if r.workspaces.current == "" then (r, nothing_to_save) else (
  record r {
    workspaces =
        (flush_workspaces sys.workspaces_written (save name r.workspaces.current r.workspaces)).0;
  },
  saved,
)

unfoldable pub remove_workspace : System → String → Room → Room × Reply
remove_workspace sys name r =
    let (workspaces, found) = remove name r.workspaces in
    if found
    then (record r { workspaces = (flush_workspaces sys.workspaces_written workspaces).0 }, removed)
    else (r, missing)

abbrev ws_action : (String → Room × Reply) → List String → Room → Room × Reply
ws_action act [] r = (r, usage)
ws_action act (name ∷ args) r = act name

-- The actions of `/ws`.
abbrev pub ws_cases : System → String → List String → Room → List (String × (Room × Reply))
ws_cases sys sc args r =
    ("list", (r, shown))
    ∷ ("save", ws_action (λ name. save_workspace sys name r) args r)
    ∷ (
      "use",
      ws_action (λ name. use_workspace sys sc (lookup_workspace name r.workspaces) r) args r,
    )
    ∷ ("remove", ws_action (λ name. remove_workspace sys name r) args r)
    ∷ []

unfoldable pub handle_ws_command : System → String → List String → Room → Room × Reply
handle_ws_command sys sc [] r = (r, usage)
handle_ws_command sys sc (action ∷ args) r = switch action (ws_cases sys sc args r) (r, usage)

-- `setCollaborationMode`, of the modes that the agent has; the run ends before the mode is saved.
unfoldable pub set_collaboration_mode :
    ℕ → System → List String → String → String → Room → Room × Reply
set_collaboration_mode now sys modes sc want r =
    let desk = (stop_run sc r.desk).0 in
    let session = record (session_or_blank sc desk.sessions) { collaboration_mode = want } in
    let (sessions, written) =
      flush_sessions sys.written.sessions_written (set_session now sc session desk.sessions) in
    if want == "" || not (has want modes) then (r, unsupported) else (
      record r { desk = record desk { sessions = sessions } },
      if written then mode_set else not_saved,
    )

abbrev mode_args : ℕ → System → List String → String → List String → Room → Room × Reply
mode_args now sys modes sc [] r = (r, shown)
mode_args now sys modes sc (want ∷ []) r = set_collaboration_mode now sys modes sc (to_lower want) r
mode_args now sys modes sc (want ∷ more ∷ args) r = (r, usage)

-- `/mode`; an agent without modes has none.
abbrev pub handle_mode :
    ℕ → System → Option (List String) → String → List String → Room → Room × Reply
handle_mode now sys none sc args r = (r, unsupported)
handle_mode now sys (some modes) sc args r = mode_args now sys modes sc args r

abbrev is_new_chat : List String → Bool
is_new_chat [] = false
is_new_chat (arg ∷ args) = arg == "chat"

abbrev pub stop_command : String → Room → Room × Reply
stop_command sc r =
    let (desk, was_running) = stop_run sc r.desk in
    (record r { desk = desk }, if was_running then stopped else nothing_running)

abbrev pub command_cases :
    ℕ → System → Option (List String) → String → List String → Room → List (String × Handled)
command_cases now sys modes sc args r =
    (
      "/new",
      if is_new_chat args then delegated new_chat else here (start_over sys sc r) started_over,
    )
    ∷ ("/reset", here (start_over sys sc r) started_over)
    ∷ ("/stop", by_result (stop_command sc r))
    ∷ ("/cd", by_result (handle_cd sys sc args r))
    ∷ ("/ws", by_result (handle_ws_command sys sc args r))
    ∷ ("/mode", by_result (handle_mode now sys modes sc args r))
    ∷ ("/sessions", delegated list_sessions)
    ∷ ("/bind", delegated bind_session)
    ∷ ("/resume", delegated bind_session)
    ∷ ("/open", delegated open_session)
    ∷ ("/unbind", delegated unbind_session)
    ∷ ("/status", delegated show_status)
    ∷ ("/model", delegated pick_model)
    ∷ ("/usage", delegated show_usage)
    ∷ ("/invite", delegated invite)
    ∷ ("/remove", delegated remove_access)
    ∷ ("/help", here r shown)
    ∷ []

-- The switch of the commands.
unfoldable pub handle_command :
    ℕ → System → Option (List String) → String → String → List String → Room → Handled
handle_command now sys modes sc cmd args r =
    switch cmd (command_cases now sys modes sc args r) (here r unknown)
