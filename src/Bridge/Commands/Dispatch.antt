-- ===== src/Bridge/Commands/Dispatch.antt =====
-- Which commands internal/bridge/commands.go carries out itself, and what they do.
use lark_coding_agent_bridge.Prelude.{
  true, subst, sym, eq_iff, switch_All_keys, ℕ, String, ◌≡◌, refl, false, Option, List, [], ◌∷◌,
  ◌==◌, either, has,
}
use lark_coding_agent_bridge.Bridge.Commands.{
  Handler, Handled, here, delegated, by_result, new_chat, list_sessions, bind_session, open_session,
  unbind_session, show_status, pick_model, show_usage, invite, remove_access, shown, started_over,
  stop_command, command_cases, unknown, Room, System, Reply, start_over, handle_cd,
  handle_ws_command, handle_mode, is_new_chat, handle_command,
}
use lark_coding_agent_bridge.Bridge.Commands.Scoped.{
  Kept, IsCleared, KeptBy, starts_over, start_over-Kept, start_over-IsCleared, quiet-KeptBy,
  same-Kept, handle_cd-Kept, handle_ws_command-Kept, handle_mode-Kept, stop_command-Kept,
}

-- The commands that another handler carries out.
abbrev pub commands_of : Handler → List String
commands_of new_chat = "/new" ∷ []
commands_of list_sessions = "/sessions" ∷ []
commands_of bind_session = "/bind" ∷ "/resume" ∷ []
commands_of open_session = "/open" ∷ []
commands_of unbind_session = "/unbind" ∷ []
commands_of show_status = "/status" ∷ []
commands_of pick_model = "/model" ∷ []
commands_of show_usage = "/usage" ∷ []
commands_of invite = "/invite" ∷ []
commands_of remove_access = "/remove" ∷ []

-- What a command does in its scope, or whose command it is.
abbrev pub InScope : String → String → Room → Handled → Type 0
InScope sc cmd r (here r' reply) =
    Kept sc r.desk r'.desk × (starts_over reply ≡ true → IsCleared sc r'.desk)
InScope sc cmd r (delegated h) = has cmd (commands_of h) ≡ true

result-InScope :
    (sc cmd : String) (r : Room) (result : Room × Reply)
    → KeptBy sc r result
    → InScope sc cmd r (by_result result)
result-InScope sc cmd r (r', reply) h = h

delegated-InScope :
    (sc cmd : String) (r : Room) (h : Handler) (k : String)
    → has k (commands_of h) ≡ true
    → (cmd == k) ≡ true
    → InScope sc cmd r (delegated h)
delegated-InScope sc cmd r h k q e =
    subst (λ c. has c (commands_of h) ≡ true) (sym ((eq_iff cmd k).0 e)) q

-- A command is passed on to the handler that has this command, or is carried out here. Then, whatever its
-- arguments, it changes the run and the session of no scope but the one that it was sent in; and if it
-- tells that the session was started over, or the working directory switched, that scope has no run and
-- no session any more.
pub handle_command-InScope :
    (now : ℕ) (sys : System) (modes : Option (List String)) (sc cmd : String) (args : List String)
    (r : Room)
    → InScope sc cmd r (handle_command now sys modes sc cmd args r)
unfolding handle_command has
handle_command-InScope now sys modes sc cmd args r =
    let over : InScope sc cmd r (here (start_over sys sc r) started_over) =
      (start_over-Kept sys sc r, λ h. start_over-IsCleared sys sc r) in
    let quiet = λ (reply : Reply) (q : starts_over reply ≡ false).
      quiet-KeptBy sc r r reply q (same-Kept sc r.desk) in
    let by = λ (result : Room × Reply) (k : KeptBy sc r result). result-InScope sc cmd r result k in
    let to = delegated-InScope sc cmd r in
    switch_All_keys (InScope sc cmd r) cmd (command_cases now sys modes sc args r) (here r unknown)
      (
        (λ e. either (InScope sc cmd r) (is_new_chat args) _ _ (to new_chat "/new" refl e) over),
        (
          (λ e. over),
          (
            (λ e. by (stop_command sc r) (stop_command-Kept sc r)),
            (
              (λ e. by (handle_cd sys sc args r) (handle_cd-Kept sys sc args r)),
              (
                (λ e. by (handle_ws_command sys sc args r) (handle_ws_command-Kept sys sc args r)),
                (
                  (λ e.
                      by (handle_mode now sys modes sc args r)
                        (handle_mode-Kept now sys modes sc args r)),
                  (
                    to list_sessions "/sessions" refl,
                    (
                      to bind_session "/bind" refl,
                      (
                        to bind_session "/resume" refl,
                        (
                          to open_session "/open" refl,
                          (
                            to unbind_session "/unbind" refl,
                            (
                              to show_status "/status" refl,
                              (
                                to pick_model "/model" refl,
                                (
                                  to show_usage "/usage" refl,
                                  (
                                    to invite "/invite" refl,
                                    (
                                      to remove_access "/remove" refl,
                                      ((λ e. quiet shown refl), tt),
                                    ),
                                  ),
                                ),
                              ),
                            ),
                          ),
                        ),
                      ),
                    ),
                  ),
                ),
              ),
            ),
          ),
        ),
      )
      (quiet unknown refl)
