-- ===== src/Tests/Agents.antt =====
-- The adapters of agents.
use lark_coding_agent_bridge.Prelude.{
  has_char, ℕ, ◌<◌, String, ◌≡◌, refl, true, false, Option, none, some, List, [], ◌∷◌, ◌++◌, arith,
  ◌==◌, ltb, if◌then◌else◌, length, has, lookup, has_key, concat, starts_with,
}
use lark_coding_agent_bridge.Agent.Json.{str, obj, Fields, empty, entry}
use lark_coding_agent_bridge.Agent.Event.{AskOption}
use lark_coding_agent_bridge.Agent.Codex.{Translator}
use lark_coding_agent_bridge.Agent.Codex.Translate.{fresh, translate_all}
use lark_coding_agent_bridge.Agent.Codex.Said.{heard, said, waiting, translate_all-said}
use lark_coding_agent_bridge.Agent.Codex.Ends.{IsSettled, translate_all-Ends}
use lark_coding_agent_bridge.Agent.Codex.Tools.{Shown, answers, translate_all-answers}
use lark_coding_agent_bridge.Agent.Stream.{tail, standing, running, ended}
use lark_coding_agent_bridge.Agent.OpenCode.Poll.{
  MessageEntry, text_of, reconcile_poll, is_over, shown, reconcile_poll_complete,
}
use lark_coding_agent_bridge.Agent.OpenCode.Models.{
  SessionModel, split_model, session_model_name, shown_variant, split_model-session_model_name,
}
use lark_coding_agent_bridge.Agent.OpenCode.Url.{
  url_query_escape, read_value, plain, ends_value, read-url_query_escape,
}
use lark_coding_agent_bridge.Agent.OpenCode.Server
use lark_coding_agent_bridge.Agent.Pi.Session
use lark_coding_agent_bridge.Agent.Runs.{new_channel, capacity}
use lark_coding_agent_bridge.Agent.Acp.Session.{
  AcpSession, channel_at, is_closed, sent_to, prompt_failed, exit_tell, exit_mark, exit_events,
  exit_unseen,
}
use lark_coding_agent_bridge.Agent.Cursor.{CursorQuestion, format_cursor_ask_answer, answered}
use lark_coding_agent_bridge.Agent.Cursor.Answers.{
  Selected, ask_questions, ask_options, told, format_cursor_ask_answer-format_answers,
}
use lark_coding_agent_bridge.Ask.Types.{Result, ResultKind}
use lark_coding_agent_bridge.Ask.Validate.{option_exists}
use lark_coding_agent_bridge.Ask.Answer.{format_answers}
use lark_coding_agent_bridge.Agent.AppServer.Turn.{AppRun}
use lark_coding_agent_bridge.Agent.AppServer.Turn
use lark_coding_agent_bridge.Agent.AppServer.Once.{ClosesOnce, closings, perform_all-ClosesOnce}
use lark_coding_agent_bridge.Agent.AppServer.Start.{Options, initialize}
use lark_coding_agent_bridge.Agent.AppServer.Safe.{Safe, opened, initialize-Safe}

-- A run of the Codex CLI that says two things, uses a tool and ends.
abbrev line : String → Fields → Option Fields
line kind fields = some (entry "type" (str kind) fields)

abbrev text_item : String → String → Fields
text_item kind text =
    entry "item" (obj (entry "type" (str kind) (entry "text" (str text) empty))) empty

abbrev command : Fields
command =
    entry "item"
      (obj (
        entry "type" (str "command_execution")
          (entry "id" (str "t1") (entry "aggregated_output" (str "ok") empty))))
      empty

abbrev lines : List (Option Fields)
lines =
    line "item.completed" (text_item "agent_message" "Looking.")
    ∷ line "item.started" command
    ∷ line "item.completed" command
    ∷ none
    ∷ line "agent_message" (entry "message" (str "Done.") empty)
    ∷ line "turn.completed" empty
    ∷ line "error" empty
    ∷ []

abbrev codex : Translator
codex = fresh "gpt-5"

translate_all-said_example :
    waiting codex ++ heard codex lines
    ≡ said (translate_all codex lines).0 ++ waiting (translate_all codex lines).1
translate_all-said_example = translate_all-said codex lines

translate_all-Ends_example :
    (tail (standing codex.terminal) (translate_all codex lines).0
      ≡ standing (translate_all codex lines).1.terminal)
    × IsSettled (translate_all codex lines).1
translate_all-Ends_example = translate_all-Ends codex lines (λ e. refl)

nothing_started : Shown [] codex
unfolding has_key lookup has
nothing_started k h = cc

translate_all-answers_example : answers [] (translate_all codex lines).0 ≡ true
translate_all-answers_example = translate_all-answers [] codex lines nothing_started

-- A message of an OpenCode session of which the stream delivered the beginning.
abbrev half_message : MessageEntry
half_message = record {
  id = "m1";
  role = "assistant";
  completed = 5;
  tokens = none;
  cost = some 3;
  failure = none;
  parts = record { id = "p1"; kind = "text"; text = "Hello" } ∷ [];
}

half_delivered : starts_with (text_of half_message.parts) "Hel" ≡ true
unfolding text_of
half_delivered = refl

reconcile_poll_complete_example :
    ((reconcile_poll "Hel" half_message).1 ≡ is_over half_message)
    × (is_over half_message ≡ false → (reconcile_poll "Hel" half_message).0 ≡ [])
    × (is_over half_message ≡ true
        → (concat "Hel" (shown (reconcile_poll "Hel" half_message).0) ≡ text_of half_message.parts)
          × (tail running (reconcile_poll "Hel" half_message).0 ≡ ended))
reconcile_poll_complete_example = reconcile_poll_complete "Hel" half_message half_delivered

abbrev opus : SessionModel
opus = record { provider = "anthropic"; id = "claude-opus"; variant = "high" }

no_slash : has_char b'/' opus.provider ≡ false
unfolding has_char
no_slash = refl

no_hash : has_char b'#' opus.id ≡ false
unfolding has_char
no_hash = refl

split_model-session_model_name_example :
    split_model (session_model_name opus) ≡ some (record opus { variant = shown_variant "high" })
split_model-session_model_name_example =
    split_model-session_model_name opus refl refl no_slash no_hash

abbrev path_bytes : List ℕ
path_bytes = 47 ∷ 32 ∷ 200 ∷ []

path_escaped : url_query_escape path_bytes ≡ 47 ∷ 37 ∷ 50 ∷ 48 ∷ 37 ∷ 67 ∷ 56 ∷ []
unfolding url_query_escape
path_escaped = refl

-- The end of the query: another parameter.
abbrev query_rest : List ℕ
query_rest = 38 ∷ 120 ∷ 61 ∷ 49 ∷ []

read-url_query_escape_example :
    read_value plain (url_query_escape path_bytes ++ query_rest) ≡ some (path_bytes, query_rest)
unfolding ends_value
read-url_query_escape_example =
    read-url_query_escape path_bytes query_rest (omega arith, (omega arith, (omega arith, tt))) refl

-- A server whose process exits while one of two runs is over.
abbrev server_ops : List Server.Op
server_ops =
    Server.register (record { session = "s1"; directory = "/w"; access = "full" })
    ∷ Server.register (record { session = "s2"; directory = "/w"; access = "" })
    ∷ Server.bus "session.idle" (entry "sessionID" (str "s1") empty)
    ∷ Server.exit
    ∷ []

perform_all-IsSound_example :
    (end : Server.Server) × (Server.perform_all (λ id. true) Server.new_server server_ops
      ≡ some end)
    × Server.Laws.IsSound end
perform_all-IsSound_example =
    Server.Laws.perform_all-IsSound (λ id. true) Server.new_server server_ops tt

-- A Pi process whose one run has a prompt that fails, and which then exits.
abbrev pi : Session.PiSession
pi = Session.begin_run (Session.new_session "/w" "pi" "Pi")

pi-IsSound : Session.Laws.IsSound pi
unfolding Session.begin_run Session.first_channel
pi-IsSound = (λ e. refl, tt)

abbrev pi_ops : List Session.Op
pi_ops = Session.failed 0 ∷ Session.exit ∷ []

pi_timely : Session.Laws.AllTimely pi pi_ops
unfolding Session.begin_run Session.Laws.in_flight
pi_timely = (refl, λ next e. (tt, λ last f. tt))

timely-IsSound_example :
    (end : Session.PiSession) × (Session.perform_all pi pi_ops ≡ some end)
    × Session.Laws.IsSound end
timely-IsSound_example = Session.Laws.timely-IsSound pi pi_ops pi-IsSound pi_timely

exit_during_prompt_example :
    (gone : Session.PiSession) × (Session.session_exit (Session.begin_run pi) ≡ some gone)
    × (gone.pending ≡ [])
    × (Session.prompt_failed gone (length pi.runs) ≡ none)
exit_during_prompt_example = Session.Laws.exit_during_prompt pi pi-IsSound

-- A Grok run in flight.
abbrev grok : AcpSession
grok = record {
  name = "Grok";
  dead = false;
  session_id = "s1";
  run_ch = some 0;
  chans = new_channel ∷ [];
}

grok_here : 0 < length grok.chans
grok_here = omega arith

grok_open : (channel_at 0 grok.chans).closed ≡ false
grok_open = refl

grok_room : ltb (channel_at 0 grok.chans).unread capacity ≡ true
grok_room = refl

exit_unseen_example :
    (is_closed (prompt_failed (exit_tell (exit_mark grok)) 0 "EOF") 0 ≡ true)
    × (sent_to (prompt_failed (exit_tell (exit_mark grok)) 0 "EOF") 0
        ≡ sent_to grok 0 ++ exit_events "Grok")
    × (is_closed (exit_tell (prompt_failed (exit_mark grok) 0 "EOF")) 0 ≡ true)
    × (sent_to (exit_tell (prompt_failed (exit_mark grok) 0 "EOF")) 0 ≡ sent_to grok 0)
exit_unseen_example = exit_unseen grok 0 "EOF" refl grok_here grok_open grok_room

-- A question of the Cursor CLI, of which the second option was selected.
abbrev options : List AskOption
options = record { key = "a"; label = "Yes" } ∷ record { key = "b"; label = "No" } ∷ []

abbrev go_on : List CursorQuestion
go_on =
    record {
      id = "q1";
      question = record { prompt = "Go on?"; options = options; multi_select = false };
    }
    ∷ []

abbrev picked : Result
picked = record {
  kind = ResultKind.answered;
  answers = ("b" ∷ []) ∷ [];
  by = "ou_1";
  comment = "";
  reason = "";
}

picked-Selected : Selected go_on picked.answers
unfolding ask_options option_exists
picked-Selected = (((refl, tt), (tt, tt)), (((refl, refl), tt)), refl)

format_cursor_ask_answer-format_answers_example :
    format_cursor_ask_answer go_on (format_answers (ask_questions go_on) picked) false
    ≡ answered (told go_on picked.answers)
format_cursor_ask_answer-format_answers_example =
    format_cursor_ask_answer-format_answers go_on picked picked-Selected

-- A turn of the app server that is completed before the process fails.
abbrev turn : AppRun
turn = record {
  thread_id = "th1";
  turn_id = "tu1";
  model = "";
  stopped = false;
  finished = false;
  pending = [];
  events = [];
  refused = [];
  channel_closed = false;
}

abbrev turn_ops : List Turn.Op
turn_ops =
    Turn.message (some (entry "method" (str "turn/completed") (entry "params" (obj empty) empty)))
    ∷ Turn.stopping
    ∷ Turn.exited (some "codex app-server exited with code 1")
    ∷ []

turn-ClosesOnce : ClosesOnce turn
unfolding closings
turn-ClosesOnce = record { once = omega arith; open_turn = λ e. refl }

perform_all-ClosesOnce_example : ClosesOnce (Turn.perform_all turn turn_ops)
perform_all-ClosesOnce_example = perform_all-ClosesOnce turn turn_ops turn-ClosesOnce

-- A server with an active thread.
abbrev active : Fields
active =
    entry "thread"
      (obj
        (entry "id" (str "th1") (entry "status" (obj (entry "type" (str "active") empty)) empty)))
      empty

abbrev answer : String → Option Fields
answer method = if method == "thread/read" then none else some active

abbrev shared : Options
shared = record { thread_id = "th1"; shared = true; disk_active = false; mode = ""; model = "" }

initialize-Safe_example :
    Safe answer shared (opened answer shared) (initialize answer shared).requests
initialize-Safe_example = initialize-Safe answer shared
