-- ===== src/Tests/Chats.antt =====
-- Messages of chats, batched and taken in.
use lark_coding_agent_bridge.Queue.Serial.{one_run_per_scope}
use lark_coding_agent_bridge.Queue.Lanes.{
  Move, arrives, runs_out, flushes, finishes, moves, new_lanes, IsSerial, hands, AllPrompt, move,
  hand_over, takes, flush,
}
use lark_coding_agent_bridge.Queue.{
  pushes, expires, fires, blocks, unblocks, step, push, arm, elem, remove, block, unblock,
  ScopeQueue, new_pending_queue, run, fire, expire, queue_or_new, Event,
}
use lark_coding_agent_bridge.Prelude.{
  ℕ, String, ◌≡◌, refl, ◌≢◌, true, false, some, List, [], ◌∷◌, ◌++◌, arith, lookup, insert,
}
use lark_coding_agent_bridge.Bridge.Message.{Message}
use lark_coding_agent_bridge.Queue.Order.{delivered, buffered, pushed, flush_conserves}
use lark_coding_agent_bridge.Queue.Live.{buffered_flushes}
use lark_coding_agent_bridge.Policy.{OwnerState.ok}
use lark_coding_agent_bridge.Bridge.Access.{ChatAccess}
use lark_coding_agent_bridge.Ask.Broker.{new_broker}
use lark_coding_agent_bridge.Bridge.Intake.{Intake, handle_message}
use lark_coding_agent_bridge.Bridge.Intake.Gate.{Gated, intake_gate}

abbrev message : String → String → String → String → Message
message id chat_type thread content = record {
  message_id = id;
  chat_id = "oc_1";
  chat_type = chat_type;
  thread_id = thread;
  root_id = "";
  parent_id = "";
  sender_id = "ou_own";
  sender_type = "user";
  content = content;
  raw_type = "text";
  mentions = [];
  mention_all = false;
  mentioned_bot = true;
  resources = [];
}

abbrev hello : Message
hello = message "om_1" "group" "t1" "hello"

abbrev more : Message
more = message "om_2" "group" "t2" "and more"

-- A message comes while the run of the one before is in flight.
abbrev busy : List Event
busy =
    pushes "oc_1:t1" hello
    ∷ expires "oc_1:t1" 0
    ∷ fires "oc_1:t1" 0
    ∷ blocks "oc_1:t1"
    ∷ pushes "oc_1:t1" more
    ∷ unblocks "oc_1:t1"
    ∷ []

flush_conserves_example :
    delivered "oc_1:t1" (run new_pending_queue busy).flushed
      ++ buffered "oc_1:t1" (run new_pending_queue busy)
    ≡ pushed "oc_1:t1" busy
flush_conserves_example = flush_conserves "oc_1:t1" busy

abbrev waiting_queue : ScopeQueue
waiting_queue = record {
  buffer = more ∷ [];
  timer = some 1;
  blocked = false;
  ticking = 1 ∷ [];
  started = [];
  next_timer = 2;
}

busy_waits : lookup "oc_1:t1" (run new_pending_queue busy).queues ≡ some waiting_queue
unfolding run step new_pending_queue push arm lookup insert expire elem remove fire block unblock
busy_waits = refl

holds_one : waiting_queue.buffer ≢ []
holds_one = ground arith

buffered_flushes_example :
    let q = run new_pending_queue busy in
    (id : ℕ) × (waiting_queue.timer ≡ some id)
    × ((fire "oc_1:t1" id (expire "oc_1:t1" id q)).flushed
        ≡ q.flushed ++ (("oc_1:t1", waiting_queue.buffer) ∷ []))
    × ((queue_or_new (lookup "oc_1:t1" (fire "oc_1:t1" id (expire "oc_1:t1" id q)).queues)).buffer
        ≡ [])
buffered_flushes_example = buffered_flushes busy "oc_1:t1" waiting_queue busy_waits holds_one refl

abbrev serial : List Move
serial =
    arrives "oc_1:t1" hello
    ∷ runs_out "oc_1:t1" 0
    ∷ hands "oc_1:t1" 0
    ∷ flushes "oc_1:t1"
    ∷ arrives "oc_1:t1" more
    ∷ finishes "oc_1:t1"
    ∷ []

serial-AllPrompt : AllPrompt new_lanes serial
unfolding new_lanes move
serial-AllPrompt = (tt, (tt, (refl, (tt, (tt, (tt, tt))))))

one_run_per_scope_example : IsSerial (moves new_lanes serial) "oc_1:t1"
one_run_per_scope_example = one_run_per_scope serial "oc_1:t1" serial-AllPrompt

-- A second timer gets the mutex before the first batch blocks its scope.
abbrev overtaken : List Move
overtaken =
    arrives "oc_1:t1" hello
    ∷ runs_out "oc_1:t1" 0
    ∷ hands "oc_1:t1" 0
    ∷ arrives "oc_1:t1" more
    ∷ runs_out "oc_1:t1" 1
    ∷ hands "oc_1:t1" 1
    ∷ flushes "oc_1:t1"
    ∷ flushes "oc_1:t1"
    ∷ []

two_runs : (moves new_lanes overtaken).running "oc_1:t1" ≡ 2
unfolding moves move new_lanes new_pending_queue push arm lookup insert expire elem remove hand_over
    takes fire flush block
two_runs = refl

abbrev access : ChatAccess
access = record { owner_open_id = "ou_own"; allowed_users = []; allowed_chats = []; admins = [] }

abbrev intake : Intake
intake = record {
  seat = record {
    profile = some access;
    stored = some access;
    controls = record { bot_owner_id = "ou_own"; owner_state = ok; owner_error = "" };
  };
  bot_open_id = "ou_bot";
  auto_reply = false;
  pending_replies = [];
  asks = new_broker;
  pending = new_pending_queue;
}

intake_gate_example : Gated hello intake (handle_message hello intake)
intake_gate_example = intake_gate hello intake
