-- ===== src/Agent/Event.antt =====
-- The event type of internal/agent/types.go. Token counts are naturals, `any` inputs are their JSON
-- text, and a cost in dollars is a count of millionths. `Reply`, the function that an ask event carries, stands
-- with the adapter that makes it.
use lark_coding_agent_bridge.Prelude.{ℕ, String, Bool, false, List, []}

pub data EventType : Type 0 where
  system text final_text thinking tool_use tool_result ask_user usage done error : EventType

pub data TerminationReason : Type 0 where
  unset normal interrupted timeout failed : TerminationReason

pub record AskOption : Type 0 where
  pub key : String
  pub label : String

pub record AskQuestion : Type 0 where
  pub prompt : String
  pub options : List AskOption
  pub multi_select : Bool

pub record Event : Type 0 where
  pub kind : EventType
  pub session_id : String
  pub thread_id : String
  pub cwd : String
  pub model : String
  pub context_window : ℕ
  pub delta : String
  pub content : String
  pub id : String
  pub name : String
  pub input : String
  pub output : String
  pub is_error : Bool
  pub ask_id : String
  pub questions : List AskQuestion
  pub freeform : Bool
  pub source : String
  pub input_tokens : ℕ
  pub output_tokens : ℕ
  pub cached_input_tokens : ℕ
  pub reasoning_output_tokens : ℕ
  pub cost_usd : ℕ
  pub message : String
  pub termination_reason : TerminationReason

-- The zero value of the struct, with its type set.
abbrev pub blank : EventType → Event
blank kind = record {
  kind = kind;
  session_id = "";
  thread_id = "";
  cwd = "";
  model = "";
  context_window = 0;
  delta = "";
  content = "";
  id = "";
  name = "";
  input = "";
  output = "";
  is_error = false;
  ask_id = "";
  questions = [];
  freeform = false;
  source = "";
  input_tokens = 0;
  output_tokens = 0;
  cached_input_tokens = 0;
  reasoning_output_tokens = 0;
  cost_usd = 0;
  message = "";
  termination_reason = unset;
}
