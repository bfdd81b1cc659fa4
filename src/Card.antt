-- ===== src/Card.antt =====
-- internal/card/state.go: the presentation state of one agent run. The record of a tool is a value
-- here; the source shares it by pointer and lets the bridge refresh its duration in place.
pub mod Reduce
pub mod Blocks
pub mod Transcript
pub mod Ends
use lark_coding_agent_bridge.Prelude.{
  ℕ, zero, suc, ◌+◌, ◌-◌, ◌*◌, ◌/◌, ◌%◌, ◌≤◌, ◌<◌, String, ◌≡◌, refl, sym, ap, ◌∙◌, subst, ◌≢◌, ◌↔◌,
  ◌⊎◌, inl, inr, Bool, true, false, ◌&&◌, ◌||◌, not, Option, none, some, List, [], ◌∷◌, ◌++◌, map,
  arith, ◌==◌, eq_iff, eq_refl, ltb, leb, eqb, if◌then◌else◌, Bool-cases, Option-cases, length,
  get_elem?, set, replicate, All, All-append, length-append, length-set, length-replicate, has,
  without, has-without, has-append, has-without_self, Dict, lookup, insert, delete, keep, has_key,
  lookup-insert, lookup-insert_self, lookup-delete, lookup-delete_self, AllVals, AllVals-insert,
  AllVals-delete, AllVals-keep, AllVals-lookup, ℤ, pos, negsuc, concat,
}
use Prim.Native.String.{len, slice}
use lark_coding_agent_bridge.Agent.Event.{Event, EventType, TerminationReason}
use lark_coding_agent_bridge.Pricing.{calculate}

pub data ToolStatus : Type 0 where
  running done failed : ToolStatus

pub record ToolEntry : Type 0 where
  pub id : String
  pub name : String
  pub input : String
  pub status : ToolStatus
  pub output : String
  pub duration_ms : ℕ

-- A text with whether it is still being appended to, or a tool.
pub data Block : Type 0 where
  text : String → Bool → Block
  tool : ToolEntry → Block

pub data FooterStatus : Type 0 where
  none_shown thinking tool_running streaming : FooterStatus

pub data Terminal : Type 0 where
  live finished continued interrupted error idle_timeout : Terminal

pub record RunStats : Type 0 where
  pub duration_ms : ℕ
  pub input_tokens : ℕ
  pub output_tokens : ℕ
  pub cached_input_tokens : ℕ
  pub reasoning_output_tokens : ℕ
  pub cost_usd : ℕ
  pub cost_cny : ℕ
  pub model : String
  pub cwd : String
  pub usage_available : Bool
  pub context_window : ℕ
  pub session_id : String
  pub thread_id : String

pub record RunState : Type 0 where
  pub blocks : List Block
  pub final_text : String
  pub reasoning : String
  pub reasoning_active : Bool
  pub footer : FooterStatus
  pub terminal : Terminal
  pub error_msg : String
  pub stats : RunStats

-- `shortID`, at a cut of whole characters.
unfoldable pub short_id : String → ℕ → String
short_id id max = if eqb max 0 || leb (len id) max then id else slice id 0 max

unfoldable pub session_ref : RunStats → String
session_ref s =
    let id = if s.session_id == "" then s.thread_id else s.session_id in
    if id == "" then "" else short_id id 12

unfoldable pub total_tokens : RunStats → ℕ
total_tokens s =
    let total = s.input_tokens + s.output_tokens + s.reasoning_output_tokens in
    if ltb s.input_tokens s.cached_input_tokens then total + s.cached_input_tokens else total

unfoldable pub context_tokens : RunStats → ℕ
context_tokens s =
    if ltb s.input_tokens s.cached_input_tokens
    then s.input_tokens + s.cached_input_tokens
    else s.input_tokens

abbrev pub no_stats : RunStats
no_stats = record {
  duration_ms = 0;
  input_tokens = 0;
  output_tokens = 0;
  cached_input_tokens = 0;
  reasoning_output_tokens = 0;
  cost_usd = 0;
  cost_cny = 0;
  model = "";
  cwd = "";
  usage_available = false;
  context_window = 0;
  session_id = "";
  thread_id = "";
}

unfoldable pub initial_state : RunState
initial_state = record {
  blocks = [];
  final_text = "";
  reasoning = "";
  reasoning_active = false;
  footer = thinking;
  terminal = live;
  error_msg = "";
  stats = no_stats;
}
