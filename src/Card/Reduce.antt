-- ===== src/Card/Reduce.antt =====
-- How events and endings change the card: `Reduce` and the marks of internal/card/state.go.
use lark_coding_agent_bridge.Prelude.{
  ℕ, String, Bool, true, false, ◌&&◌, not, Option, none, some, List, [], ◌∷◌, ◌++◌, ◌==◌, ltb,
  if◌then◌else◌, concat,
}
use lark_coding_agent_bridge.Agent.Event.{Event, EventType, TerminationReason}
use lark_coding_agent_bridge.Pricing.{calculate}
use lark_coding_agent_bridge.Card.{
  ToolStatus, ToolEntry, Block, Terminal, RunStats, RunState, running, done, failed, text, tool,
  none_shown, thinking, tool_running, streaming, live, finished, continued, interrupted, error,
  idle_timeout,
}

abbrev pub close_block : Block → Block
close_block (text c s) = text c false
close_block (tool t) = tool t

unfoldable pub close_streaming_text : List Block → List Block
close_streaming_text [] = []
close_streaming_text (b ∷ bs) = close_block b ∷ close_streaming_text bs

abbrev pub extend_last : Block → String → List Block
extend_last (text c true) delta = text (concat c delta) true ∷ []
extend_last (text c false) delta = text c false ∷ text delta true ∷ []
extend_last (tool t) delta = tool t ∷ text delta true ∷ []

-- A delta goes on the last block if that is a streaming text, and else opens a block.
unfoldable pub append_text : List Block → String → List Block
append_text [] delta = text delta true ∷ []
append_text (b ∷ []) delta = extend_last b delta
append_text (b ∷ c ∷ bs) delta = b ∷ append_text (c ∷ bs) delta

abbrev pub finish_tool : String → String → Bool → ToolEntry → ToolEntry
finish_tool id output is_error t =
    if t.id == id
    then record t { output = output; status = (if is_error then failed else done) }
    else t

unfoldable pub finish_tools : String → String → Bool → List Block → List Block
finish_tools id output is_error [] = []
finish_tools id output is_error (text c s ∷ bs) = text c s ∷ finish_tools id output is_error bs
finish_tools id output is_error (tool t ∷ bs) =
    tool (finish_tool id output is_error t) ∷ finish_tools id output is_error bs

abbrev pub new_tool : Event → ToolEntry
new_tool e = record {
  id = e.id;
  name = e.name;
  input = e.input;
  status = running;
  output = "";
  duration_ms = 0;
}

abbrev pub or_keep : String → String → String
or_keep new old = if new == "" then old else new

unfoldable pub system_stats : Event → RunStats → RunStats
system_stats e s = record s {
  model = or_keep e.model s.model;
  session_id = or_keep e.session_id s.session_id;
  thread_id = or_keep e.thread_id s.thread_id;
  context_window = (if ltb 0 e.context_window then e.context_window else s.context_window);
}

-- The clock, as the price table reads it, is the first argument.
unfoldable pub usage_stats : ℕ × ℕ → Event → RunStats → RunStats
usage_stats now e s =
    let cny = calculate s.model e.input_tokens e.output_tokens e.cached_input_tokens now in
    record s {
      input_tokens = e.input_tokens;
      output_tokens = e.output_tokens;
      cached_input_tokens = e.cached_input_tokens;
      reasoning_output_tokens = e.reasoning_output_tokens;
      cost_usd = e.cost_usd;
      usage_available = true;
      cost_cny = (if not (s.model == "") && ltb 0 cny then cny else s.cost_cny);
    }

unfoldable pub reduce_error : TerminationReason → Event → RunState → RunState
reduce_error TerminationReason.interrupted e s = record s {
  terminal = interrupted;
  footer = none_shown;
}
reduce_error TerminationReason.timeout e s = record s {
  terminal = idle_timeout;
  footer = none_shown;
}
reduce_error _ e s = record s { terminal = error; error_msg = e.message; footer = none_shown }

abbrev pub done_terminal : TerminationReason → Terminal
done_terminal TerminationReason.interrupted = interrupted
done_terminal TerminationReason.timeout = idle_timeout
done_terminal _ = finished

-- What all ends of a run do but for the verdict.
abbrev pub close_as : Terminal → RunState → RunState
close_as t s = record s {
  blocks = close_streaming_text s.blocks;
  reasoning_active = false;
  terminal = t;
  footer = none_shown;
}

unfoldable pub reduce_done : Event → RunState → RunState
reduce_done e s = close_as (done_terminal e.termination_reason) (record s {
  stats = record (s.stats) {
    session_id = or_keep e.session_id s.stats.session_id;
    thread_id = or_keep e.thread_id s.stats.thread_id;
  };
})

-- The `switch` of `Reduce`; an ask event falls through.
unfoldable pub reduce_kind : EventType → ℕ × ℕ → Event → RunState → RunState
reduce_kind EventType.text now e s = record s {
  blocks = append_text s.blocks e.delta;
  reasoning_active = false;
  footer = streaming;
}
reduce_kind EventType.final_text now e s = record s { final_text = e.content }
reduce_kind EventType.thinking now e s = record s {
  reasoning = concat s.reasoning e.delta;
  reasoning_active = true;
  footer = thinking;
}
reduce_kind EventType.tool_use now e s = record s {
  blocks = close_streaming_text s.blocks ++ (tool (new_tool e) ∷ []);
  reasoning_active = false;
  footer = tool_running;
}
reduce_kind EventType.tool_result now e s = record s {
  blocks = finish_tools e.id e.output e.is_error s.blocks;
}
reduce_kind EventType.system now e s = record s { stats = system_stats e s.stats }
reduce_kind EventType.usage now e s = record s { stats = usage_stats now e s.stats }
reduce_kind EventType.error now e s = reduce_error e.termination_reason e s
reduce_kind EventType.done now e s = reduce_done e s
reduce_kind EventType.ask_user now e s = s

unfoldable pub reduce : ℕ × ℕ → RunState → Event → RunState
reduce now s e = reduce_kind e.kind now e s

unfoldable pub reduce_all : ℕ × ℕ → RunState → List Event → RunState
reduce_all now s [] = s
reduce_all now s (e ∷ es) = reduce_all now (reduce now s e) es

unfoldable pub mark_interrupted : RunState → RunState
mark_interrupted s = close_as interrupted s

unfoldable pub mark_idle_timeout : RunState → RunState
mark_idle_timeout s = close_as idle_timeout s

unfoldable pub mark_continued : RunState → RunState
mark_continued s = close_as continued s

abbrev pub is_live : Terminal → Bool
is_live live = true
is_live _ = false

unfoldable pub finalize_if_running : RunState → RunState
finalize_if_running s = if is_live s.terminal then close_as finished s else s

abbrev pub is_running : ToolStatus → Bool
is_running running = true
is_running _ = false

-- The search from the end of the list.
unfoldable pub last_running : List Block → Option ToolEntry
last_running [] = none
last_running (text c s ∷ bs) = last_running bs
last_running (tool t ∷ bs) = elim (last_running bs) [
  | some u ↦ some u
  | none ↦ if is_running t.status then some t else none
]

unfoldable pub last_running_tool : RunState → Option ToolEntry
last_running_tool s = last_running s.blocks

-- The loop over the blocks, with what the builder holds.
unfoldable pub text_loop : String → List Block → String
text_loop sb [] = sb
text_loop sb (text c s ∷ bs) = text_loop (if sb == "" then c else concat sb (concat "\n\n" c)) bs
text_loop sb (tool t ∷ bs) = text_loop sb bs

unfoldable pub text_content : RunState → String
text_content s = if s.final_text == "" then text_loop "" s.blocks else s.final_text
