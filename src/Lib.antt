-- ===== src/Lib.antt =====
-- Lark coding agent bridge: a bot that connects chats of the Lark platform to coding agents on the
-- machine it runs on. This library models the parts of it that decide something and keep state.
--
-- The parts and how they work together. A message of a chat comes in (internal/bridge/bridge.go,
-- HandleMessage); the access policy (internal/policy/access.go, with the lists of
-- internal/bridge/access.go) lets it in or not; it is a quick reply, the answer to an open ask, a
-- command, or it is queued under the scope of its chat and topic (internal/bridge/message.go). The
-- queue (internal/bridge/queue.go) hands batches to runs, one scope at a time. A run is an agent whose
-- events (internal/agent/types.go) are folded into the state of a card (internal/card/state.go), with
-- prices from internal/pricing/pricing.go. An agent may ask the user: the broker
-- (internal/ask/broker.go) holds the ask until a click, a typed reply, a timeout or the end of the run
-- settles it. Sessions, bindings, working directories and user groups outlive the process
-- (internal/state).
--
-- Files:
--   Prelude       lists, maps, texts and tests over the native numbers
--   Policy        internal/policy/access.go; Policy/Laws has its theorems
--   Ask           internal/ask/types.go (Types) and internal/ask/broker.go: validateInput (Validate),
--                 Register, Toggle, settle and the snapshot (Broker), Select, Submit, SubmitInput,
--                 SubmitComment, the search for a freeform ask and the bulk operations (Click), the
--                 answer that an agent gets (Answer, from format.go and internal/bridge/ask.go); Trace
--                 has the interleavings of critical sections, and Hook the questions of Claude's hook
--                 (internal/ask/format.go and server.go); the other files have the theorems
--   Queue         internal/bridge/queue.go; Queue/Lanes adds `flush` of internal/bridge/bridge.go
--   Agent         the adapters of internal/agent. Event: types.go; Match: discovery.go; Json and
--                 Marshal: decoded JSON and what encoding/json makes of it; Runs: the buffered channel of
--                 a run (safeSend and closeSlotLocked of pi.go, the same in opencode.go); Stream: whether
--                 a stream of events has ended; Codex: codex.go, its translator in Codex/Translate;
--                 AppServer: codex_appserver.go, its start in AppServer/Start and a turn in
--                 AppServer/Turn; OpenCode: opencode.go, its server in OpenCode/Server, the poll in
--                 OpenCode/Poll, names of models in OpenCode/Models, escapes in OpenCode/Url; Pi: pi.go,
--                 pi_models.go and pi_usage.go, dialogs in Pi/Ask and the process in Pi/Session; Acp:
--                 acp.go, with the run that cursor.go and grok.go share in Acp/Session; Cursor: the
--                 questions of cursor.go, and in Cursor/Print its print mode; Claude, Grok and Kimi: their
--                 commands and lines, and the questions of Grok
--   Card          internal/card/state.go: the state, and in Card/Reduce how events and endings change it
--   Pricing       internal/pricing/pricing.go
--   Store         internal/state/state.go (Sessions, Workspaces), bindings.go (Bindings) and
--                 user_groups.go (UserGroups)
--   Bridge        Message and Scope: internal/bridge/message.go; Access: internal/bridge/access.go with
--                 /invite and /remove of commands.go; Intake: HandleMessage; Desk: the maps of runs,
--                 cards, routes and model cards, /bind and /unbind, and what a run saves at its end
--                 (bridge.go, bind.go, model.go, ask.go, run_card.go of internal/bridge); Commands: the
--                 commands of commands.go and mode.go on runs, sessions and directories; Prompt: prompt.go
--   Registry      internal/registry/registry.go
--   Tests         runs and examples
--
-- How the source is read. A function that holds a mutex is one function from state to state; where
-- several of them interleave, a history is a list of such steps. Names are those of the source in
-- lower case with underscores. The clock, random ids, what the platform answers and whether a file can
-- be written are arguments. A Go map is a list of pairs without a repeated key, so its iteration order
-- is the order of the list. Token counts are natural numbers, and amounts of money are whole multiples
-- of a small unit, with exact sums where the source rounds in binary. Texts are compared as the source
-- does, and blanks and case are those of Go's Unicode tables as far as they matter. A log line, the
-- wording of a reply and the fields that nothing reads are left out.
--
-- A child process or a server is its messages: a line is decoded JSON, or nothing where it is not JSON.
-- Numbers in it are whole, or positive with six decimal places; what a cut at a number of bytes leaves
-- of a character is dropped. Callbacks that answer an agent are functions from the answers to what is sent.
-- An operation that closes a closed channel, a panic in Go, has no result. A channel holds 256 events and
-- drops more where the source does.
--
-- Loops are structural recursion, so nothing needs fuel.
--
-- Not modelled: the client of the platform and its JSON, the rendering of cards, how the
-- adapters start their processes, the search for sessions in the files of agents, configuration files
-- other than the access lists, the HTTP of the ask server, and the installation (supervisor,
-- upgrade, sync, main): they are input and output around the parts above. The active cards are a map
-- here, and a file in the source. That no timer of a scope gets the mutex between the hand-over of a
-- batch and its `Block` is a hypothesis of one theorem of Queue/Serial; Tests/Chats shows what happens
-- without it.
mod Prelude
pub mod Policy
pub mod Ask
pub mod Bridge
pub mod Queue
pub mod Agent
pub mod Pricing
pub mod Card
pub mod Store
pub mod Registry
pub mod Tests
