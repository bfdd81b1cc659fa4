-- ===== src/Bridge/Intake.antt =====
-- internal/bridge/bridge.go `HandleMessage` with internal/bridge/commands.go `consumePendingReply` and
-- internal/bridge/ask.go `tryAnswerAskWithText`: what becomes of a normalized message. Replies, the
-- group hint and the typing reaction are left to the outcome.
pub mod Routes
pub mod Gate
use lark_coding_agent_bridge.Prelude.{
  String, Bool, true, false, ◌&&◌, not, Option, none, some, [], ◌∷◌, ◌==◌, if◌then◌else◌, Dict,
  lookup, insert, delete, trim_space, starts_with,
}
use lark_coding_agent_bridge.Ask.Types.{ClickOutcome, accepted}
use lark_coding_agent_bridge.Ask.Broker.{Broker}
use lark_coding_agent_bridge.Ask.Click.{find_freeform_by_chat, submit_comment}
use lark_coding_agent_bridge.Bridge.Message.{Message, scope}
use lark_coding_agent_bridge.Bridge.Access.{Seat, check_message_access}
use lark_coding_agent_bridge.Queue.{PendingQueue, push}

pub record PendingReply : Type 0 where
  pub group_chat_id : String
  pub card_message_id : String
  pub prompt_msg_id : String

pub record Intake : Type 0 where
  pub seat : Seat
  pub bot_open_id : String
  pub auto_reply : Bool
  pub pending_replies : Dict PendingReply
  pub asks : Broker
  pub pending : PendingQueue

unfoldable pub start_quick_reply : String → String → String → String → Intake → Intake
start_quick_reply group card prompt operator s = record s {
  pending_replies =
      insert operator
        (record { group_chat_id = group; card_message_id = card; prompt_msg_id = prompt })
        s.pending_replies;
}

unfoldable pub consume_pending_reply : String → Intake → Intake × Option PendingReply
consume_pending_reply operator s = elim (lookup operator s.pending_replies) [
  | none ↦ (s, none)
  | some pr ↦ (record s { pending_replies = delete operator s.pending_replies }, some pr)
]

abbrev pub is_accepted : ClickOutcome → Bool
is_accepted accepted = true
is_accepted o = false

unfoldable pub try_answer_ask_with_text : String → String → String → Broker → Broker × Bool
try_answer_ask_with_text chat_id operator text b = elim (find_freeform_by_chat chat_id b) [
  | none ↦ (b, false)
  | some p ↦ let (b', o) = submit_comment p.id operator text b in (b', is_accepted o)
]

pub data Outcome : Type 0 where
  dropped : Outcome
  forwarded : PendingReply → String → Outcome
  answered : Outcome
  command : String → Outcome
  queued : String → Outcome

abbrev pub no_resources : Message → Bool
no_resources msg = elim msg.resources [ [] ↦ true | r ∷ rs ↦ false ]

abbrev pub forward_reply : Message → PendingReply → Outcome
forward_reply msg pr =
    let content = trim_space msg.content in
    if not (content == "")
    then forwarded pr content
    else if not (no_resources msg)
    then forwarded pr msg.content
    else dropped

-- After the quick reply of a private chat.
unfoldable pub handle_content : Message → Intake → Intake × Outcome
handle_content msg s =
    if not (msg.chat_type == "p2p") && not msg.mentioned_bot && not s.auto_reply
    then (s, dropped)
    else (let content = trim_space msg.content in
        if content == "" && no_resources msg
        then (s, dropped)
        else (let is_command = starts_with content "/" in
            let (asks, consumed) =
              if not (content == "") && not is_command
              then try_answer_ask_with_text msg.chat_id msg.sender_id content s.asks
              else (s.asks, false) in
            let s = record s { asks = asks } in
            if consumed
            then (s, answered)
            else if is_command
            then (s, command content)
            else (record s { pending = push (scope msg) msg s.pending }, queued (scope msg))))

unfoldable pub handle_message : Message → Intake → Intake × Outcome
handle_message msg s =
    if not (msg.sender_id == "") && msg.sender_id == s.bot_open_id
    then (s, dropped)
    else if not (check_message_access s.seat msg).0
    then (s, dropped)
    else if msg.chat_type == "p2p" && not (msg.sender_id == "")
    then (let (s', reply) = consume_pending_reply msg.sender_id s in
        elim reply [ none ↦ handle_content msg s' | some pr ↦ (s', forward_reply msg pr) ])
    else handle_content msg s
