-- ===== src/Bridge/Intake/Routes.antt =====
-- Where a message goes behind the quick reply, in `HandleMessage` of internal/bridge/bridge.go.
use lark_coding_agent_bridge.Ask.Broker.{Broker}
use lark_coding_agent_bridge.Ask.Click.{find_freeform_by_chat}
use lark_coding_agent_bridge.Prelude.{
  ◌==◌, ◌&&◌, not, inl, inr, ◌≡◌, ◌≢◌, ◌⊎◌, Bool, true, false, arith, eq_iff, subst, Bool-cases,
  String, none,
}
use lark_coding_agent_bridge.Bridge.Message.{Message, scope}
use lark_coding_agent_bridge.Bridge.Intake.{
  Intake, Outcome, dropped, forwarded, answered, command, queued, handle_content, no_resources,
  trim_space, starts_with, not, find_freeform_by_chat, String, try_answer_ask_with_text, none,
  Broker,
}

abbrev pub passes : Outcome → Bool
passes dropped = false
passes (forwarded pr t) = true
passes answered = true
passes (command c) = true
passes (queued sc) = true

abbrev pub is_queued : Outcome → Bool
is_queued dropped = false
is_queued (forwarded pr t) = false
is_queued answered = false
is_queued (command c) = false
is_queued (queued sc) = true

abbrev pub is_command : Outcome → Bool
is_command dropped = false
is_command (forwarded pr t) = false
is_command answered = false
is_command (command c) = true
is_command (queued sc) = false

abbrev pub is_forwarded : Outcome → Bool
is_forwarded dropped = false
is_forwarded (forwarded pr t) = true
is_forwarded answered = false
is_forwarded (command c) = false
is_forwarded (queued sc) = false

abbrev pub is_answered : Outcome → Bool
is_answered dropped = false
is_answered (forwarded pr t) = false
is_answered answered = true
is_answered (command c) = false
is_answered (queued sc) = false

-- The bot is addressed: in a private chat, by a mention, or always.
abbrev pub IsAddressed : Message → Intake → Type 0
IsAddressed msg s = (msg.chat_type ≡ "p2p") ⊎ (msg.mentioned_bot ≡ true) ⊎ (s.auto_reply ≡ true)

-- What a message that goes on without a quick reply has to be.
abbrev pub Routed : Message → Intake → Outcome → Type 0
Routed msg s o =
    (passes o ≡ true → IsAddressed msg s)
    × (is_queued o ≡ true
        → (o ≡ queued (scope msg))
          × (starts_with (trim_space msg.content) "/" ≡ false)
          × ((trim_space msg.content ≢ "") ⊎ (no_resources msg ≡ false)))
    × (is_command o ≡ true
        → (o ≡ command (trim_space msg.content))
          × (starts_with (trim_space msg.content) "/" ≡ true))
    × (is_answered o ≡ true
        → (starts_with (trim_space msg.content) "/" ≡ false)
          × (trim_space msg.content ≢ "")
          × (find_freeform_by_chat msg.chat_id s.asks ≢ none))
    × (is_forwarded o ≡ false)

-- No ask for a typed reply answers nothing.
no_ask :
    (chat operator text : String) (b : Broker)
    → (try_answer_ask_with_text chat operator text b).1 ≡ true
    → find_freeform_by_chat chat b ≢ none
unfolding try_answer_ask_with_text
no_ask chat operator text b h e = ground (arith, h, e)

slash_not_empty : (s : String) → starts_with s "/" ≡ true → (s == "") ≡ false
slash_not_empty s h = elim (Bool-cases (s == "")) [
  | inl e ↦ absurd (ground (arith, subst (λ t. starts_with t "/" ≡ true) ((eq_iff s "").0 e) h))
  | inr e ↦ e
]

addressed :
    (msg : Message) (s : Intake)
    → IsAddressed msg s
    → not (msg.chat_type == "p2p") && not msg.mentioned_bot && not s.auto_reply ≡ false
addressed msg s h = ground (arith, h, eq_iff msg.chat_type "p2p")

pub content-command :
    (msg : Message) (s : Intake)
    → IsAddressed msg s
    → starts_with (trim_space msg.content) "/" ≡ true
    → (handle_content msg s).1 ≡ command (trim_space msg.content)
unfolding handle_content
content-command msg s a h =
    ground (arith, addressed msg s a, slash_not_empty (trim_space msg.content) h, h)

content-answered :
    (msg : Message) (s : Intake)
    → is_answered (handle_content msg s).1 ≡ true
    → (starts_with (trim_space msg.content) "/" ≡ false)
      × (trim_space msg.content ≢ "")
      × (find_freeform_by_chat msg.chat_id s.asks ≢ none)
unfolding handle_content
content-answered msg s h = ground (
  arith,
  h,
  eq_iff (trim_space msg.content) "",
  no_ask msg.chat_id msg.sender_id (trim_space msg.content) s.asks,
)

content-routes :
    (msg : Message) (s : Intake)
    → (passes (handle_content msg s).1 ≡ true → IsAddressed msg s)
      × (is_queued (handle_content msg s).1 ≡ true
          → ((handle_content msg s).1 ≡ queued (scope msg))
            × (starts_with (trim_space msg.content) "/" ≡ false)
            × ((trim_space msg.content ≢ "") ⊎ (no_resources msg ≡ false)))
      × (is_command (handle_content msg s).1 ≡ true
          → ((handle_content msg s).1 ≡ command (trim_space msg.content))
            × (starts_with (trim_space msg.content) "/" ≡ true))
      × (is_forwarded (handle_content msg s).1 ≡ false)
unfolding handle_content
content-routes msg s =
    ground (arith, eq_iff msg.chat_type "p2p", eq_iff (trim_space msg.content) "")

pub content-Routed : (msg : Message) (s : Intake) → Routed msg s (handle_content msg s).1
content-Routed msg s = let r = content-routes msg s in (r.0, r.1, r.2, content-answered msg s, r.3)
