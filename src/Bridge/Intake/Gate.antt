-- ===== src/Bridge/Intake/Gate.antt =====
-- Which messages get past the intake, and where they go.
use lark_coding_agent_bridge.Prelude.{
  ◌==◌, ◌&&◌, not, lookup, inl, some, inr, delete, Option-cases, lookup-delete_self, ◌≡◌, ◌≢◌, ◌⊎◌,
  true, false, arith, eq_iff, subst, has_key, sym, Bool-cases, none, ap, ◌∙◌,
}
use lark_coding_agent_bridge.Bridge.Access.{check_message_access, policy_access}
use lark_coding_agent_bridge.Policy.{can_use_chat}
use lark_coding_agent_bridge.Bridge.Message.{Message}
use lark_coding_agent_bridge.Bridge.Intake.{
  Intake, Outcome, dropped, command, handle_content, trim_space, starts_with, handle_message,
  check_message_access, consume_pending_reply, PendingReply, not, lookup, some, delete,
  forward_reply, none,
}
use lark_coding_agent_bridge.Bridge.Intake.Routes.{
  passes, is_forwarded, IsAddressed, Routed, content-command, content-Routed,
}

-- Whoever is heard may use the chat, has an id and is not the bot.
abbrev pub IsHeard : Message → Intake → Type 0
IsHeard msg s =
    ((can_use_chat (policy_access s.seat) s.seat.controls msg.chat_type msg.chat_id
        msg.sender_id).is_ok
      ≡ true)
    × (msg.sender_id ≢ "")
    × (msg.sender_id ≢ s.bot_open_id)

checked-IsHeard :
    (msg : Message) (s : Intake)
    → (check_message_access s.seat msg).0 ≡ true
    → not (msg.sender_id == "") && msg.sender_id == s.bot_open_id ≡ false
    → IsHeard msg s
unfolding check_message_access
checked-IsHeard msg s h q = (
  ground (arith, h),
  ground (arith, h, eq_iff msg.sender_id ""),
  ground (arith, h, q, eq_iff msg.sender_id "", eq_iff msg.sender_id s.bot_open_id),
)

-- What holds of a message and what becomes of it.
abbrev pub Filtered : Message → Intake → Intake × Outcome → Type 0
Filtered msg s (s', o) =
    (passes o ≡ true → IsHeard msg s)
    × (is_forwarded o ≡ true
        → (msg.chat_type ≡ "p2p")
          × (has_key msg.sender_id s.pending_replies ≡ true)
          × (has_key msg.sender_id s'.pending_replies ≡ false))
    × (is_forwarded o ≡ false → Routed msg s o)

Filtered-by :
    (msg : Message) (s : Intake) (r r' : Intake × Outcome)
    → r ≡ r'
    → Filtered msg s r'
    → Filtered msg s r
Filtered-by msg s r r' q g = subst (Filtered msg s) (sym q) g

dropped-Filtered : (msg : Message) (s s' : Intake) → Filtered msg s (s', dropped)
dropped-Filtered msg s s' = ground arith

content-Filtered :
    (msg : Message) (s : Intake) → IsHeard msg s → Filtered msg s (handle_content msg s)
content-Filtered msg s heard =
    let r = content-Routed msg s in ((λ h. heard), (λ h. absurd (ground (arith, h, r.4))), (λ h. r))

reply-Filtered :
    (msg : Message) (s : Intake) (pr : PendingReply)
    → IsHeard msg s
    → msg.chat_type == "p2p" ≡ true
    → lookup msg.sender_id s.pending_replies ≡ some pr
    → Filtered msg s (
      record s { pending_replies = delete msg.sender_id s.pending_replies },
      forward_reply msg pr,
    )
unfolding has_key
reply-Filtered msg s pr heard p e = (
  λ h. heard,
  λ h. (
    (eq_iff msg.chat_type "p2p").0 p,
    ground (arith, e),
    ground (arith, lookup-delete_self msg.sender_id s.pending_replies),
  ),
  λ h. ground (arith, h),
)

handle_message-Filtered : (msg : Message) (s : Intake) → Filtered msg s (handle_message msg s)
unfolding handle_message consume_pending_reply
handle_message-Filtered msg s =
    let r = handle_message msg s in
    elim (Bool-cases (not (msg.sender_id == "") && msg.sender_id == s.bot_open_id)) [
      | inl e ↦ Filtered-by msg s r (s, dropped) (ground (arith, e)) (dropped-Filtered msg s s)
      | inr e ↦ elim (Bool-cases (check_message_access s.seat msg).0) [
        | inr c ↦ Filtered-by msg s r (s, dropped) (ground (arith, e, c)) (dropped-Filtered msg s s)
        | inl c ↦
            let heard = checked-IsHeard msg s c e in
            let on = content-Filtered msg s heard in
            elim (Bool-cases (msg.chat_type == "p2p" && not (msg.sender_id == ""))) [
              | inr p ↦ Filtered-by msg s r (handle_content msg s) (ground (arith, e, c, p)) on
              | inl p ↦ elim (Option-cases (lookup msg.sender_id s.pending_replies)) [
                | inl n ↦ Filtered-by msg s r (handle_content msg s) (ground (arith, e, c, p, n)) on
                | inr (pr, n) ↦
                    let s' = record s {
                      pending_replies = delete msg.sender_id s.pending_replies;
                    } in
                    Filtered-by msg s r (s', forward_reply msg pr) (ground (arith, e, c, p, n))
                      (reply-Filtered msg s pr heard (ground (arith, p)) n)
              ]
            ]
      ]
    ]

heard-checked :
    (msg : Message) (s : Intake)
    → IsHeard msg s
    → ((check_message_access s.seat msg).0 ≡ true)
      × (not (msg.sender_id == "") && msg.sender_id == s.bot_open_id ≡ false)
unfolding check_message_access
heard-checked msg s (ok, named, other) = (
  ground (arith, ok, named, eq_iff msg.sender_id ""),
  ground (arith, other, eq_iff msg.sender_id s.bot_open_id),
)

-- No quick reply is taken from the sender here.
abbrev pub ExpectsNoReply : Message → Intake → Type 0
ExpectsNoReply msg s = (msg.chat_type ≢ "p2p") ⊎ (lookup msg.sender_id s.pending_replies ≡ none)

handled_content :
    (msg : Message) (s : Intake)
    → IsHeard msg s
    → ExpectsNoReply msg s
    → handle_message msg s ≡ handle_content msg s
unfolding handle_message consume_pending_reply
handled_content msg s heard (inl p) =
    let (c, e) = heard-checked msg s heard in ground (arith, c, e, p, eq_iff msg.chat_type "p2p")
handled_content msg s heard (inr n) =
    let (c, e) = heard-checked msg s heard in ground (arith, c, e, n)

-- Where a message goes, and that a slash is enough for a command.
abbrev pub Gated : Message → Intake → Intake × Outcome → Type 0
Gated msg s r =
    Filtered msg s r
    × (IsHeard msg s
        → ExpectsNoReply msg s
        → IsAddressed msg s
        → starts_with (trim_space msg.content) "/" ≡ true
        → r.1 ≡ command (trim_space msg.content))

-- A message goes on only if its sender may use the chat and is not the bot itself. A quick reply is
-- forwarded only from a private chat whose sender asked for one, and uses it up. Anything else that
-- goes on addresses the bot. Of these, it is a command only if its text begins with a slash; it answers
-- an ask only if its text is not blank, does not begin with a slash, and an ask of its chat takes typed
-- replies; and it is queued, under its own scope, only if it has a text without a slash or an attachment.
-- Conversely, a text with a leading slash that addresses the bot, from a sender who may use the chat, has
-- an id, is not the bot and owes no quick reply here, is a command, whatever asks are open.
pub intake_gate : (msg : Message) (s : Intake) → Gated msg s (handle_message msg s)
intake_gate msg s = (
  handle_message-Filtered msg s,
  λ heard free a h. ap (λ r. r.1) (handled_content msg s heard free) ∙ content-command msg s a h,
)
