-- ===== src/Bridge/Access/Operator.antt =====
-- Whom the buttons of a card obey.
use lark_coding_agent_bridge.Prelude.{String, ◌≡◌, ◌≢◌, ◌↔◌, ◌⊎◌, true, false, arith, eq_iff}
use lark_coding_agent_bridge.Policy.Laws.{
  IsOwner, Listed, IsOpen, can_use_dm_iff, can_use_group_iff,
}
use lark_coding_agent_bridge.Policy.{can_use_dm, can_use_group, can_use_chat, contains}
use lark_coding_agent_bridge.Bridge.Access.{
  Seat, check_operator_access, check_message_access, policy_access, can_use_chat,
}
use lark_coding_agent_bridge.Bridge.Message.{Message}

-- A card obeys an operator exactly if the id is not empty and the operator is the known owner, a listed
-- admin or a listed user, or the chat of the card is listed, or nobody is known who could be trusted.
pub operator_iff :
    (b : Seat) (chat_id operator_id : String)
    → let a = policy_access b in
      (check_operator_access b chat_id operator_id ≡ true) ↔ (
        (operator_id ≢ "")
        × (IsOwner b.controls operator_id
            ⊎ Listed operator_id a.admins
            ⊎ Listed operator_id a.allowed_users
            ⊎ Listed chat_id a.allowed_chats
            ⊎ IsOpen a b.controls))
unfolding check_operator_access
operator_iff b chat_id operator_id = ground (
  arith,
  eq_iff operator_id "",
  eq_iff chat_id "",
  can_use_dm_iff (policy_access b) b.controls operator_id,
  can_use_group_iff (policy_access b) b.controls chat_id operator_id,
)

-- Whoever is let in with a message may also press the buttons of the cards in that chat, and the hint
-- to invite a group goes only to a message that is turned away.
pub message_operator :
    (b : Seat) (msg : Message)
    → ((check_message_access b msg).0 ≡ true
        → check_operator_access b msg.chat_id msg.sender_id ≡ true)
      × ((check_message_access b msg).1 ≡ true
          → ((check_message_access b msg).0 ≡ false) × (msg.chat_type ≢ "p2p"))
unfolding check_message_access check_operator_access can_use_chat can_use_group can_use_dm contains
message_operator b msg = (
  ground (arith, eq_iff msg.chat_id "", eq_iff msg.chat_type "p2p"),
  ground (arith, eq_iff msg.chat_type "p2p"),
)
