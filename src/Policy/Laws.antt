-- ===== src/Policy/Laws.antt =====
-- What the access decisions of internal/policy/access.go promise.
use lark_coding_agent_bridge.Prelude.{
  String, ◌≡◌, ◌≢◌, ◌↔◌, ◌⊎◌, true, false, List, [], arith, eq_iff, has,
}
use lark_coding_agent_bridge.Policy.{
  Controls, Access, can_use_dm, is_creator, contains, has_trust_anchor, can_use_chat, can_use_group,
  can_run_admin_command,
}

-- The sender is the owner that the bot knows, and the id is not empty.
abbrev pub IsOwner : Controls → String → Type 0
IsOwner c s = (c.bot_owner_id ≡ s) × (s ≢ "")

-- The id is not empty and stands in the list.
abbrev pub Listed : String → List String → Type 0
Listed s l = (has s l ≡ true) × (s ≢ "")

-- Nobody is known who could be trusted: no owner and three empty lists.
abbrev pub IsOpen : Access → Controls → Type 0
IsOpen a c =
    (c.bot_owner_id ≡ "") × (a.allowed_users ≡ []) × (a.allowed_chats ≡ []) × (a.admins ≡ [])

is_creator_iff : (c : Controls) (s : String) → (is_creator c s ≡ true) ↔ IsOwner c s
unfolding is_creator
is_creator_iff c s = ground (arith, eq_iff c.bot_owner_id "", eq_iff s "", eq_iff c.bot_owner_id s)

contains_iff : (l : List String) (s : String) → (contains l s ≡ true) ↔ Listed s l
unfolding contains
contains_iff l s = ground (arith, eq_iff s "")

pub IsOpen-iff : (a : Access) (c : Controls) → (has_trust_anchor a c ≡ false) ↔ IsOpen a c
unfolding has_trust_anchor
IsOpen-iff a c = ground (arith, eq_iff c.bot_owner_id "")

module _ (a : Access) (c : Controls) where
  pub can_use_dm_iff :
      (s : String)
      → ((can_use_dm a c s).is_ok ≡ true)
        ↔ (IsOwner c s ⊎ Listed s a.allowed_users ⊎ Listed s a.admins ⊎ IsOpen a c)
  unfolding can_use_dm
  can_use_dm_iff s = ground (
    arith,
    is_creator_iff c s,
    contains_iff a.allowed_users s,
    contains_iff a.admins s,
    IsOpen-iff a c,
  )

  pub can_use_group_iff :
      (chat s : String)
      → ((can_use_group a c chat s).is_ok ≡ true)
        ↔ (IsOwner c s ⊎ Listed s a.admins ⊎ Listed chat a.allowed_chats ⊎ IsOpen a c)
  unfolding can_use_group
  can_use_group_iff chat s = ground (
    arith,
    is_creator_iff c s,
    contains_iff a.admins s,
    contains_iff a.allowed_chats chat,
    IsOpen-iff a c,
  )

  -- A chat is served exactly if the sender is the known owner or a listed admin, or, in a private
  -- chat, a listed user, or, in any other chat, the chat is listed, or if there is neither a known
  -- owner nor any entry in the three lists. Empty ids are never the owner and never listed.
  pub can_use_chat_iff :
      (chat_type chat s : String)
      → ((can_use_chat a c chat_type chat s).is_ok ≡ true) ↔ (
          IsOwner c s
          ⊎ Listed s a.admins
          ⊎ ((chat_type ≡ "p2p") × Listed s a.allowed_users)
          ⊎ ((chat_type ≢ "p2p") × Listed chat a.allowed_chats)
          ⊎ IsOpen a c)
  unfolding can_use_chat
  can_use_chat_iff chat_type chat s =
      ground (arith, eq_iff chat_type "p2p", can_use_dm_iff s, can_use_group_iff chat s)

  -- Admin commands are for the known owner and listed admins, or for anyone while nobody is known;
  -- whoever may run them may also use the bot in every chat.
  pub can_run_admin_command_iff :
      (s : String)
      → (((can_run_admin_command a c s).is_ok ≡ true)
          ↔ (IsOwner c s ⊎ Listed s a.admins ⊎ IsOpen a c))
        × ((chat_type chat : String)
            → (can_run_admin_command a c s).is_ok ≡ true
            → (can_use_chat a c chat_type chat s).is_ok ≡ true)
  unfolding can_run_admin_command
  can_run_admin_command_iff s = (
    ground (arith, is_creator_iff c s, contains_iff a.admins s, IsOpen-iff a c),
    λ chat_type chat h.
        (can_use_chat_iff chat_type chat s).1
          (ground (arith, is_creator_iff c s, contains_iff a.admins s, IsOpen-iff a c)),
  )
