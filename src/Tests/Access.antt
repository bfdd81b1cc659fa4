-- ===== src/Tests/Access.antt =====
-- Who may use the bot, and the lists that decide it.
use lark_coding_agent_bridge.Prelude.{
  ◌&&◌, String, ◌≡◌, refl, ◌≢◌, ◌↔◌, ◌⊎◌, true, false, none, some, [], ◌∷◌, ◌==◌, if◌then◌else◌,
  has,
}
use lark_coding_agent_bridge.Policy.{
  Controls, OwnerState.ok, OwnerState.unset, can_use_chat, can_run_admin_command, has_trust_anchor,
  is_creator, contains,
}
use lark_coding_agent_bridge.Policy.Laws.{IsOwner, Listed, IsOpen, can_use_chat_iff}
use lark_coding_agent_bridge.Bridge.Message.{Message}
use lark_coding_agent_bridge.Bridge.Access.{
  ChatAccess, Seat, fetch_failed, policy_access, seed_owner, cached_owner, access_of,
}
use lark_coding_agent_bridge.Bridge.Access.Commands.{
  user, handle_remove, handle_invite, kind_from, any_word, is_word,
}
use lark_coding_agent_bridge.Bridge.Access.Removal.{IsSynced, removal_never_widens}
use lark_coding_agent_bridge.Bridge.Access.Invitation.{Invited, named, invite_exact}
use lark_coding_agent_bridge.Bridge.Access.Owner.{refresh_all, last_owner, owner_kept}

abbrev access : ChatAccess
access = record {
  owner_open_id = "ou_own";
  allowed_users = "ou_1" ∷ "ou_2" ∷ [];
  allowed_chats = "oc_g" ∷ [];
  admins = "ou_adm" ∷ [];
}

abbrev owned : Controls
owned = record { bot_owner_id = "ou_own"; owner_state = ok; owner_error = "" }

abbrev seat : Seat
seat = record { profile = some access; stored = some access; controls = owned }

-- Before the first fetch.
abbrev starting : Seat
starting = record seat {
  controls = record { bot_owner_id = ""; owner_state = unset; owner_error = "" };
}

abbrev message : String → String → Message
message chat_type sender = record {
  message_id = "om_1";
  chat_id = "oc_g";
  chat_type = chat_type;
  thread_id = "";
  root_id = "";
  parent_id = "";
  sender_id = sender;
  sender_type = "user";
  content = "/invite user @A";
  raw_type = "text";
  mentions = record { open_id = "ou_3"; name = "A"; key = "@_user_1"; is_bot = false } ∷ [];
  mention_all = false;
  mentioned_bot = true;
  resources = [];
}

abbrev private_chat : String
private_chat = "p2p"

abbrev stranger : String
stranger = "ou_9"

can_use_chat_iff_example :
    ((can_use_chat (access_of access) owned "p2p" "oc_1" "ou_1").is_ok ≡ true) ↔ (
      IsOwner owned "ou_1"
      ⊎ Listed "ou_1" (access_of access).admins
      ⊎ ((private_chat ≡ "p2p") × Listed "ou_1" (access_of access).allowed_users)
      ⊎ ((private_chat ≢ "p2p") × Listed "oc_1" (access_of access).allowed_chats)
      ⊎ IsOpen (access_of access) owned)
can_use_chat_iff_example = can_use_chat_iff (access_of access) owned "p2p" "oc_1" "ou_1"

removal_never_widens_example :
    let b' = (handle_remove true (message "p2p" "ou_adm") ("user" ∷ []) seat).0 in
    IsSynced b'
    × ((chat_type chat s : String)
        → has_trust_anchor (policy_access b') b'.controls ≡ true
        → (can_use_chat (policy_access b') b'.controls chat_type chat s).is_ok ≡ true
        → (can_use_chat (policy_access seat) seat.controls chat_type chat s).is_ok ≡ true)
removal_never_widens_example =
    removal_never_widens true (message "p2p" "ou_adm") ("user" ∷ []) seat refl

admin_allowed : (can_run_admin_command (policy_access seat) owned "ou_adm").is_ok ≡ true
unfolding can_run_admin_command policy_access is_creator contains has
admin_allowed = refl

not_all_groups :
    any_word "all" ("User" ∷ "@A" ∷ []) && any_word "group" ("User" ∷ "@A" ∷ []) ≡ false
unfolding any_word is_word
not_all_groups = refl

names_user : kind_from none ("User" ∷ "@A" ∷ []) ≡ some user
unfolding kind_from is_word
names_user = refl

invite_exact_example :
    Invited user
      (named user (message "p2p" "ou_adm"))
      access
      (handle_invite true (message "p2p" "ou_adm") ("User" ∷ "@A" ∷ []) seat).0
invite_exact_example =
    invite_exact user (message "p2p" "ou_adm") ("User" ∷ "@A" ∷ []) access seat (refl, refl)
      admin_allowed not_all_groups names_user

user_refused : (can_run_admin_command (policy_access seat) owned "ou_1").is_ok ≡ false
unfolding can_run_admin_command policy_access is_creator contains has has_trust_anchor
user_refused = refl

owner_kept_example :
    (refresh_all (fetch_failed "timeout" ∷ []) (seed_owner starting)).controls.bot_owner_id
    ≡ last_owner
        (if "" == "" then cached_owner starting.profile else "")
        (fetch_failed "timeout" ∷ [])
owner_kept_example = owner_kept (fetch_failed "timeout" ∷ []) starting (tt, tt)
