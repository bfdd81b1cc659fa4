-- ===== src/Bridge/Access.antt =====
-- internal/bridge/access.go with /invite and /remove of internal/bridge/commands.go: the access lists
-- in the config file and in the running bridge, and the owner that the bridge knows.
pub mod Commands
pub mod Operator
pub mod Removal
pub mod Invitation
pub mod Owner
use lark_coding_agent_bridge.Prelude.{
  ℕ, String, Bool, true, false, ◌&&◌, ◌||◌, not, Option, none, some, List, [], ◌∷◌, ◌++◌, map, ◌==◌,
  eqb, if◌then◌else◌, has, without,
}
use lark_coding_agent_bridge.Policy.{
  Reason, denied_chat, Access, Controls, OwnerState, OwnerState.unset, OwnerState.unknown,
  OwnerState.ok, OwnerState.failed, can_use_dm, can_use_group, can_use_chat, can_run_admin_command,
}
use lark_coding_agent_bridge.Pricing.{codes, lower_code}
use lark_coding_agent_bridge.Bridge.Message.{Message, Mention}

-- `config.ChatAccess`.
pub record ChatAccess : Type 0 where
  pub owner_open_id : String
  pub allowed_users : List String
  pub allowed_chats : List String
  pub admins : List String

-- The live profile, absent before it is set, the access of the same profile in the config file, absent
-- if the file cannot be read, is missing or lacks the profile, and the known owner.
pub record Seat : Type 0 where
  pub profile : Option ChatAccess
  pub stored : Option ChatAccess
  pub controls : Controls

abbrev pub access_of : ChatAccess → Access
access_of a = record {
  allowed_users = a.allowed_users;
  allowed_chats = a.allowed_chats;
  admins = a.admins;
}

unfoldable pub policy_access : Seat → Access
policy_access b = elim b.profile [
  | none ↦ record { allowed_users = []; allowed_chats = []; admins = [] }
  | some a ↦ access_of a
]

abbrev pub cached_owner : Option ChatAccess → String
cached_owner none = ""
cached_owner (some a) = a.owner_open_id

abbrev pub with_owner : String → OwnerState → String → Seat → Seat
with_owner id state error b = record b {
  controls = record { bot_owner_id = id; owner_state = state; owner_error = error };
}

-- What the application API answers.
pub data Fetched : Type 0 where
  fetch_failed : String → Fetched
  fetched : String → Fetched

-- The flag tells whether the owner is to be cached in the config file.
unfoldable pub refresh_owner : Fetched → Seat → Seat × Bool
refresh_owner (fetch_failed error) b =
    let known = b.controls.bot_owner_id in
    (with_owner (if known == "" then cached_owner b.profile else known) failed error b, false)
refresh_owner (fetched id) b = (
  with_owner id ok "" b,
  not (b.controls.bot_owner_id == id)
      || elim b.profile [ none ↦ false | some a ↦ not (a.owner_open_id == id) ],
)

abbrev pub set_state : OwnerState → OwnerState
set_state unset = unknown
set_state unknown = unknown
set_state ok = ok
set_state failed = failed

-- The start of `StartOwnerRefresh`, before the first fetch.
unfoldable pub seed_owner : Seat → Seat
seed_owner b =
    let state = set_state b.controls.owner_state in
    if b.controls.bot_owner_id == "" && not (cached_owner b.profile == "")
    then with_owner (cached_owner b.profile) failed b.controls.owner_error b
    else with_owner b.controls.bot_owner_id state b.controls.owner_error b

abbrev pub is_denied_chat : Reason → Bool
is_denied_chat denied_chat = true
is_denied_chat r = false

-- Whether the message is let in, and whether the hint to invite the group is sent.
unfoldable pub check_message_access : Seat → Message → Bool × Bool
check_message_access b msg =
    if msg.sender_id == ""
    then (false, false)
    else (let d =
          can_use_chat (policy_access b) b.controls msg.chat_type msg.chat_id msg.sender_id in
        if d.is_ok
        then (true, false)
        else (false, not (msg.chat_type == "p2p") && is_denied_chat d.reason && msg.mentioned_bot))

unfoldable pub check_operator_access : Seat → String → String → Bool
check_operator_access b chat_id operator_id =
    if operator_id == ""
    then false
    else if (can_use_dm (policy_access b) b.controls operator_id).is_ok
    then true
    else not (chat_id == "")
      && (can_use_group (policy_access b) b.controls chat_id operator_id).is_ok

-- The change is made to the stored access; whether it is written is the environment's choice.
unfoldable pub mutate_access : Bool → (ChatAccess → ChatAccess) → Seat → Seat × Bool
mutate_access written f b = elim b.stored [
  | none ↦ (b, false)
  | some a ↦ if not written then (b, false) else (
    record b {
      stored = some (f a);
      profile = elim b.profile [ none ↦ none | some live ↦ some (f a) ];
    },
    true,
  )
]

unfoldable pub persist_owner_cache : Bool → String → Seat → Seat
persist_owner_cache written id b =
    (mutate_access written (λ a. record a { owner_open_id = id }) b).0

unfoldable pub mention_user_targets : List Mention → List Mention
mention_user_targets [] = []
mention_user_targets (m ∷ ms) =
    let rest = mention_user_targets ms in if m.is_bot || m.open_id == "" then rest else m ∷ rest

unfoldable pub add_unique : List String → String → List String × Bool
add_unique list id = if has id list then (list, false) else (list ++ (id ∷ []), true)

unfoldable pub remove_id : List String → String → List String × Bool
remove_id list id = (without id list, has id list)
