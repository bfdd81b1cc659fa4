-- ===== src/Policy.antt =====
-- internal/policy/access.go: who may talk to the bot.
pub mod Laws
use lark_coding_agent_bridge.Prelude.{
  ℕ, zero, suc, ◌+◌, ◌-◌, ◌*◌, ◌/◌, ◌%◌, ◌≤◌, ◌<◌, String, ◌≡◌, refl, sym, ap, ◌∙◌, subst, ◌≢◌, ◌↔◌,
  ◌⊎◌, inl, inr, Bool, true, false, ◌&&◌, ◌||◌, not, Option, none, some, List, [], ◌∷◌, ◌++◌, map,
  arith, ◌==◌, eq_iff, eq_refl, ltb, leb, eqb, if◌then◌else◌, Bool-cases, Option-cases, length,
  get_elem?, set, replicate, All, All-append, length-append, length-set, length-replicate, has,
  without, has-without, has-append, has-without_self, Dict, lookup, insert, delete, keep, has_key,
  lookup-insert, lookup-insert_self, lookup-delete, lookup-delete_self, AllVals, AllVals-insert,
  AllVals-delete, AllVals-keep, AllVals-lookup,
}

pub data OwnerState : Type 0 where
  unset unknown ok failed : OwnerState

-- The empty text stands for an owner that is not known.
pub record Controls : Type 0 where
  pub bot_owner_id : String
  pub owner_state : OwnerState
  pub owner_error : String

pub record Access : Type 0 where
  pub allowed_users : List String
  pub allowed_chats : List String
  pub admins : List String

pub data Reason : Type 0 where
  owner allowed_user allowed_admin allowed_chat denied_user denied_chat denied_admin : Reason

pub record Decision : Type 0 where
  pub is_ok : Bool
  pub reason : Reason

abbrev pub allow : Reason → Decision
allow r = record { is_ok = true; reason = r }

abbrev pub deny : Reason → Decision
deny r = record { is_ok = false; reason = r }

unfoldable pub contains : List String → String → Bool
contains list id = if id == "" then false else has id list

unfoldable pub is_creator : Controls → String → Bool
is_creator c sender_id =
    not (c.bot_owner_id == "") && not (sender_id == "") && c.bot_owner_id == sender_id

abbrev pub nonempty : List String → Bool
nonempty [] = false
nonempty (x ∷ xs) = true

unfoldable pub has_trust_anchor : Access → Controls → Bool
has_trust_anchor access c =
    if not (c.bot_owner_id == "")
    then true
    else nonempty access.allowed_users || nonempty access.allowed_chats || nonempty access.admins

unfoldable pub can_use_dm : Access → Controls → String → Decision
can_use_dm access c sender_id =
    if is_creator c sender_id
    then allow owner
    else if contains access.allowed_users sender_id
    then allow allowed_user
    else if contains access.admins sender_id
    then allow allowed_admin
    else if not (has_trust_anchor access c)
    then allow owner
    else deny denied_user

unfoldable pub can_use_group : Access → Controls → String → String → Decision
can_use_group access c chat_id sender_id =
    if is_creator c sender_id
    then allow owner
    else if contains access.admins sender_id
    then allow allowed_admin
    else if contains access.allowed_chats chat_id
    then allow allowed_chat
    else if not (has_trust_anchor access c)
    then allow owner
    else deny denied_chat

unfoldable pub can_run_admin_command : Access → Controls → String → Decision
can_run_admin_command access c sender_id =
    if is_creator c sender_id
    then allow owner
    else if contains access.admins sender_id
    then allow allowed_admin
    else if not (has_trust_anchor access c)
    then allow owner
    else deny denied_admin

unfoldable pub can_use_chat : Access → Controls → String → String → String → Decision
can_use_chat access c chat_type chat_id sender_id =
    if chat_type == "p2p"
    then can_use_dm access c sender_id
    else can_use_group access c chat_id sender_id
