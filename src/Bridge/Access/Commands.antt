-- ===== src/Bridge/Access/Commands.antt =====
-- /invite and /remove of internal/bridge/commands.go.
use lark_coding_agent_bridge.Prelude.{
  ℕ, String, Bool, true, false, ◌&&◌, ◌||◌, not, Option, none, some, List, [], ◌∷◌, ◌++◌, map, ◌==◌,
  eqb, if◌then◌else◌, has,
}
use lark_coding_agent_bridge.Policy.{can_run_admin_command}
use lark_coding_agent_bridge.Pricing.{codes, lower_code}
use lark_coding_agent_bridge.Bridge.Message.{Message, Mention}
use lark_coding_agent_bridge.Bridge.Access.{
  ChatAccess, Seat, policy_access, mutate_access, mention_user_targets, add_unique, remove_id,
}

pub data Kind : Type 0 where
  user admin group : Kind

abbrev pub same_codes : List ℕ → List ℕ → Bool
same_codes [] [] = true
same_codes [] (y ∷ ys) = false
same_codes (x ∷ xs) [] = false
same_codes (x ∷ xs) (y ∷ ys) = eqb x y && same_codes xs ys

-- `strings.ToLower(a) == word` for a word in lower case.
unfoldable pub is_word : String → String → Bool
is_word word a = same_codes (map lower_code (codes a)) (codes word)

unfoldable pub any_word : String → List String → Bool
any_word word [] = false
any_word word (a ∷ args) = is_word word a || any_word word args

abbrev pub word_kind : Option Kind → String → Option Kind
word_kind before a =
    if is_word "user" a
    then some user
    else if is_word "admin" a
    then some admin
    else if is_word "group" a
    then some group
    else before

-- The last word that names a kind counts.
unfoldable pub kind_from : Option Kind → List String → Option Kind
kind_from before [] = before
kind_from before (a ∷ args) = kind_from (word_kind before a) args

-- What the bot replies, without its wording.
pub data Reply : Type 0 where
  not_admin all_groups usage wrong_chat no_targets save_failed : Reply
  group_already group_added group_missing group_removed : Reply
  changed : Kind → List Mention → List Mention → Reply

-- Adds the targets one by one; the rest of the result are the new and the known ones.
unfoldable pub add_all :
    List Mention
    → List String
    → List Mention
    → List Mention
    → List String × List Mention × List Mention
add_all [] list added already = (list, added, already)
add_all (t ∷ ts) list added already =
    let (next, was_added) = add_unique list t.open_id in
    if was_added
    then add_all ts next (added ++ (t ∷ [])) already
    else add_all ts next added (already ++ (t ∷ []))

unfoldable pub remove_all :
    List Mention
    → List String
    → List Mention
    → List Mention
    → List String × List Mention × List Mention
remove_all [] list removed not_there = (list, removed, not_there)
remove_all (t ∷ ts) list removed not_there =
    let (next, was) = remove_id list t.open_id in
    if was
    then remove_all ts next (removed ++ (t ∷ [])) not_there
    else remove_all ts next removed (not_there ++ (t ∷ []))

-- The list of users or admins that a command changes.
abbrev pub list_of : Kind → ChatAccess → List String
list_of user a = a.allowed_users
list_of admin a = a.admins
list_of group a = a.allowed_chats

abbrev pub with_list : Kind → List String → ChatAccess → ChatAccess
with_list user l a = record a { allowed_users = l }
with_list admin l a = record a { admins = l }
with_list group l a = record a { allowed_chats = l }

abbrev pub stored_list : Kind → Seat → List String
stored_list k b = elim b.stored [ none ↦ [] | some a ↦ list_of k a ]

unfoldable pub invite_group : Bool → Message → Seat → Seat × Reply
invite_group written msg b =
    if msg.chat_type == "p2p"
    then (b, wrong_chat)
    else (let already = has msg.chat_id (stored_list group b) in
        let (b', saved) =
          mutate_access written (λ a. with_list group (add_unique a.allowed_chats msg.chat_id).0 a)
            b in
        if not saved
        then (b, save_failed)
        else (b', if already then group_already else group_added))

unfoldable pub invite_people : Bool → Kind → List Mention → Seat → Seat × Reply
invite_people written k [] b = (b, no_targets)
invite_people written k (t ∷ ts) b =
    let (list, added, already) = add_all (t ∷ ts) (stored_list k b) [] [] in
    let (b', saved) =
      mutate_access written (λ a. with_list k (add_all (t ∷ ts) (list_of k a) [] []).0 a) b in
    if not saved then (b, save_failed) else (b', changed k added already)

abbrev pub invite_kind : Bool → Message → Option Kind → Seat → Seat × Reply
invite_kind written msg none b = (b, usage)
invite_kind written msg (some user) b =
    invite_people written user (mention_user_targets msg.mentions) b
invite_kind written msg (some admin) b =
    invite_people written admin (mention_user_targets msg.mentions) b
invite_kind written msg (some group) b = invite_group written msg b

unfoldable pub handle_invite : Bool → Message → List String → Seat → Seat × Reply
handle_invite written msg args b =
    if not (can_run_admin_command (policy_access b) b.controls msg.sender_id).is_ok
    then (b, not_admin)
    else if any_word "all" args && any_word "group" args
    then (b, all_groups)
    else invite_kind written msg (kind_from none args) b

unfoldable pub remove_group : Bool → Message → Seat → Seat × Reply
remove_group written msg b =
    if msg.chat_type == "p2p"
    then (b, wrong_chat)
    else (let there = has msg.chat_id (stored_list group b) in
        let (b', saved) =
          mutate_access written (λ a. with_list group (remove_id a.allowed_chats msg.chat_id).0 a)
            b in
        if not saved
        then (b, save_failed)
        else (b', if there then group_removed else group_missing))

unfoldable pub remove_people : Bool → Kind → List Mention → Seat → Seat × Reply
remove_people written k [] b = (b, no_targets)
remove_people written k (t ∷ ts) b =
    let (list, removed, not_there) = remove_all (t ∷ ts) (stored_list k b) [] [] in
    let (b', saved) =
      mutate_access written (λ a. with_list k (remove_all (t ∷ ts) (list_of k a) [] []).0 a) b in
    if not saved then (b, save_failed) else (b', changed k removed not_there)

abbrev pub remove_kind : Bool → Message → Option Kind → Seat → Seat × Reply
remove_kind written msg none b = (b, usage)
remove_kind written msg (some user) b =
    remove_people written user (mention_user_targets msg.mentions) b
remove_kind written msg (some admin) b =
    remove_people written admin (mention_user_targets msg.mentions) b
remove_kind written msg (some group) b = remove_group written msg b

unfoldable pub handle_remove : Bool → Message → List String → Seat → Seat × Reply
handle_remove written msg args b =
    if not (can_run_admin_command (policy_access b) b.controls msg.sender_id).is_ok
    then (b, not_admin)
    else remove_kind written msg (kind_from none args) b
