-- ===== src/Bridge/Access/Invitation.antt =====
-- What /invite does to the access lists.
use lark_coding_agent_bridge.Bridge.Access.{
  remove_id, Option, none, can_run_admin_command, Bool, policy_access, false, ChatAccess, Seat,
  mutate_access, add_unique, mention_user_targets,
}
use lark_coding_agent_bridge.Bridge.Access.Commands.{
  remove_all, kind_from, handle_remove, remove_kind, remove_people, remove_group, invite_kind,
  handle_invite, any_word, Kind, user, admin, group, list_of, with_list, add_all, invite_group,
  invite_people,
}
use mathlib.Core.Bool.{◌&&◌}
use lark_coding_agent_bridge.Policy.{can_run_admin_command}
use lark_coding_agent_bridge.Prelude.{
  String, ◌≡◌, refl, ap, ◌∙◌, ◌≢◌, inl, inr, true, ◌||◌, some, List, [], ◌∷◌, ◌++◌, arith, ◌==◌,
  eq_iff, if◌then◌else◌, Bool-cases, has, has-append, Bool, false, ◌⊎◌, Option, Option-cases, none,
}
use lark_coding_agent_bridge.Bridge.Message.{Message, Mention}

abbrev pub ids : List Mention → List String
ids [] = []
ids (t ∷ ts) = t.open_id ∷ ids ts

-- The ids that the command names: the users it mentions, or the group that it is sent in.
abbrev pub named : Kind → Message → List String
named user msg = ids (mention_user_targets msg.mentions)
named admin msg = ids (mention_user_targets msg.mentions)
named group msg = if msg.chat_type == "p2p" then [] else msg.chat_id ∷ []

-- The seat has the access in the file and in the running bridge.
abbrev pub Holds : ChatAccess → Seat → Type 0
Holds a b = (b.stored ≡ some a) × (b.profile ≡ some a)

add_unique-has :
    (s id : String) (l : List String) → has s (add_unique l id).0 ≡ (has s l || id == s)
unfolding add_unique has
add_unique-has s id l = ground (arith, has-append s l (id ∷ []), eq_iff id s)

one-has :
    (id : String) (l : List String) (s : String)
    → has s (add_unique l id).0 ≡ (has s l || has s (id ∷ []))
unfolding has
one-has id l s = ground (arith, add_unique-has s id l)

add_all-has :
    (ts : List Mention) (list : List String) (added already : List Mention) (s : String)
    → has s (add_all ts list added already).0 ≡ (has s list || has s (ids ts))
unfolding add_all has
add_all-has [] list added already s = ground arith
add_all-has (t ∷ ts) list added already s = elim (Bool-cases (add_unique list t.open_id).1) [
  | inl e ↦ ground (
    arith,
    e,
    add_unique-has s t.open_id list,
    add_all-has ts (add_unique list t.open_id).0 (added ++ (t ∷ [])) already s,
  )
  | inr e ↦ ground (
    arith,
    e,
    add_unique-has s t.open_id list,
    add_all-has ts (add_unique list t.open_id).0 added (already ++ (t ∷ [])) s,
  )
]

-- The list of the kind has got exactly the ids, the other lists are the same.
abbrev pub Gained : Kind → List String → ChatAccess → ChatAccess → Type 0
Gained k new a a' =
    ((s : String) → has s (list_of k a') ≡ (has s (list_of k a) || has s new))
    × ((j : Kind) → j ≢ k → list_of j a' ≡ list_of j a)
    × (a'.owner_open_id ≡ a.owner_open_id)

list_of-with_list : (k : Kind) (l : List String) (a : ChatAccess) → list_of k (with_list k l a) ≡ l
list_of-with_list user l a = refl
list_of-with_list admin l a = refl
list_of-with_list group l a = refl

with_list-others :
    (j k : Kind) (l : List String) (a : ChatAccess)
    → j ≢ k
    → list_of j (with_list k l a) ≡ list_of j a
with_list-others user user l a n = absurd (n refl)
with_list-others user admin l a n = refl
with_list-others user group l a n = refl
with_list-others admin user l a n = refl
with_list-others admin admin l a n = absurd (n refl)
with_list-others admin group l a n = refl
with_list-others group user l a n = refl
with_list-others group admin l a n = refl
with_list-others group group l a n = absurd (n refl)

with_list-owner :
    (k : Kind) (l : List String) (a : ChatAccess)
    → (with_list k l a).owner_open_id ≡ a.owner_open_id
with_list-owner user l a = refl
with_list-owner admin l a = refl
with_list-owner group l a = refl

with_list-Gained :
    (k : Kind) (new l : List String) (a : ChatAccess)
    → ((s : String) → has s l ≡ (has s (list_of k a) || has s new))
    → Gained k new a (with_list k l a)
with_list-Gained k new l a f = (
  λ s. ap (has s) (list_of-with_list k l a) ∙ f s,
  λ j n. with_list-others j k l a n,
  with_list-owner k l a,
)

same-Gained : (k : Kind) (a : ChatAccess) → Gained k [] a a
unfolding has
same-Gained k a = (λ s. ground arith, λ j n. refl, refl)

-- A command that is not refused leads to such an access.
abbrev pub Invited : Kind → List String → ChatAccess → Seat → Type 0
Invited k new a b' = (a' : ChatAccess) × Holds a' b' × Gained k new a a'

invite_people-Invited :
    (k : Kind) (ts : List Mention) (a : ChatAccess) (b : Seat)
    → Holds a b
    → Invited k (ids ts) a (invite_people true k ts b).0
unfolding invite_people mutate_access
invite_people-Invited k [] a b h = (a, h, same-Gained k a)
invite_people-Invited k (t ∷ ts) a b (e, p) =
    let l = (add_all (t ∷ ts) (list_of k a) [] []).0 in
    (
      with_list k l a,
      (ground (arith, e, p), ground (arith, e, p)),
      with_list-Gained k (ids (t ∷ ts)) l a (add_all-has (t ∷ ts) (list_of k a) [] []),
    )

invite_group-Invited :
    (msg : Message) (a : ChatAccess) (b : Seat)
    → Holds a b
    → Invited group (named group msg) a (invite_group true msg b).0
unfolding invite_group mutate_access
invite_group-Invited msg a b (e, p) = elim (Bool-cases (msg.chat_type == "p2p")) [
  | inl q ↦ simp (q) (a, (e, p), same-Gained group a)
  | inr q ↦
      let l = (add_unique a.allowed_chats msg.chat_id).0 in
      simp (q) (
        with_list group l a,
        (ground (arith, e, p), ground (arith, e, p)),
        with_list-Gained group (msg.chat_id ∷ []) l a (one-has msg.chat_id a.allowed_chats),
      )
]

invite_kind-Invited :
    (k : Kind) (msg : Message) (a : ChatAccess) (b : Seat)
    → Holds a b
    → Invited k (named k msg) a (invite_kind true msg (some k) b).0
invite_kind-Invited user msg a b h =
    invite_people-Invited user (mention_user_targets msg.mentions) a b h
invite_kind-Invited admin msg a b h =
    invite_people-Invited admin (mention_user_targets msg.mentions) a b h
invite_kind-Invited group msg a b h = invite_group-Invited msg a b h

-- An admin's /invite of a kind, once saved, adds exactly the ids that it names to the list of that
-- kind, in the config file and in the running bridge alike, and leaves the other lists and the cached
-- owner alone. It names the mentioned users other than bots, or, for a group, the group it is sent in.
pub invite_exact :
    (k : Kind) (msg : Message) (args : List String) (a : ChatAccess) (b : Seat)
    → Holds a b
    → (can_run_admin_command (policy_access b) b.controls msg.sender_id).is_ok ≡ true
    → any_word "all" args && any_word "group" args ≡ false
    → kind_from none args ≡ some k
    → Invited k (named k msg) a (handle_invite true msg args b).0
unfolding handle_invite
invite_exact k msg args a b h allowed not_all kind =
    simp (allowed, not_all, kind) (invite_kind-Invited k msg a b h)

mutate_access-unsaved :
    (f : ChatAccess → ChatAccess) (b : Seat) → mutate_access false f b ≡ (b, false)
unfolding mutate_access
mutate_access-unsaved f b = elim (Option-cases b.stored) [
  | inl e ↦ rw e refl
  | inr (a, e) ↦ rw e refl
]

people-unsaved :
    (k : Kind) (ts : List Mention) (b : Seat)
    → ((invite_people false k ts b).0 ≡ b) × ((remove_people false k ts b).0 ≡ b)
unfolding invite_people remove_people
people-unsaved k [] b = (refl, refl)
people-unsaved k (t ∷ ts) b = (
  rw (mutate_access-unsaved (λ a. with_list k (add_all (t ∷ ts) (list_of k a) [] []).0 a) b) refl,
  rw (mutate_access-unsaved (λ a. with_list k (remove_all (t ∷ ts) (list_of k a) [] []).0 a) b)
      refl,
)

group-unsaved :
    (msg : Message) (b : Seat)
    → ((invite_group false msg b).0 ≡ b) × ((remove_group false msg b).0 ≡ b)
unfolding invite_group remove_group
group-unsaved msg b = elim (Bool-cases (msg.chat_type == "p2p")) [
  | inl e ↦ (simp (e) refl, simp (e) refl)
  | inr e ↦ (
    simp
        (
          e,
          mutate_access-unsaved (λ a. with_list group (add_unique a.allowed_chats msg.chat_id).0 a)
              b,
        )
        refl,
    simp
        (
          e,
          mutate_access-unsaved (λ a. with_list group (remove_id a.allowed_chats msg.chat_id).0 a)
              b,
        )
        refl,
  )
]

kind-unsaved :
    (msg : Message) (k : Option Kind) (b : Seat)
    → ((invite_kind false msg k b).0 ≡ b) × ((remove_kind false msg k b).0 ≡ b)
kind-unsaved msg none b = (refl, refl)
kind-unsaved msg (some user) b = people-unsaved user (mention_user_targets msg.mentions) b
kind-unsaved msg (some admin) b = people-unsaved admin (mention_user_targets msg.mentions) b
kind-unsaved msg (some group) b = group-unsaved msg b

-- A sender who may not run admin commands changes nothing, neither with /invite nor with /remove,
-- and neither does a command that is not saved.
pub refused_unchanged :
    (written : Bool) (msg : Message) (args : List String) (b : Seat)
    → ((can_run_admin_command (policy_access b) b.controls msg.sender_id).is_ok ≡ false)
      ⊎ (written ≡ false)
    → ((handle_invite written msg args b).0 ≡ b) × ((handle_remove written msg args b).0 ≡ b)
unfolding handle_invite handle_remove
refused_unchanged written msg args b (inl refused) = (simp (refused) refl, simp (refused) refl)
refused_unchanged true msg args b (inr unsaved) = absurd (ground (arith, unsaved))
refused_unchanged false msg args b (inr unsaved) =
    let k = kind-unsaved msg (kind_from none args) b in (ground (arith, k), ground (arith, k))
