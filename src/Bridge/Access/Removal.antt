-- ===== src/Bridge/Access/Removal.antt =====
-- What /remove does to the access lists, and to whom it leaves access.
use lark_coding_agent_bridge.Bridge.Access.{
  ChatAccess, Seat, policy_access, access_of, mutate_access, remove_id, mention_user_targets,
}
use lark_coding_agent_bridge.Bridge.Access.Commands.{
  Reply, not_admin, save_failed, wrong_chat, group_removed, group_missing, changed, stored_list,
  Kind, user, admin, group, list_of, with_list, remove_all, remove_group, remove_people,
  remove_kind, handle_remove, kind_from,
}
use lark_coding_agent_bridge.Prelude.{
  String, ◌≡◌, refl, sym, ◌∙◌, ◌⊎◌, inl, inr, Bool, true, false, not, Option, none, some, List, [],
  ◌∷◌, ◌++◌, arith, ◌==◌, if◌then◌else◌, Bool-cases, Option-cases, has, without, has-without,
}
use lark_coding_agent_bridge.Policy.Laws.{can_use_chat_iff, IsOpen-iff}
use lark_coding_agent_bridge.Policy.{
  has_trust_anchor, can_use_chat, can_run_admin_command, Controls,
}
use lark_coding_agent_bridge.Bridge.Message.{Message, Mention}

-- Everything in the lists of the first access is in those of the second.
abbrev Below : ChatAccess → ChatAccess → Type 0
Below x y = (k : Kind) (s : String) → has s (list_of k x) ≡ true → has s (list_of k y) ≡ true

-- The running bridge shows what the config file holds.
abbrev pub IsSynced : Seat → Type 0
IsSynced b = b.stored ≡ b.profile

-- The file and the bridge hold the same lists, with nothing added, and the same owner.
abbrev Shrunk : Seat → Seat → Type 0
Shrunk b' b =
    IsSynced b'
    × (b'.controls ≡ b.controls)
    × ((b'.profile ≡ b.profile)
        ⊎ ((x y : ChatAccess) × (b'.profile ≡ some x) × (b.profile ≡ some y) × Below x y))

without-has : (j k : String) (xs : List String) → has j (without k xs) ≡ true → has j xs ≡ true
without-has j k xs h = ground (arith, has-without j k xs)

remove_all-has :
    (ts : List Mention) (list : List String) (removed not_there : List Mention) (s : String)
    → has s (remove_all ts list removed not_there).0 ≡ true
    → has s list ≡ true
unfolding remove_all remove_id
remove_all-has [] list removed not_there s h = h
remove_all-has (t ∷ ts) list removed not_there s h = elim (Bool-cases (has t.open_id list)) [
  | inl e ↦
      without-has s t.open_id list (
        remove_all-has ts (without t.open_id list) (removed ++ (t ∷ [])) not_there s
          (simp (e) at h))
  | inr e ↦
      without-has s t.open_id list (
        remove_all-has ts (without t.open_id list) removed (not_there ++ (t ∷ [])) s
          (simp (e) at h))
]

with_list-Below :
    (k : Kind) (l : List String) (a : ChatAccess)
    → ((s : String) → has s l ≡ true → has s (list_of k a) ≡ true)
    → Below (with_list k l a) a
with_list-Below user l a f user s h = f s h
with_list-Below user l a f admin s h = h
with_list-Below user l a f group s h = h
with_list-Below admin l a f user s h = h
with_list-Below admin l a f admin s h = f s h
with_list-Below admin l a f group s h = h
with_list-Below group l a f user s h = h
with_list-Below group l a f admin s h = h
with_list-Below group l a f group s h = f s h

mutate-Shrunk :
    (written : Bool) (f : ChatAccess → ChatAccess) (b : Seat)
    → IsSynced b
    → ((a : ChatAccess) → Below (f a) a)
    → Shrunk (mutate_access written f b).0 b
unfolding mutate_access
mutate-Shrunk written f b synced below = elim (Option-cases b.stored) [
  | inl e ↦ (ground (arith, e, synced), ground (arith, e), inl (ground (arith, e)))
  | inr (a, e) ↦ elim (Bool-cases written) [
    | inl w ↦ (
      ground (arith, e, synced, w),
      ground (arith, e, w),
      inr (f a, a, ground (arith, e, synced, w), sym synced ∙ e, below a),
    )
    | inr w ↦ (ground (arith, e, synced, w), ground (arith, e, w), inl (ground (arith, e, w)))
  ]
]

same-Shrunk : (b : Seat) → IsSynced b → Shrunk b b
same-Shrunk b synced = (synced, refl, inl refl)

if-Shrunk :
    (t : Bool) (x y : Seat × Reply) (b : Seat)
    → Shrunk x.0 b
    → Shrunk y.0 b
    → Shrunk (if t then x else y).0 b
if-Shrunk true x y b p q = p
if-Shrunk false x y b p q = q

-- A change of the lists that replies whether it was saved.
saved-Shrunk :
    (b : Seat) (r : Seat × Bool) (reply : Reply)
    → IsSynced b
    → Shrunk r.0 b
    → Shrunk (if◌then◌else◌ {A = Seat × Reply} (not r.1) (b, save_failed) (r.0, reply)).0 b
saved-Shrunk b r reply synced m =
    if-Shrunk (not r.1) (b, save_failed) (r.0, reply) b (same-Shrunk b synced) m

remove_group-Shrunk :
    (written : Bool) (msg : Message) (b : Seat)
    → IsSynced b
    → Shrunk (remove_group written msg b).0 b
unfolding remove_group remove_id
remove_group-Shrunk written msg b synced =
    let f : ChatAccess → ChatAccess =
      λ a. with_list group (without msg.chat_id a.allowed_chats) a in
    let r = mutate_access written f b in
    let reply = if has msg.chat_id (stored_list group b) then group_removed else group_missing in
    if-Shrunk (msg.chat_type == "p2p") (b, wrong_chat)
      (if not r.1 then (b, save_failed) else (r.0, reply)) b (same-Shrunk b synced)
      (saved-Shrunk b r reply synced (
        mutate-Shrunk written f b synced (λ a.
          with_list-Below group (without msg.chat_id a.allowed_chats) a
            (λ s h. without-has s msg.chat_id a.allowed_chats h))))

remove_people-Shrunk :
    (written : Bool) (k : Kind) (ts : List Mention) (b : Seat)
    → IsSynced b
    → Shrunk (remove_people written k ts b).0 b
unfolding remove_people
remove_people-Shrunk written k [] b synced = same-Shrunk b synced
remove_people-Shrunk written k (t ∷ ts) b synced =
    let f : ChatAccess → ChatAccess =
      λ a. with_list k (remove_all (t ∷ ts) (list_of k a) [] []).0 a in
    let (list, removed, not_there) = remove_all (t ∷ ts) (stored_list k b) [] [] in
    saved-Shrunk b (mutate_access written f b) (changed k removed not_there) synced (
      mutate-Shrunk written f b synced (λ a.
        with_list-Below k (remove_all (t ∷ ts) (list_of k a) [] []).0 a
          (remove_all-has (t ∷ ts) (list_of k a) [] [])))

remove_kind-Shrunk :
    (written : Bool) (msg : Message) (k : Option Kind) (b : Seat)
    → IsSynced b
    → Shrunk (remove_kind written msg k b).0 b
remove_kind-Shrunk written msg none b synced = same-Shrunk b synced
remove_kind-Shrunk written msg (some user) b synced =
    remove_people-Shrunk written user (mention_user_targets msg.mentions) b synced
remove_kind-Shrunk written msg (some admin) b synced =
    remove_people-Shrunk written admin (mention_user_targets msg.mentions) b synced
remove_kind-Shrunk written msg (some group) b synced = remove_group-Shrunk written msg b synced

handle_remove-Shrunk :
    (written : Bool) (msg : Message) (args : List String) (b : Seat)
    → IsSynced b
    → Shrunk (handle_remove written msg args b).0 b
unfolding handle_remove
handle_remove-Shrunk written msg args b synced =
    if-Shrunk (not (can_run_admin_command (policy_access b) b.controls msg.sender_id).is_ok)
      (b, not_admin) (remove_kind written msg (kind_from none args) b) b (same-Shrunk b synced)
      (remove_kind-Shrunk written msg (kind_from none args) b synced)

Below-use_chat :
    (x y : ChatAccess) (c : Controls) (chat_type chat s : String)
    → Below x y
    → has_trust_anchor (access_of x) c ≡ true
    → (can_use_chat (access_of x) c chat_type chat s).is_ok ≡ true
    → (can_use_chat (access_of y) c chat_type chat s).is_ok ≡ true
Below-use_chat x y c chat_type chat s below anchored h =
    let users = below user s in
    let admins = below admin s in
    let chats = below group chat in
    ground (
      arith,
      can_use_chat_iff (access_of x) c chat_type chat s,
      can_use_chat_iff (access_of y) c chat_type chat s,
      IsOpen-iff (access_of x) c,
    )

policy_access-same : (b' b : Seat) → b'.profile ≡ b.profile → policy_access b' ≡ policy_access b
unfolding policy_access
policy_access-same b' b e = rw e refl

policy_access-at : (b : Seat) (a : ChatAccess) → b.profile ≡ some a → policy_access b ≡ access_of a
unfolding policy_access
policy_access-at b a e = rw e refl

Shrunk-use_chat :
    (b' b : Seat) (chat_type chat s : String)
    → Shrunk b' b
    → has_trust_anchor (policy_access b') b'.controls ≡ true
    → (can_use_chat (policy_access b') b'.controls chat_type chat s).is_ok ≡ true
    → (can_use_chat (policy_access b) b.controls chat_type chat s).is_ok ≡ true
Shrunk-use_chat b' b chat_type chat s (_, c, inl e) anchored h =
    let q : policy_access b' ≡ policy_access b = policy_access-same b' b e in cc
Shrunk-use_chat b' b chat_type chat s (_, c, inr (x, y, ex, ey, below)) anchored h =
    let qx = policy_access-at b' x ex in
    let qy = policy_access-at b y ey in
    let anchored' : has_trust_anchor (access_of x) b.controls ≡ true = cc in
    let h' : (can_use_chat (access_of x) b.controls chat_type chat s).is_ok ≡ true = cc in
    let kept = Below-use_chat x y b.controls chat_type chat s below anchored' h' in cc

-- /remove gives nobody access that they lacked, as long as a known owner or an entry of some list is
-- left: whoever may use a chat after it could use it before. The file and the running bridge, in step
-- before, stay in step, whether or not the file could be written.
pub removal_never_widens :
    (written : Bool) (msg : Message) (args : List String) (b : Seat)
    → IsSynced b
    → let b' = (handle_remove written msg args b).0 in
      IsSynced b'
      × ((chat_type chat s : String)
          → has_trust_anchor (policy_access b') b'.controls ≡ true
          → (can_use_chat (policy_access b') b'.controls chat_type chat s).is_ok ≡ true
          → (can_use_chat (policy_access b) b.controls chat_type chat s).is_ok ≡ true)
removal_never_widens written msg args b synced =
    let shrunk = handle_remove-Shrunk written msg args b synced in
    (
      shrunk.0,
      λ chat_type chat s.
          Shrunk-use_chat (handle_remove written msg args b).0 b chat_type chat s shrunk,
    )
