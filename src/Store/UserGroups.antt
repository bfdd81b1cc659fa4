-- ===== src/Store/UserGroups.antt =====
-- internal/state/user_groups.go: the group that a private chat forwards to, as a map and as the
-- list of mappings that is written to disk.
use mathlib.Core.Path.{refl}
use lark_coding_agent_bridge.Prelude.{
  ℕ, String, ◌≡◌, Bool, true, false, ◌||◌, not, Option, none, some, List, [], ◌∷◌, ◌==◌,
  if◌then◌else◌, Dict, lookup, insert, delete, keep, has_key, DistinctKeys, Bool-cases, arith, inl,
  lookup-insert, inr, eq_iff, insert-DistinctKeys, delete-DistinctKeys,
}

pub record Mapping : Type 0 where
  pub p2p_chat_id : String
  pub group_chat_id : String
  pub created_at : ℕ

pub record UserGroupStore : Type 0 where
  pub mappings : List Mapping
  pub dirty : Bool
  pub by_user : Dict String

-- Later mappings of a chat win.
unfoldable pub index : Dict String → List Mapping → Dict String
index m [] = m
index m (x ∷ xs) = index (insert x.p2p_chat_id x.group_chat_id m) xs

unfoldable pub load_user_groups : Option (List Mapping) → UserGroupStore
load_user_groups none = record { mappings = []; dirty = false; by_user = [] }
load_user_groups (some ms) = record { mappings = ms; dirty = false; by_user = index [] ms }

unfoldable pub rebuild : ℕ → Dict String → List Mapping
rebuild now [] = []
rebuild now ((p, g) ∷ m) =
    record { p2p_chat_id = p; group_chat_id = g; created_at = now } ∷ rebuild now m

unfoldable pub get_group : String → UserGroupStore → Option String
get_group p2p s = lookup p2p s.by_user

abbrev pub with_users : ℕ → Dict String → UserGroupStore → UserGroupStore
with_users now m s = record s { by_user = m; mappings = rebuild now m; dirty = true }

abbrev pub maps_to : String → Option String → Bool
maps_to group none = false
maps_to group (some g) = g == group

unfoldable pub set_group : ℕ → String → String → UserGroupStore → UserGroupStore
set_group now p2p group s =
    if maps_to group (lookup p2p s.by_user)
    then s
    else with_users now (insert p2p group s.by_user) s

unfoldable pub delete_user : ℕ → String → UserGroupStore → UserGroupStore
delete_user now p2p s =
    if not (has_key p2p s.by_user) then s else with_users now (delete p2p s.by_user) s

unfoldable pub any_group : String → Dict String → Bool
any_group group [] = false
any_group group ((p, g) ∷ m) = g == group || any_group group m

unfoldable pub delete_by_group : ℕ → String → UserGroupStore → UserGroupStore
delete_by_group now group s =
    if any_group group s.by_user
    then with_users now (keep (λ p g. not (g == group)) s.by_user) s
    else s

-- Whether the write succeeds is the environment's choice.
unfoldable pub flush_user_groups : Bool → UserGroupStore → UserGroupStore × Bool
flush_user_groups written s =
    if not s.dirty
    then (s, true)
    else if written
    then (record s { dirty = false }, true)
    else (s, false)

pub data Call : Type 0 where
  sets : ℕ → String → String → Call
  deletes : ℕ → String → Call
  drops : ℕ → String → Call

unfoldable pub call : UserGroupStore → Call → UserGroupStore
call s (sets now p g) = set_group now p g s
call s (deletes now p) = delete_user now p s
call s (drops now g) = delete_by_group now g s

unfoldable pub calls : UserGroupStore → List Call → UserGroupStore
calls s [] = s
calls s (c ∷ cs) = calls (call s c) cs

-- The list on disk indexes to the map in memory, key by key.
abbrev pub Indexed : UserGroupStore → Type 0
Indexed s =
    DistinctKeys s.by_user × ((p : String) → lookup p (index [] s.mappings) ≡ lookup p s.by_user)

has_key-keep :
    {V : Type 0} (p : String → V → Bool) (k : String) (m : Dict V)
    → has_key k m ≡ false
    → has_key k (keep p m) ≡ false
unfolding has_key keep lookup
has_key-keep p k [] h = refl
has_key-keep p k ((j, w) ∷ m) h = ground (arith, has_key-keep p k m)

keep-DistinctKeys :
    {V : Type 0} (p : String → V → Bool) (m : Dict V) → DistinctKeys m → DistinctKeys (keep p m)
unfolding keep
keep-DistinctKeys p [] d = tt
keep-DistinctKeys p ((j, w) ∷ m) d =
    ground (arith, has_key-keep p j m d.0, keep-DistinctKeys p m d.1)

lookup-absent : {V : Type 0} (k : String) (m : Dict V) → has_key k m ≡ false → lookup k m ≡ none
unfolding has_key
lookup-absent k m h = ground arith

-- A mapping of the map wins over what was indexed before it.
index-rebuild :
    (now : ℕ) (p : String) (m acc : Dict String)
    → DistinctKeys m
    → lookup p (index acc (rebuild now m))
      ≡ elim (lookup p m) [ none ↦ lookup p acc | some g ↦ some g ]
unfolding index rebuild lookup
index-rebuild now p [] acc d = refl
index-rebuild now p ((q, g) ∷ m) acc d = elim (Bool-cases (q == p)) [
  | inl e ↦ ground (
    arith,
    e,
    index-rebuild now p m (insert q g acc) d.1,
    lookup-insert q p g acc,
    lookup-absent q m d.0,
    eq_iff q p,
  )
  | inr e ↦ ground (arith, e, index-rebuild now p m (insert q g acc) d.1, lookup-insert q p g acc)
]

with_users-Indexed :
    (now : ℕ) (m : Dict String) (s : UserGroupStore) → DistinctKeys m → Indexed (with_users now m s)
unfolding lookup
with_users-Indexed now m s d = (d, λ p. ground (arith, index-rebuild now p m [] d))

call-Indexed : (s : UserGroupStore) (c : Call) → Indexed s → Indexed (call s c)
unfolding call set_group delete_user delete_by_group
call-Indexed s (sets now p g) i = elim (Bool-cases (maps_to g (lookup p s.by_user))) [
  | inl e ↦ simp (e) i
  | inr e ↦
      simp (e)
        (with_users-Indexed now (insert p g s.by_user) s (insert-DistinctKeys p g s.by_user i.0))
]
call-Indexed s (deletes now p) i = elim (Bool-cases (not (has_key p s.by_user))) [
  | inl e ↦ simp (e) i
  | inr e ↦
      simp (e) (with_users-Indexed now (delete p s.by_user) s (delete-DistinctKeys p s.by_user i.0))
]
call-Indexed s (drops now g) i = elim (Bool-cases (any_group g s.by_user)) [
  | inl e ↦ simp (e) (
      with_users-Indexed now (keep (λ p h. not (h == g)) s.by_user) s
        (keep-DistinctKeys (λ p h. not (h == g)) s.by_user i.0))
  | inr e ↦ simp (e) i
]

-- After any sequence of calls on a store whose list and map agree, they still agree: the mappings
-- that a flush writes are, indexed again by a load, what every lookup in memory returns.
pub calls-Indexed : (s : UserGroupStore) (cs : List Call) → Indexed s → Indexed (calls s cs)
unfolding calls
calls-Indexed s [] i = i
calls-Indexed s (c ∷ cs) i = calls-Indexed (call s c) cs (call-Indexed s c i)
