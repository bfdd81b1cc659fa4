-- ===== src/Registry.antt =====
-- internal/registry/registry.go: the bridge processes of a machine, in one file. `upsert` and the
-- removal at the end hold the file lock, so each is one step; `List` reads and writes without it. The
-- build information of an entry is its text, and whether a process exists is an argument.
use lark_coding_agent_bridge.Prelude.{
  ℕ, String, ◌≡◌, refl, Bool, true, false, ◌||◌, not, Option, none, some, List, [], ◌∷◌, arith, ltb,
  eqb, if◌then◌else◌,
}

pub record Process : Type 0 where
  pub pid : ℕ
  pub profile : String
  pub agent : String
  pub binary : String
  pub workspace : String
  pub version : String
  pub started_at : ℕ
  pub heartbeat_at : ℕ

-- Writes or refreshes the entry of a process.
unfoldable pub upsert : Process → List Process → List Process
upsert e [] = e ∷ []
upsert e (x ∷ xs) = let rest = upsert e xs in if eqb x.pid e.pid then e ∷ xs else x ∷ rest

unfoldable pub deregister : ℕ → List Process → List Process
deregister pid [] = []
deregister pid (x ∷ xs) = let rest = deregister pid xs in if eqb x.pid pid then rest else x ∷ rest

unfoldable pub prune : (ℕ → Bool) → List Process → List Process
prune alive [] = []
prune alive (x ∷ xs) = let rest = prune alive xs in if alive x.pid then x ∷ rest else rest

unfoldable pub any_dead : (ℕ → Bool) → List Process → Bool
any_dead alive [] = false
any_dead alive (x ∷ xs) = not (alive x.pid) || any_dead alive xs

-- `sort.Slice` by the time of the start.
unfoldable pub insert_process : Process → List Process → List Process
insert_process e [] = e ∷ []
insert_process e (x ∷ xs) =
    let rest = insert_process e xs in if ltb x.started_at e.started_at then x ∷ rest else e ∷ x ∷ xs

unfoldable pub sort_processes : List Process → List Process
sort_processes [] = []
sort_processes (e ∷ es) = insert_process e (sort_processes es)

-- The file, and what a `List` that is under way has read.
pub record Registry : Type 0 where
  pub file : List Process
  pub loaded : List Process

pub data Step : Type 0 where
  upserts : Process → Step
  deregisters : ℕ → Step
  reads : Step
  prunes : (ℕ → Bool) → Step

unfoldable pub step : Registry → Step → Registry
step r (upserts e) = record r { file = upsert e r.file }
step r (deregisters pid) = record r { file = deregister pid r.file }
step r reads = record r { loaded = r.file }
step r (prunes alive) =
    if any_dead alive r.loaded then record r { file = prune alive r.loaded } else r

unfoldable pub steps : Registry → List Step → Registry
steps r [] = r
steps r (s ∷ ss) = steps (step r s) ss

-- The list that `List` returns.
unfoldable pub listed : (ℕ → Bool) → Registry → List Process
listed alive r = sort_processes (prune alive r.loaded)

unfoldable pub find_process : ℕ → List Process → Option Process
find_process pid [] = none
find_process pid (x ∷ xs) = if eqb x.pid pid then some x else find_process pid xs

find-upsert :
    (pid : ℕ) (e : Process) (es : List Process)
    → find_process pid (upsert e es) ≡ (if eqb e.pid pid then some e else find_process pid es)
unfolding find_process upsert
find-upsert pid e [] = ground arith
find-upsert pid e (x ∷ xs) = ground (arith, find-upsert pid e xs)

find-deregister :
    (pid gone : ℕ) (es : List Process)
    → find_process pid (deregister gone es) ≡ (if eqb gone pid then none else find_process pid es)
unfolding find_process deregister
find-deregister pid gone [] = ground arith
find-deregister pid gone (x ∷ xs) = ground (arith, find-deregister pid gone xs)

find-prune_dead :
    (pid : ℕ) (alive : ℕ → Bool) (es : List Process)
    → find_process pid es ≡ none
    → find_process pid (prune alive es) ≡ none
unfolding find_process prune
find-prune_dead pid alive [] h = refl
find-prune_dead pid alive (x ∷ xs) h = ground (arith, h, find-prune_dead pid alive xs)

-- Under the lock an entry is written and removed by its process alone: after an upsert the process is
-- found as written and every other as before, and after a removal exactly that process is gone.
pub registered_alone :
    (r : Registry) (e : Process) (gone pid : ℕ)
    → (find_process pid (step r (upserts e)).file
        ≡ (if eqb e.pid pid then some e else find_process pid r.file))
      × (find_process pid (step r (deregisters gone)).file
          ≡ (if eqb gone pid then none else find_process pid r.file))
unfolding step
registered_alone r e gone pid = (find-upsert pid e r.file, find-deregister pid gone r.file)

-- Listing drops an entry that is written while it is under way: if a process that is not yet
-- registered is written between the read and the write of a listing that finds a dead entry, it is
-- in the file by then and lost afterwards, whether or not it is alive.
pub listing_drops :
    (r : Registry) (e : Process) (alive : ℕ → Bool)
    → find_process e.pid r.file ≡ none
    → any_dead alive r.file ≡ true
    → (find_process e.pid (steps r (reads ∷ upserts e ∷ [])).file ≡ some e)
      × (find_process e.pid (steps r (reads ∷ upserts e ∷ prunes alive ∷ [])).file ≡ none)
unfolding steps step
listing_drops r e alive fresh dead = (
  ground (arith, find-upsert e.pid e r.file),
  ground (arith, dead, find-prune_dead e.pid alive r.file fresh),
)
