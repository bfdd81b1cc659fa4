-- ===== src/Tests/Stores.antt =====
-- Stores that are changed and written.
use lark_coding_agent_bridge.Registry.{
  Process, Registry, steps, upserts, reads, prunes, find_process, any_dead, listing_drops,
}
use lark_coding_agent_bridge.Prelude.{
  ℕ, Bool, not, eqb, refl, String, ◌≡◌, true, false, none, some, List, [], ◌∷◌, lookup,
}
use lark_coding_agent_bridge.Store.Sessions.{no_session, Call, sets, deletes, flushes}
use lark_coding_agent_bridge.Store.Bindings.{Binding, BindingStore}
use lark_coding_agent_bridge.Store.UserGroups.{load_user_groups, Indexed, index}

abbrev store_calls : List Call
store_calls =
    sets 5 "oc_1" (record no_session { session_id = "s1" }) ∷ flushes true ∷ deletes "oc_2" ∷ []

abbrev home : Binding
home = record { scope = "oc_1"; chat_id = "oc_1"; chat_type = "group"; bound_at = 3 }

abbrev away : Binding
away = record home { scope = "oc_2"; chat_id = "oc_2" }

abbrev links : BindingStore
links = record { by_session = ("claude:s1", home) ∷ []; dirty = false; file = [] }

abbrev session : String
session = "claude:s1"

empty-Indexed : Indexed (load_user_groups none)
unfolding load_user_groups index lookup
empty-Indexed = (tt, λ p. refl)

abbrev process : ℕ → Process
process pid = record {
  pid = pid;
  profile = "claude";
  agent = "claude";
  binary = "/bin/bridge";
  workspace = "/work";
  version = "1";
  started_at = pid;
  heartbeat_at = pid;
}

abbrev machine : Registry
machine = record { file = process 10 ∷ process 11 ∷ []; loaded = [] }

abbrev alive : ℕ → Bool
alive pid = not (eqb pid 10)

unregistered : find_process 12 machine.file ≡ none
unfolding find_process
unregistered = refl

one_dead : any_dead alive machine.file ≡ true
unfolding any_dead
one_dead = refl

listing_drops_example :
    (find_process 12 (steps machine (reads ∷ upserts (process 12) ∷ [])).file ≡ some (process 12))
    × (find_process 12 (steps machine (reads ∷ upserts (process 12) ∷ prunes alive ∷ [])).file
        ≡ none)
listing_drops_example = listing_drops machine (process 12) alive unregistered one_dead
