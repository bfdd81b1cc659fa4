-- ===== src/Agent/Runs.antt =====
-- internal/agent/pi.go and opencode.go: the event channels of the runs that share one agent process. A
-- run is registered in a map of the process until its channel is closed; `safeSend` drops an event where
-- the channel is full or closed. Closing a closed channel is a panic, `none` here.
pub mod Laws
use lark_coding_agent_bridge.Prelude.{
  ℕ, zero, suc, ◌+◌, ◌-◌, ◌*◌, ◌/◌, ◌%◌, ◌≤◌, ◌<◌, String, ◌≡◌, refl, sym, ap, ◌∙◌, subst, ◌≢◌, ◌↔◌,
  ◌⊎◌, inl, inr, Bool, true, false, ◌&&◌, ◌||◌, not, Option, none, some, List, [], ◌∷◌, ◌++◌, map,
  arith, ◌==◌, eq_iff, eq_refl, ltb, leb, eqb, if◌then◌else◌, Bool-cases, either, either2, switch,
  switch_All2, switch_All, Option-cases, length, get_elem?, set, replicate, All, All-append,
  length-append, length-set, length-replicate, has, without, has-without, has-append,
  has-without_self, Dict, lookup, insert, delete, keep, has_key, keys, lookup-keep, DistinctKeys,
  insert-DistinctKeys, delete-DistinctKeys, lookup-insert, lookup-insert_self, lookup-delete,
  lookup-delete_self, has_key-insert, AllVals, AllVals-insert, AllVals-delete, AllVals-keep,
  AllVals-lookup, ℤ, pos, negsuc, concat, trim_space, runes, take_runes, truncate_runes,
  truncate_runes_bound, cut_at, join, drop_runes, to_lower, starts_with,
}
use lark_coding_agent_bridge.Agent.Json.{
  Json, null, bool, num, str, arr, obj, Items, stop, item, Fields, empty, entry, get, present,
  as_string, as_bool, as_map, any_slice, any_strings, or_empty, map_field, string_field, int_field,
  count_of, is_positive,
}
use lark_coding_agent_bridge.Agent.Marshal.{marshal, show_nat, show_int}
use lark_coding_agent_bridge.Agent.Event.{
  Event, AskOption, AskQuestion, blank, TerminationReason, EventType,
}
use lark_coding_agent_bridge.Agent.Codex.{
  codex_json, text_event, use_event, result_event, error_message, cut,
}

pub record Channel : Type 0 where
  -- The events that the channel took, and how many of them nobody has read yet.
  pub sent : List Event
  pub unread : ℕ
  pub closed : Bool

abbrev pub capacity : ℕ
capacity = 256

-- `make(chan Event, 256)`.
abbrev pub new_channel : Channel
new_channel = record { sent = []; unread = 0; closed = false }

unfoldable pub safe_send : Channel → Event → Channel
safe_send ch e =
    if ch.closed || not (ltb ch.unread capacity)
    then ch
    else record ch { sent = ch.sent ++ (e ∷ []); unread = ch.unread + 1 }

unfoldable pub send_all : Channel → List Event → Channel
send_all ch [] = ch
send_all ch (e ∷ es) = send_all (safe_send ch e) es

-- The bridge reads one event.
unfoldable pub receive : Channel → Channel
receive ch = record ch { unread = ch.unread - 1 }

-- `close(ch)`.
unfoldable pub close_channel : Channel → Option Channel
close_channel ch = if ch.closed then none else some (record ch { closed = true })

pub record Slot {ℓ} (A : Type ℓ) : Type ℓ where
  pub info : A
  pub registered : Bool
  pub chan : Channel

module _ {ℓ} {A : Type ℓ} where
  abbrev pub closed_slot : Slot A → Option Channel → Option (Slot A)
  closed_slot s none = none
  closed_slot s (some ch) = some (record s { chan = ch; registered = false })

  -- Close a run's channel and take the run off the map.
  unfoldable pub close_slot : Slot A → Option (Slot A)
  close_slot s = closed_slot s (close_channel s.chan)

  -- A registered run gets events, and is closed if they end the turn.
  unfoldable pub deliver_one : List Event → Bool → Slot A → Option (Slot A)
  deliver_one events terminal s =
      let got = record s { chan = send_all s.chan events } in
      if not s.registered then some s else if terminal then close_slot got else some got

  abbrev pub join_slots : Option (Slot A) → Option (List (Slot A)) → Option (List (Slot A))
  join_slots none _ = none
  join_slots (some s) none = none
  join_slots (some s) (some ss) = some (s ∷ ss)

  -- The runs that the events are for.
  unfoldable pub deliver : (A → Bool) → List Event → Bool → List (Slot A) → Option (List (Slot A))
  deliver for events terminal [] = some []
  deliver for events terminal (s ∷ ss) =
      join_slots (if for s.info then deliver_one events terminal s else some s)
        (deliver for events terminal ss)

  -- A change of the run at an index.
  unfoldable pub at : (Slot A → Option (Slot A)) → ℕ → List (Slot A) → Option (List (Slot A))
  at f n [] = some []
  at f zero (s ∷ ss) = join_slots (f s) (some ss)
  at f (suc n) (s ∷ ss) = join_slots (some s) (at f n ss)

  -- Close the run's channel if the run is still registered.
  unfoldable pub close_registered : Slot A → Option (Slot A)
  close_registered s = if s.registered then close_slot s else some s

  -- The bridge reads an event of a run.
  unfoldable pub read_slot : Slot A → Option (Slot A)
  read_slot s = some (record s { chan = receive s.chan })
