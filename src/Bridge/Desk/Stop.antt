-- ===== src/Bridge/Desk/Stop.antt =====
-- Stopping a run, by its scope or by the card that shows it.
use lark_coding_agent_bridge.Prelude.{
  String, ◌≡◌, ◌≢◌, Bool, true, false, none, some, ◌∷◌, arith, ◌==◌, eq_iff, eq_refl, if◌then◌else◌,
  lookup, delete, has_key, DistinctKeys, lookup-insert, lookup-delete, lookup-delete_self,
}
use lark_coding_agent_bridge.Ask.Bulk.{called_off_if, open_here, lookup-invalidate_scope}
use lark_coding_agent_bridge.Bridge.Desk.{
  Desk, stop_run, stop_run_by_card_message, enter_card, leave_run, rotate_run_card,
  save_active_card, clear_scope_route, resolve_scope_route,
}

-- Stopping a scope takes exactly its run off the desk and tells exactly that run to stop, calls off
-- exactly the open asks of the scope, and reports whether there was a run. Without a run it changes
-- nothing.
pub stop_exact :
    (sc : String) (d : Desk)
    → DistinctKeys d.asks.pending
    → let (d', done) = stop_run sc d in
      (done ≡ has_key sc d.runs)
      × (done ≡ false → d' ≡ d)
      × ((other : String)
          → lookup other d'.runs ≡ (if sc == other then none else lookup other d.runs))
      × (d'.stopped ≡ elim (lookup sc d.runs) [ none ↦ d.stopped | some n ↦ n ∷ d.stopped ])
      × (done ≡ true
          → (j : String)
          → lookup j d'.asks.pending
            ≡ called_off_if
                (open_here sc (lookup j d.asks.pending))
                "run stopped"
                (lookup j d.asks.pending))
unfolding stop_run has_key
stop_exact sc d distinct = (
  ground arith,
  λ h. ground (arith, h),
  λ other. ground (arith, lookup-delete sc other d.runs, eq_iff sc other),
  ground arith,
  λ h j. ground (arith, h, lookup-invalidate_scope sc "run stopped" j d.asks distinct),
)

card-stops :
    (message_id sc : String) (d : Desk)
    → lookup message_id d.card_scopes ≡ some sc
    → stop_run_by_card_message message_id d ≡ stop_run sc d
unfolding stop_run_by_card_message
card-stops message_id sc d e = ground (arith, e)

card-dead :
    (message_id : String) (d : Desk)
    → lookup message_id d.card_scopes ≡ none
    → stop_run_by_card_message message_id d ≡ (d, false)
unfolding stop_run_by_card_message
card-dead message_id d e = ground (arith, e)

scope-dead : (sc : String) (d : Desk) → lookup sc d.runs ≡ none → stop_run sc d ≡ (d, false)
unfolding stop_run
scope-dead sc d e = ground (arith, e)

-- The scope that a card stops after it is entered.
entered :
    (sc chat_id message_id card_id j : String) (d : Desk)
    → lookup j (enter_card sc chat_id message_id card_id d).card_scopes
      ≡ (if message_id == j then some sc else lookup j d.card_scopes)
unfolding enter_card save_active_card
entered sc chat_id message_id card_id j d = lookup-insert message_id j sc d.card_scopes

rotated :
    (sc chat_id old new card_id j : String) (persist : Bool) (d : Desk)
    → new ≢ ""
    → lookup j (rotate_run_card sc chat_id old new card_id persist d).card_scopes
      ≡ (if new == j then some sc else if old == j then none else lookup j d.card_scopes)
unfolding rotate_run_card save_active_card
rotated sc chat_id old new card_id j persist d n = ground (
  arith,
  eq_iff new "",
  lookup-insert new j sc (delete old d.card_scopes),
  lookup-delete old j d.card_scopes,
)

left :
    (sc message_id j : String) (d : Desk)
    → lookup j (leave_run sc message_id d).card_scopes
      ≡ (if message_id == j then none else lookup j d.card_scopes)
unfolding leave_run clear_scope_route
left sc message_id j d = lookup-delete message_id j d.card_scopes

left-gone :
    (sc message_id : String) (d : Desk)
    → (resolve_scope_route sc (leave_run sc message_id d) ≡ none)
      × (lookup sc (leave_run sc message_id d).runs ≡ none)
unfolding leave_run clear_scope_route resolve_scope_route
left-gone sc message_id d = (lookup-delete_self sc d.scope_routes, lookup-delete_self sc d.runs)

-- The stop button of the card that is entered for a scope stops the run of that scope; once the run is
-- continued on a new card, the new one does and the old one does nothing, and no other card changes
-- what it stops; once the run is left, its card does nothing and its scope has no route and no run.
pub cards_stop_their_scope :
    (sc chat_id old_message new_message other old_card new_card : String) (persist : Bool)
    (d : Desk)
    → new_message ≢ ""
    → old_message ≢ new_message
    → other ≢ new_message
    → other ≢ old_message
    → let d1 = enter_card sc chat_id old_message old_card d in
      let d2 = rotate_run_card sc chat_id old_message new_message new_card persist d1 in
      let d3 = leave_run sc new_message d2 in
      (stop_run_by_card_message old_message d1 ≡ stop_run sc d1)
      × (stop_run_by_card_message new_message d2 ≡ stop_run sc d2)
      × (stop_run_by_card_message old_message d2 ≡ (d2, false))
      × (lookup other d3.card_scopes ≡ lookup other d.card_scopes)
      × (stop_run_by_card_message new_message d3 ≡ (d3, false))
      × (stop_run_by_card_message old_message d3 ≡ (d3, false))
      × (resolve_scope_route sc d3 ≡ none)
      × (stop_run sc d3 ≡ (d3, false))
cards_stop_their_scope sc chat_id old_message new_message other old_card new_card persist d n on o
      p =
    let d1 = enter_card sc chat_id old_message old_card d in
    let d2 = rotate_run_card sc chat_id old_message new_message new_card persist d1 in
    let d3 = leave_run sc new_message d2 in
    let in1 = λ (j : String). entered sc chat_id old_message old_card j d in
    let in2 = λ (j : String). rotated sc chat_id old_message new_message new_card j persist d1 n in
    let in3 = λ (j : String). left sc new_message j d2 in
    (
      card-stops old_message sc d1 (ground (arith, in1 old_message, eq_refl old_message)),
      card-stops new_message sc d2 (ground (arith, in2 new_message, eq_refl new_message)),
      card-dead old_message d2
          (ground (arith, in2 old_message, eq_refl old_message, eq_iff new_message old_message)),
      ground (
        arith,
        in1 other,
        in2 other,
        in3 other,
        eq_iff new_message other,
        eq_iff old_message other,
      ),
      card-dead new_message d3 (ground (arith, in3 new_message, eq_refl new_message)),
      card-dead old_message d3 (
          ground (
            arith,
            in3 old_message,
            in2 old_message,
            eq_refl old_message,
            eq_iff new_message old_message,
          )),
      (left-gone sc new_message d2).0,
      scope-dead sc d3 (left-gone sc new_message d2).1,
    )
