-- ===== src/Agent/AppServer/Once.antt =====
-- How a turn of internal/agent/codex_appserver.go ends: it is closed once at most.
use lark_coding_agent_bridge.Prelude.{
  ℕ, ◌+◌, ◌≤◌, String, ◌≡◌, refl, sym, subst, Bool, true, false, ◌||◌, Option, none, some, List, [],
  ◌∷◌, ◌++◌, arith, ◌==◌, if◌then◌else◌, either, either_test, switch, switch_All,
}
use lark_coding_agent_bridge.Agent.Json.{
  Json, Fields, get, present, as_bool, or_empty, map_field, string_field,
}
use lark_coding_agent_bridge.Agent.Event.{Event, blank, EventType}
use lark_coding_agent_bridge.Agent.OpenCode.{failed_event}
use lark_coding_agent_bridge.Agent.AppServer.{
  codex_app_tool_use, codex_app_tool_result, app_result, app_tool_cases, command_approval,
  file_approval, permissions_approval,
}
use lark_coding_agent_bridge.Agent.AppServer.Turn.{
  AppRun, emit, finish, emit_some, emit_text, item_completed, token_usage, server_error,
  notification_cases, handle_notification, user_input_event, refuse, request_cases,
  handle_server_request, handle_response, read_message, request_stop, wait_exit, Op, message,
  stopping, exited, perform_all,
}

abbrev pub closes : EventType → Bool
closes EventType.done = true
closes EventType.error = true
closes _ = false

unfoldable pub closings : List Event → ℕ
closings [] = 0
closings (e ∷ es) = (if closes e.kind then 1 else 0) + closings es

-- A closing event at most, and none before the turn is over.
pub record ClosesOnce (r : AppRun) : Type 0 where
  pub once : closings r.events ≤ 1
  pub open_turn : r.finished ≡ false → closings r.events ≡ 0

closings-append : (xs ys : List Event) → closings (xs ++ ys) ≡ closings xs + closings ys
unfolding closings
closings-append [] ys = omega arith
closings-append (x ∷ xs) ys = omega (arith, closings-append xs ys)

abbrev Plain : Event → Type 0
Plain e = closes e.kind ≡ false

one-closing : (e : Event) → closings (e ∷ []) ≤ 1
unfolding closings
one-closing e = either (λ (n : ℕ). n + 0 ≤ 1) (closes e.kind) 1 0 (omega arith) (omega arith)

Plain-closing : (e : Event) → Plain e → closings (e ∷ []) ≡ 0
unfolding closings
Plain-closing e p = rw p (omega arith)

emit-ClosesOnce : (r : AppRun) (e : Event) → Plain e → ClosesOnce r → ClosesOnce (emit r e)
unfolding emit
emit-ClosesOnce r e p h =
    let all = closings-append r.events (e ∷ []) in
    let none = Plain-closing e p in
    either ClosesOnce r.channel_closed r (record r { events = r.events ++ (e ∷ []) }) h
      (record {
        once = subst (λ (n : ℕ). n ≤ 1) (sym (omega (arith, all, none))) h.once;
        open_turn = λ f. omega (arith, all, none, h.open_turn f);
      })

-- A turn that was open, with its closing event, or without.
over-ClosesOnce :
    (r : AppRun) (e : Event)
    → ClosesOnce r
    → r.finished ≡ false
    → ClosesOnce (emit (record r { finished = true }) e)
unfolding emit
over-ClosesOnce r e h f =
    let all = closings-append r.events (e ∷ []) in
    let zero' = h.open_turn f in
    either ClosesOnce r.channel_closed (record r { finished = true })
      (record r { finished = true; events = r.events ++ (e ∷ []) })
      (record { once = h.once; open_turn = λ g. cc })
      (record { once = omega (arith, all, zero', one-closing e); open_turn = λ g. cc })

finish-ClosesOnce : (r : AppRun) (e : Event) → ClosesOnce r → ClosesOnce (finish r e)
unfolding finish
finish-ClosesOnce r e h =
    either_test ClosesOnce r.finished r (emit (record r { finished = true }) e) (λ f. h)
      (λ f. over-ClosesOnce r e h f)

-- An event that is there, is plain.
abbrev PlainSome : Option Event → Type 0
PlainSome none = Unit {0}
PlainSome (some e) = Plain e

emit_some-ClosesOnce :
    (r : AppRun) (o : Option Event) → PlainSome o → ClosesOnce r → ClosesOnce (emit_some r o)
emit_some-ClosesOnce r none p h = h
emit_some-ClosesOnce r (some e) p h = emit-ClosesOnce r e p h

tool_use-PlainSome : (it : Fields) → PlainSome (codex_app_tool_use it)
unfolding codex_app_tool_use
tool_use-PlainSome it =
    let id = string_field it ("id" ∷ []) in
    either PlainSome (id == "") none
      (switch (string_field it ("type" ∷ [])) (app_tool_cases id it) none) tt
      (switch_All PlainSome (string_field it ("type" ∷ [])) (app_tool_cases id it) none
        (refl, (refl, (refl, (refl, (refl, tt))))) tt)

app_result-PlainSome : (it : Fields) (o : Option Event) → PlainSome (app_result it o)
app_result-PlainSome it none = tt
app_result-PlainSome it (some e) = refl

text-ClosesOnce :
    (r : AppRun) (kind : EventType) (delta : String)
    → closes kind ≡ false
    → ClosesOnce r
    → ClosesOnce (emit_text r kind delta)
unfolding emit_text
text-ClosesOnce r kind delta p h =
    either ClosesOnce (delta == "") r (emit r (record (blank kind) { delta = delta })) h
      (emit-ClosesOnce r (record (blank kind) { delta = delta }) p h)

item-ClosesOnce : (r : AppRun) (it : Fields) → ClosesOnce r → ClosesOnce (item_completed r it)
unfolding item_completed codex_app_tool_result
item-ClosesOnce r it h =
    let result = codex_app_tool_result it in
    let shown = emit_some r result in
    let kept = emit_some-ClosesOnce r result (app_result-PlainSome it (codex_app_tool_use it)) h in
    let last = record (blank EventType.final_text) { content = string_field it ("text" ∷ []) } in
    either ClosesOnce _ (emit shown last) shown (emit-ClosesOnce shown last refl kept) kept

usage-ClosesOnce : (r : AppRun) (o : Option Fields) → ClosesOnce r → ClosesOnce (token_usage r o)
unfolding token_usage
usage-ClosesOnce r none h = h
usage-ClosesOnce r (some last) h = emit-ClosesOnce r _ refl h

error-ClosesOnce :
    (r : AppRun) (params : Fields) → ClosesOnce r → ClosesOnce (server_error r params)
unfolding server_error
error-ClosesOnce r params h =
    either ClosesOnce (as_bool (get params "willRetry")) _ _ h (finish-ClosesOnce r _ h)

notification-ClosesOnce :
    (r : AppRun) (method : String) (params : Fields)
    → ClosesOnce r
    → ClosesOnce (handle_notification r method params)
unfolding handle_notification
notification-ClosesOnce r method params h =
    let it = or_empty (map_field params "item") in
    switch_All ClosesOnce method (notification_cases r params) r
      (
        text-ClosesOnce r EventType.text _ refl h,
        (
          text-ClosesOnce r EventType.thinking _ refl h,
          (
            text-ClosesOnce r EventType.thinking _ refl h,
            (
              emit_some-ClosesOnce r (codex_app_tool_use it) (tool_use-PlainSome it) h,
              (
                item-ClosesOnce r it h,
                (
                  usage-ClosesOnce r _ h,
                  (finish-ClosesOnce r _ h, (error-ClosesOnce r params h, tt)),
                ),
              ),
            ),
          ),
        ),
      )
      h

request-ClosesOnce :
    (r : AppRun) (method : String) (id : Json) (params : Fields)
    → ClosesOnce r
    → ClosesOnce (handle_server_request r method id params)
unfolding handle_server_request refuse user_input_event command_approval file_approval
    permissions_approval
request-ClosesOnce r method id params h =
    let ask = λ (e : Event) (p : Plain e). emit-ClosesOnce r e p h in
    switch_All ClosesOnce method (request_cases r id params) (refuse r id)
      (
        ask (user_input_event params) refl,
        (
          ask (command_approval id params) refl,
          (ask (file_approval id params) refl, (ask (permissions_approval id params) refl, tt)),
        ),
      )
      (record { once = h.once; open_turn = h.open_turn })

read-ClosesOnce :
    (r : AppRun) (raw : Option Fields) → ClosesOnce r → ClosesOnce (read_message r raw)
unfolding read_message handle_response
read-ClosesOnce r none h = h
read-ClosesOnce r (some raw) h =
    let method = string_field raw ("method" ∷ []) in
    let params = or_empty (map_field raw "params") in
    either ClosesOnce _ _ _ (request-ClosesOnce r method (get raw "id") params h) (
      either ClosesOnce _ _ _ (notification-ClosesOnce r method params h) (
        either ClosesOnce (present raw "id") (handle_response r (get raw "id")) r
          (record { once = h.once; open_turn = h.open_turn }) h))

first_false : (a b : Bool) → (a || b) ≡ false → a ≡ false
first_false a b h = ground arith

exit-ClosesOnce :
    (r : AppRun) (failure : Option String) → ClosesOnce r → ClosesOnce (wait_exit r failure)
unfolding wait_exit
exit-ClosesOnce r none h = record { once = h.once; open_turn = λ f. cc }
exit-ClosesOnce r (some m) h =
    let quiet = record r { pending = [] } in
    let over = record quiet { finished = true } in
    let told = emit over (failed_event m) in
    either_test (λ (q : AppRun). ClosesOnce (record q { channel_closed = true }))
      (r.finished || r.stopped) over told (λ t. record { once = h.once; open_turn = λ f. cc })
      (λ t.
        let kept =
          over-ClosesOnce quiet (failed_event m) (record { once = h.once; open_turn = h.open_turn })
            (first_false r.finished r.stopped t) in
        record { once = kept.once; open_turn = kept.open_turn })

-- Whatever comes in whatever order, a turn whose events close it once at most, and not before it is over,
-- stays so.
pub perform_all-ClosesOnce :
    (r : AppRun) (ops : List Op) → ClosesOnce r → ClosesOnce (perform_all r ops)
unfolding perform_all request_stop
perform_all-ClosesOnce r [] h = h
perform_all-ClosesOnce r (message raw ∷ ops) h =
    perform_all-ClosesOnce (read_message r raw) ops (read-ClosesOnce r raw h)
perform_all-ClosesOnce r (stopping ∷ ops) h =
    perform_all-ClosesOnce (record r { stopped = true }) ops
      (record { once = h.once; open_turn = h.open_turn })
perform_all-ClosesOnce r (exited failure ∷ ops) h =
    perform_all-ClosesOnce (wait_exit r failure) ops (exit-ClosesOnce r failure h)
