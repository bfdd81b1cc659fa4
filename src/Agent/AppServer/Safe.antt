-- ===== src/Agent/AppServer/Safe.antt =====
-- When a run of internal/agent/codex_appserver.go takes a turn on a thread.
use lark_coding_agent_bridge.Prelude.{
  String, ◌≡◌, refl, Bool, true, false, not, Option, none, some, List, [], ◌∷◌, ◌++◌, arith, ◌==◌,
  either, either_test, set, has, has-append,
}
use lark_coding_agent_bridge.Agent.Json.{Fields, or_empty, map_field, string_field}
use lark_coding_agent_bridge.Agent.AppServer.Start.{
  Start, start_turn, Options, Startup, codex_thread_status, codex_active_turn_id,
  resolve_collaboration_mode, open_method, turn_to_steer, steer_requests, mode_requests, take_turn,
  on_thread, open_thread, connect, initialize, or_other,
}

module _ (answer : String → Option Fields) (o : Options) where
  -- The thread that the server opened.
  abbrev pub opened : Fields
  opened = or_empty (map_field (or_empty (answer (open_method answer o))) "thread")

  -- A turn is started only where nobody else runs one; one is steered only over a shared server, at a turn
  -- that is named.
  abbrev pub Safe : Fields → List String → Type 0
  Safe thread requests =
      (has "turn/start" requests ≡ true
        → ((codex_thread_status thread == "active") ≡ false) × (o.disk_active ≡ false))
      × (has "turn/steer" requests ≡ true
          → ((codex_thread_status thread == "active") ≡ true)
            × (o.shared ≡ true)
            × ((turn_to_steer answer o thread == "") ≡ false))

  -- Requests without a turn.
  quiet :
      (thread : Fields) (requests : List String)
      → has "turn/start" requests ≡ false
      → has "turn/steer" requests ≡ false
      → Safe thread requests
  quiet thread requests p q = (λ e. cc, λ e. cc)

  idle : (thread : Fields) → Safe thread []
  unfolding has
  idle thread = quiet thread [] refl refl

  steer_requests-quiet :
      (thread : Fields)
      → (has "turn/start" (steer_requests answer o thread) ≡ false)
        × (has "turn/steer" (steer_requests answer o thread) ≡ false)
  unfolding has
  steer_requests-quiet thread =
      either (λ (l : List String). (has "turn/start" l ≡ false) × (has "turn/steer" l ≡ false))
        (codex_active_turn_id thread == "") _ _ (refl, refl) (refl, refl)

  mode_requests-quiet :
      (has "turn/start" (mode_requests answer o) ≡ false)
      × (has "turn/steer" (mode_requests answer o) ≡ false)
  unfolding has mode_requests
  mode_requests-quiet =
      either (λ (l : List String). (has "turn/start" l ≡ false) × (has "turn/steer" l ≡ false))
        (o.mode == "plan") _ _ (refl, refl) (refl, refl)

  not-true : (b : Bool) → not b ≡ false → b ≡ true
  not-true b h = ground arith

  steer-Safe :
      (thread : Fields)
      → (codex_thread_status thread == "active") ≡ true
      → o.shared ≡ true
      → (turn_to_steer answer o thread == "") ≡ false
      → Safe thread (steer_requests answer o thread ++ ("turn/steer" ∷ []))
  unfolding has
  steer-Safe thread a s t =
      let before = steer_requests-quiet thread in
      let requests = steer_requests answer o thread ++ ("turn/steer" ∷ []) in
      let added = has-append "turn/start" (steer_requests answer o thread) ("turn/steer" ∷ []) in
      let none_started : has "turn/start" requests ≡ false = rw (added, before.0) refl in
      (λ e. cc, λ e. (a, s, t))

  start-Safe :
      (thread : Fields)
      → (codex_thread_status thread == "active") ≡ false
      → o.disk_active ≡ false
      → Safe thread (mode_requests answer o ++ ("turn/start" ∷ []))
  unfolding has
  start-Safe thread a d =
      let before = mode_requests-quiet in
      let requests = mode_requests answer o ++ ("turn/start" ∷ []) in
      let added = has-append "turn/steer" (mode_requests answer o) ("turn/start" ∷ []) in
      let none_steered : has "turn/steer" requests ≡ false = rw (added, before.1) refl in
      (λ e. (a, d), λ e. cc)

  start_turn-Safe :
      (thread : Fields)
      → (codex_thread_status thread == "active") ≡ false
      → o.disk_active ≡ false
      → (mode : Option Bool) → Safe thread (start_turn answer o mode).0
  start_turn-Safe thread a d none =
      let before = mode_requests-quiet in quiet thread (mode_requests answer o) before.0 before.1
  start_turn-Safe thread a d (some set) = start-Safe thread a d

  take_turn-Safe :
      (thread : Fields) (model : String) → Safe thread (take_turn answer o thread model).0
  unfolding take_turn has
  take_turn-Safe thread model =
      let P = λ (r : List String × Start). Safe thread r.0 in
      let before = steer_requests-quiet thread in
      either_test P (codex_thread_status thread == "active") _ _
        (λ a.
          either_test P (not o.shared) _ _ (λ s. idle thread)
            (λ s.
              either_test P (turn_to_steer answer o thread == "") _ _
                (λ t. quiet thread (steer_requests answer o thread) before.0 before.1)
                (λ t. steer-Safe thread a (not-true o.shared s) t)))
        (λ a.
          either_test P o.disk_active _ _ (λ d. idle thread)
            (λ d.
              start_turn-Safe thread a d
                (resolve_collaboration_mode o.mode model (answer "collaborationMode/list"))))

  -- The request that opens the thread before a turn changes nothing.
  later :
      (thread : Fields) (requests : List String)
      → Safe thread requests
      → Safe thread ("initialize" ∷ open_method answer o ∷ requests)
  unfolding has
  later thread requests h =
      either (λ (m : String). Safe thread ("initialize" ∷ m ∷ requests)) (o.thread_id == "") _ _ h h

  on_thread-Safe :
      (resp : Fields) → Safe (or_empty (map_field resp "thread")) (on_thread answer o resp).requests
  on_thread-Safe resp =
      let thread = or_empty (map_field resp "thread") in
      let P = λ (s : Startup). Safe thread s.requests in
      let model = or_other answer o (string_field resp ("model" ∷ [])) o.model in
      either P (or_other answer o (string_field thread ("id" ∷ [])) o.thread_id == "") _ _
        (later thread [] (idle thread))
        (later thread (take_turn answer o thread model).0 (take_turn-Safe thread model))

  open_thread-Safe :
      (opening : Option Fields)
      → Safe
          (or_empty (map_field (or_empty opening) "thread"))
          (open_thread answer o opening).requests
  open_thread-Safe none = later _ [] (idle _)
  open_thread-Safe (some resp) = on_thread-Safe resp

  connect-Safe : (hello : Option Fields) → Safe opened (connect answer o hello).requests
  unfolding has
  connect-Safe none = quiet opened ("initialize" ∷ []) refl refl
  connect-Safe (some resp) = open_thread-Safe (answer (open_method answer o))

  -- Whatever the server answers, the run starts a turn only if the thread that it opened is not active
  -- and no other process has it open, and it steers a turn only over a shared server, where the thread
  -- is active and the turn is named.
  pub initialize-Safe : Safe opened (initialize answer o).requests
  unfolding initialize
  initialize-Safe = connect-Safe (answer "initialize")
