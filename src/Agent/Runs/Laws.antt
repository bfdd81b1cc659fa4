-- ===== src/Agent/Runs/Laws.antt =====
-- Channels of runs are closed once: as long as a registered run's channel is open, no delivery and no
-- guarded close meets a closed channel.
use lark_coding_agent_bridge.Prelude.{
  ℕ, suc, length, ◌++◌, either_test, zero, ◌≡◌, refl, ◌∙◌, Bool, true, false, not, Option, some,
  List, [], ◌∷◌, arith, if◌then◌else◌, either, All, none, ap,
}
use lark_coding_agent_bridge.Agent.Event.{Event}
use lark_coding_agent_bridge.Agent.Runs.{
  Channel, safe_send, send_all, receive, close_channel, Slot, close_slot, deliver_one, join_slots,
  deliver, at, close_registered, read_slot, none, ap,
}

-- A registered run's channel is open.
abbrev pub IsHealthy {ℓ} : {A : Type ℓ} → Slot A → Type 0
IsHealthy s = s.registered ≡ true → s.chan.closed ≡ false

abbrev pub Succeeds {ℓ} : {A : Type ℓ} → Option (List (Slot A)) → Type ℓ
Succeeds {A = A} r = (ss : List (Slot A)) × (r ≡ some ss) × All IsHealthy ss

abbrev pub One {ℓ} : {A : Type ℓ} → Option (Slot A) → Type ℓ
One {A = A} r = (s : Slot A) × (r ≡ some s) × IsHealthy s

send-closed : (ch : Channel) (es : List Event) → (send_all ch es).closed ≡ ch.closed
unfolding send_all safe_send
send-closed ch [] = refl
send-closed ch (e ∷ es) = ground (arith, send-closed (safe_send ch e) es)

module _ {ℓ} {A : Type ℓ} where
  -- A run off the map is healthy whatever its channel.
  pub close-One : (s : Slot A) → s.chan.closed ≡ false → One (close_slot s)
  unfolding close_slot close_channel
  close-One s h = rw h (_, refl, λ e. cc)

  pub close_registered-One : (s : Slot A) → IsHealthy s → One (close_registered s)
  unfolding close_registered
  close_registered-One s h =
      either_test One s.registered (close_slot s) (some s) (λ e. close-One s (h e))
        (λ e. (s, refl, h))

  pub deliver_one-One :
      (es : List Event) (terminal : Bool) (s : Slot A)
      → IsHealthy s
      → One (deliver_one es terminal s)
  unfolding deliver_one
  deliver_one-One es terminal s h =
      let got = record s { chan = send_all s.chan es } in
      either_test One (not s.registered) (some s) (if terminal then close_slot got else some got)
        (λ e. (s, refl, h))
        (λ e.
          let opened = send-closed s.chan es ∙ h (ground arith) in
          either One terminal (close_slot got) (some got) (close-One got opened)
            (got, refl, λ r. opened))

  pub join-Succeeds :
      (o : Option (Slot A)) (r : Option (List (Slot A)))
      → One o
      → Succeeds r
      → Succeeds (join_slots o r)
  join-Succeeds o r a b = rw (a.1, b.1) (a.0 ∷ b.0, refl, (a.2, b.2))

  pub deliver-Succeeds :
      (for : A → Bool) (es : List Event) (terminal : Bool) (ss : List (Slot A))
      → All IsHealthy ss
      → Succeeds (deliver for es terminal ss)
  unfolding deliver
  deliver-Succeeds for es terminal [] h = ([], refl, tt)
  deliver-Succeeds for es terminal (s ∷ ss) h =
      join-Succeeds (if for s.info then deliver_one es terminal s else some s)
        (deliver for es terminal ss)
        (either One (for s.info) (deliver_one es terminal s) (some s)
          (deliver_one-One es terminal s h.0) (s, refl, h.0))
        (deliver-Succeeds for es terminal ss h.1)

  pub at-Succeeds :
      (f : Slot A → Option (Slot A)) (n : ℕ) (ss : List (Slot A))
      → ((s : Slot A) → IsHealthy s → One (f s))
      → All IsHealthy ss
      → Succeeds (at f n ss)
  unfolding at
  at-Succeeds f n [] k h = ([], refl, tt)
  at-Succeeds f zero (s ∷ ss) k h = join-Succeeds (f s) (some ss) (k s h.0) (ss, refl, h.1)
  at-Succeeds f (suc n) (s ∷ ss) k h =
      join-Succeeds (some s) (at f n ss) (s, refl, h.0) (at-Succeeds f n ss k h.1)

  pub read-One : (s : Slot A) → IsHealthy s → One (read_slot s)
  unfolding read_slot receive
  read-One s h = (_, refl, h)

  -- A delivery to all runs that ends the turn closes the last one, behind the others.
  pub deliver_last :
      (for : A → Bool) (es : List Event) (ss : List (Slot A)) (s : Slot A)
      → All IsHealthy ss
      → for s.info ≡ true
      → s.registered ≡ true
      → s.chan.closed ≡ false
      → (rest : List (Slot A)) × (last : Slot A) × (deliver for es true (ss ++ (s ∷ []))
          ≡ some (rest ++ (last ∷ [])))
        × (length rest ≡ length ss)
        × (last.chan.closed ≡ true)
  unfolding deliver deliver_one close_slot close_channel
  deliver_last for es [] s h f r c =
      let open' = send-closed s.chan es ∙ c in rw (f, r, open') ([], _, refl, refl, refl)
  deliver_last for es (x ∷ ss) s h f r c =
      let rest = deliver_last for es ss s h.1 f r c in
      let first =
        either One (for x.info) (deliver_one es true x) (some x) (deliver_one-One es true x h.0)
          (x, refl, h.0) in
      (
        first.0 ∷ rest.0,
        rest.1,
        ap (λ o. join_slots o (deliver for es true (ss ++ (s ∷ [])))) first.1
            ∙ ap (join_slots (some first.0)) rest.2,
        ap (λ (n : ℕ). suc n) rest.3,
        rest.4,
      )

  -- Nothing closes a run whose channel is closed.
  pub at_last :
      (ss : List (Slot A)) (s : Slot A)
      → s.chan.closed ≡ true
      → at close_slot (length ss) (ss ++ (s ∷ [])) ≡ none
  unfolding at close_slot close_channel
  at_last [] s c = rw c refl
  at_last (x ∷ ss) s c = rw (at_last ss s c) refl
