-- ===== src/Bridge/Desk/Bind.antt =====
-- Binding a session to a chat moves it: what /bind and /unbind leave behind.
use lark_coding_agent_bridge.Store.Reads.{
  get-delete_session, get-set_session, get-delete_binding, get-set_binding,
}
use mathlib.Core.Option.{some_inj}
use mathlib.Core.Path.{refl}
use lark_coding_agent_bridge.Prelude.{
  ℕ, String, ◌≡◌, ap, ◌∙◌, Bool, none, some, arith, ◌==◌, if◌then◌else◌, ◌≢◌, Option-cases, Option,
  false, inl, ◌↔◌, inr, true, eq_iff, Bool-cases, subst, sym,
}
use lark_coding_agent_bridge.Bridge.Desk.{Desk, Disk, stop_run, Option, false, true}
use lark_coding_agent_bridge.Bridge.Desk.Binding.{rebind, resuming, release, handle_bind}
use lark_coding_agent_bridge.Bridge.Message.{Message, scope}
use lark_coding_agent_bridge.Store.Sessions.{Session, get_session}
use lark_coding_agent_bridge.Store.Bindings.{Binding, session_key, get_binding}

stop_run-keeps :
    (sc : String) (d : Desk)
    → ((stop_run sc d).0.sessions ≡ d.sessions) × ((stop_run sc d).0.bindings ≡ d.bindings)
unfolding stop_run
stop_run-keeps sc d = (ground arith, ground arith)

module _ (now : ℕ) (kind : String) (disk : Disk) (msg : Message) (id cwd : String) where
  -- The session as it is resumed.
  abbrev pub resumed : Session
  resumed = record (resuming kind id cwd) { updated_at = now }

  -- The binding as it is stored.
  abbrev pub bound : Binding
  bound = record {
    scope = scope msg;
    chat_id = msg.chat_id;
    chat_type = if msg.chat_type == "" then "p2p" else msg.chat_type;
    bound_at = now;
  }

  -- The scope of the message resumes the session, every other scope and key is as in the desk.
  abbrev pub BoundFrom : Desk → Desk → Type 0
  BoundFrom d d' =
      ((sc : String)
        → get_session sc d'.sessions
          ≡ (if scope msg == sc then some resumed else get_session sc d.sessions))
      × ((key : String)
          → get_binding key d'.bindings
            ≡ (if session_key kind id == key then some bound else get_binding key d.bindings))

  rebind-BoundFrom : (d : Desk) → BoundFrom d (rebind now kind disk msg id cwd d)
  rebind-BoundFrom d =
      let kept = stop_run-keeps (scope msg) d in
      (
        λ sc.
            get-set_session now disk.sessions_written (scope msg) sc (resuming kind id cwd)
              (stop_run (scope msg) d).0.sessions
            ∙ ap (λ s. if scope msg == sc then some resumed else get_session sc s) kept.0,
        λ key.
            get-set_binding now disk.bindings_written (session_key kind id) key
              (record bound { bound_at = 0 }) (stop_run (scope msg) d).0.bindings
            ∙ ap (λ s. if session_key kind id == key then some bound else get_binding key s) kept.1,
      )

  -- The scope that a session is bound to.
  abbrev pub owns : String → Option Binding → Bool
  owns sc none = false
  owns sc (some e) = e.scope == sc

  -- The session is bound elsewhere.
  abbrev pub Elsewhere : Desk → Type 0
  Elsewhere d =
      (e : Binding) × (get_binding (session_key kind id) d.bindings ≡ some e)
      × (e.scope ≢ scope msg)

  -- The session has moved to the scope of the message, which resumes it.
  abbrev pub Moved : Desk → Desk → Type 0
  Moved d d' =
      ((sc : String)
        → get_session sc d'.sessions ≡ (
            if scope msg == sc
            then some resumed
            else if owns sc (get_binding (session_key kind id) d.bindings)
            then none
            else get_session sc d.sessions))
      × ((key : String)
          → get_binding key d'.bindings
            ≡ (if session_key kind id == key then some bound else get_binding key d.bindings))

  rebind-Moved :
      (d : Desk)
      → ((e : Binding)
          → get_binding (session_key kind id) d.bindings ≡ some e
          → e.scope ≡ scope msg)
      → Moved d (rebind now kind disk msg id cwd d)
  rebind-Moved d here = (
    λ sc. elim (Option-cases (get_binding (session_key kind id) d.bindings)) [
      | inl e ↦ ground (arith, e, (rebind-BoundFrom d).0 sc)
      | inr (x, e) ↦
          ground (
            arith,
            e,
            (rebind-BoundFrom d).0 sc,
            eq_iff x.scope sc,
            eq_iff (scope msg) sc,
            here x e,
          )
    ],
    (rebind-BoundFrom d).1,
  )

  release-gone :
      (d : Desk) (other sc key : String)
      → (get_session sc (release (session_key kind id) other d).sessions
          ≡ (if other == sc then none else get_session sc d.sessions))
        × (get_binding key (release (session_key kind id) other d).bindings
            ≡ (if session_key kind id == key then none else get_binding key d.bindings))
  release-gone d other sc key =
      let kept = stop_run-keeps other d in
      (
        get-delete_session other sc (stop_run other d).0.sessions
            ∙ ap (λ s. if other == sc then none else get_session sc s) kept.0,
        get-delete_binding (session_key kind id) key (stop_run other d).0.bindings
            ∙ ap (λ s. if session_key kind id == key then none else get_binding key s) kept.1,
      )

  forced-Moved :
      (d : Desk) (e : Binding)
      → get_binding (session_key kind id) d.bindings ≡ some e
      → Moved d (rebind now kind disk msg id cwd (release (session_key kind id) e.scope d))
  forced-Moved d e q =
      let left = release (session_key kind id) e.scope d in
      let r = rebind-BoundFrom left in
      (
        λ sc. ground (arith, q, r.0 sc, (release-gone d e.scope sc "").0),
        λ key. ground (arith, r.1 key, (release-gone d e.scope "" key).1),
      )

  -- What the outcome of /bind says.
  abbrev pub Verdict : Bool → Desk → Desk × Bool → Type 0
  Verdict force d (d', done) =
      ((done ≡ false) ↔ ((force ≡ false) × Elsewhere d))
      × (done ≡ false → d' ≡ d)
      × (done ≡ true → Moved d d')

  done-Verdict :
      (force : Bool) (d d' : Desk)
      → Moved d d'
      → ((force ≡ false) × Elsewhere d → ⊥)
      → Verdict force d (d', true)
  done-Verdict force d d' m n = (
    (λ h. absurd (ground (arith, h)), λ w. absurd (n w)),
    λ h. absurd (ground (arith, h)),
    λ h. m,
  )

  refused-Verdict :
      (force : Bool) (d : Desk) → force ≡ false → Elsewhere d → Verdict force d (d, false)
  refused-Verdict force d f w =
      ((λ h. (f, w), λ w. refl), λ h. refl, λ h. absurd (ground (arith, h)))

  Verdict-by :
      (force : Bool) (d : Desk) (r r' : Desk × Bool)
      → r ≡ r'
      → Verdict force d r'
      → Verdict force d r
  Verdict-by force d r r' q v = subst (Verdict force d) (sym q) v

  same-scope :
      (d : Desk) (x e : Binding)
      → get_binding (session_key kind id) d.bindings ≡ some x
      → get_binding (session_key kind id) d.bindings ≡ some e
      → x.scope ≡ e.scope
  same-scope d x e p q = ap (λ b. b.scope) (some_inj.0 (sym p ∙ q))

  -- /bind is refused exactly if the session is bound to another scope and it is not forced, and then
  -- changes nothing. Otherwise the session is bound to the scope of the message and to no other, that
  -- scope resumes it, the scope that had it before is left without a session, and every other scope
  -- and session keeps what it has.
  pub bind_moves :
      (force : Bool) (d : Desk) → Verdict force d (handle_bind now kind disk force msg id cwd d)
  unfolding handle_bind
  bind_moves force d =
      let key = session_key kind id in
      let r = handle_bind now kind disk force msg id cwd d in
      let bound_here = rebind now kind disk msg id cwd d in
      elim (Option-cases (get_binding key d.bindings)) [
        | inl e ↦
            Verdict-by force d r (bound_here, true) (ground (arith, e))
              (done-Verdict force d bound_here
                (rebind-Moved d (λ y q. absurd (ground (arith, e, q))))
                (λ w. absurd (ground (arith, e, w.1.1))))
        | inr (x, e) ↦ elim (Bool-cases (x.scope == scope msg)) [
          | inl s ↦
              Verdict-by force d r (bound_here, true) (ground (arith, e, s))
                (done-Verdict force d bound_here
                  (rebind-Moved d
                    (λ y q. sym (same-scope d x y e q) ∙ (eq_iff x.scope (scope msg)).0 s))
                  (λ w.
                    w.1.2 (sym (same-scope d x w.1.0 e w.1.1) ∙ (eq_iff x.scope (scope msg)).0 s)))
          | inr s ↦ elim (Bool-cases force) [
            | inl f ↦
                let forced = rebind now kind disk msg id cwd (release key x.scope d) in
                Verdict-by force d r (forced, true) (ground (arith, e, s, f))
                  (done-Verdict force d forced (forced-Moved d x e)
                    (λ w. absurd (ground (arith, f, w.0))))
            | inr f ↦
                Verdict-by force d r (d, false) (ground (arith, e, s, f))
                  (refused-Verdict force d f
                    (x, e, λ q. absurd (ground (arith, s, eq_iff x.scope (scope msg)))))
          ]
        ]
      ]
