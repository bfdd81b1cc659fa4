-- ===== src/Bridge/Scope.antt =====
-- What a scope isolates.
use lark_coding_agent_bridge.Prelude.{
  String, ◌≡◌, subst, ◌≢◌, ◌↔◌, true, arith, eq_iff, eq_refl, concat, starts_with,
}
use text.Mathlib.TextLemmas.{append_cancel_left, append_assoc}
use text.Mathlib.TextPositions.{starts_with-append}
use lark_coding_agent_bridge.Bridge.Message.{
  Message, topic_root_id, join, scope, scope_belongs_to_chat,
}

join_cancel : (c a b : String) → join c a ≡ join c b → a ≡ b
join_cancel c a b h =
    append_cancel_left ":" a b (append_cancel_left c (concat ":" a) (concat ":" b) h)

join_belongs : (c a : String) → starts_with (join c a) (concat c ":") ≡ true
join_belongs c a =
    subst (λ s. starts_with s (concat c ":") ≡ true) (append_assoc c ":" a)
      (starts_with-append (concat c ":") a)

-- Two private messages of one chat that have topics share a session exactly if they share the
-- topic; two group messages with a thread, exactly if they share the thread.
pub scope_isolates :
    (m n : Message)
    → m.chat_id ≡ n.chat_id
    → (m.chat_type ≡ "p2p"
        → n.chat_type ≡ "p2p"
        → topic_root_id m ≢ ""
        → topic_root_id n ≢ ""
        → (scope m ≡ scope n) ↔ (topic_root_id m ≡ topic_root_id n))
      × (m.chat_type ≢ "p2p"
          → n.chat_type ≢ "p2p"
          → m.thread_id ≢ ""
          → n.thread_id ≢ ""
          → (scope m ≡ scope n) ↔ (m.thread_id ≡ n.thread_id))
unfolding scope
scope_isolates m n c = (
  λ p q r s. ground (
    arith,
    eq_iff m.chat_type "p2p",
    eq_iff n.chat_type "p2p",
    eq_iff (topic_root_id m) "",
    eq_iff (topic_root_id n) "",
    join_cancel m.chat_id (topic_root_id m) (topic_root_id n),
  ),
  λ p q r s. ground (
    arith,
    eq_iff m.chat_type "p2p",
    eq_iff n.chat_type "p2p",
    eq_iff m.thread_id "",
    eq_iff n.thread_id "",
    join_cancel m.chat_id m.thread_id n.thread_id,
  ),
)

-- The scope of a message with a chat always belongs to that chat, as the model picker checks it.
pub scope_belongs :
    (m : Message) → m.chat_id ≢ "" → scope_belongs_to_chat (scope m) m.chat_id ≡ true
unfolding scope scope_belongs_to_chat
scope_belongs m h = ground (
  arith,
  eq_iff m.chat_id "",
  eq_refl m.chat_id,
  join_belongs m.chat_id (topic_root_id m),
  join_belongs m.chat_id m.thread_id,
)
