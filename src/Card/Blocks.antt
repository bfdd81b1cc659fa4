-- ===== src/Card/Blocks.antt =====
-- The blocks of a card under the updates of `Reduce` in internal/card/state.go.
use lark_coding_agent_bridge.Prelude.{
  String, ◌≡◌, refl, sym, ap, Bool, true, false, not, List, [], ◌∷◌, ◌++◌, arith, concat,
}
use package.text.Mathlib.TextLemmas.{append_assoc}
use lark_coding_agent_bridge.Agent.Event.{Event, EventType}
use lark_coding_agent_bridge.Card.{Block, text, tool, ToolEntry}
use lark_coding_agent_bridge.Card.Reduce.{
  append_text, close_streaming_text, close_block, finish_tools,
}

-- What a reader of the card sees from top to bottom: a text, then the id of a tool, and so on, with a text
-- behind the last tool.
pub data Script : Type 0 where
  over : String → Script
  call : String → String → Script → Script

-- The blocks as they are shown, behind a text.
unfoldable pub shown_from : String → List Block → Script
shown_from t [] = over t
shown_from t (text c s ∷ bs) = shown_from (concat t c) bs
shown_from t (tool u ∷ bs) = call t u.id (shown_from "" bs)

-- No block but the last is a streaming text.
abbrev pub is_closed : Block → Bool
is_closed (text c s) = not s
is_closed (tool t) = true

abbrev pub OneStream : List Block → Type 0
OneStream [] = Unit {0}
OneStream (b ∷ []) = Unit {0}
OneStream (b ∷ c ∷ bs) = (is_closed b ≡ true) × OneStream (c ∷ bs)

-- The events as they were reported: text deltas and tool calls.
unfoldable pub told_from : String → List Event → Script
told_from t [] = over t
told_from t (e ∷ es) = elim e.kind [
  | EventType.text ↦ told_from (concat t e.delta) es
  | EventType.tool_use ↦ call t e.id (told_from "" es)
  | _ ↦ told_from t es
]

-- More events behind a script.
unfoldable pub told_after : Script → List Event → Script
told_after (over t) es = told_from t es
told_after (call t id r) es = call t id (told_after r es)

pub append_text-told_after :
    (e : Event) (es : List Event) (t : String) (bs : List Block)
    → e.kind ≡ EventType.text
    → told_after (shown_from t (append_text bs e.delta)) es ≡ told_after (shown_from t bs) (e ∷ es)
unfolding append_text shown_from told_after told_from
append_text-told_after e es t [] k = rw (k, told_from) refl
append_text-told_after e es t (text c true ∷ []) k =
    rw (k, told_from) (ap (λ x. told_from x es) (sym (append_assoc t c e.delta)))
append_text-told_after e es t (text c false ∷ []) k = rw (k, told_from) refl
append_text-told_after e es t (tool u ∷ []) k = rw (k, told_from) refl
append_text-told_after e es t (text c s ∷ b ∷ bs) k =
    append_text-told_after e es (concat t c) (b ∷ bs) k
append_text-told_after e es t (tool u ∷ b ∷ bs) k =
    ap (call t u.id) (append_text-told_after e es "" (b ∷ bs) k)

pub append_text-OneStream :
    (bs : List Block) (d : String) → OneStream bs → OneStream (append_text bs d)
unfolding append_text
append_text-OneStream [] d h = tt
append_text-OneStream (text c true ∷ []) d h = tt
append_text-OneStream (text c false ∷ []) d h = (refl, tt)
append_text-OneStream (tool t ∷ []) d h = (refl, tt)
append_text-OneStream (a ∷ text c true ∷ []) d h = (h.0, tt)
append_text-OneStream (a ∷ text c false ∷ []) d h = (h.0, (refl, tt))
append_text-OneStream (a ∷ tool t ∷ []) d h = (h.0, (refl, tt))
append_text-OneStream (a ∷ b ∷ c ∷ bs) d h = (h.0, append_text-OneStream (b ∷ c ∷ bs) d h.1)

pub close-told_after :
    (e : Event) (es : List Event) (t : String) (bs : List Block) (u : ToolEntry)
    → e.kind ≡ EventType.tool_use
    → u.id ≡ e.id
    → told_after (shown_from t (close_streaming_text bs ++ (tool u ∷ []))) es
      ≡ told_after (shown_from t bs) (e ∷ es)
unfolding close_streaming_text shown_from told_after told_from
close-told_after e es t [] u k i = rw (k, i, told_from) refl
close-told_after e es t (text c s ∷ bs) u k i = close-told_after e es (concat t c) bs u k i
close-told_after e es t (tool v ∷ bs) u k i = ap (call t v.id) (close-told_after e es "" bs u k i)

pub close-shown_from :
    (t : String) (bs : List Block) → shown_from t (close_streaming_text bs) ≡ shown_from t bs
unfolding close_streaming_text shown_from
close-shown_from t [] = refl
close-shown_from t (text c s ∷ bs) = close-shown_from (concat t c) bs
close-shown_from t (tool u ∷ bs) = ap (call t u.id) (close-shown_from "" bs)

pub close_block_closed : (b : Block) → is_closed (close_block b) ≡ true
close_block_closed (text c s) = refl
close_block_closed (tool t) = refl

pub close-OneStream :
    (bs : List Block) (t : ToolEntry) → OneStream (close_streaming_text bs ++ (tool t ∷ []))
unfolding close_streaming_text
close-OneStream [] t = tt
close-OneStream (b ∷ []) t = (close_block_closed b, tt)
close-OneStream (b ∷ c ∷ bs) t = (close_block_closed b, close-OneStream (c ∷ bs) t)

pub close_only-OneStream : (bs : List Block) → OneStream (close_streaming_text bs)
unfolding close_streaming_text
close_only-OneStream [] = tt
close_only-OneStream (b ∷ []) = tt
close_only-OneStream (b ∷ c ∷ bs) = (close_block_closed b, close_only-OneStream (c ∷ bs))

pub finish-shown_from :
    (id o : String) (x : Bool) (t : String) (bs : List Block)
    → shown_from t (finish_tools id o x bs) ≡ shown_from t bs
unfolding finish_tools shown_from
finish-shown_from id o x t [] = refl
finish-shown_from id o x t (text c s ∷ bs) = finish-shown_from id o x (concat t c) bs
finish-shown_from id o x t (tool u ∷ bs) = ground (arith, finish-shown_from id o x "" bs)

pub finish-OneStream :
    (id o : String) (x : Bool) (bs : List Block) → OneStream bs → OneStream (finish_tools id o x bs)
unfolding finish_tools
finish-OneStream id o x [] h = tt
finish-OneStream id o x (text c s ∷ []) h = tt
finish-OneStream id o x (tool t ∷ []) h = tt
finish-OneStream id o x (text c s ∷ text d r ∷ bs) h =
    (h.0, finish-OneStream id o x (text d r ∷ bs) h.1)
finish-OneStream id o x (text c s ∷ tool u ∷ bs) h =
    (h.0, finish-OneStream id o x (tool u ∷ bs) h.1)
finish-OneStream id o x (tool t ∷ text d r ∷ bs) h =
    (refl, finish-OneStream id o x (text d r ∷ bs) h.1)
finish-OneStream id o x (tool t ∷ tool u ∷ bs) h = (refl, finish-OneStream id o x (tool u ∷ bs) h.1)
