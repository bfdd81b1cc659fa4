-- ===== src/Bridge/Prompt/Sealed.antt =====
-- What internal/bridge/prompt.go lets a text do to the prompt that it stands in.
use lark_coding_agent_bridge.Prelude.{String, ◌≡◌, refl, inl, inr, false, eqb, Bool-cases, has_char}
use text.Mathlib.TextLemmas.{nil-append, cons-append}
use Prim.Native.Char.{code}
use lark_coding_agent_bridge.Bridge.Prompt.{replace_tags}

-- A text that can open or close no tag.
abbrev pub Sealed : String → Type 0
Sealed s = has_char b'<' s ≡ false

pub Sealed-replaced : (s : String) → Sealed (replace_tags s)
unfolding has_char replace_tags
Sealed-replaced String.[] = refl
Sealed-replaced (String.◌∷◌ c s) = elim (Bool-cases (eqb (code c) b'<')) [
  | inl e ↦
      rw (e, cons-append "\u{8}" "" (replace_tags s))
        (rw (nil-append (replace_tags s)) (Sealed-replaced s))
  | inr e ↦ rw (e, e) (Sealed-replaced s)
]
