-- ===== src/Prelude/Switch.antt =====
-- Go's `switch` on a text, with its cases in their order.
use Prim.Native.String.{String}
use mathlib.Core.List.{List, [], ◌∷◌, map}
use text.Mathlib.Text.{◌==◌}
use mathlib.Core.Path.{◌≡◌}
use mathlib.Core.Logic.{inl, inr}
use mathlib.Core.Bool.{true}
use lark_coding_agent_bridge.Prelude.Tests.{if◌then◌else◌, either, either2, Bool-cases}
use lark_coding_agent_bridge.Prelude.Lists.{All}

abbrev pub switch {ℓ} : {A : Type ℓ} → String → List (String × A) → A → A
switch key [] default = default
switch key ((k, a) ∷ cases) default =
    let rest = switch key cases default in if key == k then a else rest

-- What holds of every case and of the default holds of the switch.
pub switch_All {ℓ κ} :
    {A : Type ℓ} (P : A → Type κ) (key : String) (cases : List (String × A)) (default : A)
    → All (λ (c : String × A). P c.1) cases
    → P default
    → P (switch key cases default)
switch_All P key [] default h d = d
switch_All P key ((k, a) ∷ cases) default h d =
    either P (key == k) a (switch key cases default) h.0 (switch_All P key cases default h.1 d)

-- The same, where a case may use that the text is its key.
pub switch_All_keys {ℓ κ} :
    {A : Type ℓ} (P : A → Type κ) (key : String) (cases : List (String × A)) (default : A)
    → All (λ (c : String × A). (key == c.0) ≡ true → P c.1) cases
    → P default
    → P (switch key cases default)
switch_All_keys P key [] default h d = d
switch_All_keys P key ((k, a) ∷ cases) default h d = elim (Bool-cases (key == k)) [
  | inl e ↦ rw e (h.0 e)
  | inr e ↦ rw e (switch_All_keys P key cases default h.1 d)
]

-- Two switches on one text, with their cases side by side.
pub switch_All2 {ℓ κ ι} :
    {A : Type ℓ} {B : Type κ} (R : A → B → Type ι) (key : String) (cases : List (String × A × B))
    (a : A) (b : B)
    → All (λ (c : String × A × B). R c.1 c.2) cases
    → R a b
    → R
        (switch key (map (λ (c : String × A × B). (c.0, c.1)) cases) a)
        (switch key (map (λ (c : String × A × B). (c.0, c.2)) cases) b)
switch_All2 R key [] a b h d = d
switch_All2 R key ((k, x, y) ∷ cases) a b h d =
    either2 R (key == k) x _ y _ h.0 (switch_All2 R key cases a b h.1 d)
