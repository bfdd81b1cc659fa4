-- ===== src/Agent/OpenCode/Models.antt =====
-- internal/agent/opencode.go: the names of models, `splitModel` and `fetchSessionModel`.
use lark_coding_agent_bridge.Prelude.{
  has_char, ℕ, String, ◌≡◌, refl, ap, ◌∙◌, inl, inr, Bool, false, ◌||◌, Option, none, some, arith,
  ◌==◌, eqb, if◌then◌else◌, Bool-cases, concat, cut_at, eqb_iff,
}
use Prim.Native.Char.{Char, code}
use text.Mathlib.TextLemmas.{nil-append, cons-append, append-nil}

pub record SessionModel : Type 0 where
  pub provider : String
  pub id : String
  pub variant : String

-- What is behind the model's id: nothing for the default variant.
abbrev pub variant_suffix : String → String
variant_suffix variant = if variant == "" || variant == "default" then "" else concat "#" variant

-- The name of the model that the server reports, if it reports one.
unfoldable pub session_model_name : SessionModel → String
session_model_name m =
    if m.provider == "" || m.id == ""
    then ""
    else concat m.provider (concat "/" (concat m.id (variant_suffix m.variant)))

abbrev pub with_variant : String → Option (String × String) → SessionModel
with_variant provider none = record { provider = provider; id = ""; variant = "" }
with_variant provider (some (id, variant)) = record {
  provider = provider;
  id = id;
  variant = variant;
}

abbrev pub cut_or : Option (String × String) → String → String × String
cut_or none s = (s, "")
cut_or (some parts) s = parts

abbrev pub checked : SessionModel → Option SessionModel
checked m = if m.provider == "" || m.id == "" then none else some m

abbrev pub split_rest : Option (String × String) → Option SessionModel
split_rest none = none
split_rest (some (provider, rest)) =
    let parts = cut_or (cut_at b'#' rest) rest in
    checked (record { provider = provider; id = parts.0; variant = parts.1 })

unfoldable pub split_model : String → Option SessionModel
split_model model = split_rest (cut_at b'/' model)

or-false : (a b : Bool) → (a || b) ≡ false → (a ≡ false) × (b ≡ false)
or-false a b h = ground arith

-- The text in front of the first separator is cut off.
cut-concat :
    (n : ℕ) (c : Char) (s t : String)
    → code c ≡ n
    → has_char n s ≡ false
    → cut_at n (concat s (String.◌∷◌ c t)) ≡ some (s, t)
unfolding cut_at has_char
cut-concat n c String.[] t h k = rw (nil-append (String.◌∷◌ c t), (eqb_iff (code c) n).1 h) refl
cut-concat n c (String.◌∷◌ d s) t h k =
    let apart = or-false (eqb (code d) n) (has_char n s) k in
    rw (cons-append d s (String.◌∷◌ c t), apart.0, cut-concat n c s t h apart.1) refl

cut-none : (n : ℕ) (s : String) → has_char n s ≡ false → cut_at n s ≡ none
unfolding cut_at has_char
cut-none n String.[] k = refl
cut-none n (String.◌∷◌ d s) k =
    let apart = or-false (eqb (code d) n) (has_char n s) k in
    rw (apart.0, cut-none n s apart.1) refl

slash-concat : (s : String) → concat "/" s ≡ String.◌∷◌ "/" s
slash-concat s = cons-append "/" "" s ∙ ap (String.◌∷◌ "/") (nil-append s)

hash-concat : (s : String) → concat "#" s ≡ String.◌∷◌ "#" s
hash-concat s = cons-append "#" "" s ∙ ap (String.◌∷◌ "#") (nil-append s)

-- The variant that the name shows.
abbrev pub shown_variant : String → String
shown_variant variant = if variant == "" || variant == "default" then "" else variant

suffix-cut :
    (id variant : String)
    → has_char b'#' id ≡ false
    → cut_or (cut_at b'#' (concat id (variant_suffix variant))) (concat id (variant_suffix variant))
      ≡ (id, shown_variant variant)
suffix-cut id variant h = elim (Bool-cases (variant == "" || variant == "default")) [
  | inl e ↦ rw (e, append-nil id, cut-none b'#' id h) refl
  | inr e ↦ rw (e, hash-concat variant, cut-concat b'#' "#" id variant refl h) refl
]

-- The name that the bridge makes of the server's model is read back as that model, the default variant
-- as none, where the provider and the id are not empty, the provider has no slash and the id no hash.
pub split_model-session_model_name :
    (m : SessionModel)
    → (m.provider == "") ≡ false
    → (m.id == "") ≡ false
    → has_char b'/' m.provider ≡ false
    → has_char b'#' m.id ≡ false
    → split_model (session_model_name m) ≡ some (record m { variant = shown_variant m.variant })
unfolding split_model session_model_name
split_model-session_model_name m p i slash hash =
    let rest = concat m.id (variant_suffix m.variant) in
    rw (p, i, slash-concat rest, cut-concat b'/' "/" m.provider rest refl slash)
      (rw (suffix-cut m.id m.variant hash) (rw (p, i) refl))
