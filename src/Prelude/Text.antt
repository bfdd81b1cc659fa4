-- ===== src/Prelude/Text.antt =====
-- What the program uses of Go's `strings` on texts.
use Prim.Native.Char.{Char, code}
use Prim.Native.String.{String, ◌++◌ as concat}
use Prim.Native.Nat.{ℕ, zero, suc, ◌+◌, ◌-◌, ◌≤◌, ◌<◌}
use mathlib.Core.Path.{◌≡◌, refl}
use mathlib.Core.Logic.{inl, inr}
use mathlib.Core.Option.{Option, none, some}
use mathlib.Core.List.{List, [], ◌∷◌}
use native.Mathlib.Omega.{arith}
use mathlib.Core.Bool.{Bool, ◌&&◌, ◌||◌, false}
use lark_coding_agent_bridge.Prelude.Tests.{eqb, leb, if◌then◌else◌, Bool-cases, leb→le}

-- `unicode.IsSpace`.
abbrev pub is_space : Char → Bool
is_space c =
    let n = code c in
    (leb 9 n && leb n 13)
    || eqb n 32
    || eqb n 0x85
    || eqb n 0xa0
    || eqb n 0x1680
    || (leb 0x2000 n && leb n 0x200a)
    || eqb n 0x2028
    || eqb n 0x2029
    || eqb n 0x202f
    || eqb n 0x205f
    || eqb n 0x3000

unfoldable pub trim_left : String → String
trim_left String.[] = String.[]
trim_left (String.◌∷◌ c s) = if is_space c then trim_left s else String.◌∷◌ c s

abbrev trim_end : Char → String → String
trim_end c String.[] = if is_space c then String.[] else String.◌∷◌ c String.[]
trim_end c (String.◌∷◌ d s) = String.◌∷◌ c (String.◌∷◌ d s)

unfoldable pub trim_right : String → String
trim_right String.[] = String.[]
trim_right (String.◌∷◌ c s) = trim_end c (trim_right s)

-- `strings.TrimSpace`.
unfoldable pub trim_space : String → String
trim_space s = trim_right (trim_left s)

-- The number of characters, and the first of them.
unfoldable pub runes : String → ℕ
runes String.[] = 0
runes (String.◌∷◌ c s) = suc (runes s)

-- The first characters of a text, before another.
unfoldable pub take_runes : ℕ → String → String → String
take_runes zero s t = t
take_runes (suc n) String.[] t = t
take_runes (suc n) (String.◌∷◌ c s) t = String.◌∷◌ c (take_runes n s t)

-- `truncateRunes` of internal/agent/pi.go: a text that is too long loses its end to an ellipsis.
unfoldable pub truncate_runes : String → ℕ → String
unfolding runes take_runes
truncate_runes s n = if leb (runes s) n then s else take_runes (n - 1) s "…"

runes-take_runes : (n : ℕ) (s t : String) → runes (take_runes n s t) ≤ n + runes t
unfolding runes take_runes
runes-take_runes zero s t = omega arith
runes-take_runes (suc n) String.[] t = omega arith
runes-take_runes (suc n) (String.◌∷◌ c s) t = omega (arith, runes-take_runes n s t)

ellipsis : runes "…" ≡ 1
unfolding runes
ellipsis = refl

-- A truncated text has at most the characters that it may have.
pub truncate_runes_bound : (s : String) (n : ℕ) → 0 < n → runes (truncate_runes s n) ≤ n
unfolding truncate_runes
truncate_runes_bound s n h = elim (Bool-cases (leb (runes s) n)) [
  | inl e ↦ rw e (leb→le (runes s) n e)
  | inr e ↦ rw e (omega (arith, runes-take_runes (n - 1) s "…", ellipsis))
]

-- `strings.Cut` at a character: what stands before it and behind it, if it is there.
before : Char → Option (String × String) → Option (String × String)
before c none = none
before c (some (s, t)) = some (String.◌∷◌ c s, t)

unfoldable pub cut_at : ℕ → String → Option (String × String)
unfolding before
cut_at sep String.[] = none
cut_at sep (String.◌∷◌ c s) =
    let rest = before c (cut_at sep s) in if eqb (code c) sep then some (String.[], s) else rest

-- `strings.Join` of lines.
unfoldable pub join : String → List String → String
join sep [] = String.[]
join sep (s ∷ []) = s
join sep (s ∷ (t ∷ ts)) = concat s (concat sep (join sep (t ∷ ts)))

-- What is left behind the first characters.
unfoldable pub drop_runes : ℕ → String → String
drop_runes zero s = s
drop_runes (suc n) String.[] = String.[]
drop_runes (suc n) (String.◌∷◌ c s) = drop_runes n s

-- The small letter of a capital one.
small : ℕ → Char
small n =
    if eqb n b'A'
    then "a"
    else if eqb n b'B'
    then "b"
    else if eqb n b'C'
    then "c"
    else if eqb n b'D'
    then "d"
    else if eqb n b'E'
    then "e"
    else if eqb n b'F'
    then "f"
    else if eqb n b'G'
    then "g"
    else if eqb n b'H'
    then "h"
    else if eqb n b'I'
    then "i"
    else if eqb n b'J'
    then "j"
    else if eqb n b'K'
    then "k"
    else if eqb n b'L'
    then "l"
    else if eqb n b'M'
    then "m"
    else if eqb n b'N'
    then "n"
    else if eqb n b'O'
    then "o"
    else if eqb n b'P'
    then "p"
    else if eqb n b'Q'
    then "q"
    else if eqb n b'R'
    then "r"
    else if eqb n b'S'
    then "s"
    else if eqb n b'T'
    then "t"
    else if eqb n b'U'
    then "u"
    else if eqb n b'V'
    then "v"
    else if eqb n b'W'
    then "w"
    else if eqb n b'X'
    then "x"
    else if eqb n b'Y'
    then "y"
    else "z"

-- `strings.ToLower`, as far as it yields ASCII: the program compares its result with texts of ASCII
-- letters and of Chinese characters, which have no case.
lower : Char → Char
lower c =
    let n = code c in
    if eqb n 0x130
    then "i"
    else if eqb n 0x212a
    then "k"
    else if leb b'A' n && leb n b'Z'
    then small n
    else c

unfoldable pub to_lower : String → String
unfolding lower small
to_lower String.[] = String.[]
to_lower (String.◌∷◌ c s) = String.◌∷◌ (lower c) (to_lower s)

-- Whether a text has a character.
unfoldable pub has_char : ℕ → String → Bool
has_char n String.[] = false
has_char n (String.◌∷◌ c s) = eqb (code c) n || has_char n s
