-- ===== src/Agent/OpenCode/Url.antt =====
-- internal/agent/opencode.go `urlQueryEscape`, on the bytes of a directory.
use lark_coding_agent_bridge.Prelude.{
  ℕ, ◌+◌, ◌-◌, ◌*◌, ◌/◌, ◌%◌, ◌<◌, ◌≡◌, refl, ap, inl, inr, Bool, true, false, ◌&&◌, ◌||◌, Option,
  none, some, List, [], ◌∷◌, arith, ltb, leb, eqb, if◌then◌else◌, Bool-cases, All, ◌++◌,
}

within : ℕ → ℕ → ℕ → Bool
within lo hi b = leb lo b && leb b hi

-- The bytes that stand for themselves.
unfoldable pub is_unreserved : ℕ → Bool
unfolding within
is_unreserved b =
    eqb b b'/'
    || within b'a' b'z' b
    || within b'A' b'Z' b
    || within b'0' b'9' b
    || eqb b b'-'
    || eqb b b'_'
    || eqb b b'.'
    || eqb b b'~'

unfoldable pub hex_digit : ℕ → ℕ
hex_digit n = if ltb n 10 then b'0' + n else b'A' + (n - 10)

unfoldable pub url_query_escape : List ℕ → List ℕ
unfolding is_unreserved hex_digit
url_query_escape [] = []
url_query_escape (b ∷ bs) =
    let rest = url_query_escape bs in
    if is_unreserved b then b ∷ rest else b'%' ∷ hex_digit (b / 16) ∷ hex_digit (b % 16) ∷ rest

-- A reader of a value in the query of a URL: between bytes, behind the percent sign, or behind the first
-- digit.
pub data Reader : Type 0 where
  plain percent : Reader
  high : ℕ → Reader

unfoldable pub digit_value : ℕ → ℕ
digit_value c = if leb c b'9' then c - b'0' else c - b'A' + 10

-- A value ends before the next parameter or the fragment.
unfoldable pub ends_value : ℕ → Bool
ends_value c = eqb c b'&' || eqb c b'#'

abbrev after : ℕ → Option (List ℕ × List ℕ) → Option (List ℕ × List ℕ)
after b none = none
after b (some (bs, rest)) = some (b ∷ bs, rest)

-- The value and what follows it; a plus sign is a space.
unfoldable pub read_value : Reader → List ℕ → Option (List ℕ × List ℕ)
unfolding digit_value ends_value
read_value plain [] = some ([], [])
read_value percent [] = none
read_value (high h) [] = none
read_value plain (c ∷ cs) =
    let escaped = read_value percent cs in
    let more = read_value plain cs in
    if ends_value c
    then some ([], c ∷ cs)
    else if eqb c b'%'
    then escaped
    else after (if eqb c b'+' then 32 else c) more
read_value percent (c ∷ cs) = read_value (high (digit_value c)) cs
read_value (high h) (c ∷ cs) = after (h * 16 + digit_value c) (read_value plain cs)

-- Nothing follows the value, or the next parameter or the fragment does.
abbrev pub EndsValue : List ℕ → Type 0
EndsValue [] = Unit
EndsValue (c ∷ cs) = ends_value c ≡ true

unreserved-ne :
    (b : ℕ)
    → is_unreserved b ≡ true
    → (ends_value b ≡ false) × (eqb b b'%' ≡ false) × (eqb b b'+' ≡ false)
unfolding is_unreserved ends_value
unreserved-ne b h = (ground arith, ground arith, ground arith)

value-hex : (n : ℕ) → n < 16 → digit_value (hex_digit n) ≡ n
unfolding digit_value hex_digit
value-hex n h = ground arith

read-rest : (rest : List ℕ) → EndsValue rest → read_value plain rest ≡ some ([], rest)
unfolding read_value
read-rest [] e = refl
read-rest (c ∷ cs) e = rw e refl

-- Bytes, each below 256, that stand escaped in the query of a URL at the end or before the next parameter
-- or the fragment, are read back from it, and what follows is left.
pub read-url_query_escape :
    (bs rest : List ℕ)
    → All (λ b. b < 256) bs
    → EndsValue rest
    → read_value plain (url_query_escape bs ++ rest) ≡ some (bs, rest)
unfolding read_value url_query_escape
read-url_query_escape [] rest h e = read-rest rest e
read-url_query_escape (b ∷ bs) rest h e = elim (Bool-cases (is_unreserved b)) [
  | inl q ↦
      let (n, p, s) = unreserved-ne b q in rw (q, n, p, s, read-url_query_escape bs rest h.1 e) refl
  | inr q ↦ rw (q) (
      rw
        (
          value-hex (b / 16) (omega arith),
          value-hex (b % 16) (omega arith),
          read-url_query_escape bs rest h.1 e,
        )
        (ap (λ c. some (c ∷ bs, rest)) (omega arith)))
]
