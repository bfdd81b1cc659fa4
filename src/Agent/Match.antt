-- ===== src/Agent/Match.antt =====
-- internal/agent/discovery.go `MatchSession` and `parseIndex`: which discovered session a command
-- names. An `int` has 64 bits; a wrapped negative one is a large number here, and out of range as well.
use lark_coding_agent_bridge.Prelude.{
  ℕ, suc, false, ◌≤◌, ◌<◌, ◌⊎◌, true, ◌+◌, ◌-◌, ◌*◌, ◌%◌, String, ◌≡◌, refl, sym, ap, ◌∙◌, inl, inr,
  ◌&&◌, Option, none, some, List, [], ◌∷◌, ◌++◌, arith, ◌==◌, leb, eqb, if◌then◌else◌, Bool-cases,
  get_elem?, starts_with,
}
use Prim.Native.Char.{Char, code}

pub record ExternalSession : Type 0 where
  pub id : String
  pub cwd : String
  pub preview : String
  pub last_output : String
  pub status : String
  pub updated_at : ℕ
  pub agent : String

-- 2 to the 64.
abbrev pub int_range : ℕ
int_range = 0x10000000000000000

unfoldable pub parse_from : ℕ → String → Option ℕ
parse_from n String.[] = some n
parse_from n (String.◌∷◌ c rest) =
    let digits = parse_from ((n * 10 + (code c - b'0')) % int_range) rest in
    if leb b'0' (code c) && leb (code c) b'9' then digits else none

unfoldable pub parse_index : String → Option ℕ
parse_index s = parse_from 0 s

-- One match is taken, several are offered.
abbrev pub sole : List ExternalSession → Option ExternalSession × List ExternalSession
sole [] = (none, [])
sole (x ∷ []) = (some x, [])
sole (x ∷ y ∷ xs) = (none, x ∷ y ∷ xs)

-- The loop over the sessions, with the prefix matches so far.
unfoldable pub match_id :
    String
    → List ExternalSession
    → List ExternalSession
    → Option ExternalSession × List ExternalSession
match_id token prefix [] = sole prefix
match_id token prefix (x ∷ xs) =
    let with_x = match_id token (prefix ++ (x ∷ [])) xs in
    let without_x = match_id token prefix xs in
    if x.id == token then (some x, []) else if starts_with x.id token then with_x else without_x

-- The session with a number, counted from 1.
unfoldable pub at_index : List ExternalSession → Option ℕ → Option ExternalSession
at_index sessions none = none
at_index sessions (some n) = if eqb n 0 then none else get_elem? sessions (n - 1)

unfoldable pub match_session :
    List ExternalSession → String → Option ExternalSession × List ExternalSession
match_session sessions token = elim (at_index sessions (parse_index token)) [
  | some x ↦ (some x, [])
  | none ↦ match_id token [] sessions
]

-- The first session whose id is the token.
unfoldable pub exact : String → List ExternalSession → Option ExternalSession
exact token [] = none
exact token (x ∷ xs) = if x.id == token then some x else exact token xs

unfoldable pub prefixed : String → List ExternalSession → List ExternalSession
prefixed token [] = []
prefixed token (x ∷ xs) =
    let rest = prefixed token xs in if starts_with x.id token then x ∷ rest else rest

-- The specification in two passes.
abbrev pub chosen :
    Option ExternalSession → List ExternalSession → Option ExternalSession × List ExternalSession
chosen none candidates = sole candidates
chosen (some x) candidates = (some x, [])

append_one :
    (xs : List ExternalSession) (y : ExternalSession) (ys : List ExternalSession)
    → (xs ++ (y ∷ [])) ++ ys ≡ xs ++ (y ∷ ys)
append_one [] y ys = refl
append_one (x ∷ xs) y ys = ap (λ l. x ∷ l) (append_one xs y ys)

append_none : (xs : List ExternalSession) → xs ++ [] ≡ xs
append_none [] = refl
append_none (x ∷ xs) = ap (λ l. x ∷ l) (append_none xs)

match_id-chosen :
    (token : String) (before xs : List ExternalSession)
    → match_id token before xs ≡ chosen (exact token xs) (before ++ prefixed token xs)
unfolding match_id exact prefixed
match_id-chosen token before [] = ap sole (sym (append_none before))
match_id-chosen token before (x ∷ xs) = elim (Bool-cases (x.id == token)) [
  | inl e ↦ rw e refl
  | inr e ↦ elim (Bool-cases (starts_with x.id token)) [
    | inl p ↦
        rw (e, p)
          (match_id-chosen token (before ++ (x ∷ [])) xs
            ∙ ap (chosen (exact token xs)) (append_one before x (prefixed token xs)))
    | inr p ↦ rw (e, p) (match_id-chosen token before xs)
  ]
]

-- The decimal digits of a text, read from the left behind a first number.
pub data Reads : ℕ → String → ℕ → Type 0 where
  nothing : {n : ℕ} → Reads n String.[] n
  digit :
      {n m d : ℕ} {c : Char} {rest : String}
      → code c ≡ b'0' + d
      → d < 10
      → Reads (n * 10 + d) rest m
      → Reads n (String.◌∷◌ c rest) m

-- Some character of a text is no digit.
pub data IsWord : String → Type 0 where
  here : {c : Char} {rest : String} → (code c < b'0') ⊎ (b'9' < code c) → IsWord (String.◌∷◌ c rest)
  later : {c : Char} {rest : String} → IsWord rest → IsWord (String.◌∷◌ c rest)

-- A text that is no number, or the number of no session.
abbrev pub Unlisted : List ExternalSession → String → Type 0
Unlisted sessions token =
    IsWord token
    ⊎ Reads 0 token 0
    ⊎ (n : ℕ) × Reads 0 token (suc n) × (suc n < int_range) × (get_elem? sessions n ≡ none)

Reads-le : (n m : ℕ) (s : String) → Reads n s m → n ≤ m
Reads-le n m s nothing = omega arith
Reads-le n m s (digit {d = d} {rest = rest} c h r) =
    let q = Reads-le (n * 10 + d) m rest r in omega arith

parse_from-Reads : (n m : ℕ) (s : String) → Reads n s m → m < int_range → parse_from n s ≡ some m
unfolding parse_from
parse_from-Reads n m s nothing b = refl
parse_from-Reads n m s (digit {d = d} {c = c} {rest = rest} e h r) b =
    let q = Reads-le (n * 10 + d) m rest r in
    let small : (n * 10 + (code c - b'0')) % int_range ≡ n * 10 + d = omega arith in
    let low : leb b'0' (code c) ≡ true = ground arith in
    let high : leb (code c) b'9' ≡ true = ground arith in
    rw (small, low, high) (parse_from-Reads (n * 10 + d) m rest r b)

parse_from-IsWord : (n : ℕ) (s : String) → IsWord s → parse_from n s ≡ none
unfolding parse_from
parse_from-IsWord n s (here {c = c} h) = ground (arith, h)
parse_from-IsWord n s (later {c = c} {rest = rest} h) =
    ground (arith, parse_from-IsWord ((n * 10 + (code c - b'0')) % int_range) rest h)

at_index-suc :
    (sessions : List ExternalSession) (n : ℕ)
    → at_index sessions (some (suc n)) ≡ get_elem? sessions n
unfolding at_index
at_index-suc sessions n =
    let q : eqb (suc n) 0 ≡ false = ground arith in
    let p : suc n - 1 ≡ n = omega arith in rw (q, p) refl

listed :
    (sessions : List ExternalSession) (token : String) (i : ℕ) (x : ExternalSession)
    → Reads 0 token (suc i)
    → suc i < int_range
    → get_elem? sessions i ≡ some x
    → match_session sessions token ≡ (some x, [])
unfolding match_session at_index parse_index
listed sessions token i x r b e =
    rw (match_session, parse_from-Reads 0 (suc i) token r b) (rw (at_index-suc sessions i ∙ e) refl)

unlisted :
    (sessions : List ExternalSession) (token : String)
    → Unlisted sessions token
    → match_session sessions token ≡ chosen (exact token sessions) (prefixed token sessions)
unfolding match_session at_index parse_index
unlisted sessions token (inl w) =
    rw (match_session, parse_from-IsWord 0 token w) (match_id-chosen token [] sessions)
unlisted sessions token (inr (inl z)) =
    rw (match_session, parse_from-Reads 0 0 token z (omega arith))
      (match_id-chosen token [] sessions)
unlisted sessions token (inr (inr (n, r, b, e))) =
    rw (match_session, parse_from-Reads 0 (suc n) token r b)
      (rw (at_index-suc sessions n ∙ e) (match_id-chosen token [] sessions))

-- A token that reads as a decimal number, of less than 64 bits, of a listed session, counted from one,
-- names that session. A token with a character that is no digit, or that reads as such a number of no
-- session, names the first session with exactly this id; if there is none, the only one whose id starts
-- with it; if there is none or several, it names none, and those several are offered, in their order.
pub match_session-chosen :
    (sessions : List ExternalSession) (token : String)
    → ((i : ℕ) (x : ExternalSession)
        → Reads 0 token (suc i)
        → suc i < int_range
        → get_elem? sessions i ≡ some x
        → match_session sessions token ≡ (some x, []))
      × ((x : ExternalSession)
          → Unlisted sessions token
          → exact token sessions ≡ some x
          → match_session sessions token ≡ (some x, []))
      × (Unlisted sessions token
          → exact token sessions ≡ none
          → prefixed token sessions ≡ []
          → match_session sessions token ≡ (none, []))
      × ((x : ExternalSession)
          → Unlisted sessions token
          → exact token sessions ≡ none
          → prefixed token sessions ≡ x ∷ []
          → match_session sessions token ≡ (some x, []))
      × ((x y : ExternalSession) (more : List ExternalSession)
          → Unlisted sessions token
          → exact token sessions ≡ none
          → prefixed token sessions ≡ x ∷ y ∷ more
          → match_session sessions token ≡ (none, x ∷ y ∷ more))
match_session-chosen sessions token =
    let by = unlisted sessions token in
    (
      listed sessions token,
      (λ x u e. by u ∙ rw e refl),
      (λ u e p. by u ∙ rw (e, p) refl),
      (λ x u e p. by u ∙ rw (e, p) refl),
      (λ x y more u e p. by u ∙ rw (e, p) refl),
    )
