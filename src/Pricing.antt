-- ===== src/Pricing.antt =====
-- internal/pricing/pricing.go: prices of model tokens. Rates are per million tokens in millionths of
-- a yuan, a cost is in ten-thousandths, and sums are exact where the source rounds in binary.
pub mod Longest
use lark_coding_agent_bridge.Prelude.{
  ℕ, ◌+◌, ◌-◌, ◌*◌, ◌/◌, String, Bool, true, false, ◌&&◌, Option, none, some, List, [], ◌∷◌, map,
  ltb, leb, eqb, if◌then◌else◌, length,
}
use Prim.Native.Char.{code}

pub record Rates : Type 0 where
  pub input : ℕ
  pub output : ℕ
  pub cache_read : ℕ
  pub context_window : ℕ

-- `peak_mul` is the whole number that the source writes as a float.
pub record Entry : Type 0 where
  pub prefix : List ℕ
  pub rates : Rates
  pub peak_mul : ℕ

-- The code points of a text.
abbrev pub codes : String → List ℕ
codes String.[] = []
codes (String.◌∷◌ letter rest) = code letter ∷ codes rest

-- `unicode.ToLower` as far as its result can be ASCII: A to Z, the dotted capital I and the Kelvin
-- sign. No prefix of the table has another character.
abbrev pub lower_code : ℕ → ℕ
lower_code c =
    if leb b'A' c && leb c b'Z'
    then c + 32
    else if eqb c 0x130
    then b'i'
    else if eqb c 0x212a
    then b'k'
    else c

unfoldable pub has_prefix : List ℕ → List ℕ → Bool
has_prefix s [] = true
has_prefix [] (p ∷ ps) = false
has_prefix (c ∷ s) (p ∷ ps) = eqb c p && has_prefix s ps

abbrev pub entry : String → ℕ → ℕ → ℕ → ℕ → ℕ → Entry
entry prefix input output cache window peak = record {
  prefix = codes prefix;
  rates = record { input = input; output = output; cache_read = cache; context_window = window };
  peak_mul = peak;
}

-- The calls of `register`, in order.
abbrev pub registered : List Entry
registered =
    entry "deepseek/deepseek-chat" 500000 2000000 100000 131072 2
    ∷ entry "deepseek-chat" 500000 2000000 100000 131072 2
    ∷ entry "deepseek/deepseek-reasoner" 1000000 4000000 250000 131072 2
    ∷ entry "deepseek-reasoner" 1000000 4000000 250000 131072 2
    ∷ entry "deepseek/deepseek-r1" 1000000 4000000 250000 131072 2
    ∷ entry "deepseek/deepseek-v4-flash" 140000 280000 2800 1048576 2
    ∷ entry "deepseek/deepseek-v4-pro" 435000 870000 3625 1048576 2
    ∷ entry "claude-sonnet-4-" 22000000 110000000 2200000 200000 0
    ∷ entry "claude-sonnet-4" 22000000 110000000 2200000 200000 0
    ∷ entry "claude-3.5-sonnet" 22000000 110000000 2200000 200000 0
    ∷ entry "claude-3-haiku" 5800000 29200000 600000 200000 0
    ∷ entry "claude-opus-4-" 110000000 440000000 11000000 200000 0
    ∷ entry "claude-opus-4" 110000000 440000000 11000000 200000 0
    ∷ entry "gpt-4o-mini" 1100000 4400000 550000 131072 0
    ∷ entry "gpt-4o" 18300000 73000000 9100000 131072 0
    ∷ []

-- `sort.Slice` by falling prefix length.
unfoldable pub insert_entry : Entry → List Entry → List Entry
insert_entry e [] = e ∷ []
insert_entry e (x ∷ xs) =
    let rest = insert_entry e xs in
    if ltb (length x.prefix) (length e.prefix) then e ∷ x ∷ xs else x ∷ rest

unfoldable pub sort_entries : List Entry → List Entry
sort_entries [] = []
sort_entries (e ∷ es) = insert_entry e (sort_entries es)

unfoldable pub registry : List Entry
registry = sort_entries registered

unfoldable pub lookup_in : List Entry → List ℕ → Option Entry
lookup_in [] lower = none
lookup_in (e ∷ es) lower = if has_prefix lower e.prefix then some e else lookup_in es lower

unfoldable pub lookup_model : String → Option Entry
lookup_model model = lookup_in registry (map lower_code (codes model))

-- The hour and minute in Beijing.
unfoldable pub peak_beijing : ℕ → ℕ → Bool
peak_beijing h m =
    if leb 16 h && ltb h 24 then true else if eqb h 0 && ltb m 30 then true else false

unfoldable pub non_cached_input : ℕ → ℕ → ℕ
non_cached_input input cached = if ltb 0 cached && leb cached input then input - cached else input

-- Half away from zero, from millionths of millionths to ten-thousandths.
abbrev pub round_cost : ℕ → ℕ
round_cost n = (n + 50000000) / 100000000

unfoldable pub cost_of : Entry → Bool → ℕ → ℕ → ℕ → ℕ
cost_of e peak input output cached =
    let multiplier = if ltb 0 e.peak_mul && peak then e.peak_mul else 1 in
    round_cost (
      (non_cached_input input cached * e.rates.input
        + cached * e.rates.cache_read
        + output * e.rates.output)
      * multiplier)

-- 0 also where the model is not known. The clock is given as the hour and minute in Beijing.
unfoldable pub calculate : String → ℕ → ℕ → ℕ → ℕ × ℕ → ℕ
calculate model input output cached (h, m) = elim (lookup_model model) [
  | none ↦ 0
  | some e ↦ cost_of e (peak_beijing h m) input output cached
]

unfoldable pub context_window : String → ℕ
context_window model = elim (lookup_model model) [ none ↦ 0 | some e ↦ e.rates.context_window ]
