-- ===== src/Agent/Marshal.antt =====
-- How Go writes values as text: `%d` of `fmt`, and `json.Marshal` of `encoding/json`, by which
-- internal/agent shows what a tool was given and what it returned.
use lark_coding_agent_bridge.Prelude.{
  ℕ, zero, suc, ◌+◌, ◌/◌, ◌%◌, String, true, false, ltb, eqb, if◌then◌else◌, ℤ, pos, negsuc, concat,
  ◌*◌,
}
use Prim.Native.Char.{Char, code}
use lark_coding_agent_bridge.Agent.Json.{
  Json, null, bool, num, str, arr, obj, Items, stop, item, Fields, empty, entry, frac,
}

-- A digit.
unfoldable pub digit : ℕ → Char
digit n =
    if eqb n 0
    then "0"
    else if eqb n 1
    then "1"
    else if eqb n 2
    then "2"
    else if eqb n 3
    then "3"
    else if eqb n 4
    then "4"
    else if eqb n 5
    then "5"
    else if eqb n 6
    then "6"
    else if eqb n 7
    then "7"
    else if eqb n 8
    then "8"
    else "9"

-- The digits of a number before the digits behind it; each round takes one digit off.
unfoldable pub show_from : ℕ → ℕ → String → String
show_from zero n s = s
show_from (suc fuel) n s =
    let more = show_from fuel (n / 10) (String.◌∷◌ (digit (n % 10)) s) in
    if ltb n 10 then String.◌∷◌ (digit n) s else more

-- `fmt.Sprintf("%d", n)`; a number has at most as many digits as its successor says.
unfoldable pub show_nat : ℕ → String
unfolding show_from digit
show_nat n = show_from (suc n) n ""

unfoldable pub show_int : ℤ → String
unfolding show_nat
show_int (pos n) = show_nat n
show_int (negsuc n) = concat "-" (show_nat (n + 1))

-- The decimals of a number of millionths, without the zeros at the end.
decimals : ℕ → ℕ → String → String
decimals zero m s = s
decimals (suc k) m s =
    let rest = decimals k (m * 10 % 1_000_000) s in
    if eqb m 0 then s else String.◌∷◌ (digit (m * 10 / 1_000_000)) rest

-- A hexadecimal digit above 9.
unfoldable pub letter : ℕ → String → String
letter n s =
    if eqb n 10
    then concat "a" s
    else if eqb n 11
    then concat "b" s
    else if eqb n 12
    then concat "c" s
    else if eqb n 13
    then concat "d" s
    else if eqb n 14
    then concat "e" s
    else concat "f" s

-- One character of a JSON text, before the rest; a quote, a backslash, the control characters and what
-- HTML reads are escaped.
unfoldable pub escape : Char → String → String
unfolding digit letter
escape c s =
    let n = code c in
    let low = if ltb (n % 16) 10 then String.◌∷◌ (digit (n % 16)) s else letter (n % 16) s in
    if eqb n b'"'
    then concat "\\\"" s
    else if eqb n b'\\'
    then concat "\\\\" s
    else if eqb n 8
    then concat "\\b" s
    else if eqb n 9
    then concat "\\t" s
    else if eqb n 10
    then concat "\\n" s
    else if eqb n 12
    then concat "\\f" s
    else if eqb n 13
    then concat "\\r" s
    else if ltb n 16
    then concat "\\u000" low
    else if ltb n 32
    then concat "\\u001" low
    else if eqb n b'<'
    then concat "\\u003c" s
    else if eqb n b'>'
    then concat "\\u003e" s
    else if eqb n b'&'
    then concat "\\u0026" s
    else if eqb n 0x2028
    then concat "\\u2028" s
    else if eqb n 0x2029
    then concat "\\u2029" s
    else String.◌∷◌ c s

-- A text in quotes, before the rest.
unfoldable pub quote_from : String → String → String
unfolding escape
quote_from String.[] rest = concat "\"" rest
quote_from (String.◌∷◌ c s) rest = escape c (quote_from s rest)

unfoldable mutual
  unfolding quote_from show_int show_nat decimals

  -- `json.Marshal`, before the rest.
  pub write : Json → String → String
  write null s = concat "null" s
  write (bool true) s = concat "true" s
  write (bool false) s = concat "false" s
  write (num n) s = concat (show_int n) s
  write (frac n m) s = concat (show_nat n) (concat "." (decimals 6 m s))
  write (str t) s = concat "\"" (quote_from t s)
  write (arr vs) s = concat "[" (write_items vs s)
  write (obj m) s = concat "{" (write_fields m s)

  pub write_items : Items → String → String
  write_items stop s = concat "]" s
  write_items (item v stop) s = write v (concat "]" s)
  write_items (item v (item w vs)) s = write v (concat "," (write_items (item w vs) s))

  pub write_fields : Fields → String → String
  write_fields empty s = concat "}" s
  write_fields (entry k v empty) s =
      concat "\"" (quote_from k (concat ":" (write v (concat "}" s))))
  write_fields (entry k v (entry j w m)) s =
      concat "\"" (quote_from k (concat ":" (write v (concat "," (write_fields (entry j w m) s)))))

unfoldable pub marshal : Json → String
unfolding write
marshal v = write v ""
