-- ===== src/Agent/Json.antt =====
-- The decoded JSON values (`any`, `map[string]any`, `[]any`) that internal/agent reads by key, with the
-- field helpers of internal/agent/codex.go and codex_appserver.go. Numbers are integers, or
-- positive with up to six decimals, as costs are. A map is the list of its entries in the order of their keys, in which `encoding/json`
-- writes them.
use lark_coding_agent_bridge.Prelude.{
  ℕ, String, Bool, false, ◌||◌, Option, none, some, List, [], ◌∷◌, ◌==◌, ltb, if◌then◌else◌, keys,
  ℤ, pos, negsuc, ◌*◌, ◌+◌, ◌≡◌, eq_refl, arith, Bool-cases, eq_iff, inl, inr, refl,
}

mutual
  pub data Json : Type 0 where
    null : Json
    bool : Bool → Json
    num : ℤ → Json
    -- The whole part of a positive number, and the millionths behind it.
    frac : ℕ → ℕ → Json
    str : String → Json
    arr : Items → Json
    obj : Fields → Json

  pub data Items : Type 0 where
    stop : Items
    item : Json → Items → Items

  pub data Fields : Type 0 where
    empty : Fields
    entry : String → Json → Fields → Fields

-- `m[key]`: the zero value, nil, where the key is missing.
unfoldable pub get : Fields → String → Json
get empty key = null
get (entry k v m) key = let rest = get m key in if k == key then v else rest

-- Whether the key is there, `_, ok := m[key]`.
unfoldable pub present : Fields → String → Bool
present empty key = false
present (entry k v m) key = k == key || present m key

-- `v, _ := x.(string)`, `x.(bool)`, `x.(map[string]any)` and `anySlice`.
unfoldable pub as_string : Json → String
as_string (str s) = s
as_string _ = ""

unfoldable pub as_bool : Json → Bool
as_bool (bool b) = b
as_bool _ = false

unfoldable pub as_map : Json → Option Fields
as_map (obj m) = some m
as_map _ = none

abbrev pub to_list : Items → List Json
to_list stop = []
to_list (item v vs) = v ∷ to_list vs

unfoldable pub any_slice : Json → List Json
any_slice (arr vs) = to_list vs
any_slice _ = []

-- A nil map reads like an empty one.
abbrev pub or_empty : Option Fields → Fields
or_empty (some m) = m
or_empty none = empty

unfoldable pub map_field : Fields → String → Option Fields
unfolding get as_map
map_field m key = as_map (get m key)

-- The first key with a non-empty string.
unfoldable pub string_field : Fields → List String → String
unfolding get as_string
string_field m [] = ""
string_field m (k ∷ keys) =
    let rest = string_field m keys in let v = as_string (get m k) in if v == "" then rest else v

-- The first key with a number.
unfoldable pub int_field : Fields → List String → ℤ
unfolding get
int_field m [] = pos 0
int_field m (k ∷ keys) = elim (get m k) [ num n ↦ n | frac n m ↦ pos n | _ ↦ int_field m keys ]

strings_of : List Json → List String
unfolding as_string
strings_of [] = []
strings_of (v ∷ vs) =
    let rest = strings_of vs in let s = as_string v in if s == "" then rest else s ∷ rest

unfoldable pub any_strings : Json → List String
unfolding any_slice strings_of
any_strings v = strings_of (any_slice v)

-- A count that an event carries; the agents send no negative ones.
abbrev pub count_of : ℤ → ℕ
count_of (pos n) = n
count_of (negsuc n) = 0

abbrev pub is_positive : ℤ → Bool
is_positive (pos n) = ltb 0 n
is_positive (negsuc n) = false

-- An amount of dollars, in millionths.
unfoldable pub dollars : Json → ℕ
dollars (num n) = count_of n * 1_000_000
dollars (frac n m) = n * 1_000_000 + m
dollars _ = 0

-- `m[key] = v`.
unfoldable pub put : String → Json → Fields → Fields
put key v empty = entry key v empty
put key v (entry k w m) = let rest = put key v m in if k == key then entry k v m else entry k w rest

pub get-put : (key : String) (v : Json) (m : Fields) → get (put key v m) key ≡ v
unfolding get put
get-put key v empty = rw (eq_refl key) refl
get-put key v (entry k w m) = elim (Bool-cases (k == key)) [
  | inl e ↦ rw (e, (eq_iff k key).0 e, eq_refl key) refl
  | inr e ↦ rw (e, e) (get-put key v m)
]

pub get-put_other :
    (key other : String) (v : Json) (m : Fields)
    → (key == other) ≡ false
    → get (put key v m) other ≡ get m other
unfolding get put
get-put_other key other v empty h = rw h refl
get-put_other key other v (entry k w m) h = elim (Bool-cases (k == key)) [
  | inl e ↦ rw (e, (eq_iff k key).0 e, h) refl
  | inr e ↦ rw e (rw (get-put_other key other v m h) refl)
]

pub other_way : (s t : String) → (s == t) ≡ false → (t == s) ≡ false
other_way s t h = ground (arith, h, eq_iff s t, eq_iff t s, eq_refl s, eq_refl t)
