-- ===== src/Pricing/Longest.antt =====
-- The price table is searched for the longest prefix.
use lark_coding_agent_bridge.Prelude.{
  ℕ, ◌+◌, ◌≤◌, ◌≡◌, refl, ◌⊎◌, inl, inr, true, false, Option, none, some, List, [], ◌∷◌, arith, ltb,
  Bool-cases, length, All,
}
use lark_coding_agent_bridge.Pricing.{Entry, has_prefix, insert_entry, sort_entries, lookup_in}

-- The entry is in the list and its prefix matches.
abbrev pub Matches : Entry → List ℕ → List Entry → Type 0
Matches e s [] = ⊥
Matches e s (x ∷ xs) = ((x ≡ e) × (has_prefix s x.prefix ≡ true)) ⊎ Matches e s xs

abbrev pub NoneLonger : ℕ → List ℕ → List Entry → Type 0
NoneLonger n s es = All (λ x. has_prefix s x.prefix ≡ true → length x.prefix ≤ n) es

abbrev pub IsLongest : List ℕ → List Entry → Option Entry → Type 0
IsLongest s es none = All (λ x. has_prefix s x.prefix ≡ false) es
IsLongest s es (some e) = Matches e s es × NoneLonger (length e.prefix) s es

abbrev Falling : ℕ → List Entry → Type 0
Falling n [] = Unit {0}
Falling n (x ∷ xs) = (length x.prefix ≤ n) × Falling (length x.prefix) xs

Falling-NoneLonger : (n : ℕ) (s : List ℕ) (es : List Entry) → Falling n es → NoneLonger n s es
Falling-NoneLonger n s [] f = tt
Falling-NoneLonger n s (x ∷ xs) f =
    (λ h. f.0, weaken (length x.prefix) n f.0 xs (Falling-NoneLonger (length x.prefix) s xs f.1))
  where
    weaken : (m n : ℕ) → m ≤ n → (es : List Entry) → NoneLonger m s es → NoneLonger n s es
    weaken m n le [] h = tt
    weaken m n le (y ∷ ys) h = (λ p. omega (arith, h.0 p), weaken m n le ys h.1)

IsLongest-cons :
    (s : List ℕ) (x : Entry) (xs : List Entry) (r : Option Entry)
    → has_prefix s x.prefix ≡ false
    → IsLongest s xs r
    → IsLongest s (x ∷ xs) r
IsLongest-cons s x xs none h l = (h, l)
IsLongest-cons s x xs (some e) h l = (inr l.0, (λ p. absurd (ground arith), l.1))

lookup_in-IsLongest :
    (n : ℕ) (s : List ℕ) (es : List Entry) → Falling n es → IsLongest s es (lookup_in es s)
unfolding lookup_in
lookup_in-IsLongest n s [] f = tt
lookup_in-IsLongest n s (x ∷ xs) f = elim (Bool-cases (has_prefix s x.prefix)) [
  | inl h ↦
      rw h (inl (refl, h), ((λ p. omega arith), Falling-NoneLonger (length x.prefix) s xs f.1))
  | inr h ↦
      rw h
        (IsLongest-cons s x xs (lookup_in xs s) h (lookup_in-IsLongest (length x.prefix) s xs f.1))
]

insert_entry-Falling :
    (n : ℕ) (e : Entry) (es : List Entry)
    → length e.prefix ≤ n
    → Falling n es
    → Falling n (insert_entry e es)
unfolding insert_entry
insert_entry-Falling n e [] h f = (h, tt)
insert_entry-Falling n e (x ∷ xs) h f = ground (arith, insert_entry-Falling (length x.prefix) e xs)

abbrev longest : List Entry → ℕ
longest [] = 0
longest (e ∷ es) = length e.prefix + longest es

Falling-weaken : (m n : ℕ) (es : List Entry) → m ≤ n → Falling m es → Falling n es
Falling-weaken m n [] h f = tt
Falling-weaken m n (x ∷ xs) h f = (omega arith, f.1)

sort_entries-Falling : (es : List Entry) → Falling (longest es) (sort_entries es)
unfolding sort_entries
sort_entries-Falling [] = tt
sort_entries-Falling (e ∷ es) =
    insert_entry-Falling (longest (e ∷ es)) e (sort_entries es) (omega arith) (
      Falling-weaken (longest es) (longest (e ∷ es)) (sort_entries es) (omega arith)
        (sort_entries-Falling es))

module _ (P : Entry → Type 0) where
  All-insert : (e : Entry) (es : List Entry) → All P (insert_entry e es) → P e × All P es
  unfolding insert_entry
  All-insert e [] a = a
  All-insert e (x ∷ xs) a = elim (Bool-cases (ltb (length x.prefix) (length e.prefix))) [
    | inl h ↦ let b : All P (e ∷ x ∷ xs) = rw h at a in b
    | inr h ↦
        let b : All P (x ∷ insert_entry e xs) = rw h at a in
        let (p, q) = All-insert e xs b.1 in (p, (b.0, q))
  ]

  All-sort : (es : List Entry) → All P (sort_entries es) → All P es
  unfolding sort_entries
  All-sort [] a = tt
  All-sort (e ∷ es) a = let (p, q) = All-insert e (sort_entries es) a in (p, All-sort es q)

Matches-insert :
    (e : Entry) (s : List ℕ) (x : Entry) (xs : List Entry)
    → Matches e s (insert_entry x xs)
    → Matches e s (x ∷ xs)
unfolding insert_entry
Matches-insert e s x [] m = m
Matches-insert e s x (y ∷ ys) m = ground (arith, Matches-insert e s x ys)

Matches-sort :
    (e : Entry) (s : List ℕ) (es : List Entry) → Matches e s (sort_entries es) → Matches e s es
unfolding sort_entries
Matches-sort e s [] m = m
Matches-sort e s (x ∷ xs) m = elim (Matches-insert e s x (sort_entries xs) m) [
  | inl h ↦ inl h
  | inr h ↦ inr (Matches-sort e s xs h)
]

IsLongest-sort :
    (s : List ℕ) (es : List Entry) (r : Option Entry)
    → IsLongest s (sort_entries es) r
    → IsLongest s es r
IsLongest-sort s es none l = All-sort (λ x. has_prefix s x.prefix ≡ false) es l
IsLongest-sort s es (some e) l = (
  Matches-sort e s es l.0,
  All-sort (λ x. has_prefix s x.prefix ≡ true → length x.prefix ≤ length e.prefix) es l.1,
)

-- In any price table, once sorted, a model finds nothing exactly if no prefix of the table matches,
-- and otherwise a registered entry whose prefix matches and is the longest that does.
pub sorted_lookup-IsLongest :
    (es : List Entry) (s : List ℕ) → IsLongest s es (lookup_in (sort_entries es) s)
sorted_lookup-IsLongest es s =
    IsLongest-sort s es (lookup_in (sort_entries es) s)
      (lookup_in-IsLongest (longest es) s (sort_entries es) (sort_entries-Falling es))
