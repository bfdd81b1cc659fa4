-- ===== src/Prelude/Maps.antt =====
-- A Go map with text keys, as an association list that holds a key at most once where the laws
-- ask for it. The iteration order of the model is the order of the list; Go's is any order.
use Prim.Native.String.{String}
use mathlib.Core.Path.{◌≡◌, refl, subst₂}
use mathlib.Core.Bool.{Bool, true, false}
use mathlib.Core.Logic.{inl, inr}
use mathlib.Core.List.{List, [], ◌∷◌}
use mathlib.Core.Option.{Option, none, some}
use native.Mathlib.Omega.{arith}
use lark_coding_agent_bridge.Prelude.Tests.{if◌then◌else◌, Bool-cases}
use text.Mathlib.Text.{◌==◌}
use text.Mathlib.TextEquality.{eq_iff}
use text.Mathlib.TextPositions.{eq_refl}

abbrev pub Dict {ℓ} : Type ℓ → Type ℓ
Dict V = List (String × V)

module _ {ℓ} {V : Type ℓ} where
  unfoldable pub lookup : String → Dict V → Option V
  lookup key [] = none
  lookup key ((at, here) ∷ rest) = if at == key then some here else lookup key rest

  unfoldable pub insert : String → V → Dict V → Dict V
  insert key value [] = (key, value) ∷ []
  insert key value ((at, here) ∷ rest) =
      let later = insert key value rest in
      if at == key then (key, value) ∷ rest else (at, here) ∷ later

  unfoldable pub delete : String → Dict V → Dict V
  delete key [] = []
  delete key ((at, here) ∷ rest) =
      let later = delete key rest in if at == key then later else (at, here) ∷ later

  -- Keep the entries that pass a test.
  unfoldable pub keep : (String → V → Bool) → Dict V → Dict V
  keep p [] = []
  keep p ((j, w) ∷ m) = let rest = keep p m in if p j w then (j, w) ∷ rest else rest

  unfoldable pub has_key : String → Dict V → Bool
  has_key k m = elim (lookup k m) [ none ↦ false | some v ↦ true ]

  -- What a key finds after a write, and after a removal.
  pub lookup-insert :
      (key other : String) (value : V) (d : Dict V)
      → lookup other (insert key value d) ≡ (if key == other then some value else lookup other d)
  unfolding lookup insert
  lookup-insert key other value [] = refl
  lookup-insert key other value ((at, here) ∷ rest) =
      ground (
        arith,
        lookup-insert key other value rest,
        eq_iff at other,
        eq_iff at key,
        eq_iff key other,
      )

  pub lookup-insert_self :
      (key : String) (value : V) (d : Dict V) → lookup key (insert key value d) ≡ some value
  lookup-insert_self key value d = rw (lookup-insert key key value d, eq_refl key)

  pub lookup-delete :
      (key other : String) (d : Dict V)
      → lookup other (delete key d) ≡ (if key == other then none else lookup other d)
  unfolding lookup delete
  lookup-delete key other [] = ground arith
  lookup-delete key other ((at, here) ∷ rest) =
      ground (arith, lookup-delete key other rest, eq_iff at other, eq_iff at key, eq_iff key other)

  pub lookup-delete_self : (key : String) (d : Dict V) → lookup key (delete key d) ≡ none
  lookup-delete_self key d = rw (lookup-delete key key d, eq_refl key)

  -- Every value satisfies a predicate that may name its key.
  abbrev pub AllVals {κ} : (String → V → Type κ) → Dict V → Type κ
  AllVals P [] = Unit
  AllVals P ((j, w) ∷ m) = P j w × AllVals P m

  module _ {κ} (P : String → V → Type κ) where
    pub AllVals-insert :
        (k : String) (v : V) (m : Dict V) → P k v → AllVals P m → AllVals P (insert k v m)
    unfolding insert
    AllVals-insert k v [] h a = (h, tt)
    AllVals-insert k v ((j, w) ∷ m) h a = elim (Bool-cases (j == k)) [
      | inl e ↦ rw e (h, a.1)
      | inr e ↦ rw e (a.0, AllVals-insert k v m h a.1)
    ]

    pub AllVals-delete : (k : String) (m : Dict V) → AllVals P m → AllVals P (delete k m)
    unfolding delete
    AllVals-delete k [] a = tt
    AllVals-delete k ((j, w) ∷ m) a = elim (Bool-cases (j == k)) [
      | inl e ↦ rw e (AllVals-delete k m a.1)
      | inr e ↦ rw e (a.0, AllVals-delete k m a.1)
    ]

    pub AllVals-keep : (p : String → V → Bool) (m : Dict V) → AllVals P m → AllVals P (keep p m)
    unfolding keep
    AllVals-keep p [] a = tt
    AllVals-keep p ((j, w) ∷ m) a = elim (Bool-cases (p j w)) [
      | inl e ↦ rw e (a.0, AllVals-keep p m a.1)
      | inr e ↦ rw e (AllVals-keep p m a.1)
    ]

    pub AllVals-lookup :
        (k : String) (m : Dict V) (v : V) → AllVals P m → lookup k m ≡ some v → P k v
    unfolding lookup
    AllVals-lookup k [] v a e = cc
    AllVals-lookup k ((j, w) ∷ m) v a e = elim (Bool-cases (j == k)) [
      | inl h ↦ let q : w ≡ v = ground arith in subst₂ P ((eq_iff j k).0 h) q a.0
      | inr h ↦ AllVals-lookup k m v a.1 (rw h at e)
    ]

  -- No key stands twice.
  abbrev pub DistinctKeys : Dict V → Type 0
  DistinctKeys [] = Unit
  DistinctKeys ((j, w) ∷ m) = (has_key j m ≡ false) × DistinctKeys m

  pub has_key-insert :
      (k j : String) (v : V) (m : Dict V)
      → has_key j (insert k v m) ≡ (if k == j then true else has_key j m)
  unfolding has_key
  has_key-insert k j v m = ground (arith, lookup-insert k j v m)

  pub insert-DistinctKeys :
      (k : String) (v : V) (m : Dict V) → DistinctKeys m → DistinctKeys (insert k v m)
  unfolding insert has_key lookup
  insert-DistinctKeys k v [] d = (refl, tt)
  insert-DistinctKeys k v ((j, w) ∷ m) d =
      ground (arith, eq_iff j k, eq_iff k j, has_key-insert k j v m, insert-DistinctKeys k v m d.1)

  pub has_key-delete :
      (k j : String) (m : Dict V) → has_key j m ≡ false → has_key j (delete k m) ≡ false
  unfolding has_key
  has_key-delete k j m h = ground (arith, lookup-delete k j m)

  pub delete-DistinctKeys : (k : String) (m : Dict V) → DistinctKeys m → DistinctKeys (delete k m)
  unfolding delete
  delete-DistinctKeys k [] d = tt
  delete-DistinctKeys k ((j, w) ∷ m) d =
      ground (arith, has_key-delete k j m, delete-DistinctKeys k m d.1)

  unfoldable pub keys : Dict V → List String
  keys [] = []
  keys ((j, w) ∷ m) = j ∷ keys m

  -- What is kept is found where its first entry passes.
  pub lookup-keep :
      (p : String → V → Bool) (k : String) (m : Dict V)
      → DistinctKeys m
      → lookup k (keep p m)
        ≡ elim (lookup k m) [ none ↦ none | some v ↦ if p k v then some v else none ]
  unfolding lookup keep has_key
  lookup-keep p k [] d = refl
  lookup-keep p k ((j, w) ∷ m) d = ground (arith, eq_iff j k, lookup-keep p k m d.1)
