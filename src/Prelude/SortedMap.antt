-- ===== src/Prelude/SortedMap.antt =====
-- `BTreeMap` with number keys: an association list in ascending order of its keys.
use Prim.Native.Nat.{ℕ, ◌+◌, ◌<◌}
use mathlib.Core.Path.{◌≡◌, refl, subst}
use mathlib.Core.Logic.{inl, inr}
use mathlib.Core.List.{List, [], ◌∷◌, map}
use mathlib.Core.Option.{Option, none, some}
use native.Mathlib.Omega.{arith}
use silk_studio.Prelude.Tests.{Bool-cases, ltb, ◌==◌, if◌then◌else◌}

abbrev pub SortedMap {ℓ} : Type ℓ → Type ℓ
SortedMap V = List (ℕ × V)

module _ {ℓ} {V : Type ℓ} where
  abbrev pub get : ℕ → SortedMap V → Option V
  get k [] = none
  get k ((j, v) ∷ m) = if k == j then some v else get k m

  -- A present key has its value replaced; a new one goes to its place in the order.
  abbrev pub insert : ℕ → V → SortedMap V → SortedMap V
  insert k v [] = (k, v) ∷ []
  insert k v ((j, w) ∷ m) =
      if k == j then (k, v) ∷ m else if ltb k j then (k, v) ∷ (j, w) ∷ m else (j, w) ∷ insert k v m

  abbrev pub values : SortedMap V → List V
  values = map (λ e. e.1)

  abbrev pub keys : SortedMap V → List ℕ
  keys = map (λ e. e.0)

  abbrev pub Above : ℕ → SortedMap V → Type 0
  Above k [] = Unit
  Above k ((j, v) ∷ m) = k < j

  abbrev pub IsSorted : SortedMap V → Type 0
  IsSorted [] = Unit
  IsSorted ((j, v) ∷ m) = Above j m × IsSorted m

module _ {ℓ} {V : Type ℓ} where
  pub get-insert :
      (k j : ℕ) (v : V) (m : SortedMap V)
      → get j (insert k v m) ≡ (if j == k then some v else get j m)
  get-insert k j v [] = refl
  get-insert k j v ((i, w) ∷ m) = ground (arith, get-insert k j v m)

module _ {ℓ} {V : Type ℓ} where
  -- A key below all of a sorted map's is not in it.
  pub get-below :
      (k j : ℕ) (v : V) (m : SortedMap V)
      → k < j
      → IsSorted ((j, v) ∷ m)
      → get k ((j, v) ∷ m) ≡ none
  get-below k j v [] h s = ground arith
  get-below k j v ((i, w) ∷ m) h s = ground (arith, get-below k i w m)

  Above-insert : (k j : ℕ) (v : V) (m : SortedMap V) → j < k → Above j m → Above j (insert k v m)
  Above-insert k j v [] h a = h
  Above-insert k j v ((i, w) ∷ m) h a = ground arith

  pub insert-IsSorted : (k : ℕ) (v : V) (m : SortedMap V) → IsSorted m → IsSorted (insert k v m)
  insert-IsSorted k v [] s = (tt, tt)
  insert-IsSorted k v ((j, w) ∷ m) s = elim (Bool-cases (k == j)) [
    | inl here ↦ let e : j ≡ k = ground arith in rw here (subst (λ i. Above i m) e s.0, s.1)
    | inr elsewhere ↦ elim (Bool-cases (ltb k j)) [
      | inl before ↦ rw (elsewhere, before) (ground arith, s)
      | inr after ↦
          rw (elsewhere, after) (Above-insert k j v m (ground arith) s.0, insert-IsSorted k v m s.1)
    ]
  ]

  -- A sum over the values, where a replaced value gives way to the new one.
  abbrev pub total : (V → ℕ) → SortedMap V → ℕ
  total weight [] = 0
  total weight ((j, v) ∷ m) = weight v + total weight m

  pub total-insert :
      (weight : V → ℕ) (k : ℕ) (new old : V) (m : SortedMap V)
      → IsSorted m
      → get k m ≡ some old
      → total weight (insert k new m) + weight old ≡ total weight m + weight new
  total-insert weight k new old [] s h = cc
  total-insert weight k new old ((j, w) ∷ m) s h =
      ground (arith, total-insert weight k new old m s.1, get-below k j w m)

  pub total-insert_new :
      (weight : V → ℕ) (k : ℕ) (new : V) (m : SortedMap V)
      → get k m ≡ none
      → total weight (insert k new m) ≡ total weight m + weight new
  total-insert_new weight k new [] h = omega arith
  total-insert_new weight k new ((j, w) ∷ m) h = ground (arith, total-insert_new weight k new m)
