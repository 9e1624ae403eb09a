-- ===== src/Prelude/Text/Split.antt =====
-- Splitting a joined text.
use silk_studio.Prelude.Text.{Text, split, join, before_first, Lacks}
use Prim.Native.Nat.{ℕ}
use mathlib.Core.Path.{◌≡◌, refl}
use mathlib.Core.Logic.{◌≢◌, inl, inr}
use mathlib.Core.List.{List, [], ◌∷◌, ◌++◌}
use native.Mathlib.Omega.{arith}
use silk_studio.Prelude.Tests.{Bool-cases, ◌==◌}
use silk_studio.Prelude.Lists.{All, All-append}

module _ (sep : ℕ) where
  split_char : (c : ℕ) (s : Text) → c ≢ sep → split sep (c ∷ s) ≡ before_first c (split sep s)
  split_char c s h = ground arith

  pub split_plain : (s : Text) → Lacks sep s → split sep s ≡ s ∷ []
  split_plain [] h = refl
  split_plain (c ∷ s) (h, hs) = rw (split_char c s h, split_plain s hs) refl

  pub split-append :
      (part rest : Text) → Lacks sep part → split sep (part ++ sep ∷ rest) ≡ part ∷ split sep rest
  split-append [] rest h = ground arith
  split-append (c ∷ part) rest (h, hs) =
      rw (split_char c (part ++ sep ∷ rest) h, split-append part rest hs) refl

  -- Splitting a join gives the parts back, if there is a part and none holds the separator.
  pub split-join :
      (part : Text) (parts : List Text)
      → All (Lacks sep) (part ∷ parts)
      → split sep (join sep (part ∷ parts)) ≡ part ∷ parts
  split-join part [] (h, _) = split_plain part h
  split-join part (next ∷ parts) (h, hs) =
      rw (split-append part (join sep (next ∷ parts)) h, split-join next parts hs) refl

  before_first-Lacks :
      (c : ℕ) (parts : List Text)
      → c ≢ sep
      → All (Lacks sep) parts
      → All (Lacks sep) (before_first c parts)
  before_first-Lacks c [] h hs = ((h, tt), tt)
  before_first-Lacks c (part ∷ parts) h (hp, hs) = ((h, hp), hs)

  -- No part of a split text holds the separator.
  pub split-Lacks : (s : Text) → All (Lacks sep) (split sep s)
  split-Lacks [] = (tt, tt)
  split-Lacks (c ∷ s) = elim (Bool-cases (c == sep)) [
    | inl here ↦ rw here (tt, split-Lacks s)
    | inr elsewhere ↦
        rw elsewhere (before_first-Lacks c (split sep s) (ground arith) (split-Lacks s))
  ]

  pub join-All {κ} :
      (holds : ℕ → Type κ) (parts : List Text)
      → holds sep
      → All (All holds) parts
      → All holds (join sep parts)
  join-All holds [] h hs = tt
  join-All holds (part ∷ []) h (hp, _) = hp
  join-All holds (part ∷ next ∷ parts) h (hp, hs) =
      All-append holds part (sep ∷ join sep (next ∷ parts)) hp
        (h, join-All holds (next ∷ parts) h hs)
