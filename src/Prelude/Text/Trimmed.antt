-- ===== src/Prelude/Text/Trimmed.antt =====
-- Trimming and upper case: what they leave alone, and what they keep.
use silk_studio.Prelude.Text.{
  Text, upper, to_ascii_uppercase, is_whitespace, trim_start, trim_end, trim, Lacks,
}
use Prim.Native.Nat.{ℕ}
use mathlib.Core.Path.{◌≡◌, refl}
use mathlib.Core.Logic.{◌≢◌}
use mathlib.Core.Bool.{false}
use mathlib.Core.List.{[], ◌∷◌}
use native.Mathlib.Omega.{arith}
use silk_studio.Prelude.Tests.{◌==◌}
use silk_studio.Prelude.Lists.{All, any}

abbrev pub Visible : Text → Type 0
Visible = All (λ c. is_whitespace c ≡ false)

-- Both predicates by a test, for a text that is given.
pub any-Visible : (s : Text) → any is_whitespace s ≡ false → Visible s
any-Visible [] h = tt
any-Visible (c ∷ s) h = (ground arith, any-Visible s (ground arith))

pub any-Lacks : (sep : ℕ) (s : Text) → any (λ c. c == sep) s ≡ false → Lacks sep s
any-Lacks sep [] h = tt
any-Lacks sep (c ∷ s) h = (ground arith, any-Lacks sep s (ground arith))

trim_end-Visible : (s : Text) → Visible s → trim_end s ≡ s
trim_end-Visible [] h = refl
trim_end-Visible (c ∷ s) (h, hs) = ground (arith, trim_end-Visible s hs)

trim_start-Visible : (s : Text) → Visible s → trim_start s ≡ s
trim_start-Visible [] h = refl
trim_start-Visible (c ∷ s) (h, hs) = ground arith

-- A text without white space is trimmed already.
pub trim-Visible : (s : Text) → Visible s → trim s ≡ s
trim-Visible s h = rw (trim_start-Visible s h) (trim_end-Visible s h)

pub upper-upper : (c : ℕ) → upper (upper c) ≡ upper c
unfolding upper
upper-upper c = ground arith

pub to_ascii_uppercase_idem :
    (s : Text) → to_ascii_uppercase (to_ascii_uppercase s) ≡ to_ascii_uppercase s
to_ascii_uppercase_idem [] = refl
to_ascii_uppercase_idem (c ∷ s) = cc (upper-upper c, to_ascii_uppercase_idem s)

module _ (sep : ℕ) where
  trim_start-Lacks : (s : Text) → Lacks sep s → Lacks sep (trim_start s)
  trim_start-Lacks [] h = tt
  trim_start-Lacks (c ∷ s) (h, hs) = ground (arith, trim_start-Lacks s hs)

  trim_end-Lacks : (s : Text) → Lacks sep s → Lacks sep (trim_end s)
  trim_end-Lacks [] h = tt
  trim_end-Lacks (c ∷ s) (h, hs) = ground (arith, trim_end-Lacks s hs)

  pub trim-Lacks : (s : Text) → Lacks sep s → Lacks sep (trim s)
  trim-Lacks s h = trim_end-Lacks (trim_start s) (trim_start-Lacks s h)

-- Upper case makes no plus sign.
upper_plus : (c : ℕ) → c ≢ b'+' → upper c ≢ b'+'
unfolding upper
upper_plus c h = ground arith

pub to_ascii_uppercase-Lacks : (s : Text) → Lacks b'+' s → Lacks b'+' (to_ascii_uppercase s)
to_ascii_uppercase-Lacks [] h = tt
to_ascii_uppercase-Lacks (c ∷ s) (h, hs) = (upper_plus c h, to_ascii_uppercase-Lacks s hs)
