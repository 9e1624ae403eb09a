-- ===== src/Prelude/Text/Number.antt =====
-- Parsing into a narrower type, and the digits that a parsed text is made of.
use silk_studio.Prelude.Text.{Text, is_ascii_digit, read_digits, parse_unsigned, Lacks}
use Prim.Native.Nat.{ℕ, ◌+◌, ◌-◌, ◌*◌, ◌≤◌}
use mathlib.Core.Path.{◌≡◌}
use mathlib.Core.Bool.{true}
use mathlib.Core.List.{[], ◌∷◌}
use mathlib.Core.Option.{some}
use native.Mathlib.Omega.{arith}
use silk_studio.Prelude.Lists.{All}

-- The number grows with each digit.
read_digits-ge :
    (greatest so_far : ℕ) (s : Text) {n : ℕ} → read_digits greatest so_far s ≡ some n → so_far ≤ n
read_digits-ge greatest so_far [] h = ground arith
read_digits-ge greatest so_far (c ∷ s) {n} h =
    ground (arith, read_digits-ge greatest (so_far * 10 + (c - b'0')) s {n = n})

read_digits_narrow :
    (greatest other so_far : ℕ) (s : Text) {n : ℕ}
    → n ≤ other
    → read_digits greatest so_far s ≡ some n
    → read_digits other so_far s ≡ some n
read_digits_narrow greatest other so_far [] fits h = h
read_digits_narrow greatest other so_far (c ∷ s) {n = n} fits h = ground (
  arith,
  read_digits-ge greatest (so_far * 10 + (c - b'0')) s {n = n},
  read_digits_narrow greatest other (so_far * 10 + (c - b'0')) s {n = n} fits,
)

-- A number that fits another type is read the same into it.
pub parse_unsigned_narrow :
    (greatest other : ℕ) (s : Text) {n : ℕ}
    → n ≤ other
    → parse_unsigned greatest s ≡ some n
    → parse_unsigned other s ≡ some n
parse_unsigned_narrow greatest other [] fits h = cc
parse_unsigned_narrow greatest other (c ∷ []) {n = n} fits h =
    ground (arith, read_digits_narrow greatest other 0 (c ∷ []) {n = n} fits)
parse_unsigned_narrow greatest other (c ∷ d ∷ s) {n = n} fits h = ground (
  arith,
  read_digits_narrow greatest other 0 (d ∷ s) {n = n} fits,
  read_digits_narrow greatest other 0 (c ∷ d ∷ s) {n = n} fits,
)

abbrev pub Digits : Text → Type 0
Digits = All (λ c. is_ascii_digit c ≡ true)

read_digits-Digits :
    (greatest so_far : ℕ) (s : Text) {n : ℕ} → read_digits greatest so_far s ≡ some n → Digits s
read_digits-Digits greatest so_far [] h = tt
read_digits-Digits greatest so_far (c ∷ s) {n} h =
    ground (arith, read_digits-Digits greatest (so_far * 10 + (c - b'0')) s {n = n})

-- What parses without a sign is digits.
pub parse_unsigned-Digits :
    (greatest : ℕ) (s : Text) {n : ℕ} → Lacks b'+' s → parse_unsigned greatest s ≡ some n → Digits s
parse_unsigned-Digits greatest [] lacks h = tt
parse_unsigned-Digits greatest (c ∷ []) {n} lacks h =
    ground (arith, read_digits-Digits greatest 0 (c ∷ []) {n = n})
parse_unsigned-Digits greatest (c ∷ d ∷ s) {n} lacks h =
    ground (arith, read_digits-Digits greatest 0 (c ∷ d ∷ s) {n = n}, lacks.0)
