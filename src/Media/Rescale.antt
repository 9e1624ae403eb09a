-- ===== src/Media/Rescale.antt =====
-- When rescaling between time bases loses nothing (crates/media-types/src/time_base.rs).
use silk_studio.Prelude.{ℕ, suc, ◌*◌, ◌/◌, ◌<◌, ◌≡◌, ap, ◌∙◌, some, arith}
use silk_studio.Prelude.Int.{ℤ, pos, negsuc, pos_part, neg_part, ◌*ℤ◌, eq_of_parts}
use silk_studio.Prelude.Words.{FitsI64, wrap_i64-eq_of_fits}
use silk_studio.Media.TimeBase.{TimeBase, millisecond, div_trunc, rescale}

-- A base whose unit is a k-th of a millisecond.
abbrev pub finer : ℕ → TimeBase
finer k = record { num = pos 1; den = pos (1000 * k) }

-- k times an integer.
abbrev scaled : ℕ → ℤ → ℤ
scaled k z = z *ℤ pos k

div_cancel : (n k : ℕ) → 0 < k → (n * k) / k ≡ n
div_cancel n k h = grind arith

div_trunc-exact : (z : ℤ) (k : ℕ) → 0 < k → div_trunc (z *ℤ pos k) (pos k) ≡ some z
unfolding div_trunc ◌*ℤ◌
div_trunc-exact (pos n) k h = grind (arith, div_cancel n k h)
div_trunc-exact (negsuc n) k h = grind (arith, div_cancel (suc n) k h)

pos_part-scaled : (z : ℤ) (k : ℕ) → pos_part (z *ℤ pos k) ≡ pos_part z * k
unfolding ◌*ℤ◌
pos_part-scaled (pos n) k = grind arith
pos_part-scaled (negsuc n) k = grind arith

neg_part-scaled : (z : ℤ) (k : ℕ) → neg_part (z *ℤ pos k) ≡ neg_part z * k
unfolding ◌*ℤ◌
neg_part-scaled (pos n) k = grind arith
neg_part-scaled (negsuc n) k = grind arith

scaled-scaled : (z : ℤ) (a b : ℕ) → z *ℤ pos a *ℤ pos b ≡ z *ℤ pos (a * b)
scaled-scaled z a b = eq_of_parts (z *ℤ pos a *ℤ pos b) (z *ℤ pos (a * b)) (
    rw
      (
        pos_part-scaled (z *ℤ pos a) b,
        pos_part-scaled z a,
        neg_part-scaled (z *ℤ pos a) b,
        neg_part-scaled z a,
        pos_part-scaled z (a * b),
        neg_part-scaled z (a * b),
      )
      (grind arith))

-- A rescaling whose quotient is exact.
rescale-exact :
    (from target : TimeBase) (value q : ℤ) (d : ℕ)
    → 0 < d
    → from.den *ℤ target.num ≡ pos d
    → value *ℤ from.num *ℤ target.den ≡ q *ℤ pos d
    → FitsI64 q
    → rescale from value target ≡ some q
unfolding rescale
rescale-exact from target value q d hd below above fits =
    let exact = div_trunc-exact q d hd in
    let wrapped = wrap_i64-eq_of_fits q fits in
    let quotient : div_trunc (value *ℤ from.num *ℤ target.den) (from.den *ℤ target.num) ≡ some q =
      ap (λ n. div_trunc n (from.den *ℤ target.num)) above
      ∙ ap (div_trunc (q *ℤ pos d)) below
      ∙ exact in
    ground arith

one_pos : (k : ℕ) → pos k *ℤ pos 1 ≡ pos k
unfolding ◌*ℤ◌
one_pos k = ground arith

-- From milliseconds to a base whose unit is a k-th of one, k positive, rescaling multiplies by k,
-- and rescaling back returns the value, where it and its multiple are within `i64`.
pub rescale_roundtrip :
    (k : ℕ) (z : ℤ)
    → 0 < k
    → FitsI64 z
    → FitsI64 (z *ℤ pos k)
    → (rescale millisecond z (finer k) ≡ some (z *ℤ pos k))
      × (rescale (finer k) (z *ℤ pos k) millisecond ≡ some z)
rescale_roundtrip k z hk hz fits = (
  rescale-exact millisecond (finer k) z (z *ℤ pos k) 1000 (omega arith) (one_pos 1000)
      (rw (scaled-scaled z 1 (1000 * k), scaled-scaled z k 1000)
        (ap (λ n. z *ℤ pos n) (omega arith)))
      fits,
  rescale-exact (finer k) millisecond (z *ℤ pos k) z (1000 * k) (grind arith) (one_pos (1000 * k))
      (rw (scaled-scaled (z *ℤ pos k) 1 1000, scaled-scaled z k (1 * 1000))
        (ap (λ n. z *ℤ pos n) (omega arith)))
      hz,
)
