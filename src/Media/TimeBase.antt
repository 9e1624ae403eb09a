-- ===== src/Media/TimeBase.antt =====
-- Rational time bases and the rescaling between them (crates/media-types/src/time_base.rs). The
-- `i32` fields and `i64` values are integers; the products are formed in `i128`, whose range they
-- cannot leave, and the quotient is cut to `i64`.
use silk_studio.Prelude.{
  ℕ, ◌+◌, ◌-◌, ◌/◌, Bool, not, ◌&&◌, Option, none, some, ◌==◌, if◌then◌else◌, ltb, same,
}
use silk_studio.Prelude.Int.{ℤ, pos, negsuc, pos_part, neg_part, ◌*ℤ◌, ltb_ℤ, eqb_ℤ}
use silk_studio.Prelude.Words.{wrap_i64}

pub record TimeBase : Type 0 where
  pub num : ℤ
  pub den : ℤ

abbrev pub millisecond : TimeBase
millisecond = record { num = pos 1; den = pos 1000 }

abbrev pub microsecond : TimeBase
microsecond = record { num = pos 1; den = pos 1_000_000 }

abbrev pub nanosecond : TimeBase
nanosecond = record { num = pos 1; den = pos 1_000_000_000 }

-- The derived `PartialEq`.
abbrev pub time_base_eq : TimeBase → TimeBase → Bool
time_base_eq a b = eqb_ℤ a.num b.num && eqb_ℤ a.den b.den

-- `TimeBase::new`; `none` is the failed assertion.
abbrev pub new : ℤ → ℤ → Option TimeBase
new num den =
    if ltb_ℤ (pos 0) num && ltb_ℤ (pos 0) den then some (record { num = num; den = den }) else none

abbrev pub magnitude : ℤ → ℕ
magnitude z = pos_part z + neg_part z

abbrev pub is_negative : ℤ → Bool
is_negative z = ltb 0 (neg_part z)

abbrev pub with_sign : Bool → ℕ → ℤ
with_sign negative n = if negative && ltb 0 n then negsuc (n - 1) else pos n

-- Rust's `/` on signed integers, toward zero; `none` is the panic of a division by zero.
unfoldable pub div_trunc : ℤ → ℤ → Option ℤ
div_trunc a b =
    if magnitude b == 0
    then none
    else some (with_sign (not (same (is_negative a) (is_negative b))) (magnitude a / magnitude b))

-- `TimeBase::rescale`
unfoldable pub rescale : TimeBase → ℤ → TimeBase → Option ℤ
rescale from value target =
    elim (div_trunc (value *ℤ from.num *ℤ target.den) (from.den *ℤ target.num)) [
      | none ↦ none
      | some quotient ↦ some (wrap_i64 quotient)
    ]
