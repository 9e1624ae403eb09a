-- ===== src/AudioSync/Synchronizer/Based.antt =====
-- Timelines whose time base has a denominator, which `to_shared` never divides by zero with.

use silk_studio.Prelude.{
  ◌⊎◌, ◌≡◌, ◌≢◌, refl, sym, ap, ◌∙◌, false, not, same, ◌/◌, Option, none, some, arith, ◌==◌,
}
use silk_studio.Prelude.Int.{ℤ, pos, ◌*ℤ◌}
use silk_studio.Prelude.Words.{wrap_i64}
use silk_studio.Media.TimeBase.{
  TimeBase, magnitude, millisecond, rescale, div_trunc, with_sign, is_negative,
}
use silk_studio.Media.Timeline.{MediaTimeline, Stamped, to_shared, place_stamp}
use silk_studio.AudioSync.Synchronizer.{AudioSynchronizer}

-- A state whose timeline has a denominator, if there is one.
abbrev pub HasBase : Option MediaTimeline → Type 0
HasBase none = ⊥
HasBase (some tl) = magnitude tl.time_base.den ≢ 0

abbrev pub IsBased : {F : Type 0} → AudioSynchronizer F → Type 0
IsBased a = (a.source_time_base ≡ none) ⊎ HasBase a.timeline

div_trunc-some : (a b : ℤ) → magnitude b ≢ 0 → (q : ℤ) × (div_trunc a b ≡ some q)
unfolding div_trunc
div_trunc-some a b h =
    let nonzero : (magnitude b == 0) ≡ false = ground arith in
    (
      with_sign (not (same (is_negative a) (is_negative b))) (magnitude a / magnitude b),
      rw nonzero refl,
    )

times_one : (a : ℤ) → magnitude (a *ℤ pos 1) ≡ magnitude a
unfolding ◌*ℤ◌
times_one a = ground arith

rescale_based :
    (tb : TimeBase) (value : ℤ)
    → magnitude tb.den ≢ 0
    → (q : ℤ) × (rescale tb value millisecond ≡ some q)
unfolding rescale
rescale_based tb value h =
    let nonzero : magnitude (tb.den *ℤ pos 1) ≢ 0 = λ e. h (sym (times_one tb.den) ∙ e) in
    let (q, e) = div_trunc-some (value *ℤ tb.num *ℤ pos 1000) (tb.den *ℤ pos 1) nonzero in
    (
      wrap_i64 q,
      ap (λ (o : Option ℤ). elim o [ none ↦ none | some quotient ↦ some (wrap_i64 quotient) ]) e,
    )

place_stamp_base : (tl : MediaTimeline) (q : ℤ) → (place_stamp tl q).1.time_base ≡ tl.time_base
unfolding place_stamp
place_stamp_base tl q = ground arith

pub to_shared_based :
    (tl : MediaTimeline) (ticks : ℤ)
    → magnitude tl.time_base.den ≢ 0
    → (s : Stamped) × (to_shared tl ticks ≡ some s) × (s.1.time_base ≡ tl.time_base)
unfolding to_shared
to_shared_based tl ticks h =
    let (q, e) = rescale_based tl.time_base ticks h in
    (
      place_stamp tl q,
      ap (λ (o : Option ℤ). elim o [ none ↦ none | some absolute ↦ some (place_stamp tl absolute) ])
          e,
      place_stamp_base tl q,
    )
