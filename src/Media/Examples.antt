-- ===== src/Media/Examples.antt =====
-- Tests of rescaling and of the timeline on the numbers of the crates' own tests, and the theorems
-- applied.
use silk_studio.Prelude.{ℕ, ◌≡◌, ◌≤◌, refl, List, [], ◌∷◌, some, arith, length}
use silk_studio.Prelude.Int.{ℤ, pos, negsuc, ◌*ℤ◌}
use silk_studio.Prelude.Words.{wrap_i64, sub_i64, abs_i64}
use silk_studio.Media.TimeBase.{millisecond, nanosecond, div_trunc, rescale}
use silk_studio.Media.Timeline.{MediaTimeline, place_stamp, place_stamps}
use silk_studio.Media.Timeline.Drift.{Drifts, place_stamps-Drifts}

rescale_test : rescale nanosecond (pos 16_666_667) millisecond ≡ some (pos 16)
unfolding rescale div_trunc ◌*ℤ◌ wrap_i64
rescale_test = refl

truncation_test :
    rescale millisecond (negsuc 1_998) (record { num = pos 1; den = pos 1 }) ≡ some (negsuc 0)
unfolding rescale div_trunc ◌*ℤ◌ wrap_i64
truncation_test = refl

abbrev calibrated : MediaTimeline
calibrated = record {
  time_base = millisecond;
  offset_shared_ms = pos 0;
  accepted_stamps = 2;
  last_shared_ms = pos 1_000;
  max_jump_ms = pos 50;
}

abbrev stamps : List ℤ
stamps = pos 1_040 ∷ pos 1_200 ∷ pos 1_080 ∷ []

stamps_test : (place_stamps calibrated stamps).last_shared_ms ≡ pos 1_080
unfolding place_stamp sub_i64 abs_i64
stamps_test = refl

place_stamps-Drifts_example :
    (n : ℕ) × (n ≤ length stamps) × Drifts 50 n calibrated (place_stamps calibrated stamps)
place_stamps-Drifts_example =
    place_stamps-Drifts 50 calibrated stamps refl (omega arith) (omega arith) (omega arith)
