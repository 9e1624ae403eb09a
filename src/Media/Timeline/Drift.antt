-- ===== src/Media/Timeline/Drift.antt =====
-- How far a timeline moves over a run of stamps (crates/media-clock/src/lib.rs).
use silk_studio.Prelude.{
  ℕ, ◌+◌, ◌*◌, ◌^◌, ◌≤◌, ◌<◌, ◌≡◌, ◌⊎◌, refl, sym, subst, true, false, List, [], ◌∷◌, arith,
  Bool-cases, inl, inr, All, length,
}
use silk_studio.Prelude.Int.{ℤ, pos, pos_part, neg_part, ltb_ℤ, ◌-ℤ◌}
use silk_studio.Prelude.Words.{sub_i64, abs_i64, u64_max}
use silk_studio.Media.Timeline.{MediaTimeline, accept, jumps, reject, place_stamp, place_stamps}

-- Less than 2 ^ 60 milliseconds in magnitude, so that neither the offset nor the jump wraps.
abbrev pub IsFar : ℤ → Type 0
IsFar z = (pos_part z < 2 ^ 60) × (neg_part z < 2 ^ 60)

abbrev pub magnitude_of : ℤ → ℕ
magnitude_of z = pos_part z + neg_part z

-- The last accepted stamp has not left what the offset and a stamp in range make.
abbrev pub IsCalibrated : MediaTimeline → Type 0
IsCalibrated tl =
    (2 ≤ tl.accepted_stamps)
    × IsFar tl.offset_shared_ms
    × (pos_part tl.last_shared_ms < 2 ^ 61)
    × (neg_part tl.last_shared_ms < 2 ^ 61)

sub_i64-magnitude :
    (a b : ℤ)
    → pos_part a < 2 ^ 61
    → neg_part a < 2 ^ 61
    → pos_part b < 2 ^ 61
    → neg_part b < 2 ^ 61
    → pos_part (abs_i64 (sub_i64 a b)) ≡ magnitude_of (a -ℤ b)
unfolding abs_i64 sub_i64
sub_i64-magnitude a b ha ha' hb hb' = ground arith

-- Two integers differ by at most n.
abbrev pub Within : ℕ → ℤ → ℤ → Type 0
Within n a b =
    (pos_part a + neg_part b ≤ pos_part b + neg_part a + n)
    × (pos_part b + neg_part a ≤ pos_part a + neg_part b + n)

-- What a stamp or a run of stamps may do to a timeline that is calibrated.
pub record Drifts (m n : ℕ) (before after : MediaTimeline) : Type 0 where
  pub same_offset : after.offset_shared_ms ≡ before.offset_shared_ms
  pub same_jump : after.max_jump_ms ≡ before.max_jump_ms
  pub calibrated : IsCalibrated after
  pub counted : after.accepted_stamps ≡ before.accepted_stamps + n
  pub within : Within (m * n) after.last_shared_ms before.last_shared_ms

not_jumping-Within :
    (m : ℕ) (shared last : ℤ)
    → pos_part shared < 2 ^ 61
    → neg_part shared < 2 ^ 61
    → pos_part last < 2 ^ 61
    → neg_part last < 2 ^ 61
    → ltb_ℤ (pos m) (abs_i64 (sub_i64 shared last)) ≡ false
    → Within m shared last
unfolding abs_i64 sub_i64
not_jumping-Within m shared last hs hs' hl hl' h = ground arith

shared-range :
    (absolute offset : ℤ)
    → IsFar absolute
    → IsFar offset
    → (pos_part (sub_i64 absolute offset) < 2 ^ 61) × (neg_part (sub_i64 absolute offset) < 2 ^ 61)
unfolding sub_i64
shared-range absolute offset ha ho = ground arith

place_stamp-rejected :
    (tl : MediaTimeline) (absolute : ℤ)
    → 2 ≤ tl.accepted_stamps
    → jumps tl (sub_i64 absolute tl.offset_shared_ms) ≡ true
    → place_stamp tl absolute ≡ reject tl (sub_i64 absolute tl.offset_shared_ms)
unfolding place_stamp
place_stamp-rejected tl absolute h j = ground arith

place_stamp-accepted :
    (tl : MediaTimeline) (absolute : ℤ)
    → 2 ≤ tl.accepted_stamps
    → jumps tl (sub_i64 absolute tl.offset_shared_ms) ≡ false
    → place_stamp tl absolute ≡ accept tl (sub_i64 absolute tl.offset_shared_ms)
unfolding place_stamp
place_stamp-accepted tl absolute h j = ground arith

place_stamp-Drifts :
    (m : ℕ) (tl : MediaTimeline) (absolute : ℤ)
    → tl.max_jump_ms ≡ pos m
    → IsCalibrated tl
    → IsFar absolute
    → tl.accepted_stamps < u64_max
    → (Drifts m 0 tl (place_stamp tl absolute).1) ⊎ (Drifts m 1 tl (place_stamp tl absolute).1)
place_stamp-Drifts m tl absolute hm (two, offset, lp, ln) ha room =
    let shared = sub_i64 absolute tl.offset_shared_ms in
    let (sp, sn) = shared-range absolute tl.offset_shared_ms ha offset in
    elim (Bool-cases (jumps tl shared)) [
      | inl j ↦ inl (
          subst (λ r. Drifts m 0 tl r.1) (sym (place_stamp-rejected tl absolute two j))
            (record {
              same_offset = refl;
              same_jump = refl;
              calibrated = (two, offset, lp, ln);
              counted = omega arith;
              within = (omega arith, omega arith);
            }))
      | inr j ↦
          let near =
            not_jumping-Within m shared tl.last_shared_ms sp sn lp ln
              (subst (λ z. ltb_ℤ z (abs_i64 (sub_i64 shared tl.last_shared_ms)) ≡ false) hm j) in
          inr (
            subst (λ r. Drifts m 1 tl r.1) (sym (place_stamp-accepted tl absolute two j))
              (record {
                same_offset = refl;
                same_jump = refl;
                calibrated = (ground arith, offset, sp, sn);
                counted = ground arith;
                within = (omega (arith, near.0, near.1), omega (arith, near.0, near.1));
              }))
    ]

Drifts-trans :
    (m n k : ℕ) (a b c : MediaTimeline) → Drifts m n a b → Drifts m k b c → Drifts m (n + k) a c
Drifts-trans m n k a b c ab bc = record {
  same_offset = cc;
  same_jump = cc;
  calibrated = bc.calibrated;
  counted = omega arith;
  within = (grind (arith, ab.within.0, bc.within.0), grind (arith, ab.within.1, bc.within.1));
}

-- Over any run of stamps, a timeline that has accepted two or more keeps its offset, counts n of
-- them as accepted, and its last shared time moves by no more than n times the allowed jump, which
-- is not negative: a rejected stamp moves nothing. The stamps and the offset are less than 2 ^ 60
-- ms and the last shared time less than 2 ^ 61 ms in magnitude, and the count stays below 2 ^ 64.
pub place_stamps-Drifts :
    (m : ℕ) (tl : MediaTimeline) (stamps : List ℤ)
    → tl.max_jump_ms ≡ pos m
    → IsCalibrated tl
    → All IsFar stamps
    → tl.accepted_stamps + length stamps ≤ u64_max
    → (n : ℕ) × (n ≤ length stamps) × Drifts m n tl (place_stamps tl stamps)
place_stamps-Drifts m tl [] hm cal far room = (
  0,
  omega arith,
  record {
    same_offset = refl;
    same_jump = refl;
    calibrated = cal;
    counted = omega arith;
    within = (omega arith, omega arith);
  },
)
place_stamps-Drifts m tl (absolute ∷ rest) hm cal (far, fars) room =
    let next = (place_stamp tl absolute).1 in
    elim (place_stamp-Drifts m tl absolute hm cal far (omega arith)) [
      | inl still ↦
          let (n, le, d) =
            place_stamps-Drifts m next rest (cc) still.calibrated fars
              (omega (arith, still.counted)) in
          (0 + n, omega arith, Drifts-trans m 0 n tl next (place_stamps next rest) still d)
      | inr moved ↦
          let (n, le, d) =
            place_stamps-Drifts m next rest (cc) moved.calibrated fars
              (omega (arith, moved.counted)) in
          (1 + n, omega arith, Drifts-trans m 1 n tl next (place_stamps next rest) moved d)
    ]
