-- ===== src/Media/Timeline.antt =====
-- Conversion of source timestamps into the shared timeline (crates/media-clock/src/lib.rs). The
-- clock itself is not modelled: nothing here reads it.
pub mod Drift
use silk_studio.Prelude.{
  ℕ, ◌+◌, ◌*◌, ◌^◌, ◌≤◌, ◌<◌, ◌≡◌, ◌⊎◌, refl, sym, subst, Bool, true, false, List, [], ◌∷◌, Option,
  none, some, arith, leb, ◌==◌, if◌then◌else◌, Bool-cases, inl, inr, Result, ok, err, All, length,
}
use silk_studio.Prelude.Int.{ℤ, pos, pos_part, neg_part, ltb_ℤ, ◌-ℤ◌}
use silk_studio.Prelude.Words.{add_u64, sub_i64, abs_i64, u64_max}
use silk_studio.Media.TimeBase.{TimeBase, millisecond, rescale}

pub record Discontinuity : Type 0 where
  pub previous_shared_ms : ℤ
  pub next_shared_ms : ℤ
  pub jump_ms : ℤ
  pub allowed_ms : ℤ

pub record MediaTimeline : Type 0 where
  pub time_base : TimeBase
  pub offset_shared_ms : ℤ
  pub accepted_stamps : ℕ
  pub last_shared_ms : ℤ
  pub max_jump_ms : ℤ

-- `MediaTimeline::new`
abbrev pub new_timeline : TimeBase → ℤ → MediaTimeline
new_timeline time_base max_jump_ms = record {
  time_base = time_base;
  offset_shared_ms = pos 0;
  accepted_stamps = 0;
  last_shared_ms = pos 0;
  max_jump_ms = max_jump_ms;
}

abbrev pub Stamped : Type 0
Stamped = Result Discontinuity ℤ × MediaTimeline

abbrev pub accept : MediaTimeline → ℤ → Stamped
accept tl shared = (
  ok shared,
  record tl { accepted_stamps = add_u64 tl.accepted_stamps 1; last_shared_ms = shared },
)

abbrev pub jumps : MediaTimeline → ℤ → Bool
jumps tl shared = ltb_ℤ tl.max_jump_ms (abs_i64 (sub_i64 shared tl.last_shared_ms))

abbrev pub reject : MediaTimeline → ℤ → Stamped
reject tl shared = (
  err (record {
    previous_shared_ms = tl.last_shared_ms;
    next_shared_ms = shared;
    jump_ms = sub_i64 shared tl.last_shared_ms;
    allowed_ms = tl.max_jump_ms;
  }),
  tl,
)

-- `to_shared` after the stamp is rescaled.
unfoldable pub place_stamp : MediaTimeline → ℤ → Stamped
place_stamp tl absolute =
    if tl.accepted_stamps == 0
    then (
      ok (pos 0),
      record tl { offset_shared_ms = absolute; accepted_stamps = 1; last_shared_ms = pos 0 },
    )
    else (let shared = sub_i64 absolute tl.offset_shared_ms in
        if leb 2 tl.accepted_stamps
        then (if jumps tl shared then reject tl shared else accept tl shared)
        else accept tl shared)

-- `to_shared`; `none` is the panic of `rescale` on a time base with a zero numerator of the target
-- or denominator.
unfoldable pub to_shared : MediaTimeline → ℤ → Option Stamped
to_shared tl source_ticks = elim (rescale tl.time_base source_ticks millisecond) [
  | none ↦ none
  | some absolute ↦ some (place_stamp tl absolute)
]

-- The timeline after a run of stamps that are rescaled already.
abbrev pub place_stamps : MediaTimeline → List ℤ → MediaTimeline
place_stamps tl [] = tl
place_stamps tl (absolute ∷ rest) = place_stamps (place_stamp tl absolute).1 rest
