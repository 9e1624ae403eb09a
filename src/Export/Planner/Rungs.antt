-- ===== src/Export/Planner/Rungs.antt =====
-- Which rung of a ladder a plan takes.
use silk_studio.Prelude.{
  ◌≤◌, ◌<◌, ◌≡◌, ◌⊎◌, ap, subst, true, false, List, [], ◌∷◌, ◌++◌, some, arith, All, ok, Bool-cases,
  inl, inr,
}
use silk_studio.Export.Planner.Request.{PlannerRequest, VideoSource, VideoRung, IsInRange, source}
use silk_studio.Export.Planner.{
  ExportPlan, select_rung, supports_no_upscale, default_video_ladder, plan,
}
use silk_studio.Export.Planner.Budget.{plan-select_rung}

-- The ladder splits at the rung: none before it is supported, and it is.
pub record IsFirst (ladder : List VideoRung) (s : VideoSource) (rung : VideoRung) : Type 0 where
  pub before : List VideoRung
  pub after : List VideoRung
  pub splits : ladder ≡ before ++ rung ∷ after
  pub refused : All (λ x. supports_no_upscale x s ≡ false) before
  pub taken : supports_no_upscale rung s ≡ true

select_rung-IsFirst :
    (ladder : List VideoRung) (s : VideoSource) {rung : VideoRung}
    → select_rung ladder s ≡ some rung
    → IsFirst ladder s rung
unfolding select_rung
select_rung-IsFirst [] s h = cc
select_rung-IsFirst (x ∷ xs) s {rung} h = elim (Bool-cases (supports_no_upscale x s)) [
  | inl yes_x ↦ record {
    before = [];
    after = xs;
    splits = ground arith;
    refused = tt;
    taken = ground arith;
  }
  | inr no_x ↦
      let rest = select_rung-IsFirst xs s {rung = rung} (ground arith) in
      record {
        before = x ∷ rest.before;
        after = rest.after;
        splits = ap (◌∷◌ x) rest.splits;
        refused = (no_x, rest.refused);
        taken = rest.taken;
      }
]

-- For a request whose fields are in the range of their types, a returned plan takes the first rung
-- of the ladder that does not upscale the source.
pub plan-IsFirst :
    (ladder : List VideoRung) (r : PlannerRequest) {p : ExportPlan}
    → IsInRange r
    → plan ladder r ≡ ok p
    → IsFirst ladder (source r) p.rung
plan-IsFirst ladder r v h = select_rung-IsFirst ladder (source r) (plan-select_rung ladder r v h)

-- One rung is at least as large as another in each dimension, and at equal width as fast.
abbrev pub Dominates : VideoRung → VideoRung → Type 0
Dominates a b =
    (b.width ≤ a.width) × (b.height ≤ a.height) × ((b.width < a.width) ⊎ (b.fps ≤ a.fps))

abbrev pub IsDescending : List VideoRung → Type 0
IsDescending [] = Unit
IsDescending (x ∷ xs) = All (Dominates x) xs × IsDescending xs

-- What the first supported rung of a descending ladder dominates.
abbrev pub IsBest : VideoSource → VideoRung → List VideoRung → Type 0
IsBest s rung = All (λ x. (supports_no_upscale x s ≡ false) ⊎ Dominates rung x)

dominated :
    (s : VideoSource) (x : VideoRung) (xs : List VideoRung) → All (Dominates x) xs → IsBest s x xs
dominated s x [] h = tt
dominated s x (y ∷ ys) h = (inr h.0, dominated s x ys h.1)

select_rung-IsBest :
    (ladder : List VideoRung) (s : VideoSource) {rung : VideoRung}
    → IsDescending ladder
    → select_rung ladder s ≡ some rung
    → IsBest s rung ladder
unfolding select_rung
select_rung-IsBest [] s d h = tt
select_rung-IsBest (x ∷ xs) s {rung} d h = elim (Bool-cases (supports_no_upscale x s)) [
  | inl yes_x ↦
      let e : x ≡ rung = ground arith in
      subst (λ y. IsBest s y (x ∷ xs)) e
        (inr (omega arith, omega arith, inr (omega arith)), dominated s x xs d.0)
  | inr no_x ↦ (inl no_x, select_rung-IsBest xs s d.1 (ground arith))
]

default_video_ladder-IsDescending : IsDescending default_video_ladder
default_video_ladder-IsDescending = ground arith

-- For a request whose fields are in the range of their types, a plan with the built-in ladder takes
-- a rung that no other rung which the source supports exceeds in width or height, nor in frame rate
-- at the same width.
pub default_plan-IsBest :
    (r : PlannerRequest) {p : ExportPlan}
    → IsInRange r
    → plan default_video_ladder r ≡ ok p
    → IsBest (source r) p.rung default_video_ladder
default_plan-IsBest r v h =
    select_rung-IsBest default_video_ladder (source r) default_video_ladder-IsDescending
      (plan-select_rung default_video_ladder r v h)
