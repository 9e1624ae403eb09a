-- ===== src/Recorder/State/Paths.antt =====
-- What the transition table promises: where saves, stops and recoveries can begin and end, and
-- which states a path must pass through.
use silk_studio.Prelude.{
  Bool, ◌||◌, ◌⊎◌, any, ◌>>=◌, false, ◌≡◌, refl, ◌≢◌, ◌↔◌, true, false, List, [], ◌∷◌, arith,
  Result, ok,
}
use silk_studio.Recorder.State.{
  RecorderState, stopped, starting, buffering, ready, saving, degraded, recovering, error, stopping,
  InvalidTransition, state_eq, transition_to, is_active, can_save, validate_transition,
}

-- One accepted transition.
abbrev pub Step : RecorderState → RecorderState → Type 0
Step s t = validate_transition s t ≡ ok tt

-- The states that are entered one after the other, each by an accepted transition.
pub data Trail (s : RecorderState) : RecorderState → Type 0 where
  here : Trail s s
  next : (t : RecorderState) {u : RecorderState} → Trail s t → Step t u → Trail s u

-- A transition into `saving` is accepted from exactly the states for which `can_save` holds.
pub validate-saving_iff : (s : RecorderState) → Step s saving ↔ (can_save s ≡ true)
unfolding validate_transition can_save
validate-saving_iff stopped = ground arith
validate-saving_iff _ = ground arith

-- A transition into `stopping` is accepted from exactly the active states other than `stopping`.
pub validate-stopping_iff :
    (s : RecorderState) → Step s stopping ↔ ((is_active s ≡ true) × (s ≢ stopping))
unfolding validate_transition is_active
validate-stopping_iff stopped = ground arith
validate-stopping_iff _ = ground arith

abbrev to_buffering : Trail stopped buffering
unfolding validate_transition
to_buffering = next starting (next stopped here refl) refl

abbrev to_ready : Trail stopped ready
unfolding validate_transition
to_ready = next buffering to_buffering refl

abbrev and_stop : (s : RecorderState) → Step s stopping → Trail s stopped
unfolding validate_transition
and_stop s st = next stopping (next s here st) refl

-- From every state an accepted sequence of transitions leads to `stopped`, and from `stopped` one
-- leads to every state.
pub trails_both_ways : (s : RecorderState) → Trail s stopped × Trail stopped s
unfolding validate_transition
trails_both_ways stopped = (here, here)
trails_both_ways starting = (and_stop starting refl, next stopped here refl)
trails_both_ways buffering = (and_stop buffering refl, to_buffering)
trails_both_ways ready = (and_stop ready refl, to_ready)
trails_both_ways saving = (and_stop saving refl, next ready to_ready refl)
trails_both_ways degraded = (and_stop degraded refl, next ready to_ready refl)
trails_both_ways recovering = (and_stop recovering refl, next ready to_ready refl)
trails_both_ways error = (and_stop error refl, next ready to_ready refl)
trails_both_ways stopping = (next stopping here refl, next ready to_ready refl)

-- The targets of a session, requested in turn from a state; the first that is refused ends it.
unfoldable pub run_targets :
    RecorderState → List RecorderState → Result InvalidTransition RecorderState
unfolding transition_to
run_targets s [] = ok s
run_targets s (t ∷ ts) = transition_to s t >>= λ (s', _). run_targets s' ts

-- The states that can be entered before any media has been buffered.
unfoldable pub is_early : RecorderState → Bool
is_early s = state_eq s stopped || state_eq s starting || state_eq s error || state_eq s stopping

early-Step :
    (s t : RecorderState)
    → is_early s ≡ true
    → Step s t
    → (state_eq buffering t ≡ true) ⊎ (is_early t ≡ true)
unfolding is_early validate_transition
early-Step stopped t h st = ground arith
early-Step _ t h st = ground arith

late_needs_buffering :
    (s u : RecorderState) (ts : List RecorderState)
    → is_early s ≡ true
    → run_targets s ts ≡ ok u
    → is_early u ≡ false
    → any (state_eq buffering) ts ≡ true
unfolding run_targets
late_needs_buffering s u [] early run late = ground arith
late_needs_buffering s u (t ∷ ts) early run late =
    ground (arith, early-Step s t early, late_needs_buffering t u ts)

-- A session that begins stopped and is past the early states (buffering, ready, saving, degraded or
-- recovering) has gone through `buffering`.
pub run_targets-buffering :
    (u : RecorderState) (ts : List RecorderState)
    → run_targets stopped ts ≡ ok u
    → is_early u ≡ false
    → any (state_eq buffering) ts ≡ true
unfolding is_early
run_targets-buffering u ts run late = late_needs_buffering stopped u ts refl run late
