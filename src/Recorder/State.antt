-- ===== src/Recorder/State.antt =====
-- Recorder lifecycle states and validated transitions (crates/recorder-engine/src/state.rs), and
-- the one place that changes the state, `RecorderEngine::transition_to` (engine.rs).
pub mod Paths
use silk_studio.Prelude.{
  ℕ, Bool, true, false, not, ◌||◌, List, [], ◌∷◌, ◌==◌, if◌then◌else◌, Result, ok, err, ◌>>=◌, ◌>>◌,
  any,
}

pub data RecorderState : Type 0 where
  stopped starting buffering ready saving degraded recovering error stopping : RecorderState

-- The discriminant that the derived `PartialEq` compares.
abbrev pub discriminant : RecorderState → ℕ
discriminant stopped = 0
discriminant starting = 1
discriminant buffering = 2
discriminant ready = 3
discriminant saving = 4
discriminant degraded = 5
discriminant recovering = 6
discriminant error = 7
discriminant stopping = 8

abbrev pub state_eq : RecorderState → RecorderState → Bool
state_eq s t = discriminant s == discriminant t

unfoldable pub is_active : RecorderState → Bool
is_active s = not (state_eq s stopped)

unfoldable pub can_save : RecorderState → Bool
can_save ready = true
can_save degraded = true
can_save _ = false

pub record InvalidTransition : Type 0 where
  pub from : RecorderState
  pub to : RecorderState

unfoldable pub allowed_transitions : RecorderState → List RecorderState
allowed_transitions stopped = starting ∷ []
allowed_transitions starting = buffering ∷ error ∷ stopping ∷ []
allowed_transitions buffering = ready ∷ degraded ∷ recovering ∷ error ∷ stopping ∷ []
allowed_transitions ready = saving ∷ degraded ∷ recovering ∷ error ∷ stopping ∷ []
allowed_transitions saving = ready ∷ degraded ∷ error ∷ stopping ∷ []
allowed_transitions degraded = ready ∷ saving ∷ recovering ∷ error ∷ stopping ∷ []
allowed_transitions recovering = buffering ∷ ready ∷ degraded ∷ error ∷ stopping ∷ []
allowed_transitions error = starting ∷ stopping ∷ []
allowed_transitions stopping = stopped ∷ []

unfoldable pub validate_transition :
    RecorderState → RecorderState → Result InvalidTransition (Unit {0})
unfolding allowed_transitions
validate_transition from to =
    if any (state_eq to) (allowed_transitions from)
    then ok tt
    else err (record { from = from; to = to })

-- `transition_to`: the new state and the `StateChanged` event that is published for it.
unfoldable pub transition_to :
    RecorderState → RecorderState → Result InvalidTransition (RecorderState × RecorderState)
unfolding validate_transition
transition_to current target = do validate_transition current target; ok (target, target)
