-- ===== src/Export/Queue/Job.antt =====
-- Jobs, their progress and their observable states (crates/clip-export/src/queue.rs). Paths are
-- carried and never read, so they are texts. A cancellation token is the address of its shared
-- flag.
use Prim.Native.String.{String}
use silk_studio.Prelude.{ℕ, Bool, true, false, List, some, none, ltb, if◌then◌else◌, get_elem?, set}
use silk_studio.Export.Planner.{ExportPlan}

abbrev pub active_job_limit : ℕ
active_job_limit = 1

abbrev pub pending_job_limit : ℕ
pending_job_limit = 2

abbrev pub terminal_history_limit : ℕ
terminal_history_limit = 32

pub record ExportJob : Type 0 where
  pub source_path : String
  pub destination_path : String
  pub plan : ExportPlan

pub data ExportStage : Type 0 where
  preparing encoding probing decoding publishing : ExportStage

pub record ExportProgress : Type 0 where
  pub stage : ExportStage
  pub percent : ℕ

-- `ExportProgress::default`
abbrev pub default_progress : ExportProgress
default_progress = record { stage = preparing; percent = 0 }

-- `ExportProgress::new`
unfoldable pub new_progress : ExportStage → ℕ → ExportProgress
new_progress stage percent = record {
  stage = stage;
  percent = if ltb 100 percent then 100 else percent;
}

pub data ExportStatus : Type 0 where
  queued active completed cancelled : ExportStatus
  failed : (reason : String) → ExportStatus

-- `ExportStatus::is_terminal`
abbrev pub is_terminal : ExportStatus → Bool
is_terminal queued = false
is_terminal active = false
is_terminal completed = true
is_terminal cancelled = true
is_terminal (failed _) = true

pub record ExportJobState : Type 0 where
  pub id : ℕ
  pub job : ExportJob
  pub status : ExportStatus
  pub progress : ExportProgress
  pub cancellation_requested : Bool

pub data CancelOutcome : Type 0 where
  queued_cancelled active_cancellation_requested : CancelOutcome

pub data ExportQueueError : Type 0 where
  queue_full : (active_capacity pending_capacity : ℕ) → ExportQueueError
  busy state_unavailable job_id_exhausted : ExportQueueError
  unknown_job not_active cancellation_requested cancellation_not_requested :
      (id : ℕ) → ExportQueueError

-- The flags behind the tokens that have been made, in the order of their making.
abbrev pub Flags : Type 0
Flags = List Bool

-- `CancellationToken::is_cancelled` and `cancel`
abbrev pub is_cancelled : Flags → ℕ → Bool
is_cancelled flags token = elim (get_elem? flags token) [ none ↦ false | some flag ↦ flag ]

abbrev pub cancel_token : Flags → ℕ → Flags
cancel_token flags token = set flags token true
