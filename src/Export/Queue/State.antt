-- ===== src/Export/Queue/State.antt =====
-- The state behind the queue's mutex and the helpers that move entries in it
-- (crates/clip-export/src/queue.rs: `take_active` to `state_snapshot`).

use silk_studio.Prelude.{
  ℕ, Bool, false, List, [], ◌∷◌, ◌++◌, Option, none, some, leb, ◌==◌, if◌then◌else◌, length, drop,
  head?, find, Result, ok, err,
}
use silk_studio.Export.Queue.Job.{
  ExportJob, ExportProgress, ExportStatus, queued, active, ExportJobState, ExportQueueError,
  not_active, Flags, is_cancelled,
}

pub record QueueEntry : Type 0 where
  pub id : ℕ
  pub job : ExportJob
  pub cancellation : ℕ
  pub progress : ExportProgress

pub record QueueState : Type 0 where
  pub next_id : ℕ
  pub active : Option QueueEntry
  pub pending : List QueueEntry
  pub terminal_history : List ExportJobState

abbrev pub has_id : ℕ → QueueEntry → Bool
has_id id entry = entry.id == id

abbrev pub was_id : ℕ → ExportJobState → Bool
was_id id record_of_id = record_of_id.id == id

-- `take_active`: the entry, and the state without it; an error leaves the state as it was.
unfoldable pub take_active : QueueState → ℕ → Result ExportQueueError (QueueEntry × QueueState)
take_active s id = elim s.active [
  | none ↦ err (not_active id)
  | some entry ↦
      if entry.id == id then ok (entry, record s { active = none }) else err (not_active id)
]

-- `promote_next`
unfoldable pub promote_next : QueueState → QueueState
promote_next s = elim s.active [
  | some _ ↦ s
  | none ↦ record s { active = head? s.pending; pending = drop 1 s.pending }
]

abbrev pub snapshot_entry : QueueEntry → ExportStatus → Bool → ExportJobState
snapshot_entry entry status requested = record {
  id = entry.id;
  job = entry.job;
  status = status;
  progress = entry.progress;
  cancellation_requested = requested;
}

-- `push_terminal`: the oldest record makes room once the limit is reached.
unfoldable pub push_terminal : QueueState → QueueEntry → ExportStatus → Bool → ℕ → QueueState
push_terminal s entry status requested limit =
    let kept =
      if leb limit (length s.terminal_history)
      then drop 1 s.terminal_history
      else s.terminal_history in
    if limit == 0
    then s
    else record s { terminal_history = kept ++ snapshot_entry entry status requested ∷ [] }

-- Where an accepted entry goes.
abbrev pub place : QueueEntry → QueueState → QueueState
place entry s = elim s.active [
  | none ↦ record s { active = some entry }
  | some _ ↦ record s { pending = s.pending ++ entry ∷ [] }
]

-- `VecDeque::remove` of the first entry that has the id.
unfoldable pub remove_id : ℕ → List QueueEntry → List QueueEntry
remove_id id [] = []
remove_id id (entry ∷ rest) = if has_id id entry then rest else entry ∷ remove_id id rest

-- `state_snapshot`
unfoldable pub state_snapshot : Flags → QueueState → ℕ → Option ExportJobState
state_snapshot flags s id =
    let waiting : Option ExportJobState = elim (find (has_id id) s.pending) [
      | some entry ↦ some (snapshot_entry entry queued false)
      | none ↦ find (was_id id) s.terminal_history
    ] in
    elim s.active [
      | none ↦ waiting
      | some entry ↦
          if has_id id entry
          then some (snapshot_entry entry active (is_cancelled flags entry.cancellation))
          else waiting
    ]
