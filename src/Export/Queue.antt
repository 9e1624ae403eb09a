-- ===== src/Export/Queue.antt =====
-- The bounded export queue (crates/clip-export/src/queue.rs). The state behind the mutex, the two
-- fields beside it and the flags of the cancellation tokens, which workers share, are one record;
-- an operation takes what `try_lock` answers, and returns its result with the new record.
pub mod Job
pub mod State
pub mod Calls
pub mod Listed
pub mod Invariant
pub mod Bounds
pub mod Fifo
use Prim.Native.String.{String}
use silk_studio.Prelude.{
  ℕ, ◌+◌, Bool, true, false, not, ◌&&◌, List, [], ◌∷◌, ◌++◌, Option, none, some, is_some, ltb, leb,
  ◌==◌, if◌then◌else◌, length, drop, head?, same, find, any, Result, ok, err, ◌>>=◌, ◌>>◌, map,
}
use silk_studio.Prelude.Words.{u64_max}
use Job.{
  ExportJob, ExportProgress, default_progress, new_progress, ExportStatus, queued, active,
  completed, cancelled, failed, ExportJobState, CancelOutcome, queued_cancelled,
  active_cancellation_requested, ExportQueueError, queue_full, busy, state_unavailable,
  job_id_exhausted, unknown_job, not_active, cancellation_requested, cancellation_not_requested,
  Flags, is_cancelled, cancel_token, active_job_limit, pending_job_limit,
}
use State.{
  QueueEntry, QueueState, has_id, was_id, take_active, promote_next, snapshot_entry, push_terminal,
  place, remove_id,
}

pub record ExportQueue : Type 0 where
  pub state : QueueState
  pub open state use *
  pub terminal_history_limit : ℕ
  pub worker_claimed : Bool
  pub flags : Flags

-- `ExportQueue::with_terminal_history_limit`
abbrev pub with_terminal_history_limit : ℕ → ExportQueue
with_terminal_history_limit limit = record {
  state = record { next_id = 1; active = none; pending = []; terminal_history = [] };
  terminal_history_limit = limit;
  worker_claimed = false;
  flags = [];
}

-- What `Mutex::try_lock` answers.
pub data TryLock : Type 0 where
  acquired would_block poisoned : TryLock

-- `try_state`
abbrev pub try_state : TryLock → Result ExportQueueError (Unit {0})
try_state acquired = ok tt
try_state would_block = err busy
try_state poisoned = err state_unavailable

abbrev pub Outcome : Type 0 → Type 0
Outcome A = Result ExportQueueError A × ExportQueue

-- An operation that returns early when the lock is not had.
abbrev pub locked : {A : Type 0} → TryLock → (ExportQueue → Outcome A) → ExportQueue → Outcome A
locked lock body q = elim (try_state lock) [ ok _ ↦ body q | err e ↦ (err e, q) ]

-- The entry that `submit` makes, with a token of its own.
abbrev pub new_entry : ExportJob → ExportQueue → QueueEntry
new_entry job q = record {
  id = q.next_id;
  job = job;
  cancellation = length q.flags;
  progress = default_progress;
}

-- `submit` under the lock. `checked_add` fails at the last id only.
unfoldable pub submit_locked : ExportJob → ExportQueue → Outcome ℕ
submit_locked job q =
    if is_some q.active && leb pending_job_limit (length q.pending)
    then (err (queue_full active_job_limit pending_job_limit), q)
    else if leb u64_max q.next_id
    then (err job_id_exhausted, q)
    else (
      ok q.next_id,
      record q {
        state = place (new_entry job q) (record q.state { next_id = q.next_id + 1 });
        flags = q.flags ++ false ∷ [];
      },
    )

abbrev pub submit : TryLock → ExportJob → ExportQueue → Outcome ℕ
submit lock job = locked lock (submit_locked job)

-- `cancel` of a job that is not the active one.
unfoldable pub cancel_waiting : ℕ → ExportQueue → Outcome CancelOutcome
cancel_waiting id q = elim (find (has_id id) q.pending) [
  | some entry ↦ (
    ok queued_cancelled,
    record q {
      state =
          push_terminal (record q.state { pending = remove_id id q.pending }) entry cancelled true
            q.terminal_history_limit;
      flags = cancel_token q.flags entry.cancellation;
    },
  )
  | none ↦
      if any (was_id id) q.terminal_history
      then (err (not_active id), q)
      else (err (unknown_job id), q)
]

-- `cancel` under the lock.
unfoldable pub cancel_locked : ℕ → ExportQueue → Outcome CancelOutcome
cancel_locked id q = elim q.active [
  | none ↦ cancel_waiting id q
  | some entry ↦
      if has_id id entry
      then (
        ok active_cancellation_requested,
        record q { flags = cancel_token q.flags entry.cancellation },
      )
      else cancel_waiting id q
]

abbrev pub cancel : TryLock → ℕ → ExportQueue → Outcome CancelOutcome
cancel lock id = locked lock (cancel_locked id)

-- The end of the active job, once it has been taken: `complete`, `fail` and `finish_cancelled`
-- differ in the flag that they want, the error when it is not so, and the status that they record.
unfoldable pub settle :
    (wanted : Bool) → ExportQueueError → ExportStatus → ℕ → ExportQueue → Outcome (Unit {0})
settle wanted refusal status id q = elim (take_active q.state id) [
  | err e ↦ (err e, q)
  | ok (entry, s) ↦
      if same (is_cancelled q.flags entry.cancellation) wanted
      then (
        ok tt,
        record q {
          state = promote_next (push_terminal s entry status wanted q.terminal_history_limit);
        },
      )
      else (err refusal, record q { state = record s { active = some entry } })
]

unfoldable pub complete_locked : ℕ → ExportQueue → Outcome (Unit {0})
complete_locked id = settle false (cancellation_requested id) completed id

unfoldable pub fail_locked : ℕ → String → ExportQueue → Outcome (Unit {0})
fail_locked id reason = settle false (cancellation_requested id) (failed reason) id

unfoldable pub finish_cancelled_locked : ℕ → ExportQueue → Outcome (Unit {0})
finish_cancelled_locked id = settle true (cancellation_not_requested id) cancelled id

abbrev pub complete : TryLock → ℕ → ExportQueue → Outcome (Unit {0})
complete lock id = locked lock (complete_locked id)

abbrev pub fail : TryLock → ℕ → String → ExportQueue → Outcome (Unit {0})
fail lock id reason = locked lock (fail_locked id reason)

abbrev pub finish_cancelled : TryLock → ℕ → ExportQueue → Outcome (Unit {0})
finish_cancelled lock id = locked lock (finish_cancelled_locked id)

-- `update_progress` under the lock.
unfoldable pub update_progress_locked : ℕ → ExportProgress → ExportQueue → Outcome (Unit {0})
update_progress_locked id progress q = elim q.active [
  | none ↦ (err (not_active id), q)
  | some entry ↦
      if has_id id entry
      then (
        ok tt,
        record q {
          state = record q.state {
            active =
                some (record entry { progress = new_progress progress.stage progress.percent });
          };
        },
      )
      else (err (not_active id), q)
]

abbrev pub update_progress : TryLock → ℕ → ExportProgress → ExportQueue → Outcome (Unit {0})
update_progress lock id progress = locked lock (update_progress_locked id progress)

-- `try_claim_worker` and `release_worker`
abbrev pub try_claim_worker : ExportQueue → Bool × ExportQueue
try_claim_worker q = (not q.worker_claimed, record q { worker_claimed = true })

abbrev pub release_worker : ExportQueue → ExportQueue
release_worker q = record q { worker_claimed = false }

abbrev active_states : Flags → Option QueueEntry → List ExportJobState
active_states flags none = []
active_states flags (some entry) =
    snapshot_entry entry active (is_cancelled flags entry.cancellation) ∷ []

-- `states_result` under the lock.
unfoldable pub states : ExportQueue → List ExportJobState
states q =
    active_states q.flags q.active
    ++ (map (λ entry. snapshot_entry entry queued false) q.pending ++ q.terminal_history)

-- `len` and `is_full` under the lock.
abbrev pub queue_len : ExportQueue → ℕ
queue_len q = (if is_some q.active then 1 else 0) + length q.pending

abbrev pub is_full : ExportQueue → Bool
is_full q = is_some q.active && leb pending_job_limit (length q.pending)
