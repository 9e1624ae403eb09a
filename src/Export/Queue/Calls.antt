-- ===== src/Export/Queue/Calls.antt =====
-- Every way in which the queue changes, as one step: the calls of its owner, and a worker that
-- signals a token it shares (crates/clip-export/src/queue.rs).
use Prim.Native.String.{String}
use silk_studio.Prelude.{ℕ, List, [], ◌∷◌}
use silk_studio.Export.Queue.Job.{ExportJob, ExportProgress, cancel_token}
use silk_studio.Export.Queue.{
  ExportQueue, TryLock, submit, cancel, complete, fail, finish_cancelled, update_progress,
  try_claim_worker, release_worker,
}

pub data Call : Type 0 where
  submits : ExportJob → Call
  cancels completes finishes_cancelled : (id : ℕ) → Call
  fails : (id : ℕ) → (reason : String) → Call
  progresses : (id : ℕ) → ExportProgress → Call
  signals : (token : ℕ) → Call
  claims releases : Call

unfoldable pub step : TryLock → Call → ExportQueue → ExportQueue
step lock (submits job) q = (submit lock job q).1
step lock (cancels id) q = (cancel lock id q).1
step lock (completes id) q = (complete lock id q).1
step lock (fails id reason) q = (fail lock id reason q).1
step lock (finishes_cancelled id) q = (finish_cancelled lock id q).1
step lock (progresses id progress) q = (update_progress lock id progress q).1
step lock (signals token) q = record q { flags = cancel_token q.flags token }
step lock claims q = (try_claim_worker q).1
step lock releases q = release_worker q

-- A history of calls, each with what `try_lock` answered it.
unfoldable pub run : List (TryLock × Call) → ExportQueue → ExportQueue
run [] q = q
run ((lock, call) ∷ calls) q = run calls (step lock call q)
