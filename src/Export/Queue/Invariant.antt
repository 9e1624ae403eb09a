-- ===== src/Export/Queue/Invariant.antt =====
-- What holds of the queue between two calls, whatever the calls and the lock's answers.
use silk_studio.Prelude.{
  ℕ, ◌+◌, ◌≤◌, ◌<◌, ◌≡◌, refl, Bool, true, List, [], ◌∷◌, arith, ◌==◌, find, ok, Option-cases,
  Result-cases, ◌⊎◌, inl, inr,
}
use silk_studio.Prelude.Words.{u64_max}
use silk_studio.Export.Queue.Job.{ExportJob, ExportStatus, cancelled, ExportQueueError}
use silk_studio.Export.Queue.State.{
  QueueEntry, QueueState, has_id, take_active, promote_next, push_terminal, remove_id,
}
use silk_studio.Export.Queue.{
  ExportQueue, TryLock, new_entry, acquired, would_block, poisoned, submit_locked, cancel_waiting,
  cancel_locked, settle, complete_locked, fail_locked, finish_cancelled_locked,
  update_progress_locked, with_terminal_history_limit,
}
use silk_studio.Export.Queue.Calls.{
  Call, submits, cancels, completes, fails, finishes_cancelled, progresses, step, run,
}
use silk_studio.Export.Queue.Listed.{
  once_if, listed, waits-remove_id, listed-promote_next, listed-push_terminal-le,
  listed-take_active, take_active_back, waits-append,
}

-- The ids: every one below `next_id`, and each in one place only.
pub record HasFreshIds (q : ExportQueue) : Type 0 where
  pub in_range : q.next_id ≤ u64_max
  pub once : (i : ℕ) → listed i q.state ≤ 1
  pub fresh : (i : ℕ) → q.next_id ≤ i → listed i q.state ≡ 0

-- A call lists an id no more often than before, or takes `next_id` into use.
abbrev Counts : ℕ → ExportQueue → ExportQueue → Type 0
Counts i q r =
    ((r.next_id ≡ q.next_id) × (listed i r.state ≤ listed i q.state))
    ⊎ ((r.next_id ≡ q.next_id + 1)
        × (q.next_id < u64_max)
        × (listed i r.state ≡ listed i q.state + once_if (q.next_id == i)))

next_id-promote_next : (s : QueueState) → (promote_next s).next_id ≡ s.next_id
unfolding promote_next
next_id-promote_next s = ground arith

next_id-push_terminal :
    (s : QueueState) (entry : QueueEntry) (status : ExportStatus) (requested : Bool) (limit : ℕ)
    → (push_terminal s entry status requested limit).next_id ≡ s.next_id
unfolding push_terminal
next_id-push_terminal s entry status requested limit = ground arith

next_id-take_active :
    (id : ℕ) (s : QueueState) {entry : QueueEntry} {t : QueueState}
    → take_active s id ≡ ok (entry, t)
    → t.next_id ≡ s.next_id
unfolding take_active
next_id-take_active id s h = ground arith

settle-Counts :
    (i : ℕ) (wanted : Bool) (refusal : ExportQueueError) (status : ExportStatus) (id : ℕ)
    (q : ExportQueue)
    → Counts i q (settle wanted refusal status id q).1
unfolding settle
settle-Counts i wanted refusal status id q = elim (Result-cases (take_active q.state id)) [
  | inl ((entry, t), e) ↦
      let limit = q.terminal_history_limit in
      let ended_state = push_terminal t entry status wanted limit in
      ground (
        arith,
        take_active_back id q.state e,
        listed-take_active i id q.state e,
        listed-promote_next i ended_state,
        listed-push_terminal-le i t entry status wanted limit,
        next_id-promote_next ended_state,
        next_id-push_terminal t entry status wanted limit,
        next_id-take_active id q.state e,
      )
  | inr (x, e) ↦ ground arith
]

cancel_waiting-Counts : (i id : ℕ) (q : ExportQueue) → Counts i q (cancel_waiting id q).1
unfolding cancel_waiting listed
cancel_waiting-Counts i id q = elim (Option-cases (find (has_id id) q.pending)) [
  | inl e ↦ ground arith
  | inr (entry, e) ↦
      let limit = q.terminal_history_limit in
      let left = record q.state { pending = remove_id id q.pending } in
      ground (
        arith,
        waits-remove_id i id q.pending e,
        listed-push_terminal-le i left entry cancelled true limit,
        next_id-push_terminal left entry cancelled true limit,
      )
]

submit-Counts : (i : ℕ) (job : ExportJob) (q : ExportQueue) → Counts i q (submit_locked job q).1
unfolding submit_locked listed
submit-Counts i job q = ground (arith, waits-append i q.pending (new_entry job q ∷ []))

-- Every call, whatever the lock answers, keeps the count of each id or takes `next_id` into use.
step-Counts :
    (i : ℕ) (lock : TryLock) (call : Call) (q : ExportQueue) → Counts i q (step lock call q)
unfolding step complete_locked fail_locked finish_cancelled_locked cancel_locked
    update_progress_locked listed
step-Counts i acquired (submits job) q = submit-Counts i job q
step-Counts i acquired (cancels id) q = ground (arith, cancel_waiting-Counts i id q)
step-Counts i acquired (completes id) q = settle-Counts i _ _ _ id q
step-Counts i acquired (fails id reason) q = settle-Counts i _ _ _ id q
step-Counts i acquired (finishes_cancelled id) q = settle-Counts i _ _ _ id q
step-Counts i acquired (progresses id progress) q = ground arith
step-Counts i acquired _ q = inl (refl, omega arith)
step-Counts i would_block (submits job) q = inl (refl, omega arith)
step-Counts i would_block _ q = inl (refl, omega arith)
step-Counts i poisoned (submits job) q = inl (refl, omega arith)
step-Counts i poisoned _ q = inl (refl, omega arith)

-- Ids stay below `next_id` and are listed once, so an id names one job for good.
pub step-HasFreshIds :
    (lock : TryLock) (call : Call) (q : ExportQueue)
    → HasFreshIds q
    → HasFreshIds (step lock call q)
step-HasFreshIds lock call q v = record {
  in_range = ground (arith, step-Counts 0 lock call q, v.in_range);
  once = λ i. ground (arith, step-Counts i lock call q, v.once i, v.fresh i);
  fresh = λ i h. ground (arith, step-Counts i lock call q, v.fresh i);
}

new-HasFreshIds : (limit : ℕ) → HasFreshIds (with_terminal_history_limit limit)
unfolding listed
new-HasFreshIds limit = record {
  in_range = omega arith;
  once = λ i. omega arith;
  fresh = λ i h. refl;
}

run_keeps-HasFreshIds :
    (calls : List (TryLock × Call)) (q : ExportQueue) → HasFreshIds q → HasFreshIds (run calls q)
unfolding run
run_keeps-HasFreshIds [] q v = v
run_keeps-HasFreshIds ((lock, call) ∷ calls) q v =
    run_keeps-HasFreshIds calls (step lock call q) (step-HasFreshIds lock call q v)

-- After any history of calls on a new queue every id is listed at most once among the running job,
-- the waiting jobs and the history, and no id from the next one on is listed.
pub run-HasFreshIds :
    (limit : ℕ) (calls : List (TryLock × Call))
    → HasFreshIds (run calls (with_terminal_history_limit limit))
run-HasFreshIds limit calls = run_keeps-HasFreshIds calls _ (new-HasFreshIds limit)
