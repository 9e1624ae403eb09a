-- ===== src/Export/Queue/Bounds.antt =====
-- The queue's bounds: one active job, at most two waiting and never behind an idle slot, a history
-- within its limit, and percentages within a hundred.
use silk_studio.Prelude.{
  ℕ, ◌≤◌, ◌≡◌, refl, ap, sym, subst, ◌∙◌, Bool, true, List, [], ◌∷◌, Option, none, some, arith,
  length, drop, head?, find, ok, length-append, length-drop, All, All-append, All-drop,
  Option-cases, Result-cases, inl, inr,
}
use silk_studio.Export.Queue.Job.{
  ExportJob, ExportStatus, cancelled, ExportJobState, ExportQueueError, new_progress,
}
use silk_studio.Export.Queue.State.{
  QueueEntry, QueueState, has_id, take_active, promote_next, push_terminal, remove_id,
  snapshot_entry,
}
use silk_studio.Export.Queue.{
  ExportQueue, TryLock, acquired, would_block, poisoned, new_entry, submit_locked, cancel_waiting,
  cancel_locked, settle, complete_locked, fail_locked, finish_cancelled_locked,
  update_progress_locked, with_terminal_history_limit,
}
use silk_studio.Export.Queue.Calls.{
  Call, submits, cancels, completes, fails, finishes_cancelled, progresses, step, run,
}
use silk_studio.Export.Queue.Listed.{take_active_back}

abbrev pub FitsEntry : QueueEntry → Type 0
FitsEntry entry = entry.progress.percent ≤ 100

abbrev pub FitsRecord : ExportJobState → Type 0
FitsRecord r = r.progress.percent ≤ 100

abbrev pub FitsActive : Option QueueEntry → Type 0
FitsActive none = Unit
FitsActive (some entry) = FitsEntry entry

-- The bounds of the state behind the mutex, for a limit on its history.
pub record IsBounded (limit : ℕ) (s : QueueState) : Type 0 where
  pub idle : s.active ≡ none → s.pending ≡ []
  pub waiting : length s.pending ≤ 2
  pub kept : length s.terminal_history ≤ limit
  pub active_percent : FitsActive s.active
  pub pending_percent : All FitsEntry s.pending
  pub history_percent : All FitsRecord s.terminal_history

head-drop : (xs : List QueueEntry) → head? xs ≡ none → drop 1 xs ≡ []
head-drop [] h = refl
head-drop (x ∷ xs) h = cc

head-Fits : (xs : List QueueEntry) → All FitsEntry xs → FitsActive (head? xs)
head-Fits [] h = tt
head-Fits (x ∷ xs) h = h.0

-- The bounds of a state whose active slot is empty for the moment.
record IsVacant (limit : ℕ) (s : QueueState) : Type 0 where
  empty : s.active ≡ none
  waiting : length s.pending ≤ 2
  kept : length s.terminal_history ≤ limit
  pending_percent : All FitsEntry s.pending
  history_percent : All FitsRecord s.terminal_history

take_active-IsVacant :
    (limit id : ℕ) (s : QueueState) {entry : QueueEntry} {t : QueueState}
    → IsBounded limit s
    → take_active s id ≡ ok (entry, t)
    → IsVacant limit t × FitsEntry entry
unfolding take_active
take_active-IsVacant limit id s v h = ground arith

-- A push keeps the history within its limit.
module _ (limit : ℕ) (entry : QueueEntry) (status : ExportStatus) (requested : Bool) where
  history-length-le :
      (s : QueueState)
      → length s.terminal_history ≤ limit
      → length (push_terminal s entry status requested limit).terminal_history ≤ limit
  unfolding push_terminal
  history-length-le s h = ground (
    arith,
    length-append s.terminal_history (snapshot_entry entry status requested ∷ []),
    length-append (drop 1 s.terminal_history) (snapshot_entry entry status requested ∷ []),
    length-drop 1 s.terminal_history,
  )

  history-Fits :
      (s : QueueState)
      → FitsEntry entry
      → All FitsRecord s.terminal_history
      → All FitsRecord (push_terminal s entry status requested limit).terminal_history
  unfolding push_terminal
  history-Fits s fits h =
      let one : All FitsRecord (snapshot_entry entry status requested ∷ []) = (fits, tt) in
      ground (
        arith,
        All-append FitsRecord s.terminal_history (snapshot_entry entry status requested ∷ []) h one,
        All-append FitsRecord (drop 1 s.terminal_history)
            (snapshot_entry entry status requested ∷ [])
            (All-drop FitsRecord 1 s.terminal_history h) one,
      )

  same_slots :
      (s : QueueState)
      → let t = push_terminal s entry status requested limit in
        (t.active ≡ s.active) × (t.pending ≡ s.pending) × (t.next_id ≡ s.next_id)
  unfolding push_terminal
  same_slots s = ground arith

  push_terminal-IsBounded :
      (s : QueueState)
      → FitsEntry entry
      → IsBounded limit s
      → IsBounded limit (push_terminal s entry status requested limit)
  push_terminal-IsBounded s fits v =
      let (a, p, _) = same_slots s in
      record {
        idle = λ e. p ∙ v.idle (sym a ∙ e);
        waiting = rw p v.waiting;
        kept = history-length-le s v.kept;
        active_percent = rw a v.active_percent;
        pending_percent = rw p v.pending_percent;
        history_percent = history-Fits s fits v.history_percent;
      }

  push_terminal-IsVacant :
      (s : QueueState)
      → FitsEntry entry
      → IsVacant limit s
      → IsVacant limit (push_terminal s entry status requested limit)
  push_terminal-IsVacant s fits v =
      let (a, p, _) = same_slots s in
      record {
        empty = a ∙ v.empty;
        waiting = rw p v.waiting;
        kept = history-length-le s v.kept;
        pending_percent = rw p v.pending_percent;
        history_percent = history-Fits s fits v.history_percent;
      }

promote_next-IsBounded :
    (limit : ℕ) (s : QueueState) → IsVacant limit s → IsBounded limit (promote_next s)
unfolding promote_next
promote_next-IsBounded limit s v = rw v.empty (record {
  idle = head-drop s.pending;
  waiting = omega (arith, length-drop 1 s.pending, v.waiting);
  kept = v.kept;
  active_percent = head-Fits s.pending v.pending_percent;
  pending_percent = All-drop FitsEntry 1 s.pending v.pending_percent;
  history_percent = v.history_percent;
})

-- A call keeps the bounds, and the limit on the history.
abbrev Keeps : ExportQueue → ExportQueue → Type 0
Keeps q r =
    (r.terminal_history_limit ≡ q.terminal_history_limit)
    × IsBounded q.terminal_history_limit r.state

settle-Keeps :
    (wanted : Bool) (refusal : ExportQueueError) (status : ExportStatus) (id : ℕ) (q : ExportQueue)
    → IsBounded q.terminal_history_limit q.state
    → Keeps q (settle wanted refusal status id q).1
unfolding settle
settle-Keeps wanted refusal status id q v = elim (Result-cases (take_active q.state id)) [
  | inl ((entry, t), e) ↦
      let limit = q.terminal_history_limit in
      let (vacant, fits) = take_active-IsVacant limit id q.state v e in
      ground (
        arith,
        take_active_back id q.state e,
        promote_next-IsBounded limit (push_terminal t entry status wanted limit)
            (push_terminal-IsVacant limit entry status wanted t fits vacant),
      )
  | inr (x, e) ↦ ground arith
]

FitsEntry-of_find :
    (id : ℕ) (xs : List QueueEntry) {entry : QueueEntry}
    → All FitsEntry xs
    → find (has_id id) xs ≡ some entry
    → FitsEntry entry
FitsEntry-of_find id [] v h = cc
FitsEntry-of_find id (x ∷ xs) {entry} v h =
    ground (arith, FitsEntry-of_find id xs {entry = entry} v.1)

length-remove_id-le : (id : ℕ) (xs : List QueueEntry) → length (remove_id id xs) ≤ length xs
unfolding remove_id
length-remove_id-le id [] = omega arith
length-remove_id-le id (x ∷ xs) = ground (arith, length-remove_id-le id xs)

remove_id-Fits :
    (id : ℕ) (xs : List QueueEntry) → All FitsEntry xs → All FitsEntry (remove_id id xs)
unfolding remove_id
remove_id-Fits id [] v = tt
remove_id-Fits id (x ∷ xs) v = ground (arith, remove_id-Fits id xs v.1)

remove_id-IsBounded :
    (limit id : ℕ) (s : QueueState)
    → IsBounded limit s
    → IsBounded limit (record s { pending = remove_id id s.pending })
unfolding remove_id
remove_id-IsBounded limit id s v = record {
  idle = λ e. ap (remove_id id) (v.idle e);
  waiting = omega (arith, length-remove_id-le id s.pending, v.waiting);
  kept = v.kept;
  active_percent = v.active_percent;
  pending_percent = remove_id-Fits id s.pending v.pending_percent;
  history_percent = v.history_percent;
}

cancel_waiting-Keeps :
    (id : ℕ) (q : ExportQueue)
    → IsBounded q.terminal_history_limit q.state
    → Keeps q (cancel_waiting id q).1
unfolding cancel_waiting
cancel_waiting-Keeps id q v = elim (Option-cases (find (has_id id) q.pending)) [
  | inl e ↦ ground arith
  | inr (entry, e) ↦
      let limit = q.terminal_history_limit in
      let fits = FitsEntry-of_find id q.pending v.pending_percent e in
      ground (
        arith,
        push_terminal-IsBounded limit entry cancelled true
            (record q.state { pending = remove_id id q.pending }) fits
            (remove_id-IsBounded limit id q.state v),
      )
]

submit-Keeps :
    (job : ExportJob) (q : ExportQueue)
    → IsBounded q.terminal_history_limit q.state
    → Keeps q (submit_locked job q).1
unfolding submit_locked
submit-Keeps job q v = ground (
  arith,
  length-append q.pending (new_entry job q ∷ []),
  All-append FitsEntry q.pending (new_entry job q ∷ []) v.pending_percent,
)

step-Keeps :
    (lock : TryLock) (call : Call) (q : ExportQueue)
    → IsBounded q.terminal_history_limit q.state
    → Keeps q (step lock call q)
unfolding step complete_locked fail_locked finish_cancelled_locked cancel_locked
    update_progress_locked new_progress
step-Keeps acquired (submits job) q v = submit-Keeps job q v
step-Keeps acquired (cancels id) q v = ground (arith, cancel_waiting-Keeps id q v)
step-Keeps acquired (completes id) q v = settle-Keeps _ _ _ id q v
step-Keeps acquired (fails id reason) q v = settle-Keeps _ _ _ id q v
step-Keeps acquired (finishes_cancelled id) q v = settle-Keeps _ _ _ id q v
step-Keeps acquired (progresses id progress) q v = ground arith
step-Keeps acquired _ q v = (refl, v)
step-Keeps would_block (submits job) q v = (refl, v)
step-Keeps would_block _ q v = (refl, v)
step-Keeps poisoned (submits job) q v = (refl, v)
step-Keeps poisoned _ q v = (refl, v)

-- Every call, whatever the lock answers, keeps the bounds: no job waits behind an idle slot, at
-- most two wait, the history is within its limit, and no percentage is above a hundred.
pub step-IsBounded :
    (lock : TryLock) (call : Call) (q : ExportQueue)
    → IsBounded q.terminal_history_limit q.state
    → IsBounded (step lock call q).terminal_history_limit (step lock call q).state
step-IsBounded lock call q v =
    let (same_limit, bounded) = step-Keeps lock call q v in
    subst (λ limit. IsBounded limit (step lock call q).state) (sym same_limit) bounded

new-IsBounded : (limit : ℕ) → IsBounded limit (with_terminal_history_limit limit).state
new-IsBounded limit = ground arith

run-Keeps :
    (calls : List (TryLock × Call)) (q : ExportQueue)
    → IsBounded q.terminal_history_limit q.state
    → IsBounded (run calls q).terminal_history_limit (run calls q).state
unfolding run
run-Keeps [] q v = v
run-Keeps ((lock, call) ∷ calls) q v =
    run-Keeps calls (step lock call q) (step-IsBounded lock call q v)

-- After any history of calls on a new queue, whatever the lock answers to each, no job waits behind
-- an idle slot, at most two wait, the history is within its limit, and no percentage is above a
-- hundred.
pub run-IsBounded :
    (limit : ℕ) (calls : List (TryLock × Call))
    → let q = run calls (with_terminal_history_limit limit) in
      IsBounded q.terminal_history_limit q.state
run-IsBounded limit calls = run-Keeps calls _ (new-IsBounded limit)
