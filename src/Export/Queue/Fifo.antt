-- ===== src/Export/Queue/Fifo.antt =====
-- The queue as its clients see it: one line of accepted jobs, at most three, the first of which
-- runs. The slot, the waiting list, the tokens and the history refine it.
use silk_studio.Prelude.{
  ℕ, ◌≡◌, ◌≢◌, refl, ap, Bool, true, false, List, [], ◌∷◌, ◌++◌, Option, none, some, arith, leb,
  ◌==◌, if◌then◌else◌, length, drop, head?, find, same, map, Option-cases, inl, inr,
}
use silk_studio.Prelude.Words.{u64_max}
use silk_studio.Export.Queue.Job.{
  ExportJob, ExportStatus, cancelled, completed, failed, cancellation_requested,
  cancellation_not_requested, ExportQueueError, Flags, is_cancelled,
}
use silk_studio.Export.Queue.State.{
  QueueEntry, QueueState, has_id, take_active, promote_next, push_terminal, remove_id,
}
use silk_studio.Export.Queue.{
  ExportQueue, TryLock, acquired, would_block, poisoned, new_entry, submit_locked, cancel_waiting,
  cancel_locked, settle, complete_locked, fail_locked, finish_cancelled_locked,
  update_progress_locked,
}
use silk_studio.Export.Queue.Calls.{
  Call, submits, cancels, completes, fails, finishes_cancelled, progresses, step,
}
use silk_studio.Export.Queue.Bounds.{IsBounded}

-- A job and the id that it was accepted under.
abbrev pub Ticket : Type 0
Ticket = ℕ × ExportJob

abbrev ticket : QueueEntry → Ticket
ticket entry = (entry.id, entry.job)

abbrev pub line_of : Option QueueEntry → List QueueEntry → List Ticket
line_of none waiting = map ticket waiting
line_of (some entry) waiting = ticket entry ∷ map ticket waiting

abbrev pub line : QueueState → List Ticket
line s = line_of s.active s.pending

abbrev pub head_cancelled : Flags → Option QueueEntry → Bool
head_cancelled flags none = false
head_cancelled flags (some entry) = is_cancelled flags entry.cancellation

-- The first ticket leaves when it has the id.
abbrev pub leave : ℕ → List Ticket → List Ticket
leave id [] = []
leave id (t ∷ ts) = if t.0 == id then ts else t ∷ ts

abbrev pub without : ℕ → List Ticket → List Ticket
without id [] = []
without id (t ∷ ts) = if t.0 == id then ts else t ∷ without id ts

-- All but the first can be cancelled out of the line.
abbrev pub withdraw : ℕ → List Ticket → List Ticket
withdraw id [] = []
withdraw id (t ∷ ts) = if t.0 == id then t ∷ ts else t ∷ without id ts

-- What a call does to the line, given the next id and whether the first job is to be cancelled.
abbrev pub fifo : (next_id : ℕ) (to_cancel : Bool) → Call → List Ticket → List Ticket
fifo next_id to_cancel (submits job) l =
    if leb 3 (length l) then l else if leb u64_max next_id then l else l ++ (next_id, job) ∷ []
fifo next_id to_cancel (cancels id) l = withdraw id l
fifo next_id to_cancel (completes id) l = if to_cancel then l else leave id l
fifo next_id to_cancel (fails id reason) l = if to_cancel then l else leave id l
fifo next_id to_cancel (finishes_cancelled id) l = if to_cancel then leave id l else l
fifo next_id to_cancel _ l = l

length-tickets : (xs : List QueueEntry) → length (map ticket xs) ≡ length xs
length-tickets [] = refl
length-tickets (x ∷ xs) = omega (arith, length-tickets xs)

tickets-append :
    (xs : List QueueEntry) (y : QueueEntry)
    → map ticket (xs ++ y ∷ []) ≡ map ticket xs ++ ticket y ∷ []
tickets-append [] y = refl
tickets-append (x ∷ xs) y = ap (◌∷◌ (ticket x)) (tickets-append xs y)

tickets-remove_id :
    (id : ℕ) (xs : List QueueEntry) → map ticket (remove_id id xs) ≡ without id (map ticket xs)
unfolding remove_id
tickets-remove_id id [] = refl
tickets-remove_id id (x ∷ xs) = ground (arith, tickets-remove_id id xs)

without-none :
    (id : ℕ) (xs : List QueueEntry)
    → find (has_id id) xs ≡ none
    → without id (map ticket xs) ≡ map ticket xs
without-none id [] h = refl
without-none id (x ∷ xs) h = ground (arith, without-none id xs)

line-head-drop : (xs : List QueueEntry) → line_of (head? xs) (drop 1 xs) ≡ map ticket xs
line-head-drop [] = refl
line-head-drop (x ∷ xs) = refl

line-push_terminal :
    (s : QueueState) (entry : QueueEntry) (status : ExportStatus) (requested : Bool) (limit : ℕ)
    → let t = push_terminal s entry status requested limit in
      (t.active ≡ s.active) × (t.pending ≡ s.pending)
unfolding push_terminal
line-push_terminal s entry status requested limit = ground arith

settle-line :
    (wanted : Bool) (refusal : ExportQueueError) (status : ExportStatus) (id : ℕ) (q : ExportQueue)
    → (q.active ≡ none → q.pending ≡ [])
    → line (settle wanted refusal status id q).1.state ≡ (
        if same (head_cancelled q.flags q.active) wanted
        then leave id (line q.state)
        else line q.state)
unfolding settle take_active promote_next
settle-line wanted refusal status id q idle = elim (Option-cases q.active) [
  | inl e ↦ ground (arith, idle e)
  | inr (entry, e) ↦ ground (
    arith,
    line-head-drop q.pending,
    line-push_terminal (record q.state { active = none }) entry status wanted
        q.terminal_history_limit,
  )
]

cancel-line :
    (id : ℕ) (q : ExportQueue)
    → (q.active ≡ none → q.pending ≡ [])
    → line (cancel_locked id q).1.state ≡ withdraw id (line q.state)
unfolding cancel_locked cancel_waiting
cancel-line id q idle = elim (Option-cases (find (has_id id) q.pending)) [
  | inl e ↦ ground (arith, without-none id q.pending e)
  | inr (waiting, e) ↦ ground (
    arith,
    tickets-remove_id id q.pending,
    line-push_terminal (record q.state { pending = remove_id id q.pending }) waiting cancelled true
        q.terminal_history_limit,
  )
]

submit-line :
    (job : ExportJob) (q : ExportQueue)
    → IsBounded q.terminal_history_limit q.state
    → line (submit_locked job q).1.state ≡ fifo q.next_id false (submits job) (line q.state)
unfolding submit_locked
submit-line job q v =
    ground (arith, tickets-append q.pending (new_entry job q), length-tickets q.pending, v)

-- On a queue within its bounds, a call that has the lock does to the line of accepted jobs what
-- `fifo` says, for every call: a submission joins at the end while fewer than three are in line and
-- ids are left; completing, failing and finishing a cancellation take the first job out, the last
-- only and the others never once its token is signalled; cancelling takes out a job behind the
-- first.
pub step-fifo :
    (call : Call) (q : ExportQueue)
    → IsBounded q.terminal_history_limit q.state
    → line (step acquired call q).state
      ≡ fifo q.next_id (head_cancelled q.flags q.active) call (line q.state)
unfolding step complete_locked fail_locked finish_cancelled_locked update_progress_locked
step-fifo (submits job) q v = submit-line job q v
step-fifo (cancels id) q v = cancel-line id q v.idle
step-fifo (completes id) q v =
    ground (arith, settle-line false (cancellation_requested id) completed id q v.idle)
step-fifo (fails id reason) q v =
    ground (arith, settle-line false (cancellation_requested id) (failed reason) id q v.idle)
step-fifo (finishes_cancelled id) q v =
    ground (arith, settle-line true (cancellation_not_requested id) cancelled id q v.idle)
step-fifo (progresses id progress) q v = ground arith
step-fifo _ q v = refl

-- A call that does not get the lock changes nothing behind it.
pub step-refused :
    (lock : TryLock) (call : Call) (q : ExportQueue)
    → lock ≢ acquired
    → (step lock call q).state ≡ q.state
unfolding step
step-refused acquired call q h = absurd (h refl)
step-refused would_block (submits job) q h = refl
step-refused would_block _ q h = refl
step-refused poisoned (submits job) q h = refl
step-refused poisoned _ q h = refl
