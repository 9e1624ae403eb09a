-- ===== src/Controller/Jobs/Events.antt =====
-- The steps of a save worker and of those who call it: `SaveWorker::submit` in its two parts, the
-- rounds of the thread of `with_space_probe`, `drain`, and the end of `shutdown`'s `sender.take()`.
use silk_studio.Prelude.{
  ◌+◌, ◌-◌, Bool, true, false, List, [], ◌∷◌, ◌++◌, if◌then◌else◌, leb, ltb, length, Result, ok,
  err,
}
use silk_studio.Prelude.Words.{saturating_add_u64}
use silk_studio.Controller.Jobs.{
  save_queue_bound, JobQueueError, queue_full, worker_stopped, SaveWork, SaveMetrics, Answers,
  save_result, count_save, Hand, idle, working, sending, SaveWorker,
}

-- The metrics of a submission that is refused, by a full channel or a stopped worker.
abbrev pub count_refusal : (full : Bool) → SaveMetrics → SaveMetrics
count_refusal full m = record m {
  saves_failed = saturating_add_u64 m.saves_failed 1;
  queue_full_count = if full then saturating_add_u64 m.queue_full_count 1 else m.queue_full_count;
}

abbrev pub count_submission : SaveMetrics → SaveMetrics
count_submission m = record m { saves_queued = saturating_add_u64 m.saves_queued 1 }

module _ {M : Type 0} where
  abbrev pub refuse : (full : Bool) → SaveWorker M → SaveWorker M
  refuse full s = record s { metrics = count_refusal full s.metrics; refused = s.refused + 1 }

  abbrev pub enqueue : SaveWork → SaveWorker M → SaveWorker M
  enqueue work s = record s {
    channel = s.channel ++ work ∷ [];
    accepted = s.accepted ++ work ∷ [];
    uncounted = s.uncounted + 1;
  }

  -- `submit` up to `try_send`, its refusals counted, by whether the sender is there and the channel
  -- is full. `TrySendError::Disconnected` does not arise here: the thread's end of the channel goes
  -- away under a sender only when the thread panics or its results have no receiver, and neither is
  -- modelled.
  abbrev pub admit :
      SaveWork
      → (accepting full : Bool) → SaveWorker M
      → Result JobQueueError (Unit {0}) × SaveWorker M
  admit work false full s = (err worker_stopped, refuse false s)
  admit work true true s = (err (queue_full save_queue_bound), refuse true s)
  admit work true false s = (ok tt, enqueue work s)

  unfoldable pub submit_work :
      SaveWork → SaveWorker M → Result JobQueueError (Unit {0}) × SaveWorker M
  submit_work work s = admit work s.accepting (leb save_queue_bound (length s.channel)) s

  -- The end of a `submit` that was accepted, which another thread may precede.
  abbrev pub finish_submit : SaveWorker M → SaveWorker M
  finish_submit s =
      if ltb 0 s.uncounted
      then record s { metrics = count_submission s.metrics; uncounted = s.uncounted - 1 }
      else s

  -- The worker's `recv`.
  abbrev pub take_next : List SaveWork → SaveWorker M → SaveWorker M
  take_next [] s = s
  take_next (work ∷ rest) s = record s { channel = rest; hand = working work }

  abbrev pub take_from : Hand M → SaveWorker M → SaveWorker M
  take_from idle s = take_next s.channel s
  take_from (working work) s = s
  take_from (sending work result) s = s

  -- The work, up to the result.
  abbrev pub save_from : Answers M → Hand M → SaveWorker M → SaveWorker M
  save_from answers idle s = s
  save_from answers (sending work result) s = s
  save_from answers (working work) s =
      let result = save_result answers work in
      record s { hand = sending work result; metrics = count_save answers result s.metrics }

  -- The worker's `send`, which waits for room.
  abbrev pub send_from : Hand M → SaveWorker M → SaveWorker M
  send_from idle s = s
  send_from (working work) s = s
  send_from (sending work result) s =
      if leb save_queue_bound (length s.results)
      then s
      else record s { hand = idle; results = s.results ++ (work, result) ∷ [] }

  -- `drain`
  abbrev pub drain_results : SaveWorker M → SaveWorker M
  drain_results s = record s { results = []; received = s.received ++ s.results }

  abbrev pub close_sender : SaveWorker M → SaveWorker M
  close_sender s = record s { accepting = false }

pub data Event (M : Type 0) : Type 0 where
  submits : SaveWork → Event M
  counts_submission : Event M
  takes : Event M
  saves : Answers M → Event M
  sends : Event M
  drains : Event M
  closes : Event M

module _ {M : Type 0} where
  unfoldable pub step_worker : Event M → SaveWorker M → SaveWorker M
  unfolding submit_work
  step_worker (submits work) s = (submit_work work s).1
  step_worker counts_submission s = finish_submit s
  step_worker takes s = take_from s.hand s
  step_worker (saves answers) s = save_from answers s.hand s
  step_worker sends s = send_from s.hand s
  step_worker drains s = drain_results s
  step_worker closes s = close_sender s

  -- Events in any order, the earliest first; one that cannot happen yet does nothing.
  abbrev pub run_worker : List (Event M) → SaveWorker M → SaveWorker M
  run_worker [] s = s
  run_worker (e ∷ later) s = run_worker later (step_worker e s)
