-- ===== src/Controller/Jobs/Counted.antt =====
-- What the metrics of a save worker count.
use silk_studio.Prelude.{
  ℕ, suc, ◌+◌, ◌≤◌, ◌<◌, Bool, Bool-cases, inl, inr, ◌≡◌, refl, subst, ap, true, false, List, [],
  ◌∷◌, arith, leb, ltb, length, length-append,
}
use silk_studio.Prelude.Words.{u64_max}
use silk_studio.Controller.Jobs.{
  save_queue_bound, SaveWork, SaveMetrics, SaveResult, completed, failed, Answers, save_result,
  count_save, Hand, idle, working, sending, SaveWorker, new_save_worker,
}
use silk_studio.Controller.Jobs.Events.{
  admit, submit_work, finish_submit, take_next, take_from, save_from, send_from, Event, submits,
  counts_submission, takes, saves, sends, drains, closes, step_worker, run_worker,
}

module _ {M : Type 0} where
  -- The work that the worker has taken and not finished.
  abbrev pub in_progress : Hand M → ℕ
  in_progress idle = 0
  in_progress (working work) = 1
  in_progress (sending work result) = 0

  -- Each submission that was counted, or waits to be, has been completed, has failed, or is still
  -- to be saved; the failures include the submissions refused. `n` is a bound that keeps the
  -- counters from saturating.
  pub record IsCounted (n : ℕ) (s : SaveWorker M) : Type 0 where
    pub balance :
        s.metrics.saves_queued + s.uncounted + s.refused
        ≡ s.metrics.saves_completed + s.metrics.saves_failed + in_progress s.hand + length s.channel
    pub queue_fulls : s.metrics.queue_full_count ≤ s.refused
    pub failures : s.metrics.mux_failures + s.refused ≤ s.metrics.saves_failed
    pub small : s.metrics.saves_queued + s.metrics.saves_completed + s.metrics.saves_failed ≤ n

  count_save_counters :
      (answers : Answers M) (result : SaveResult M) (m : SaveMetrics)
      → let c = count_save answers result m in
        m.saves_completed < u64_max
        → m.saves_failed < u64_max
        → m.mux_failures < u64_max
        → (c.saves_queued ≡ m.saves_queued)
          × (c.queue_full_count ≡ m.queue_full_count)
          × (c.saves_completed + c.saves_failed ≡ m.saves_completed + m.saves_failed + 1)
          × (c.mux_failures + m.saves_failed ≤ m.mux_failures + c.saves_failed)
  unfolding count_save
  count_save_counters answers (completed metadata) m a b c = ground arith
  count_save_counters answers (failed path e) m a b c = ground arith

  -- A step counts at most one more.
  module _ (n : ℕ) (room : n < u64_max) where
    admit-IsCounted :
        (work : SaveWork) (accepting full : Bool) (s : SaveWorker M)
        → IsCounted n s
        → IsCounted (suc n) (admit work accepting full s).1
    admit-IsCounted work false full s v = record {
      balance = ground (arith, v.balance, v.small);
      queue_fulls = ground (arith, v.queue_fulls);
      failures = ground (arith, v.failures, v.small);
      small = ground (arith, v.small);
    }
    admit-IsCounted work true true s v = record {
      balance = ground (arith, v.balance, v.small);
      queue_fulls = ground (arith, v.queue_fulls, v.failures, v.small);
      failures = ground (arith, v.failures, v.small);
      small = ground (arith, v.small);
    }
    admit-IsCounted work true false s v = record {
      balance = omega (arith, v.balance, length-append s.channel (work ∷ []));
      queue_fulls = v.queue_fulls;
      failures = v.failures;
      small = omega (arith, v.small);
    }

    later-IsCounted : (s : SaveWorker M) → IsCounted n s → IsCounted (suc n) s
    later-IsCounted s v = record {
      balance = v.balance;
      queue_fulls = v.queue_fulls;
      failures = v.failures;
      small = omega (arith, v.small);
    }

    finish_submit-IsCounted :
        (s : SaveWorker M) → IsCounted n s → IsCounted (suc n) (finish_submit s)
    finish_submit-IsCounted s v = elim (Bool-cases (ltb 0 s.uncounted)) [
      | inl some_left ↦ rw some_left (record {
        balance = ground (arith, v.balance, v.small);
        queue_fulls = v.queue_fulls;
        failures = v.failures;
        small = ground (arith, v.small);
      })
      | inr none_left ↦ rw none_left (later-IsCounted s v)
    ]

    take_next-IsCounted :
        (queue : List SaveWork) (s : SaveWorker M)
        → s.hand ≡ idle
        → s.channel ≡ queue
        → IsCounted n s
        → IsCounted (suc n) (take_next queue s)
    take_next-IsCounted [] s free e v = later-IsCounted s v
    take_next-IsCounted (work ∷ rest) s free e v = record {
      balance = omega (arith, v.balance, ap in_progress free, ap length e);
      queue_fulls = v.queue_fulls;
      failures = v.failures;
      small = omega (arith, v.small);
    }

    take_from-IsCounted :
        (hand : Hand M) (s : SaveWorker M)
        → s.hand ≡ hand
        → IsCounted n s
        → IsCounted (suc n) (take_from hand s)
    take_from-IsCounted idle s e v = take_next-IsCounted s.channel s e refl v
    take_from-IsCounted (working work) s e v = later-IsCounted s v
    take_from-IsCounted (sending work result) s e v = later-IsCounted s v

    save_from-IsCounted :
        (answers : Answers M) (hand : Hand M) (s : SaveWorker M)
        → s.hand ≡ hand
        → IsCounted n s
        → IsCounted (suc n) (save_from answers hand s)
    save_from-IsCounted answers idle s e v = later-IsCounted s v
    save_from-IsCounted answers (sending work result) s e v = later-IsCounted s v
    save_from-IsCounted answers (working work) s e v =
        let (queued, fulls, done, muxed) =
          count_save_counters answers (save_result answers work) s.metrics (omega (arith, v.small))
            (omega (arith, v.small)) (omega (arith, v.small, v.failures)) in
        record {
          balance = omega (arith, v.balance, queued, done, ap in_progress e);
          queue_fulls = omega (arith, v.queue_fulls, fulls);
          failures = omega (arith, v.failures, muxed);
          small = omega (arith, v.small, queued, done);
        }

    send_from-IsCounted :
        (hand : Hand M) (s : SaveWorker M)
        → s.hand ≡ hand
        → IsCounted n s
        → IsCounted (suc n) (send_from hand s)
    send_from-IsCounted idle s e v = later-IsCounted s v
    send_from-IsCounted (working work) s e v = later-IsCounted s v
    send_from-IsCounted (sending work result) s e v =
        elim (Bool-cases (leb save_queue_bound (length s.results))) [
          | inl full ↦ rw full (later-IsCounted s v)
          | inr free ↦ rw free (record {
            balance = omega (arith, v.balance, ap in_progress e);
            queue_fulls = v.queue_fulls;
            failures = v.failures;
            small = omega (arith, v.small);
          })
        ]

    step_worker-IsCounted :
        (e : Event M) (s : SaveWorker M) → IsCounted n s → IsCounted (suc n) (step_worker e s)
    unfolding step_worker submit_work
    step_worker-IsCounted (submits work) s v =
        admit-IsCounted work s.accepting (leb save_queue_bound (length s.channel)) s v
    step_worker-IsCounted counts_submission s v = finish_submit-IsCounted s v
    step_worker-IsCounted takes s v = take_from-IsCounted s.hand s refl v
    step_worker-IsCounted (saves answers) s v = save_from-IsCounted answers s.hand s refl v
    step_worker-IsCounted sends s v = send_from-IsCounted s.hand s refl v
    step_worker-IsCounted drains s v = record {
      balance = v.balance;
      queue_fulls = v.queue_fulls;
      failures = v.failures;
      small = omega (arith, v.small);
    }
    step_worker-IsCounted closes s v = record {
      balance = v.balance;
      queue_fulls = v.queue_fulls;
      failures = v.failures;
      small = omega (arith, v.small);
    }

  runs-IsCounted :
      (events : List (Event M)) (n : ℕ) (s : SaveWorker M)
      → n + length events ≤ u64_max
      → IsCounted n s
      → IsCounted (n + length events) (run_worker events s)
  runs-IsCounted [] n s fits v =
      let same : n ≡ n + 0 = omega arith in subst (λ k. IsCounted k s) same v
  runs-IsCounted (e ∷ later) n s fits v =
      let same : suc n + length later ≡ n + suc (length later) = omega arith in
      subst (λ k. IsCounted k (run_worker later (step_worker e s))) same
        (runs-IsCounted later (suc n) (step_worker e s) (omega (arith, fits))
          (step_worker-IsCounted n (omega (arith, fits)) e s v))

-- However the events of a save worker interleave, if there are fewer than 2 ^ 64 of them: the
-- submissions that the metrics count as queued, those accepted but not counted yet and those refused
-- are together as many as the saves counted as completed, those counted as failed (the refused ones
-- among them), the work in progress and the work in the channel. A full channel is counted for no
-- more than the refused submissions, and the failures of the muxer are no more than the failures
-- that are no refusals.
pub run_worker-IsCounted :
    {M : Type 0} (events : List (Event M))
    → length events ≤ u64_max
    → IsCounted (length events) (run_worker events new_save_worker)
run_worker-IsCounted {M} events fits =
    let from_zero : 0 + length events ≡ length events = omega arith in
    let start : IsCounted {M = M} 0 new_save_worker = record {
      balance = refl;
      queue_fulls = omega arith;
      failures = omega arith;
      small = omega arith;
    } in
    subst (λ k. IsCounted k (run_worker events new_save_worker)) from_zero
      (runs-IsCounted events 0 new_save_worker (omega (arith, fits)) start)
