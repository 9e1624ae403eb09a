-- ===== src/Controller/Jobs/Shutdown.antt =====
-- `SaveWorker::shutdown`: the channel is closed, the worker goes on to its end, and the results are
-- drained between its rounds and after them.
use silk_studio.Prelude.{
  ℕ, zero, suc, ◌+◌, ◌-◌, ◌≤◌, Bool, ◌≡◌, refl, sym, ap, ◌∙◌, List, [], ◌∷◌, ◌++◌, append-nil,
  arith, length,
}
use silk_studio.Controller.Jobs.{
  SaveWork, SaveResult, SaveMetrics, Answers, Hand, idle, working, sending, SaveWorker,
  new_save_worker,
}
use silk_studio.Controller.Jobs.Events.{
  take_from, save_from, send_from, drain_results, close_sender, Event, run_worker,
}
use silk_studio.Controller.Jobs.Ordered.{
  works_of, in_hand, IsServed, take_from-IsServed, save_from-IsServed, send_from-IsServed,
  drain_results-IsServed, run_worker-IsServed,
}

nothing_left : (works : List SaveWork) → length works ≡ 0 → works ≡ []
nothing_left [] h = refl
nothing_left (w ∷ works) h = absurd (omega (arith, h))

module _ {M : Type 0} where
  -- A round of the worker's loop, with a `drain` before its `send`.
  abbrev pub worker_round : Answers M → SaveWorker M → SaveWorker M
  worker_round answers s =
      let taken = take_from s.hand s in
      let saved = save_from answers taken.hand taken in
      let drained = drain_results saved in send_from drained.hand drained

  -- `answers` gives what is outside answers in each round.
  abbrev pub worker_rounds : ℕ → (ℕ → Answers M) → SaveWorker M → SaveWorker M
  worker_rounds zero answers s = s
  worker_rounds (suc n) answers s = worker_rounds n answers (worker_round (answers n) s)

  -- The loop ends when the channel is closed and empty: one round for the work in the worker's hand
  -- and one for each in the channel.
  unfoldable pub shutdown : (ℕ → Answers M) → SaveWorker M → SaveWorker M
  shutdown answers s =
      drain_results (worker_rounds (suc (length s.channel)) answers (close_sender s))

  -- A round leaves nothing in the worker's hand, and no more in the channel.
  module _ (answers : Answers M) (accepting : Bool) (results : List (SaveWork × SaveResult M))
      (metrics : SaveMetrics) (accepted : List SaveWork) (received : List (SaveWork × SaveResult M))
      (refused uncounted : ℕ) where
    abbrev worker_with : List SaveWork → Hand M → SaveWorker M
    worker_with channel hand = record {
      accepting = accepting;
      channel = channel;
      hand = hand;
      results = results;
      metrics = metrics;
      accepted = accepted;
      received = received;
      refused = refused;
      uncounted = uncounted;
    }

    round_of :
        (channel : List SaveWork) (hand : Hand M)
        → let t = worker_round answers (worker_with channel hand) in
          (t.hand ≡ idle)
          × (t.accepted ≡ accepted)
          × (length t.channel + 1 ≤ length channel + 1)
          × (hand ≡ idle → length t.channel ≡ length channel - 1)
    round_of [] idle = (refl, refl, omega arith, λ e. refl)
    round_of (w ∷ rest) idle = (refl, refl, omega arith, λ e. omega arith)
    round_of [] (working v) = (refl, refl, omega arith, λ e. refl)
    round_of (w ∷ rest) (working v) = (refl, refl, omega arith, λ e. absurd (cc))
    round_of [] (sending v r) = (refl, refl, omega arith, λ e. refl)
    round_of (w ∷ rest) (sending v r) = (refl, refl, omega arith, λ e. absurd (cc))

  worker_round_facts :
      (answers : Answers M) (s : SaveWorker M)
      → let t = worker_round answers s in
        (t.hand ≡ idle)
        × (t.accepted ≡ s.accepted)
        × (length t.channel + 1 ≤ length s.channel + 1)
        × (s.hand ≡ idle → length t.channel ≡ length s.channel - 1)
  worker_round_facts answers s =
      round_of answers s.accepting s.results s.metrics s.accepted s.received s.refused s.uncounted
        s.channel s.hand

  worker_rounds_end :
      (n : ℕ) (answers : ℕ → Answers M) (s : SaveWorker M)
      → s.hand ≡ idle
      → length s.channel ≤ n
      → let t = worker_rounds n answers s in
        (t.hand ≡ idle) × (t.accepted ≡ s.accepted) × (length t.channel ≡ 0)
  worker_rounds_end zero answers s free short = (free, refl, omega (arith, short))
  worker_rounds_end (suc n) answers s free short =
      let (idle_now, same, fewer, one_less) = worker_round_facts (answers n) s in
      let (idle_later, same_later, none_left) =
        worker_rounds_end n answers (worker_round (answers n) s) idle_now
          (omega (arith, short, one_less free)) in
      (idle_later, same_later ∙ same, none_left)

  worker_round-IsServed :
      (answers : Answers M) (s : SaveWorker M) → IsServed s → IsServed (worker_round answers s)
  worker_round-IsServed answers s v =
      let taken = take_from s.hand s in
      let saved = save_from answers taken.hand taken in
      let drained = drain_results saved in
      send_from-IsServed drained.hand drained refl (
        drain_results-IsServed saved
          (save_from-IsServed answers taken.hand taken refl (take_from-IsServed s.hand s refl v)))

  worker_rounds-IsServed :
      (n : ℕ) (answers : ℕ → Answers M) (s : SaveWorker M)
      → IsServed s
      → IsServed (worker_rounds n answers s)
  worker_rounds-IsServed zero answers s v = v
  worker_rounds-IsServed (suc n) answers s v =
      worker_rounds-IsServed n answers (worker_round (answers n) s)
        (worker_round-IsServed (answers n) s v)

  -- Once nothing is in the hand or in the channel, a last `drain` receives every result.
  drain_all :
      (s : SaveWorker M)
      → IsServed s
      → s.hand ≡ idle
      → length s.channel ≡ 0
      → works_of (drain_results s).received ≡ s.accepted
  drain_all s v free none_left =
      let d = drain_results-IsServed s v in
      let empty : in_hand s.hand ++ s.channel ≡ [] =
        cc (ap in_hand free, nothing_left s.channel none_left) in
      sym (append-nil (works_of (drain_results s).received))
      ∙ ap (λ works. works_of (drain_results s).received ++ works) (sym empty)
      ∙ d.in_order

-- Whatever has happened to a save worker, and whatever the disk and the muxer answer from then on,
-- `shutdown` ends with one result received for every submission that was ever accepted, in the order
-- of submission.
pub shutdown-run_worker :
    {M : Type 0} (events : List (Event M)) (answers : ℕ → Answers M)
    → let s = run_worker events new_save_worker in
      works_of (shutdown answers s).received ≡ s.accepted
unfolding shutdown
shutdown-run_worker {M} events answers =
    let s : SaveWorker M = run_worker events new_save_worker in
    let n = length s.channel in
    let v = run_worker-IsServed events in
    let closed : IsServed (close_sender s) = record {
      in_order = v.in_order;
      channel_fits = v.channel_fits;
      results_fit = v.results_fit;
    } in
    let first = worker_round (answers n) (close_sender s) in
    let (free, same, fewer, _) = worker_round_facts (answers n) (close_sender s) in
    let (idle_later, same_later, none_left) =
      worker_rounds_end n answers first free (omega (arith, fewer)) in
    drain_all (worker_rounds n answers first)
      (worker_rounds-IsServed n answers first
        (worker_round-IsServed (answers n) (close_sender s) closed))
      idle_later none_left
    ∙ same_later
    ∙ same
