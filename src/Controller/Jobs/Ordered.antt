-- ===== src/Controller/Jobs/Ordered.antt =====
-- The order of the results, and the bounds of the two channels.
use silk_studio.Prelude.{
  ◌≤◌, Bool, Bool-cases, inl, inr, ◌≡◌, refl, sym, ap, ◌∙◌, true, false, List, [], ◌∷◌, ◌++◌,
  append_assoc, map, arith, leb, ltb, length, length-append,
}
use silk_studio.Controller.Jobs.{
  save_queue_bound, SaveWork, SaveResult, Answers, Hand, idle, working, sending, SaveWorker,
  new_save_worker,
}
use silk_studio.Controller.Jobs.Events.{
  enqueue, admit, submit_work, finish_submit, take_next, take_from, save_from, send_from,
  drain_results, Event, submits, counts_submission, takes, saves, sends, drains, closes,
  step_worker, run_worker,
}

append_last :
    {A : Type 0} (a b c d e : List A) → a ++ (b ++ (c ++ (d ++ e))) ≡ (a ++ (b ++ (c ++ d))) ++ e
append_last a b c d e = simp append_assoc

module _ {M : Type 0} where
  abbrev pub works_of : List (SaveWork × SaveResult M) → List SaveWork
  works_of = map (λ r. r.0)

  abbrev pub in_hand : Hand M → List SaveWork
  in_hand idle = []
  in_hand (working work) = work ∷ []
  in_hand (sending work result) = work ∷ []

  works_of-append :
      (xs ys : List (SaveWork × SaveResult M)) → works_of (xs ++ ys) ≡ works_of xs ++ works_of ys
  works_of-append [] ys = refl
  works_of-append (x ∷ xs) ys = ap (◌∷◌ x.0) (works_of-append xs ys)

  -- Every submission that was accepted is, in order, received, among the results, in the worker's
  -- hand, or in the channel; and both channels keep within their bound.
  pub record IsServed (s : SaveWorker M) : Type 0 where
    pub in_order :
        works_of s.received ++ (works_of s.results ++ (in_hand s.hand ++ s.channel)) ≡ s.accepted
    pub channel_fits : length s.channel ≤ save_queue_bound
    pub results_fit : length s.results ≤ save_queue_bound

  enqueue-IsServed :
      (work : SaveWork) (s : SaveWorker M)
      → leb save_queue_bound (length s.channel) ≡ false
      → IsServed s
      → IsServed (enqueue work s)
  enqueue-IsServed work s room v = record {
    in_order =
        append_last (works_of s.received) (works_of s.results) (in_hand s.hand) s.channel
          (work ∷ [])
        ∙ ap (λ works. works ++ work ∷ []) v.in_order;
    channel_fits = ground (arith, length-append s.channel (work ∷ []));
    results_fit = v.results_fit;
  }

  admit-IsServed :
      (work : SaveWork) (accepting full : Bool) (s : SaveWorker M)
      → leb save_queue_bound (length s.channel) ≡ full
      → IsServed s
      → IsServed (admit work accepting full s).1
  admit-IsServed work false full s e v = record {
    in_order = v.in_order;
    channel_fits = v.channel_fits;
    results_fit = v.results_fit;
  }
  admit-IsServed work true true s e v = record {
    in_order = v.in_order;
    channel_fits = v.channel_fits;
    results_fit = v.results_fit;
  }
  admit-IsServed work true false s e v = enqueue-IsServed work s e v

  finish_submit-IsServed : (s : SaveWorker M) → IsServed s → IsServed (finish_submit s)
  finish_submit-IsServed s v = elim (Bool-cases (ltb 0 s.uncounted)) [
    | inl some_left ↦ rw some_left (record {
      in_order = v.in_order;
      channel_fits = v.channel_fits;
      results_fit = v.results_fit;
    })
    | inr none_left ↦ rw none_left v
  ]

  take_next-IsServed :
      (queue : List SaveWork) (s : SaveWorker M)
      → s.hand ≡ idle
      → s.channel ≡ queue
      → IsServed s
      → IsServed (take_next queue s)
  take_next-IsServed [] s free e v = v
  take_next-IsServed (work ∷ rest) s free e v = record {
    in_order =
        ap (λ works. works_of s.received ++ (works_of s.results ++ works)) (moved free e)
        ∙ v.in_order;
    channel_fits = let n = ap length e in omega (arith, n, v.channel_fits);
    results_fit = v.results_fit;
  }
    where
      moved : s.hand ≡ idle → s.channel ≡ work ∷ rest → work ∷ rest ≡ in_hand s.hand ++ s.channel
      moved free e = cc

  pub take_from-IsServed :
      (hand : Hand M) (s : SaveWorker M) → s.hand ≡ hand → IsServed s → IsServed (take_from hand s)
  take_from-IsServed idle s e v = take_next-IsServed s.channel s e refl v
  take_from-IsServed (working work) s e v = v
  take_from-IsServed (sending work result) s e v = v

  pub save_from-IsServed :
      (answers : Answers M) (hand : Hand M) (s : SaveWorker M)
      → s.hand ≡ hand
      → IsServed s
      → IsServed (save_from answers hand s)
  save_from-IsServed answers idle s e v = v
  save_from-IsServed answers (sending work result) s e v = v
  save_from-IsServed answers (working work) s e v = record {
    in_order =
        ap (λ held. works_of s.received ++ (works_of s.results ++ (held ++ s.channel)))
          (sym (ap in_hand e))
        ∙ v.in_order;
    channel_fits = v.channel_fits;
    results_fit = v.results_fit;
  }

  pub send_from-IsServed :
      (hand : Hand M) (s : SaveWorker M) → s.hand ≡ hand → IsServed s → IsServed (send_from hand s)
  send_from-IsServed idle s e v = v
  send_from-IsServed (working work) s e v = v
  send_from-IsServed (sending work result) s e v =
      elim (Bool-cases (leb save_queue_bound (length s.results))) [
        | inl full ↦ rw full v
        | inr room ↦ rw room (record {
          in_order =
              ap (λ works. works_of s.received ++ (works ++ s.channel))
                (works_of-append s.results ((work, result) ∷ []))
              ∙ ap (λ works. works_of s.received ++ works)
                  (append_assoc (works_of s.results) (work ∷ []) s.channel)
              ∙ ap (λ held. works_of s.received ++ (works_of s.results ++ (held ++ s.channel)))
                  (sym (ap in_hand e))
              ∙ v.in_order;
          channel_fits = v.channel_fits;
          results_fit = ground (arith, length-append s.results ((work, result) ∷ []));
        })
      ]

  pub drain_results-IsServed : (s : SaveWorker M) → IsServed s → IsServed (drain_results s)
  drain_results-IsServed s v = record {
    in_order =
        ap (λ works. works ++ (in_hand s.hand ++ s.channel)) (works_of-append s.received s.results)
        ∙ append_assoc (works_of s.received) (works_of s.results) (in_hand s.hand ++ s.channel)
        ∙ v.in_order;
    channel_fits = v.channel_fits;
    results_fit = omega arith;
  }

  step_worker-IsServed : (e : Event M) (s : SaveWorker M) → IsServed s → IsServed (step_worker e s)
  unfolding step_worker submit_work
  step_worker-IsServed (submits work) s v =
      admit-IsServed work s.accepting (leb save_queue_bound (length s.channel)) s refl v
  step_worker-IsServed counts_submission s v = finish_submit-IsServed s v
  step_worker-IsServed takes s v = take_from-IsServed s.hand s refl v
  step_worker-IsServed (saves answers) s v = save_from-IsServed answers s.hand s refl v
  step_worker-IsServed sends s v = send_from-IsServed s.hand s refl v
  step_worker-IsServed drains s v = drain_results-IsServed s v
  step_worker-IsServed closes s v = record {
    in_order = v.in_order;
    channel_fits = v.channel_fits;
    results_fit = v.results_fit;
  }

  runs-IsServed :
      (events : List (Event M)) (s : SaveWorker M) → IsServed s → IsServed (run_worker events s)
  runs-IsServed [] s v = v
  runs-IsServed (e ∷ later) s v = runs-IsServed later (step_worker e s) (step_worker-IsServed e s v)

-- However submissions, the worker's rounds, receipts and the closing of the channel interleave,
-- every submission that was accepted stays in order: the received results, the results that wait,
-- the work in the worker's hand and the work in the channel are about the accepted submissions, one
-- each and in the order of submission. Neither channel holds more than its bound of eight.
pub run_worker-IsServed :
    {M : Type 0} (events : List (Event M)) → IsServed (run_worker events new_save_worker)
run_worker-IsServed events =
    runs-IsServed events new_save_worker
      (record { in_order = refl; channel_fits = omega arith; results_fit = omega arith })
