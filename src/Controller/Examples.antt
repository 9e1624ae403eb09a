-- ===== src/Controller/Examples.antt =====
-- Tests of the save worker, and the theorems applied to it. A clip's metadata is a number here.
use Prim.Native.String.{String}
use silk_studio.Prelude.{ℕ, ◌≡◌, refl, List, [], ◌∷◌, some, arith, length, ok}
use silk_studio.Prelude.Int.{pos}
use silk_studio.Media.TimeBase.{millisecond}
use silk_studio.Media.Snapshot.{MediaSnapshot, packet_count}
use silk_studio.Controller.Jobs.{
  SaveWork, completed, failed, insufficient_disk_space, Answers, save_result, count_save,
  required_free_space, new_save_worker,
}
use silk_studio.Controller.Jobs.Events.{
  Event, submits, counts_submission, takes, saves, sends, drains, closes, submit_work, step_worker,
  run_worker,
}
use silk_studio.Controller.Jobs.Ordered.{IsServed, works_of, run_worker-IsServed}
use silk_studio.Controller.Jobs.Shutdown.{shutdown, shutdown-run_worker}
use silk_studio.Controller.Jobs.Counted.{IsCounted, run_worker-IsCounted}

abbrev empty_snapshot : MediaSnapshot
empty_snapshot = record {
  origin_pts = pos 0;
  time_base = millisecond;
  streams = [];
  captured_at_unix_ms = 0;
}

abbrev clip_work : String → SaveWork
clip_work path = record {
  snapshot = empty_snapshot;
  clip_path = path;
  minimum_free_space_bytes = 1000;
}

space_test : required_free_space empty_snapshot 1000 ≡ 1049576
unfolding required_free_space packet_count
space_test = refl

abbrev roomy : Answers ℕ
roomy = record { probe = some 2000000; written = ok 7; duration_ms = 40 }

abbrev cramped : Answers ℕ
cramped = record { probe = some 1049575; written = ok 7; duration_ms = 2 }

-- Two submissions, of which the first is taken before it is counted; the second finds no room on the
-- disk; a third comes after the channel is closed.
abbrev save_events : List (Event ℕ)
save_events =
    submits (clip_work "a.mp4")
    ∷ takes
    ∷ counts_submission
    ∷ submits (clip_work "b.mp4")
    ∷ saves roomy
    ∷ sends
    ∷ counts_submission
    ∷ closes
    ∷ submits (clip_work "c.mp4")
    ∷ takes
    ∷ saves cramped
    ∷ sends
    ∷ drains
    ∷ []

save_events_test :
    (run_worker save_events new_save_worker).received
    ≡ (clip_work "a.mp4", completed 7)
      ∷ (clip_work "b.mp4", failed "b.mp4" (insufficient_disk_space 1049575 1049576))
      ∷ []
unfolding step_worker submit_work save_result count_save required_free_space packet_count
save_events_test = refl

run_worker-IsServed_example : IsServed (run_worker save_events new_save_worker)
run_worker-IsServed_example = run_worker-IsServed save_events

run_worker-IsCounted_example :
    IsCounted (length save_events) (run_worker save_events new_save_worker)
run_worker-IsCounted_example = run_worker-IsCounted save_events (omega arith)

-- Two submissions are left when the worker is shut down.
abbrev early_events : List (Event ℕ)
early_events = submits (clip_work "a.mp4") ∷ submits (clip_work "b.mp4") ∷ takes ∷ []

shutdown-run_worker_example :
    works_of (shutdown (λ round. roomy) (run_worker early_events new_save_worker)).received
    ≡ (run_worker early_events new_save_worker).accepted
shutdown-run_worker_example = shutdown-run_worker early_events (λ round. roomy)
