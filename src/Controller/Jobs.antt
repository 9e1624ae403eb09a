-- ===== src/Controller/Jobs.antt =====
-- Save jobs (crates/app-controller/src/jobs.rs): the bounded channel of save work, the worker's
-- rounds, its telemetry and its results. What the disk, the muxer and the clock answer to a piece of
-- work is a parameter; so is the type of a clip's metadata. The lock of the metrics is never
-- poisoned, since no update panics.
pub mod Events
pub mod Ordered
pub mod Counted
pub mod Shutdown
use Prim.Native.String.{String}
use silk_studio.Prelude.{
  ℕ, ◌+◌, ◌-◌, ◌*◌, ◌%◌, ◌^◌, Bool, true, false, List, [], ◌∷◌, ◌++◌, Option, none, some, ltb, leb,
  if◌then◌else◌, length, drop, head?, Result, ok, err,
}
use silk_studio.Prelude.Words.{add_u64, saturating_add_u64}
use silk_studio.Media.Packet.{EncodedPacket, payload_len}
use silk_studio.Media.Snapshot.{StreamPackets, MediaSnapshot, packet_count}

-- `SAVE_QUEUE_BOUND`, `FIXED_OUTPUT_OVERHEAD_BYTES` and `PACKET_OUTPUT_OVERHEAD_BYTES`
abbrev pub save_queue_bound : ℕ
save_queue_bound = 8

abbrev pub fixed_output_overhead_bytes : ℕ
fixed_output_overhead_bytes = 1024 * 1024

abbrev pub packet_output_overhead_bytes : ℕ
packet_output_overhead_bytes = 64

pub data JobQueueError : Type 0 where
  queue_full : (bound : ℕ) → JobQueueError
  worker_stopped : JobQueueError

-- `SaveWork`, but for the options, which only the muxer reads.
pub record SaveWork : Type 0 where
  pub snapshot : MediaSnapshot
  pub clip_path : String
  pub minimum_free_space_bytes : ℕ

-- The errors of a save: the two that the worker tells apart, and all others.
pub data WriteError : Type 0 where
  insufficient_disk_space : (available_bytes required_bytes : ℕ) → WriteError
  output_directory_unavailable : WriteError
  other_error : String → WriteError

pub data SaveResult (M : Type 0) : Type 0 where
  completed : M → SaveResult M
  failed : (path : String) → WriteError → SaveResult M

pub record SaveMetrics : Type 0 where
  pub saves_queued : ℕ
  pub saves_completed : ℕ
  pub saves_failed : ℕ
  pub queue_full_count : ℕ
  pub mux_failures : ℕ
  pub total_save_duration_ms : ℕ
  pub last_save_duration_ms : ℕ
  pub available_disk_space_bytes : Option ℕ

abbrev pub no_saves : SaveMetrics
no_saves = record {
  saves_queued = 0;
  saves_completed = 0;
  saves_failed = 0;
  queue_full_count = 0;
  mux_failures = 0;
  total_save_duration_ms = 0;
  last_save_duration_ms = 0;
  available_disk_space_bytes = none;
}

-- The sums of `required_free_space` over a stream's packets, and over the streams; `sum` wraps.
abbrev pub packet_bytes : List EncodedPacket → ℕ
packet_bytes [] = 0
packet_bytes (p ∷ ps) = add_u64 (payload_len p.payload) (packet_bytes ps)

abbrev pub payload_bytes : List StreamPackets → ℕ
payload_bytes [] = 0
payload_bytes (s ∷ ss) = add_u64 (packet_bytes s.packets) (payload_bytes ss)

abbrev saturating_mul_u64 : ℕ → ℕ → ℕ
saturating_mul_u64 a b = if leb (a * b) (2 ^ 64 - 1) then a * b else 2 ^ 64 - 1

-- `required_free_space`
unfoldable pub required_free_space : MediaSnapshot → ℕ → ℕ
unfolding packet_count
required_free_space snapshot minimum =
    saturating_add_u64
      (saturating_add_u64 (saturating_add_u64 minimum fixed_output_overhead_bytes)
        (payload_bytes snapshot.streams))
      (saturating_mul_u64 (packet_count snapshot.streams) packet_output_overhead_bytes)

-- What is outside answers to one piece of work: the free space, the muxer's outcome, and the time.
pub record Answers (M : Type 0) : Type 0 where
  pub probe : Option ℕ
  pub written : Result WriteError M
  pub duration_ms : ℕ

abbrev pub is_mux_failure : WriteError → Bool
is_mux_failure (insufficient_disk_space available required) = false
is_mux_failure output_directory_unavailable = false
is_mux_failure (other_error details) = true

abbrev pub count_failure : WriteError → SaveMetrics → SaveMetrics
count_failure e m = record m {
  saves_failed = saturating_add_u64 m.saves_failed 1;
  mux_failures = if is_mux_failure e then saturating_add_u64 m.mux_failures 1 else m.mux_failures;
}

abbrev pub note_space : Option ℕ → SaveMetrics → SaveMetrics
note_space none m = m
note_space (some available) m = record m { available_disk_space_bytes = some available }

module _ {M : Type 0} where
  abbrev pub write_result : String → Result WriteError M → SaveResult M
  write_result path (ok metadata) = completed metadata
  write_result path (err e) = failed path e

  -- The result of one piece of work.
  unfoldable pub save_result : Answers M → SaveWork → SaveResult M
  unfolding required_free_space
  save_result answers work = elim answers.probe [
    | none ↦ failed work.clip_path output_directory_unavailable
    | some available ↦
        let required = required_free_space work.snapshot work.minimum_free_space_bytes in
        if ltb available required
        then failed work.clip_path (insufficient_disk_space available required)
        else write_result work.clip_path answers.written
  ]

  abbrev pub count_result : SaveResult M → SaveMetrics → SaveMetrics
  count_result (completed metadata) m = record m {
    saves_completed = saturating_add_u64 m.saves_completed 1;
  }
  count_result (failed path e) m = count_failure e m

  -- The metrics after one piece of work.
  unfoldable pub count_save : Answers M → SaveResult M → SaveMetrics → SaveMetrics
  count_save answers result m =
      let noted = note_space answers.probe m in
      count_result result (record noted {
        last_save_duration_ms = answers.duration_ms;
        total_save_duration_ms =
            saturating_add_u64 noted.total_save_duration_ms answers.duration_ms;
      })

-- The worker's hand: nothing, the work that it saves, or a result that waits for room.
pub data Hand (M : Type 0) : Type 0 where
  idle : Hand M
  working : SaveWork → Hand M
  sending : SaveWork → SaveResult M → Hand M

-- `SaveWorker` and its thread. Each result is kept with the work that it is about, and beside the
-- program's own state stand the submissions that were accepted, the results that were received, and
-- the numbers of submissions refused and of those accepted but not counted yet.
pub record SaveWorker (M : Type 0) : Type 0 where
  pub accepting : Bool
  pub channel : List SaveWork
  pub hand : Hand M
  pub results : List (SaveWork × SaveResult M)
  pub metrics : SaveMetrics
  pub accepted : List SaveWork
  pub received : List (SaveWork × SaveResult M)
  pub refused : ℕ
  pub uncounted : ℕ

abbrev pub new_save_worker : {M : Type 0} → SaveWorker M
new_save_worker = record {
  accepting = true;
  channel = [];
  hand = idle;
  results = [];
  metrics = no_saves;
  accepted = [];
  received = [];
  refused = 0;
  uncounted = 0;
}

-- `SaveJobManager`: the deterministic queue of jobs, `submit` and `process_next`.
unfoldable pub submit_job : String → List String → Result JobQueueError (List String)
submit_job job queue =
    if leb save_queue_bound (length queue)
    then err (queue_full save_queue_bound)
    else ok (queue ++ job ∷ [])

abbrev pub process_next : List String → Option String × List String
process_next queue = (head? queue, drop 1 queue)
