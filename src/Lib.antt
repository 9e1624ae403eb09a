-- ===== src/Lib.antt =====
-- Silk Studio records the screen and audio into a bounded replay buffer and saves the last minutes
-- as a clip; a second part makes a clip fit a number of bytes. These modules model the parts of it
-- that decide what is kept, what is saved and what is exported.
--
-- The parts and how they interact:
--   Media (crates/media-types, crates/media-clock): time bases, packets, snapshots, and the timeline
--     that turns a source's stamps into shared milliseconds. Media.TimeBase.rescale is
--     TimeBase::rescale, where none is its panic; Media.Timeline.to_shared is
--     MediaTimeline::to_shared.
--   Replay (crates/replay-buffer): ReplayBuffer is a record, its BTreeMap a sorted association list
--     (Prelude.SortedMap), and each method a function that returns its result with the buffer.
--     Replay.Buffer holds the state and evict, Replay.Operations what the owner calls,
--     Replay.Snapshots the snapshot and its normalization. Replay.Calls is the calls as data.
--   Recorder (crates/recorder-engine/src/state.rs, engine.rs): the lifecycle table, and the snapshot
--     that a save takes from the buffer (Recorder.Saving), which uses Replay.
--   Muxer (crates/muxer/src/lib.rs): validate_snapshot, which the written snapshot must pass.
--   Mp4 (crates/muxer/src/mp4_muxer.rs): writing a clip. Mp4.Publish is Mp4Muxer::write_snapshot: it
--     checks with Muxer and Mp4.Codec, normalizes (Mp4.Normalize), prepares the tracks (Mp4.Tracks,
--     with the H.264 parameter sets of Mp4.Parameters) and the samples (Mp4.Samples, with the payload
--     formats Mp4.Nal, Mp4.Obu and Mp4.Samples.Adts), writes them to a staged file, scans its boxes
--     (Mp4.Boxes) and renames it to the clip. Mp4.Bits and Mp4.Hevc are BitReader and parse_hevc_sps.
--     A position in bytes is what follows it.
--   Export (crates/clip-export): Export.Planner is planner.rs and Export.Queue is queue.rs. The queue's
--     mutex is modelled by what try_lock answers to each call; cancellation tokens are addresses of
--     flags that workers share, so a signal may come between any two calls (Export.Queue.Calls).
--   Config (crates/configuration/src): Config.Chords is normalize_chord of chords.rs, over the code
--     points of a chord, and Config.Settings the hotkeys' part of validate_settings.
--   Hotkeys (crates/hotkeys/src/lib.rs): Hotkeys.Native is parse_native_chord, which starts with
--     Config's normalize_chord; Hotkeys.Bindings is validate_bindings, to_native_bindings and
--     plan_replacement, and Hotkeys.Bindings.Replaced the registrations of run_hotkey_loop;
--     Hotkeys.Keyboard is ModifierState, handle_event and the WM_HOTKEY branch, with times from a clock
--     that may give anything; Hotkeys.Configured is hotkey_bindings of
--     apps/desktop/src-tauri/src/shell.rs, which makes the bindings of the settings.
--   AudioSync (crates/audio-sync/src/lib.rs): AudioSynchronizer, whose process stamps a chunk with
--     Media.Timeline and converts its samples (AudioSync.Samples). Samples and the arithmetic of f32
--     and f64 are a parameter (AudioSync.Frame.SampleOps); an index that is out of bounds is none.
--   Controller (crates/app-controller/src/jobs.rs): the save worker. Controller.Jobs is its state, the
--     outcome of one piece of work and the metrics; Controller.Jobs.Events is the steps of the worker
--     and of its callers, which interleave in any order, and Controller.Jobs.Shutdown its end, whose
--     rounds are the work in the channel and one more, for the work in the worker's hand. The
--     answers of the muxer and of the disk are parameters, and neither of them panics, so that the
--     thread keeps its end of the channel (no TrySendError::Disconnected).
--
-- Numbers: unsigned words are native numbers with their wrap-around or saturation written out, i64
-- is an integer whose arithmetic wraps (Prelude.Words), as in the release profile of Cargo.toml.
-- Where a theorem needs exact differences, it says how small the timestamps are: 2 ^ 62 ms is more
-- than a hundred million years. The i128 and u128 products of rescale and of the planner are
-- unbounded here; the planner's checks against u128 are written out.
--
-- Fuel: the loops over a packet's bytes in Mp4.Nal and Mp4.Obu and over a file's boxes in Mp4.Boxes
-- take the number of bytes as fuel, which each round lessens. Out of fuel, an AV1 sample and a scan
-- return an error of their own; a size in LEB128 has ten rounds, enough for 64 bits. For the loops
-- over a packet's NAL units see Mp4.Nal.Fuel. Every other loop is structural.
--
-- Not modelled: the window system, whose answers to a registration are a parameter; threads, clocks,
-- files and the platform crates, whose calls are outside this code; crates/mp4-silk, a copy of
-- another project's library. What the file system and that library answer to the MP4 muxer is a
-- parameter (Mp4.Publish.Outside), and so is, for now, whether the
-- HEVC and AV1 configurations of a video stream can be made (extract_hevc_config,
-- extract_av1_config). Payloads are shared by reference counts in the source and never changed, so
-- here they are values. Texts of error messages are left out where only their kind matters.
pub mod Prelude
pub mod Media
pub mod Replay
pub mod Recorder
pub mod Export
pub mod Muxer
pub mod Mp4
pub mod Config
pub mod Hotkeys
pub mod AudioSync
pub mod Controller
