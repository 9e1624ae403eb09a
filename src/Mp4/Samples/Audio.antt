-- ===== src/Mp4/Samples/Audio.antt =====
-- The samples of an audio track: the audio branch of `sorted_mp4_packets`
-- (crates/muxer/src/mp4_muxer.rs). A frame is 1024 ticks, and the track's clock runs on from frame to
-- frame, but for a pause.
use silk_studio.Prelude.{
  ℕ, ◌*◌, ◌/◌, true, List, [], ◌∷◌, ltb, if◌then◌else◌, is_empty, Result, ok, err, ◌>>=◌, ◌>>◌,
}
use silk_studio.Prelude.Int.{ℤ, pos, pos_part}
use silk_studio.Prelude.Words.{u64_max, u128_max, saturating_add_u64}
use silk_studio.Media.Packet.{EncodedPacket}
use silk_studio.Mp4.Error.{Mp4Error, empty_payload, audio_start_overflow, audio_time_overflow}
use silk_studio.Mp4.Samples.Adts.{strip_adts_if_present}
use silk_studio.Mp4.Samples.Order.{Placed, PreparedSample}

-- `AAC_LC_SAMPLES_PER_FRAME`
abbrev pub aac_lc_samples_per_frame : ℕ
aac_lc_samples_per_frame = 1024

-- A time in milliseconds as ticks, from 0 on: `dts.max(0)` is the positive part.
unfoldable pub ticks_of : (sample_rate : ℕ) → ℤ → Mp4Error → Result Mp4Error ℕ
ticks_of sample_rate dts overflow =
    let product = pos_part dts * sample_rate in
    if ltb u128_max product
    then err overflow
    else if ltb u64_max (product / 1000)
    then err overflow
    else ok (product / 1000)

abbrev pub pause_threshold_ticks : ℕ → ℕ
pause_threshold_ticks sample_rate = sample_rate * 40 / 1000

abbrev pub start_after : (sample_rate expected ticks : ℕ) → ℕ
start_after sample_rate expected ticks =
    if ltb (saturating_add_u64 expected (pause_threshold_ticks sample_rate)) ticks
    then ticks
    else expected

abbrev pub audio_frame : Placed → (sample_rate expected ticks : ℕ) → EncodedPacket → PreparedSample
audio_frame place sample_rate expected ticks p = record {
  track_id = place.track_id;
  dts_ms = p.dts;
  sequence = p.sequence;
  stream_index = place.stream_index;
  sample = record {
    start_time = start_after sample_rate expected ticks;
    duration = aac_lc_samples_per_frame;
    rendering_offset = pos 0;
    is_sync = true;
    bytes = strip_adts_if_present p.payload;
  };
}

abbrev pub require_frame : (stream_id : ℕ) → EncodedPacket → Result Mp4Error (Unit {0})
require_frame stream_id p =
    if is_empty (strip_adts_if_present p.payload) then err (empty_payload stream_id) else ok tt

-- The body of the loop over the packets, at the tick that is expected.
unfoldable pub audio_sample :
    Placed → (sample_rate expected : ℕ) → EncodedPacket → Result Mp4Error PreparedSample
audio_sample place sample_rate expected p =
    ticks_of sample_rate p.dts audio_time_overflow >>= λ ticks.
    require_frame place.stream_id p >> ok (audio_frame place sample_rate expected ticks p)

unfoldable pub audio_loop :
    Placed → (sample_rate expected : ℕ) → List EncodedPacket → Result Mp4Error (List PreparedSample)
audio_loop place sample_rate expected [] = ok []
audio_loop place sample_rate expected (p ∷ ps) =
    audio_sample place sample_rate expected p >>= λ now.
    audio_loop place sample_rate (saturating_add_u64 now.sample.start_time aac_lc_samples_per_frame)
      ps
    >>= λ later. ok (now ∷ later)

abbrev pub first_dts_ms : List EncodedPacket → ℤ
first_dts_ms [] = pos 0
first_dts_ms (p ∷ ps) = p.dts

unfoldable pub audio_samples :
    Placed → (sample_rate : ℕ) → List EncodedPacket → Result Mp4Error (List PreparedSample)
audio_samples place sample_rate ps =
    ticks_of sample_rate (first_dts_ms ps) audio_start_overflow >>= λ initial.
    audio_loop place sample_rate initial ps
