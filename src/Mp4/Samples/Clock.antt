-- ===== src/Mp4/Samples/Clock.antt =====
-- The clock of an audio track: where `audio_samples` puts its frames.
use silk_studio.Prelude.{
  ℕ, ◌+◌, ◌-◌, ◌*◌, ◌/◌, ◌^◌, ◌≤◌, ◌<◌, ◌≡◌, min, All, ◌⊎◌, subst, List, [], ◌∷◌, ok, >>=-eq-ok,
  >>-eq-ok, ok_injective, arith,
}
use silk_studio.Prelude.Int.{pos_part}
use silk_studio.Prelude.Words.{u64_max, saturating_add_u64}
use silk_studio.Media.Packet.{EncodedPacket}
use silk_studio.Mp4.Error.{Mp4Error, audio_start_overflow}
use silk_studio.Mp4.Samples.Order.{Placed, PreparedSample}
use silk_studio.Mp4.Samples.Audio.{
  aac_lc_samples_per_frame, ticks_of, audio_frame, require_frame, audio_sample, audio_loop,
  first_dts_ms, audio_samples,
}

-- The tick of a packet's decode time.
abbrev pub packet_ticks : (sample_rate : ℕ) → EncodedPacket → ℕ
packet_ticks sample_rate p = pos_part p.dts * sample_rate / 1000

-- A frame's start, where one is expected: there, unless the packet's own tick is more than 40 ms
-- later, and then at that tick.
abbrev pub StartsWell : (sample_rate expected : ℕ) → EncodedPacket → PreparedSample → Type 0
StartsWell sample_rate expected p s =
    (((packet_ticks sample_rate p ≤ expected + sample_rate * 40 / 1000)
        × (s.sample.start_time ≡ expected))
      ⊎ ((expected + sample_rate * 40 / 1000 < packet_ticks sample_rate p)
          × (s.sample.start_time ≡ packet_ticks sample_rate p)))
    × (s.sample.duration ≡ 1024)

-- The end of a frame, or the last tick of 64 bits if that end is beyond it.
abbrev pub frame_end : PreparedSample → ℕ
frame_end s = min (s.sample.start_time + 1024) (2 ^ 64 - 1)

-- A sample for each packet, in order. Each after the first is expected at the end of the one before.
abbrev pub FollowsClock :
    (sample_rate expected : ℕ) → List EncodedPacket → List PreparedSample → Type 0
FollowsClock sample_rate expected [] [] = Unit
FollowsClock sample_rate expected [] (s ∷ ss) = ⊥
FollowsClock sample_rate expected (p ∷ ps) [] = ⊥
FollowsClock sample_rate expected (p ∷ ps) (s ∷ ss) =
    StartsWell sample_rate expected p s × FollowsClock sample_rate (frame_end s) ps ss

-- No frame starts before the end of an earlier one, but where that end is beyond the last tick.
abbrev pub DoNotOverlap : List PreparedSample → Type 0
DoNotOverlap [] = Unit
DoNotOverlap (s ∷ ss) = All (λ t. frame_end s ≤ t.sample.start_time) ss × DoNotOverlap ss

ticks_of-eq-ok :
    (sample_rate : ℕ) (p : EncodedPacket) (e : Mp4Error) {ticks : ℕ}
    → ticks_of sample_rate p.dts e ≡ ok ticks
    → (packet_ticks sample_rate p ≡ ticks) × (ticks ≤ u64_max)
unfolding ticks_of
ticks_of-eq-ok sample_rate p e done = ground arith

start_after-StartsWell :
    (place : Placed) (sample_rate expected ticks : ℕ) (p : EncodedPacket)
    → packet_ticks sample_rate p ≡ ticks
    → ticks ≤ u64_max
    → StartsWell sample_rate expected p (audio_frame place sample_rate expected ticks p)
start_after-StartsWell place sample_rate expected ticks p said fits = ground arith

audio_sample-StartsWell :
    (place : Placed) (sample_rate expected : ℕ) (p : EncodedPacket) {s : PreparedSample}
    → audio_sample place sample_rate expected p ≡ ok s
    → StartsWell sample_rate expected p s
unfolding audio_sample
audio_sample-StartsWell place sample_rate expected p {s} done =
    let (ticks, clock, later) = >>=-eq-ok (ticks_of sample_rate p.dts _) _ done in
    let (said, fits) = ticks_of-eq-ok sample_rate p _ clock in
    subst (StartsWell sample_rate expected p) (>>-eq-ok (require_frame place.stream_id p) later)
      (start_after-StartsWell place sample_rate expected ticks p said fits)

audio_loop-FollowsClock :
    (place : Placed) (sample_rate : ℕ) (ps : List EncodedPacket) (expected : ℕ)
    (ss : List PreparedSample)
    → audio_loop place sample_rate expected ps ≡ ok ss
    → FollowsClock sample_rate expected ps ss
unfolding audio_loop
audio_loop-FollowsClock place sample_rate [] expected [] done = tt
audio_loop-FollowsClock place sample_rate [] expected (s ∷ ss) done = cc
audio_loop-FollowsClock place sample_rate (p ∷ ps) expected ss done =
    let (now, first, rest) = >>=-eq-ok (audio_sample place sample_rate expected p) _ done in
    let (later, then_rest, joined) =
      >>=-eq-ok
        (audio_loop place sample_rate
          (saturating_add_u64 now.sample.start_time aac_lc_samples_per_frame) ps)
        _ rest in
    let start = audio_sample-StartsWell place sample_rate expected p first in
    let after =
      audio_loop-FollowsClock place sample_rate ps
        (saturating_add_u64 now.sample.start_time aac_lc_samples_per_frame) later then_rest in
    let next : saturating_add_u64 now.sample.start_time aac_lc_samples_per_frame ≡ frame_end now =
      ground arith in
    let shown : FollowsClock sample_rate expected (p ∷ ps) (now ∷ later) =
      (start, subst (λ n. FollowsClock sample_rate n ps later) next after) in
    subst (FollowsClock sample_rate expected (p ∷ ps)) (ok_injective joined) shown

-- No frame starts before the tick where the first is expected, unless that is beyond the last tick.
FollowsClock-never_before :
    (sample_rate from : ℕ) (ps : List EncodedPacket) (expected : ℕ) (ss : List PreparedSample)
    → FollowsClock sample_rate expected ps ss
    → from ≤ expected
    → from ≤ 2 ^ 64 - 1
    → All (λ t. from ≤ t.sample.start_time) ss
FollowsClock-never_before sample_rate from [] expected [] h below fits = tt
FollowsClock-never_before sample_rate from [] expected (s ∷ ss) h below fits = absurd h
FollowsClock-never_before sample_rate from (p ∷ ps) expected [] h below fits = absurd h
FollowsClock-never_before sample_rate from (p ∷ ps) expected (s ∷ ss) (here, later) below fits =
    let start : from ≤ s.sample.start_time = ground arith in
    let next : from ≤ frame_end s = omega arith in
    (start, FollowsClock-never_before sample_rate from ps (frame_end s) ss later next fits)

FollowsClock-DoNotOverlap :
    (sample_rate : ℕ) (ps : List EncodedPacket) (expected : ℕ) (ss : List PreparedSample)
    → FollowsClock sample_rate expected ps ss
    → DoNotOverlap ss
FollowsClock-DoNotOverlap sample_rate [] expected [] h = tt
FollowsClock-DoNotOverlap sample_rate [] expected (s ∷ ss) h = absurd h
FollowsClock-DoNotOverlap sample_rate (p ∷ ps) expected [] h = absurd h
FollowsClock-DoNotOverlap sample_rate (p ∷ ps) expected (s ∷ ss) (here, later) = (
  FollowsClock-never_before sample_rate (frame_end s) ps (frame_end s) ss later (omega arith)
      (omega arith),
  FollowsClock-DoNotOverlap sample_rate ps (frame_end s) ss later,
)

-- An audio track whose samples are prepared has one for each packet, in order. Each lasts 1024 ticks
-- and starts where it is expected, unless its packet's own tick is later by more than the ticks of
-- 40 ms (rounded down); then it starts at that tick. The first is expected at the first packet's
-- tick, each other at the end of the one before, or at tick 2 ^ 64 - 1 if that end is beyond it. So
-- no frame starts before the end of an earlier one that is at most 2 ^ 64 - 1.
pub audio_samples-FollowsClock :
    (place : Placed) (sample_rate : ℕ) (ps : List EncodedPacket) (ss : List PreparedSample)
    → audio_samples place sample_rate ps ≡ ok ss
    → FollowsClock sample_rate (pos_part (first_dts_ms ps) * sample_rate / 1000) ps ss
      × DoNotOverlap ss
unfolding audio_samples ticks_of
audio_samples-FollowsClock place sample_rate ps ss done =
    let (initial, clock, rest) =
      >>=-eq-ok (ticks_of sample_rate (first_dts_ms ps) audio_start_overflow) _ done in
    let said : initial ≡ pos_part (first_dts_ms ps) * sample_rate / 1000 = ground arith in
    let follows = audio_loop-FollowsClock place sample_rate ps initial ss rest in
    (
      subst (λ e. FollowsClock sample_rate e ps ss) said follows,
      FollowsClock-DoNotOverlap sample_rate ps initial ss follows,
    )
