-- ===== src/Mp4/Samples/Taken.antt =====
-- Which packets the samples are of (`sorted_mp4_packets` of crates/muxer/src/mp4_muxer.rs).
use silk_studio.Prelude.{
  ℕ, ◌≡◌, ◌⊎◌, refl, sym, subst, List, [], ◌∷◌, ◌++◌, get_elem?, some, Option-cases, inl, inr, ok,
  ◌>>=◌, >>=-eq-ok, >>-eq-ok, ok_injective, ok_or, head?, Option, arith,
}
use silk_studio.Prelude.Words.{saturating_add_u64}
use silk_studio.Media.Packet.{EncodedPacket, MediaType, video, audio}
use silk_studio.Media.Snapshot.{StreamPackets}
use silk_studio.Mp4.Codec.{VideoCodec, video_codec_from_str}
use silk_studio.Mp4.Error.{
  negative_start, duration_too_long, unsupported_video_codec, audio_start_overflow,
}
use silk_studio.Mp4.Samples.Audio.{
  aac_lc_samples_per_frame, ticks_of, require_frame, audio_sample, audio_loop, first_dts_ms,
  audio_samples,
}
use silk_studio.Mp4.Samples.Order.{Placed, PreparedSample}
use silk_studio.Mp4.Samples.Video.{
  to_u64, to_u32, raw_duration, require_duration, require_payload, composition_offset,
  video_payload, video_sample, video_samples,
}
use silk_studio.Mp4.Samples
use silk_studio.Mp4.Tracks.{PreparedTrack}

-- A sample of a packet, at the place of its track.
abbrev pub OfPacket : Placed → EncodedPacket → PreparedSample → Type 0
OfPacket place p s =
    (s.dts_ms ≡ p.dts)
    × (s.sequence ≡ p.sequence)
    × (s.track_id ≡ place.track_id)
    × (s.stream_index ≡ place.stream_index)

-- A sample for each packet, in order.
abbrev pub OfPackets : Placed → List EncodedPacket → List PreparedSample → Type 0
OfPackets place [] [] = Unit
OfPackets place [] (s ∷ ss) = ⊥
OfPackets place (p ∷ ps) [] = ⊥
OfPackets place (p ∷ ps) (s ∷ ss) = OfPacket place p s × OfPackets place ps ss

-- The samples of the tracks, one track after the other: each track's are of the packets of the
-- stream at its index.
abbrev pub OfTracks : List StreamPackets → List PreparedTrack → List PreparedSample → Type 0
OfTracks streams [] samples = samples ≡ []
OfTracks streams (t ∷ ts) samples =
    (s : StreamPackets) × (own later : List PreparedSample) × (get_elem? streams t.stream_index
      ≡ some s)
    × OfPackets (Samples.place t) s.packets own
    × (samples ≡ own ++ later)
    × OfTracks streams ts later

audio_sample-OfPacket :
    (place : Placed) (sample_rate expected : ℕ) (p : EncodedPacket) {s : PreparedSample}
    → audio_sample place sample_rate expected p ≡ ok s
    → OfPacket place p s
unfolding audio_sample
audio_sample-OfPacket place sample_rate expected p {s} done =
    let (ticks, clock, later) = >>=-eq-ok (ticks_of sample_rate p.dts _) _ done in
    subst (OfPacket place p) (>>-eq-ok (require_frame place.stream_id p) later)
      (refl, refl, refl, refl)

audio_loop-OfPackets :
    (place : Placed) (sample_rate : ℕ) (ps : List EncodedPacket) (expected : ℕ)
    (ss : List PreparedSample)
    → audio_loop place sample_rate expected ps ≡ ok ss
    → OfPackets place ps ss
unfolding audio_loop
audio_loop-OfPackets place sample_rate [] expected [] done = tt
audio_loop-OfPackets place sample_rate [] expected (s ∷ ss) done = cc
audio_loop-OfPackets place sample_rate (p ∷ ps) expected ss done =
    let (now, first, rest) = >>=-eq-ok (audio_sample place sample_rate expected p) _ done in
    let next = saturating_add_u64 now.sample.start_time aac_lc_samples_per_frame in
    let (later, then_rest, joined) = >>=-eq-ok (audio_loop place sample_rate next ps) _ rest in
    subst (OfPackets place (p ∷ ps)) (ok_injective joined) (
      audio_sample-OfPacket place sample_rate expected p first,
      audio_loop-OfPackets place sample_rate ps next later then_rest,
    )

video_sample-OfPacket :
    (place : Placed) (codec : VideoCodec) (p : EncodedPacket) (next : Option EncodedPacket)
    {s : PreparedSample}
    → video_sample place codec p next ≡ ok s
    → OfPacket place p s
unfolding video_sample
video_sample-OfPacket place codec p next {s} done =
    let (start, _, after_start) = >>=-eq-ok (ok_or (to_u64 p.dts) negative_start) _ done in
    let (u, _, after_check) = >>=-eq-ok (require_duration p) _ after_start in
    let (lasts, _, after_end) =
      >>=-eq-ok (ok_or (to_u32 (raw_duration p next)) duration_too_long) _ after_check in
    let (offset, _, after_offset) = >>=-eq-ok (composition_offset p) _ after_end in
    let (payload, _, last) = >>=-eq-ok (video_payload codec p.payload) _ after_offset in
    subst (OfPacket place p) (>>-eq-ok (require_payload place.stream_id payload) last)
      (refl, refl, refl, refl)

video_samples-OfPackets :
    (place : Placed) (codec : VideoCodec) (ps : List EncodedPacket) (ss : List PreparedSample)
    → video_samples place codec ps ≡ ok ss
    → OfPackets place ps ss
unfolding video_samples
video_samples-OfPackets place codec [] [] done = tt
video_samples-OfPackets place codec [] (s ∷ ss) done = cc
video_samples-OfPackets place codec (p ∷ ps) ss done =
    let (now, first, rest) = >>=-eq-ok (video_sample place codec p (head? ps)) _ done in
    let (later, then_rest, joined) = >>=-eq-ok (video_samples place codec ps) _ rest in
    subst (OfPackets place (p ∷ ps)) (ok_injective joined) (
      video_sample-OfPacket place codec p (head? ps) first,
      video_samples-OfPackets place codec ps later then_rest,
    )

audio_samples-OfPackets :
    (place : Placed) (sample_rate : ℕ) (ps : List EncodedPacket) (ss : List PreparedSample)
    → audio_samples place sample_rate ps ≡ ok ss
    → OfPackets place ps ss
unfolding audio_samples
audio_samples-OfPackets place sample_rate ps ss done =
    let (initial, _, rest) =
      >>=-eq-ok (ticks_of sample_rate (first_dts_ms ps) audio_start_overflow) _ done in
    audio_loop-OfPackets place sample_rate ps initial ss rest

-- What the samples of a track are of.
abbrev OfTrack : List StreamPackets → PreparedTrack → List PreparedSample → Type 0
OfTrack streams t own =
    (s : StreamPackets) × (get_elem? streams t.stream_index ≡ some s)
    × OfPackets (Samples.place t) s.packets own

media_cases : (m : MediaType) → (m ≡ video) ⊎ (m ≡ audio)
media_cases video = inl refl
media_cases audio = inr refl

stream_samples-OfPackets :
    (streams : List StreamPackets) (t : PreparedTrack) (s : StreamPackets)
    (own : List PreparedSample)
    → get_elem? streams t.stream_index ≡ some s
    → Samples.track_samples streams t ≡ ok own
    → OfPackets (Samples.place t) s.packets own
unfolding Samples.track_samples
stream_samples-OfPackets streams t s own at done = elim (media_cases t.media_type) [
  | inl is_video ↦
      let chosen : ok_or (video_codec_from_str t.codec) (unsupported_video_codec t.stream_id)
            >>= (λ codec. video_samples (Samples.place t) codec s.packets)
          ≡ ok own =
        ground arith in
      let (codec, _, rest) =
        >>=-eq-ok (ok_or (video_codec_from_str t.codec) (unsupported_video_codec t.stream_id)) _
          chosen in
      video_samples-OfPackets (Samples.place t) codec s.packets own rest
  | inr is_audio ↦
      audio_samples-OfPackets (Samples.place t) t.timescale s.packets own (ground arith)
]

track_samples-OfTrack :
    (streams : List StreamPackets) (t : PreparedTrack) (own : List PreparedSample)
    → Samples.track_samples streams t ≡ ok own
    → OfTrack streams t own
unfolding Samples.track_samples
track_samples-OfTrack streams t own done = elim (Option-cases (get_elem? streams t.stream_index)) [
  | inl outside ↦ absurd (ground arith)
  | inr (s, at) ↦ (s, at, stream_samples-OfPackets streams t s own at done)
]

pub all_samples-OfTracks :
    (streams : List StreamPackets) (ts : List PreparedTrack) (samples : List PreparedSample)
    → Samples.all_samples streams ts ≡ ok samples
    → OfTracks streams ts samples
unfolding Samples.all_samples
all_samples-OfTracks streams [] samples done = sym (ok_injective done)
all_samples-OfTracks streams (t ∷ ts) samples done =
    let (now, first, rest) = >>=-eq-ok (Samples.track_samples streams t) _ done in
    let (later, others, joined) = >>=-eq-ok (Samples.all_samples streams ts) _ rest in
    let (s, at, own) = track_samples-OfTrack streams t now first in
    (
      s,
      now,
      later,
      at,
      own,
      sym (ok_injective joined),
      all_samples-OfTracks streams ts later others,
    )
