-- ===== src/Muxer/Valid.antt =====
-- What a snapshot that passes `validate_snapshot` (crates/muxer/src/lib.rs) is.
use silk_studio.Prelude.{
  ℕ, ◌≤◌, ◌≡◌, ◌↔◌, refl, sym, ap, subst, ◌∙◌, Bool, true, false, not, ◌&&◌, ◌||◌, List, [], ◌∷◌,
  Option, none, some, arith, any, is_empty, ◌==◌, ok, ◌>>=◌, >>=-eq-ok,
}
use silk_studio.Prelude.Int.{ℤ, pos, ltb_ℤ}
use silk_studio.Media.TimeBase.{TimeBase, millisecond, time_base_eq}
use silk_studio.Media.Packet.{is_video, is_audio, EncodedPacket}
use silk_studio.Media.Snapshot.{StreamDescriptor, StreamPackets, MediaSnapshot}
use silk_studio.Muxer

-- A packet fits its stream.
abbrev pub fits : StreamDescriptor → EncodedPacket → Bool
fits d p =
    p.stream_id == d.stream_id
    && (Muxer.same_media p.media_type d.media_type
        && (time_base_eq p.time_base d.time_base && ltb_ℤ (pos 0) p.duration))

-- Decode times do not go back.
abbrev pub in_order : Option ℤ → List EncodedPacket → Bool
in_order previous [] = true
in_order previous (p ∷ ps) = Muxer.not_before previous p.dts && in_order (some p.dts) ps

abbrev pub all : (EncodedPacket → Bool) → List EncodedPacket → Bool
all test [] = true
all test (p ∷ ps) = test p && all test ps

check_packets_iff :
    (d : StreamDescriptor) (previous : Option ℤ) (ps : List EncodedPacket)
    → (Muxer.check_packets d previous ps ≡ ok tt)
      ↔ ((all (fits d) ps && in_order previous ps) ≡ true)
unfolding Muxer.check_packets Muxer.check_packet
check_packets_iff d previous [] = ground arith
check_packets_iff d previous (p ∷ ps) = ground (arith, check_packets_iff d (some p.dts) ps)

-- A stream that has packets can be written: a video starts with a keyframe, an audio has a rate and
-- channels, and the packets fit the stream, in order.
abbrev pub contents_valid : StreamPackets → Bool
contents_valid s =
    (not (is_video s.descriptor.media_type) || Muxer.starts_with_keyframe s.packets)
    && ((not (is_audio s.descriptor.media_type)
          || (Muxer.positive s.descriptor.sample_rate && Muxer.positive s.descriptor.channels))
        && (all (fits s.descriptor) s.packets && in_order none s.packets))

-- Streams, none with an id of an earlier one, all on the time base, each empty or writable.
abbrev pub streams_valid : TimeBase → List ℕ → List StreamPackets → Bool
streams_valid time_base earlier [] = true
streams_valid time_base earlier (s ∷ ss) =
    not (any (λ id. s.descriptor.stream_id == id) earlier)
    && (time_base_eq s.descriptor.time_base time_base
        && ((is_empty s.packets || contents_valid s)
            && streams_valid time_base (s.descriptor.stream_id ∷ earlier) ss))

abbrev pub has_writable_video : List StreamPackets → Bool
has_writable_video = any (λ s. not (is_empty s.packets) && is_video s.descriptor.media_type)

check_contents_iff :
    (s : StreamPackets) → (Muxer.check_contents s ≡ ok tt) ↔ (contents_valid s ≡ true)
unfolding Muxer.check_contents
check_contents_iff s = ground (arith, check_packets_iff s.descriptor none s.packets)

see_all : Muxer.Seen → List StreamPackets → Muxer.Seen
see_all seen [] = seen
see_all seen (s ∷ ss) = see_all (Muxer.see seen s) ss

check_stream_iff :
    (time_base : TimeBase) (seen next : Muxer.Seen) (s : StreamPackets)
    → (Muxer.check_stream time_base seen s ≡ ok next) ↔ (
        ((not (any (λ id. s.descriptor.stream_id == id) seen.stream_ids)
            && (time_base_eq s.descriptor.time_base time_base
                && (is_empty s.packets || contents_valid s)))
          ≡ true)
        × (Muxer.see seen s ≡ next))
unfolding Muxer.check_stream
check_stream_iff time_base seen next s = ground (arith, check_contents_iff s)

-- The checks of the loop's body and what they come to, with the loop's step.
and-split :
    (a b c d : Bool) → ((a && (b && (c && d))) ≡ true) ↔ (((a && (b && c)) ≡ true) × (d ≡ true))
and-split true true true d = ground arith
and-split true true false d = ground arith
and-split true false c d = ground arith
and-split false b c d = ground arith

check_streams-valid :
    (time_base : TimeBase) (seen last : Muxer.Seen) (ss : List StreamPackets)
    → Muxer.check_streams time_base seen ss ≡ ok last
    → (streams_valid time_base seen.stream_ids ss ≡ true) × (see_all seen ss ≡ last)
unfolding Muxer.check_streams see_all
check_streams-valid time_base seen last [] h = (refl, cc)
check_streams-valid time_base seen last (s ∷ ss) h =
    let (next, first, others) =
      >>=-eq-ok (Muxer.check_stream time_base seen s)
        (λ next. Muxer.check_streams time_base next ss) h in
    let (valid, is_next) = (check_stream_iff time_base seen next s).0 first in
    let (rest_valid, is_last) = check_streams-valid time_base next last ss others in
    let stepped : streams_valid time_base (Muxer.see seen s).stream_ids ss ≡ true =
      subst (λ n. streams_valid time_base n.stream_ids ss ≡ true) (sym is_next) rest_valid in
    (
      (and-split (not (any (λ id. s.descriptor.stream_id == id) seen.stream_ids))
            (time_base_eq s.descriptor.time_base time_base) (is_empty s.packets || contents_valid s)
            (streams_valid time_base (s.descriptor.stream_id ∷ seen.stream_ids) ss)).1
          (valid, stepped),
      subst (λ n. see_all n ss ≡ last) (sym is_next) is_last,
    )

valid-check_streams :
    (time_base : TimeBase) (seen : Muxer.Seen) (ss : List StreamPackets)
    → streams_valid time_base seen.stream_ids ss ≡ true
    → Muxer.check_streams time_base seen ss ≡ ok (see_all seen ss)
unfolding Muxer.check_streams see_all
valid-check_streams time_base seen [] h = refl
valid-check_streams time_base seen (s ∷ ss) h =
    let (valid, rest) =
      (and-split (not (any (λ id. s.descriptor.stream_id == id) seen.stream_ids))
          (time_base_eq s.descriptor.time_base time_base) (is_empty s.packets || contents_valid s)
          (streams_valid time_base (s.descriptor.stream_id ∷ seen.stream_ids) ss)).0
        h in
    let first = (check_stream_iff time_base seen (Muxer.see seen s) s).1 (valid, refl) in
    rw first (valid-check_streams time_base (Muxer.see seen s) ss rest)

see_all-has_video :
    (seen : Muxer.Seen) (ss : List StreamPackets)
    → (see_all seen ss).has_video ≡ (seen.has_video || has_writable_video ss)
unfolding see_all
see_all-has_video seen [] = ground arith
see_all-has_video seen (s ∷ ss) = ground (arith, see_all-has_video (Muxer.see seen s) ss)

-- A video stream with packets is one of the writable streams.
see_all-writable :
    (seen : Muxer.Seen) (ss : List StreamPackets)
    → (seen.has_video ≡ true → 1 ≤ seen.writable_streams)
    → (see_all seen ss).has_video ≡ true
    → 1 ≤ (see_all seen ss).writable_streams
unfolding see_all
see_all-writable seen [] h v = h v
see_all-writable seen (s ∷ ss) h v =
    see_all-writable (Muxer.see seen s) ss (λ w. ground (arith, h)) v

-- A snapshot that can be written: in milliseconds, its streams valid and a video among those with
-- packets.
abbrev pub IsWritable : MediaSnapshot → Type 0
IsWritable m =
    (time_base_eq m.time_base millisecond ≡ true)
    × (streams_valid m.time_base [] m.streams ≡ true)
    × (has_writable_video m.streams ≡ true)

conclude_iff :
    (seen : Muxer.Seen)
    → (Muxer.conclude seen ≡ ok tt) ↔ ((1 ≤ seen.writable_streams) × (seen.has_video ≡ true))
conclude_iff seen = ground arith

require-true :
    (test : Bool) (reason : Muxer.Reason) → Muxer.require test reason ≡ ok tt → test ≡ true
require-true true reason h = refl
require-true false reason h = cc

abbrev none_seen : Muxer.Seen
none_seen = record { stream_ids = []; has_video = false; writable_streams = 0 }

-- `validate_snapshot` accepts just the snapshots that can be written: on the millisecond base, no
-- id twice, each stream on the snapshot's base and either empty or with packets of its own id,
-- media type and time base, positive durations, decode times that do not go back, a leading
-- keyframe for video, a positive rate and channel count for audio, and a video stream with packets.
pub validate_snapshot_iff : (m : MediaSnapshot) → (Muxer.validate_snapshot m ≡ ok tt) ↔ IsWritable m
unfolding Muxer.validate_snapshot
validate_snapshot_iff m = (
  λ h.
      let base_test =
        Muxer.require (time_base_eq m.time_base millisecond) Muxer.snapshot_time_base in
      let loop = Muxer.check_streams m.time_base none_seen m.streams in
      let (u, base, rest) = >>=-eq-ok base_test (λ v. loop >>= Muxer.conclude) h in
      let (last, looped, concluded) = >>=-eq-ok loop Muxer.conclude rest in
      let (valid, is_last) = check_streams-valid m.time_base none_seen last m.streams looped in
      let video : last.has_video ≡ true = ((conclude_iff last).0 concluded).1 in
      (
        require-true (time_base_eq m.time_base millisecond) Muxer.snapshot_time_base base,
        valid,
        sym (see_all-has_video none_seen m.streams) ∙ ap (λ n. n.has_video) is_last ∙ video,
      ),
  λ (base, valid, video).
      let last = see_all none_seen m.streams in
      let seen_video : last.has_video ≡ true = see_all-has_video none_seen m.streams ∙ video in
      let writable = see_all-writable none_seen m.streams (λ w. cc) seen_video in
      let looped = valid-check_streams m.time_base none_seen m.streams valid in
      let concluded = (conclude_iff last).1 (writable, seen_video) in rw (base, looped) concluded,
)
