-- ===== src/Mp4/Tracks/Places.antt =====
-- Which streams the tracks of `prepare_mp4_tracks` are of.
use silk_studio.Prelude.{
  ℕ, suc, ◌+◌, ◌≡◌, inl, inr, ◌∙◌, refl, ap, subst, Bool, true, false, not, List, [], ◌∷◌, map,
  Option, none, some, get_elem?, is_empty, ltb, All, Result, ok, >>=-eq-ok, >>-eq-ok, ok_injective,
  ok_or, arith,
}
use silk_studio.Media.Packet.{MediaType, video, audio, is_video, is_audio}
use silk_studio.Media.Snapshot.{StreamPackets}
use silk_studio.Mp4.Codec.{video_codec_from_str}
use silk_studio.Mp4.Error.{Mp4Error, index_panic, unsupported_video_codec, too_many_tracks}
use silk_studio.Mp4.Tracks
use silk_studio.Mp4.Tracks.Writable.{
  Writable, places-Writable, Listed, ArePlaces, indices_of-ArePlaces,
}
use silk_studio.Prelude.Words.{u32_max}

-- The track is of the stream at its index, which has packets and is of the track's media type.
abbrev pub OfStream : List StreamPackets → Tracks.PreparedTrack → Type 0
OfStream streams t =
    (s : StreamPackets) × (get_elem? streams t.stream_index ≡ some s)
    × (is_empty s.packets ≡ false)
    × (s.descriptor.media_type ≡ t.media_type)
    × (s.descriptor.stream_id ≡ t.stream_id)

Writable-OfStream :
    (kind : MediaType → Bool) (streams : List StreamPackets) (t : Tracks.PreparedTrack)
    (s : StreamPackets)
    → ((m : MediaType) → kind m ≡ true → m ≡ t.media_type)
    → Writable kind streams t.stream_index
    → get_elem? streams t.stream_index ≡ some s
    → s.descriptor.stream_id ≡ t.stream_id
    → OfStream streams t
unfolding Writable
Writable-OfStream kind streams t s only (u, found, full, of_kind) at same_id =
    let same : u ≡ s = cc in
    (
      u,
      found,
      full,
      only u.descriptor.media_type of_kind,
      ap (λ v. v.descriptor.stream_id) same ∙ same_id,
    )

audio_only : (m : MediaType) → is_audio m ≡ true → m ≡ audio
audio_only audio h = refl
audio_only video h = cc

video_only : (m : MediaType) → is_video m ≡ true → m ≡ video
video_only video h = refl
video_only audio h = cc

ok_or-eq-ok : {A : Type 0} (o : Option A) (e : Mp4Error) {a : A} → ok_or o e ≡ ok a → o ≡ some a
ok_or-eq-ok none e h = cc
ok_or-eq-ok (some b) e h = ap some (ok_injective h)

-- The places from a count on.
abbrev pub from : ℕ → List ℕ → List ℕ
from count [] = []
from count (i ∷ is) = suc count ∷ from (suc count) is

-- Tracks of streams, of these places, numbered after a count.
abbrev Numbered : List StreamPackets → (count : ℕ) → List ℕ → List Tracks.PreparedTrack → Type 0
Numbered streams count places ts =
    All (OfStream streams) ts
    × (map (λ t. t.track_id) ts ≡ from count places)
    × (map (λ t. t.stream_index) ts ≡ places)

Numbered-add :
    (streams : List StreamPackets) (count i : ℕ) (is : List ℕ) (t : Tracks.PreparedTrack)
    (ts : List Tracks.PreparedTrack)
    → OfStream streams t × (t.track_id ≡ suc count) × (t.stream_index ≡ i)
    → Numbered streams (suc count) is ts
    → Numbered streams count (i ∷ is) (t ∷ ts)
Numbered-add streams count i is t ts (of_stream, id, index) (all, ids, indices) = (
  (of_stream, all),
  ap (λ n. n ∷ map (λ u. u.track_id) ts) id ∙ ap (◌∷◌ (suc count)) ids,
  ap (λ n. n ∷ map (λ u. u.stream_index) ts) index ∙ ap (◌∷◌ i) indices,
)

-- The place of the only stream that can be written.
only_place :
    (kind : MediaType → Bool) (streams : List StreamPackets) (index : ℕ)
    → ArePlaces kind streams (index ∷ [])
    → Writable kind streams index × ((i : ℕ) → Writable kind streams i → i ≡ index)
only_place kind streams index (_, listed) =
    ((listed index).1 (inl refl), λ i writable. the_one i ((listed i).0 writable))
  where
    the_one : (i : ℕ) → Listed i (index ∷ []) → i ≡ index
    the_one i (inl e) = e
    the_one i (inr more) = elim more [ ]

module _
    (extract_hevc_config extract_av1_config : StreamPackets
      → (width height : ℕ) → Result Mp4Error (Unit {0}))
    (is_object_type : ℕ → Bool) (streams : List StreamPackets) where
  audio_track-eq-ok :
      (count index : ℕ) {t : Tracks.PreparedTrack}
      → Writable is_audio streams index
      → Tracks.audio_track extract_hevc_config extract_av1_config is_object_type streams count index
        ≡ ok t
      → OfStream streams t × (t.track_id ≡ suc count) × (t.stream_index ≡ index)
  unfolding Tracks.audio_track
  audio_track-eq-ok count index {t} writable done =
      let (s, at, rest) = >>=-eq-ok (ok_or (get_elem? streams index) index_panic) _ done in
      let (u, checked, last) =
        >>=-eq-ok
          (Tracks.check_audio extract_hevc_config extract_av1_config is_object_type s.descriptor) _
          rest in
      let made = >>-eq-ok (Tracks.require (not (ltb u32_max (count + 1))) too_many_tracks) last in
      let found = ok_or-eq-ok (get_elem? streams index) _ at in
      let of_stream =
        Writable-OfStream is_audio streams (Tracks.audio_entry count index s) s audio_only writable
          found refl in
      subst
        (λ entry.
          OfStream streams entry × (entry.track_id ≡ suc count) × (entry.stream_index ≡ index))
        made (of_stream, omega arith, refl)

  audio_tracks-eq-ok :
      (count : ℕ) (places : List ℕ) {ts : List Tracks.PreparedTrack}
      → All (Writable is_audio streams) places
      → Tracks.audio_tracks extract_hevc_config extract_av1_config is_object_type streams count
          places
        ≡ ok ts
      → Numbered streams count places ts
  unfolding Tracks.audio_tracks
  audio_tracks-eq-ok count [] {ts} h done =
      subst (Numbered streams count []) (ok_injective done) (tt, refl, refl)
  audio_tracks-eq-ok count (i ∷ is) {ts} (now, later) done =
      let (t, first, rest) =
        >>=-eq-ok
          (Tracks.audio_track extract_hevc_config extract_av1_config is_object_type streams count i)
          _ done in
      let (more, others, last) =
        >>=-eq-ok
          (Tracks.audio_tracks extract_hevc_config extract_av1_config is_object_type streams
            (suc count) is)
          _ rest in
      let now_numbered = audio_track-eq-ok count i now first in
      let later_numbered = audio_tracks-eq-ok (suc count) is later others in
      subst (Numbered streams count (i ∷ is)) (ok_injective last)
        (Numbered-add streams count i is t more now_numbered later_numbered)

  video_track-eq-ok :
      (index : ℕ) {t : Tracks.PreparedTrack}
      → Writable is_video streams index
      → Tracks.video_track extract_hevc_config extract_av1_config is_object_type streams index
        ≡ ok t
      → OfStream streams t × (t.track_id ≡ 1) × (t.stream_index ≡ index)
  unfolding Tracks.video_track
  video_track-eq-ok index {t} writable done =
      let (s, at, rest) = >>=-eq-ok (ok_or (get_elem? streams index) index_panic) _ done in
      let (u, sized, then_codec) =
        >>=-eq-ok
          (Tracks.check_dimensions extract_hevc_config extract_av1_config is_object_type
            s.descriptor)
          _ rest in
      let (codec, known, last) =
        >>=-eq-ok
          (ok_or (video_codec_from_str s.descriptor.codec)
            (unsupported_video_codec s.descriptor.stream_id))
          _ then_codec in
      let made =
        >>-eq-ok
          (Tracks.check_config extract_hevc_config extract_av1_config is_object_type codec s
            (Tracks.or_zero s.descriptor.width) (Tracks.or_zero s.descriptor.height))
          last in
      let found = ok_or-eq-ok (get_elem? streams index) _ at in
      let of_stream =
        Writable-OfStream is_video streams (Tracks.video_entry index s) s video_only writable found
          refl in
      subst (λ entry. OfStream streams entry × (entry.track_id ≡ 1) × (entry.stream_index ≡ index))
        made (of_stream, refl, refl)

  single-eq-ok :
      (places : List ℕ) {index : ℕ}
      → Tracks.single extract_hevc_config extract_av1_config is_object_type places ≡ ok index
      → places ≡ index ∷ []
  single-eq-ok [] h = cc
  single-eq-ok (i ∷ []) h = ap (λ j. j ∷ []) (ok_injective h)
  single-eq-ok (i ∷ j ∷ is) h = cc

  -- When the tracks can be prepared, exactly one video stream has packets, and the tracks are of that
  -- stream and then of exactly the audio streams that have packets, in the order of the streams and
  -- each once, numbered from 1. Each track has the media type and the id of the stream at its index.
  pub prepare_mp4_tracks-OfStream :
      (tracks : List Tracks.PreparedTrack)
      → Tracks.prepare_mp4_tracks extract_hevc_config extract_av1_config is_object_type streams
        ≡ ok tracks
      → (index : ℕ) × (audios : List ℕ) × Writable is_video streams index
        × ((i : ℕ) → Writable is_video streams i → i ≡ index)
        × ArePlaces is_audio streams audios
        × (map (λ t. t.stream_index) tracks ≡ index ∷ audios)
        × (map (λ t. t.track_id) tracks ≡ from 0 (index ∷ audios))
        × All (OfStream streams) tracks
  unfolding Tracks.prepare_mp4_tracks
  prepare_mp4_tracks-OfStream tracks done =
      let videos = Tracks.indices_of is_video 0 streams in
      let audios = Tracks.indices_of is_audio 0 streams in
      let (index, one, rest) =
        >>=-eq-ok (Tracks.single extract_hevc_config extract_av1_config is_object_type videos) _
          done in
      let (t, made, then_audio) =
        >>=-eq-ok
          (Tracks.video_track extract_hevc_config extract_av1_config is_object_type streams index) _
          rest in
      let (ts, others, last) =
        >>=-eq-ok
          (Tracks.audio_tracks extract_hevc_config extract_av1_config is_object_type streams 1
            audios)
          _ then_audio in
      let only : videos ≡ index ∷ [] = single-eq-ok videos one in
      let (writable, unique) =
        only_place is_video streams index
          (subst (ArePlaces is_video streams) only (indices_of-ArePlaces is_video streams)) in
      let first = video_track-eq-ok index writable made in
      let later = audio_tracks-eq-ok 1 audios (places-Writable is_audio streams) others in
      let (all, ids, indices) =
        subst (Numbered streams 0 (index ∷ audios)) (ok_injective last)
          (Numbered-add streams 0 index audios t ts first later) in
      (index, audios, writable, unique, indices_of-ArePlaces is_audio streams, indices, ids, all)
