-- ===== src/Replay/Retention.antt =====
-- What `evict` (crates/replay-buffer/src/buffer.rs) leaves in the buffer.
use silk_studio.Prelude.{
  ℕ, suc, ◌≡◌, ◌⊎◌, ap, ◌∙◌, Bool, false, List, ◌∷◌, Option, none, some, arith, ◌==◌, if◌then◌else◌,
  drop, get_last?, All, Option-cases, inl, inr,
}
use silk_studio.Prelude.Int.{ℤ}
use silk_studio.Prelude.Words.{sub_i64}
use silk_studio.Prelude.SortedMap
use silk_studio.Prelude.SortedMap.{
  SortedMap, total, IsSorted, get-insert, insert-IsSorted, total-insert,
}
use silk_studio.Media.Packet.{EncodedPacket}
use silk_studio.Replay.Buffer.{
  StreamTrack, ReplayBuffer, drop_fronts, align_with, evict_from, evict, last_index, dts_of,
  is_keyframe_until,
}
use silk_studio.Replay.Index.{IsLast, last_index-none, last_index-IsLast}
use silk_studio.Replay.Eviction.{drop_fronts-packets, aligned_track, get-align_streams}

-- The streams after the video stream is cut at an index whose packet is `front`: the video track
-- from that packet on, each other track without the packets that end by its decode time.
abbrev pub retained :
    ℕ → StreamTrack → ℕ → EncodedPacket → ℕ → Option StreamTrack → Option StreamTrack
retained video_id track i front id before =
    if id == video_id
    then some (record track { packets = drop i track.packets })
    else aligned_track video_id front.dts id before

align_with-get :
    (video_id : ℕ) (track : StreamTrack) (b : ReplayBuffer) (kept : List EncodedPacket) (bytes : ℕ)
    (front : EncodedPacket) (rest : List EncodedPacket) (id : ℕ)
    → kept ≡ front ∷ rest
    → SortedMap.get id (align_with video_id track b (kept, bytes)).streams ≡ (
        if id == video_id
        then some (record track { packets = kept })
        else aligned_track video_id front.dts id (SortedMap.get id b.streams))
unfolding align_with
align_with-get video_id track b kept bytes front rest id h =
    let cut : StreamTrack = record track { packets = front ∷ rest } in
    rw h (
      ground (
        arith,
        get-align_streams video_id front.dts id (SortedMap.insert video_id cut b.streams) bytes,
        get-insert video_id id cut b.streams,
      ))

evict_from-get :
    (video_id : ℕ) (track : StreamTrack) (i : ℕ) (front : EncodedPacket) (b : ReplayBuffer) (id : ℕ)
    → drop i track.packets ≡ front ∷ drop (suc i) track.packets
    → SortedMap.get id (evict_from video_id track i b).streams
      ≡ retained video_id track i front id (SortedMap.get id b.streams)
unfolding evict_from
evict_from-get video_id track i front b id h =
    let (kept, bytes) = drop_fronts i track.packets b.memory_bytes in
    let same_packets = drop_fronts-packets i track.packets b.memory_bytes in
    align_with-get video_id track b kept bytes front (drop (suc i) track.packets) id
      (same_packets ∙ h)
    ∙ ap
        (λ ps.
          if id == video_id
          then some (record track { packets = ps })
          else aligned_track video_id front.dts id (SortedMap.get id b.streams))
        same_packets

-- Which streams a buffer holds in its video stream at the newest decode time.
abbrev pub HoldsVideo : ReplayBuffer → ℕ → StreamTrack → ℤ → Type 0
HoldsVideo b video_id track newest =
    (b.video_stream ≡ some video_id)
    × (SortedMap.get video_id b.streams ≡ some track)
    × (dts_of (get_last? track.packets) ≡ some newest)

-- A keyframe no later than the retention boundary.
abbrev pub is_eligible : ReplayBuffer → ℤ → EncodedPacket → Bool
is_eligible b newest = is_keyframe_until (sub_i64 newest b.config.retention_ms)

-- What `evict` does after its search.
abbrev pub evict_at : ℕ → StreamTrack → ReplayBuffer → Option ℕ → ReplayBuffer
evict_at video_id track b none = b
evict_at video_id track b (some i) = evict_from video_id track i b

pub evict-evict_at :
    (b : ReplayBuffer) (video_id : ℕ) (track : StreamTrack) (newest : ℤ)
    → HoldsVideo b video_id track newest
    → evict b ≡ evict_at video_id track b (last_index (is_eligible b newest) track.packets)
unfolding evict
evict-evict_at b video_id track newest (hv, ht, hn) = ground arith

-- In a buffer whose video stream is not empty, `evict` changes nothing where no packet of it is a
-- keyframe no later than the newest decode time less the retention; otherwise the last packet that
-- is one, at index i, decides what every stream keeps: the video stream its packets from i on, each
-- other stream what is left after the packets at its front that end by that keyframe's decode time.
pub evict-retained :
    (b : ReplayBuffer) (video_id : ℕ) (track : StreamTrack) (newest : ℤ)
    → HoldsVideo b video_id track newest
    → ((All (λ p. is_eligible b newest p ≡ false) track.packets) × (evict b ≡ b))
      ⊎ ((i : ℕ) × (last : IsLast (is_eligible b newest) track.packets i) × ((id : ℕ)
            → SortedMap.get id (evict b).streams
              ≡ retained video_id track i last.packet id (SortedMap.get id b.streams)))
evict-retained b video_id track newest held =
    let evicted = evict-evict_at b video_id track newest held in
    elim (Option-cases (last_index (is_eligible b newest) track.packets)) [
      | inl none_found ↦ inl (
        last_index-none (is_eligible b newest) track.packets none_found,
        evicted ∙ ap (evict_at video_id track b) none_found,
      )
      | inr (i, found) ↦
          let last = last_index-IsLast (is_eligible b newest) track.packets i found in
          inr (
            i,
            last,
            λ id.
                ap (λ b'. SortedMap.get id b'.streams)
                  (evicted ∙ ap (evict_at video_id track b) found)
                ∙ evict_from-get video_id track i last.packet b id last.at_head,
          )
    ]

-- Whatever the buffer holds, `evict` changes nothing or cuts a stream that is there.
pub evict-cases :
    (b : ReplayBuffer)
    → (evict b ≡ b)
      ⊎ ((id : ℕ) × (track : StreamTrack) × (i : ℕ) × (SortedMap.get id b.streams ≡ some track)
          × (evict b ≡ evict_from id track i b))
unfolding evict
evict-cases b = elim (Option-cases b.video_stream) [
  | inl hv ↦ inl (ground arith)
  | inr (id, hv) ↦ elim (Option-cases (SortedMap.get id b.streams)) [
    | inl ht ↦ inl (ground arith)
    | inr (track, ht) ↦ elim (Option-cases (dts_of (get_last? track.packets))) [
      | inl hn ↦ inl (ground arith)
      | inr (newest, hn) ↦ elim (Option-cases (last_index (is_eligible b newest) track.packets)) [
        | inl hi ↦ inl (ground arith)
        | inr (i, hi) ↦ inr (id, track, i, ht, ground arith)
      ]
    ]
  ]
]
