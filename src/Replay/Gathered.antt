-- ===== src/Replay/Gathered.antt =====
-- Which packets of the other streams a snapshot holds (`snapshot` of
-- crates/replay-buffer/src/buffer.rs).
use silk_studio.Prelude.{
  ℕ, zero, suc, ◌≡◌, ◌≢◌, ◌⊎◌, refl, true, false, List, [], ◌∷◌, arith, ◌==◌, drop, filter,
  is_empty, subst, get_last?, Bool-cases, inl, inr,
}
use silk_studio.Prelude.Int.{ℤ, ◌<ℤ◌}
use silk_studio.Prelude.Words.{add_i64}
use silk_studio.Media.Packet.{EncodedPacket}
use silk_studio.Media.Snapshot.{StreamPackets}
use silk_studio.Replay.Buffer.{StreamTrack}
use silk_studio.Replay.Snapshots.{overlaps, other_streams}

-- A packet that is decoded before the end of the video and ends after its start.
abbrev pub Overlaps : (start end_of : ℤ) → EncodedPacket → Type 0
Overlaps start end_of p = (start <ℤ add_i64 p.dts p.duration) × (p.dts <ℤ end_of)

-- The packets with a property, all of them and in order.
abbrev pub Selected : (EncodedPacket → Type 0) → List EncodedPacket → List EncodedPacket → Type 0
Selected P [] kept = kept ≡ []
Selected P (p ∷ ps) kept =
    (¬ P p × Selected P ps kept)
    ⊎ (P p × ((rest : List EncodedPacket) × (kept ≡ p ∷ rest) × Selected P ps rest))

-- A track that a clip leaves out: the video's, or one of which no packet overlaps.
abbrev pub LeftOut : (video_id : ℕ) (start end_of : ℤ) → StreamTrack → Type 0
LeftOut video_id start end_of t =
    (t.descriptor.stream_id ≡ video_id) ⊎ Selected (Overlaps start end_of) t.packets []

-- A track in a clip: not the video's, with all the packets that overlap, at least one.
abbrev pub CutTo : (video_id : ℕ) (start end_of : ℤ) → StreamTrack → StreamPackets → Type 0
CutTo video_id start end_of t s =
    (t.descriptor.stream_id ≢ video_id)
    × (s.descriptor ≡ t.descriptor)
    × (is_empty s.packets ≡ false)
    × Selected (Overlaps start end_of) t.packets s.packets

-- The streams of a clip but the video: each track is cut or left out, in order.
abbrev pub Gathered :
    (video_id : ℕ) (start end_of : ℤ) → List StreamTrack → List StreamPackets → Type 0
Gathered video_id start end_of [] others = others ≡ []
Gathered video_id start end_of (t ∷ ts) others =
    (LeftOut video_id start end_of t × Gathered video_id start end_of ts others)
    ⊎ ((s : StreamPackets) × (rest : List StreamPackets) × (others ≡ s ∷ rest)
        × CutTo video_id start end_of t s
        × Gathered video_id start end_of ts rest)

pub is_empty-nil : (ps : List EncodedPacket) → is_empty ps ≡ true → ps ≡ []
is_empty-nil [] h = refl
is_empty-nil (p ∷ ps) h = cc

filter-Selected :
    (start end_of : ℤ) (ps : List EncodedPacket)
    → Selected (Overlaps start end_of) ps (filter (overlaps start end_of) ps)
filter-Selected start end_of [] = refl
filter-Selected start end_of (p ∷ ps) =
    let rest = filter-Selected start end_of ps in
    elim (Bool-cases (overlaps start end_of p)) [
      | inl kept ↦ rw kept (inr (ground arith, (filter (overlaps start end_of) ps, refl, rest)))
      | inr dropped ↦ rw dropped (inl (ground arith, rest))
    ]

pub other_streams-Gathered :
    (video_id : ℕ) (start end_of : ℤ) (ts : List StreamTrack)
    → Gathered video_id start end_of ts (other_streams video_id start end_of ts)
unfolding other_streams
other_streams-Gathered video_id start end_of [] = refl
other_streams-Gathered video_id start end_of (t ∷ ts) =
    let rest = other_streams-Gathered video_id start end_of ts in
    let kept = filter (overlaps start end_of) t.packets in
    let selected = filter-Selected start end_of t.packets in
    elim (Bool-cases (t.descriptor.stream_id == video_id)) [
      | inl same_id ↦ rw same_id (inl (inl (ground arith), rest))
      | inr other ↦ elim (Bool-cases (is_empty kept)) [
        | inl nothing ↦
            let none_kept : kept ≡ [] = is_empty-nil kept nothing in
            rw (other, nothing)
              (inl
                (inr (subst (Selected (Overlaps start end_of) t.packets) none_kept selected), rest))
        | inr some_kept ↦
            rw (other, some_kept)
              (inr (
                record { descriptor = t.descriptor; packets = kept },
                other_streams video_id start end_of ts,
                refl,
                (ground arith, refl, some_kept, selected),
                rest,
              ))
      ]
    ]

pub get_last?-drop :
    (i : ℕ) (ps : List EncodedPacket) (p : EncodedPacket) (rest : List EncodedPacket)
    → drop i ps ≡ p ∷ rest
    → get_last? (drop i ps) ≡ get_last? ps
get_last?-drop zero ps p rest h = refl
get_last?-drop (suc i) [] p rest h = refl
get_last?-drop (suc i) (q ∷ []) p rest h = absurd (nothing_left i h)
  where
    nothing_left : (n : ℕ) → drop n [] ≡ p ∷ rest → ⊥
    nothing_left zero e = cc
    nothing_left (suc n) e = cc
get_last?-drop (suc i) (q ∷ r ∷ ps) p rest h = get_last?-drop i (r ∷ ps) p rest h
