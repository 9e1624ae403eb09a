-- ===== src/Replay/Eviction.antt =====
-- What eviction keeps: every track loses packets at its front only, and the bytes that the buffer
-- accounts for are those of the packets that it holds.
use silk_studio.Prelude.{
  ℕ, zero, suc, ◌+◌, ◌-◌, ◌≤◌, ◌≡◌, refl, false, List, [], ◌∷◌, Option, none, some, arith, ltb,
  ◌==◌, if◌then◌else◌, drop, length, head?, Bool-cases, inl, inr,
}
use silk_studio.Prelude.Int.{ℤ, leb_ℤ}
use silk_studio.Prelude.Words.{add_i64}
use silk_studio.Prelude.SortedMap
use silk_studio.Prelude.SortedMap.{
  SortedMap, total, IsSorted, Above, get-insert, insert-IsSorted, total-insert,
}
use silk_studio.Media.Packet.{EncodedPacket, payload_len}
use silk_studio.Replay.Buffer.{StreamTrack, drop_fronts, trim_to, align_track, align_streams}

-- Payload bytes of a list of packets.
abbrev pub bytes_of : List EncodedPacket → ℕ
bytes_of [] = 0
bytes_of (p ∷ ps) = payload_len p.payload + bytes_of ps

abbrev pub track_bytes : StreamTrack → ℕ
track_bytes t = bytes_of t.packets

-- What is left of a list after packets have gone at its front.
abbrev pub IsSuffix : List EncodedPacket → List EncodedPacket → Type 0
IsSuffix kept ps = (n : ℕ) × (kept ≡ drop n ps)

pub drop_fronts-packets :
    (n : ℕ) (ps : List EncodedPacket) (bytes : ℕ) → (drop_fronts n ps bytes).0 ≡ drop n ps
unfolding drop_fronts
drop_fronts-packets zero ps bytes = refl
drop_fronts-packets (suc n) [] bytes = refl
drop_fronts-packets (suc n) (p ∷ ps) bytes =
    drop_fronts-packets n ps (bytes - payload_len p.payload)

pub drop_fronts-bytes :
    (n : ℕ) (ps : List EncodedPacket) (bytes rest : ℕ)
    → bytes ≡ bytes_of ps + rest
    → (drop_fronts n ps bytes).1 ≡ bytes_of (drop n ps) + rest
unfolding drop_fronts
drop_fronts-bytes zero ps bytes rest h = h
drop_fronts-bytes (suc n) [] bytes rest h = h
drop_fronts-bytes (suc n) (p ∷ ps) bytes rest h =
    drop_fronts-bytes n ps (bytes - payload_len p.payload) rest (omega arith)

pub trim_to-suffix :
    (cap : ℕ) (ps : List EncodedPacket) (bytes : ℕ) → IsSuffix (trim_to cap ps bytes).0 ps
unfolding trim_to
trim_to-suffix cap [] bytes = (0, refl)
trim_to-suffix cap (p ∷ ps) bytes = elim (Bool-cases (ltb cap (length (p ∷ ps)))) [
  | inl over ↦
      let (n, e) = trim_to-suffix cap ps (bytes - payload_len p.payload) in (suc n, rw over e)
  | inr fits ↦ (0, rw fits)
]

pub trim_to-bytes :
    (cap : ℕ) (ps : List EncodedPacket) (bytes rest : ℕ)
    → bytes ≡ bytes_of ps + rest
    → (trim_to cap ps bytes).1 ≡ bytes_of (trim_to cap ps bytes).0 + rest
unfolding trim_to
trim_to-bytes cap [] bytes rest h = h
trim_to-bytes cap (p ∷ ps) bytes rest h =
    ground (arith, trim_to-bytes cap ps (bytes - payload_len p.payload) rest)

pub trim_to-length :
    (cap : ℕ) (ps : List EncodedPacket) (bytes : ℕ) → length (trim_to cap ps bytes).0 ≤ cap
unfolding trim_to
trim_to-length cap [] bytes = omega arith
trim_to-length cap (p ∷ ps) bytes =
    ground (arith, trim_to-length cap ps (bytes - payload_len p.payload))

align_track-suffix :
    (e : ℤ) (ps : List EncodedPacket) (bytes : ℕ) → IsSuffix (align_track e ps bytes).0 ps
unfolding align_track
align_track-suffix e [] bytes = (0, refl)
align_track-suffix e (p ∷ ps) bytes = elim (Bool-cases (leb_ℤ (add_i64 p.dts p.duration) e)) [
  | inl over ↦
      let (n, s) = align_track-suffix e ps (bytes - payload_len p.payload) in (suc n, rw over s)
  | inr keeps ↦ (0, rw keeps)
]

align_track-bytes :
    (e : ℤ) (ps : List EncodedPacket) (bytes rest : ℕ)
    → bytes ≡ bytes_of ps + rest
    → (align_track e ps bytes).1 ≡ bytes_of (align_track e ps bytes).0 + rest
unfolding align_track
align_track-bytes e [] bytes rest h = h
align_track-bytes e (p ∷ ps) bytes rest h =
    ground (arith, align_track-bytes e ps (bytes - payload_len p.payload) rest)

-- The front that alignment leaves ends after the earliest video packet.
abbrev pub EndsAfter : ℤ → Option EncodedPacket → Type 0
EndsAfter e none = Unit
EndsAfter e (some p) = leb_ℤ (add_i64 p.dts p.duration) e ≡ false

pub align_track-EndsAfter :
    (e : ℤ) (ps : List EncodedPacket) (bytes : ℕ) → EndsAfter e (head? (align_track e ps bytes).0)
unfolding align_track
align_track-EndsAfter e [] bytes = tt
align_track-EndsAfter e (p ∷ ps) bytes =
    ground (arith, align_track-EndsAfter e ps (bytes - payload_len p.payload))

-- What alignment leaves of a track, apart from the account.
abbrev pub skip_ended : ℤ → List EncodedPacket → List EncodedPacket
skip_ended e [] = []
skip_ended e (p ∷ ps) = if leb_ℤ (add_i64 p.dts p.duration) e then skip_ended e ps else p ∷ ps

align_track-packets :
    (e : ℤ) (ps : List EncodedPacket) (bytes : ℕ) → (align_track e ps bytes).0 ≡ skip_ended e ps
unfolding align_track
align_track-packets e [] bytes = refl
align_track-packets e (p ∷ ps) bytes =
    ground (arith, align_track-packets e ps (bytes - payload_len p.payload))

abbrev pub aligned_track : ℕ → ℤ → ℕ → Option StreamTrack → Option StreamTrack
aligned_track video_id e id none = none
aligned_track video_id e id (some t) =
    some (if id == video_id then t else record t { packets = skip_ended e t.packets })

pub get-align_streams :
    (video_id : ℕ) (e : ℤ) (id : ℕ) (m : SortedMap StreamTrack) (bytes : ℕ)
    → SortedMap.get id (align_streams video_id e m bytes).0
      ≡ aligned_track video_id e id (SortedMap.get id m)
unfolding align_streams
get-align_streams video_id e id [] bytes = refl
get-align_streams video_id e id ((j, t) ∷ m) bytes = elim (Bool-cases (j == video_id)) [
  | inl here ↦ rw here (ground (arith, get-align_streams video_id e id m bytes))
  | inr other ↦ rw other (
      ground (
        arith,
        align_track-packets e t.packets bytes,
        get-align_streams video_id e id m (align_track e t.packets bytes).1,
      ))
]

Above-align_streams :
    (k video_id : ℕ) (e : ℤ) (m : SortedMap StreamTrack) (bytes : ℕ)
    → Above k m
    → Above k (align_streams video_id e m bytes).0
unfolding align_streams
Above-align_streams k video_id e [] bytes h = h
Above-align_streams k video_id e ((j, t) ∷ m) bytes h = h

pub align_streams-IsSorted :
    (video_id : ℕ) (e : ℤ) (m : SortedMap StreamTrack) (bytes : ℕ)
    → IsSorted m
    → IsSorted (align_streams video_id e m bytes).0
unfolding align_streams
align_streams-IsSorted video_id e [] bytes s = s
align_streams-IsSorted video_id e ((j, t) ∷ m) bytes s =
    let left = (if j == video_id then (t.packets, bytes) else align_track e t.packets bytes).1 in
    (Above-align_streams j video_id e m left s.0, align_streams-IsSorted video_id e m left s.1)

pub align_streams-bytes :
    (video_id : ℕ) (e : ℤ) (m : SortedMap StreamTrack) (bytes rest : ℕ)
    → bytes ≡ total track_bytes m + rest
    → (align_streams video_id e m bytes).1
      ≡ total track_bytes (align_streams video_id e m bytes).0 + rest
unfolding align_streams
align_streams-bytes video_id e [] bytes rest h = h
align_streams-bytes video_id e ((j, t) ∷ m) bytes rest h = elim (Bool-cases (j == video_id)) [
  | inl here ↦
      rw here (ground (arith, align_streams-bytes video_id e m bytes (bytes_of t.packets + rest)))
  | inr other ↦
      let (kept, left) = align_track e t.packets bytes in
      rw other (
        ground (
          arith,
          align_track-bytes e t.packets bytes (total track_bytes m + rest),
          align_streams-bytes video_id e m left (bytes_of kept + rest),
        ))
]
