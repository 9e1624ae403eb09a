-- ===== src/Replay/Ordering.antt =====
-- The order of packets in the buffer (crates/replay-buffer/src/buffer.rs): each track holds packets
-- of its own stream, oldest first, by decode time and by sequence.
use silk_studio.Prelude.{
  ℕ, zero, suc, ◌<◌, ◌≡◌, refl, sym, subst, ◌∙◌, List, [], ◌∷◌, ◌++◌, Option, none, some, arith,
  ◌==◌, drop, Bool-cases, inl, inr,
}
use silk_studio.Prelude.Int.{ℤ, ◌≤ℤ◌}
use silk_studio.Prelude.Words.{add_u64, u64_max}
use silk_studio.Prelude.SortedMap
use silk_studio.Prelude.SortedMap.{SortedMap, get-insert}
use silk_studio.Media.Packet.{EncodedPacket, payload_len}
use silk_studio.Replay.Buffer.{
  StreamTrack, ReplayBuffer, trim_to, drop_fronts, align_with, evict_from, evict,
}
use silk_studio.Replay.Operations.{store, insert}
use silk_studio.Replay.Branches.{Follows, unregistered, backwards, accepted, insert-InsertCase}
use silk_studio.Replay.Eviction.{
  IsSuffix, trim_to-suffix, skip_ended, aligned_track, drop_fronts-packets, get-align_streams,
}
use silk_studio.Replay.Retention.{evict-cases}

-- What comes after a packet: a packet that is no older, or, at the end, the track's last decode
-- time.
abbrev Precedes : EncodedPacket → Option ℤ → List EncodedPacket → Type 0
Precedes p last [] = last ≡ some p.dts
Precedes p last (q ∷ ps) = (p.dts ≤ℤ q.dts) × (p.sequence < q.sequence)

-- Packets of a stream in order, all numbered below the next sequence.
abbrev pub InOrder : ℕ → ℕ → Option ℤ → List EncodedPacket → Type 0
InOrder next id last [] = Unit
InOrder next id last (p ∷ ps) =
    (p.stream_id ≡ id) × (p.sequence < next) × Precedes p last ps × InOrder next id last ps

abbrev pub TrackInOrder : ℕ → ℕ → StreamTrack → Type 0
TrackInOrder next id t = (t.descriptor.stream_id ≡ id) × InOrder next id t.last_dts t.packets

abbrev pub IsInOrder : ReplayBuffer → Type 0
IsInOrder b =
    (id : ℕ) (t : StreamTrack)
    → SortedMap.get id b.streams ≡ some t
    → TrackInOrder b.next_sequence id t

module _ (next id : ℕ) (last : Option ℤ) where
  InOrder-drop :
      (n : ℕ) (ps : List EncodedPacket) → InOrder next id last ps → InOrder next id last (drop n ps)
  InOrder-drop zero ps h = h
  InOrder-drop (suc n) [] h = h
  InOrder-drop (suc n) (p ∷ ps) (_, _, _, rest) = InOrder-drop n ps rest

  InOrder-suffix :
      (kept ps : List EncodedPacket)
      → IsSuffix kept ps
      → InOrder next id last ps
      → InOrder next id last kept
  InOrder-suffix kept ps (n, e) h = subst (InOrder next id last) (sym e) (InOrder-drop n ps h)

  InOrder-skip_ended :
      (e : ℤ) (ps : List EncodedPacket)
      → InOrder next id last ps
      → InOrder next id last (skip_ended e ps)
  InOrder-skip_ended e [] h = h
  InOrder-skip_ended e (p ∷ ps) (own, below, next_is, rest) =
      ground (arith, InOrder-skip_ended e ps rest)

  InOrder-next : (ps : List EncodedPacket) → InOrder next id last ps → InOrder (suc next) id last ps
  InOrder-next [] h = h
  InOrder-next (p ∷ ps) (own, below, next_is, rest) =
      (own, omega arith, next_is, InOrder-next ps rest)

InOrder-append :
    (next id : ℕ) (last : Option ℤ) (ps : List EncodedPacket) (p : EncodedPacket)
    → p.stream_id ≡ id
    → p.sequence ≡ next
    → Follows last p.dts
    → InOrder next id last ps
    → InOrder (suc next) id (some p.dts) (ps ++ p ∷ [])
InOrder-append next id last [] p hid hseq follows h = (hid, omega arith, refl, tt)
InOrder-append next id last (q ∷ []) p hid hseq follows (own, below, next_is, rest) = ground arith
InOrder-append next id last (q ∷ r ∷ ps) p hid hseq follows (own, below, next_is, rest) =
    (own, omega arith, next_is, InOrder-append next id last (r ∷ ps) p hid hseq follows rest)

aligned-InOrder :
    (next video_id : ℕ) (e : ℤ) (id : ℕ) (before : Option StreamTrack) (t : StreamTrack)
    → ((u : StreamTrack) → before ≡ some u → TrackInOrder next id u)
    → aligned_track video_id e id before ≡ some t
    → TrackInOrder next id t
aligned-InOrder next video_id e id none t h eq = cc
aligned-InOrder next video_id e id (some u) t h eq = elim (Bool-cases (id == video_id)) [
  | inl here ↦ ground (arith, h u refl)
  | inr other ↦
      let (own, order) = h u refl in
      ground (arith, InOrder-skip_ended next id u.last_dts e u.packets order)
]

-- A map with one track replaced.
pub insert-IsInOrder :
    (next id j : ℕ) (u t : StreamTrack) (m : SortedMap StreamTrack)
    → TrackInOrder next id u
    → ((v : StreamTrack) → SortedMap.get j m ≡ some v → TrackInOrder next j v)
    → SortedMap.get j (SortedMap.insert id u m) ≡ some t
    → TrackInOrder next j t
insert-IsInOrder next id j u t m hu h eq = elim (Bool-cases (j == id)) [
  | inl here ↦
      let found : some u ≡ some t = ground (arith, get-insert id j u m) in
      let same_id : id ≡ j = ground arith in
      let same_track : u ≡ t = cc in
      subst (λ i. TrackInOrder next i t) same_id (subst (TrackInOrder next id) same_track hu)
  | inr other ↦ h t (ground (arith, get-insert id j u m))
]

align_with-IsInOrder :
    (id : ℕ) (track : StreamTrack) (b : ReplayBuffer) (kept : List EncodedPacket) (bytes : ℕ)
    → TrackInOrder b.next_sequence id (record track { packets = kept })
    → IsInOrder b
    → IsInOrder (align_with id track b (kept, bytes))
unfolding align_with
align_with-IsInOrder id track b [] bytes cut h j t eq =
    insert-IsInOrder b.next_sequence id j (record track { packets = [] }) t b.streams cut (h j) eq
align_with-IsInOrder id track b (front ∷ ps) bytes cut h j t eq =
    let u : StreamTrack = record track { packets = front ∷ ps } in
    let streams = SortedMap.insert id u b.streams in
    aligned-InOrder b.next_sequence id front.dts j (SortedMap.get j streams) t
      (λ v found. insert-IsInOrder b.next_sequence id j u v b.streams cut (h j) found)
      (sym (get-align_streams id front.dts j streams bytes) ∙ eq)

evict_from-IsInOrder :
    (id : ℕ) (track : StreamTrack) (i : ℕ) (b : ReplayBuffer)
    → SortedMap.get id b.streams ≡ some track
    → IsInOrder b
    → IsInOrder (evict_from id track i b)
unfolding evict_from
evict_from-IsInOrder id track i b found h =
    let (kept, bytes) = drop_fronts i track.packets b.memory_bytes in
    let (own, order) = h id track found in
    align_with-IsInOrder id track b kept bytes
      (
        own,
        InOrder-suffix b.next_sequence id track.last_dts kept track.packets
            (i, drop_fronts-packets i track.packets b.memory_bytes) order,
      )
      h

pub evict-IsInOrder : (b : ReplayBuffer) → IsInOrder b → IsInOrder (evict b)
evict-IsInOrder b h = elim (evict-cases b) [
  | inl e ↦ subst IsInOrder (sym e) h
  | inr (id, track, i, found, e) ↦
      subst IsInOrder (sym e) (evict_from-IsInOrder id track i b found h)
]

store-IsInOrder :
    (track : StreamTrack) (p : EncodedPacket) (b : ReplayBuffer)
    → SortedMap.get p.stream_id b.streams ≡ some track
    → Follows track.last_dts p.dts
    → b.next_sequence < u64_max
    → IsInOrder b
    → IsInOrder (store track p b)
unfolding store
store-IsInOrder track p b found follows room h j t eq =
    let packet : EncodedPacket = record p { sequence = b.next_sequence } in
    let ps = track.packets ++ packet ∷ [] in
    let bytes = add_u64 b.memory_bytes (payload_len p.payload) in
    let cap = b.config.max_packets_per_stream in
    let kept = (trim_to cap ps bytes).0 in
    let (own, order) = h p.stream_id track found in
    let next_is : suc b.next_sequence ≡ add_u64 b.next_sequence 1 = ground arith in
    let whole =
      InOrder-append b.next_sequence p.stream_id track.last_dts track.packets packet refl refl
        follows order in
    let cut =
      InOrder-suffix (suc b.next_sequence) p.stream_id (some p.dts) kept ps
        (trim_to-suffix cap ps bytes) whole in
    let u : StreamTrack = record track { packets = kept; last_dts = some p.dts } in
    subst (λ n. TrackInOrder n j t) next_is
      (insert-IsInOrder (suc b.next_sequence) p.stream_id j u t b.streams (own, cut)
        (λ v hv.
          let (own', order') = h j v hv in
          (own', InOrder-next b.next_sequence j v.last_dts v.packets order'))
        eq)

-- Insertion keeps the order while the sequence counter has room.
pub insert-keeps_order :
    (p : EncodedPacket) (b : ReplayBuffer)
    → b.next_sequence < u64_max
    → IsInOrder b
    → IsInOrder (insert p b).1
insert-keeps_order p b room h = elim (insert-InsertCase p b) [
  | unregistered _ e ↦ subst (λ r. IsInOrder r.1) (sym e) h
  | backwards _ _ _ _ _ e ↦ subst (λ r. IsInOrder r.1) (sym e) h
  | accepted track found follows _ e ↦
      subst (λ r. IsInOrder r.1) (sym e)
        (evict-IsInOrder (store track p b) (store-IsInOrder track p b found follows room h))
]
