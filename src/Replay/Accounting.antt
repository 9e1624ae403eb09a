-- ===== src/Replay/Accounting.antt =====
-- The byte account of the buffer (`memory_bytes` of crates/replay-buffer/src/buffer.rs) over every
-- operation that changes it.
use silk_studio.Prelude.{
  ℕ, ◌+◌, ◌-◌, ◌≤◌, ◌≡◌, sym, ap, ◌∙◌, true, List, [], ◌∷◌, ◌++◌, Option, none, some, arith,
  Option-cases, Bool-cases, inl, inr, subst,
}
use silk_studio.Prelude.Int.{ℤ, pos, leb_ℤ}
use silk_studio.Prelude.Words.{add_u64, u64_max}
use silk_studio.Prelude.SortedMap
use silk_studio.Prelude.SortedMap.{
  SortedMap, total, IsSorted, get-insert, insert-IsSorted, total-insert, total-insert_new,
}
use silk_studio.Media.TimeBase.{time_base_eq, millisecond}
use silk_studio.Media.Packet.{EncodedPacket, PacketPayload, payload_len}
use silk_studio.Media.Snapshot.{StreamDescriptor}
use silk_studio.Replay.Buffer.{
  StreamTrack, ReplayBuffer, drop_fronts, trim_to, align_with, evict_from, evict,
}
use silk_studio.Replay.Operations.{
  set_stream_extradata, new_track, register_stream, store, insert, set_retention,
}
use silk_studio.Replay.Branches.{
  unregistered, backwards, accepted, insert-InsertCase, with_extradata, set_stream_extradata-cases,
}
use silk_studio.Replay.Eviction.{
  bytes_of, track_bytes, drop_fronts-packets, drop_fronts-bytes, trim_to-bytes,
  align_streams-IsSorted, align_streams-bytes,
}
use silk_studio.Replay.Retention.{evict-cases}

-- The account is the sum of the payloads held, and the streams are in the order of their ids.
pub record IsAccounted (b : ReplayBuffer) : Type 0 where
  pub bytes_match : b.memory_bytes ≡ total track_bytes b.streams
  pub sorted : IsSorted b.streams

-- The streams with one track's packets replaced, and the bytes that they come to.
replaced-total :
    (id : ℕ) (track : StreamTrack) (kept : List EncodedPacket) (m : SortedMap StreamTrack)
    (rest : ℕ)
    → IsSorted m
    → SortedMap.get id m ≡ some track
    → total track_bytes m ≡ bytes_of track.packets + rest
    → total track_bytes (SortedMap.insert id (record track { packets = kept }) m)
      ≡ bytes_of kept + rest
replaced-total id track kept m rest s h e =
    let cut : StreamTrack = record track { packets = kept } in
    omega (arith, total-insert track_bytes id cut track m s h)

held-total :
    (id : ℕ) (track : StreamTrack) (m : SortedMap StreamTrack)
    → SortedMap.get id m ≡ some track
    → total track_bytes m ≡ bytes_of track.packets + (total track_bytes m - bytes_of track.packets)
held-total id track [] h = cc
held-total id track ((j, t) ∷ m) h = ground (arith, held-total id track m)

align_with-IsAccounted :
    (id : ℕ) (track : StreamTrack) (b : ReplayBuffer) (kept : List EncodedPacket) (bytes rest : ℕ)
    → IsSorted b.streams
    → SortedMap.get id b.streams ≡ some track
    → total track_bytes b.streams ≡ bytes_of track.packets + rest
    → bytes ≡ bytes_of kept + rest
    → IsAccounted (align_with id track b (kept, bytes))
unfolding align_with
align_with-IsAccounted id track b [] bytes rest s h e account = record {
  bytes_match = omega (arith, replaced-total id track [] b.streams rest s h);
  sorted = insert-IsSorted id (record track { packets = [] }) b.streams s;
}
align_with-IsAccounted id track b (front ∷ ps) bytes rest s h e account =
    let streams = SortedMap.insert id (record track { packets = front ∷ ps }) b.streams in
    let s' = insert-IsSorted id (record track { packets = front ∷ ps }) b.streams s in
    let total' : total track_bytes streams ≡ bytes =
      omega (arith, replaced-total id track (front ∷ ps) b.streams rest s h) in
    record {
      bytes_match = omega (arith, align_streams-bytes id front.dts streams bytes 0);
      sorted = align_streams-IsSorted id front.dts streams bytes s';
    }

evict_from-IsAccounted :
    (id : ℕ) (track : StreamTrack) (i : ℕ) (b : ReplayBuffer)
    → SortedMap.get id b.streams ≡ some track
    → IsAccounted b
    → IsAccounted (evict_from id track i b)
unfolding evict_from
evict_from-IsAccounted id track i b h acc =
    let (kept, bytes) = drop_fronts i track.packets b.memory_bytes in
    let rest = total track_bytes b.streams - bytes_of track.packets in
    align_with-IsAccounted id track b kept bytes rest acc.sorted h (held-total id track b.streams h)
      (drop_fronts-bytes i track.packets b.memory_bytes rest
          (acc.bytes_match ∙ held-total id track b.streams h)
        ∙ ap (λ ps. bytes_of ps + rest) (sym (drop_fronts-packets i track.packets b.memory_bytes)))

pub evict-IsAccounted : (b : ReplayBuffer) → IsAccounted b → IsAccounted (evict b)
evict-IsAccounted b acc = elim (evict-cases b) [
  | inl e ↦ subst IsAccounted (sym e) acc
  | inr (id, track, i, h, e) ↦ subst IsAccounted (sym e) (evict_from-IsAccounted id track i b h acc)
]

bytes_of-append :
    (ps : List EncodedPacket) (p : EncodedPacket)
    → bytes_of (ps ++ p ∷ []) ≡ bytes_of ps + payload_len p.payload
bytes_of-append [] p = omega arith
bytes_of-append (q ∷ ps) p = omega (arith, bytes_of-append ps p)

store-IsAccounted :
    (track : StreamTrack) (p : EncodedPacket) (b : ReplayBuffer)
    → SortedMap.get p.stream_id b.streams ≡ some track
    → b.memory_bytes + payload_len p.payload ≤ u64_max
    → IsAccounted b
    → IsAccounted (store track p b)
unfolding store
store-IsAccounted track p b h fits acc =
    let packet : EncodedPacket = record p { sequence = b.next_sequence } in
    let ps = track.packets ++ packet ∷ [] in
    let rest = total track_bytes b.streams - bytes_of track.packets in
    let held = held-total p.stream_id track b.streams h in
    let (kept, bytes) =
      trim_to b.config.max_packets_per_stream ps (add_u64 b.memory_bytes (payload_len p.payload)) in
    let cut : StreamTrack = record track { packets = kept; last_dts = some p.dts } in
    let account =
      trim_to-bytes b.config.max_packets_per_stream ps
        (add_u64 b.memory_bytes (payload_len p.payload)) rest
        (omega (arith, bytes_of-append track.packets packet, acc.bytes_match, held)) in
    record {
      bytes_match =
          omega (arith, total-insert track_bytes p.stream_id cut track b.streams acc.sorted h);
      sorted = insert-IsSorted p.stream_id cut b.streams acc.sorted;
    }

pub insert-IsAccounted :
    (p : EncodedPacket) (b : ReplayBuffer)
    → b.memory_bytes + payload_len p.payload ≤ u64_max
    → IsAccounted b
    → IsAccounted (insert p b).1
insert-IsAccounted p b fits acc = elim (insert-InsertCase p b) [
  | unregistered _ e ↦ subst (λ r. IsAccounted r.1) (sym e) acc
  | backwards _ _ _ _ _ e ↦ subst (λ r. IsAccounted r.1) (sym e) acc
  | accepted track h _ _ e ↦
      subst (λ r. IsAccounted r.1) (sym e)
        (evict-IsAccounted (store track p b) (store-IsAccounted track p b h fits acc))
]

pub set_retention-IsAccounted :
    (ms : ℤ) (b : ReplayBuffer) → IsAccounted b → IsAccounted (set_retention ms b).1
unfolding set_retention
set_retention-IsAccounted ms b acc = elim (Bool-cases (leb_ℤ ms (pos 0))) [
  | inl h ↦ rw h acc
  | inr h ↦ rw h (
      evict-IsAccounted (record b { config = record b.config { retention_ms = ms } })
        (record { bytes_match = acc.bytes_match; sorted = acc.sorted }))
]

pub set_stream_extradata-IsAccounted :
    (id : ℕ) (x : Option PacketPayload) (b : ReplayBuffer)
    → IsAccounted b
    → IsAccounted (set_stream_extradata id x b).1
set_stream_extradata-IsAccounted id x b acc = elim (set_stream_extradata-cases id x b) [
  | inl (_, e) ↦ subst (λ r. IsAccounted r.1) (sym e) acc
  | inr (t, h, e) ↦
      let t' = with_extradata t x in
      subst (λ r. IsAccounted r.1) (sym e)
        (record {
          bytes_match =
              omega
                (arith, total-insert track_bytes id t' t b.streams acc.sorted h, acc.bytes_match);
          sorted = insert-IsSorted id t' b.streams acc.sorted;
        })
]

-- Payload bytes of the track under an id.
abbrev pub bytes_under : ℕ → ReplayBuffer → ℕ
bytes_under id b = elim (SortedMap.get id b.streams) [ none ↦ 0 | some t ↦ track_bytes t ]

total-register :
    (d : StreamDescriptor) (b : ReplayBuffer)
    → IsSorted b.streams
    → total track_bytes (SortedMap.insert d.stream_id (new_track d) b.streams)
        + bytes_under d.stream_id b
      ≡ total track_bytes b.streams
total-register d b s = elim (Option-cases (SortedMap.get d.stream_id b.streams)) [
  | inl h ↦ ground (arith, total-insert_new track_bytes d.stream_id (new_track d) b.streams h)
  | inr (t, h) ↦ ground (arith, total-insert track_bytes d.stream_id (new_track d) t b.streams s h)
]

-- Registering a stream again on the millisecond base takes its packets away and leaves the account:
-- if the account was right before, it then exceeds the bytes held by those of the packets that are
-- gone.
pub register_stream-bytes :
    (d : StreamDescriptor) (b : ReplayBuffer)
    → time_base_eq d.time_base millisecond ≡ true
    → IsAccounted b
    → (register_stream d b).1.memory_bytes
      ≡ total track_bytes (register_stream d b).1.streams + bytes_under d.stream_id b
unfolding register_stream
register_stream-bytes d b h acc =
    rw h (omega (arith, total-register d b acc.sorted, acc.bytes_match))

pub register_stream-IsAccounted :
    (d : StreamDescriptor) (b : ReplayBuffer)
    → bytes_under d.stream_id b ≡ 0
    → IsAccounted b
    → IsAccounted (register_stream d b).1
unfolding register_stream
register_stream-IsAccounted d b h acc = elim (Bool-cases (time_base_eq d.time_base millisecond)) [
  | inl ms ↦ rw ms (record {
    bytes_match = omega (arith, total-register d b acc.sorted, acc.bytes_match);
    sorted = insert-IsSorted d.stream_id (new_track d) b.streams acc.sorted;
  })
  | inr other ↦ rw other acc
]
