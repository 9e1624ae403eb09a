-- ===== src/Replay/Branches.antt =====
-- The outcomes of the buffer's fallible operations (crates/replay-buffer/src/buffer.rs, error.rs).
use silk_studio.Prelude.{
  ℕ, zero, suc, ◌+◌, ◌-◌, ◌%◌, ◌^◌, ◌≡◌, ◌≢◌, ◌⊎◌, refl, ap, ◌∙◌, false, List, [], ◌∷◌, ◌++◌,
  Option, none, some, arith, ltb, length, drop, length-append, Bool-cases, Option-cases, inl, inr,
  ok, err,
}
use silk_studio.Prelude.Int.{ℤ, ◌<ℤ◌, ltb_ℤ}
use silk_studio.Prelude.Words.{add_u64}
use silk_studio.Prelude.SortedMap
use silk_studio.Prelude.SortedMap.{get-insert}
use silk_studio.Media.Packet.{EncodedPacket, PacketPayload, payload_len}
use silk_studio.Replay.Buffer.{
  StreamTrack, ReplayBuffer, unregistered_stream, non_monotonic_timestamp, trim_to, evict,
}
use silk_studio.Replay.Operations.{set_stream_extradata, went_backwards, store, insert}

-- A packet may follow the decode time that its track saw last.
abbrev pub Follows : Option ℤ → ℤ → Type 0
Follows none dts = Unit
Follows (some previous) dts = ltb_ℤ dts previous ≡ false

pub went_backwards-none :
    (last : Option ℤ) (dts : ℤ) → went_backwards last dts ≡ none → Follows last dts
unfolding went_backwards
went_backwards-none none dts h = tt
went_backwards-none (some previous) dts h = ground arith

went_backwards-some :
    (last : Option ℤ) (dts previous : ℤ)
    → went_backwards last dts ≡ some previous
    → (last ≡ some previous) × (dts <ℤ previous)
unfolding went_backwards
went_backwards-some none dts previous h = cc
went_backwards-some (some p) dts previous h = ground arith

-- A packet is stored in the track of its stream: it is the last there, under the next sequence, and
-- packets leave at the front while there are more than the cap. No other stream changes.
pub record IsStored (track : StreamTrack) (p : EncodedPacket) (b b' : ReplayBuffer) : Type 0 where
  pub is_last :
      SortedMap.get p.stream_id b'.streams
      ≡ some record track {
        packets =
            drop
              (length track.packets + 1 - b.config.max_packets_per_stream)
              (track.packets ++ record p { sequence = b.next_sequence } ∷ []);
        last_dts = some p.dts;
      }
  pub others_stay :
      (id : ℕ) → id ≢ p.stream_id → SortedMap.get id b'.streams ≡ SortedMap.get id b.streams
  pub sequence_is : b'.next_sequence ≡ (b.next_sequence + 1) % 2 ^ 64
  pub config_stays : b'.config ≡ b.config
  pub video_stays : b'.video_stream ≡ b.video_stream
  pub epoch_stays : b'.epoch ≡ b.epoch

drop_nothing : (n : ℕ) → ◌≡◌ {A = List EncodedPacket} [] (drop n [])
drop_nothing zero = refl
drop_nothing (suc n) = refl

trim_to-packets :
    (most : ℕ) (ps : List EncodedPacket) (bytes : ℕ)
    → (trim_to most ps bytes).0 ≡ drop (length ps - most) ps
unfolding trim_to
trim_to-packets most [] bytes = drop_nothing (0 - most)
trim_to-packets most (p ∷ ps) bytes = elim (Bool-cases (ltb most (length (p ∷ ps)))) [
  | inl over ↦
      let more : suc (length ps - most) ≡ suc (length ps) - most = ground arith in
      let rest = trim_to-packets most ps (bytes - payload_len p.payload) in
      rw over (rest ∙ ap (λ n. drop n (p ∷ ps)) more)
  | inr fits ↦
      let none_more : 0 ≡ suc (length ps) - most = ground arith in
      rw fits (ap (λ n. drop n (p ∷ ps)) none_more)
]

store-IsStored :
    (track : StreamTrack) (p : EncodedPacket) (b : ReplayBuffer)
    → IsStored track p b (store track p b)
unfolding store
store-IsStored track p b =
    let packet : EncodedPacket = record p { sequence = b.next_sequence } in
    let whole : List EncodedPacket = track.packets ++ packet ∷ [] in
    let held =
      trim_to b.config.max_packets_per_stream whole
        (add_u64 b.memory_bytes (payload_len p.payload)) in
    let stored : StreamTrack = record track { packets = held.0; last_dts = some p.dts } in
    let kept : held.0 ≡ drop (length track.packets + 1 - b.config.max_packets_per_stream) whole =
      trim_to-packets b.config.max_packets_per_stream whole _
      ∙ ap (λ n. drop (n - b.config.max_packets_per_stream) whole)
          (length-append track.packets (packet ∷ [])) in
    record {
      is_last =
          ground (arith, get-insert p.stream_id p.stream_id stored b.streams)
          ∙ ap (λ ps. some record track { packets = ps; last_dts = some p.dts }) kept;
      others_stay = λ id other. ground (arith, get-insert p.stream_id id stored b.streams);
      sequence_is = refl;
      config_stays = refl;
      video_stays = refl;
      epoch_stays = refl;
    }

-- The three outcomes of `insert`.
pub data InsertCase (p : EncodedPacket) (b : ReplayBuffer) : Type 0 where
  unregistered :
      SortedMap.get p.stream_id b.streams ≡ none
      → insert p b ≡ (err (unregistered_stream p.stream_id), b)
      → InsertCase p b
  backwards :
      (track : StreamTrack) (previous : ℤ)
      → SortedMap.get p.stream_id b.streams ≡ some track
      → track.last_dts ≡ some previous
      → p.dts <ℤ previous
      → insert p b ≡ (err (non_monotonic_timestamp p.stream_id previous p.dts), b)
      → InsertCase p b
  accepted :
      (track : StreamTrack)
      → SortedMap.get p.stream_id b.streams ≡ some track
      → Follows track.last_dts p.dts
      → IsStored track p b (store track p b)
      → insert p b ≡ (ok tt, evict (store track p b))
      → InsertCase p b

-- `insert` refuses a packet of an unregistered stream, and one whose decode time is less than the
-- last that its stream accepted, with both times in the error; a refusal leaves the buffer as it
-- was. Any other packet is stored and the buffer evicted: stored, it is the last of its stream, under
-- the buffer's next sequence, with its decode time as the stream's last; as many packets leave at the
-- front as are over the cap, and no other stream changes.
pub insert-InsertCase : (p : EncodedPacket) (b : ReplayBuffer) → InsertCase p b
unfolding insert
insert-InsertCase p b = elim (Option-cases (SortedMap.get p.stream_id b.streams)) [
  | inl h ↦ unregistered h (ground arith)
  | inr (track, h) ↦ elim (Option-cases (went_backwards track.last_dts p.dts)) [
    | inl w ↦
        accepted track h (went_backwards-none track.last_dts p.dts w) (store-IsStored track p b)
          (ground arith)
    | inr (previous, w) ↦
        let (last, less) = went_backwards-some track.last_dts p.dts previous w in
        backwards track previous h last less (ground arith)
  ]
]

-- The track with other codec bytes.
abbrev pub with_extradata : StreamTrack → Option PacketPayload → StreamTrack
with_extradata t x = record t { descriptor = record t.descriptor { extradata = x } }

pub set_stream_extradata-cases :
    (id : ℕ) (x : Option PacketPayload) (b : ReplayBuffer)
    → ((SortedMap.get id b.streams ≡ none)
        × (set_stream_extradata id x b ≡ (err (unregistered_stream id), b)))
      ⊎ ((t : StreamTrack) × (SortedMap.get id b.streams ≡ some t)
          × (set_stream_extradata id x b
              ≡ (ok tt, record b { streams = SortedMap.insert id (with_extradata t x) b.streams })))
unfolding set_stream_extradata
set_stream_extradata-cases id x b = elim (Option-cases (SortedMap.get id b.streams)) [
  | inl h ↦ inl (h, ground arith)
  | inr (t, h) ↦ inr (t, h, ground arith)
]
