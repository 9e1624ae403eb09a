-- ===== src/Replay/Steps.antt =====
-- The byte account over runs of calls of the buffer (crates/replay-buffer/src/buffer.rs).
use silk_studio.Prelude.{
  ℕ, ◌+◌, ◌≤◌, ◌<◌, ◌≡◌, ◌∙◌, refl, sym, subst, List, [], ◌∷◌, Option, some, arith, Option-cases,
  Bool-cases, inl, inr, map, ok, err,
}
use silk_studio.Prelude.Words.{u64_max}
use silk_studio.Prelude.SortedMap
use silk_studio.Prelude.SortedMap.{SortedMap, total}
use silk_studio.Media.TimeBase.{time_base_eq, millisecond}
use silk_studio.Media.Packet.{payload_len, PacketPayload}
use silk_studio.Media.Snapshot.{StreamDescriptor}
use silk_studio.Prelude.Int.{ℤ, pos, leb_ℤ}
use silk_studio.Replay.Buffer.{StreamTrack, ReplayBuffer, BufferConfig, new}
use silk_studio.Replay.Operations.{
  Outcome, new_track, set_retention, set_stream_extradata, continue_with, register_stream,
  register_all, start_new_epoch, start_new_epoch_preserving_streams,
}
use silk_studio.Replay.Eviction.{track_bytes}
use silk_studio.Replay.Branches.{with_extradata, set_stream_extradata-cases}
use silk_studio.Replay.Ordering.{IsInOrder, insert-IsInOrder, evict-IsInOrder, insert-keeps_order}
use silk_studio.Replay.Calls.{
  Call, inserts, sets_retention, registers, sets_extradata, starts_epoch, starts_epoch_preserving,
  step, run,
}
use silk_studio.Replay.Accounting.{
  IsAccounted, bytes_under, insert-IsAccounted, set_retention-IsAccounted,
  set_stream_extradata-IsAccounted, register_stream-IsAccounted,
}

track_bytes-le-total :
    (id : ℕ) (m : SortedMap StreamTrack) (t : StreamTrack)
    → SortedMap.get id m ≡ some t
    → track_bytes t ≤ total track_bytes m
track_bytes-le-total id [] t h = cc
track_bytes-le-total id ((j, u) ∷ m) t h = ground (arith, track_bytes-le-total id m t)

bytes_under-le-total : (id : ℕ) (b : ReplayBuffer) → bytes_under id b ≤ total track_bytes b.streams
bytes_under-le-total id b = elim (Option-cases (SortedMap.get id b.streams)) [
  | inl h ↦ ground arith
  | inr (t, h) ↦ ground (arith, track_bytes-le-total id b.streams t h)
]

register_stream-memory_bytes :
    (d : StreamDescriptor) (b : ReplayBuffer)
    → (register_stream d b).1.memory_bytes ≡ b.memory_bytes
unfolding register_stream
register_stream-memory_bytes d b = ground arith

-- Registering into a buffer that holds no bytes keeps the account.
abbrev EmptyAccount : ReplayBuffer → Type 0
EmptyAccount b = IsAccounted b × (b.memory_bytes ≡ 0)

continue_with-keeps :
    (P : ReplayBuffer → Type 0) (o : Outcome (Unit {0})) (rest : ReplayBuffer → Outcome (Unit {0}))
    → P o.1
    → ((b : ReplayBuffer) → P b → P (rest b).1)
    → P (continue_with o rest).1
continue_with-keeps P (ok u, b) rest h k = k b h
continue_with-keeps P (err e, b) rest h k = h

register_all-EmptyAccount :
    (ds : List StreamDescriptor) (b : ReplayBuffer)
    → EmptyAccount b
    → EmptyAccount (register_all ds b).1
unfolding register_all
register_all-EmptyAccount [] b h = h
register_all-EmptyAccount (d ∷ ds) b h =
    let under : bytes_under d.stream_id b ≡ 0 =
      omega (arith, bytes_under-le-total d.stream_id b, h.0.bytes_match, h.1) in
    continue_with-keeps EmptyAccount (register_stream d b) (register_all ds)
      (register_stream-IsAccounted d b under h.0, register_stream-memory_bytes d b ∙ h.1)
      (register_all-EmptyAccount ds)

start_new_epoch-EmptyAccount : (b : ReplayBuffer) → EmptyAccount (start_new_epoch b)
unfolding start_new_epoch
start_new_epoch-EmptyAccount b = (record { bytes_match = refl; sorted = tt }, refl)

preserving-buffer :
    (b : ReplayBuffer)
    → (start_new_epoch_preserving_streams b).1
      ≡ (register_all (map (λ t. t.descriptor) (SortedMap.values b.streams)) (start_new_epoch b)).1
unfolding start_new_epoch_preserving_streams
preserving-buffer b = ground arith

-- The account has room for what a packet adds, and no stream is registered again while it holds
-- bytes.
abbrev pub HasRoom : Call → ReplayBuffer → Type 0
HasRoom (inserts p) b = b.memory_bytes + payload_len p.payload ≤ u64_max
HasRoom (registers d) b = bytes_under d.stream_id b ≡ 0
HasRoom _ b = Unit

abbrev pub HaveRoom : List Call → ReplayBuffer → Type 0
HaveRoom [] b = Unit
HaveRoom (c ∷ cs) b = HasRoom c b × HaveRoom cs (step c b)

pub step-IsAccounted :
    (c : Call) (b : ReplayBuffer) → HasRoom c b → IsAccounted b → IsAccounted (step c b)
step-IsAccounted (inserts p) b room acc = insert-IsAccounted p b room acc
step-IsAccounted (sets_retention ms) b room acc = set_retention-IsAccounted ms b acc
step-IsAccounted (registers d) b room acc = register_stream-IsAccounted d b room acc
step-IsAccounted (sets_extradata id x) b room acc = set_stream_extradata-IsAccounted id x b acc
step-IsAccounted starts_epoch b room acc = (start_new_epoch-EmptyAccount b).0
step-IsAccounted starts_epoch_preserving b room acc =
    subst IsAccounted (sym (preserving-buffer b))
      (register_all-EmptyAccount (map (λ t. t.descriptor) (SortedMap.values b.streams))
        (start_new_epoch b) (start_new_epoch-EmptyAccount b)).0

runs-IsAccounted :
    (cs : List Call) (b : ReplayBuffer) → HaveRoom cs b → IsAccounted b → IsAccounted (run cs b)
runs-IsAccounted [] b room acc = acc
runs-IsAccounted (c ∷ cs) b room acc =
    runs-IsAccounted cs (step c b) room.1 (step-IsAccounted c b room.0 acc)

-- However a new buffer is used, its account stays the sum of the payload bytes of the packets that
-- its streams hold, and the streams stay in the order of their ids, provided that no inserted
-- packet takes the account past the largest `u64` and that a stream that holds bytes is not
-- registered again.
pub run-IsAccounted :
    (config : BufferConfig) (cs : List Call)
    → HaveRoom cs (new config)
    → IsAccounted (run cs (new config))
run-IsAccounted config cs room =
    runs-IsAccounted cs (new config) room (record { bytes_match = refl; sorted = tt })

register_stream-IsInOrder :
    (d : StreamDescriptor) (b : ReplayBuffer) → IsInOrder b → IsInOrder (register_stream d b).1
unfolding register_stream
register_stream-IsInOrder d b h = elim (Bool-cases (time_base_eq d.time_base millisecond)) [
  | inl ms ↦ rw ms (λ j t eq.
      insert-IsInOrder b.next_sequence d.stream_id j (new_track d) t b.streams (refl, tt) (h j) eq)
  | inr other ↦ rw other h
]

register_all-IsInOrder :
    (ds : List StreamDescriptor) (b : ReplayBuffer) → IsInOrder b → IsInOrder (register_all ds b).1
unfolding register_all
register_all-IsInOrder [] b h = h
register_all-IsInOrder (d ∷ ds) b h =
    continue_with-keeps IsInOrder (register_stream d b) (register_all ds)
      (register_stream-IsInOrder d b h) (register_all-IsInOrder ds)

set_retention-IsInOrder :
    (ms : ℤ) (b : ReplayBuffer) → IsInOrder b → IsInOrder (set_retention ms b).1
unfolding set_retention
set_retention-IsInOrder ms b h = elim (Bool-cases (leb_ℤ ms (pos 0))) [
  | inl refused ↦ rw refused h
  | inr kept ↦
      rw kept (evict-IsInOrder (record b { config = record b.config { retention_ms = ms } }) h)
]

set_stream_extradata-IsInOrder :
    (id : ℕ) (x : Option PacketPayload) (b : ReplayBuffer)
    → IsInOrder b
    → IsInOrder (set_stream_extradata id x b).1
set_stream_extradata-IsInOrder id x b h = elim (set_stream_extradata-cases id x b) [
  | inl (_, e) ↦ subst (λ r. IsInOrder r.1) (sym e) h
  | inr (t, found, e) ↦
      subst (λ r. IsInOrder r.1) (sym e)
        (λ j u eq.
          insert-IsInOrder b.next_sequence id j (with_extradata t x) u b.streams (h id t found)
            (h j) eq)
]

start_new_epoch-IsInOrder : (b : ReplayBuffer) → IsInOrder (start_new_epoch b)
unfolding start_new_epoch
start_new_epoch-IsInOrder b j t eq = cc

-- A packet still has a sequence of its own to get.
abbrev pub HasSequence : Call → ReplayBuffer → Type 0
HasSequence (inserts p) b = b.next_sequence < u64_max
HasSequence _ b = Unit

-- Every call on a buffer whose tracks are in order leaves them in order: packets of their own
-- stream only, by decode time and strictly by sequence, all numbered below the next sequence, the
-- decode time of the last one remembered. For an insertion the sequence counter is below the
-- largest `u64`.
pub step-IsInOrder :
    (c : Call) (b : ReplayBuffer) → HasSequence c b → IsInOrder b → IsInOrder (step c b)
step-IsInOrder (inserts p) b room h = insert-keeps_order p b room h
step-IsInOrder (sets_retention ms) b room h = set_retention-IsInOrder ms b h
step-IsInOrder (registers d) b room h = register_stream-IsInOrder d b h
step-IsInOrder (sets_extradata id x) b room h = set_stream_extradata-IsInOrder id x b h
step-IsInOrder starts_epoch b room h = start_new_epoch-IsInOrder b
step-IsInOrder starts_epoch_preserving b room h = subst IsInOrder (sym (preserving-buffer b)) (
    register_all-IsInOrder (map (λ t. t.descriptor) (SortedMap.values b.streams))
      (start_new_epoch b) (start_new_epoch-IsInOrder b))
