-- ===== src/Replay/Calls.antt =====
-- The calls that change the buffer, as data (crates/replay-buffer/src/buffer.rs), and the runs of
-- them.
use silk_studio.Prelude.{ℕ, List, [], ◌∷◌, Option}
use silk_studio.Prelude.Int.{ℤ}
use silk_studio.Media.Packet.{EncodedPacket, PacketPayload}
use silk_studio.Media.Snapshot.{StreamDescriptor}
use silk_studio.Replay.Buffer.{ReplayBuffer}
use silk_studio.Replay.Operations.{
  start_new_epoch, register_stream, start_new_epoch_preserving_streams, set_stream_extradata,
  insert, set_retention,
}

pub data Call : Type 0 where
  inserts : EncodedPacket → Call
  sets_retention : ℤ → Call
  registers : StreamDescriptor → Call
  sets_extradata : ℕ → Option PacketPayload → Call
  starts_epoch starts_epoch_preserving : Call

-- The buffer after a call, whatever the call returns.
abbrev pub step : Call → ReplayBuffer → ReplayBuffer
step (inserts p) b = (insert p b).1
step (sets_retention ms) b = (set_retention ms b).1
step (registers d) b = (register_stream d b).1
step (sets_extradata id x) b = (set_stream_extradata id x b).1
step starts_epoch b = start_new_epoch b
step starts_epoch_preserving b = (start_new_epoch_preserving_streams b).1

abbrev pub run : List Call → ReplayBuffer → ReplayBuffer
run [] b = b
run (c ∷ cs) b = run cs (step c b)
