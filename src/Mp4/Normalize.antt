-- ===== src/Mp4/Normalize.antt =====
-- Times from the clip's start: `normalize_snapshot` of crates/muxer/src/mp4_muxer.rs. An encoded
-- packet is shared there and cloned before its times change; nothing observes the sharing.
pub mod Shift
use silk_studio.Prelude.{
  ℕ, Bool, List, [], ◌∷◌, Option, none, some, ltb, if◌then◌else◌, ◌&&◌, leb, Result, ok, err, ◌>>=◌,
  ◌>>◌,
}
use silk_studio.Prelude.Int.{ℤ, pos, ◌-ℤ◌, ltb_ℤ, leb_ℤ, min_ℤ}
use silk_studio.Prelude.Words.{i64_min, i64_max}
use silk_studio.Media.Packet.{EncodedPacket}
use silk_studio.Media.Snapshot.{StreamPackets, MediaSnapshot}
use silk_studio.Muxer.{validate_snapshot}
use silk_studio.Mp4.Error.{
  Mp4Error, invalid_snapshot, dts_underflow, dts_negative, pts_underflow, pts_negative,
}

-- `i64::checked_sub`
unfoldable pub checked_sub_i64 : ℤ → ℤ → Option ℤ
unfolding ◌-ℤ◌
checked_sub_i64 a b =
    if leb_ℤ i64_min (a -ℤ b) && leb_ℤ (a -ℤ b) i64_max then some (a -ℤ b) else none

abbrev pub least_first : ℤ → List EncodedPacket → ℤ
least_first shift [] = shift
least_first shift (p ∷ ps) = min_ℤ (min_ℤ shift p.dts) p.pts

-- The loop that finds the shift.
unfoldable pub find_shift : ℤ → List StreamPackets → ℤ
find_shift shift [] = shift
find_shift shift (s ∷ ss) = find_shift (least_first shift s.packets) ss

abbrev pub checked_time : (shift time : ℤ) (underflow negative : Mp4Error) → Result Mp4Error ℤ
checked_time shift time underflow negative = elim (checked_sub_i64 time shift) [
  | none ↦ err underflow
  | some t ↦ if ltb_ℤ t (pos 0) then err negative else ok t
]

unfoldable pub shift_packet : ℤ → EncodedPacket → Result Mp4Error EncodedPacket
shift_packet shift p = checked_time shift p.dts dts_underflow dts_negative >>= λ dts.
    checked_time shift p.pts pts_underflow pts_negative >>= λ pts.
    ok (record p { dts = dts; pts = pts })

unfoldable pub shift_packets : ℤ → List EncodedPacket → Result Mp4Error (List EncodedPacket)
shift_packets shift [] = ok []
shift_packets shift (p ∷ ps) =
    shift_packet shift p >>= λ q. shift_packets shift ps >>= λ qs. ok (q ∷ qs)

unfoldable pub shift_streams : ℤ → List StreamPackets → Result Mp4Error (List StreamPackets)
shift_streams shift [] = ok []
shift_streams shift (s ∷ ss) = shift_packets shift s.packets >>= λ packets.
    shift_streams shift ss >>= λ rest.
    ok (record { descriptor = s.descriptor; packets = packets } ∷ rest)

-- The validation's error as the muxer's.
abbrev pub validated : MediaSnapshot → Result Mp4Error MediaSnapshot
validated m = elim (validate_snapshot m) [ ok _ ↦ ok m | err e ↦ err (invalid_snapshot e) ]

-- `normalize_snapshot`
unfoldable pub normalize_snapshot : MediaSnapshot → Result Mp4Error MediaSnapshot
normalize_snapshot m = shift_streams (find_shift m.origin_pts m.streams) m.streams >>= λ streams.
    validated (record m { origin_pts = pos 0; streams = streams })
