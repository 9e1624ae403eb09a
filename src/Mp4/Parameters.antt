-- ===== src/Mp4/Parameters.antt =====
-- H.264 parameter sets: `extract_sps_pps` and `parse_sps_pps_from_avcc` of
-- crates/muxer/src/mp4_muxer.rs. A position in the data is what follows it.
use silk_studio.Prelude.{
  ℕ, zero, suc, ◌%◌, ◌^◌, Bool, ◌&&◌, List, [], ◌∷◌, Option, none, some, ltb, ◌==◌, if◌then◌else◌,
  length, take, drop, is_some, Result, ok, ◌>>=◌, ok_or,
}
use silk_studio.Media.Packet.{EncodedPacket}
use silk_studio.Media.Snapshot.{StreamPackets}
use silk_studio.Mp4.Bytes.{Bytes, from_be16}
use silk_studio.Mp4.Error.{Mp4Error, missing_sps, missing_pps}
use silk_studio.Mp4.Nal.{nal_units}

-- A unit after its length of two bytes, and what follows it.
unfoldable pub take_unit : Bytes → Option (Bytes × Bytes)
take_unit bytes =
    if ltb (length bytes) 2
    then none
    else if ltb (length (drop 2 bytes)) (from_be16 bytes)
    then none
    else some (take (from_be16 bytes) (drop 2 bytes), drop (from_be16 bytes) (drop 2 bytes))

-- A loop over units: the first of them, and what follows the last; no unit, no first one.
unfoldable pub take_units : (count : ℕ) → Bytes → Option (Option Bytes × Bytes)
take_units zero bytes = some (none, bytes)
take_units (suc count) bytes = elim (take_unit bytes) [
  | none ↦ none
  | some (first, after) ↦ elim (take_units count after) [
    | none ↦ none
    | some (others, rest) ↦ some (some first, rest)
  ]
]

abbrev pub first_two : (sps : Option Bytes) → (pps : Option Bytes) → Option (Bytes × Bytes)
first_two (some sps) (some pps) = some (sps, pps)
first_two (some sps) none = none
first_two none pps = none

-- The second half: what follows the sequence parameter sets.
unfoldable pub with_pps : Option Bytes → Bytes → Option (Bytes × Bytes)
with_pps sps [] = none
with_pps sps (count ∷ after) = elim (take_units count after) [
  | none ↦ none
  | some (pps, rest) ↦ first_two sps pps
]

-- `parse_sps_pps_from_avcc`
unfoldable pub parse_sps_pps_from_avcc : Bytes → Option (Bytes × Bytes)
parse_sps_pps_from_avcc (version ∷ b ∷ c ∷ d ∷ e ∷ count ∷ g ∷ rest) =
    if version == 1
    then (elim (take_units (count % 2 ^ 5) (g ∷ rest)) [
      | none ↦ none
      | some (sps, after) ↦ with_pps sps after
    ])
    else none
parse_sps_pps_from_avcc short = none

-- The parameter sets found so far.
abbrev pub Found : Type 0
Found = Option Bytes × Option Bytes

abbrev pub or_else : Option Bytes → (take_it : Bool) → Bytes → Option Bytes
or_else (some found) take_it nal = some found
or_else none take_it nal = if take_it then some nal else none

-- The first unit of each type is taken, and an empty one is passed over.
abbrev pub see_nal : Found → Bytes → Found
see_nal (sps, pps) [] = (sps, pps)
see_nal (sps, pps) (b ∷ bs) =
    (or_else sps (b % 2 ^ 5 == 7) (b ∷ bs), or_else pps (b % 2 ^ 5 == 8) (b ∷ bs))

unfoldable pub see_nals : Found → List Bytes → Found
see_nals found [] = found
see_nals found (nal ∷ nals) = see_nals (see_nal found nal) nals

abbrev pub see_data : Found → Bytes → Found
see_data found bytes = elim (nal_units bytes) [ none ↦ found | some nals ↦ see_nals found nals ]

abbrev pub is_complete : Found → Bool
is_complete (sps, pps) = is_some sps && is_some pps

-- The loop over the packets, left as soon as both are found.
unfoldable pub see_packets : Found → List EncodedPacket → Found
see_packets found [] = found
see_packets found (p ∷ ps) =
    let next = see_data found p.payload in
    let more = see_packets next ps in if is_complete next then next else more

-- The part on the stream's own codec bytes.
abbrev pub from_extradata : Option Bytes → Found
from_extradata none = (none, none)
from_extradata (some []) = (none, none)
from_extradata (some (b ∷ bs)) = elim (parse_sps_pps_from_avcc (b ∷ bs)) [
  | some (sps, pps) ↦ (some sps, some pps)
  | none ↦ see_data (none, none) (b ∷ bs)
]

unfoldable pub find_sps_pps : StreamPackets → Found
find_sps_pps s =
    let found = from_extradata s.descriptor.extradata in
    if is_complete found then found else see_packets found s.packets

-- `extract_sps_pps`
unfoldable pub extract_sps_pps : StreamPackets → Result Mp4Error (Bytes × Bytes)
extract_sps_pps s = ok_or (find_sps_pps s).0 (missing_sps s.descriptor.stream_id) >>= λ sps.
    ok_or (find_sps_pps s).1 (missing_pps s.descriptor.stream_id) >>= λ pps. ok (sps, pps)
