-- ===== src/Mp4/Examples/Payloads.antt =====
-- Tests of the payload formats: NAL units, AV1 samples, ADTS frames and top-level boxes.
use silk_studio.Prelude.{◌≡◌, ◌≢◌, refl, [], ◌∷◌, ok, err, none, List, arith}
use silk_studio.Mp4.Bytes.{Bytes}
use silk_studio.Mp4.Boxes.{scan_top_level_boxes, scan_loop, read_box, invalid_size}
use silk_studio.Mp4.Boxes.Tiling.{FileBox, tiles, scan_top_level_boxes-tiles}
use silk_studio.Mp4.Nal.{
  remove_emulation_prevention, remove_from, avcc_nals, avcc_loop, annex_b_nals, annex_b_loop,
  split_at_code, nal_units, prefix_nals, nal_access_unit,
}
use silk_studio.Mp4.Nal.AccessUnit.{nal_access_unit-nal_units}
use silk_studio.Mp4.Nal.AnnexB.{annex_b, nal_access_unit-annex_b}
use silk_studio.Mp4.Nal.Avcc.{framed}
use silk_studio.Mp4.Obu.{
  out_of_fuel, encode_leb128, leb128_loop, read_size, check_header, take_extension, take_payload,
  normalize_obu, normalize_loop, normalize_av1_sample_payload,
}
use silk_studio.Mp4.Obu.Loop.{
  normalize_av1_sample_payload_twice, normalize_av1_sample_payload_terminates,
}
use silk_studio.Mp4.Samples.Adts.{strip_adts_if_present}

-- Two NAL units, after start codes of four and of three bytes.
abbrev annex_b_packet : Bytes
annex_b_packet = 0 ∷ 0 ∷ 0 ∷ 1 ∷ 9 ∷ 16 ∷ 0 ∷ 0 ∷ 1 ∷ 101 ∷ 7 ∷ 8 ∷ []

abbrev access_unit : Bytes
access_unit = 0 ∷ 0 ∷ 0 ∷ 2 ∷ 9 ∷ 16 ∷ 0 ∷ 0 ∷ 0 ∷ 3 ∷ 101 ∷ 7 ∷ 8 ∷ []

nal_access_unit_test : nal_access_unit annex_b_packet ≡ ok access_unit
unfolding nal_access_unit nal_units avcc_nals avcc_loop annex_b_nals annex_b_loop split_at_code
    prefix_nals
nal_access_unit_test = refl

remove_emulation_prevention_test :
    remove_emulation_prevention (1 ∷ 0 ∷ 0 ∷ 3 ∷ 1 ∷ 0 ∷ 0 ∷ 3 ∷ []) ≡ 1 ∷ 0 ∷ 0 ∷ 1 ∷ 0 ∷ 0 ∷ []
unfolding remove_from
remove_emulation_prevention_test = refl

nal_access_unit-nal_units_example :
    (avcc_nals access_unit ≡ nal_units annex_b_packet)
    × (nal_access_unit access_unit ≡ ok access_unit)
nal_access_unit-nal_units_example =
    nal_access_unit-nal_units annex_b_packet access_unit nal_access_unit_test

not_length_prefixed : avcc_nals (annex_b ((9 ∷ 16 ∷ []) ∷ (101 ∷ 7 ∷ 8 ∷ []) ∷ [])) ≡ none
unfolding annex_b avcc_nals avcc_loop
not_length_prefixed = refl

nal_access_unit-annex_b_example :
    nal_access_unit (annex_b ((9 ∷ 16 ∷ []) ∷ (101 ∷ 7 ∷ 8 ∷ []) ∷ []))
    ≡ ok (framed ((9 ∷ 16 ∷ []) ∷ (101 ∷ 7 ∷ 8 ∷ []) ∷ []))
nal_access_unit-annex_b_example =
    nal_access_unit-annex_b (9 ∷ 16 ∷ []) ((101 ∷ 7 ∷ 8 ∷ []) ∷ [])
      (
        ((refl, (refl, tt)), (omega arith, omega arith)),
        (((refl, (refl, (refl, tt))), (omega arith, omega arith)), tt),
      )
      not_length_prefixed

-- A temporal delimiter with a size field, and a sequence header without one.
abbrev av1_sample : Bytes
av1_sample = 18 ∷ 0 ∷ 8 ∷ 10 ∷ 11 ∷ []

normalize_av1_sample_payload_test :
    normalize_av1_sample_payload av1_sample ≡ ok (18 ∷ 0 ∷ 10 ∷ 2 ∷ 10 ∷ 11 ∷ [])
unfolding normalize_av1_sample_payload normalize_loop normalize_obu check_header take_extension
    take_payload read_size encode_leb128 leb128_loop
normalize_av1_sample_payload_test = refl

encode_leb128_test : encode_leb128 300 ≡ 172 ∷ 2 ∷ []
unfolding encode_leb128 leb128_loop
encode_leb128_test = refl

normalize_av1_sample_payload_twice_example :
    normalize_av1_sample_payload (18 ∷ 0 ∷ 10 ∷ 2 ∷ 10 ∷ 11 ∷ [])
    ≡ ok (18 ∷ 0 ∷ 10 ∷ 2 ∷ 10 ∷ 11 ∷ [])
normalize_av1_sample_payload_twice_example =
    normalize_av1_sample_payload_twice av1_sample (18 ∷ 0 ∷ 10 ∷ 2 ∷ 10 ∷ 11 ∷ [])
      normalize_av1_sample_payload_test

normalize_av1_sample_payload_terminates_example :
    normalize_av1_sample_payload av1_sample ≢ err out_of_fuel
normalize_av1_sample_payload_terminates_example = normalize_av1_sample_payload_terminates av1_sample

-- A header of seven bytes and two of payload: a frame of nine bytes.
strip_adts_if_present_test :
    strip_adts_if_present (255 ∷ 241 ∷ 80 ∷ 128 ∷ 1 ∷ 63 ∷ 252 ∷ 33 ∷ 34 ∷ []) ≡ 33 ∷ 34 ∷ []
unfolding strip_adts_if_present
strip_adts_if_present_test = refl

abbrev two_boxes : List FileBox
two_boxes =
    record { type = 102 ∷ 116 ∷ 121 ∷ 112 ∷ []; body = 1 ∷ 2 ∷ [] }
    ∷ record { type = 109 ∷ 111 ∷ 111 ∷ 118 ∷ []; body = [] }
    ∷ []

scan_top_level_boxes-tiles_example :
    scan_top_level_boxes (tiles two_boxes)
    ≡ ok ((102 ∷ 116 ∷ 121 ∷ 112 ∷ []) ∷ (109 ∷ 111 ∷ 111 ∷ 118 ∷ []) ∷ [])
unfolding tiles
scan_top_level_boxes-tiles_example =
    scan_top_level_boxes-tiles two_boxes ((refl, omega arith), ((refl, omega arith), tt))
      (omega arith)

invalid_size_test : scan_top_level_boxes (0 ∷ 0 ∷ 0 ∷ 7 ∷ 1 ∷ 1 ∷ 1 ∷ 1 ∷ []) ≡ err invalid_size
unfolding scan_top_level_boxes scan_loop read_box
invalid_size_test = refl
