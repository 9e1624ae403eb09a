-- ===== src/Mp4/Obu/Ends.antt =====
-- The parts of a round of `normalize_av1_sample_payload`, and running out of fuel.
use silk_studio.Prelude.{
  ℕ, zero, suc, ◌+◌, ◌*◌, ◌%◌, ◌^◌, ◌≢◌, [], ◌∷◌, err, Result-cases, inl, inr, arith,
}
use silk_studio.Mp4.Bytes.{Bytes}
use silk_studio.Mp4.Obu.{
  out_of_fuel, read_size, check_header, take_extension, take_payload, normalize_obu,
}

read_size-terminates :
    (left weight size : ℕ) (bytes : Bytes) → read_size left weight size bytes ≢ err out_of_fuel
unfolding read_size
read_size-terminates left weight size [] read = cc
read_size-terminates zero weight size (b ∷ bs) read = cc
read_size-terminates (suc left) weight size (b ∷ bs) read =
    let later = read_size-terminates left (weight * 2 ^ 7) (size + b % 2 ^ 7 * weight) bs in
    ground arith

take_extension-terminates :
    (header : ℕ) (bytes : Bytes) → take_extension header bytes ≢ err out_of_fuel
unfolding take_extension
take_extension-terminates header [] fails = ground arith
take_extension-terminates header (ext ∷ bytes) fails = ground arith

take_payload-terminates : (header : ℕ) (bytes : Bytes) → take_payload header bytes ≢ err out_of_fuel
unfolding take_payload
take_payload-terminates header bytes fails =
    let reads = read_size-terminates 8 1 0 bytes in
    elim (Result-cases (read_size 8 1 0 bytes)) [
      | inl ((size, body), read) ↦ ground arith
      | inr (e, reason) ↦ ground arith
    ]

check_header-terminates : (header : ℕ) → check_header header ≢ err out_of_fuel
unfolding check_header
check_header-terminates header fails = ground arith

pub normalize_obu-terminates :
    (header : ℕ) (bytes : Bytes) → normalize_obu header bytes ≢ err out_of_fuel
unfolding normalize_obu
normalize_obu-terminates header bytes fails = elim (Result-cases (check_header header)) [
  | inr (e, refused) ↦ check_header-terminates header (ground arith)
  | inl (u, checked) ↦ elim (Result-cases (take_extension header bytes)) [
    | inr (e, refused) ↦ take_extension-terminates header bytes (ground arith)
    | inl ((extension, after), taken) ↦ take_payload-terminates header after (ground arith)
  ]
]
