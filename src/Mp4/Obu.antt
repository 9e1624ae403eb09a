-- ===== src/Mp4/Obu.antt =====
-- AV1 samples: `encode_leb128` and `normalize_av1_sample_payload` of crates/muxer/src/mp4_muxer.rs. A
-- position in the data is what follows it.
pub mod Size
pub mod Step
pub mod Ends
pub mod Loop
use silk_studio.Prelude.{
  ℕ, zero, suc, ◌+◌, ◌*◌, ◌/◌, ◌%◌, ◌^◌, Bool, true, false, not, ◌&&◌, ◌||◌, List, [], ◌∷◌, ◌++◌,
  ltb, leb, ◌==◌, if◌then◌else◌, length, take, drop, is_empty, Result, ok, err, ◌>>=◌,
}
use silk_studio.Prelude.Words.{u32_max, u64_max}
use silk_studio.Mp4.Bytes.{Bytes}

pub data ObuError : Type 0 where
  empty_sample forbidden_bit reserved_bit unsupported_type truncated_header extension_reserved :
      ObuError
  truncated_size size_too_wide size_overflow size_too_large truncated_payload : ObuError
  no_obus out_of_fuel : ObuError

-- `encode_leb128`. A `usize` has 64 bits, hence at most ten rounds.
unfoldable pub leb128_loop : (fuel value : ℕ) → Bytes
leb128_loop zero value = []
leb128_loop (suc fuel) value =
    let more = leb128_loop fuel (value / 2 ^ 7) in
    if value / 2 ^ 7 == 0 then (value % 2 ^ 7) ∷ [] else (value % 2 ^ 7 + 2 ^ 7) ∷ more

unfoldable pub encode_leb128 : ℕ → Bytes
encode_leb128 = leb128_loop 10

-- The loop that reads a size, with what follows it: each round a byte, at most eight of them, whose
-- low bits go in above those before. The shift is at most 49, so `checked_shl` has a value.
unfoldable pub read_size : (left weight size : ℕ) → Bytes → Result ObuError (ℕ × Bytes)
read_size left weight size [] = err truncated_size
read_size zero weight size (b ∷ bs) = err size_too_wide
read_size (suc left) weight size (b ∷ bs) =
    let next = size + b % 2 ^ 7 * weight in
    let more = read_size left (weight * 2 ^ 7) next bs in
    if ltb u64_max next then err size_overflow else if b / 2 ^ 7 == 0 then ok (next, bs) else more

abbrev pub obu_type : ℕ → ℕ
obu_type header = header / 2 ^ 3 % 2 ^ 4

abbrev pub has_extension : ℕ → Bool
has_extension header = header / 2 ^ 2 % 2 == 1

abbrev pub has_size_field : ℕ → Bool
has_size_field header = header / 2 % 2 == 1

-- `header_byte | 0x02`
abbrev pub with_size_field : ℕ → ℕ
with_size_field header = if has_size_field header then header else header + 2

abbrev pub known_type : ℕ → Bool
known_type type = (leb 1 type && leb type 7) || type == 15

-- The checks on a header byte.
unfoldable pub check_header : ℕ → Result ObuError (Unit {0})
check_header header =
    if header / 2 ^ 7 % 2 == 1
    then err forbidden_bit
    else if header % 2 == 1
    then err reserved_bit
    else if known_type (obu_type header)
    then ok tt
    else err unsupported_type

-- The extension byte, as the list of it or the empty one, and what follows.
abbrev pub extension_of : (announced : Bool) → Bytes → Result ObuError (Bytes × Bytes)
extension_of false bytes = ok ([], bytes)
extension_of true [] = err truncated_header
extension_of true (ext ∷ rest) =
    if ext % 2 ^ 3 == 0 then ok (ext ∷ [], rest) else err extension_reserved

unfoldable pub take_extension : (header : ℕ) → Bytes → Result ObuError (Bytes × Bytes)
take_extension header bytes = extension_of (has_extension header) bytes

-- The payload of the OBU and what follows it. The length of the whole OBU is far below the end of
-- `usize`.
unfoldable pub take_payload : (header : ℕ) → Bytes → Result ObuError (Bytes × Bytes)
take_payload header bytes = elim (has_size_field header) [
  | false ↦ if ltb u32_max (length bytes) then err size_too_large else ok (bytes, [])
  | true ↦ read_size 8 1 0 bytes >>= λ (size, body).
      if ltb u32_max size
      then err size_too_large
      else if ltb (length body) size
      then err truncated_payload
      else ok (take size body, drop size body)
]

-- The OBU as it is written, with a size field.
abbrev pub sized_obu : (header : ℕ) (extension payload : Bytes) → Bytes
sized_obu header extension payload =
    with_size_field header ∷ (extension ++ (encode_leb128 (length payload) ++ payload))

-- One round of the loop: the OBU as it is written, and what follows it in the data.
unfoldable pub normalize_obu : (header : ℕ) → Bytes → Result ObuError (Bytes × Bytes)
normalize_obu header bytes = check_header header >>= λ _.
    take_extension header bytes >>= λ (extension, after).
    take_payload header after >>= λ (payload, rest). ok (sized_obu header extension payload, rest)

unfoldable pub normalize_loop : (fuel : ℕ) → Bytes → Result ObuError Bytes
normalize_loop fuel [] = ok []
normalize_loop zero (b ∷ bs) = err out_of_fuel
normalize_loop (suc fuel) (b ∷ bs) = normalize_obu b bs >>= λ (written, rest).
    normalize_loop fuel rest >>= λ more. ok (written ++ more)

abbrev pub unless_no_obus : Bytes → Result ObuError Bytes
unless_no_obus [] = err no_obus
unless_no_obus (b ∷ bs) = ok (b ∷ bs)

-- `normalize_av1_sample_payload`: each round takes a byte or more, so the length is fuel enough.
unfoldable pub normalize_av1_sample_payload : Bytes → Result ObuError Bytes
normalize_av1_sample_payload [] = err empty_sample
normalize_av1_sample_payload (b ∷ bs) = normalize_loop (length (b ∷ bs)) (b ∷ bs) >>= unless_no_obus
