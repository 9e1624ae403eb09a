-- ===== src/Mp4/Bits.antt =====
-- Bits of a payload, from the most significant on: `BitReader` of crates/muxer/src/mp4_muxer.rs. A
-- method returns its value with the reader that it leaves.
pub mod Range
use silk_studio.Prelude.{
  ℕ, zero, suc, ◌+◌, ◌-◌, ◌*◌, ◌/◌, ◌%◌, ◌^◌, Bool, true, false, ◌||◌, Option, none, some,
  get_elem?, ltb, ◌==◌, if◌then◌else◌, length,
}
use silk_studio.Mp4.Bytes.{Bytes}

pub record BitReader : Type 0 where
  pub payload : Bytes
  pub bit_pos : ℕ

-- A reading: its value and the reader after it, or nothing.
abbrev pub Reading : Type 0 → Type 0
Reading A = Option (A × BitReader)

-- `BitReader::new`
abbrev pub new_reader : Bytes → BitReader
new_reader bytes = record { payload = bytes; bit_pos = 0 }

-- `BitReader::remaining_bits`
abbrev pub remaining_bits : BitReader → ℕ
remaining_bits r = length r.payload * 8 - r.bit_pos

-- The bit at a position; past the end, which `read_bits` never asks for, there is none set.
unfoldable pub bit_at : Bytes → ℕ → ℕ
bit_at bytes pos = elim (get_elem? bytes (pos / 8)) [
  | none ↦ 0
  | some byte ↦ byte / 2 ^ (7 - pos % 8) % 2
]

-- The loop of `read_bits`; the shift of a `u64` drops what leaves it.
unfoldable pub read_loop : (n result : ℕ) → BitReader → ℕ × BitReader
read_loop zero result r = (result, r)
read_loop (suc n) result r =
    read_loop n (result * 2 % 2 ^ 64 + bit_at r.payload r.bit_pos)
      (record r { bit_pos = r.bit_pos + 1 })

-- `BitReader::read_bits`
unfoldable pub read_bits : ℕ → BitReader → Reading ℕ
read_bits n r =
    if n == 0
    then some (0, r)
    else if ltb 64 n || ltb (remaining_bits r) n
    then none
    else some (read_loop n 0 r)

abbrev pub as_flag : Reading ℕ → Reading Bool
as_flag none = none
as_flag (some (b, r)) = some (b == 1, r)

-- `BitReader::read_bit`
abbrev pub read_bit : BitReader → Reading Bool
read_bit r = as_flag (read_bits 1 r)

abbrev pub as_word : (width : ℕ) → Reading ℕ → Reading ℕ
as_word width none = none
as_word width (some (b, r)) = some (b % 2 ^ width, r)

-- `BitReader::read_u8` and `BitReader::read_u32`
abbrev pub read_u8 : ℕ → BitReader → Reading ℕ
read_u8 n r = if ltb 8 n then none else as_word 8 (read_bits n r)

abbrev pub read_u32 : ℕ → BitReader → Reading ℕ
read_u32 n r = if ltb 32 n then none else as_word 32 (read_bits n r)

-- The zero bits before a one, of which there are at most 32, counted from `count`.
unfoldable pub leading_zeros : (left count : ℕ) → BitReader → Reading ℕ
leading_zeros zero count r = none
leading_zeros (suc left) count r = elim (read_bits 1 r) [
  | none ↦ none
  | some (bit, after) ↦ elim (bit == 1) [
    | true ↦ some (count, after)
    | false ↦ leading_zeros left (suc count) after
  ]
]

-- The value of a code: nothing overflows, as there are at most 32 bits after the one.
abbrev pub code_value : (zero_count : ℕ) → Reading ℕ → Reading ℕ
code_value zero_count none = none
code_value zero_count (some (suffix, r)) = some (2 ^ zero_count - 1 + suffix, r)

abbrev pub read_suffix : Reading ℕ → Reading ℕ
read_suffix none = none
read_suffix (some (zero, r)) = some (0, r)
read_suffix (some (suc k, r)) = code_value (suc k) (read_bits (suc k) r)

-- `BitReader::read_ue`: after 33 zeros there is no value.
unfoldable pub read_ue : BitReader → Reading ℕ
read_ue r = read_suffix (leading_zeros 33 0 r)
