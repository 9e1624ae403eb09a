-- ===== src/Mp4/Boxes.antt =====
-- The boxes at the top level of the staged file: `scan_top_level_boxes` of
-- crates/muxer/src/mp4_muxer.rs. The file is the bytes that the reader gives, and a position in it is
-- what follows; the file is read without an I/O error.
pub mod Tiling
use silk_studio.Prelude.{
  ℕ, zero, suc, ◌+◌, ◌*◌, ◌^◌, List, [], ◌∷◌, length, take, drop, ltb, ◌==◌, if◌then◌else◌, Result,
  ok, err, ◌>>=◌, ◌>>◌,
}
use silk_studio.Prelude.Words.{u64_max}
use silk_studio.Mp4.Bytes.{Bytes, from_be32}

pub data BoxError : Type 0 where
  truncated_header truncated_long_header invalid_size size_overflow out_of_fuel : BoxError

-- `u64::from_be_bytes`
abbrev pub from_be64 : Bytes → ℕ
from_be64 bytes = from_be32 bytes * 2 ^ 32 + from_be32 (drop 4 bytes)

-- The size of the box at the front of what is left, with the four bytes of its type.
unfoldable pub read_box : Bytes → Result BoxError (Bytes × ℕ)
read_box left =
    if ltb (length left) 8
    then err truncated_header
    else if from_be32 left == 1
    then (if ltb (length left) 16
        then err truncated_long_header
        else ok (take 4 (drop 4 left), from_be64 (drop 8 left)))
    else if from_be32 left == 0
    then ok (take 4 (drop 4 left), length left)
    else ok (take 4 (drop 4 left), from_be32 left)

abbrev pub check_size : (offset size : ℕ) → Result BoxError (Unit {0})
check_size offset size =
    if ltb size 8
    then err invalid_size
    else if ltb u64_max (offset + size)
    then err size_overflow
    else ok tt

unfoldable pub scan_loop : (fuel offset : ℕ) → Bytes → Result BoxError (List Bytes)
scan_loop fuel offset [] = ok []
scan_loop zero offset (b ∷ bs) = err out_of_fuel
scan_loop (suc fuel) offset (b ∷ bs) = read_box (b ∷ bs) >>= λ (type, size).
    check_size offset size
    >> (scan_loop fuel (offset + size) (drop size (b ∷ bs)) >>= λ types. ok (type ∷ types))

-- `scan_top_level_boxes`: a box has eight bytes or more, so the file's length is fuel enough.
unfoldable pub scan_top_level_boxes : Bytes → Result BoxError (List Bytes)
scan_top_level_boxes file = scan_loop (length file) 0 file
