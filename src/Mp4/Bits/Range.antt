-- ===== src/Mp4/Bits/Range.antt =====
-- What a reading of so many bits can be.
use silk_studio.Prelude.{
  ℕ, zero, suc, ◌+◌, ◌*◌, ◌%◌, ◌^◌, ◌<◌, ◌≡◌, subst, some, Option-cases, inl, inr, arith,
}
use native.Mathlib.Nat.{two-pow-succ}
use silk_studio.Mp4.Bytes.{Bytes}
use silk_studio.Mp4.Bits.{BitReader, bit_at, read_loop, read_bits, as_word, read_u8, read_u32}

bit_at_bound : (bytes : Bytes) (pos : ℕ) → bit_at bytes pos < 2
unfolding bit_at
bit_at_bound bytes pos = ground arith

-- Reading on from a value of so many bits.
read_loop_bound :
    (n bits result : ℕ) (r : BitReader)
    → result < 2 ^ bits
    → (read_loop n result r).0 < 2 ^ (bits + n)
unfolding read_loop
read_loop_bound zero bits result r small =
    let same : bits ≡ bits + 0 = omega arith in subst (λ k. result < 2 ^ k) same small
read_loop_bound (suc n) bits result r small =
    let next = result * 2 % 2 ^ 64 + bit_at r.payload r.bit_pos in
    let twice : 2 ^ suc bits ≡ 2 ^ bits + 2 ^ bits = two-pow-succ bits in
    let bit = bit_at_bound r.payload r.bit_pos in
    let grown : next < 2 ^ suc bits = omega arith in
    let same : suc bits + n ≡ bits + suc n = omega arith in
    let later = read_loop_bound n (suc bits) next (record r { bit_pos = r.bit_pos + 1 }) grown in
    subst (λ k. (read_loop n next (record r { bit_pos = r.bit_pos + 1 })).0 < 2 ^ k) same later

-- The value of so many bits has so many bits.
pub read_bits_bound :
    (n : ℕ) (r : BitReader) {value : ℕ} {after : BitReader}
    → read_bits n r ≡ some (value, after)
    → value < 2 ^ n
unfolding read_bits
read_bits_bound zero r {value} {after} read = let nothing : value ≡ 0 = ground arith in omega arith
read_bits_bound (suc n) r {value} {after} read =
    let bound = read_loop_bound (suc n) 0 0 r (omega arith) in
    let same : (read_loop (suc n) 0 r).0 ≡ value = ground arith in
    let total : 0 + suc n ≡ suc n = omega arith in
    subst (λ k. value < 2 ^ k) total (subst (λ v. v < 2 ^ (0 + suc n)) same bound)

-- The same, of a reading that is cut to a word.
pub as_word_bound :
    (width n : ℕ) (r : BitReader) {value : ℕ} {after : BitReader}
    → as_word width (read_bits n r) ≡ some (value, after)
    → value < 2 ^ n
as_word_bound width n r {value} {after} read = elim (Option-cases (read_bits n r)) [
  | inl ends ↦ absurd (ground arith)
  | inr ((word, rest), reads) ↦
      let bound = read_bits_bound n r reads in
      let cut : word % 2 ^ width ≡ value = ground arith in omega arith
]

pub read_u8_bound :
    (n : ℕ) (r : BitReader) {value : ℕ} {after : BitReader}
    → read_u8 n r ≡ some (value, after)
    → value < 2 ^ n
read_u8_bound n r {value} {after} read =
    let cut : as_word 8 (read_bits n r) ≡ some (value, after) = ground arith in
    as_word_bound 8 n r cut

pub read_u32_bound :
    (n : ℕ) (r : BitReader) {value : ℕ} {after : BitReader}
    → read_u32 n r ≡ some (value, after)
    → value < 2 ^ n
read_u32_bound n r {value} {after} read =
    let cut : as_word 32 (read_bits n r) ≡ some (value, after) = ground arith in
    as_word_bound 32 n r cut
