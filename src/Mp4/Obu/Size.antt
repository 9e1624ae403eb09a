-- ===== src/Mp4/Obu/Size.antt =====
-- LEB128 sizes, as `encode_leb128` writes and `normalize_av1_sample_payload` reads them.
use silk_studio.Prelude.{
  ℕ, zero, suc, ◌+◌, ◌*◌, ◌/◌, ◌%◌, ◌^◌, ◌≤◌, ◌<◌, ◌⊎◌, ◌≡◌, ap, sym, subst, ◌∙◌, [], ◌∷◌, ◌++◌, ok,
  arith, inl, inr, refl,
}
use silk_studio.Prelude.Words.{u32_max, u64_max}
use silk_studio.Mp4.Bytes.{Bytes}
use silk_studio.Mp4.Obu.{leb128_loop, encode_leb128, read_size}

-- The number has at most so many digits of seven bits.
abbrev pub IsShort : (digits value : ℕ) → Type 0
IsShort zero value = value ≡ 0
IsShort (suc digits) value = IsShort digits (value / 2 ^ 7)

zero_or_positive : (n : ℕ) → (n ≡ 0) ⊎ (0 < n)
zero_or_positive zero = inl refl
zero_or_positive (suc n) = inr (omega arith)

split_digit :
    (value weight : ℕ) → value % 2 ^ 7 * weight + value / 2 ^ 7 * (weight * 2 ^ 7) ≡ value * weight
split_digit value weight =
    let split : value ≡ value / 2 ^ 7 * 2 ^ 7 + value % 2 ^ 7 = omega arith in
    let times : value * weight ≡ (value / 2 ^ 7 * 2 ^ 7 + value % 2 ^ 7) * weight =
      ap (λ v. v * weight) split in
    omega arith

read_size_last :
    (left weight size digit : ℕ) (rest : Bytes)
    → digit < 2 ^ 7
    → size + digit * weight ≤ u64_max
    → read_size (suc left) weight size (digit ∷ rest) ≡ ok (size + digit * weight, rest)
unfolding read_size
read_size_last left weight size digit rest low fits =
    let bits : digit % 2 ^ 7 ≡ digit = omega arith in
    let high : digit / 2 ^ 7 ≡ 0 = omega arith in ground arith

read_size_more :
    (left weight size digit : ℕ) (rest : Bytes)
    → digit < 2 ^ 7
    → size + digit * weight ≤ u64_max
    → read_size (suc left) weight size ((digit + 2 ^ 7) ∷ rest)
      ≡ read_size left (weight * 2 ^ 7) (size + digit * weight) rest
unfolding read_size
read_size_more left weight size digit rest low fits =
    let bits : (digit + 2 ^ 7) % 2 ^ 7 ≡ digit = omega arith in
    let high : (digit + 2 ^ 7) / 2 ^ 7 ≡ 1 = omega arith in ground arith

leb128_loop_last :
    (fuel value : ℕ) → value / 2 ^ 7 ≡ 0 → leb128_loop (suc fuel) value ≡ (value % 2 ^ 7) ∷ []
unfolding leb128_loop
leb128_loop_last fuel value h = ground arith

leb128_loop_more :
    (fuel value : ℕ)
    → 0 < value / 2 ^ 7
    → leb128_loop (suc fuel) value ≡ (value % 2 ^ 7 + 2 ^ 7) ∷ leb128_loop fuel (value / 2 ^ 7)
unfolding leb128_loop
leb128_loop_more fuel value h = ground arith

-- The last byte of a size.
read_size_end :
    (left fuel weight size value : ℕ) (rest : Bytes)
    → value / 2 ^ 7 ≡ 0
    → size + value * weight ≤ u64_max
    → read_size (suc left) weight size (leb128_loop (suc fuel) value ++ rest)
      ≡ ok (size + value * weight, rest)
read_size_end left fuel weight size value rest last fits =
    let bits : value % 2 ^ 7 ≡ value = omega arith in
    let fits_too = subst (λ v. size + v * weight ≤ u64_max) (sym bits) fits in
    let written =
      ap (λ b. read_size (suc left) weight size (b ++ rest)) (leb128_loop_last fuel value last) in
    let read = read_size_last left weight size (value % 2 ^ 7) rest (omega arith) fits_too in
    written ∙ read ∙ ap (λ v. ok (size + v * weight, rest)) bits

read_size-leb128_loop :
    (left fuel weight size value : ℕ) (rest : Bytes)
    → IsShort (suc left) value
    → IsShort (suc fuel) value
    → size + value * weight ≤ u64_max
    → read_size (suc left) weight size (leb128_loop (suc fuel) value ++ rest)
      ≡ ok (size + value * weight, rest)
read_size-leb128_loop zero fuel weight size value rest short enough fits =
    read_size_end zero fuel weight size value rest short fits
read_size-leb128_loop (suc left) zero weight size value rest short enough fits =
    read_size_end (suc left) zero weight size value rest enough fits
read_size-leb128_loop (suc left) (suc fuel) weight size value rest short enough fits =
    elim (zero_or_positive (value / 2 ^ 7)) [
      | inl last ↦ read_size_end (suc left) (suc fuel) weight size value rest last fits
      | inr more ↦
          let low = value % 2 ^ 7 in
          let high = value / 2 ^ 7 in
          let digit : low * weight + high * (weight * 2 ^ 7) ≡ value * weight =
            split_digit value weight in
          let total : size + low * weight + high * (weight * 2 ^ 7) ≡ size + value * weight =
            omega arith in
          let written =
            ap (λ b. read_size (suc (suc left)) weight size (b ++ rest))
              (leb128_loop_more (suc fuel) value more) in
          let read =
            read_size_more (suc left) weight size low (leb128_loop (suc fuel) high ++ rest)
              (omega arith) (omega arith) in
          let later =
            read_size-leb128_loop left fuel (weight * 2 ^ 7) (size + low * weight) high rest short
              enough (omega arith) in
          written ∙ read ∙ later ∙ ap (λ v. ok (v, rest)) total
    ]

IsShort-size : (value : ℕ) → value ≤ u32_max → IsShort 8 value × IsShort 10 value
IsShort-size value h = (omega arith, omega arith)

-- A size of 32 bits, written and then read in front of anything, is that size, and what follows stays.
pub read_size-encode_leb128 :
    (size : ℕ) (rest : Bytes)
    → size ≤ u32_max
    → read_size 8 1 0 (encode_leb128 size ++ rest) ≡ ok (size, rest)
unfolding encode_leb128
read_size-encode_leb128 size rest h =
    let (short, enough) = IsShort-size size h in
    read_size-leb128_loop 7 9 1 0 size rest short enough (omega arith)
    ∙ ap (λ v. ok (v, rest)) (omega arith)
