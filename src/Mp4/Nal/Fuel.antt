-- ===== src/Mp4/Nal/Fuel.antt =====
-- The fuel of the loops of `avcc_nals` and `annex_b_nals`.
use silk_studio.Prelude.{
  ℕ, zero, suc, ◌≤◌, ◌<◌, ◌≡◌, refl, ap, [], ◌∷◌, length, length-drop, drop, some, none,
  Option-cases, inl, inr, arith, if◌then◌else◌, ltb, take, ◌==◌,
}
use silk_studio.Mp4.Bytes.{Bytes, from_be32}
use silk_studio.Mp4.Nal.{start_code_len, split_at_code, annex_b_loop, avcc_loop, prepend}

pub avcc_loop_more :
    (fuel : ℕ) (bytes : Bytes)
    → length bytes ≤ fuel
    → avcc_loop (suc fuel) bytes ≡ avcc_loop fuel bytes
unfolding avcc_loop
avcc_loop_more zero [] enough = refl
avcc_loop_more (suc fuel) [] enough = refl
avcc_loop_more zero (b ∷ bs) enough = absurd (omega arith)
avcc_loop_more (suc fuel) (b ∷ bs) enough =
    let size = from_be32 (b ∷ bs) in
    let body = drop 4 (b ∷ bs) in
    let shorter : length (drop size body) ≤ fuel =
      omega (arith, length-drop size body, length-drop 4 (b ∷ bs)) in
    let more = avcc_loop_more fuel (drop size body) shorter in
    ap
      (λ more.
        if ltb (length (b ∷ bs)) 4
        then none
        else if size == 0
        then none
        else if ltb (length body) size
        then none
        else prepend (take size body) more)
      more

split_at_code-length : (bytes : Bytes) → length (split_at_code bytes).1 ≤ length bytes
unfolding split_at_code
split_at_code-length [] = omega arith
split_at_code-length (b ∷ bs) =
    let later = split_at_code-length bs in
    elim (Option-cases (start_code_len (b ∷ bs))) [
      | inl no_code ↦ ground arith
      | inr (k, code) ↦ ground arith
    ]

start_code_len_positive :
    (bytes : Bytes) (k : ℕ) → start_code_len bytes ≡ some k → (0 < k) × (0 < length bytes)
start_code_len_positive [] k code = cc
start_code_len_positive (a ∷ []) k code = cc
start_code_len_positive (a ∷ b ∷ []) k code = cc
start_code_len_positive (a ∷ b ∷ c ∷ []) k code = ground arith
start_code_len_positive (a ∷ b ∷ c ∷ d ∷ rest) k code = ground arith

pub annex_b_loop_more :
    (fuel : ℕ) (bytes : Bytes)
    → length bytes ≤ fuel
    → annex_b_loop (suc fuel) bytes ≡ annex_b_loop fuel bytes
unfolding annex_b_loop
annex_b_loop_more zero [] enough = refl
annex_b_loop_more zero (b ∷ bs) enough = absurd (omega arith)
annex_b_loop_more (suc fuel) bytes enough = elim (Option-cases (start_code_len bytes)) [
  | inl no_code ↦ ground arith
  | inr (k, code) ↦
      let (positive, nonempty) = start_code_len_positive bytes k code in
      let rest = (split_at_code (drop k bytes)).1 in
      let shorter : length rest ≤ fuel =
        omega (arith, split_at_code-length (drop k bytes), length-drop k bytes) in
      let more = annex_b_loop_more fuel rest shorter in ground arith
]
