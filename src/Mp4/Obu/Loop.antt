-- ===== src/Mp4/Obu/Loop.antt =====
-- All OBUs of an AV1 sample: the loop of `normalize_av1_sample_payload`, its fuel, and its output
-- read again.
use silk_studio.Prelude.{
  ℕ, zero, suc, ◌≤◌, ◌≡◌, ◌≢◌, ◌∙◌, refl, ap, sym, subst, [], ◌∷◌, ◌++◌, ok, err, >>=-eq-ok,
  >>=_of_ok, ok_injective, Result-cases, inl, inr, length, length-append, arith,
}
use silk_studio.Mp4.Bytes.{Bytes}
use silk_studio.Mp4.Obu.{
  out_of_fuel, with_size_field, normalize_obu, normalize_loop, unless_no_obus,
  normalize_av1_sample_payload,
}
use silk_studio.Mp4.Obu.Ends.{normalize_obu-terminates}
use silk_studio.Mp4.Obu.Step.{Again, normalize_obu-eq-ok}

normalize_loop-terminates :
    (fuel : ℕ) (bytes : Bytes) → length bytes ≤ fuel → normalize_loop fuel bytes ≢ err out_of_fuel
unfolding normalize_loop
normalize_loop-terminates zero [] h fails = cc
normalize_loop-terminates (suc fuel) [] h fails = cc
normalize_loop-terminates zero (b ∷ bs) h fails = absurd (omega arith)
normalize_loop-terminates (suc fuel) (b ∷ bs) h fails = elim (Result-cases (normalize_obu b bs)) [
  | inr (e, refused) ↦ normalize_obu-terminates b bs (ground arith)
  | inl ((written, rest), done) ↦
      let (less, again) = normalize_obu-eq-ok b bs done in
      let later = normalize_loop-terminates fuel rest (omega arith) in
      elim (Result-cases (normalize_loop fuel rest)) [
        | inl (more, ends) ↦ ground arith
        | inr (e, refused) ↦ later (ground arith)
      ]
]

-- The loop over a sample's OBUs ends: its fuel, the sample's length, never runs out.
pub normalize_av1_sample_payload_terminates :
    (sample : Bytes) → normalize_av1_sample_payload sample ≢ err out_of_fuel
unfolding normalize_av1_sample_payload
normalize_av1_sample_payload_terminates [] fails = cc
normalize_av1_sample_payload_terminates (b ∷ bs) fails =
    let ends = normalize_loop-terminates (length (b ∷ bs)) (b ∷ bs) (omega arith) in
    elim (Result-cases (normalize_loop (length (b ∷ bs)) (b ∷ bs))) [
      | inr (e, refused) ↦ ends (ground arith)
      | inl ([], done) ↦ ground arith
      | inl (w ∷ ws, done) ↦ ground arith
    ]

Again-loop :
    (header fuel : ℕ) (written more : Bytes)
    → Again header written
    → length (written ++ more) ≤ fuel
    → ((left : ℕ) → length more ≤ left → normalize_loop left more ≡ ok more)
    → normalize_loop fuel (written ++ more) ≡ ok (written ++ more)
unfolding Again normalize_loop
Again-loop header zero written more (tail, same, again) enough rest =
    let total : length (written ++ more) ≡ suc (length (tail ++ more)) =
      ap (λ w. length (w ++ more)) same in
    absurd (omega arith)
Again-loop header (suc fuel) written more (tail, same, again) enough rest =
    let front : written ++ more ≡ with_size_field header ∷ (tail ++ more) =
      ap (λ w. w ++ more) same in
    let total : length (written ++ more) ≡ suc (length (tail ++ more)) = ap length front in
    let fewer : length more ≤ fuel = omega (arith, length-append tail more) in
    ap (normalize_loop (suc fuel)) front ∙ >>=_of_ok _ (again more) ∙ >>=_of_ok _ (rest fuel fewer)

normalize_loop_empty : (fuel : ℕ) → normalize_loop fuel [] ≡ ok []
unfolding normalize_loop
normalize_loop_empty zero = refl
normalize_loop_empty (suc fuel) = refl

IsStable : Bytes → Type 0
IsStable bytes = (fuel : ℕ) → length bytes ≤ fuel → normalize_loop fuel bytes ≡ ok bytes

empty-IsStable : IsStable []
unfolding IsStable
empty-IsStable fuel enough = normalize_loop_empty fuel

normalize_loop-IsStable :
    (fuel : ℕ) (bytes normalized : Bytes)
    → normalize_loop fuel bytes ≡ ok normalized
    → IsStable normalized
unfolding normalize_loop IsStable
normalize_loop-IsStable fuel [] normalized done =
    subst IsStable (ok_injective (sym (normalize_loop_empty fuel) ∙ done)) empty-IsStable
normalize_loop-IsStable zero (b ∷ bs) normalized done = cc
normalize_loop-IsStable (suc fuel) (b ∷ bs) normalized done =
    let ((written, rest), first, later) = >>=-eq-ok (normalize_obu b bs) _ done in
    let (more, ends, joined) = >>=-eq-ok (normalize_loop fuel rest) _ later in
    let (less, again) = normalize_obu-eq-ok b bs first in
    let stable = normalize_loop-IsStable fuel rest more ends in
    subst IsStable (ok_injective joined)
      (λ enough_fuel enough. Again-loop b enough_fuel written more again enough stable)

-- What is written, if something is.
unless_no_obus-eq-ok : (bytes : Bytes) {out : Bytes} → unless_no_obus bytes ≡ ok out → bytes ≡ out
unless_no_obus-eq-ok [] wrote = cc
unless_no_obus-eq-ok (b ∷ bs) wrote = ok_injective wrote

stable_sample :
    (bytes : Bytes) {out : Bytes}
    → IsStable bytes
    → unless_no_obus bytes ≡ ok out
    → normalize_av1_sample_payload bytes ≡ ok bytes
unfolding normalize_av1_sample_payload IsStable
stable_sample [] stable wrote = cc
stable_sample (b ∷ bs) stable wrote =
    >>=_of_ok unless_no_obus (stable (length (b ∷ bs)) (omega arith))

-- A sample that normalization accepts comes out as one that normalization leaves as it is.
pub normalize_av1_sample_payload_twice :
    (sample normalized : Bytes)
    → normalize_av1_sample_payload sample ≡ ok normalized
    → normalize_av1_sample_payload normalized ≡ ok normalized
unfolding normalize_av1_sample_payload
normalize_av1_sample_payload_twice [] normalized done = cc
normalize_av1_sample_payload_twice (b ∷ bs) normalized done =
    let (bytes, ends, wrote) = >>=-eq-ok (normalize_loop (length (b ∷ bs)) (b ∷ bs)) _ done in
    let stable = normalize_loop-IsStable (length (b ∷ bs)) (b ∷ bs) bytes ends in
    subst (λ out. normalize_av1_sample_payload out ≡ ok out) (unless_no_obus-eq-ok bytes wrote)
      (stable_sample bytes stable wrote)
