-- ===== src/Mp4/Nal/AnnexB.antt =====
-- Annex B: NAL units after four-byte start codes, as `annex_b_nals` and `nal_access_unit` read them.
use silk_studio.Prelude.{
  ℕ, zero, suc, ◌≤◌, ◌≡◌, refl, ap, ◌∙◌, List, [], ◌∷◌, ◌++◌, none, some, length, length-append,
  All, ok, arith, append-nil,
}
use silk_studio.Mp4.Bytes.{Bytes}
use silk_studio.Mp4.Nal.{
  start_code_len, split_at_code, annex_b_loop, annex_b_nals, unless_empty, avcc_nals, nal_units,
  nal_access_unit,
}
use silk_studio.Mp4.Nal.Avcc.{IsFramed, framed}
use silk_studio.Mp4.Nal.AccessUnit.{nal_access_unit-framed}

-- No start code starts in the bytes.
abbrev pub IsPlain : Bytes → Type 0
IsPlain [] = Unit
IsPlain (b ∷ bs) = (start_code_len (b ∷ bs) ≡ none) × IsPlain bs

-- The NAL units, each after a start code of four bytes.
unfoldable pub annex_b : List Bytes → Bytes
annex_b [] = []
annex_b (nal ∷ nals) = 0 ∷ 0 ∷ 0 ∷ 1 ∷ (nal ++ annex_b nals)

start_code_len-before :
    (b : ℕ) (nal rest : Bytes)
    → start_code_len (b ∷ nal) ≡ none
    → start_code_len (b ∷ (nal ++ 0 ∷ 0 ∷ 0 ∷ 1 ∷ rest)) ≡ none
start_code_len-before b [] rest h = ground arith
start_code_len-before b (c ∷ []) rest h = ground arith
start_code_len-before b (c ∷ d ∷ []) rest h = ground arith
start_code_len-before b (c ∷ d ∷ e ∷ nal) rest h = h

split_at_code-before :
    (nal rest : Bytes)
    → IsPlain nal
    → split_at_code (nal ++ 0 ∷ 0 ∷ 0 ∷ 1 ∷ rest) ≡ (nal, 0 ∷ 0 ∷ 0 ∷ 1 ∷ rest)
unfolding split_at_code
split_at_code-before [] rest h = refl
split_at_code-before (b ∷ nal) rest (now, later) =
    let split = split_at_code-before nal rest later in
    let no_code = start_code_len-before b nal rest now in ground arith

split_at_code-last : (nal : Bytes) → IsPlain nal → split_at_code nal ≡ (nal, [])
unfolding split_at_code
split_at_code-last [] h = refl
split_at_code-last (b ∷ nal) (now, later) = let split = split_at_code-last nal later in ground arith

split_at_code-annex_b :
    (nal : Bytes) (nals : List Bytes)
    → IsPlain nal
    → split_at_code (nal ++ annex_b nals) ≡ (nal, annex_b nals)
unfolding annex_b
split_at_code-annex_b nal [] h = ap split_at_code (append-nil nal) ∙ split_at_code-last nal h
split_at_code-annex_b nal (next ∷ nals) h = split_at_code-before nal (next ++ annex_b nals) h

annex_b_loop-annex_b :
    (fuel : ℕ) (nals : List Bytes)
    → All (λ nal. IsPlain nal × IsFramed nal) nals
    → length nals ≤ fuel
    → annex_b_loop fuel (annex_b nals) ≡ nals
unfolding annex_b_loop annex_b
annex_b_loop-annex_b zero [] h le = refl
annex_b_loop-annex_b (suc fuel) [] h le = refl
annex_b_loop-annex_b zero (nal ∷ nals) h le = absurd (omega arith)
annex_b_loop-annex_b (suc fuel) (nal ∷ nals) ((plain, (nonempty, short)), later) le =
    let split = split_at_code-annex_b nal nals plain in
    let more = annex_b_loop-annex_b fuel nals later (omega arith) in ground arith

length-annex_b : (nals : List Bytes) → length nals ≤ length (annex_b nals)
unfolding annex_b
length-annex_b [] = omega arith
length-annex_b (nal ∷ nals) = omega (arith, length-append nal (annex_b nals), length-annex_b nals)

annex_b_nals-annex_b :
    (nal : Bytes) (nals : List Bytes)
    → All (λ n. IsPlain n × IsFramed n) (nal ∷ nals)
    → annex_b_nals (annex_b (nal ∷ nals)) ≡ some (nal ∷ nals)
unfolding annex_b_nals
annex_b_nals-annex_b nal nals h =
    let start : split_at_code (annex_b (nal ∷ nals)) ≡ ([], annex_b (nal ∷ nals)) =
      split_at_code-annex_b [] (nal ∷ nals) tt in
    let looped =
      annex_b_loop-annex_b (length (annex_b (nal ∷ nals))) (nal ∷ nals) h
        (length-annex_b (nal ∷ nals)) in
    ap (λ split. unless_empty (annex_b_loop (length (annex_b (nal ∷ nals))) split.1)) start
    ∙ ap unless_empty looped

IsFramed-of_both : (nals : List Bytes) → All (λ n. IsPlain n × IsFramed n) nals → All IsFramed nals
IsFramed-of_both [] h = tt
IsFramed-of_both (n ∷ ns) ((_, now), later) = (now, IsFramed-of_both ns later)

-- A packet of NAL units after four-byte start codes, none of them empty, of 2 ^ 32 bytes or with a
-- start code inside, that does not read as length prefixed, becomes the same units after their
-- lengths.
pub nal_access_unit-annex_b :
    (nal : Bytes) (nals : List Bytes)
    → All (λ n. IsPlain n × IsFramed n) (nal ∷ nals)
    → avcc_nals (annex_b (nal ∷ nals)) ≡ none
    → nal_access_unit (annex_b (nal ∷ nals)) ≡ ok (framed (nal ∷ nals))
unfolding nal_units framed
nal_access_unit-annex_b nal nals h other =
    let found = annex_b_nals-annex_b nal nals h in
    let read : nal_units (annex_b (nal ∷ nals)) ≡ some (nal ∷ nals) = ground arith in
    nal_access_unit-framed (annex_b (nal ∷ nals)) (nal ∷ nals) read
      (IsFramed-of_both (nal ∷ nals) h) (omega arith)
