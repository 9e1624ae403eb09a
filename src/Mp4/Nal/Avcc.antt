-- ===== src/Mp4/Nal/Avcc.antt =====
-- Length-prefixed NAL units: the frames of `nal_access_unit` and the loop of `avcc_nals`.
use silk_studio.Prelude.{
  ℕ, zero, suc, ◌+◌, ◌≤◌, ◌<◌, ◌^◌, ◌≡◌, refl, ap, subst, List, [], ◌∷◌, ◌++◌, some, length,
  length-append, take, length-take, drop, take-append, drop-append, All, ok, arith, Option-cases,
  Result-cases, inl, inr, ◌∙◌,
}
use silk_studio.Mp4.Bytes.{Bytes, be32, from_be32, from_be32-be32}
use silk_studio.Mp4.Nal.{
  avcc_loop, annex_b_loop, prepend, split_at_code, prefix_nals, start_code_len,
}

-- A NAL unit that a four-byte length can say.
abbrev pub IsFramed : Bytes → Type 0
IsFramed nal = (0 < length nal) × (length nal < 2 ^ 32)

-- The NAL units, each after its length.
unfoldable pub framed : List Bytes → Bytes
framed [] = []
framed (nal ∷ nals) = be32 (length nal) ++ (nal ++ framed nals)

abbrev pub IsNonempty : Bytes → Type 0
IsNonempty nal = 0 < length nal

pub take-prefix : (n : ℕ) (xs ys : Bytes) → n ≡ length xs → take n (xs ++ ys) ≡ xs
take-prefix n xs ys e = ap (λ k. take k (xs ++ ys)) e ∙ take-append xs ys

pub drop-prefix : (n : ℕ) (xs ys : Bytes) → n ≡ length xs → drop n (xs ++ ys) ≡ ys
drop-prefix n xs ys e = ap (λ k. drop k (xs ++ ys)) e ∙ drop-append xs ys

-- One round of the loop takes one framed NAL unit.
avcc_loop-step :
    (fuel a b c d : ℕ) (nal rest : Bytes)
    → 0 < length nal
    → from_be32 (a ∷ b ∷ c ∷ d ∷ []) ≡ length nal
    → avcc_loop (suc fuel) (a ∷ b ∷ c ∷ d ∷ (nal ++ rest)) ≡ prepend nal (avcc_loop fuel rest)
unfolding avcc_loop
avcc_loop-step fuel a b c d nal rest nonempty size =
    let total : length (nal ++ rest) ≡ length nal + length rest = length-append nal rest in
    let now : take (from_be32 (a ∷ b ∷ c ∷ d ∷ [])) (nal ++ rest) ≡ nal =
      take-prefix _ nal rest size in
    let later : drop (from_be32 (a ∷ b ∷ c ∷ d ∷ [])) (nal ++ rest) ≡ rest =
      drop-prefix _ nal rest size in
    ground arith

pub avcc_loop-framed :
    (fuel : ℕ) (nals : List Bytes)
    → All IsFramed nals
    → length (framed nals) ≤ fuel
    → avcc_loop fuel (framed nals) ≡ some nals
unfolding framed avcc_loop
avcc_loop-framed zero [] h le = refl
avcc_loop-framed (suc fuel) [] h le = refl
avcc_loop-framed zero (nal ∷ nals) h le = absurd (omega arith)
avcc_loop-framed (suc fuel) (nal ∷ nals) (now, later) le =
    let size : from_be32 (be32 (length nal) ++ []) ≡ length nal =
      from_be32-be32 (length nal) [] now.1 in
    let step = avcc_loop-step fuel _ _ _ _ nal (framed nals) now.0 size in
    let enough : length (framed nals) ≤ fuel = omega (arith, length-append nal (framed nals)) in
    step ∙ ap (prepend nal) (avcc_loop-framed fuel nals later enough)

-- Neither reader yields an empty NAL unit.
pub avcc_loop-IsNonempty :
    (fuel : ℕ) (bytes : Bytes) {nals : List Bytes}
    → avcc_loop fuel bytes ≡ some nals
    → All IsNonempty nals
unfolding avcc_loop
avcc_loop-IsNonempty fuel [] read = subst (All IsNonempty) (nothing_read fuel read) tt
  where
    nothing_read : (n : ℕ) {more : List Bytes} → avcc_loop n [] ≡ some more → [] ≡ more
    nothing_read zero e = cc
    nothing_read (suc n) e = cc
avcc_loop-IsNonempty zero (b ∷ bs) read = cc
avcc_loop-IsNonempty (suc fuel) (b ∷ bs) {nals} read =
    let body = drop 4 (b ∷ bs) in
    let size = from_be32 (b ∷ bs) in
    elim (Option-cases (avcc_loop fuel (drop size body))) [
      | inl fails ↦ absurd (ground arith)
      | inr (more, reads) ↦
          let earlier = avcc_loop-IsNonempty fuel (drop size body) reads in
          let taken : take size body ∷ more ≡ nals = ground arith in
          let full : (0 < size) × (size ≤ length body) = ground arith in
          let nonempty : 0 < length (take size body) =
            omega (arith, full, length-take size body full.1) in
          subst (All IsNonempty) taken (nonempty, earlier)
    ]

pub annex_b_loop-IsNonempty : (fuel : ℕ) (bytes : Bytes) → All IsNonempty (annex_b_loop fuel bytes)
unfolding annex_b_loop
annex_b_loop-IsNonempty zero bytes = tt
annex_b_loop-IsNonempty (suc fuel) bytes = elim (Option-cases (start_code_len bytes)) [
  | inl no_code ↦ ground arith
  | inr (k, code) ↦
      let earlier = annex_b_loop-IsNonempty fuel (split_at_code (drop k bytes)).1 in ground arith
]

pub prefix_nals-eq-ok :
    (nals : List Bytes) {unit : Bytes}
    → All IsNonempty nals
    → prefix_nals nals ≡ ok unit
    → (unit ≡ framed nals) × All IsFramed nals
unfolding prefix_nals framed
prefix_nals-eq-ok [] h read = ground arith
prefix_nals-eq-ok (nal ∷ nals) (now, later) read = elim (Result-cases (prefix_nals nals)) [
  | inl (bytes, reads) ↦ let (same_bytes, all) = prefix_nals-eq-ok nals later reads in ground arith
  | inr (e, fails) ↦ absurd (ground arith)
]

pub prefix_nals-framed :
    (nals : List Bytes) → All IsFramed nals → prefix_nals nals ≡ ok (framed nals)
unfolding prefix_nals framed
prefix_nals-framed [] h = refl
prefix_nals-framed (nal ∷ nals) (now, later) =
    let written = prefix_nals-framed nals later in ground arith
