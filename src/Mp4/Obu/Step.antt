-- ===== src/Mp4/Obu/Step.antt =====
-- One OBU of `normalize_av1_sample_payload`: what a round that succeeds has read, and what it reads
-- from the OBU that it wrote.
use silk_studio.Prelude.{
  ℕ, zero, suc, ◌+◌, ◌*◌, ◌/◌, ◌%◌, ◌^◌, ◌≤◌, ◌≡◌, ◌∙◌, refl, ap, subst, true, [], ◌∷◌, ◌++◌,
  append_assoc, ok, err, >>=-eq-ok, >>=_of_ok, Result-cases, Bool-cases, inl, inr, length, take,
  drop, take-append, drop-append, length-take, length-drop, length-append, arith,
}
use silk_studio.Prelude.Words.{u32_max}
use silk_studio.Mp4.Bytes.{Bytes}
use silk_studio.Mp4.Obu.{
  read_size, encode_leb128, has_extension, has_size_field, with_size_field, obu_type, check_header,
  take_extension, extension_of, take_payload, sized_obu, normalize_obu,
}
use silk_studio.Mp4.Obu.Size.{read_size-encode_leb128}

-- Setting the size bit leaves the other fields.
with_size_field_bits :
    (header : ℕ)
    → (has_size_field (with_size_field header) ≡ true)
      × (has_extension (with_size_field header) ≡ has_extension header)
      × (with_size_field (with_size_field header) ≡ with_size_field header)
with_size_field_bits header = elim (Bool-cases (has_size_field header)) [
  | inl set ↦ ground arith
  | inr clear ↦ ground arith
]

check_header-with_size_field :
    (header : ℕ) → check_header (with_size_field header) ≡ check_header header
unfolding check_header
check_header-with_size_field header = elim (Bool-cases (has_size_field header)) [
  | inl set ↦ ground arith
  | inr clear ↦
      let off : header / 2 % 2 ≡ 0 = ground arith in
      let top : (header + 2) / 2 ^ 7 ≡ header / 2 ^ 7 = omega arith in
      let low : (header + 2) % 2 ≡ header % 2 = omega arith in
      let type : obu_type (header + 2) ≡ obu_type header = omega arith in ground arith
]

read_size-length :
    (left weight size : ℕ) (bytes : Bytes) {value : ℕ} {body : Bytes}
    → read_size left weight size bytes ≡ ok (value, body)
    → length body ≤ length bytes
unfolding read_size
read_size-length left weight size [] read = cc
read_size-length zero weight size (b ∷ bs) read = cc
read_size-length (suc left) weight size (b ∷ bs) {value} {body} read =
    let later =
      read_size-length left (weight * 2 ^ 7) (size + b % 2 ^ 7 * weight) bs {value = value}
        {body = body} in
    ground arith

take_payload-eq-ok :
    (header : ℕ) (bytes : Bytes) {payload rest : Bytes}
    → take_payload header bytes ≡ ok (payload, rest)
    → (length payload ≤ u32_max) × (length rest ≤ length bytes)
unfolding take_payload
take_payload-eq-ok header bytes {payload} {rest} read = elim (Bool-cases (has_size_field header)) [
  | inl sized ↦ elim (Result-cases (read_size 8 1 0 bytes)) [
    | inl ((size, body), reads) ↦
        let shorter = read_size-length 8 1 0 bytes reads in
        let full : (size ≤ u32_max) × (size ≤ length body) = ground arith in
        let same : (take size body ≡ payload) × (drop size body ≡ rest) = ground arith in
        let short : length (take size body) ≤ u32_max =
          omega (arith, length-take size body full.1) in
        let less : length (drop size body) ≤ length bytes = omega (arith, length-drop size body) in
        (
          subst (λ p. length p ≤ u32_max) same.0 short,
          subst (λ r. length r ≤ length bytes) same.1 less,
        )
    | inr (e, fails) ↦ absurd (ground arith)
  ]
  | inr unsized ↦ ground arith
]

take_extension-eq-ok :
    (header : ℕ) (bytes : Bytes) {extension rest : Bytes}
    → take_extension header bytes ≡ ok (extension, rest)
    → (length rest ≤ length bytes)
      × ((after : Bytes) → take_extension header (extension ++ after) ≡ ok (extension, after))
unfolding take_extension
take_extension-eq-ok header [] read = ground arith
take_extension-eq-ok header (ext ∷ bytes) read = ground arith

take_payload-encode_leb128 :
    (header : ℕ) (payload rest : Bytes)
    → has_size_field header ≡ true
    → length payload ≤ u32_max
    → take_payload header (encode_leb128 (length payload) ++ (payload ++ rest)) ≡ ok (payload, rest)
unfolding take_payload
take_payload-encode_leb128 header payload rest sized short =
    let read = read_size-encode_leb128 (length payload) (payload ++ rest) short in
    let total : length (payload ++ rest) ≡ length payload + length rest =
      length-append payload rest in
    let now = take-append payload rest in let later = drop-append payload rest in ground arith

-- The extension byte that a header announces, and no other, is taken from in front of anything.
Extends : (header : ℕ) (extension : Bytes) → Type 0
Extends header extension =
    (after : Bytes) → take_extension header (extension ++ after) ≡ ok (extension, after)

normalize_obu-sized :
    (header : ℕ) (extension payload after : Bytes)
    → check_header header ≡ ok tt
    → has_size_field header ≡ true
    → Extends header extension
    → length payload ≤ u32_max
    → normalize_obu header ((extension ++ (encode_leb128 (length payload) ++ payload)) ++ after)
      ≡ ok (sized_obu header extension payload, after)
unfolding normalize_obu Extends
normalize_obu-sized header extension payload after checked sized extends short =
    let size = encode_leb128 (length payload) in
    let inner : (size ++ payload) ++ after ≡ size ++ (payload ++ after) =
      append_assoc size payload after in
    let outer : (extension ++ (size ++ payload)) ++ after
        ≡ extension ++ (size ++ (payload ++ after)) =
      append_assoc extension (size ++ payload) after ∙ ap (λ b. extension ++ b) inner in
    let taken = extends (size ++ (payload ++ after)) in
    let paid = take_payload-encode_leb128 header payload after sized short in
    ap (normalize_obu header) outer ∙ >>=_of_ok _ checked ∙ >>=_of_ok _ taken ∙ >>=_of_ok _ paid

Extends-with_size_field :
    (header : ℕ) (extension : Bytes)
    → Extends header extension
    → Extends (with_size_field header) extension
unfolding Extends take_extension
Extends-with_size_field header extension extends after =
    let (set, same, again) = with_size_field_bits header in
    ap (λ announced. extension_of announced (extension ++ after)) same ∙ extends after

-- What a round wrote, a round reads, and writes again.
unfoldable pub Again : (header : ℕ) (written : Bytes) → Type 0
Again header written =
    (tail : Bytes) × (written ≡ with_size_field header ∷ tail)
    × ((after : Bytes)
        → normalize_obu (with_size_field header) (tail ++ after) ≡ ok (written, after))

Again-sized :
    (header : ℕ) (extension payload : Bytes)
    → check_header header ≡ ok tt
    → Extends header extension
    → length payload ≤ u32_max
    → Again header (sized_obu header extension payload)
unfolding Again
Again-sized header extension payload checked extends short =
    let (set, same, again) = with_size_field_bits header in
    let twice : sized_obu (with_size_field header) extension payload
        ≡ sized_obu header extension payload =
      ap (λ h. h ∷ (extension ++ (encode_leb128 (length payload) ++ payload))) again in
    (
      extension ++ (encode_leb128 (length payload) ++ payload),
      refl,
      λ after.
          normalize_obu-sized (with_size_field header) extension payload after
            (check_header-with_size_field header ∙ checked) set
            (Extends-with_size_field header extension extends) short
          ∙ ap (λ w. ok (w, after)) twice,
    )

-- The parts of a round that succeeds.
normalize_obu_parts :
    (header : ℕ) (bytes extension after payload remaining : Bytes)
    → check_header header ≡ ok tt
    → take_extension header bytes ≡ ok (extension, after)
    → take_payload header after ≡ ok (payload, remaining)
    → (length remaining ≤ length bytes) × Again header (sized_obu header extension payload)
unfolding Extends
normalize_obu_parts header bytes extension after payload remaining checked extended paid =
    let (fewer, extends) = take_extension-eq-ok header bytes extended in
    let (short, less) = take_payload-eq-ok header after paid in
    (omega arith, Again-sized header extension payload checked extends short)

-- What `normalize_obu` reads is no more than its input, and what it writes is written again.
pub normalize_obu-eq-ok :
    (header : ℕ) (bytes : Bytes) {written rest : Bytes}
    → normalize_obu header bytes ≡ ok (written, rest)
    → (length rest ≤ length bytes) × Again header written
unfolding normalize_obu
normalize_obu-eq-ok header bytes {written} {rest} done =
    let (u, checked, later) = >>=-eq-ok (check_header header) _ done in
    let ((extension, after), extended, last) = >>=-eq-ok (take_extension header bytes) _ later in
    let ((payload, remaining), paid, wrote) = >>=-eq-ok (take_payload header after) _ last in
    let (less, again) =
      normalize_obu_parts header bytes extension after payload remaining checked extended paid in
    let same : (sized_obu header extension payload, remaining) ≡ (written, rest) =
      ap (λ r. elim r [ ok x ↦ x | err e ↦ ([], []) ]) wrote in
    (subst (λ p. length p.1 ≤ length bytes) same less, subst (λ p. Again header p.0) same again)
