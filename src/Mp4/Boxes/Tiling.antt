-- ===== src/Mp4/Boxes/Tiling.antt =====
-- Files made of boxes, and the scan of their top level.
use silk_studio.Prelude.{
  ℕ, zero, suc, ◌+◌, ◌^◌, ◌≤◌, ◌<◌, ◌≡◌, ◌≢◌, ◌∙◌, refl, ap, sym, List, [], ◌∷◌, ◌++◌, map, length,
  take, drop, length-append, length-drop, drop-append, take-append, All, ok, err, >>=_of_ok,
  Result-cases, inl, inr, arith, append_assoc,
}
use silk_studio.Prelude.Words.{u64_max}
use silk_studio.Mp4.Bytes.{Bytes, be32, from_be32, from_be32-be32}
use silk_studio.Mp4.Boxes.{out_of_fuel, read_box, check_size, scan_loop, scan_top_level_boxes}

read_box-terminates : (left : Bytes) → read_box left ≢ err out_of_fuel
unfolding read_box
read_box-terminates left fails = ground arith

scan_loop-terminates :
    (fuel offset : ℕ) (left : Bytes)
    → length left ≤ fuel
    → scan_loop fuel offset left ≢ err out_of_fuel
unfolding scan_loop
scan_loop-terminates zero offset [] enough fails = cc
scan_loop-terminates (suc fuel) offset [] enough fails = cc
scan_loop-terminates zero offset (b ∷ bs) enough fails = absurd (omega arith)
scan_loop-terminates (suc fuel) offset (b ∷ bs) enough fails =
    elim (Result-cases (read_box (b ∷ bs))) [
      | inr (e, refused) ↦ read_box-terminates (b ∷ bs) (ground arith)
      | inl ((type, size), read) ↦ elim (Result-cases (check_size offset size)) [
        | inr (e, refused) ↦ ground arith
        | inl (u, checked) ↦
            let large : 8 ≤ size = ground arith in
            let shorter : length (drop size (b ∷ bs)) ≤ fuel =
              omega (arith, length-drop size (b ∷ bs)) in
            let later = scan_loop-terminates fuel (offset + size) (drop size (b ∷ bs)) shorter in
            elim (Result-cases (scan_loop fuel (offset + size) (drop size (b ∷ bs)))) [
              | inl (types, ends) ↦ ground arith
              | inr (e, refused) ↦ later (ground arith)
            ]
      ]
    ]

-- The scan of a file's top-level boxes ends: each box moves it on, and its fuel, the file's length,
-- never runs out.
pub scan_top_level_boxes_terminates : (file : Bytes) → scan_top_level_boxes file ≢ err out_of_fuel
unfolding scan_top_level_boxes
scan_top_level_boxes_terminates file = scan_loop-terminates (length file) 0 file (omega arith)

-- A box: its type of four bytes and its body.
pub record FileBox : Type 0 where
  pub type : Bytes
  pub body : Bytes

abbrev pub IsBox : FileBox → Type 0
IsBox x = (length x.type ≡ 4) × (8 + length x.body < 2 ^ 32)

-- The boxes, each with its size of 32 bits.
unfoldable pub tiles : List FileBox → Bytes
tiles [] = []
tiles (x ∷ xs) = be32 (8 + length x.body) ++ (x.type ++ (x.body ++ tiles xs))

take_four : (type rest : Bytes) → length type ≡ 4 → take 4 (type ++ rest) ≡ type
take_four type rest four = ap (λ k. take k (type ++ rest)) (sym four) ∙ take-append type rest

-- The size that a box's first four bytes say.
read_box_small :
    (a b c d size : ℕ) (type rest : Bytes)
    → from_be32 (a ∷ b ∷ c ∷ d ∷ []) ≡ size
    → 8 ≤ size
    → length type ≡ 4
    → read_box (a ∷ b ∷ c ∷ d ∷ (type ++ rest)) ≡ ok (type, size)
unfolding read_box
read_box_small a b c d size type rest said large four =
    let named = take_four type rest four in
    let long : length (type ++ rest) ≡ 4 + length rest =
      length-append type rest ∙ ap (λ n. n + length rest) four in
    ground arith

-- A box is as long as it says.
drop_box :
    (a b c d : ℕ) (x : FileBox) (rest : Bytes)
    → length x.type ≡ 4
    → drop (8 + length x.body) (a ∷ b ∷ c ∷ d ∷ (x.type ++ (x.body ++ rest))) ≡ rest
drop_box a b c d x rest four =
    let front = a ∷ b ∷ c ∷ d ∷ (x.type ++ x.body) in
    let size : 8 + length x.body ≡ length front = omega (arith, length-append x.type x.body) in
    let joined : x.type ++ (x.body ++ rest) ≡ (x.type ++ x.body) ++ rest =
      sym (append_assoc x.type x.body rest) in
    ap (λ more. drop (8 + length x.body) (a ∷ b ∷ c ∷ d ∷ more)) joined
    ∙ ap (λ k. drop k (front ++ rest)) size
    ∙ drop-append front rest

length-tiles :
    (x : FileBox) (xs : List FileBox)
    → length x.type ≡ 4
    → length (tiles (x ∷ xs)) ≡ 8 + length x.body + length (tiles xs)
unfolding tiles
length-tiles x xs four =
    omega (arith, length-append x.type (x.body ++ tiles xs), length-append x.body (tiles xs))

scan_loop-step :
    (fuel offset : ℕ) (x : FileBox) (xs : List FileBox) (types : List Bytes)
    → IsBox x
    → offset + (8 + length x.body) ≤ u64_max
    → scan_loop fuel (offset + (8 + length x.body)) (tiles xs) ≡ ok types
    → scan_loop (suc fuel) offset (tiles (x ∷ xs)) ≡ ok (x.type ∷ types)
unfolding scan_loop tiles
scan_loop-step fuel offset x xs types (four, small) fits later =
    let size = 8 + length x.body in
    let said = from_be32-be32 size [] small in
    let read = read_box_small _ _ _ _ size x.type (x.body ++ tiles xs) said (omega arith) four in
    let checked : check_size offset size ≡ ok tt = ground arith in
    let left = drop_box _ _ _ _ x (tiles xs) four in
    let moved : scan_loop fuel (offset + size)
          (drop size (be32 size ++ (x.type ++ (x.body ++ tiles xs))))
        ≡ ok types =
      ap (scan_loop fuel (offset + size)) left ∙ later in
    >>=_of_ok _ read ∙ >>=_of_ok _ checked ∙ >>=_of_ok _ moved

scan_loop-tiles :
    (fuel offset : ℕ) (xs : List FileBox)
    → All IsBox xs
    → length (tiles xs) ≤ fuel
    → offset + length (tiles xs) ≤ u64_max
    → scan_loop fuel offset (tiles xs) ≡ ok (map (λ x. x.type) xs)
unfolding scan_loop tiles
scan_loop-tiles zero offset [] boxes enough fits = refl
scan_loop-tiles (suc fuel) offset [] boxes enough fits = refl
scan_loop-tiles zero offset (x ∷ xs) boxes enough fits = absurd (omega arith)
scan_loop-tiles (suc fuel) offset (x ∷ xs) (now, later) enough fits =
    let total = length-tiles x xs now.0 in
    let more =
      scan_loop-tiles fuel (offset + (8 + length x.body)) xs later (omega arith) (omega arith) in
    scan_loop-step fuel offset x xs (map (λ y. y.type) xs) now (omega arith) more

-- A file shorter than 2 ^ 64 bytes that is a sequence of boxes, each with a size of 32 bits, a type of
-- four bytes and its body, scans as the types of those boxes, in order.
pub scan_top_level_boxes-tiles :
    (xs : List FileBox)
    → All IsBox xs
    → length (tiles xs) ≤ u64_max
    → scan_top_level_boxes (tiles xs) ≡ ok (map (λ x. x.type) xs)
unfolding scan_top_level_boxes
scan_top_level_boxes-tiles xs boxes fits =
    scan_loop-tiles (length (tiles xs)) 0 xs boxes (omega arith) (omega arith)
