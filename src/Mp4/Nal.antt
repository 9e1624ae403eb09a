-- ===== src/Mp4/Nal.antt =====
-- NAL units in a packet: `nal_access_unit`, `nal_units`, `annex_b_nals`, `avcc_nals`, `find_start_code`,
-- `start_code_len` and `remove_emulation_prevention` of crates/muxer/src/mp4_muxer.rs. A position in
-- the data is what follows it; the positions are far below the end of `usize`.
pub mod Avcc
pub mod AccessUnit
pub mod AnnexB
pub mod Emulation
pub mod Fuel
use silk_studio.Prelude.{
  ℕ, zero, suc, ◌+◌, ◌≡◌, Bool, true, false, not, ◌&&◌, List, [], ◌∷◌, ◌++◌, Option, none, some,
  ltb, leb, ◌==◌, if◌then◌else◌, length, is_empty, take, drop, Result, ok, err,
}
use silk_studio.Prelude.Words.{u32_max}
use silk_studio.Mp4.Bytes.{Bytes, be32, from_be32}

-- `start_code_len`
abbrev pub start_code_len : Bytes → Option ℕ
start_code_len (a ∷ b ∷ c ∷ d ∷ rest) =
    if a == 0 && (b == 0 && (c == 0 && d == 1))
    then some 4
    else if a == 0 && (b == 0 && c == 1)
    then some 3
    else none
start_code_len (a ∷ b ∷ c ∷ []) = if a == 0 && (b == 0 && c == 1) then some 3 else none
start_code_len _ = none

-- `find_start_code`: the bytes before the first start code, and what starts with it.
unfoldable pub split_at_code : Bytes → Bytes × Bytes
split_at_code [] = ([], [])
split_at_code (b ∷ bs) =
    let (before, rest) = split_at_code bs in
    elim (start_code_len (b ∷ bs)) [ some k ↦ ([], b ∷ bs) | none ↦ (b ∷ before, rest) ]

-- The loop of `annex_b_nals`, at a start code.
unfoldable pub annex_b_loop : (fuel : ℕ) → Bytes → List Bytes
annex_b_loop zero at_code = []
annex_b_loop (suc fuel) at_code = elim (start_code_len at_code) [
  | none ↦ []
  | some k ↦
      let (nal, rest) = split_at_code (drop k at_code) in
      let more = annex_b_loop fuel rest in if is_empty nal then more else nal ∷ more
]

-- `(!result.is_empty()).then_some(result)`
abbrev pub unless_empty : List Bytes → Option (List Bytes)
unless_empty [] = none
unless_empty (n ∷ ns) = some (n ∷ ns)

-- `annex_b_nals`: each round takes a start code, so the length is fuel enough. Where no start code is
-- found there is no round, and no NAL.
unfoldable pub annex_b_nals : Bytes → Option (List Bytes)
annex_b_nals bytes = unless_empty (annex_b_loop (length bytes) (split_at_code bytes).1)

abbrev pub prepend : Bytes → Option (List Bytes) → Option (List Bytes)
prepend nal none = none
prepend nal (some nals) = some (nal ∷ nals)

-- The loop of `avcc_nals`.
unfoldable pub avcc_loop : (fuel : ℕ) → Bytes → Option (List Bytes)
avcc_loop fuel [] = some []
avcc_loop zero (b ∷ bs) = none
avcc_loop (suc fuel) (b ∷ bs) =
    let size = from_be32 (b ∷ bs) in
    let body = drop 4 (b ∷ bs) in
    let more = avcc_loop fuel (drop size body) in
    if ltb (length (b ∷ bs)) 4
    then none
    else if size == 0
    then none
    else if ltb (length body) size
    then none
    else prepend (take size body) more

-- `avcc_nals`
unfoldable pub avcc_nals : Bytes → Option (List Bytes)
avcc_nals bytes = if ltb (length bytes) 4 then none else avcc_loop (length bytes) bytes

-- `nal_units`
unfoldable pub nal_units : Bytes → Option (List Bytes)
nal_units bytes = elim (avcc_nals bytes) [ some nals ↦ some nals | none ↦ annex_b_nals bytes ]

pub data NalError : Type 0 where
  not_nals too_large no_nals : NalError

-- The loop of `nal_access_unit`, which passes over empty NAL units.
unfoldable pub prefix_nals : List Bytes → Result NalError Bytes
prefix_nals [] = ok []
prefix_nals (nal ∷ nals) =
    let more = prefix_nals nals in
    if is_empty nal
    then more
    else if ltb u32_max (length nal)
    then err too_large
    else elim more [ ok bytes ↦ ok (be32 (length nal) ++ (nal ++ bytes)) | err e ↦ err e ]

-- `nal_access_unit`
unfoldable pub nal_access_unit : Bytes → Result NalError Bytes
nal_access_unit bytes = elim (nal_units bytes) [
  | none ↦ err not_nals
  | some nals ↦ elim (prefix_nals nals) [
    | err e ↦ err e
    | ok unit ↦ if is_empty unit then err no_nals else ok unit
  ]
]

-- The loop of `remove_emulation_prevention`, after `count` zero bytes.
unfoldable pub remove_from : (count : ℕ) → Bytes → Bytes
remove_from count [] = []
remove_from count (b ∷ bs) = elim (leb 2 count && b == 3) [
  | true ↦ remove_from 0 bs
  | false ↦ b ∷ remove_from (if b == 0 then suc count else 0) bs
]

-- `remove_emulation_prevention`
abbrev pub remove_emulation_prevention : Bytes → Bytes
remove_emulation_prevention = remove_from 0
