-- ===== src/Mp4/Nal/Emulation.antt =====
-- Emulation prevention: `remove_emulation_prevention` against the insertion that H.264 and HEVC
-- prescribe for an encoder.
use silk_studio.Prelude.{
  ℕ, suc, ◌≡◌, refl, true, false, [], ◌∷◌, leb, ◌==◌, ◌&&◌, if◌then◌else◌, arith,
}
use silk_studio.Mp4.Bytes.{Bytes}
use silk_studio.Mp4.Nal.{remove_from, remove_emulation_prevention}

-- After two zero bytes, a byte of at most 3 is written after a 3.
unfoldable pub escape_from : (count : ℕ) → Bytes → Bytes
escape_from count [] = []
escape_from count (b ∷ bs) = elim (leb 2 count && leb b 3) [
  | true ↦ 3 ∷ b ∷ escape_from (if b == 0 then 1 else 0) bs
  | false ↦ b ∷ escape_from (if b == 0 then suc count else 0) bs
]

remove_from-escape_from :
    (count : ℕ) (bytes : Bytes) → remove_from count (escape_from count bytes) ≡ bytes
unfolding remove_from escape_from
remove_from-escape_from count [] = refl
remove_from-escape_from count (b ∷ bs) =
    let escaped = remove_from-escape_from (if b == 0 then 1 else 0) bs in
    let plain = remove_from-escape_from (if b == 0 then suc count else 0) bs in ground arith

-- Removing the emulation prevention of an escaped payload gives the payload back.
pub remove_emulation_prevention-escape_from :
    (payload : Bytes) → remove_emulation_prevention (escape_from 0 payload) ≡ payload
remove_emulation_prevention-escape_from payload = remove_from-escape_from 0 payload
