-- ===== src/Mp4/Bytes.antt =====
-- Bytes as numbers, and big-endian words. A mask of a byte's low bits is a remainder, and a shift to
-- the right a quotient.
use silk_studio.Prelude.{ℕ, ◌+◌, ◌*◌, ◌/◌, ◌%◌, ◌^◌, ◌<◌, ◌≡◌, List, [], ◌∷◌, ◌++◌, arith}

abbrev pub Bytes : Type 0
Bytes = List ℕ

abbrev pub IsByte : ℕ → Type 0
IsByte b = b < 256

-- `u32::to_be_bytes`
abbrev pub be32 : ℕ → Bytes
be32 n = n / 2 ^ 24 % 256 ∷ n / 2 ^ 16 % 256 ∷ n / 2 ^ 8 % 256 ∷ n % 256 ∷ []

-- `u32::from_be_bytes` of the first four bytes; fewer bytes are never passed.
abbrev pub from_be32 : Bytes → ℕ
from_be32 (a ∷ b ∷ c ∷ d ∷ rest) = ((a * 256 + b) * 256 + c) * 256 + d
from_be32 _ = 0

pub from_be32-be32 : (n : ℕ) (rest : Bytes) → n < 2 ^ 32 → from_be32 (be32 n ++ rest) ≡ n
from_be32-be32 n rest h = omega arith

-- `u16::from_be_bytes`
abbrev pub from_be16 : Bytes → ℕ
from_be16 (a ∷ b ∷ rest) = a * 256 + b
from_be16 _ = 0

pub be32-from_be32 :
    (a b c d : ℕ)
    → IsByte a
    → IsByte b
    → IsByte c
    → IsByte d
    → be32 (from_be32 (a ∷ b ∷ c ∷ d ∷ [])) ≡ a ∷ b ∷ c ∷ d ∷ []
be32-from_be32 a b c d ha hb hc hd = ground arith
