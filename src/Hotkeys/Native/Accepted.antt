-- ===== src/Hotkeys/Native/Accepted.antt =====
-- Every chord that the settings accept has native modifiers and a virtual key.

use silk_studio.Prelude.{
  ℕ, ◌≤◌, Bool-cases, Option-cases, inl, inr, ◌≡◌, refl, subst, true, false, ◌&&◌, [], ◌∷◌, Option,
  none, some, arith, leb, is_some,
}
use silk_studio.Prelude.Words.{u32_max}
use silk_studio.Prelude.Text.{Text, to_ascii_uppercase, upper}
use silk_studio.Prelude.Text.Number.{parse_unsigned_narrow}
use silk_studio.Config.Chords.{
  is_valid_key, is_character_key, is_named_key, is_longer_key, function_number,
}
use silk_studio.Hotkeys.Native.{
  u16_max, character_code, named_code, function_code, code_or, virtual_key_code,
}

function_number_narrow :
    (key : Text) (n : ℕ)
    → n ≤ u16_max
    → function_number u32_max key ≡ some n
    → function_number u16_max key ≡ some n
function_number_narrow [] n fits h = cc
function_number_narrow (c ∷ rest) n fits h =
    ground (arith, parse_unsigned_narrow u32_max u16_max rest {n = n} fits)

-- A key of one character is in upper case when it is its own upper case.
character_key_code :
    (key : Text)
    → to_ascii_uppercase key ≡ key
    → is_character_key key ≡ true
    → is_some (character_code key) ≡ true
unfolding upper
character_key_code [] same h = cc
character_key_code (c ∷ []) same h = ground arith
character_key_code (c ∷ d ∷ s) same h = cc

named_key_code : (key : Text) → is_named_key key ≡ true → is_some (named_code key) ≡ true
named_key_code key h = ground arith

some_of : {A : Type 0} {o : Option A} → is_some o ≡ true → (a : A) × (o ≡ some a)
some_of {o = none} h = cc
some_of {o = some a} h = (a, refl)

-- The later branches of `virtual_key_code`.
function_code_named :
    (o : Option ℕ) (key : Text)
    → is_some (named_code key) ≡ true
    → is_some (function_code o key) ≡ true
function_code_named none key h = h
function_code_named (some n) key h = ground arith

function_code_numbered :
    (n : ℕ) (key : Text)
    → (leb 1 n && leb n 24) ≡ true
    → is_some (function_code (some n) key) ≡ true
function_code_numbered n key h = ground arith

code_or_later : (o later : Option ℕ) → is_some later ≡ true → is_some (code_or o later) ≡ true
code_or_later (some byte) later h = refl
code_or_later none later h = h

code_or_first : (o later : Option ℕ) → is_some o ≡ true → is_some (code_or o later) ≡ true
code_or_first (some byte) later h = refl
code_or_first none later h = cc

-- `is_valid_key` of a key that is longer than a character.
valid_longer :
    (key : Text)
    → is_character_key key ≡ false
    → is_valid_key key ≡ true
    → is_longer_key (function_number u32_max key) key ≡ true
unfolding is_valid_key
valid_longer key longer h = ground arith

longer_key_code :
    (key : Text)
    → is_longer_key (function_number u32_max key) key ≡ true
    → is_some (function_code (function_number u16_max key) key) ≡ true
longer_key_code key h = elim (Option-cases (function_number u32_max key)) [
  | inl e ↦
      function_code_named (function_number u16_max key) key
        (named_key_code key (subst (λ o. is_longer_key o key ≡ true) e h))
  | inr (n, e) ↦
      let range : (leb 1 n && leb n 24) ≡ true = subst (λ o. is_longer_key o key ≡ true) e h in
      rw (function_number_narrow key n (ground arith) e) (function_code_numbered n key range)
]

is_valid_key_coded :
    (key : Text)
    → to_ascii_uppercase key ≡ key
    → is_valid_key key ≡ true
    → is_some (virtual_key_code key) ≡ true
unfolding virtual_key_code
is_valid_key_coded key same h = elim (Bool-cases (is_character_key key)) [
  | inl one ↦ code_or_first (character_code key) _ (character_key_code key same one)
  | inr longer ↦
      code_or_later (character_code key) _ (longer_key_code key (valid_longer key longer h))
]

-- An accepted key has a virtual key code.
pub is_valid_key-code :
    (key : Text)
    → to_ascii_uppercase key ≡ key
    → is_valid_key key ≡ true
    → (code : ℕ) × (virtual_key_code key ≡ some code)
is_valid_key-code key same h = elim (Option-cases (virtual_key_code key)) [
  | inl e ↦ let yes_some = is_valid_key_coded key same h in absurd (cc)
  | inr found ↦ found
]
