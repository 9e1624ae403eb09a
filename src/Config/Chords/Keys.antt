-- ===== src/Config/Chords/Keys.antt =====
-- What the key of an accepted chord looks like.
use silk_studio.Prelude.{
  ℕ, Bool, ◌||◌, ◌==◌, Bool-cases, Option-cases, inl, inr, ◌≡◌, refl, sym, subst, true, false, [],
  ◌∷◌, some, arith, any,
}
use silk_studio.Prelude.Words.{u32_max}
use silk_studio.Prelude.Text.{
  Text, codes, same_text, same_text-eq, is_whitespace, Lacks, parse_unsigned,
}
use silk_studio.Prelude.Text.Trimmed.{Visible, any-Visible}
use silk_studio.Prelude.Text.Number.{Digits, parse_unsigned-Digits}
use silk_studio.Config.Chords.{is_named_key, is_valid_key, is_character_key, function_number}

spelled-Visible :
    (s name : Text) → any is_whitespace name ≡ false → same_text s name ≡ true → Visible s
spelled-Visible s name h same = subst Visible (sym (same_text-eq s name same)) (any-Visible name h)

Digits-Visible : (s : Text) → Digits s → Visible s
unfolding is_whitespace
Digits-Visible [] h = tt
Digits-Visible (c ∷ s) (h, hs) = (ground arith, Digits-Visible s hs)

-- A test that one of eight holds, each of which is enough.
one_of :
    {a b c d e f g h : Bool} {P : Type 0}
    → (a ≡ true → P)
    → (b ≡ true → P)
    → (c ≡ true → P)
    → (d ≡ true → P)
    → (e ≡ true → P)
    → (f ≡ true → P)
    → (g ≡ true → P)
    → (h ≡ true → P)
    → (a || (b || (c || (d || (e || (f || (g || h))))))) ≡ true
    → P
one_of p q r s t u v w any = ground arith

named_key-Visible : (token : Text) → is_named_key token ≡ true → Visible token
unfolding is_whitespace
named_key-Visible token h =
    let two = spelled-Visible token (codes "UP") refl in
    let down = spelled-Visible token (codes "DOWN") refl in
    let left = spelled-Visible token (codes "LEFT") refl in
    let right = spelled-Visible token (codes "RIGHT") refl in
    let space = spelled-Visible token (codes "SPACE") refl in
    let tab = spelled-Visible token (codes "TAB") refl in
    let enter = spelled-Visible token (codes "ENTER") refl in
    let esc = spelled-Visible token (codes "ESC") refl in
    one_of two down left right space tab enter esc h

character_key-Visible : (token : Text) → is_character_key token ≡ true → Visible token
unfolding is_whitespace
character_key-Visible [] h = tt
character_key-Visible (c ∷ []) h = (ground arith, tt)
character_key-Visible (c ∷ d ∷ s) h = cc

function_key-Visible :
    (token : Text) {n : ℕ}
    → Lacks b'+' token
    → function_number u32_max token ≡ some n
    → Visible token
unfolding is_whitespace
function_key-Visible [] lacks h = tt
function_key-Visible (c ∷ s) {n} (_, lacks) h = elim (Bool-cases (c == b'F')) [
  | inl f ↦
      let parsed : parse_unsigned u32_max s ≡ some n = ground arith in
      (ground arith, Digits-Visible s (parse_unsigned-Digits u32_max s lacks parsed))
  | inr other ↦ ground arith
]

-- A key that is accepted has no white space in it.
pub is_valid_key-Visible :
    (token : Text) → Lacks b'+' token → is_valid_key token ≡ true → Visible token
unfolding is_valid_key
is_valid_key-Visible token lacks h = elim (Bool-cases (is_character_key token)) [
  | inl one ↦ character_key-Visible token one
  | inr longer ↦ elim (Option-cases (function_number u32_max token)) [
    | inl unnumbered ↦ named_key-Visible token (ground arith)
    | inr (n, numbered) ↦ function_key-Visible token lacks numbered
  ]
]
