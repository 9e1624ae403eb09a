-- ===== src/Prelude/Text.antt =====
-- Text as a list of code points, and what the standard library does to it: `str::split`, `join`,
-- `trim`, `to_ascii_uppercase` and `parse` of an unsigned number.
pub mod Split
pub mod Trimmed
pub mod Number
use Prim.Native.Char.{code}
use Prim.Native.String.{String}
use Prim.Native.Nat.{ℕ, ◌+◌, ◌-◌, ◌*◌}
use mathlib.Core.Path.{◌≡◌, refl}
use mathlib.Core.Logic.{◌≢◌}
use mathlib.Core.Bool.{Bool, true, false, ◌&&◌, ◌||◌}
use mathlib.Core.List.{List, [], ◌∷◌, ◌++◌, map}
use mathlib.Core.Option.{Option, none, some}
use native.Mathlib.Omega.{arith}
use silk_studio.Prelude.Tests.{ltb, leb, ◌==◌, if◌then◌else◌}
use silk_studio.Prelude.Lists.{All, is_empty}

abbrev pub Text : Type 0
Text = List ℕ

abbrev pub codes : String → Text
codes String.[] = []
codes (String.◌∷◌ c s) = code c ∷ codes s

-- `==` on texts
abbrev pub same_text : Text → Text → Bool
same_text [] [] = true
same_text [] (d ∷ ds) = false
same_text (c ∷ cs) [] = false
same_text (c ∷ cs) (d ∷ ds) = c == d && same_text cs ds

abbrev pub is_ascii_digit : ℕ → Bool
is_ascii_digit c = leb b'0' c && leb c b'9'

abbrev pub is_ascii_uppercase : ℕ → Bool
is_ascii_uppercase c = leb b'A' c && leb c b'Z'

abbrev pub is_ascii_lowercase : ℕ → Bool
is_ascii_lowercase c = leb b'a' c && leb c b'z'

-- `char::to_ascii_uppercase`
unfoldable pub upper : ℕ → ℕ
upper c = if is_ascii_lowercase c then c - 32 else c

-- `str::to_ascii_uppercase`
abbrev pub to_ascii_uppercase : Text → Text
to_ascii_uppercase = map upper

-- `char::is_whitespace`: the code points with Unicode's White_Space property.
unfoldable pub is_whitespace : ℕ → Bool
is_whitespace c =
    (leb 9 c && leb c 13)
    || (c == 32
        || (c == 0x85
            || (c == 0xA0
                || (c == 0x1680
                    || ((leb 0x2000 c && leb c 0x200A)
                        || (c == 0x2028
                            || (c == 0x2029 || (c == 0x202F || (c == 0x205F || c == 0x3000)))))))))

abbrev pub trim_start : Text → Text
trim_start [] = []
trim_start (c ∷ s) = if is_whitespace c then trim_start s else c ∷ s

abbrev pub trim_end : Text → Text
trim_end [] = []
trim_end (c ∷ s) =
    let rest = trim_end s in if is_empty rest && is_whitespace c then [] else c ∷ rest

-- `str::trim`
abbrev pub trim : Text → Text
trim s = trim_end (trim_start s)

-- A character before the first of the parts.
abbrev pub before_first : ℕ → List Text → List Text
before_first c [] = (c ∷ []) ∷ []
before_first c (part ∷ parts) = (c ∷ part) ∷ parts

-- `str::split` at a character
abbrev pub split : ℕ → Text → List Text
split sep [] = [] ∷ []
split sep (c ∷ s) = if c == sep then [] ∷ split sep s else before_first c (split sep s)

-- `join` with a character between the parts
abbrev pub join : ℕ → List Text → Text
join sep [] = []
join sep (part ∷ []) = part
join sep (part ∷ next ∷ parts) = part ++ sep ∷ join sep (next ∷ parts)

-- The digits of a number after its sign, where the number so far and every later one must not
-- exceed the type's greatest value.
abbrev pub read_digits : (greatest so_far : ℕ) → Text → Option ℕ
read_digits greatest so_far [] = some so_far
read_digits greatest so_far (c ∷ s) =
    let next = so_far * 10 + (c - b'0') in
    let rest = read_digits greatest next s in
    if is_ascii_digit c then (if leb next greatest then rest else none) else none

-- `str::parse` to an unsigned type with the given greatest value.
abbrev pub parse_unsigned : (greatest : ℕ) → Text → Option ℕ
parse_unsigned greatest [] = none
parse_unsigned greatest (c ∷ []) = if c == b'+' then none else read_digits greatest 0 (c ∷ [])
parse_unsigned greatest (c ∷ d ∷ s) =
    let signed = read_digits greatest 0 (d ∷ s) in
    let plain = read_digits greatest 0 (c ∷ d ∷ s) in if c == b'+' then signed else plain

abbrev pub Lacks : ℕ → Text → Type 0
Lacks sep = All (λ c. c ≢ sep)

-- Equal texts by the test are equal.
pub same_text-eq : (s t : Text) → same_text s t ≡ true → s ≡ t
same_text-eq [] [] h = refl
same_text-eq [] (d ∷ ds) h = cc
same_text-eq (c ∷ cs) [] h = cc
same_text-eq (c ∷ cs) (d ∷ ds) h = ground (arith, same_text-eq cs ds)

pub same_text_self : (s : Text) → same_text s s ≡ true
same_text_self [] = refl
same_text_self (c ∷ cs) = ground (arith, same_text_self cs)
