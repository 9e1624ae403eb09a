-- ===== src/Config/Examples.antt =====
-- Tests of the chords, and the theorems applied to them.
use silk_studio.Prelude.{◌≡◌, refl, ok, err}
use silk_studio.Prelude.Text.{codes, upper, is_whitespace}
use silk_studio.Config.Chords.{
  ctrl, empty, missing_key, duplicate_modifier, unknown_token, modifier_rank, is_valid_key,
  read_token, chord_parts, finish_chord, normalize_chord,
}
use silk_studio.Config.Chords.Normal.{normalize_chord_idem}

spaced : normalize_chord (codes " shift + f9 ") ≡ ok (codes "SHIFT+F9")
unfolding normalize_chord finish_chord chord_parts read_token modifier_rank is_valid_key upper
    is_whitespace
spaced = refl

reordered : normalize_chord (codes "Alt+Ctrl+A") ≡ ok (codes "CTRL+ALT+A")
unfolding normalize_chord finish_chord chord_parts read_token modifier_rank is_valid_key upper
    is_whitespace
reordered = refl

blank : normalize_chord (codes " ") ≡ err empty
unfolding normalize_chord is_whitespace
blank = refl

keyless : normalize_chord (codes "Ctrl") ≡ err missing_key
unfolding normalize_chord finish_chord read_token modifier_rank upper is_whitespace
keyless = refl

twice : normalize_chord (codes "Ctrl+Ctrl+F5") ≡ err (duplicate_modifier ctrl)
unfolding normalize_chord finish_chord read_token modifier_rank upper is_whitespace
twice = refl

beyond : normalize_chord (codes "F25") ≡ err (unknown_token (codes "F25"))
unfolding normalize_chord finish_chord read_token modifier_rank is_valid_key upper is_whitespace
beyond = refl

-- A leading zero is kept, so one function key has several canonical chords.
padded : normalize_chord (codes "F01") ≡ ok (codes "F01")
unfolding normalize_chord finish_chord chord_parts read_token modifier_rank is_valid_key upper
    is_whitespace
padded = refl

normalize_chord_idem_example : normalize_chord (codes "SHIFT+F9") ≡ ok (codes "SHIFT+F9")
normalize_chord_idem_example = normalize_chord_idem (codes " shift + f9 ") spaced
