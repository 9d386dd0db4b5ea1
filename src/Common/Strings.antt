-- ===== src/Common/Strings.antt =====
-- Rust's `str` as the list of its code points, with the methods that the program calls. A test on
-- code points agrees with the one on UTF-8 bytes, as no code point's bytes begin inside another's.
-- `to_lowercase` changes the ASCII letters only.
use Prim.Native.Nat.{ℕ, zero, suc, ◌+◌, ◌/◌, ◌%◌}
use Prim.Native.Char.{code}
use Prim.Native.String.{String}
use mathlib.Core.Bool.{Bool, true, false, ◌&&◌, ◌||◌}
use mathlib.Core.List.{List, [], ◌∷◌, map, reverse}
use mathlib.Core.Option.{Option, none, some}
use ai_garage.Common.Tests.{ltb, leb, ◌==◌, if◌then◌else◌}

abbrev pub Text : Type 0
Text = List ℕ

-- The code points of a literal.
unfoldable pub text : String → Text
text String.[] = []
text (String.◌∷◌ c s) = code c ∷ text s

unfoldable pub text_eq : Text → Text → Bool
text_eq [] [] = true
text_eq [] (y ∷ ys) = false
text_eq (x ∷ xs) [] = false
text_eq (x ∷ xs) (y ∷ ys) = x == y && text_eq xs ys

unfoldable pub starts_with : Text → Text → Bool
starts_with s [] = true
starts_with [] (p ∷ ps) = false
starts_with (c ∷ s) (p ∷ ps) = c == p && starts_with s ps

unfoldable pub strip_prefix : Text → Text → Option Text
strip_prefix s [] = some s
strip_prefix [] (p ∷ ps) = none
strip_prefix (c ∷ s) (p ∷ ps) = if c == p then strip_prefix s ps else none

unfoldable pub ends_with : Text → Text → Bool
unfolding text_eq
ends_with [] p = text_eq [] p
ends_with (c ∷ s) p = text_eq (c ∷ s) p || ends_with s p

unfoldable pub strip_suffix : Text → Text → Option Text
unfolding text_eq
strip_suffix [] p = if text_eq [] p then some [] else none
strip_suffix (c ∷ s) p =
    let rest = strip_suffix s p in
    if text_eq (c ∷ s) p then some [] else elim rest [ none ↦ none | some q ↦ some (c ∷ q) ]

-- `s.contains(p)` for a text `p`
unfoldable pub contains : Text → Text → Bool
contains [] p = starts_with [] p
contains (c ∷ s) p = starts_with (c ∷ s) p || contains s p

-- `char::is_whitespace`, the property White_Space of Unicode
unfoldable pub is_whitespace : ℕ → Bool
is_whitespace c =
    (leb 9 c && leb c 13)
    || c == 32
    || c == 133
    || c == 160
    || c == 5760
    || (leb 8192 c && leb c 8202)
    || c == 8232
    || c == 8233
    || c == 8239
    || c == 8287
    || c == 12288

unfoldable pub trim_start : Text → Text
trim_start [] = []
trim_start (c ∷ s) = if is_whitespace c then trim_start s else c ∷ s

unfoldable pub trim_end : Text → Text
trim_end s = reverse (trim_start (reverse s))

unfoldable pub trim : Text → Text
trim s = trim_end (trim_start s)

unfoldable pub lower : ℕ → ℕ
lower c = if leb 65 c && leb c 90 then c + 32 else c

unfoldable pub to_lowercase : Text → Text
to_lowercase s = map lower s

-- `s.split(c)`: one piece more than there are occurrences of `c`
unfoldable pub split_on : ℕ → Text → List Text
split_on c [] = [] ∷ []
split_on c (x ∷ s) = elim (split_on c s) [
  | [] ↦ [] ∷ []
  | p ∷ ps ↦ if x == c then [] ∷ p ∷ ps else (x ∷ p) ∷ ps
]

-- `n.to_string()`
unfoldable pub digit_text : ℕ → ℕ
digit_text d = 48 + d % 10

unfoldable pub show_fuel : ℕ → ℕ → Text → Text
show_fuel zero n acc = acc
show_fuel (suc f) n acc =
    let rest = show_fuel f (n / 10) (digit_text n ∷ acc) in
    if ltb n 10 then digit_text n ∷ acc else rest

-- `n` halves at least once for each digit, so `n + 1` rounds are enough.
unfoldable pub show_nat : ℕ → Text
unfolding show_fuel
show_nat n = show_fuel (suc n) n []
