-- ===== src/Frontend/Lines.antt =====
-- frontend/src/features/input/ocr-helpers.ts: what it does to texts.
use Prim.Native.Char.{Char, code}
use Prim.Native.String.{String, [], ◌∷◌}
use mathlib.Core.List.{List}
use personal_carbon_footprin.Prelude.{
  ℕ, suc, ◌+◌, ◌-◌, ◌*◌, ◌+++◌, Option, none, some, Bool, false, if◌then◌else◌, ◌||◌, ◌&&◌, leb,
  ◌==◌, trim, to_lower_case, ◌≡◌, refl,
}

-- A line without `\r`, with a space for `\t`, and with one space for several.
squeeze : (after_space : Bool) → String → String
squeeze after_space [] = ""
squeeze after_space (c ∷ s) =
    let is_space = code c == 32 || code c == 9 in
    let rest = squeeze is_space s in
    let same = squeeze after_space s in
    if code c == 13
    then same
    else if is_space
    then (if after_space then rest else " " +++ rest)
    else c ∷ rest

unfoldable pub normalize_whitespace : String → String
unfolding squeeze
normalize_whitespace text = trim (squeeze false text)

-- `text.split("\n")`: the first line, and those after it.
split_at_ends : String → String × List String
split_at_ends [] = ("", List.[])
split_at_ends (c ∷ s) =
    let (line, others) = split_at_ends s in
    if code c == 10 then ("", List.◌∷◌ line others) else (c ∷ line, others)

unfoldable pub split_lines : String → List String
unfolding split_at_ends
split_lines text = let (line, others) = split_at_ends text in List.◌∷◌ line others

-- `text.toLowerCase()` on the letters whose lower case has an ASCII letter: A to Z, the Kelvin sign and
-- the dotted capital I. Other letters stay, which makes no difference to a search for ASCII letters.
unfoldable pub lower_line : String → String
lower_line [] = ""
lower_line (c ∷ s) =
    let rest = lower_line s in
    if code c == 8490
    then "k" +++ rest
    else if code c == 304
    then "i̇" +++ rest
    else to_lower_case (c ∷ "") +++ rest

is_digit_char : Char → Bool
is_digit_char c = leb b'0' (code c) && leb (code c) b'9'

-- The digits after the point, read on from `mantissa`, if there is one at least.
fraction : (mantissa places : ℕ) → String → ℕ × ℕ
unfolding is_digit_char
fraction mantissa places [] = (mantissa, places)
fraction mantissa places (c ∷ s) =
    let longer = fraction (mantissa * 10 + (code c - b'0')) (suc places) s in
    if is_digit_char c then longer else (mantissa, places)

after_point : ℕ → String → ℕ × ℕ
unfolding fraction
after_point mantissa [] = (mantissa, 0)
after_point mantissa (c ∷ s) =
    let decimals = fraction mantissa 0 s in if code c == b'.' then decimals else (mantissa, 0)

whole : ℕ → String → ℕ × ℕ
unfolding after_point is_digit_char
whole mantissa [] = (mantissa, 0)
whole mantissa (c ∷ s) =
    let longer = whole (mantissa * 10 + (code c - b'0')) s in
    if is_digit_char c then longer else after_point mantissa (c ∷ s)

-- The first number of a line, `mantissa / 10 ^ places`: `/(\d+(?:\.\d+)?)/`.
unfoldable pub first_number : String → Option (ℕ × ℕ)
unfolding whole is_digit_char
first_number [] = none
first_number (c ∷ s) =
    let later = first_number s in if is_digit_char c then some (whole 0 (c ∷ s)) else later

read_lines :
    (normalize_whitespace " a\t\t b " ≡ "a b")
    × (first_number "train 12.40 x" ≡ some (1240, 2))
    × (first_number "bus 16. km" ≡ some (16, 0))
    × (split_lines "a\nb" ≡ List.◌∷◌ "a" (List.◌∷◌ "b" List.[]))
unfolding normalize_whitespace squeeze trim first_number whole is_digit_char after_point fraction
    split_lines split_at_ends
read_lines = (refl, refl, refl, refl)
