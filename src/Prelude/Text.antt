-- ===== src/Prelude/Text.antt =====
-- Texts as JavaScript uses them: equality, `includes`, the decimal form of a number.
use Prim.Native.Nat.{Ordering, ℕ, zero, suc, ◌+◌, ◌-◌, ◌*◌, ◌/◌, ◌%◌, ◌<◌}
use Prim.Native.Char.{Char, code}
use Prim.Native.String.{String, [], ◌∷◌, char_at, compare}
use mathlib.Core.Path.{◌≡◌, refl, sym, ap, ◌∙◌}
use mathlib.Core.Bool.{Bool, true, false, ◌&&◌, ◌||◌}
use mathlib.Core.Logic.{◌↔◌, inl, inr}
use mathlib.Core.Option.{Option, none, some}
use mathlib.Core.List.{List}
use native.Mathlib.Omega.{arith}
use text.Mathlib.Text.{◌==◌ as ◌str==◌, find?}
use text.Mathlib.TextEquality.{eq_iff}
use text.Mathlib.TextPositions.{eq_refl}
use personal_carbon_footprin.Prelude.Tests.{◌==◌, ltb, leb, if◌then◌else◌, Bool-cases}

abbrev pub str_eq : String → String → Bool
str_eq a b = a str== b

pub str_eq_iff : (a b : String) → (str_eq a b ≡ true) ↔ (a ≡ b)
str_eq_iff a b = eq_iff a b

pub str_eq_refl : (a : String) → str_eq a a ≡ true
str_eq_refl a = eq_refl a

-- `text.includes(part)`.
unfoldable pub includes : String → String → Bool
includes text part = elim (find? text part) [ none ↦ false | some _ ↦ true ]

digit : ℕ → Char
digit zero = "0"
digit (suc zero) = "1"
digit (suc (suc zero)) = "2"
digit (suc (suc (suc zero))) = "3"
digit (suc (suc (suc (suc zero)))) = "4"
digit (suc (suc (suc (suc (suc zero))))) = "5"
digit (suc (suc (suc (suc (suc (suc zero)))))) = "6"
digit (suc (suc (suc (suc (suc (suc (suc zero))))))) = "7"
digit (suc (suc (suc (suc (suc (suc (suc (suc zero)))))))) = "8"
digit _ = "9"

emit : ℕ → ℕ → String → String
emit zero n out = out
emit (suc f) n out =
    let longer = emit f (n / 10) (digit (n % 10) ∷ out) in
    if ltb n 10 then digit n ∷ out else longer

-- `String(n)`: one digit for each unit of fuel, of which `n + 1` are enough.
unfoldable pub number_to_string : ℕ → String
unfolding emit digit
number_to_string n = emit (suc n) n ""

value : ℕ → String → ℕ
value acc [] = acc
value acc (c ∷ s) = value (acc * 10 + (code c - 48)) s

code-digit : (d : ℕ) → d < 10 → code (digit d) - 48 ≡ d
unfolding digit
code-digit zero h = refl
code-digit (suc zero) h = refl
code-digit (suc (suc zero)) h = refl
code-digit (suc (suc (suc zero))) h = refl
code-digit (suc (suc (suc (suc zero)))) h = refl
code-digit (suc (suc (suc (suc (suc zero))))) h = refl
code-digit (suc (suc (suc (suc (suc (suc zero)))))) h = refl
code-digit (suc (suc (suc (suc (suc (suc (suc zero))))))) h = refl
code-digit (suc (suc (suc (suc (suc (suc (suc (suc zero)))))))) h = refl
code-digit (suc (suc (suc (suc (suc (suc (suc (suc (suc zero))))))))) h = refl
code-digit (suc (suc (suc (suc (suc (suc (suc (suc (suc (suc d)))))))))) h = absurd (omega arith)

value-emit : (f n : ℕ) (out : String) → n < f → value 0 (emit f n out) ≡ value n out
unfolding value emit
value-emit zero n out h = absurd (omega arith)
value-emit (suc f) n out h = elim (Bool-cases (ltb n 10)) [
  | inl small ↦ rw small (ap (λ m. value m out) (omega (arith, code-digit n (ground arith))))
  | inr large ↦ rw large (
      value-emit f (n / 10) (digit (n % 10) ∷ out) (ground arith)
      ∙ ap (λ m. value m out) (omega (arith, code-digit (n % 10) (omega arith))))
]

pub number_to_string-injective : (a b : ℕ) → number_to_string a ≡ number_to_string b → a ≡ b
unfolding number_to_string value
number_to_string-injective a b h =
    sym (value-emit (suc a) a "" (omega arith))
    ∙ ap (value 0) h
    ∙ value-emit (suc b) b "" (omega arith)

printed : number_to_string 1207 ≡ "1207"
unfolding number_to_string
printed = refl

-- The code points of a text.
abbrev pub codes : String → List ℕ
codes [] = List.[]
codes (c ∷ s) = List.◌∷◌ (code c) (codes s)

to_lower_char : Char → Char
to_lower_char c =
    if leb b'A' (code c) && leb (code c) b'Z'
    then char_at "abcdefghijklmnopqrstuvwxyz" (code c - b'A')
    else c

-- `text.toLowerCase()` on the letters A to Z. Other letters stay, which makes no difference to a
-- search for a text of ASCII letters without `k`: no other letter has such a lower case.
unfoldable pub to_lower_case : String → String
unfolding to_lower_char
to_lower_case [] = []
to_lower_case (c ∷ s) = to_lower_char c ∷ to_lower_case s

lowered : to_lower_case "RPC Timeout" ≡ "rpc timeout"
unfolding to_lower_case
lowered = refl

-- The white space and line ends that `trim` removes.
abbrev is_white : ℕ → Bool
is_white c =
    leb 9 c && leb c 13
    || c == 32
    || c == 160
    || c == 5760
    || leb 8192 c && leb c 8202
    || c == 8232
    || c == 8233
    || c == 8239
    || c == 8287
    || c == 12288
    || c == 65279

trim_start : String → String
trim_start [] = []
trim_start (c ∷ s) = let rest = trim_start s in if is_white (code c) then rest else c ∷ s

trim_end : String → String
trim_end [] = []
trim_end (c ∷ s) =
    let rest = trim_end s in if is_white (code c) && str_eq rest "" then "" else c ∷ rest

-- `text.trim()`.
unfoldable pub trim : String → String
unfolding trim_start trim_end
trim s = trim_end (trim_start s)

-- The text before the first space, and what follows it, if there is one.
unfoldable pub split_space : String → String × Option String
split_space [] = ("", none)
split_space (c ∷ s) =
    let (word, rest) = split_space s in if code c == 32 then ("", some s) else (c ∷ word, rest)

trimmed : (trim "  a b " ≡ "a b") × (split_space "Bearer x y" ≡ ("Bearer", some "x y"))
unfolding trim trim_start trim_end split_space
trimmed = (refl, refl)

-- `a < b` on texts, as `sort` compares them. JavaScript compares UTF-16 units, which for texts of ASCII
-- characters is the same.
abbrev pub str_lt : String → String → Bool
str_lt a b = elim (compare a b) [ Ordering.lt ↦ true | _ ↦ false ]
