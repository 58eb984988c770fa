-- ===== src/Prelude/Hex.antt =====
-- `Buffer.from(bytes).toString('hex')`.
use Prim.Native.Nat.{ℕ, zero, suc, ◌+◌, ◌/◌, ◌%◌, ◌<◌}
use Prim.Native.Char.{Char, code}
use Prim.Native.String.{String, ◌∷◌, char_at}
use mathlib.Core.Path.{◌≡◌, refl, ap, ◌∙◌}
use mathlib.Core.Bool.{Bool, true, ◌&&◌}
use mathlib.Core.List.{List}
use native.Mathlib.Omega.{arith}
use native.Mathlib.Decide.{ℕ_discrete}
use personal_carbon_footprin.Prelude.Tests.{if◌then◌else◌, ltb, ◌==◌, ==_iff, and-left, and-right}
use personal_carbon_footprin.Prelude.Lists.{All}
use personal_carbon_footprin.Prelude.Text.{codes}

abbrev pub IsByte : ℕ → Type 0
IsByte b = b < 256

abbrev pub hex_digit : ℕ → ℕ
hex_digit d = if ltb d 10 then d + 48 else d + 87

abbrev pub to_hex : List ℕ → List ℕ
to_hex List.[] = List.[]
to_hex (List.◌∷◌ b bytes) =
    List.◌∷◌ (hex_digit (b / 16)) (List.◌∷◌ (hex_digit (b % 16)) (to_hex bytes))

abbrev hex_char : ℕ → Char
hex_char d = char_at "0123456789abcdef" d

-- The same as a text.
unfoldable pub hex_text : List ℕ → String
hex_text List.[] = ""
hex_text (List.◌∷◌ b bytes) = hex_char (b / 16) ∷ hex_char (b % 16) ∷ hex_text bytes

-- A test that holds of all numbers below a bound.
holds_below : ℕ → (ℕ → Bool) → Bool
holds_below zero test = true
holds_below (suc n) test = test n && holds_below n test

holds_below_sound : (n d : ℕ) (test : ℕ → Bool) → holds_below n test ≡ true → d < n → test d ≡ true
unfolding holds_below
holds_below_sound zero d test h lt = absurd (omega (arith, lt))
holds_below_sound (suc n) d test h lt = elim (ℕ_discrete d n) [
  | yes e ↦ ap test e ∙ and-left (test n) (holds_below n test) h
  | no ne ↦
      holds_below_sound n d test (and-right (test n) (holds_below n test) h) (omega (arith, lt, ne))
]

code-hex_char : (d : ℕ) → d < 16 → code (hex_char d) ≡ hex_digit d
unfolding holds_below
code-hex_char d h =
    (==_iff (code (hex_char d)) (hex_digit d)).0
      (holds_below_sound 16 d (λ d. code (hex_char d) == hex_digit d) refl h)

pub codes-hex_text : (bytes : List ℕ) → All IsByte bytes → codes (hex_text bytes) ≡ to_hex bytes
unfolding hex_text
codes-hex_text List.[] all = refl
codes-hex_text (List.◌∷◌ b bytes) (small, all) =
    rw
      (
        code-hex_char (b / 16) (omega (arith, small)),
        code-hex_char (b % 16) (omega arith),
        codes-hex_text bytes all,
      )
      refl
