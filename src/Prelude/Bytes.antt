-- ===== src/Prelude/Bytes.antt =====
-- Bytes as numbers below 256, and little-endian words of them, as `DataView` reads and writes them.
use Prim.Native.Nat.{ℕ, zero, suc, ◌+◌, ◌*◌, ◌/◌, ◌%◌, ◌^◌, ◌<◌}
use mathlib.Core.Path.{◌≡◌, refl, ap}
use mathlib.Core.List.{List, [], ◌∷◌, ◌++◌}
use native.Mathlib.Omega.{arith}
use personal_carbon_footprin.Prelude.Lists.{length}

module _ {ℓ} {A : Type ℓ} where
  -- `bytes.slice(0, n)` and `bytes.slice(n)`.
  unfoldable pub take : ℕ → List A → List A
  take zero xs = []
  take (suc n) [] = []
  take (suc n) (x ∷ xs) = x ∷ take n xs

  unfoldable pub drop : ℕ → List A → List A
  drop zero xs = xs
  drop (suc n) [] = []
  drop (suc n) (x ∷ xs) = drop n xs

  pub take-append : (n : ℕ) (xs ys : List A) → length xs ≡ n → take n (xs ++ ys) ≡ xs
  unfolding take
  take-append zero [] ys h = refl
  take-append zero (x ∷ xs) ys h = absurd (omega (arith, h))
  take-append (suc n) [] ys h = absurd (omega (arith, h))
  take-append (suc n) (x ∷ xs) ys h = ap (λ l. x ∷ l) (take-append n xs ys (omega (arith, h)))

  pub drop-append : (n : ℕ) (xs ys : List A) → length xs ≡ n → drop n (xs ++ ys) ≡ ys
  unfolding drop
  drop-append zero [] ys h = refl
  drop-append zero (x ∷ xs) ys h = absurd (omega (arith, h))
  drop-append (suc n) [] ys h = absurd (omega (arith, h))
  drop-append (suc n) (x ∷ xs) ys h = drop-append n xs ys (omega (arith, h))

unfoldable pub le_bytes : (count value : ℕ) → List ℕ
le_bytes zero value = []
le_bytes (suc count) value = value % 256 ∷ le_bytes count (value / 256)

unfoldable pub le_value : List ℕ → ℕ
le_value [] = 0
le_value (b ∷ bytes) = b + 256 * le_value bytes

pub length-le_bytes : (count value : ℕ) → length (le_bytes count value) ≡ count
unfolding le_bytes
length-le_bytes zero value = refl
length-le_bytes (suc count) value = ap suc (length-le_bytes count (value / 256))

-- A word is read back, if it fits.
pub le_value-le_bytes :
    (count value : ℕ) → value < 256 ^ count → le_value (le_bytes count value) ≡ value
unfolding le_bytes le_value
le_value-le_bytes zero value h = omega (arith, h)
le_value-le_bytes (suc count) value h =
    let rest = le_value-le_bytes count (value / 256) (omega (arith, h)) in omega (arith, rest)
