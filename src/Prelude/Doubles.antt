-- ===== src/Prelude/Doubles.antt =====
-- `Number(value)` of a bigint: the nearest double, and the even one of two.
use Prim.Native.Nat.{ℕ, zero, suc, ◌+◌, ◌*◌, ◌/◌, ◌%◌, ◌^◌, ◌≤◌}
use mathlib.Core.Path.{◌≡◌, refl}
use mathlib.Core.Bool.{◌&&◌, ◌||◌}
use native.Mathlib.Omega.{arith}
use personal_carbon_footprin.Prelude.Tests.{ltb, leb, ◌==◌, if◌then◌else◌}
use personal_carbon_footprin.Prelude.Integers.{ℤ, pos, negsuc, minus}

-- The nearest multiple of the unit, and the even one of two.
abbrev pub nearest_multiple : (unit n : ℕ) → ℕ
nearest_multiple unit n =
    let down = n / unit * unit in
    let twice = 2 * (n % unit) in
    if ltb twice unit || twice == unit && n / unit % 2 == 0 then down else down + unit

-- The least power of two, from `unit` on, of which `n` has less than 2^53 multiples.
last_place : (fuel n unit : ℕ) → ℕ
last_place zero n unit = unit
last_place (suc fuel) n unit =
    let wider = last_place fuel n (2 * unit) in if ltb (n / unit) (2 ^ 53) then unit else wider

-- Up to 2^53 each number is a double. The fuel is enough below 2^117.
unfoldable pub to_double : ℕ → ℕ
unfolding last_place
to_double n = if leb n (2 ^ 53) then n else nearest_multiple (last_place 64 n 1) n

abbrev pub to_double_ℤ : ℤ → ℤ
to_double_ℤ (pos n) = pos (to_double n)
to_double_ℤ (negsuc n) = minus 0 (to_double (suc n))

pub to_double-safe : (n : ℕ) → n ≤ 2 ^ 53 → to_double n ≡ n
unfolding to_double
to_double-safe n h = ground (arith, h)

rounded :
    (to_double 9007199254740993 ≡ 9007199254740992)
    × (to_double 9007199254740995 ≡ 9007199254740996)
    × (to_double 18446744073709551615 ≡ 18446744073709551616)
unfolding to_double last_place
rounded = (refl, refl, refl)
