-- ===== src/Examples/FixedPoint.antt =====
-- Numbers of four digits after the point, whose products and quotients are rounded down: one way
-- in which the laws of backend/src/modules/lca's numbers hold.
use native.Mathlib.Nat.{mul-le-mul_right, le_of_mul-le-mul_right, le-div_iff_mul-le}
use personal_carbon_footprin.Prelude.{
  ℕ, zero, suc, ◌+◌, ◌-◌, ◌*◌, ◌/◌, ◌^◌, ◌≤◌, ◌<◌, refl, arith, leb, ltb, true,
}
use personal_carbon_footprin.Lca.Numbers.{Numbers, NumberLaws}

abbrev pub fixed_point : Numbers ℕ
fixed_point = record {
  literal = λ m p. m * 10000 / 10 ^ p;
  add = λ a b. a + b;
  sub = λ a b. a - b;
  mul = λ a b. a * b / 10000;
  div = λ a b. a * 10000 / b;
  le = leb;
  lt = ltb;
  is_finite = λ a. true;
  round = λ a. (a + 5000) / 10000;
  round_to = λ a d. a;
}

power_positive : (p : ℕ) → 0 < 10 ^ p
power_positive zero = omega arith
power_positive (suc p) = omega (arith, power_positive p)

pub div_mono : (a b c : ℕ) → a ≤ b → 0 < c → a / c ≤ b / c
div_mono a b c h pos =
    let down : a / c * c ≤ a =
      (le-div_iff_mul-le {k = c} {x = a / c} {y = a} pos).0 (omega arith) in
    (le-div_iff_mul-le {k = c} {x = a / c} {y = b} pos).1 (omega (arith, down, h))

pub literal_order :
    (m p n q : ℕ) → m * 10 ^ q ≤ n * 10 ^ p → m * 10000 / 10 ^ p ≤ n * 10000 / 10 ^ q
literal_order m p n q h =
    let x = m * 10000 / 10 ^ p in
    let down : x * 10 ^ p ≤ m * 10000 =
      (le-div_iff_mul-le {k = 10 ^ p} {x = x} {y = m * 10000} (power_positive p)).0 (omega arith) in
    let wide : x * 10 ^ p * 10 ^ q ≤ m * 10000 * 10 ^ q = mul-le-mul_right (10 ^ q) down in
    let far : x * 10 ^ q * 10 ^ p ≤ n * 10000 * 10 ^ p = omega (arith, wide, h) in
    (le-div_iff_mul-le {k = 10 ^ q} {x = x} {y = n * 10000} (power_positive q)).1
      (le_of_mul-le-mul_right {k = 10 ^ p} far (power_positive p))

pub literal_positive : (m p : ℕ) → 1 ≤ m → p ≤ 3 → 0 < m * 10000 / 10 ^ p
literal_positive m zero h k = omega (arith, h)
literal_positive m (suc zero) h k = omega (arith, h)
literal_positive m (suc (suc zero)) h k = omega (arith, h)
literal_positive m (suc (suc (suc zero))) h k = omega (arith, h)
literal_positive m (suc (suc (suc (suc p)))) h k = absurd (omega (arith, k))

pub fixed_point-laws : NumberLaws fixed_point
fixed_point-laws = record {
  le_trans = λ a b c g h. ground (arith, g, h);
  le_left = λ a b h. ground arith;
  le_right = λ a b h. ground arith;
  le_total = λ a b f g h. ground (arith, h);
  lt_not_le = λ a b h. ground (arith, h);
  not_le_lt = λ a b f g h. ground (arith, h);
  lt_le = λ a b h. ground (arith, h);
  finite_number = λ a h. ground arith;
  finite_between = λ low a high f g h k. refl;
  literal_order = λ m p n q h. ground (arith, literal_order m p n q h);
  literal_nonneg = λ m p. ground arith;
  literal_positive = λ m p h k. ground (arith, literal_positive m p h k);
  literal_finite = λ m p h. refl;
  add_nonneg = λ a b g h. ground arith;
  mul_nonneg = λ a b g h k. ground arith;
  add_mono = λ a b c f h. ground (arith, h);
  sub_anti = λ a b c f h. ground (arith, h);
  mul_mono = λ a b c f z h.
      let step : a * c ≤ b * c = mul-le-mul_right c (ground (arith, h)) in
      ground (arith, div_mono (a * c) (b * c) 10000 step (omega arith));
  div_mono = λ a b c f pos h.
      ground (arith, div_mono (a * 10000) (b * 10000) c (ground (arith, h)) (ground (arith, pos)));
  round_number = λ a d h. h;
  round_mono = λ a b d few h. h;
  round_literal = λ m p d h few. refl;
}
