-- ===== src/Examples/SignedPoint.antt =====
-- Numbers of four digits after the point with a sign, whose products and quotients are rounded towards
-- zero: another way in which the laws of backend/src/modules/lca's numbers hold, and in which a difference may be
-- negative.
use native.Mathlib.Nat.{mul-le-mul_right}
use personal_carbon_footprin.Prelude.{
  ℕ, suc, ◌+◌, ◌*◌, ◌/◌, ◌^◌, ◌≤◌, ◌<◌, ℤ, pos, negsuc, minus, leb_ℤ, ltb_ℤ, ◌≡◌, refl, true, false,
  arith,
}
use personal_carbon_footprin.Lca.Numbers.{Numbers, NumberLaws}
use personal_carbon_footprin.Examples.FixedPoint.{div_mono, literal_order, literal_positive}

abbrev negated : ℤ → ℤ
negated (pos n) = minus 0 n
negated (negsuc n) = pos (suc n)

abbrev plus : ℤ → ℤ → ℤ
plus (pos a) (pos b) = pos (a + b)
plus (pos a) (negsuc b) = minus a (suc b)
plus (negsuc a) (pos b) = minus b (suc a)
plus (negsuc a) (negsuc b) = negsuc (suc (a + b))

-- `a * x / y`.
abbrev scaled_by : (x y : ℕ) → ℤ → ℤ
scaled_by x y (pos a) = pos (a * x / y)
scaled_by x y (negsuc a) = minus 0 (suc a * x / y)

abbrev times : ℤ → ℤ → ℤ
times a (pos c) = scaled_by c 10000 a
times a (negsuc c) = negated (scaled_by (suc c) 10000 a)

abbrev over : ℤ → ℤ → ℤ
over a (pos c) = scaled_by 10000 c a
over a (negsuc c) = negated (scaled_by 10000 (suc c) a)

abbrev to_ℕ : ℤ → ℕ
to_ℕ (pos a) = (a + 5000) / 10000
to_ℕ (negsuc a) = 0

abbrev pub signed_point : Numbers ℤ
signed_point = record {
  literal = λ m p. pos (m * 10000 / 10 ^ p);
  add = plus;
  sub = λ a b. plus a (negated b);
  mul = times;
  div = over;
  le = leb_ℤ;
  lt = ltb_ℤ;
  is_finite = λ a. true;
  round = to_ℕ;
  round_to = λ a d. a;
}

le_trans : (a b c : ℤ) → leb_ℤ a b ≡ true → leb_ℤ b c ≡ true → leb_ℤ a c ≡ true
le_trans a b c g h = ground (arith, g, h)

pub le_refl : (a : ℤ) → leb_ℤ a a ≡ true
le_refl a = ground arith

le_total : (a b : ℤ) → leb_ℤ a b ≡ false → leb_ℤ b a ≡ true
le_total a b h = ground (arith, h)

plus_mono : (a b c : ℤ) → leb_ℤ a b ≡ true → leb_ℤ (plus c a) (plus c b) ≡ true
plus_mono a b c h = ground (arith, h)

negated_anti : (a b : ℤ) → leb_ℤ a b ≡ true → leb_ℤ (negated b) (negated a) ≡ true
negated_anti a b h = ground (arith, h)

scaled_le : (x y a b : ℕ) → 0 < y → a ≤ b → a * x / y ≤ b * x / y
scaled_le x y a b positive h = div_mono (a * x) (b * x) y (mul-le-mul_right x h) positive

scaled_mono :
    (x y : ℕ) (a b : ℤ)
    → 0 < y
    → leb_ℤ a b ≡ true
    → leb_ℤ (scaled_by x y a) (scaled_by x y b) ≡ true
scaled_mono x y (pos a) (pos b) positive h =
    ground (arith, scaled_le x y a b positive (ground (arith, h)))
scaled_mono x y (pos a) (negsuc b) positive h = cc
scaled_mono x y (negsuc a) (pos b) positive h = ground arith
scaled_mono x y (negsuc a) (negsuc b) positive h =
    ground (arith, scaled_le x y (suc b) (suc a) positive (ground (arith, h)))

plus_nonneg :
    (a b : ℤ) → leb_ℤ (pos 0) a ≡ true → leb_ℤ (pos 0) b ≡ true → leb_ℤ (pos 0) (plus a b) ≡ true
plus_nonneg a b g h = ground (arith, g, h)

times_nonneg :
    (a b : ℤ) → leb_ℤ (pos 0) a ≡ true → ltb_ℤ (pos 0) b ≡ true → leb_ℤ (pos 0) (times a b) ≡ true
times_nonneg (pos a) (pos b) g h = ground arith
times_nonneg (pos a) (negsuc b) g h = cc
times_nonneg (negsuc a) b g h = cc

times_mono :
    (a b c : ℤ) → ltb_ℤ (pos 0) c ≡ true → leb_ℤ a b ≡ true → leb_ℤ (times a c) (times b c) ≡ true
times_mono a b (pos c) z h = scaled_mono c 10000 a b (omega arith) h
times_mono a b (negsuc c) z h = cc

over_mono :
    (a b c : ℤ) → ltb_ℤ (pos 0) c ≡ true → leb_ℤ a b ≡ true → leb_ℤ (over a c) (over b c) ≡ true
over_mono a b (pos c) z h = scaled_mono 10000 c a b (ground (arith, z)) h
over_mono a b (negsuc c) z h = cc

pub signed_point-laws : NumberLaws signed_point
signed_point-laws = record {
  le_trans = le_trans;
  le_left = λ a b h. le_refl a;
  le_right = λ a b h. le_refl b;
  le_total = λ a b f g h. le_total a b h;
  lt_not_le = λ a b h. ground (arith, h);
  not_le_lt = λ a b f g h. ground (arith, h);
  lt_le = λ a b h. le_total b a (ground (arith, h));
  finite_number = λ a h. le_refl a;
  finite_between = λ low a high f g h k. refl;
  literal_order = λ m p n q h. ground (arith, literal_order m p n q h);
  literal_nonneg = λ m p. ground arith;
  literal_positive = λ m p h k. ground (arith, literal_positive m p h k);
  literal_finite = λ m p h. refl;
  add_nonneg = plus_nonneg;
  mul_nonneg = λ a b g h f. times_nonneg a b g h;
  add_mono = λ a b c f h. plus_mono a b c h;
  sub_anti = λ a b c f h. plus_mono (negated b) (negated a) c (negated_anti a b h);
  mul_mono = λ a b c f z h. times_mono a b c z h;
  div_mono = λ a b c f z h. over_mono a b c z h;
  round_number = λ a d h. h;
  round_mono = λ a b d few h. h;
  round_literal = λ m p d h few. refl;
}
