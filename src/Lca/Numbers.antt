-- ===== src/Lca/Numbers.antt =====
-- The numbers of backend/src/modules/lca are JavaScript's doubles. The calculation takes them as an
-- interface: the operations that it uses, and laws that all doubles have, infinities and NaN among them, in
-- the rounding to the nearest. No law says that an operation is exact, or that it does not overflow. A
-- number that is not NaN is one that is at most itself.
use personal_carbon_footprin.Prelude.{ℕ, ◌*◌, ◌^◌, ◌≤◌, ◌≡◌, Bool, true, false, ◌&&◌}

pub record Numbers (N : Type 0) : Type 0 where
  -- the literal `mantissa / 10 ^ places`
  pub literal : (mantissa places : ℕ) → N
  pub add : N → N → N
  pub sub : N → N → N
  pub mul : N → N → N
  pub div : N → N → N
  pub le : N → N → Bool
  pub lt : N → N → Bool
  -- `Number.isFinite`
  pub is_finite : N → Bool
  -- `Math.round` of a finite number that is not negative
  pub round : N → ℕ
  -- `Number(value.toFixed(digits))`
  pub round_to : N → ℕ → N

-- `z.number().finite().nonnegative()`, of a number that is there.
abbrev pub finite_nonnegative : {N : Type 0} → Numbers N → N → Bool
finite_nonnegative ops a = ops.is_finite a && ops.le (ops.literal 0 0) a

pub record NumberLaws {N : Type 0} (ops : Numbers N) : Type 0 where
  pub le_trans : (a b c : N) → ops.le a b ≡ true → ops.le b c ≡ true → ops.le a c ≡ true
  -- what is compared is not NaN
  pub le_left : (a b : N) → ops.le a b ≡ true → ops.le a a ≡ true
  pub le_right : (a b : N) → ops.le a b ≡ true → ops.le b b ≡ true
  pub le_total :
      (a b : N) → ops.le a a ≡ true → ops.le b b ≡ true → ops.le a b ≡ false → ops.le b a ≡ true
  pub lt_not_le : (a b : N) → ops.lt a b ≡ true → ops.le b a ≡ false
  pub not_le_lt :
      (a b : N) → ops.le a a ≡ true → ops.le b b ≡ true → ops.le b a ≡ false → ops.lt a b ≡ true
  pub lt_le : (a b : N) → ops.lt a b ≡ true → ops.le a b ≡ true
  pub finite_number : (a : N) → ops.is_finite a ≡ true → ops.le a a ≡ true
  pub finite_between :
      (low a high : N)
      → ops.is_finite low ≡ true
      → ops.is_finite high ≡ true
      → ops.le low a ≡ true
      → ops.le a high ≡ true
      → ops.is_finite a ≡ true
  pub literal_order :
      (m p n q : ℕ) → m * 10 ^ q ≤ n * 10 ^ p → ops.le (ops.literal m p) (ops.literal n q) ≡ true
  pub literal_nonneg : (m places : ℕ) → ops.le (ops.literal 0 0) (ops.literal m places) ≡ true
  -- a literal of few digits is neither rounded to nothing nor infinite
  pub literal_positive :
      (m places : ℕ) → 1 ≤ m → places ≤ 3 → ops.lt (ops.literal 0 0) (ops.literal m places) ≡ true
  pub literal_finite : (m places : ℕ) → m ≤ 2 ^ 53 → ops.is_finite (ops.literal m places) ≡ true
  pub add_nonneg :
      (a b : N)
      → ops.le (ops.literal 0 0) a ≡ true
      → ops.le (ops.literal 0 0) b ≡ true
      → ops.le (ops.literal 0 0) (ops.add a b) ≡ true
  pub mul_nonneg :
      (a b : N)
      → ops.le (ops.literal 0 0) a ≡ true
      → ops.lt (ops.literal 0 0) b ≡ true
      → ops.is_finite b ≡ true
      → ops.le (ops.literal 0 0) (ops.mul a b) ≡ true
  -- rounding to nearest makes each operation monotone, if the other operand is finite
  pub add_mono :
      (a b c : N)
      → ops.is_finite c ≡ true
      → ops.le a b ≡ true
      → ops.le (ops.add c a) (ops.add c b) ≡ true
  pub sub_anti :
      (a b c : N)
      → ops.is_finite c ≡ true
      → ops.le a b ≡ true
      → ops.le (ops.sub c b) (ops.sub c a) ≡ true
  pub mul_mono :
      (a b c : N)
      → ops.is_finite c ≡ true
      → ops.lt (ops.literal 0 0) c ≡ true
      → ops.le a b ≡ true
      → ops.le (ops.mul a c) (ops.mul b c) ≡ true
  pub div_mono :
      (a b c : N)
      → ops.is_finite c ≡ true
      → ops.lt (ops.literal 0 0) c ≡ true
      → ops.le a b ≡ true
      → ops.le (ops.div a c) (ops.div b c) ≡ true
  -- `toFixed` takes up to a hundred digits, and gives NaN only for NaN
  pub round_number :
      (a : N) (d : ℕ) → ops.le (ops.round_to a d) (ops.round_to a d) ≡ true → ops.le a a ≡ true
  pub round_mono :
      (a b : N) (d : ℕ)
      → d ≤ 100
      → ops.le a b ≡ true
      → ops.le (ops.round_to a d) (ops.round_to b d) ≡ true
  pub round_literal :
      (m places d : ℕ)
      → places ≤ d
      → d ≤ 100
      → ops.round_to (ops.literal m places) d ≡ ops.literal m places
