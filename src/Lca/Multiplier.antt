-- ===== src/Lca/Multiplier.antt =====
-- backend/src/modules/lca/orchestrator.ts: `calculateDynamicMultiplier`.
use personal_carbon_footprin.Prelude.{ℕ, ◌≡◌, true, arith, Bool-cases, inl, inr, if◌then◌else◌}
use personal_carbon_footprin.Lca.Numbers.{Numbers, NumberLaws}
use personal_carbon_footprin.Lca.Orchestrator.{
  clamp, calculate_dynamic_multiplier, number_zero, number_one,
}

module _ {N : Type 0} (ops : Numbers N) (laws : NumberLaws ops) where
  abbrev pub IsNumber : N → Type 0
  IsNumber a = ops.le a a ≡ true

  literal-IsNumber : (m p : ℕ) → IsNumber (ops.literal m p)
  literal-IsNumber m p = laws.literal_order m p m p (omega arith)

  abbrev least_of : N → N → N
  least_of a high = if ops.le a high then a else (if ops.le a a then high else a)

  -- A clamped value is NaN, or within the limits.
  pub clamp-bounds :
      (value low high : N)
      → ops.le low high ≡ true
      → IsNumber (clamp ops value low high)
      → (ops.le low (clamp ops value low high) ≡ true)
        × (ops.le (clamp ops value low high) high ≡ true)
  unfolding clamp
  clamp-bounds value low high h number =
      let least = least_of value high in
      elim (Bool-cases (ops.le least low)) [
        | inl e ↦ rw e (laws.le_left low high h, h)
        | inr e ↦
            let known : IsNumber least = rw e at number in
            let above = laws.le_total least low known (laws.le_left low high h) e in
            rw e (above, below value high (laws.le_right low high h) known)
      ]
    where
      below :
          (a high : N)
          → IsNumber high
          → IsNumber (least_of a high)
          → ops.le (least_of a high) high ≡ true
      below a high top known = elim (Bool-cases (ops.le a high)) [
        | inl e ↦ rw e e
        | inr e ↦ elim (Bool-cases (ops.le a a)) [
          | inl f ↦ rw (e, f) top
          | inr f ↦ absurd (ground (arith, e, f, known))
        ]
      ]

  min_mono :
      (a b high : N)
      → IsNumber high
      → ops.le a b ≡ true
      → ops.le (least_of a high) (least_of b high) ≡ true
  min_mono a b high top h =
      let first = laws.le_left a b h in
      let second = laws.le_right a b h in
      elim (Bool-cases (ops.le a high)) [
        | inl e ↦ elim (Bool-cases (ops.le b high)) [
          | inl f ↦ rw (e, f) h
          | inr f ↦ rw (e, f, second) e
        ]
        | inr e ↦ elim (Bool-cases (ops.le b high)) [
          | inl f ↦ absurd (ground (arith, e, laws.le_trans a b high h f))
          | inr f ↦ rw (e, f, first, second) top
        ]
      ]

  max_mono :
      (a b low : N)
      → IsNumber low
      → ops.le a b ≡ true
      → ops.le (if ops.le a low then low else a) (if ops.le b low then low else b) ≡ true
  max_mono a b low bottom h = elim (Bool-cases (ops.le a low)) [
    | inl e ↦ elim (Bool-cases (ops.le b low)) [
      | inl f ↦ rw (e, f) bottom
      | inr f ↦ rw (e, f) (laws.le_total b low (laws.le_right a b h) bottom f)
    ]
    | inr e ↦ elim (Bool-cases (ops.le b low)) [
      | inl f ↦ absurd (ground (arith, e, laws.le_trans a b low h f))
      | inr f ↦ rw (e, f) h
    ]
  ]

  clamp_mono :
      (a b low high : N)
      → IsNumber low
      → IsNumber high
      → ops.le a b ≡ true
      → ops.le (clamp ops a low high) (clamp ops b low high) ≡ true
  unfolding clamp
  clamp_mono a b low high bottom top h = max_mono _ _ low bottom (min_mono a b high top h)

  -- The multiplier is NaN, or between a half and one and a half, whatever the emissions are.
  pub calculate_dynamic_multiplier-bounds :
      (current past : N)
      → IsNumber (calculate_dynamic_multiplier ops current past)
      → (ops.le (ops.literal 5 1) (calculate_dynamic_multiplier ops current past) ≡ true)
        × (ops.le (calculate_dynamic_multiplier ops current past) (ops.literal 15 1) ≡ true)
  unfolding calculate_dynamic_multiplier
  calculate_dynamic_multiplier-bounds current past number =
      elim (Bool-cases (ops.le past (number_zero ops))) [
        | inl e ↦
            rw e
              (laws.literal_order 5 1 1 0 (omega arith), laws.literal_order 1 0 15 1 (omega arith))
        | inr e ↦ rw e (
            clamp-bounds _ (ops.literal 5 1) (ops.literal 15 1)
              (laws.literal_order 5 1 15 1 (omega arith)) (rw e at number))
      ]

  -- Who emits more in a month, with the same finite past, has no greater multiplier. Neither of the emissions
  -- is NaN, as they are compared.
  pub calculate_dynamic_multiplier-antitone :
      (less more past : N)
      → ops.is_finite past ≡ true
      → ops.le less more ≡ true
      → ops.le
          (calculate_dynamic_multiplier ops more past)
          (calculate_dynamic_multiplier ops less past)
        ≡ true
  unfolding calculate_dynamic_multiplier
  calculate_dynamic_multiplier-antitone less more past finite h =
      elim (Bool-cases (ops.le past (number_zero ops))) [
        | inl e ↦ rw e (literal-IsNumber 1 0)
        | inr e ↦
            let positive : ops.lt (number_zero ops) past ≡ true =
              laws.not_le_lt (number_zero ops) past (literal-IsNumber 0 0)
                (laws.finite_number past finite) e in
            rw e (
              clamp_mono _ _ (ops.literal 5 1) (ops.literal 15 1) (literal-IsNumber 5 1)
                (literal-IsNumber 15 1)
                (laws.add_mono _ _ (number_one ops) (laws.literal_finite 1 0 (omega arith)) (
                  laws.mul_mono _ _ (ops.literal 5 1) (laws.literal_finite 5 1 (omega arith))
                    (laws.literal_positive 5 1 (omega arith) (omega arith))
                    (laws.div_mono _ _ past finite positive
                      (laws.sub_anti less more past finite h)))))
      ]
