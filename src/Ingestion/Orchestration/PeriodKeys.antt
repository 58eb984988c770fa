-- ===== src/Ingestion/Orchestration/PeriodKeys.antt =====
-- backend/src/modules/ingestion/footprint-orchestration.ts: `normalizeQueuedPeriodKey`.
use personal_carbon_footprin.Prelude.{
  ℕ, ◌≤◌, String, some, ◌≡◌, ◌≢◌, arith, List, [], ◌∷◌, Bool-cases, inl, inr, leb, str_eq_iff,
  codes, select_where, ok,
}
use personal_carbon_footprin.Ingestion.Orchestration.{
  is_digit, max_safe_integer, parse_period_digits, parse_digits, normalize_queued_period_key,
}

parse_period_digits-bound :
    (digits : List ℕ) (key : ℕ) → parse_period_digits digits ≡ ok key → key ≤ max_safe_integer
unfolding parse_period_digits
parse_period_digits-bound [] key h = cc
parse_period_digits-bound (c ∷ digits) key h =
    elim (Bool-cases (leb (parse_digits 0 (c ∷ digits)) max_safe_integer)) [
      | inl e ↦ ground (arith, e, h)
      | inr e ↦ absurd (ground (arith, e, h))
    ]

-- A period key that is accepted is a safe integer, and two texts that are not empty and have the
-- same digits in the same order give the same, whatever other characters they have.
pub normalize_queued_period_key_lem :
    (first second : String) (key : ℕ)
    → first ≢ ""
    → second ≢ ""
    → select_where is_digit (codes first) ≡ select_where is_digit (codes second)
    → normalize_queued_period_key (some first) ≡ ok key
    → (key ≤ max_safe_integer) × (normalize_queued_period_key (some second) ≡ ok key)
unfolding normalize_queued_period_key
normalize_queued_period_key_lem first second key full full' same h =
    let parsed : parse_period_digits (select_where is_digit (codes first)) ≡ ok key =
      ground (arith, h, full, str_eq_iff first "") in
    (
      parse_period_digits-bound (select_where is_digit (codes first)) key parsed,
      ground (arith, parsed, same, full', str_eq_iff second ""),
    )
