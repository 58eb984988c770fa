-- ===== src/Scripts/SeedHistory.antt =====
-- backend/scripts/local-e2e/seed-emission-history.ts: the bytes that the script seeds.
pub mod Options
use personal_carbon_footprin.Prelude.{
  ℕ, zero, suc, ◌+◌, ◌-◌, ◌*◌, ◌/◌, ◌^◌, List, [], ◌++◌, length, le_bytes, ℤ, pos, negsuc, minus,
}

-- `setBigInt64` writes the two's complement.
abbrev pub word_of : ℤ → ℕ
word_of (pos n) = n
word_of (negsuc n) = 2 ^ 64 - suc n

-- One turn of the loop writes these 16 bytes.
abbrev pub entry_of : (day_start : ℤ) (grams : ℕ) → List ℕ
entry_of day_start grams = le_bytes 8 (word_of day_start) ++ le_bytes 8 grams

-- The last turns of the loop, so many of them; `end_day_start` is a day before the current one.
unfoldable pub daily_entries : (days grams current_day_start : ℕ) → List ℕ
daily_entries zero grams current_day_start = []
daily_entries (suc days) grams current_day_start =
    entry_of (minus current_day_start (86400 + days * 86400)) grams
    ++ daily_entries days grams current_day_start

-- `createDailyEmissionHistory`.
unfoldable pub create_daily_emission_history : (days grams end_timestamp : ℕ) → List ℕ
create_daily_emission_history days grams end_timestamp =
    daily_entries days grams (end_timestamp / 86400 * 86400)

-- `encodeAdminSeedEmissionHistoryArgs`, after the eight bytes of the instruction's discriminator.
unfoldable pub encode_admin_seed_emission_history_args :
    (discriminator emission_history : List ℕ)
    → (last_verified_at total_emissions_grams commitment_count : ℕ) → List ℕ
encode_admin_seed_emission_history_args discriminator emission_history last_verified_at
      total_emissions_grams commitment_count =
    discriminator
    ++ le_bytes 4 (length emission_history)
    ++ emission_history
    ++ le_bytes 8 last_verified_at
    ++ le_bytes 8 total_emissions_grams
    ++ le_bytes 8 commitment_count
