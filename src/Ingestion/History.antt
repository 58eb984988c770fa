-- ===== src/Ingestion/History.antt =====
-- backend/src/modules/ingestion/footprint-orchestration.ts: the emission history of a user's profile.
pub mod Seeded
use personal_carbon_footprin.Prelude.{
  ℕ, zero, suc, ◌-◌, ◌*◌, ◌/◌, ◌%◌, ◌^◌, Option, none, some, Bool, ◌&&◌, ◌||◌, List, [], ◌∷◌,
  length, if◌then◌else◌, ltb, ◌==◌, select_where, take, drop, le_value, ℤ, pos, negsuc, minus,
  to_double, to_double_ℤ, leb_ℤ, ltb_ℤ, Outcome, ◌>>=◌, ok, throw, JsError, app_error,
}
use personal_carbon_footprin.Lca.Numbers.{Numbers}

abbrev pub entry_bytes : ℕ
entry_bytes = 16

abbrev pub history_days : ℕ
history_days = 30

abbrev pub seconds_per_day : ℕ
seconds_per_day = 86400

pub record HistoryEntry : Type 0 where
  pub day_start_timestamp : ℤ
  pub emission_grams : ℕ

abbrev pub malformed_history : JsError
malformed_history =
    app_error "invalid_emission_history" 500 "On-chain emission history bytes are malformed."

-- `getBigInt64` of the word that `getBigUint64` reads there: two's complement.
abbrev pub signed_word : ℕ → ℤ
signed_word w = if ltb w (2 ^ 63) then pos w else negsuc (2 ^ 64 - suc w)

unfoldable pub decode_entry : List ℕ → HistoryEntry
decode_entry chunk = record {
  day_start_timestamp = to_double_ℤ (signed_word (le_value (take 8 chunk)));
  emission_grams = to_double (le_value (take 8 (drop 8 chunk)));
}

-- The loop over the offsets, for so many chunks.
unfoldable pub decode_entries : ℕ → List ℕ → List HistoryEntry
decode_entries zero bytes = []
decode_entries (suc chunks) bytes =
    decode_entry (take entry_bytes bytes) ∷ decode_entries chunks (drop entry_bytes bytes)

unfoldable pub decode_emission_history : List ℕ → Outcome (List HistoryEntry)
decode_emission_history bytes =
    if length bytes % entry_bytes == 0
    then ok (decode_entries (length bytes / entry_bytes) bytes)
    else throw malformed_history

unfoldable pub day_bucket_start : ℕ → ℕ
day_bucket_start timestamp = timestamp / seconds_per_day * seconds_per_day

abbrev pub window_start : ℕ → ℤ
window_start current_day_start = minus current_day_start (history_days * seconds_per_day)

abbrev pub is_active : ℕ → HistoryEntry → Bool
is_active current_day_start e =
    leb_ℤ (window_start current_day_start) e.day_start_timestamp
    && ltb_ℤ e.day_start_timestamp (pos current_day_start)

-- `activeEntries.sort(…)`, which is stable, by insertion.
unfoldable pub insert_entry : HistoryEntry → List HistoryEntry → List HistoryEntry
insert_entry e [] = e ∷ []
insert_entry e (other ∷ entries) =
    let later = other ∷ insert_entry e entries in
    if ltb_ℤ other.day_start_timestamp e.day_start_timestamp then later else e ∷ other ∷ entries

unfoldable pub sort_entries : List HistoryEntry → List HistoryEntry
sort_entries [] = []
sort_entries (e ∷ entries) = insert_entry e (sort_entries entries)

module _ {N : Type 0} (ops : Numbers N) where
  unfoldable pub sum_grams : List HistoryEntry → N → N
  sum_grams [] total = total
  sum_grams (e ∷ entries) total = sum_grams entries (ops.add total (ops.literal e.emission_grams 0))

  -- `totalGrams / 1000 / 30`, with two digits after the point.
  abbrev pub monthly_average : N → N
  monthly_average total =
      ops.round_to (ops.div (ops.div total (ops.literal 1000 0)) (ops.literal history_days 0)) 2

  -- What is made of the active entries in the order of their days.
  unfoldable pub average_of_entries : ℕ → List HistoryEntry → N
  average_of_entries current_day_start [] = ops.literal 0 0
  average_of_entries current_day_start (first ∷ entries) =
      if ltb (length (first ∷ entries)) history_days
        || ltb_ℤ (window_start current_day_start) first.day_start_timestamp
      then ops.literal 0 0
      else monthly_average (sum_grams (first ∷ entries) (ops.literal 0 0))

  -- `deriveHistoricalDataFromUserProfile`, of the profile's emission history if there is a profile.
  unfoldable pub derive_historical_data : Option (List ℕ) → ℕ → Outcome N
  derive_historical_data none as_of = ok (ops.literal 0 0)
  derive_historical_data (some bytes) as_of = do
    entries ← decode_emission_history bytes
    let current = day_bucket_start as_of
    ok (average_of_entries current (sort_entries (select_where (is_active current) entries)))
