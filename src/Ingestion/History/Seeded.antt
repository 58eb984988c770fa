-- ===== src/Ingestion/History/Seeded.antt =====
-- backend/scripts/local-e2e/seed-emission-history.ts writes what footprint-orchestration.ts reads.
use personal_carbon_footprin.Prelude.{
  ℕ, zero, suc, ◌+◌, ◌-◌, ◌*◌, ◌/◌, ◌%◌, ◌^◌, ◌≤◌, ◌<◌, some, List, [], ◌∷◌, ◌++◌, length,
  length-append, Bool-cases, inl, inr, if◌then◌else◌, ltb, leb, true, false, select_where, take,
  drop, take-append, drop-append, le_bytes, length-le_bytes, le_value-le_bytes, ℤ, min, pos, negsuc,
  minus, leb_ℤ, to_double, to_double_ℤ, to_double-safe, ok, ◌≡◌, refl, ap, ◌∙◌, arith,
}
use personal_carbon_footprin.Lca.Numbers.{Numbers}
use personal_carbon_footprin.Scripts.SeedHistory.{
  word_of, entry_of, daily_entries, create_daily_emission_history,
}
use personal_carbon_footprin.Ingestion.History.{
  HistoryEntry, history_days, signed_word, decode_entry, decode_entries, decode_emission_history,
  day_bucket_start, window_start, is_active, insert_entry, sort_entries, monthly_average, sum_grams,
  average_of_entries, derive_historical_data,
}

-- The entries that are to be read: so many days before the current day, the last one first in time.
unfoldable pub seeded_entries : (days grams current_day_start : ℕ) → List HistoryEntry
seeded_entries zero grams current_day_start = []
seeded_entries (suc days) grams current_day_start =
    record {
      day_start_timestamp = minus current_day_start (86400 + days * 86400);
      emission_grams = grams;
    }
    ∷ seeded_entries days grams current_day_start

pub length-seeded_entries : (d g e : ℕ) → length (seeded_entries d g e) ≡ d
unfolding seeded_entries
length-seeded_entries zero g e = refl
length-seeded_entries (suc d) g e = ap suc (length-seeded_entries d g e)

length-entry_of : (day : ℤ) (grams : ℕ) → length (entry_of day grams) ≡ 16
length-entry_of day grams =
    rw
      (
        length-append (le_bytes 8 (word_of day)) (le_bytes 8 grams),
        length-le_bytes 8 (word_of day),
        length-le_bytes 8 grams,
      )
      refl

length-daily_entries : (d g e : ℕ) → length (daily_entries d g e) ≡ d * 16
unfolding daily_entries
length-daily_entries zero g e = refl
length-daily_entries (suc d) g e =
    let day = minus e (86400 + d * 86400) in
    rw
      (
        length-append (entry_of day g) (daily_entries d g e),
        length-entry_of day g,
        length-daily_entries d g e,
      )
      (omega arith)

-- The days that are integers of 64 bits with a sign, and doubles.
abbrev IsInRange : ℤ → Type 0
IsInRange (pos n) = n ≤ 2 ^ 53
IsInRange (negsuc n) = n < 2 ^ 53

minus-IsInRange : (a b : ℕ) → a ≤ 2 ^ 53 → b ≤ 2 ^ 53 → IsInRange (minus a b)
minus-IsInRange a b ha hb = ground (arith, ha, hb)

signed_word-word_of : (z : ℤ) → IsInRange z → signed_word (word_of z) ≡ z
signed_word-word_of (pos n) h = ground (arith, h)
signed_word-word_of (negsuc n) h =
    let over : ltb (2 ^ 64 - suc n) (2 ^ 63) ≡ false = ground (arith, h) in
    let back : 2 ^ 64 - suc (2 ^ 64 - suc n) ≡ n = omega (arith, h) in rw (over, back) refl

word_of-fits : (z : ℤ) → IsInRange z → word_of z < 256 ^ 8
word_of-fits (pos n) h = omega (arith, h)
word_of-fits (negsuc n) h = omega arith

to_double_ℤ-IsInRange : (z : ℤ) → IsInRange z → to_double_ℤ z ≡ z
to_double_ℤ-IsInRange (pos n) h = ap pos (to_double-safe n h)
to_double_ℤ-IsInRange (negsuc n) h = rw (to_double-safe (suc n) (omega (arith, h))) (ground arith)

take-le_bytes : (day grams : ℕ) → take 8 (le_bytes 8 day ++ le_bytes 8 grams) ≡ le_bytes 8 day
take-le_bytes day grams = take-append 8 (le_bytes 8 day) (le_bytes 8 grams) (length-le_bytes 8 day)

drop-le_bytes : (day grams : ℕ) → drop 8 (le_bytes 8 day ++ le_bytes 8 grams) ≡ le_bytes 8 grams
drop-le_bytes day grams = drop-append 8 (le_bytes 8 day) (le_bytes 8 grams) (length-le_bytes 8 day)

take-whole : (grams : ℕ) → take 8 (le_bytes 8 grams) ≡ le_bytes 8 grams
unfolding take le_bytes
take-whole grams = refl

decode_entry-entry_of :
    (day : ℤ) (grams : ℕ)
    → IsInRange day
    → grams < 2 ^ 64
    → decode_entry (entry_of day grams)
      ≡ record { day_start_timestamp = day; emission_grams = to_double grams }
unfolding decode_entry
decode_entry-entry_of day grams hd hg =
    let word = word_of day in
    rw
      (
        take-le_bytes word grams,
        drop-le_bytes word grams,
        take-whole grams,
        le_value-le_bytes 8 word (word_of-fits day hd),
        le_value-le_bytes 8 grams (omega (arith, hg)),
        signed_word-word_of day hd,
        to_double_ℤ-IsInRange day hd,
      )
      refl

decode_entries-daily_entries :
    (d g e : ℕ)
    → e ≤ 2 ^ 53
    → d * 86400 ≤ 2 ^ 53
    → g < 2 ^ 64
    → decode_entries d (daily_entries d g e) ≡ seeded_entries d (to_double g) e
unfolding decode_entries daily_entries seeded_entries
decode_entries-daily_entries zero g e he hd hg = refl
decode_entries-daily_entries (suc d) g e he hd hg =
    let day = minus e (86400 + d * 86400) in
    let fits = minus-IsInRange e (86400 + d * 86400) he (omega (arith, hd)) in
    let entry = entry_of day g in
    let rest = daily_entries d g e in
    rw
      (
        take-append 16 entry rest (length-entry_of day g),
        drop-append 16 entry rest (length-entry_of day g),
        decode_entry-entry_of day g fits hg,
        decode_entries-daily_entries d g e he (omega (arith, hd)) hg,
      )
      refl

-- The history that the seeding script writes is read by the backend as the days it was meant to have:
-- one entry a day, in order, up to the day before the current one, each with the seeded grams as a
-- double, which are the grams themselves up to 2^53, if the grams fit a word of 64 bits and both the
-- time and the days that are seeded stay within 2^53 seconds, where each time is a double.
pub decode_emission_history-create_daily_emission_history :
    (days grams end_timestamp : ℕ)
    → end_timestamp ≤ 2 ^ 53
    → days * 86400 ≤ 2 ^ 53
    → grams < 2 ^ 64
    → (decode_emission_history (create_daily_emission_history days grams end_timestamp)
        ≡ ok (seeded_entries days (to_double grams) (day_bucket_start end_timestamp)))
      × (grams ≤ 2 ^ 53 → to_double grams ≡ grams)
unfolding decode_emission_history create_daily_emission_history day_bucket_start
decode_emission_history-create_daily_emission_history days grams end_timestamp he hd hg =
    let current : ℕ = end_timestamp / 86400 * 86400 in
    let fits : current ≤ 2 ^ 53 = omega (arith, he) in
    let whole : (days * 16 % 16) ≡ 0 = omega arith in
    let chunks : (days * 16 / 16) ≡ days = omega arith in
    (
      rw
          (
            length-daily_entries days grams current,
            whole,
            chunks,
            decode_entries-daily_entries days grams current fits hd hg,
          )
          refl,
      to_double-safe grams,
    )

leb_ℤ-minus : (c a b : ℕ) → leb_ℤ (minus c a) (minus c b) ≡ leb b a
leb_ℤ-minus c a b = ground arith

minus-zero : (c : ℕ) → pos c ≡ minus c 0
minus-zero c = ground arith

abbrev seeded_entry : (days grams current_day_start : ℕ) → HistoryEntry
seeded_entry d g c = record {
  day_start_timestamp = minus c (86400 + d * 86400);
  emission_grams = g;
}

-- The window is the thirty days before the current one.
is_active-seeded_entry : (d g c : ℕ) → is_active c (seeded_entry d g c) ≡ ltb d 30
is_active-seeded_entry d g c =
    rw
      (
        leb_ℤ-minus c (30 * 86400) (86400 + d * 86400),
        minus-zero c,
        leb_ℤ-minus c 0 (86400 + d * 86400),
      )
      (ground arith)

select_where-seeded_entries :
    (d g c : ℕ) → select_where (is_active c) (seeded_entries d g c) ≡ seeded_entries (min 30 d) g c
unfolding select_where seeded_entries
select_where-seeded_entries zero g c = refl
select_where-seeded_entries (suc d) g c =
    rw (is_active-seeded_entry d g c, select_where-seeded_entries d g c)
      (elim (Bool-cases (ltb d 30)) [
        | inl h ↦
            let all : min 30 d ≡ d = ground (arith, h) in
            let next : min 30 (suc d) ≡ suc d = ground (arith, h) in rw (h, all, next) refl
        | inr h ↦
            let full : min 30 d ≡ 30 = ground (arith, h) in
            let next : min 30 (suc d) ≡ 30 = ground (arith, h) in rw (h, full, next) refl
      ])

insert_entry-seeded_entries :
    (d g c : ℕ)
    → insert_entry (seeded_entry d g c) (seeded_entries d g c) ≡ seeded_entries (suc d) g c
unfolding insert_entry seeded_entries
insert_entry-seeded_entries zero g c = refl
insert_entry-seeded_entries (suc d) g c =
    rw (leb_ℤ-minus c (86400 + suc d * 86400) (86400 + d * 86400)) (ground arith)

sort_entries-seeded_entries :
    (d g c : ℕ) → sort_entries (seeded_entries d g c) ≡ seeded_entries d g c
unfolding sort_entries seeded_entries
sort_entries-seeded_entries zero g c = refl
sort_entries-seeded_entries (suc d) g c =
    ap (insert_entry (seeded_entry d g c)) (sort_entries-seeded_entries d g c)
    ∙ insert_entry-seeded_entries d g c

module _ {N : Type 0} (ops : Numbers N) where
  -- The sum that the loop makes of so many days of the same grams.
  unfoldable pub added : (days grams : ℕ) → N → N
  added zero grams total = total
  added (suc days) grams total = added days grams (ops.add total (ops.literal grams 0))

  sum_grams-seeded_entries :
      (d g c : ℕ) (total : N) → sum_grams ops (seeded_entries d g c) total ≡ added d g total
  unfolding sum_grams added seeded_entries
  sum_grams-seeded_entries zero g c total = refl
  sum_grams-seeded_entries (suc d) g c total =
      sum_grams-seeded_entries d g c (ops.add total (ops.literal g 0))

  average_of_entries-window :
      (n g c : ℕ)
      → n ≡ 29
      → average_of_entries ops c (seeded_entries (suc n) g c)
        ≡ monthly_average ops (added (suc n) g (ops.literal 0 0))
  unfolding average_of_entries seeded_entries
  average_of_entries-window n g c h =
      let first = 86400 + n * 86400 in
      let whole : ltb (suc n) history_days ≡ false = ground (arith, h) in
      let inside : leb_ℤ (minus c first) (window_start c) ≡ true =
        rw (leb_ℤ-minus c first (30 * 86400)) (ground (arith, h)) in
      rw
        (
          length-seeded_entries n g c,
          whole,
          inside,
          sum_grams-seeded_entries (suc n) g c (ops.literal 0 0),
        )
        refl

  average_of_entries-seeded_entries :
      (d g c : ℕ)
      → average_of_entries ops c (seeded_entries (min 30 d) g c)
        ≡ (if ltb d 30 then ops.literal 0 0 else monthly_average ops (added 30 g (ops.literal 0 0)))
  unfolding average_of_entries seeded_entries
  average_of_entries-seeded_entries zero g c = refl
  average_of_entries-seeded_entries (suc d) g c = elim (Bool-cases (ltb (suc d) 30)) [
    | inl h ↦
        let next : min 30 (suc d) ≡ suc d = ground (arith, h) in
        let short : ltb (suc d) history_days ≡ true = h in
        rw (next, length-seeded_entries d g c, short) refl
    | inr h ↦
        let next : min 30 (suc d) ≡ 30 = ground (arith, h) in
        rw (next, h) (average_of_entries-window 29 g c refl)
  ]

  -- A user whose history was seeded this day with so many days of the same grams has the average of the
  -- last thirty of them, each as a double, in kilograms with two digits, and the average 0 while there are fewer than
  -- thirty. The conditions are those of the round trip.
  pub derive_historical_data-create_daily_emission_history :
      (days grams end_timestamp as_of : ℕ)
      → end_timestamp ≤ 2 ^ 53
      → days * 86400 ≤ 2 ^ 53
      → grams < 2 ^ 64
      → day_bucket_start as_of ≡ day_bucket_start end_timestamp
      → derive_historical_data ops
          (some (create_daily_emission_history days grams end_timestamp))
          as_of
        ≡ ok (
            if ltb days 30
            then ops.literal 0 0
            else monthly_average ops (added 30 (to_double grams) (ops.literal 0 0)))
  unfolding derive_historical_data
  derive_historical_data-create_daily_emission_history days grams end_timestamp as_of he hd hg
        same =
      let current = day_bucket_start end_timestamp in
      rw
        (
          same,
          (decode_emission_history-create_daily_emission_history days grams end_timestamp he hd
              hg).0,
          select_where-seeded_entries days (to_double grams) current,
          sort_entries-seeded_entries (min 30 days) (to_double grams) current,
          average_of_entries-seeded_entries days (to_double grams) current,
        )
        refl
