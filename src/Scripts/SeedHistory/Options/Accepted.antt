-- ===== src/Scripts/SeedHistory/Options/Accepted.antt =====
-- backend/scripts/local-e2e/seed-emission-history.ts: the options that `parseOptions` accepts.
use personal_carbon_footprin.Prelude.{
  codes, ℕ, zero, suc, ◌≤◌, ◌<◌, ℤ, pos, String, Option, none, some, Bool, true, false, List, [],
  if◌then◌else◌, ltb, ◌==◌, ◌||◌, str_eq, str_eq_iff, or_else, trim, ◌≡◌, ◌≢◌, refl, arith, ok,
  throw, bind-ok, ok-injective, JsError, negsuc, sym,
}
use mathlib.Core.Path.{subst}
use personal_carbon_footprin.Http.Routes.{parse_int}
use personal_carbon_footprin.Scripts.SeedHistory.Options.{
  SeedOptions, ScriptEnv, get_value, read_arguments, value_or_env, is_infinite, positive_integer,
  parse_positive_integer, default_history_days, parse_days, positive_big_int,
  parse_positive_big_int, country_ok, parse_display_alias, parse_country_code, parse_options,
}

-- What a guard passes is the value, and the guard did not throw.
guarded {ℓ} :
    {A : Type ℓ} (refused : Bool) (e : JsError) {a b : A}
    → (if refused then throw e else ok a) ≡ ok b
    → (refused ≡ false) × (a ≡ b)
guarded true e h = cc
guarded false e h = (refl, ok-injective h)

permitted {ℓ} :
    {A : Type ℓ} (permits : Bool) (e : JsError) {a b : A}
    → (if permits then ok a else throw e) ≡ ok b
    → (permits ≡ true) × (a ≡ b)
permitted true e h = (refl, ok-injective h)
permitted false e h = cc

positive_integer-positive :
    (flag : String) (read : Option ℕ) (n : ℕ) → positive_integer flag read ≡ ok n → 0 < n
positive_integer-positive flag none n h = cc
positive_integer-positive flag (some m) n h =
    let (accepted, same) = guarded (m == 0 || is_infinite m) _ h in ground (arith, accepted, same)

positive_big_int-positive :
    (flag : String) (read : Option ℤ) (n : ℕ) → positive_big_int flag read ≡ ok n → 0 < n
positive_big_int-positive flag none n h = cc
positive_big_int-positive flag (some (pos zero)) n h = cc
positive_big_int-positive flag (some (pos (suc m))) n h = ground (arith, ok-injective h)
positive_big_int-positive flag (some (negsuc m)) n h = cc

parse_days-bounds :
    (given : Option String) (days : ℕ)
    → parse_days given ≡ ok days
    → (0 < days) × (days ≤ default_history_days)
unfolding parse_positive_integer
parse_days-bounds given days h =
    let raw = or_else given "30" in
    let (n, parsed, checked) = bind-ok (parse_positive_integer raw "--days") _ h in
    let (small, same) = guarded (ltb default_history_days n) _ checked in
    let positive : 0 < n =
      positive_integer-positive "--days" (parse_int (codes (trim raw))) n parsed in
    (ground arith, ground arith)

parse_display_alias-full :
    (given : Option String) (alias : String) → parse_display_alias given ≡ ok alias → alias ≢ ""
unfolding parse_display_alias
parse_display_alias-full given alias h =
    let trimmed = trim (or_else given "local-e2e-user") in
    let (full, same) = guarded (str_eq trimmed "") _ h in
    ground (arith, full, same, str_eq_iff trimmed "")

parse_country_code-ok :
    (env : ScriptEnv) (given : Option String) (country : String)
    → parse_country_code env given ≡ ok country
    → country_ok country ≡ true
unfolding parse_country_code
parse_country_code-ok env given country h =
    let upper = env.to_upper_case (trim (or_else given "JP")) in
    let (right, same) = permitted (country_ok upper) _ h in rw (sym same) right

-- What the script seeds with: between one day and thirty of them, a positive number of grams for each, an
-- alias that is not empty, and a country that is left out or has two capital letters.
record IsSeedable (o : SeedOptions) : Type 0 where
  pub some_days : 0 < o.days
  pub few_days : o.days ≤ default_history_days
  pub some_grams : 0 < o.daily_emission_grams
  pub full_alias : o.display_alias ≢ ""
  pub right_country : country_ok o.country_code ≡ true

-- Options that are accepted can be seeded with, whatever the arguments and the environment are.
parse_options-IsSeedable :
    (env : ScriptEnv) (argv : List String) (o : SeedOptions)
    → parse_options env argv ≡ ok o
    → IsSeedable o
unfolding parse_options parse_positive_big_int
parse_options-IsSeedable env argv o h =
    let (values, _, h) = bind-ok (read_arguments argv []) _ h in
    let (rpc_url, _, h) = bind-ok (value_or_env env values "rpc-url" "SOLANA_RPC_URL") _ h in
    let (program, _, h) =
      bind-ok (value_or_env env values "program-id" "GREEN_REPUTATION_PROGRAM_ID") _ h in
    let (program_id, _, h) = bind-ok (env.new_public_key program) _ h in
    let (days, of_days, h) = bind-ok (parse_days (get_value "days" values)) _ h in
    let (grams, of_grams, h) =
      bind-ok
        (parse_positive_big_int env (or_else (get_value "daily-emission-grams" values) "25000")
          "--daily-emission-grams")
        _ h in
    let (alias, of_alias, h) =
      bind-ok (parse_display_alias (get_value "display-alias" values)) _ h in
    let (country, of_country, h) =
      bind-ok (parse_country_code env (get_value "country-code" values)) _ h in
    let (user, _, h) =
      bind-ok (value_or_env env values "user-keypair" "LOCAL_E2E_USER_KEYPAIR_PATH") _ h in
    let (admin, _, h) =
      bind-ok (value_or_env env values "admin-keypair" "LOCAL_E2E_ADMIN_KEYPAIR_PATH") _ h in
    let (mint, _, h) =
      bind-ok
        (value_or_env env values "mint-authority-keypair" "LOCAL_E2E_MINT_AUTHORITY_KEYPAIR_PATH") _
        h in
    let (some_days, few_days) = parse_days-bounds (get_value "days" values) days of_days in
    subst IsSeedable (ok-injective h) (record {
      some_days = some_days;
      few_days = few_days;
      some_grams = positive_big_int-positive "--daily-emission-grams" _ grams of_grams;
      full_alias = parse_display_alias-full (get_value "display-alias" values) alias of_alias;
      right_country =
          parse_country_code-ok env (get_value "country-code" values) country of_country;
    })
