-- ===== src/Scripts/SeedHistory/Options.antt =====
-- backend/scripts/local-e2e/seed-emission-history.ts: the options of the script.
pub mod Accepted
use Prim.Native.String.{◌∷◌ as ◌⊳◌}
use personal_carbon_footprin.Prelude.{
  ℕ, zero, suc, ◌-◌, ◌^◌, ℤ, pos, String, ◌+++◌, Option, none, some, Bool, false, List, [], ◌∷◌,
  if◌then◌else◌, ltb, leb, ◌==◌, ◌&&◌, ◌||◌, not, str_eq, or_else, codes, trim, Outcome, ◌>>=◌, ok,
  throw, error,
}
use personal_carbon_footprin.Jobs.Payloads.{PublicKey}
use personal_carbon_footprin.Http.Routes.{parse_int}

pub record SeedOptions : Type 0 where
  pub rpc_url : String
  pub program_id : PublicKey
  pub user_keypair_path : String
  pub admin_keypair_path : String
  pub mint_authority_keypair_path : String
  pub days : ℕ
  pub daily_emission_grams : ℕ
  pub display_alias : String
  pub country_code : String
  pub avatar_uri : String

-- `process.env`, `new PublicKey(text)`, `BigInt(text)`, which is `none` where it throws, and
-- `text.toUpperCase()`.
pub record ScriptEnv : Type 0 where
  pub process_env : String → Option String
  pub new_public_key : String → Outcome PublicKey
  pub big_int : String → Option ℤ
  pub to_upper_case : String → String

-- The map of the options that are given, the last one first.
abbrev Values : Type 0
Values = List (String × String)

unfoldable pub get_value : String → Values → Option String
get_value name [] = none
get_value name ((other, value) ∷ values) =
    if str_eq other name then some value else get_value name values

-- `argument.startsWith('--')`, and `argument.slice(2)`.
abbrev is_flag : List ℕ → Bool
is_flag (c ∷ d ∷ _) = c == b'-' && d == b'-'
is_flag _ = false

abbrev slice_2 : String → String
slice_2 (c ⊳ (d ⊳ name)) = name
slice_2 _ = ""

unfoldable pub read_arguments : (argv : List String) → Values → Outcome Values
read_arguments [] values = ok values
read_arguments (argument ∷ []) values =
    if is_flag (codes argument)
    then throw (error ("Missing value for --" +++ slice_2 argument))
    else throw (error ("Unknown positional argument: " +++ argument))
read_arguments (argument ∷ value ∷ argv) values =
    let rest = read_arguments argv ((slice_2 argument, value) ∷ values) in
    if not (is_flag (codes argument))
    then throw (error ("Unknown positional argument: " +++ argument))
    else if str_eq value "" || is_flag (codes value)
    then throw (error ("Missing value for --" +++ slice_2 argument))
    else rest

unfoldable pub required_env : ScriptEnv → (name : String) → Outcome String
required_env env name =
    let value = trim (or_else (env.process_env name) "") in
    if str_eq value "" then throw (error (name +++ " is required.")) else ok value

abbrev pub value_or_env : ScriptEnv → Values → (option variable : String) → Outcome String
value_or_env env values option variable = elim (get_value option values) [
  | some value ↦ ok value
  | none ↦ required_env env variable
]

-- A number that rounds to `Infinity`, which is no integer.
unfoldable pub is_infinite : ℕ → Bool
is_infinite n = leb (2 ^ 1024 - 2 ^ 970) n

abbrev pub positive_integer : (flag_name : String) → Option ℕ → Outcome ℕ
positive_integer flag_name none = throw (error (flag_name +++ " must be a positive integer."))
positive_integer flag_name (some n) =
    if n == 0 || is_infinite n
    then throw (error (flag_name +++ " must be a positive integer."))
    else ok n

unfoldable pub parse_positive_integer : (raw_value flag_name : String) → Outcome ℕ
parse_positive_integer raw_value flag_name =
    positive_integer flag_name (parse_int (codes (trim raw_value)))

abbrev pub default_history_days : ℕ
default_history_days = 30

abbrev pub parse_days : Option String → Outcome ℕ
parse_days given = do
  days ← parse_positive_integer (or_else given "30") "--days"
  if ltb default_history_days days then throw (error "--days must be 30 or less.") else ok days

abbrev pub positive_big_int : (flag_name : String) → Option ℤ → Outcome ℕ
positive_big_int flag_name none = throw (error (flag_name +++ " must be an integer."))
positive_big_int flag_name (some (pos (suc n))) = ok (suc n)
positive_big_int flag_name (some _) = throw (error (flag_name +++ " must be greater than zero."))

unfoldable pub parse_positive_big_int : ScriptEnv → (raw_value flag_name : String) → Outcome ℕ
parse_positive_big_int env raw_value flag_name = positive_big_int flag_name (env.big_int raw_value)

-- `/^[A-Z]{2}$/`.
abbrev is_upper_pair : List ℕ → Bool
is_upper_pair (a ∷ b ∷ []) = (leb b'A' a && leb a b'Z') && (leb b'A' b && leb b b'Z')
is_upper_pair _ = false

abbrev pub country_ok : String → Bool
country_ok country = str_eq country "" || is_upper_pair (codes country)

unfoldable pub parse_display_alias : Option String → Outcome String
parse_display_alias given =
    let alias = trim (or_else given "local-e2e-user") in
    if str_eq alias "" then throw (error "--display-alias must not be empty.") else ok alias

unfoldable pub parse_country_code : ScriptEnv → Option String → Outcome String
parse_country_code env given =
    let country = env.to_upper_case (trim (or_else given "JP")) in
    if country_ok country
    then ok country
    else throw (error "--country-code must be empty or two uppercase ASCII letters.")

unfoldable pub parse_options : ScriptEnv → (argv : List String) → Outcome SeedOptions
parse_options env argv = do
  values ← read_arguments argv []
  rpc_url ← value_or_env env values "rpc-url" "SOLANA_RPC_URL"
  program ← value_or_env env values "program-id" "GREEN_REPUTATION_PROGRAM_ID"
  program_id ← env.new_public_key program
  days ← parse_days (get_value "days" values)
  grams ←
      parse_positive_big_int env (or_else (get_value "daily-emission-grams" values) "25000")
        "--daily-emission-grams"
  display_alias ← parse_display_alias (get_value "display-alias" values)
  country_code ← parse_country_code env (get_value "country-code" values)
  user ← value_or_env env values "user-keypair" "LOCAL_E2E_USER_KEYPAIR_PATH"
  admin ← value_or_env env values "admin-keypair" "LOCAL_E2E_ADMIN_KEYPAIR_PATH"
  mint_authority ←
      value_or_env env values "mint-authority-keypair" "LOCAL_E2E_MINT_AUTHORITY_KEYPAIR_PATH"
  ok (record {
    rpc_url = rpc_url;
    program_id = program_id;
    user_keypair_path = user;
    admin_keypair_path = admin;
    mint_authority_keypair_path = mint_authority;
    days = days;
    daily_emission_grams = grams;
    display_alias = display_alias;
    country_code = country_code;
    avatar_uri = trim (or_else (get_value "avatar-uri" values) "");
  })
