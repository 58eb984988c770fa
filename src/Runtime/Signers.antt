-- ===== src/Runtime/Signers.antt =====
-- backend/src/runtime/create-runtime.ts: `loadRuntimeSigners` and what it calls. JSON and the keypairs of
-- @solana/web3.js are parameters.
use personal_carbon_footprin.Prelude.{
  ℕ, ◌%◌, String, ◌+++◌, Option, none, some, List, map, if◌then◌else◌, ◌==◌, str_eq, length,
  Outcome, ◌>>=◌, ok, throw, error, ℤ, pos, negsuc, ◌-◌,
}
use personal_carbon_footprin.Runtime.Env.{AppEnv}

-- What `JSON.parse` gives for a secret key: an array of integers, or another value.
pub data ParsedJson : Type 0 where
  integers : List ℤ → ParsedJson
  other_value : ParsedJson

pub record Keypairs (K : Type 0) : Type 0 where
  pub json_parse : String → Option ParsedJson
  pub from_secret_key : List ℕ → Option K

pub record RuntimeSigners (K : Type 0) : Type 0 where
  pub verifier : K
  pub metadata_authority : Option K
  pub admin : Option K

-- An element of `Uint8Array.from`: the integer modulo 256.
unfoldable pub to_byte : ℤ → ℕ
to_byte (pos n) = n % 256
to_byte (negsuc n) = 255 - n % 256

module _ {K : Type 0} (keypairs : Keypairs K) where
  abbrev or_invalid : (name : String) → Option K → Outcome K
  or_invalid name none =
      throw (error (name +++ " could not be converted into a valid Solana keypair."))
  or_invalid name (some k) = ok k

  abbrev parse_value : (name : String) → Option ParsedJson → Outcome K
  parse_value name none =
      throw (error (name +++ " must be valid JSON containing a 64-byte secret key array."))
  parse_value name (some other_value) =
      throw (error (name +++ " must be a JSON array of 64 integers."))
  parse_value name (some (integers entries)) =
      if length entries == 64
      then or_invalid name (keypairs.from_secret_key (map to_byte entries))
      else throw (error (name +++ " must be a JSON array of 64 integers."))

  unfoldable pub parse_keypair : (name value : String) → Outcome K
  parse_keypair name value = parse_value name (keypairs.json_parse value)

  abbrev required : (name : String) → Outcome K
  required name =
      throw (error (name +++ " is required to assemble the configured backend runtime."))

  unfoldable pub parse_required_keypair : (name : String) → Option String → Outcome K
  parse_required_keypair name none = required name
  parse_required_keypair name (some value) =
      if str_eq value "" then required name else parse_keypair name value

  abbrev as_some : Outcome K → Outcome (Option K)
  as_some (throw e) = throw e
  as_some (ok k) = ok (some k)

  unfoldable pub parse_optional_keypair : (name : String) → Option String → Outcome (Option K)
  parse_optional_keypair name none = ok none
  parse_optional_keypair name (some value) =
      if str_eq value "" then ok none else as_some (parse_keypair name value)

  unfoldable pub load_runtime_signers : AppEnv → Outcome (RuntimeSigners K)
  load_runtime_signers e = do
    metadata_authority ←
        (if e.local_e2e_mode
          then as_some (
              parse_required_keypair "SOLANA_METADATA_AUTHORITY_SECRET_KEY_JSON"
                e.solana_metadata_authority_secret_key_json)
          else parse_optional_keypair "SOLANA_METADATA_AUTHORITY_SECRET_KEY_JSON"
              e.solana_metadata_authority_secret_key_json)
    admin ← parse_optional_keypair "SOLANA_ADMIN_SECRET_KEY_JSON" e.solana_admin_secret_key_json
    verifier ←
        parse_required_keypair "SOLANA_VERIFIER_SECRET_KEY_JSON" e.solana_verifier_secret_key_json
    ok (record { verifier = verifier; metadata_authority = metadata_authority; admin = admin })
