-- ===== src/Ingestion/WalletAuth.antt =====
-- backend/src/modules/ingestion/wallet-auth-service.ts: `InMemoryWalletAuthService`. A key of
-- @solana/web3.js, base64, Ed25519 and the format of dates are parameters. The signature check is
-- awaited, so `verifyChallenge` is two steps, between which other calls may come.
pub mod Challenges
pub mod Single
pub mod Interleaved
use personal_carbon_footprin.Prelude.{
  ℕ, ◌+◌, String, ◌+++◌, Option, some, none, Bool, List, [], ◌∷◌, if◌then◌else◌, ltb, not, str_eq,
  trim, find_where, delete_where, Outcome, ok, throw, JsError, app_error,
}
use personal_carbon_footprin.Ingestion.AuthService.{TokenIssuer, IssuedDevIngestToken, issue_token}

pub record WalletAuthChallenge : Type 0 where
  pub challenge_id : String
  pub wallet_address : String
  pub nonce : String
  pub issued_at_ms : ℕ
  pub expires_at_ms : ℕ
  pub message : String

-- The service's options, and what it calls of other packages.
pub record WalletAuth : Type 0 where
  pub issuer : String
  pub challenge_ttl_ms : ℕ
  pub token_issuer : TokenIssuer
  -- `new PublicKey(text).toBase58()`, `none` where it throws
  pub to_base58 : String → Option String
  pub to_iso_string : ℕ → String
  -- `verifyWalletSignature` of a wallet, a message and a signature in base64
  pub verify_signature : (wallet_address message signature : String) → Outcome Bool

-- `Map.get`, `Map.set` and `Map.delete`; the key of a challenge is its id.
abbrev pub Challenges : Type 0
Challenges = List WalletAuthChallenge

abbrev pub has_challenge_id : String → WalletAuthChallenge → Bool
has_challenge_id id c = str_eq c.challenge_id id

unfoldable pub get_challenge : String → Challenges → Option WalletAuthChallenge
get_challenge id challenges = find_where (has_challenge_id id) challenges

unfoldable pub delete_challenge : String → Challenges → Challenges
delete_challenge id challenges = delete_where (has_challenge_id id) challenges

unfoldable pub set_challenge : WalletAuthChallenge → Challenges → Challenges
set_challenge c [] = c ∷ []
set_challenge c (old ∷ rest) =
    let later = old ∷ set_challenge c rest in
    if has_challenge_id c.challenge_id old then c ∷ rest else later

unfoldable pub prune_expired_challenges : ℕ → Challenges → Challenges
prune_expired_challenges now_ms challenges =
    delete_where (λ c. ltb c.expires_at_ms now_ms) challenges

unfoldable pub normalize_wallet_address : WalletAuth → String → Outcome String
normalize_wallet_address s wallet_address = elim (s.to_base58 (trim wallet_address)) [
  | none ↦
      throw
        (app_error "invalid_wallet_address" 400 "Wallet address must be a valid Solana public key.")
  | some address ↦ ok address
]

unfoldable pub format_message : WalletAuth → WalletAuthChallenge → String
format_message s c =
    "Green Reputation Sign-In With Solana\nIssuer: "
    +++ s.issuer
    +++ "\nWallet: "
    +++ c.wallet_address
    +++ "\nNonce: "
    +++ c.nonce
    +++ "\nChallenge ID: "
    +++ c.challenge_id
    +++ "\nIssued At: "
    +++ s.to_iso_string c.issued_at_ms
    +++ "\nExpires At: "
    +++ s.to_iso_string c.expires_at_ms

-- The challenge that is issued, for a wallet address that is normalized.
unfoldable pub new_challenge :
    WalletAuth → (wallet_address challenge_id nonce : String) → ℕ → WalletAuthChallenge
new_challenge s wallet_address challenge_id nonce issued_at_ms =
    let challenge : WalletAuthChallenge = record {
      challenge_id = challenge_id;
      wallet_address = wallet_address;
      nonce = nonce;
      issued_at_ms = issued_at_ms;
      expires_at_ms = issued_at_ms + s.challenge_ttl_ms;
      message = "";
    } in
    record challenge { message = format_message s challenge }

-- `issueChallenge`, with the random ids that it draws and the time that it reads.
unfoldable pub issue_challenge :
    WalletAuth
    → (wallet_address challenge_id nonce : String) → ℕ
    → Challenges
    → Outcome WalletAuthChallenge × Challenges
issue_challenge s wallet_address challenge_id nonce issued_at_ms challenges =
    elim (normalize_wallet_address s wallet_address) [
      | throw e ↦ (throw e, challenges)
      | ok address ↦
          let challenge = new_challenge s address challenge_id nonce issued_at_ms in
          (ok challenge, set_challenge challenge (prune_expired_challenges issued_at_ms challenges))
    ]

abbrev pub challenge_not_found : JsError
challenge_not_found =
    app_error "wallet_auth_challenge_not_found" 404 "Wallet auth challenge was not found."

abbrev pub challenge_expired : JsError
challenge_expired =
    app_error "wallet_auth_challenge_expired" 401 "Wallet auth challenge has expired."

abbrev pub wallet_mismatch : JsError
wallet_mismatch =
    app_error "wallet_auth_wallet_mismatch" 401
      "Wallet address does not match the issued auth challenge."

abbrev pub signature_invalid : JsError
signature_invalid =
    app_error "wallet_auth_signature_invalid" 401 "Wallet signature verification failed."

-- `verifyChallenge` up to its `await`: the challenge whose message is to be signed.
unfoldable pub check_challenge :
    WalletAuth
    → (challenge_id wallet_address : String) → ℕ
    → Challenges
    → Outcome WalletAuthChallenge × Challenges
check_challenge s challenge_id wallet_address now_ms challenges =
    elim (normalize_wallet_address s wallet_address) [
      | throw e ↦ (throw e, challenges)
      | ok address ↦ elim (get_challenge challenge_id challenges) [
        | none ↦ (throw challenge_not_found, challenges)
        | some c ↦
            if ltb c.expires_at_ms now_ms
            then (throw challenge_expired, delete_challenge c.challenge_id challenges)
            else if str_eq c.wallet_address address
            then (ok c, challenges)
            else (throw wallet_mismatch, challenges)
      ]
    ]

-- The rest of `verifyChallenge`. The address of the challenge is the one that was given.
unfoldable pub accept_challenge :
    WalletAuth
    → (signature token_nonce : String) → ℕ
    → WalletAuthChallenge
    → Challenges
    → Outcome IssuedDevIngestToken × Challenges
accept_challenge s signature token_nonce now_ms c challenges =
    elim (s.verify_signature c.wallet_address c.message signature) [
      | throw e ↦ (throw e, challenges)
      | ok verified ↦
          if verified
          then (
            issue_token s.token_issuer token_nonce now_ms (some c.wallet_address),
            delete_challenge c.challenge_id challenges,
          )
          else (throw signature_invalid, challenges)
    ]

-- `verifyChallenge`, where `meanwhile` is what other calls do while the signature is checked.
unfoldable pub verify_challenge :
    WalletAuth
    → (challenge_id wallet_address signature token_nonce : String) → (now_ms later_ms : ℕ)
    → (meanwhile : Challenges → Challenges) → Challenges
    → Outcome IssuedDevIngestToken × Challenges
verify_challenge s challenge_id wallet_address signature token_nonce now_ms later_ms meanwhile
      challenges =
    let (checked, after) = check_challenge s challenge_id wallet_address now_ms challenges in
    elim checked [
      | throw e ↦ (throw e, after)
      | ok c ↦ accept_challenge s signature token_nonce later_ms c (meanwhile after)
    ]
