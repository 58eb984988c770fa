-- ===== src/Examples/Requests.antt =====
-- The theorems on requests and wallets, with packages that accept everything.
use personal_carbon_footprin.Prelude.{
  ◌≤◌, String, ap, Outcome, select_where, codes, none, some, ◌≡◌, refl, true, [], ◌∷◌, ok, throw,
  trim, find_where, delete_where, arith, split_space,
}
use personal_carbon_footprin.Db.Tables.{migrated}
use personal_carbon_footprin.Db.Statements.{select_nonce}
use personal_carbon_footprin.Db.Store.{find_nonce}
use personal_carbon_footprin.Db.Trace.{enqueue, run_calls}
use personal_carbon_footprin.Ingestion.AuthService.{
  AuthContext, JwtVerify, IssuedDevIngestToken, extract_bearer_token, verify_bearer_token,
  read_token, issue_token, default_subject_of,
}
use personal_carbon_footprin.Ingestion.Siws.{authenticate_siws, replayed_nonce}
use personal_carbon_footprin.Ingestion.Siws.Replay.{authenticate_siws-once}
use personal_carbon_footprin.Ingestion.WalletAuth.{
  WalletAuth, WalletAuthChallenge, Challenges, get_challenge, new_challenge,
  normalize_wallet_address, issue_challenge, check_challenge, accept_challenge, verify_challenge,
  set_challenge, prune_expired_challenges, delete_challenge, format_message, challenge_not_found,
}
use personal_carbon_footprin.Ingestion.WalletAuth.Challenges.{AllCurrent, issue_challenge_lem}
use personal_carbon_footprin.Ingestion.WalletAuth.Single.{
  IsChecked, check_challenge-IsChecked, verify_challenge_lem, issue-verify_challenge,
}
use personal_carbon_footprin.Ingestion.WalletAuth.Interleaved.{verify_challenge_twice}
use personal_carbon_footprin.Ingestion.Orchestration.{
  is_digit, max_safe_integer, normalize_queued_period_key, parse_period_digits, parse_digits,
}
use personal_carbon_footprin.Ingestion.Orchestration.PeriodKeys.{normalize_queued_period_key_lem}
use personal_carbon_footprin.Oracle.Client.{RankThresholdsSnapshot}
use personal_carbon_footprin.Examples.Stores.{a_job}

abbrev pub accept_all : JwtVerify
accept_all =
    λ issuer audience token. ok (record { sub = some "user"; nonce = some "n"; exp = some 99 })

abbrev pub context : AuthContext
context = record {
  issuer = "i";
  audience = "a";
  subject = "user";
  nonce = "n";
  expires_at_ms = 99000;
}

authenticate_siws-once_example :
    let accepted = authenticate_siws accept_all "i" "a" (some "Bearer t") 5 migrated in
    let later = run_calls (enqueue a_job ∷ []) accepted.1 in
    (accepted.0 ≡ ok context)
    × (authenticate_siws accept_all "i" "a" (some "Bearer u") 7 later
        ≡ (throw replayed_nonce, later))
unfolding find_nonce select_nonce find_where extract_bearer_token verify_bearer_token read_token
    split_space
authenticate_siws-once_example =
    authenticate_siws-once accept_all "i" "a" (some "Bearer t") (some "Bearer u") context context 5
      7 (enqueue a_job ∷ []) migrated refl refl refl refl

abbrev service : WalletAuth
service = record {
  issuer = "i";
  challenge_ttl_ms = 300;
  token_issuer = record {
    issuer = "i";
    audience = "a";
    ttl_seconds = 60;
    default_subject = none;
    sign = λ issuer audience subject nonce issued_at expires_at. ok "token";
  };
  to_base58 = λ text. some text;
  to_iso_string = λ ms. "date";
  verify_signature = λ wallet_address message signature. ok true;
}

abbrev challenge : WalletAuthChallenge
challenge = new_challenge service "wallet" "c1" "n1" 100

abbrev stored : Challenges
stored = (issue_challenge service "wallet" "c1" "n1" 100 []).1

normalized : normalize_wallet_address service "wallet" ≡ ok "wallet"
unfolding normalize_wallet_address trim check_challenge get_challenge issue_challenge set_challenge
    prune_expired_challenges new_challenge find_where format_message verify_challenge
    accept_challenge issue_token default_subject_of delete_challenge delete_where
normalized = refl

checked : check_challenge service "c1" "wallet" 200 stored ≡ (ok challenge, stored)
unfolding normalize_wallet_address trim check_challenge get_challenge issue_challenge set_challenge
    prune_expired_challenges new_challenge find_where format_message verify_challenge
    accept_challenge issue_token default_subject_of delete_challenge delete_where
checked = refl

abbrev token : IssuedDevIngestToken
token = record {
  token = "token";
  issuer = "i";
  audience = "a";
  subject = "wallet";
  nonce = "tn";
  expires_at_ms = 60000;
}

verified_once :
    (verify_challenge service "c1" "wallet" "signature" "tn" 200 300 (λ others. others) stored).0
    ≡ ok token
unfolding normalize_wallet_address trim check_challenge get_challenge issue_challenge set_challenge
    prune_expired_challenges new_challenge find_where format_message verify_challenge
    accept_challenge issue_token default_subject_of delete_challenge delete_where
verified_once = refl

issue_challenge_lem_example :
    let (result, after) = issue_challenge service "wallet" "c1" "n1" 100 [] in
    (result ≡ ok challenge) × (get_challenge "c1" after ≡ some challenge) × AllCurrent 100 after
issue_challenge_lem_example =
    issue_challenge_lem service "wallet" "c1" "n1" "wallet" 100 [] normalized

verify_challenge_lem_example :
    (c : WalletAuthChallenge) × IsChecked service "c1" "wallet" 200 stored c
    × (service.verify_signature c.wallet_address c.message "signature" ≡ ok true)
    × (get_challenge "c1"
          (verify_challenge service "c1" "wallet" "signature" "tn" 200 300
            (λ others. others)
            stored).1
        ≡ none)
verify_challenge_lem_example =
    verify_challenge_lem service "c1" "wallet" "signature" "tn" 200 300 (λ others. others) stored
      token verified_once

issue-verify_challenge_example :
    (verify_challenge service "c1" "wallet" "signature" "tn" 200 300 (λ others. others) stored).0
    ≡ issue_token service.token_issuer "tn" 300 (some "wallet")
issue-verify_challenge_example =
    issue-verify_challenge service "wallet" "c1" "n1" "wallet" "signature" "tn" 100 200 300 []
      normalized (omega arith) refl

challenge-IsChecked : IsChecked service "c1" "wallet" 200 stored challenge
challenge-IsChecked =
    check_challenge-IsChecked service "c1" "wallet" 200 stored challenge (ap (λ p. p.0) checked)

verify_challenge_twice_example :
    let verify : String
        → (Challenges → Challenges)
        → Challenges
        → Outcome IssuedDevIngestToken × Challenges =
      λ nonce. verify_challenge service "c1" "wallet" "signature" nonce 200 300 in
    let inner = verify "t1" (λ others. others) stored in
    let outer = verify "t2" (λ others. (verify "t1" (λ more. more) others).1) stored in
    (inner.0 ≡ issue_token service.token_issuer "t1" 300 (some "wallet"))
    × (get_challenge "c1" inner.1 ≡ none)
    × (outer.0 ≡ issue_token service.token_issuer "t2" 300 (some "wallet"))
    × ((verify "t3" (λ others. others) inner.1).0 ≡ throw challenge_not_found)
    × ((verify "t3" (λ others. others) outer.1).0 ≡ throw challenge_not_found)
unfolding new_challenge
verify_challenge_twice_example =
    verify_challenge_twice service "c1" "wallet" "signature" 200 300 "t2" "t1" "t3" stored challenge
      challenge-IsChecked refl

abbrev thresholds : RankThresholdsSnapshot
thresholds = record {
  seedling_min_reduction_grams = 1000;
  sapling_min_reduction_grams = 5000;
  tree_min_reduction_grams = 20000;
  forest_min_reduction_grams = 50000;
}

month_key : normalize_queued_period_key (some "2024-05") ≡ ok 202405
unfolding normalize_queued_period_key parse_period_digits parse_digits select_where
month_key = refl

same_digits : select_where is_digit (codes "2024-05") ≡ select_where is_digit (codes "20x240?5")
unfolding select_where
same_digits = refl

normalize_queued_period_key_lem_example :
    (202405 ≤ max_safe_integer) × (normalize_queued_period_key (some "20x240?5") ≡ ok 202405)
normalize_queued_period_key_lem_example =
    normalize_queued_period_key_lem "2024-05" "20x240?5" 202405 (λ e. cc) (λ e. cc) same_digits
      month_key
