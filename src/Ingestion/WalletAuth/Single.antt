-- ===== src/Ingestion/WalletAuth/Single.antt =====
-- backend/src/modules/ingestion/wallet-auth-service.ts: what a verified challenge proves.
use mathlib.Core.Path.{subst}
use personal_carbon_footprin.Prelude.{
  ℕ, ◌+◌, ◌≤◌, String, some, none, ◌≡◌, refl, sym, ap, ◌∙◌, arith, true, false, Bool-cases,
  Option-cases, inl, inr, ltb, str_eq, str_eq_iff, str_eq_refl, Outcome-cases, ok,
}
use personal_carbon_footprin.Ingestion.AuthService.{IssuedDevIngestToken, issue_token}
use personal_carbon_footprin.Ingestion.WalletAuth.{
  WalletAuth, WalletAuthChallenge, Challenges, get_challenge, delete_challenge,
  normalize_wallet_address, new_challenge, issue_challenge, check_challenge, accept_challenge,
  verify_challenge,
}
use personal_carbon_footprin.Ingestion.WalletAuth.Challenges.{
  get_challenge-delete_self, get_challenge-id, issue_challenge_lem,
}

-- What is known of a challenge that passes the checks before the signature's.
pub record IsChecked (s : WalletAuth) (challenge_id wallet_address : String) (now_ms : ℕ)
    (challenges : Challenges) (c : WalletAuthChallenge) : Type 0 where
  pub stored : get_challenge challenge_id challenges ≡ some c
  pub current : now_ms ≤ c.expires_at_ms
  pub owned : normalize_wallet_address s wallet_address ≡ ok c.wallet_address

check_found :
    (s : WalletAuth) (challenge_id wallet_address address : String) (now_ms : ℕ)
    (challenges : Challenges) (found c : WalletAuthChallenge)
    → normalize_wallet_address s wallet_address ≡ ok address
    → get_challenge challenge_id challenges ≡ some found
    → (check_challenge s challenge_id wallet_address now_ms challenges).0 ≡ ok c
    → IsChecked s challenge_id wallet_address now_ms challenges c
unfolding check_challenge
check_found s challenge_id wallet_address address now_ms challenges found c n g h =
    elim (Bool-cases (ltb found.expires_at_ms now_ms)) [
      | inl e ↦ absurd (ground (arith, n, g, e, h))
      | inr e ↦ elim (Bool-cases (str_eq found.wallet_address address)) [
        | inl k ↦
            let same : found ≡ c = ground (arith, n, g, e, k, h) in
            subst (λ d. IsChecked s challenge_id wallet_address now_ms challenges d) same
              (record {
                stored = g;
                current = ground (arith, e);
                owned = n ∙ ap ok (sym ((str_eq_iff found.wallet_address address).0 k));
              })
        | inr k ↦ absurd (ground (arith, n, g, e, k, h))
      ]
    ]

pub check_challenge-IsChecked :
    (s : WalletAuth) (challenge_id wallet_address : String) (now_ms : ℕ) (challenges : Challenges)
    (c : WalletAuthChallenge)
    → (check_challenge s challenge_id wallet_address now_ms challenges).0 ≡ ok c
    → IsChecked s challenge_id wallet_address now_ms challenges c
unfolding check_challenge
check_challenge-IsChecked s challenge_id wallet_address now_ms challenges c h =
    elim (Outcome-cases (normalize_wallet_address s wallet_address)) [
      | inr (e, n) ↦ absurd (ground (arith, n, h))
      | inl (address, n) ↦ elim (Option-cases (get_challenge challenge_id challenges)) [
        | inl g ↦ absurd (ground (arith, n, g, h))
        | inr (found, g) ↦
            check_found s challenge_id wallet_address address now_ms challenges found c n g h
      ]
    ]

pub accept_challenge_lem :
    (s : WalletAuth) (signature token_nonce : String) (now_ms : ℕ) (c : WalletAuthChallenge)
    (challenges : Challenges) (token : IssuedDevIngestToken)
    → (accept_challenge s signature token_nonce now_ms c challenges).0 ≡ ok token
    → (s.verify_signature c.wallet_address c.message signature ≡ ok true)
      × ((accept_challenge s signature token_nonce now_ms c challenges).1
          ≡ delete_challenge c.challenge_id challenges)
unfolding accept_challenge
accept_challenge_lem s signature token_nonce now_ms c challenges token h =
    elim (Outcome-cases (s.verify_signature c.wallet_address c.message signature)) [
      | inr (e, v) ↦ absurd (ground (arith, v, h))
      | inl (true, v) ↦ (v, rw (v, accept_challenge) refl)
      | inl (false, v) ↦ absurd (ground (arith, v, h))
    ]

-- A token is given only for a challenge that is stored under the id, is not expired, was issued
-- for this wallet, and whose message the signature signs. Afterwards the challenge is gone,
-- whatever other calls did to the map meanwhile.
pub verify_challenge_lem :
    (s : WalletAuth) (challenge_id wallet_address signature token_nonce : String)
    (now_ms later_ms : ℕ) (meanwhile : Challenges → Challenges) (challenges : Challenges)
    (token : IssuedDevIngestToken)
    → let (result, after) =
        verify_challenge s challenge_id wallet_address signature token_nonce now_ms later_ms
          meanwhile challenges in
      result ≡ ok token
      → (c : WalletAuthChallenge) × IsChecked s challenge_id wallet_address now_ms challenges c
        × (s.verify_signature c.wallet_address c.message signature ≡ ok true)
        × (get_challenge challenge_id after ≡ none)
unfolding verify_challenge
verify_challenge_lem s challenge_id wallet_address signature token_nonce now_ms later_ms meanwhile
      challenges token h =
    let checked = check_challenge s challenge_id wallet_address now_ms challenges in
    elim (Outcome-cases checked.0) [
      | inr (e, n) ↦ absurd (ground (arith, n, h))
      | inl (c, n) ↦
          let known =
            check_challenge-IsChecked s challenge_id wallet_address now_ms challenges c n in
          let (valid, gone) =
            accept_challenge_lem s signature token_nonce later_ms c (meanwhile checked.1) token
              (rw (n, verify_challenge) at h) in
          let same = get_challenge-id challenge_id challenges c known.stored in
          (
            c,
            known,
            valid,
            rw (n, verify_challenge)
                (rw (gone, same) (get_challenge-delete_self challenge_id (meanwhile checked.1))),
          )
    ]

-- The wallet that a challenge was issued for gets a token for its signature until the challenge
-- expires.
pub issue-verify_challenge :
    (s : WalletAuth) (wallet_address challenge_id nonce address signature token_nonce : String)
    (issued_ms now_ms later_ms : ℕ) (challenges : Challenges)
    → normalize_wallet_address s wallet_address ≡ ok address
    → now_ms ≤ issued_ms + s.challenge_ttl_ms
    → s.verify_signature address
        (new_challenge s address challenge_id nonce issued_ms).message
        signature
      ≡ ok true
    → (verify_challenge s challenge_id wallet_address signature token_nonce now_ms later_ms
        (λ others. others)
        (issue_challenge s wallet_address challenge_id nonce issued_ms challenges).1).0
      ≡ issue_token s.token_issuer token_nonce later_ms (some address)
unfolding verify_challenge check_challenge accept_challenge new_challenge
issue-verify_challenge s wallet_address challenge_id nonce address signature token_nonce issued_ms
      now_ms later_ms challenges n current valid =
    let (_, stored, _) =
      issue_challenge_lem s wallet_address challenge_id nonce address issued_ms challenges n in
    ground (arith, n, stored, current, valid, str_eq_refl address)
