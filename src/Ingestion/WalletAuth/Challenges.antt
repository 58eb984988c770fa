-- ===== src/Ingestion/WalletAuth/Challenges.antt =====
-- backend/src/modules/ingestion/wallet-auth-service.ts: the map of challenges.
use personal_carbon_footprin.Prelude.{
  ℕ, ◌≤◌, String, some, none, ◌≡◌, refl, arith, [], ◌∷◌, All, Bool-cases, inl, inr, ltb, str_eq,
  str_eq_iff, str_eq_refl, find_where, delete_where, ok, exists_where-find_where,
  exists_where-delete_self,
}
use personal_carbon_footprin.Ingestion.WalletAuth.{
  WalletAuth, WalletAuthChallenge, Challenges, has_challenge_id, get_challenge, set_challenge,
  delete_challenge, prune_expired_challenges, normalize_wallet_address, new_challenge,
  issue_challenge,
}

pub get_challenge-delete_self :
    (id : String) (challenges : Challenges)
    → get_challenge id (delete_challenge id challenges) ≡ none
unfolding get_challenge delete_challenge
get_challenge-delete_self id challenges = ground (
  arith,
  exists_where-delete_self (has_challenge_id id) challenges,
  exists_where-find_where (has_challenge_id id) (delete_where (has_challenge_id id) challenges),
)

pub get_challenge-set_self :
    (c : WalletAuthChallenge) (challenges : Challenges)
    → get_challenge c.challenge_id (set_challenge c challenges) ≡ some c
unfolding get_challenge set_challenge find_where
get_challenge-set_self c [] = rw (str_eq_refl c.challenge_id) refl
get_challenge-set_self c (old ∷ rest) = elim (Bool-cases (str_eq old.challenge_id c.challenge_id)) [
  | inl e ↦ rw e (rw (str_eq_refl c.challenge_id) refl)
  | inr e ↦ rw e (rw e (get_challenge-set_self c rest))
]

-- A challenge that can be got has the id that it was got by.
pub get_challenge-id :
    (id : String) (challenges : Challenges) (c : WalletAuthChallenge)
    → get_challenge id challenges ≡ some c
    → c.challenge_id ≡ id
unfolding get_challenge find_where
get_challenge-id id [] c h = cc
get_challenge-id id (old ∷ rest) c h = elim (Bool-cases (str_eq old.challenge_id id)) [
  | inl e ↦ ground (arith, e, h, str_eq_iff old.challenge_id id)
  | inr e ↦ get_challenge-id id rest c (rw e at h)
]

-- No challenge has expired at this time.
abbrev pub AllCurrent : ℕ → Challenges → Type 0
AllCurrent now_ms challenges = All (λ c. now_ms ≤ c.expires_at_ms) challenges

prune-AllCurrent :
    (now_ms : ℕ) (challenges : Challenges)
    → AllCurrent now_ms (prune_expired_challenges now_ms challenges)
unfolding prune_expired_challenges delete_where
prune-AllCurrent now_ms [] = tt
prune-AllCurrent now_ms (c ∷ rest) = elim (Bool-cases (ltb c.expires_at_ms now_ms)) [
  | inl e ↦ rw e (prune-AllCurrent now_ms rest)
  | inr e ↦ rw e (ground (arith, e), prune-AllCurrent now_ms rest)
]

set-AllCurrent :
    (now_ms : ℕ) (c : WalletAuthChallenge) (challenges : Challenges)
    → now_ms ≤ c.expires_at_ms
    → AllCurrent now_ms challenges
    → AllCurrent now_ms (set_challenge c challenges)
unfolding set_challenge
set-AllCurrent now_ms c [] h all = (h, tt)
set-AllCurrent now_ms c (old ∷ rest) h (first, all) =
    elim (Bool-cases (has_challenge_id c.challenge_id old)) [
      | inl e ↦ rw e (h, all)
      | inr e ↦ rw e (first, set-AllCurrent now_ms c rest h all)
    ]

-- Issuing a challenge for a valid address stores it under its id, and leaves no challenge that
-- has expired at that time.
pub issue_challenge_lem :
    (s : WalletAuth) (wallet_address challenge_id nonce address : String) (now_ms : ℕ)
    (challenges : Challenges)
    → normalize_wallet_address s wallet_address ≡ ok address
    → let (result, after) = issue_challenge s wallet_address challenge_id nonce now_ms challenges in
      let challenge = new_challenge s address challenge_id nonce now_ms in
      (result ≡ ok challenge)
      × (get_challenge challenge_id after ≡ some challenge)
      × AllCurrent now_ms after
unfolding issue_challenge new_challenge
issue_challenge_lem s wallet_address challenge_id nonce address now_ms challenges h =
    let challenge = new_challenge s address challenge_id nonce now_ms in
    let kept = prune_expired_challenges now_ms challenges in
    rw (h, issue_challenge)
      (
        refl,
        get_challenge-set_self challenge kept,
        set-AllCurrent now_ms challenge kept (omega arith) (prune-AllCurrent now_ms challenges),
      )
