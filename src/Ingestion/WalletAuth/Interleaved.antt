-- ===== src/Ingestion/WalletAuth/Interleaved.antt =====
-- backend/src/modules/ingestion/wallet-auth-service.ts: two requests with one challenge.
use mathlib.Core.Path.{subst}
use personal_carbon_footprin.Prelude.{
  ℕ, ltb, String, some, none, ◌≡◌, refl, sym, ap, ◌∙◌, true, false, Outcome, ok, throw, arith,
  str_eq_refl,
}
use personal_carbon_footprin.Ingestion.AuthService.{IssuedDevIngestToken, issue_token}
use personal_carbon_footprin.Ingestion.WalletAuth.{
  WalletAuth, WalletAuthChallenge, Challenges, normalize_wallet_address, get_challenge,
  delete_challenge, check_challenge, challenge_not_found, accept_challenge, verify_challenge,
}
use personal_carbon_footprin.Ingestion.WalletAuth.Challenges.{
  get_challenge-delete_self, get_challenge-id,
}
use personal_carbon_footprin.Ingestion.WalletAuth.Single.{IsChecked}

module _ (s : WalletAuth) (challenge_id wallet_address signature : String)
    (now_ms later_ms : ℕ) where
  checked-ok :
      (challenges : Challenges) (c : WalletAuthChallenge)
      → IsChecked s challenge_id wallet_address now_ms challenges c
      → check_challenge s challenge_id wallet_address now_ms challenges ≡ (ok c, challenges)
  unfolding check_challenge
  checked-ok challenges c known =
      let current : ltb c.expires_at_ms now_ms ≡ false = ground (arith, known.current) in
      rw (known.owned, check_challenge)
        (rw (known.stored, check_challenge) (rw (current, str_eq_refl c.wallet_address) refl))

  accepted-ok :
      (nonce : String) (challenges : Challenges) (c : WalletAuthChallenge)
      → s.verify_signature c.wallet_address c.message signature ≡ ok true
      → accept_challenge s signature nonce later_ms c challenges ≡ (
        issue_token s.token_issuer nonce later_ms (some c.wallet_address),
        delete_challenge c.challenge_id challenges,
      )
  unfolding accept_challenge
  accepted-ok nonce challenges c valid = rw (valid, accept_challenge) refl

  -- What a request comes to once its challenge is checked.
  abbrev finished :
      String
      → (Challenges → Challenges)
      → Outcome WalletAuthChallenge × Challenges
      → Outcome IssuedDevIngestToken × Challenges
  finished nonce meanwhile (checked, after) = elim checked [
    | throw e ↦ (throw e, after)
    | ok c ↦ accept_challenge s signature nonce later_ms c (meanwhile after)
  ]

  -- A request with a challenge that is stored, current, of its wallet and signed gets a token, whatever others
  -- do to the map while the signature is checked.
  verified-ok :
      (nonce : String) (meanwhile : Challenges → Challenges) (challenges : Challenges)
      (c : WalletAuthChallenge)
      → IsChecked s challenge_id wallet_address now_ms challenges c
      → s.verify_signature c.wallet_address c.message signature ≡ ok true
      → verify_challenge s challenge_id wallet_address signature nonce now_ms later_ms meanwhile
          challenges
        ≡ (
          issue_token s.token_issuer nonce later_ms (some c.wallet_address),
          delete_challenge c.challenge_id (meanwhile challenges),
        )
  unfolding verify_challenge
  verified-ok nonce meanwhile challenges c known valid =
      ap (finished nonce meanwhile) (checked-ok challenges c known)
      ∙ accepted-ok nonce (meanwhile challenges) c valid

  missing :
      (nonce : String) (meanwhile : Challenges → Challenges) (challenges : Challenges)
      (address : String)
      → normalize_wallet_address s wallet_address ≡ ok address
      → get_challenge challenge_id challenges ≡ none
      → (verify_challenge s challenge_id wallet_address signature nonce now_ms later_ms meanwhile
          challenges).0
        ≡ throw challenge_not_found
  unfolding verify_challenge check_challenge
  missing nonce meanwhile challenges address named gone = rw (verify_challenge, named, gone) refl

  -- Let a challenge be stored, current, issued for this wallet and signed. Of two requests with it, one of which
  -- runs as a whole while the signature of the other is checked, both get a token, though the inner one
  -- has deleted the challenge when the outer one is accepted. A third request, after either, is refused since
  -- there is no such challenge.
  pub verify_challenge_twice :
      (outer_nonce inner_nonce third_nonce : String) (challenges : Challenges)
      (c : WalletAuthChallenge)
      → IsChecked s challenge_id wallet_address now_ms challenges c
      → s.verify_signature c.wallet_address c.message signature ≡ ok true
      → let verify : String
            → (Challenges → Challenges)
            → Challenges
            → Outcome IssuedDevIngestToken × Challenges =
          λ nonce. verify_challenge s challenge_id wallet_address signature nonce now_ms later_ms in
        let inner = verify inner_nonce (λ others. others) challenges in
        let outer =
          verify outer_nonce (λ others. (verify inner_nonce (λ more. more) others).1) challenges in
        (inner.0 ≡ issue_token s.token_issuer inner_nonce later_ms (some c.wallet_address))
        × (get_challenge challenge_id inner.1 ≡ none)
        × (outer.0 ≡ issue_token s.token_issuer outer_nonce later_ms (some c.wallet_address))
        × ((verify third_nonce (λ others. others) inner.1).0 ≡ throw challenge_not_found)
        × ((verify third_nonce (λ others. others) outer.1).0 ≡ throw challenge_not_found)
  verify_challenge_twice outer_nonce inner_nonce third_nonce challenges c known valid =
      let same = get_challenge-id challenge_id challenges c known.stored in
      let inner = verified-ok inner_nonce (λ others. others) challenges c known valid in
      let meanwhile : Challenges → Challenges = λ others.
        (verify_challenge s challenge_id wallet_address signature inner_nonce now_ms later_ms
          (λ more. more) others).1 in
      let outer = verified-ok outer_nonce meanwhile challenges c known valid in
      let gone : (rest : Challenges)
          → get_challenge challenge_id (delete_challenge c.challenge_id rest) ≡ none =
        λ rest. rw same (get_challenge-delete_self challenge_id rest) in
      let refused = λ (rest : Challenges).
        missing third_nonce (λ others. others) (delete_challenge c.challenge_id rest)
          c.wallet_address known.owned (gone rest) in
      (
        ap (λ p. p.0) inner,
        ap (λ p. get_challenge challenge_id p.1) inner ∙ gone challenges,
        ap (λ p. p.0) outer,
        subst
            (λ p.
              (verify_challenge s challenge_id wallet_address signature third_nonce now_ms later_ms
                (λ others. others) p.1).0
              ≡ throw challenge_not_found)
            (sym inner) (refused challenges),
        subst
            (λ p.
              (verify_challenge s challenge_id wallet_address signature third_nonce now_ms later_ms
                (λ others. others) p.1).0
              ≡ throw challenge_not_found)
            (sym outer) (refused (meanwhile challenges)),
      )
