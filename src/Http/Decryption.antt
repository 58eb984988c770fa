-- ===== src/Http/Decryption.antt =====
-- backend/src/modules/ingestion/decryption-service.ts and encrypted-request.ts. Node's cryptography and
-- `JSON.parse` are parameters; what throws there is `none`.
use personal_carbon_footprin.Prelude.{
  ℕ, String, Option, none, some, Bool, true, List, [], ◌∷◌, if◌then◌else◌, ◌&&◌, ◌||◌, not, leb,
  ◌==◌, str_eq, codes, length, Outcome, ok, throw, JsError, app_error, ◌≡◌, arith, inl, inr,
  Bool-cases, Option-cases, str_eq_iff,
}

pub record EncryptedRequest : Type 0 where
  pub encrypted_session_key : String
  pub encrypted_payload : String
  pub iv : String
  pub auth_tag : String
  pub data_hash : String

-- On values of the type `P`.
pub record Cryptography (P : Type 0) : Type 0 where
  -- `crypto.privateDecrypt` with the service's key, of a text in base64
  pub private_decrypt : String → Option (List ℕ)
  -- `update` and `final` of the AES-256-GCM decipher, which checks the tag
  pub decipher : (session_key : List ℕ) (iv auth_tag payload : String) → Option String
  -- the SHA-256 digest in hexadecimal digits
  pub sha256_hex : String → String
  pub json_parse : String → Option P

abbrev is_hex_digit : ℕ → Bool
is_hex_digit c = leb b'0' c && leb c b'9' || leb b'a' c && leb c b'f' || leb b'A' c && leb c b'F'

abbrev all_hex : List ℕ → Bool
all_hex [] = true
all_hex (c ∷ text) = is_hex_digit c && all_hex text

-- `encryptedRequestSchema` accepts the request.
unfoldable pub encrypted_request_ok : EncryptedRequest → Bool
encrypted_request_ok r =
    not (str_eq r.encrypted_session_key "")
    && not (str_eq r.encrypted_payload "")
    && not (str_eq r.iv "")
    && not (str_eq r.auth_tag "")
    && length (codes r.data_hash) == 64
    && all_hex (codes r.data_hash)

abbrev pub undecryptable : JsError
undecryptable =
    app_error "invalid_encrypted_request" 400 "Encrypted request could not be decrypted."

abbrev pub invalid_payload_hash : JsError
invalid_payload_hash =
    app_error "invalid_payload_hash" 400 "Encrypted payload integrity verification failed."

-- What `none` stands for is thrown, and caught at the end.
abbrev or_undecryptable : {A : Type 0} → Option A → Outcome A
or_undecryptable none = throw undecryptable
or_undecryptable (some a) = ok a

module _ {P : Type 0} (crypto : Cryptography P) where
  -- The text of a request.
  unfoldable pub decipher_request : EncryptedRequest → Option String
  decipher_request r = elim (crypto.private_decrypt r.encrypted_session_key) [
    | none ↦ none
    | some session_key ↦ crypto.decipher session_key r.iv r.auth_tag r.encrypted_payload
  ]

  unfoldable pub decrypt_request : EncryptedRequest → Outcome P
  decrypt_request r = elim (decipher_request r) [
    | none ↦ throw undecryptable
    | some text ↦
        if str_eq (crypto.sha256_hex text) r.data_hash
        then or_undecryptable (crypto.json_parse text)
        else throw invalid_payload_hash
  ]

  -- What is decrypted is the value of a text that has the hash of the request.
  pub decrypt_request-ok :
      (r : EncryptedRequest) (p : P)
      → decrypt_request r ≡ ok p
      → (text : String) × (decipher_request r ≡ some text)
        × (crypto.sha256_hex text ≡ r.data_hash)
        × (crypto.json_parse text ≡ some p)
  unfolding decrypt_request
  decrypt_request-ok r p h = elim (Option-cases (decipher_request r)) [
    | inl e ↦ absurd (ground (arith, e, h))
    | inr (text, e) ↦ elim (Bool-cases (str_eq (crypto.sha256_hex text) r.data_hash)) [
      | inr wrong ↦ absurd (ground (arith, e, wrong, h))
      | inl right ↦ elim (Option-cases (crypto.json_parse text)) [
        | inl f ↦ absurd (ground (arith, e, right, f, h))
        | inr (q, f) ↦ (
          text,
          e,
          (str_eq_iff (crypto.sha256_hex text) r.data_hash).0 right,
          ground (arith, e, right, f, h),
        )
      ]
    ]
  ]
