-- ===== src/Jobs/Payloads/Hashes.antt =====
-- backend/src/modules/jobs/runner.ts: `parseMetadataUriHash`, and the hexadecimal texts that
-- backend/src/modules/ingestion/footprint-orchestration.ts stores for it.
use mathlib.Core.Path.{subst}
use personal_carbon_footprin.Prelude.{
  ℕ, ◌*◌, ◌/◌, ◌%◌, ◌<◌, Option, some, none, ◌≡◌, refl, arith, Bool-cases, Option-cases, inl, inr,
  ◌==◌, List, [], ◌∷◌, All, length, ok, IsByte, hex_digit, to_hex,
}
use personal_carbon_footprin.Jobs.Payloads.{hex_value, hex_bytes, strip_0x, parse_hash_text}

hex_value-bound : (c d : ℕ) → hex_value c ≡ some d → d < 16
unfolding hex_value
hex_value-bound c d h = ground (arith, h)

-- What is read of a text is half as many bytes.
abbrev IsRead : List ℕ → Option (List ℕ) → Type 0
IsRead text none = Unit
IsRead text (some bytes) = (length text ≡ 2 * length bytes) × All IsByte bytes

IsRead-next :
    (high low : ℕ) (rest : List ℕ)
    → IsRead rest (hex_bytes rest)
    → IsRead (high ∷ low ∷ rest) (hex_bytes (high ∷ low ∷ rest))
unfolding hex_bytes
IsRead-next high low rest h = elim (Option-cases (hex_value high)) [
  | inl e ↦ rw (e, hex_bytes) tt
  | inr (a, e) ↦ elim (Option-cases (hex_value low)) [
    | inl f ↦ rw (e, f, hex_bytes) tt
    | inr (b, f) ↦ elim (Option-cases (hex_bytes rest)) [
      | inl g ↦ rw (e, f, g, hex_bytes) tt
      | inr (bytes, g) ↦
          let (len, all) : IsRead rest (some bytes) = subst (IsRead rest) g h in
          rw (e, f, g, hex_bytes)
            (
              omega (arith, len),
              (omega (arith, hex_value-bound high a e, hex_value-bound low b f), all),
            )
    ]
  ]
]

hex_bytes-IsRead : (text : List ℕ) → IsRead text (hex_bytes text)
unfolding hex_bytes
hex_bytes-IsRead [] = (refl, tt)
hex_bytes-IsRead (high ∷ []) = tt
hex_bytes-IsRead (high ∷ low ∷ rest) = IsRead-next high low rest (hex_bytes-IsRead rest)

-- What is parsed is 32 bytes.
pub parse_hash_text-bytes :
    (text bytes : List ℕ) → parse_hash_text text ≡ ok bytes → (length bytes ≡ 32) × All IsByte bytes
unfolding parse_hash_text
parse_hash_text-bytes text bytes h = elim (Option-cases (hex_bytes (strip_0x text))) [
  | inl e ↦ absurd (ground (arith, e, h))
  | inr (found, e) ↦ elim (Bool-cases (length (strip_0x text) == 64)) [
    | inr l ↦ absurd (ground (arith, e, l, h))
    | inl l ↦
        let (len, all) : IsRead (strip_0x text) (some found) =
          subst (IsRead (strip_0x text)) e (hex_bytes-IsRead (strip_0x text)) in
        let same : found ≡ bytes = ground (arith, e, l, h) in
        subst (λ bs. (length bs ≡ 32) × All IsByte bs) same (ground (arith, l, len), all)
  ]
]

hex_value-hex_digit : (d : ℕ) → d < 16 → hex_value (hex_digit d) ≡ some d
unfolding hex_value
hex_value-hex_digit d h = ground (arith, h)

hex_bytes-to_hex : (bytes : List ℕ) → All IsByte bytes → hex_bytes (to_hex bytes) ≡ some bytes
unfolding hex_bytes
hex_bytes-to_hex [] all = refl
hex_bytes-to_hex (b ∷ bytes) (small, all) = ground (
  arith,
  hex_value-hex_digit (b / 16) (omega (arith, small)),
  hex_value-hex_digit (b % 16) (omega arith),
  hex_bytes-to_hex bytes all,
)

length-to_hex : (bytes : List ℕ) → length (to_hex bytes) ≡ 2 * length bytes
length-to_hex [] = refl
length-to_hex (b ∷ bytes) = omega (arith, length-to_hex bytes)

strip_0x-to_hex : (bytes : List ℕ) → All IsByte bytes → strip_0x (to_hex bytes) ≡ to_hex bytes
unfolding strip_0x
strip_0x-to_hex [] all = refl
strip_0x-to_hex (b ∷ bytes) (small, all) = ground arith

-- The 32 bytes of a hash are parsed back from the hexadecimal text that is stored of them.
pub parse_hash_text-to_hex :
    (bytes : List ℕ)
    → length bytes ≡ 32
    → All IsByte bytes
    → parse_hash_text (to_hex bytes) ≡ ok bytes
unfolding parse_hash_text
parse_hash_text-to_hex bytes len all =
    ground (arith, strip_0x-to_hex bytes all, hex_bytes-to_hex bytes all, length-to_hex bytes, len)
