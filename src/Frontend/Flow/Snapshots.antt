-- ===== src/Frontend/Flow/Snapshots.antt =====
-- frontend/src/lib/domain/state.ts: the stored snapshot of a wallet.
use text.Mathlib.TextLemmas.{append_cancel_left}
use personal_carbon_footprin.Prelude.{
  String, Option, some, List, true, false, [], ◌∷◌, ◌≡◌, ◌≢◌, refl, inl, inr, arith, Bool-cases,
  str_eq, str_eq_iff, str_eq_refl,
}
use personal_carbon_footprin.Metadata.{set_object}
use personal_carbon_footprin.Lca.Numbers.{Numbers}
use personal_carbon_footprin.Frontend.Flow.{
  VerifiedSubmissionSnapshot, LocalStorage, get_item, create_verified_snapshot_storage_key,
}
use personal_carbon_footprin.Frontend.Flow.Stored.{
  Json, JsonCodec, object, get_field, all_texts, text_items, is_verified_submission_snapshot,
  snapshot_fields, read_stored_verified_snapshot, persist_verified_snapshot,
}
use personal_carbon_footprin.Frontend.Flow.Shapes.{
  IsSnapshot, read_stored_verified_snapshot-IsSnapshot,
}

get_item-set_self :
    (key value : String) (items : LocalStorage)
    → get_item key (set_object key value items) ≡ some value
unfolding get_item set_object
get_item-set_self key value [] = rw (str_eq_refl key) refl
get_item-set_self key value ((other, old) ∷ items) = elim (Bool-cases (str_eq other key)) [
  | inl e ↦ rw (e, get_item) (rw e refl)
  | inr e ↦ rw (e, get_item) (rw e (get_item-set_self key value items))
]

get_item-set_other :
    (key other value : String) (items : LocalStorage)
    → str_eq key other ≡ false
    → get_item other (set_object key value items) ≡ get_item other items
unfolding get_item set_object
get_item-set_other key other value [] differs = rw differs refl
get_item-set_other key other value ((k, old) ∷ items) differs = elim (Bool-cases (str_eq k key)) [
  | inl e ↦
      let apart : str_eq k other ≡ false = rw ((str_eq_iff k key).0 e) differs in
      rw (e, get_item) (rw apart refl)
  | inr e ↦ elim (Bool-cases (str_eq k other)) [
    | inl f ↦ rw (e, get_item) (rw f refl)
    | inr f ↦ rw (e, get_item) (rw f (get_item-set_other key other value items differs))
  ]
]

keys-apart :
    (a b : String)
    → a ≢ b
    → str_eq (create_verified_snapshot_storage_key a) (create_verified_snapshot_storage_key b)
      ≡ false
keys-apart a b differs =
    let key = create_verified_snapshot_storage_key a in
    elim (Bool-cases (str_eq key (create_verified_snapshot_storage_key b))) [
      | inr e ↦ e
      | inl e ↦ absurd (
          differs
            (append_cancel_left "green-reputation:verified-snapshot:" a b ((str_eq_iff key _).0 e)))
    ]

module _ {N : Type 0} (ops : Numbers N) where
  all_texts-text_items : (texts : List String) → all_texts {N = N} (text_items texts) ≡ true
  all_texts-text_items [] = refl
  all_texts-text_items (s ∷ texts) = all_texts-text_items texts

  -- What a snapshot is stored as passes the check.
  is_verified-snapshot_fields :
      (s : VerifiedSubmissionSnapshot N)
      → is_verified_submission_snapshot (object (snapshot_fields ops s)) ≡ true
  unfolding is_verified_submission_snapshot get_field
  is_verified-snapshot_fields s = rw (all_texts-text_items s.categories) refl

  module _ (codec : JsonCodec N) where
    -- The snapshot that is persisted for a wallet is read back for it, as the object that was written, which
    -- passes the check of what is read; what is read for each other wallet stays what it was; and whatever
    -- is stored, what is read for any wallet is an object with the fields of a snapshot. The text that the
    -- object is written as must not be empty, and must be parsed as the object.
    pub read_stored_verified_snapshot-persist :
        (wallet other : String) (snapshot : VerifiedSubmissionSnapshot N) (storage : LocalStorage)
        → let value = object (snapshot_fields ops snapshot) in
          codec.parse (codec.stringify value) ≡ some value
          → codec.stringify value ≢ ""
          → wallet ≢ ""
          → wallet ≢ other
          → let after = persist_verified_snapshot codec ops wallet snapshot storage in
            (read_stored_verified_snapshot codec (some wallet) after ≡ some value)
            × (read_stored_verified_snapshot codec (some other) after
                ≡ read_stored_verified_snapshot codec (some other) storage)
            × ((any : Option String) (read : Json N)
                → read_stored_verified_snapshot codec any after ≡ some read
                → IsSnapshot read)
    unfolding persist_verified_snapshot read_stored_verified_snapshot
    read_stored_verified_snapshot-persist wallet other snapshot storage parsed written full
          differs =
        let key = create_verified_snapshot_storage_key wallet in
        let raw = codec.stringify (object (snapshot_fields ops snapshot)) in
        let named : str_eq wallet "" ≡ false = ground (arith, full, str_eq_iff wallet "") in
        let filled : str_eq raw "" ≡ false = ground (arith, written, str_eq_iff raw "") in
        (
          rw (named, get_item-set_self key raw storage, filled)
              (rw parsed (rw (is_verified-snapshot_fields snapshot) refl)),
          rw
              (get_item-set_other key (create_verified_snapshot_storage_key other) raw storage
                (keys-apart wallet other differs))
              refl,
          λ any read h. read_stored_verified_snapshot-IsSnapshot codec any _ read h,
        )
