-- ===== src/Frontend/Flow/Dashboard.antt =====
-- frontend/src/lib/domain/state.ts: what the dashboard shows of a wallet and of its stored snapshot. The
-- names of adapters.ts are kept; the log of the input is left out.
use mathlib.Core.Option
use personal_carbon_footprin.Prelude.{
  ℕ, ℤ, pos, String, Option, none, some, List, [], ◌≡◌, ◌≢◌, refl, if◌then◌else◌, or_else, str_eq,
  str_eq_iff, arith,
}
use personal_carbon_footprin.Lca.Numbers.{Numbers}
use personal_carbon_footprin.Lca.Kinds.{CanonicalDataSourceKind, hybrid}
use personal_carbon_footprin.Metadata.{PublicProfileSnapshot}
use personal_carbon_footprin.Ingestion.Orchestration.{Rank}
use personal_carbon_footprin.Frontend.Flow.{
  VerifiedSubmissionSnapshot, LocalStorage, WalletProfileSnapshot,
}
use personal_carbon_footprin.Frontend.Flow.Stored.{
  Json, JsonCodec, object, snapshot_fields, read_stored_verified_snapshot,
  persist_verified_snapshot,
}
use personal_carbon_footprin.Frontend.Flow.Snapshots.{read_stored_verified_snapshot-persist}

data DashboardHydrationSource : Type 0 where
  session wallet metadata composed : DashboardHydrationSource

record DashboardReadModel (N : Type 0) : Type 0 where
  pub wallet_address : Option String
  pub public_profile : Option PublicProfileSnapshot
  pub rank : Option Rank
  pub total_emissions_kg_co2e : N
  pub total_reductions_kg_co2e : N
  pub pending_reward_lamports : ℤ
  pub latest_data_hash : Option String
  pub latest_metadata_uri : Option String
  pub latest_metadata_version : Option ℕ
  pub latest_data_source_kind : Option CanonicalDataSourceKind
  pub latest_categories : List String
  pub hydration_source : DashboardHydrationSource

-- A text that is empty is false in JavaScript, and so not taken over.
abbrev non_empty : String → Option String
non_empty text = if str_eq text "" then none else some text

module _ {N : Type 0} (ops : Numbers N) where
  -- `??` on what a wallet may lack.
  abbrev or_zero : Option N → N
  or_zero value = or_else value (ops.literal 0 0)

  -- Without a snapshot.
  abbrev of_wallet : Option (WalletProfileSnapshot N) → DashboardReadModel N
  of_wallet none = record {
    wallet_address = none;
    public_profile = none;
    rank = none;
    total_emissions_kg_co2e = ops.literal 0 0;
    total_reductions_kg_co2e = ops.literal 0 0;
    pending_reward_lamports = pos 0;
    latest_data_hash = none;
    latest_metadata_uri = none;
    latest_metadata_version = none;
    latest_data_source_kind = none;
    latest_categories = [];
    hydration_source = session;
  }
  of_wallet (some w) = record {
    wallet_address = non_empty w.wallet_address;
    public_profile = w.public_profile;
    rank = w.rank;
    total_emissions_kg_co2e = or_zero w.total_emissions_kg_co2e;
    total_reductions_kg_co2e = or_zero w.total_reductions_kg_co2e;
    pending_reward_lamports = or_else w.pending_reward_lamports (pos 0);
    latest_data_hash = none;
    latest_metadata_uri = none;
    latest_metadata_version = w.metadata_version;
    latest_data_source_kind = none;
    latest_categories = [];
    hydration_source = wallet;
  }

  unfoldable compose_dashboard_read_model :
      Option (WalletProfileSnapshot N)
      → Option (VerifiedSubmissionSnapshot N)
      → DashboardReadModel N
  compose_dashboard_read_model w none = of_wallet w
  compose_dashboard_read_model w (some s) = record (of_wallet w) {
    total_emissions_kg_co2e = s.total_emissions_kg_co2e;
    latest_data_hash = non_empty s.data_hash;
    latest_metadata_uri = non_empty s.metadata_uri;
    latest_metadata_version = some s.metadata_version;
    latest_data_source_kind = if str_eq s.data_hash "" then none else some hybrid;
    latest_categories = s.categories;
    hydration_source = elim w [ none ↦ session | some _ ↦ composed ];
  }

  -- The dashboard that is composed after a snapshot is persisted, of the wallet's profile if there is one,
  -- shows the emissions, the hash and the version of that snapshot, if it is written as a text that is not
  -- empty and is parsed as the object that was written, which `view` takes for the snapshot, and the
  -- wallet's address and the hash are not empty.
  compose_dashboard_read_model-persist :
      (codec : JsonCodec N) (view : Json N → VerifiedSubmissionSnapshot N)
      → (w : Option (WalletProfileSnapshot N)) (address : String)
      → (snapshot : VerifiedSubmissionSnapshot N) (storage : LocalStorage)
      → let value = object (snapshot_fields ops snapshot) in
        codec.parse (codec.stringify value) ≡ some value
        → codec.stringify value ≢ ""
        → view value ≡ snapshot
        → address ≢ ""
        → snapshot.data_hash ≢ ""
        → let stored = persist_verified_snapshot codec ops address snapshot storage in
          let dashboard =
            compose_dashboard_read_model w
              (Option.map view (read_stored_verified_snapshot codec (some address) stored)) in
          (dashboard.total_emissions_kg_co2e ≡ snapshot.total_emissions_kg_co2e)
          × (dashboard.latest_data_hash ≡ some snapshot.data_hash)
          × (dashboard.latest_metadata_version ≡ some snapshot.metadata_version)
  unfolding compose_dashboard_read_model
  compose_dashboard_read_model-persist codec view w address snapshot storage parses written viewed
        named hashed =
      let read =
        (read_stored_verified_snapshot-persist ops codec address "" snapshot storage parses written
          named named).0 in
      let shown : non_empty snapshot.data_hash ≡ some snapshot.data_hash =
        ground (arith, hashed, str_eq_iff snapshot.data_hash "") in
      rw (read, viewed) (refl, shown, refl)
