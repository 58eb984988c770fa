-- ===== src/Db/Trace/Step/Edges.antt =====
-- backend/src/db/index.ts: the life of a job, and what a call does to it.
use mathlib.Core.Option
use mathlib.Core.Path.{subst, subst₂}
use personal_carbon_footprin.Prelude.{
  ℕ, Option, some, none, ◌≡◌, refl, sym, ap, ◌∙◌, ◌≢◌, ◌⊎◌, inl, inr, Bool, true, false, Memᴰ,
  if◌then◌else◌,
}
use personal_carbon_footprin.Storage.{
  OracleJobStatus, pending, running, retryable, failed, completed,
}
use personal_carbon_footprin.Db.Tables.{OracleJobRow, Db}
use personal_carbon_footprin.Db.Views.{status_of}
use personal_carbon_footprin.Db.Invariant.{Inv, select-Memᴰ}

-- The life of a job. `none` is a job that is not there yet.
infix 40 ◌⟶◌
pub data ◌⟶◌ : Option OracleJobStatus → Option OracleJobStatus → Type 0 where
  stay : {s : Option OracleJobStatus} → s ⟶ s
  create : none ⟶ some pending
  first_claim : some pending ⟶ some running
  claim_again : some retryable ⟶ some running
  succeed : some running ⟶ some completed
  retry : some running ⟶ some retryable
  give_up : some running ⟶ some failed

-- What holds of the tables that a call leaves: they are consistent, each job made a step of its
-- life at most, and a job that runs still does, unless the call finishes it.
pub record Goes (finished : Option ℕ) (old new : Db) : Type 0 where
  pub inv : Inv new
  pub step : (id : ℕ) → status_of id old ⟶ status_of id new
  pub keeps :
      (id : ℕ)
      → finished ≢ some id
      → status_of id old ≡ some running
      → status_of id new ≡ some running

pub Goes-stay : {finished : Option ℕ} {db : Db} → Inv db → Goes finished db db
Goes-stay inv = record { inv = inv; step = λ id. stay; keeps = λ id f r. r }

pub stay_of_eq : {s t : Option OracleJobStatus} → t ≡ s → s ⟶ t
stay_of_eq {s} e = subst (λ u. s ⟶ u) (sym e) stay

pub create_step :
    {s t : Option OracleJobStatus} (b : Bool)
    → (b ≡ true → s ≡ none)
    → t ≡ (if b then some pending else s)
    → s ⟶ t
create_step {s} {t} true absent e = subst₂ ◌⟶◌ (sym (absent refl)) (sym e) create
create_step false absent e = stay_of_eq e

pub move_step :
    {s t : Option OracleJobStatus} (b : Bool) (from to : OracleJobStatus)
    → some from ⟶ some to
    → (b ≡ true → s ≡ some from)
    → t ≡ (if b then Option.map (λ _. to) s else s)
    → s ⟶ t
move_step {s} {t} true from to edge at e =
    subst₂ ◌⟶◌ (sym (at refl)) (sym (e ∙ ap (Option.map (λ _. to)) (at refl))) edge
move_step false from to edge at e = stay_of_eq e

pub claim_edge : (s : OracleJobStatus) → (s ≡ pending) ⊎ (s ≡ retryable) → some s ⟶ some running
claim_edge s (inl e) = rw e first_claim
claim_edge s (inr e) = rw e claim_again

pub status_of-same : (a b : ℕ) (db : Db) → a ≡ b → status_of b db ≡ status_of a db
status_of-same a b db e = ap (λ n. status_of n db) (sym e)

pub status_of-Memᴰ :
    (row : OracleJobRow) (db : Db)
    → Inv db
    → Memᴰ row db.oracle_jobs
    → status_of row.id db ≡ some row.status
unfolding status_of
status_of-Memᴰ row db inv m = rw (select-Memᴰ row inv m) refl
