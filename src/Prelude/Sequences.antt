-- ===== src/Prelude/Sequences.antt =====
-- A table whose rows have an AUTOINCREMENT id: the ids grow from row to row, up to the last id
-- that was given.
use Prim.Native.Nat.{ℕ, suc, ◌≤◌, ◌<◌}
use mathlib.Core.Path.{◌≡◌, refl}
use mathlib.Core.Bool.{Bool}
use mathlib.Core.Option.{none, some}
use mathlib.Core.List.{List, [], ◌∷◌, ◌++◌, Memᴰ}
use native.Mathlib.Omega.{arith}
use personal_carbon_footprin.Prelude.Tests.{◌==◌, ==_refl}
use personal_carbon_footprin.Prelude.Lists.{find_where, update_where}

module _ {A : Type 0} (id_of : A → ℕ) where
  -- The ids of `rows` lie above `lo`, up to `hi`, in growing order.
  abbrev pub Ids : ℕ → ℕ → List A → Type 0
  Ids lo hi [] = lo ≤ hi
  Ids lo hi (row ∷ rows) = (lo < id_of row) × Ids (id_of row) hi rows

  pub Ids-le : (lo hi : ℕ) (rows : List A) → Ids lo hi rows → lo ≤ hi
  Ids-le lo hi [] h = h
  Ids-le lo hi (row ∷ rows) (p, h) = omega (arith, Ids-le (id_of row) hi rows h)

  pub Ids-append :
      (lo hi : ℕ) (rows : List A) (row : A)
      → Ids lo hi rows
      → id_of row ≡ suc hi
      → Ids lo (suc hi) (rows ++ row ∷ [])
  Ids-append lo hi [] row h e = omega arith
  Ids-append lo hi (r ∷ rows) row (p, h) e = (p, Ids-append (id_of r) hi rows row h e)

  pub Ids-update :
      (test : A → Bool) (change : A → A) (lo hi : ℕ) (rows : List A)
      → ((row : A) → id_of (change row) ≡ id_of row)
      → Ids lo hi rows
      → Ids lo hi (update_where test change rows)
  unfolding update_where
  Ids-update test change lo hi [] keeps h = h
  Ids-update test change lo hi (row ∷ rows) keeps (p, h) =
      ground (arith, keeps row, Ids-update test change (id_of row) hi rows keeps h)

  -- Above the last id there is no row.
  pub find-above :
      (lo hi n : ℕ) (rows : List A)
      → Ids lo hi rows
      → hi < n
      → find_where (λ row. id_of row == n) rows ≡ none
  unfolding find_where
  find-above lo hi n [] h lt = refl
  find-above lo hi n (row ∷ rows) (p, h) lt =
      ground (arith, Ids-le (id_of row) hi rows h, find-above (id_of row) hi n rows h lt)

  find-below :
      (lo hi n : ℕ) (rows : List A)
      → Ids lo hi rows
      → n ≤ lo
      → find_where (λ row. id_of row == n) rows ≡ none
  unfolding find_where
  find-below lo hi n [] h le = refl
  find-below lo hi n (row ∷ rows) (p, h) le = ground (arith, find-below (id_of row) hi n rows h)

  Ids-Memᴰ : (lo hi : ℕ) (rows : List A) {row : A} → Ids lo hi rows → Memᴰ row rows → lo < id_of row
  Ids-Memᴰ lo hi [] h m = elim m [ ]
  Ids-Memᴰ lo hi (r ∷ rows) (p, h) (Memᴰ.head e) = rw e p
  Ids-Memᴰ lo hi (r ∷ rows) (p, h) (Memᴰ.tail m) = omega (arith, Ids-Memᴰ (id_of r) hi rows h m)

  -- The id of a row of the table finds that row.
  pub find-Memᴰ :
      (lo hi : ℕ) (rows : List A) (row : A)
      → Ids lo hi rows
      → Memᴰ row rows
      → find_where (λ r. id_of r == id_of row) rows ≡ some row
  unfolding find_where
  find-Memᴰ lo hi [] row h m = elim m [ ]
  find-Memᴰ lo hi (r ∷ rows) row (p, h) (Memᴰ.head e) = rw (e, ==_refl (id_of r))
  find-Memᴰ lo hi (r ∷ rows) row (p, h) (Memᴰ.tail m) =
      let later : id_of r < id_of row = Ids-Memᴰ (id_of r) hi rows h m in
      ground (arith, find-Memᴰ (id_of r) hi rows row h m)
