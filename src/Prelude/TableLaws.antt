-- ===== src/Prelude/TableLaws.antt =====
-- What the statements on a table do to a later statement.
use mathlib.Core.Path.{◌≡◌, refl, sym, ap, ◌∙◌}
use mathlib.Core.Bool.{Bool, true, false}
use mathlib.Core.Logic.{inl, inr}
use mathlib.Core.Option
use mathlib.Core.Option.{Option, none, some}
use mathlib.Core.List.{List, [], ◌∷◌, ◌++◌, Memᴰ}
use native.Mathlib.Omega.{arith}
use personal_carbon_footprin.Prelude.Tests.{if◌then◌else◌, is_some, Bool-cases}
use personal_carbon_footprin.Prelude.Lists.{
  All, find_where, select_where, update_where, delete_where, exists_where,
}

module _ {ℓ} {A : Type ℓ} where
  pub exists_where-find_where :
      (test : A → Bool) (xs : List A) → exists_where test xs ≡ is_some (find_where test xs)
  unfolding exists_where find_where
  exists_where-find_where test [] = refl
  exists_where-find_where test (x ∷ xs) = ground (arith, exists_where-find_where test xs)

  pub find_where-append :
      (test : A → Bool) (xs ys : List A)
      → find_where test (xs ++ ys)
        ≡ (if exists_where test xs then find_where test xs else find_where test ys)
  unfolding exists_where find_where
  find_where-append test [] ys = refl
  find_where-append test (x ∷ xs) ys = ground (arith, find_where-append test xs ys)

  pub exists_where-append :
      (test : A → Bool) (xs ys : List A)
      → exists_where test (xs ++ ys) ≡ (if exists_where test xs then true else exists_where test ys)
  unfolding exists_where
  exists_where-append test [] ys = refl
  exists_where-append test (x ∷ xs) ys = ground (arith, exists_where-append test xs ys)

  -- A row that is found passes the test and stands in the table.
  pub find_where_sound :
      (test : A → Bool) (xs : List A) (x : A)
      → find_where test xs ≡ some x
      → (test x ≡ true) × Memᴰ x xs
  unfolding find_where
  find_where_sound test [] x h = cc
  find_where_sound test (y ∷ ys) x h = elim (Bool-cases (test y)) [
    | inl e ↦ let same : y ≡ x = ground arith in (rw same at e, Memᴰ.head (sym same))
    | inr e ↦
        let (good, there) = find_where_sound test ys x (ground arith) in (good, Memᴰ.tail there)
  ]

  -- A change that keeps the test keeps what is found, up to the change.
  module _ (test : A → Bool) (change : A → A) (keeps : (x : A) → test (change x) ≡ test x) where
    pub find_where-update_self :
        (xs : List A)
        → find_where test (update_where test change xs) ≡ Option.map change (find_where test xs)
    unfolding find_where update_where
    find_where-update_self [] = refl
    find_where-update_self (x ∷ xs) = ground (arith, keeps x, find_where-update_self xs)

  module _ (test other : A → Bool) (change : A → A) (keeps : (x : A) → test (change x) ≡ test x)
      (apart : (x : A) → other x ≡ true → test x ≡ false) where
    pub find_where-update_other :
        (xs : List A) → find_where test (update_where other change xs) ≡ find_where test xs
    unfolding find_where update_where
    find_where-update_other [] = refl
    find_where-update_other (x ∷ xs) = ground (arith, keeps x, apart x, find_where-update_other xs)

  module _ (test other : A → Bool) (apart : (x : A) → other x ≡ true → test x ≡ false) where
    pub find_where-delete_other :
        (xs : List A) → find_where test (delete_where other xs) ≡ find_where test xs
    unfolding find_where delete_where
    find_where-delete_other [] = refl
    find_where-delete_other (x ∷ xs) = ground (arith, apart x, find_where-delete_other xs)

    pub exists_where-delete_other :
        (xs : List A) → exists_where test (delete_where other xs) ≡ exists_where test xs
    exists_where-delete_other xs =
        exists_where-find_where test (delete_where other xs)
        ∙ ap is_some (find_where-delete_other xs)
        ∙ sym (exists_where-find_where test xs)

  -- Deleting only takes rows away.
  pub exists_where-delete :
      (test other : A → Bool) (xs : List A)
      → exists_where test xs ≡ false
      → exists_where test (delete_where other xs) ≡ false
  unfolding exists_where delete_where
  exists_where-delete test other [] h = refl
  exists_where-delete test other (x ∷ xs) h = ground (arith, exists_where-delete test other xs)

  pub exists_where-delete_self :
      (test : A → Bool) (xs : List A) → exists_where test (delete_where test xs) ≡ false
  unfolding exists_where delete_where
  exists_where-delete_self test [] = refl
  exists_where-delete_self test (x ∷ xs) = ground (arith, exists_where-delete_self test xs)

  pub All-append {κ} : (P : A → Type κ) (xs ys : List A) → All P xs → All P ys → All P (xs ++ ys)
  All-append P [] ys h k = k
  All-append P (x ∷ xs) ys (p, h) k = (p, All-append P xs ys h k)

  pub All-Memᴰ {κ} : (P : A → Type κ) (xs : List A) {x : A} → All P xs → Memᴰ x xs → P x
  All-Memᴰ P [] _ m = elim m [ ]
  All-Memᴰ P (y ∷ ys) (p, h) (Memᴰ.head e) = rw e p
  All-Memᴰ P (y ∷ ys) (p, h) (Memᴰ.tail m) = All-Memᴰ P ys h m

  pub select_where_sound :
      (test : A → Bool) (xs : List A) (x : A)
      → Memᴰ x (select_where test xs)
      → (test x ≡ true) × Memᴰ x xs
  unfolding select_where
  select_where_sound test [] x m = elim m [ ]
  select_where_sound test (y ∷ ys) x m =
      let ih = select_where_sound test ys x in
      elim (Bool-cases (test y)) [
        | inl e ↦ split e ih (rw e at m)
        | inr e ↦ let (good, there) = ih (rw e at m) in (good, Memᴰ.tail there)
      ]
    where
      split :
          test y ≡ true
          → (Memᴰ x (select_where test ys) → (test x ≡ true) × Memᴰ x ys)
          → Memᴰ x (y ∷ select_where test ys)
          → (test x ≡ true) × Memᴰ x (y ∷ ys)
      split e ih (Memᴰ.head same) = (rw same e, Memᴰ.head same)
      split e ih (Memᴰ.tail later) = let (good, there) = ih later in (good, Memᴰ.tail there)

  pub select_where_complete :
      (test : A → Bool) (xs : List A) (x : A)
      → test x ≡ true
      → Memᴰ x xs
      → Memᴰ x (select_where test xs)
  unfolding select_where
  select_where_complete test [] x h m = elim m [ ]
  select_where_complete test (y ∷ ys) x h (Memᴰ.head same) = rw (← same, h) (Memᴰ.head refl)
  select_where_complete test (y ∷ ys) x h (Memᴰ.tail m) =
      let later = select_where_complete test ys x h m in
      elim (Bool-cases (test y)) [ inl e ↦ rw e (Memᴰ.tail later) | inr e ↦ rw e later ]

  pub All-weaken {κ μ} :
      (P : A → Type κ) (Q : A → Type μ) (xs : List A) → ((x : A) → P x → Q x) → All P xs → All Q xs
  All-weaken P Q [] f h = tt
  All-weaken P Q (x ∷ xs) f (p, h) = (f x p, All-weaken P Q xs f h)

  pub find_where-none :
      (test : A → Bool) (xs : List A) (x : A)
      → find_where test xs ≡ none
      → Memᴰ x xs
      → test x ≡ false
  unfolding find_where
  find_where-none test [] x h m = elim m [ ]
  find_where-none test (y ∷ ys) x h (Memᴰ.head same) = rw same (ground arith)
  find_where-none test (y ∷ ys) x h (Memᴰ.tail m) = find_where-none test ys x (ground arith) m

  pub delete_where-append :
      (test : A → Bool) (xs ys : List A)
      → delete_where test (xs ++ ys) ≡ delete_where test xs ++ delete_where test ys
  unfolding delete_where
  delete_where-append test [] ys = refl
  delete_where-append test (x ∷ xs) ys = ground (arith, delete_where-append test xs ys)
