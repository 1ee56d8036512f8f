-- ===== src/Base/Table.antt =====
-- SQL statements on a table: a list of rows in the order of insertion, and tests for WHERE.
use Prim.Native.Nat.{ℕ, suc, ◌+◌, ◌≤◌, ◌<◌}
use mathlib.Core.Path.{◌≡◌, refl, sym, ap, ◌∙◌}
use mathlib.Core.Logic.{inl, inr}
use mathlib.Core.Bool.{Bool, true, false}
use mathlib.Core.Option.{Option, none, some, some-injective}
use mathlib.Core.List.{List, [], ◌∷◌, ◌++◌}
use native.Mathlib.Omega.{arith}
use agent_comm_platform.Base.Tests.{if◌then◌else◌, Bool-cases}
use agent_comm_platform.Base.Lists.{length, All}

module _ {ℓ} {A : Type ℓ} where
  -- SELECT … WHERE p
  unfoldable pub select : (A → Bool) → List A → List A
  select p [] = []
  select p (x ∷ xs) = let rest = select p xs in if p x then x ∷ rest else rest

  -- The first row of a SELECT, as QueryRow scans it.
  unfoldable pub select_row : (A → Bool) → List A → Option A
  select_row p [] = none
  select_row p (x ∷ xs) = let rest = select_row p xs in if p x then some x else rest

  -- SELECT COUNT(*) … WHERE p
  unfoldable pub count : (A → Bool) → List A → ℕ
  count p [] = 0
  count p (x ∷ xs) = let rest = count p xs in if p x then suc rest else rest

  -- DELETE … WHERE p
  unfoldable pub delete : (A → Bool) → List A → List A
  delete p [] = []
  delete p (x ∷ xs) = let rest = delete p xs in if p x then rest else x ∷ rest

  -- UPDATE … SET f WHERE p
  unfoldable pub update : (A → Bool) → (A → A) → List A → List A
  update p f [] = []
  update p f (x ∷ xs) = let rest = update p f xs in if p x then f x ∷ rest else x ∷ rest

  -- A delete of rows that a SELECT does not return is not seen by it.
  pub select-delete :
      (p q : A → Bool) (xs : List A)
      → ((x : A) → p x ≡ true → q x ≡ false)
      → select p (delete q xs) ≡ select p xs
  unfolding select delete
  select-delete p q [] k = refl
  select-delete p q (x ∷ xs) k = ground (arith, k x, select-delete p q xs k)

  pub select_row-delete_all :
      (p q : A → Bool) (xs : List A)
      → ((x : A) → p x ≡ true → q x ≡ true)
      → select_row p (delete q xs) ≡ none
  unfolding select_row delete
  select_row-delete_all p q [] k = refl
  select_row-delete_all p q (x ∷ xs) k = ground (arith, k x, select_row-delete_all p q xs k)

  pub count-append :
      (p : A → Bool) (xs : List A) (x : A)
      → count p (xs ++ x ∷ []) ≡ count p xs + (if p x then 1 else 0)
  unfolding count
  count-append p [] x = ground arith
  count-append p (y ∷ xs) x = ground (arith, count-append p xs x)

  pub count_mono :
      (p q : A → Bool) (xs : List A) → ((x : A) → p x ≡ true → q x ≡ true) → count p xs ≤ count q xs
  unfolding count
  count_mono p q [] k = omega arith
  count_mono p q (x ∷ xs) k = ground (arith, k x, count_mono p q xs k)

  pub count-select_row-none : (p : A → Bool) (xs : List A) → select_row p xs ≡ none → count p xs ≡ 0
  unfolding count select_row
  count-select_row-none p [] h = refl
  count-select_row-none p (x ∷ xs) h = ground (arith, count-select_row-none p xs)

  pub select_row-ne-none :
      (p : A → Bool) (xs : List A) → 0 < count p xs → (x : A) × (select_row p xs ≡ some x)
  unfolding count select_row
  select_row-ne-none p [] h = absurd (omega arith)
  select_row-ne-none p (x ∷ xs) h = elim (Bool-cases (p x)) [
    | inl here ↦ (x, rw here)
    | inr later ↦ let (y, e) = select_row-ne-none p xs (rw later at h) in (y, rw later e)
  ]

  pub select_row-append :
      (p : A → Bool) (xs : List A) (x : A)
      → select_row p xs ≡ none
      → p x ≡ true
      → select_row p (xs ++ x ∷ []) ≡ some x
  unfolding select_row
  select_row-append p [] x h k = rw k
  select_row-append p (y ∷ xs) x h k = ground (arith, select_row-append p xs x)

  -- An UPDATE that takes each of its rows out of a SELECT takes as many as it counts.
  pub count-update :
      (p q : A → Bool) (f : A → A) (xs : List A)
      → ((x : A) → q x ≡ true → p x ≡ true)
      → ((x : A) → p (f x) ≡ false)
      → count p (update q f xs) + count q xs ≡ count p xs
  unfolding count update
  count-update p q f [] k l = refl
  count-update p q f (x ∷ xs) k l = ground (arith, k x, l x, count-update p q f xs k l)

  -- An UPDATE of rows that a SELECT does not return, before or after, is not seen by it.
  pub select-update :
      (p q : A → Bool) (f : A → A) (xs : List A)
      → ((x : A) → q x ≡ true → p x ≡ false)
      → ((x : A) → q x ≡ true → p (f x) ≡ false)
      → select p (update q f xs) ≡ select p xs
  unfolding select update
  select-update p q f [] k l = refl
  select-update p q f (x ∷ xs) k l = ground (arith, k x, l x, select-update p q f xs k l)

  pub select-All : (p : A → Bool) (xs : List A) → All (λ x. p x ≡ true) (select p xs)
  unfolding select
  select-All p [] = tt
  select-All p (x ∷ xs) = elim (Bool-cases (p x)) [
    | inl here ↦ rw (here, select) (here, select-All p xs)
    | inr other ↦ rw (other, select) (select-All p xs)
  ]

  pub count-eq-length : (p : A → Bool) (xs : List A) → count p xs ≡ length (select p xs)
  unfolding count select
  count-eq-length p [] = refl
  count-eq-length p (x ∷ xs) = ground (arith, count-eq-length p xs)

  -- After an UPDATE of all rows of a SELECT that takes them out of it, none is left.
  pub count-update_zero :
      (p q : A → Bool) (f : A → A) (xs : List A)
      → ((x : A) → p x ≡ true → q x ≡ true)
      → ((x : A) → p (f x) ≡ false)
      → count p (update q f xs) ≡ 0
  unfolding count update
  count-update_zero p q f [] k l = refl
  count-update_zero p q f (x ∷ xs) k l = ground (arith, k x, l x, count-update_zero p q f xs k l)

  pub count_never : (p : A → Bool) (xs : List A) → ((x : A) → p x ≡ false) → count p xs ≡ 0
  unfolding count
  count_never p [] k = refl
  count_never p (x ∷ xs) k = rw (k x) (count_never p xs k)

  pub delete-All : (q : A → Bool) (xs : List A) → All (λ x. q x ≡ false) (delete q xs)
  unfolding delete
  delete-All q [] = tt
  delete-All q (x ∷ xs) = elim (Bool-cases (q x)) [
    | inl gone ↦ rw (gone, delete) (delete-All q xs)
    | inr kept ↦ rw (kept, delete) (kept, delete-All q xs)
  ]

  -- The row is one of the list: every test that it passes counts some row.
  abbrev pub IsIn : List A → A → Type ℓ
  IsIn xs x = (p : A → Bool) → p x ≡ true → 0 < count p xs

  pub All-IsIn-weaken : (y : A) (xs zs : List A) → All (IsIn xs) zs → All (IsIn (y ∷ xs)) zs
  unfolding count
  All-IsIn-weaken y xs [] h = tt
  All-IsIn-weaken y xs (z ∷ zs) h = (λ p k. ground (arith, h.0 p k), All-IsIn-weaken y xs zs h.1)

  pub select-IsIn : (q : A → Bool) (xs : List A) → All (IsIn xs) (select q xs)
  unfolding select count
  select-IsIn q [] = tt
  select-IsIn q (x ∷ xs) = elim (Bool-cases (q x)) [
    | inl here ↦
        rw (here, select)
          (λ p k. ground (arith, k), All-IsIn-weaken x xs (select q xs) (select-IsIn q xs))
    | inr other ↦ rw (other, select) (All-IsIn-weaken x xs (select q xs) (select-IsIn q xs))
  ]

  pub select_row-IsIn :
      (q : A → Bool) (xs : List A) (x : A) → select_row q xs ≡ some x → (q x ≡ true) × IsIn xs x
  unfolding select_row count
  select_row-IsIn q [] x h = cc
  select_row-IsIn q (y ∷ xs) x h = elim (Bool-cases (q y)) [
    | inl here ↦
        let same = some-injective y x (rw here at h) in
        (ap q (sym same) ∙ here, λ p k. let k' = ap p same ∙ k in ground (arith, k'))
    | inr other ↦
        let below = select_row-IsIn q xs x (rw other at h) in
        (below.0, λ p k. ground (arith, below.1 p k))
  ]
