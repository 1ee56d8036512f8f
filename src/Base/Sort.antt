-- ===== src/Base/Sort.antt =====
-- ORDER BY: a stable insertion sort, for any order of rows.
use agent_comm_platform.Base.{
  ◌≡◌, refl, Bool, true, false, List, [], ◌∷◌, arith, All, if◌then◌else◌, Bool-cases, inl, inr,
}
use agent_comm_platform.Base.Table.{count}

module _ {ℓ} {A : Type ℓ} (precedes : A → A → Bool) where
  insert : A → List A → List A
  insert x [] = x ∷ []
  insert x (y ∷ ys) = let rest = insert x ys in if precedes y x then y ∷ rest else x ∷ y ∷ ys

  unfoldable pub sort : List A → List A
  unfolding insert
  sort [] = []
  sort (x ∷ xs) = insert x (sort xs)

  insert-All {κ} : (P : A → Type κ) (x : A) (xs : List A) → P x → All P xs → All P (insert x xs)
  unfolding insert
  insert-All P x [] h k = (h, tt)
  insert-All P x (y ∷ ys) h k = elim (Bool-cases (precedes y x)) [
    | inl later ↦ rw (later, insert) (k.0, insert-All P x ys h k.1)
    | inr first ↦ rw (first, insert) (h, k)
  ]

  pub sort-All {κ} : (P : A → Type κ) (xs : List A) → All P xs → All P (sort xs)
  unfolding sort
  sort-All P [] h = tt
  sort-All P (x ∷ xs) h = insert-All P x (sort xs) h.0 (sort-All P xs h.1)

  count-insert : (p : A → Bool) (x : A) (xs : List A) → count p (insert x xs) ≡ count p (x ∷ xs)
  unfolding insert count
  count-insert p x [] = refl
  count-insert p x (y ∷ ys) = ground (arith, count-insert p x ys)

  -- Sorting keeps every row as often as it stood there.
  pub count-sort : (p : A → Bool) (xs : List A) → count p (sort xs) ≡ count p xs
  unfolding sort count
  count-sort p [] = refl
  count-sort p (x ∷ xs) = ground (arith, count-insert p x (sort xs), count-sort p xs)

  -- No row is preceded by one that stands behind it.
  abbrev pub IsSorted : List A → Type 0
  IsSorted [] = Unit {0}
  IsSorted (x ∷ xs) = All (λ y. precedes y x ≡ false) xs × IsSorted xs

  module _ (asym : (x y : A) → precedes x y ≡ true → precedes y x ≡ false)
      (chain : (x y z : A)
        → precedes x y ≡ false
        → precedes y z ≡ false
        → precedes x z ≡ false) where
    All-chain :
        (x y : A) (zs : List A)
        → precedes y x ≡ false
        → All (λ z. precedes z y ≡ false) zs
        → All (λ z. precedes z x ≡ false) zs
    All-chain x y [] h k = tt
    All-chain x y (z ∷ zs) h k = (chain z y x k.0 h, All-chain x y zs h k.1)

    insert-IsSorted : (x : A) (xs : List A) → IsSorted xs → IsSorted (insert x xs)
    unfolding insert
    insert-IsSorted x [] h = (tt, tt)
    insert-IsSorted x (y ∷ ys) h = elim (Bool-cases (precedes y x)) [
      | inl later ↦
          rw (later, insert)
            (
              insert-All (λ z. precedes z y ≡ false) x ys (asym y x later) h.0,
              insert-IsSorted x ys h.1,
            )
      | inr first ↦ rw (first, insert) ((first, All-chain x y ys first h.0), h)
    ]

    pub sort-IsSorted : (xs : List A) → IsSorted (sort xs)
    unfolding sort
    sort-IsSorted [] = tt
    sort-IsSorted (x ∷ xs) = insert-IsSorted x (sort xs) (sort-IsSorted xs)
