-- ===== src/Base/Text.antt =====
-- Go's strings.Split at one byte.
use agent_comm_platform.Base.{
  ℕ, ◌≡◌, refl, ◌≢◌, List, [], ◌∷◌, ◌++◌, arith, eqb, if◌then◌else◌, All, Bool-cases, inl, inr,
}
use agent_comm_platform.Base.Bytes.{Bytes}

-- A byte in front of the first part.
prepend : ℕ → List Bytes → List Bytes
prepend b [] = (b ∷ []) ∷ []
prepend b (p ∷ ps) = (b ∷ p) ∷ ps

unfoldable pub split : ℕ → Bytes → List Bytes
unfolding prepend
split sep [] = [] ∷ []
split sep (b ∷ bs) = let rest = split sep bs in if eqb b sep then [] ∷ rest else prepend b rest

module _ (sep : ℕ) where
  -- The separator stands nowhere in the text.
  abbrev pub IsFreeOf : Bytes → Type 0
  IsFreeOf = All (λ b. b ≢ sep)

  pub split_free : (bs : Bytes) → IsFreeOf bs → split sep bs ≡ bs ∷ []
  unfolding split
  split_free [] h = refl
  split_free (b ∷ bs) h = ground (arith, split_free bs h.1, h.0)

  pub split-append :
      (as' bs : Bytes) → IsFreeOf as' → split sep (as' ++ sep ∷ bs) ≡ as' ∷ split sep bs
  unfolding split
  split-append [] bs h = ground arith
  split-append (a ∷ as') bs h = ground (arith, split-append as' bs h.1, h.0)

  prepend-All : (b : ℕ) (ps : List Bytes) → b ≢ sep → All IsFreeOf ps → All IsFreeOf (prepend b ps)
  unfolding prepend
  prepend-All b [] n h = ((n, tt), tt)
  prepend-All b (p ∷ ps) n h = ((n, h.0), h.1)

  -- No part has the separator in it.
  pub split-All : (bs : Bytes) → All IsFreeOf (split sep bs)
  unfolding split
  split-All [] = (tt, tt)
  split-All (b ∷ bs) = elim (Bool-cases (eqb b sep)) [
    | inl here ↦ rw (here, split) (tt, split-All bs)
    | inr other ↦
        rw (other, split) (prepend-All b (split sep bs) (λ e. ground arith) (split-All bs))
  ]

  prepend-ne-nil : (b : ℕ) (ps : List Bytes) → prepend b ps ≢ []
  unfolding prepend
  prepend-ne-nil b [] h = cc
  prepend-ne-nil b (p ∷ ps) h = cc

  pub split-ne-nil : (bs : Bytes) → split sep bs ≢ []
  unfolding split
  split-ne-nil [] h = cc
  split-ne-nil (b ∷ bs) h = ground (arith, prepend-ne-nil b (split sep bs))

  prepend_single :
      (b : ℕ) (ps : List Bytes) (p bs : Bytes)
      → ps ≢ []
      → ((q : Bytes) → ps ≡ q ∷ [] → q ≡ bs)
      → prepend b ps ≡ p ∷ []
      → p ≡ b ∷ bs
  unfolding prepend
  prepend_single b [] p bs n k h = absurd (n refl)
  prepend_single b (q ∷ []) p bs n k h = ground (arith, k q refl)
  prepend_single b (q ∷ r ∷ ps) p bs n k h = cc

  -- A single part is the whole text.
  pub split_single : (bs p : Bytes) → split sep bs ≡ p ∷ [] → p ≡ bs
  unfolding split
  split_single [] p h = ground arith
  split_single (b ∷ bs) p h = ground (
    arith,
    split-ne-nil bs,
    prepend_single b (split sep bs) p bs (split-ne-nil bs) (split_single bs),
  )
