-- ===== src/Base/Action.antt =====
-- Operations on a state that may fail. What was written before a failure stays written, unless a
-- transaction around it rolls the state back.
use mathlib.Core.Path.{◌≡◌, refl}
use mathlib.Core.Logic.{◌⊎◌, inl, inr}
use mathlib.Core.Bool.{Bool, true, false}

pub data Result {ℓ} (E : Type ℓ) (A : Type ℓ) : Type ℓ where
  ok : A → Result E A
  err : E → Result E A

pub Result-cases {ℓ} :
    {E A : Type ℓ} (r : Result E A) → ((e : E) × (r ≡ err e)) ⊎ ((a : A) × (r ≡ ok a))
Result-cases (err e) = inl (e, refl)
Result-cases (ok a) = inr (a, refl)

-- `if err := … ; err != nil { return err }` before the rest.
abbrev pub and_then {ℓ} : {E A B : Type ℓ} → Result E A → Result E B → Result E B
and_then (ok a) r = r
and_then (err e) r = err e

-- The value of a call that may fail, and what follows from it.
abbrev pub try {ℓ} : {E A B : Type ℓ} → Result E A → (A → Result E B) → Result E B
try (ok a) f = f a
try (err e) f = err e

pub try_ok {ℓ} :
    {E A B : Type ℓ} (r : Result E A) (f : A → Result E B) (b : B)
    → try r f ≡ ok b
    → (a : A) × (r ≡ ok a) × (f a ≡ ok b)
try_ok (ok a) f b h = (a, refl, h)
try_ok (err e) f b h = cc

module _ {ℓ} {E B : Type ℓ} where
  pub and_then_ok :
      (a : Result E Unit) (r : Result E B) (b : B) → and_then a r ≡ ok b → (a ≡ ok tt) × (r ≡ ok b)
  and_then_ok (ok tt) r b h = (refl, h)
  and_then_ok (err e) r b h = cc

  pub ok_injective : {a b : B} → ◌≡◌ {A = Result E B} (ok a) (ok b) → a ≡ b
  ok_injective h = cc

abbrev pub Action {ℓ} : Type ℓ → Type ℓ → Type ℓ → Type ℓ
Action S E A = S → Result E A × S

module _ {ℓ} {S E A : Type ℓ} where
  abbrev pub pure : A → Action S E A
  pure a s = (ok a, s)

  abbrev pub fail : E → Action S E A
  fail e s = (err e, s)

  abbrev pub gets : (S → A) → Action S E A
  gets f s = (ok (f s), s)

  abbrev pub lift : Result E A → Action S E A
  lift r s = (r, s)

  -- `defer tx.Rollback()`: what the body wrote is kept only by a commit.
  abbrev pub settle : S → Result E A × S → Result E A × S
  settle before (ok a, after) = (ok a, after)
  settle before (err e, after) = (err e, before)

  abbrev pub transaction : Action S E A → Action S E A
  transaction body s = settle s (body s)

module _ {ℓ} {S E A : Type ℓ} where
  pub result_pair : (x : Result E A × S) {r : Result E A} {s : S} → x.0 ≡ r → x.1 ≡ s → x ≡ (r, s)
  result_pair x p q = λ i. (p i, q i)

  -- A transaction that fails has written nothing.
  pub transaction_err :
      (body : Action S E A) (s : S) (e : E)
      → (transaction body s).0 ≡ err e
      → (transaction body s).1 ≡ s
  transaction_err body s e = settled (body s)
    where
      settled : (r : Result E A × S) → (settle s r).0 ≡ err e → (settle s r).1 ≡ s
      settled (ok a, after) h = cc
      settled (err e', after) h = refl

  -- A transaction that succeeds has the result and the writes of its body.
  pub transaction_ok :
      (body : Action S E A) (s : S) (a : A)
      → (transaction body s).0 ≡ ok a
      → transaction body s ≡ body s
  transaction_ok body s a = settled (body s)
    where
      settled : (r : Result E A × S) → (settle s r).0 ≡ ok a → settle s r ≡ r
      settled (ok a', after) h = refl
      settled (err e', after) h = cc

module _ {ℓ} {S E A B : Type ℓ} where
  abbrev pub proceed : (A → Action S E B) → Result E A × S → Result E B × S
  proceed f (ok a, s) = f a s
  proceed f (err e, s) = (err e, s)

  infixl 5 ◌>>=◌ ◌>>◌
  abbrev pub ◌>>=◌ : Action S E A → (A → Action S E B) → Action S E B
  ◌>>=◌ m f s = proceed f (m s)

  abbrev pub ◌>>◌ : Action S E A → Action S E B → Action S E B
  m >> n = m >>= λ _. n

abbrev pub require : {S E : Type 0} → Bool → E → Action S E Unit
require true e s = (ok tt, s)
require false e s = (err e, s)
