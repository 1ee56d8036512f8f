-- ===== src/Api/Limits/Rows.antt =====
-- The limiter's table of addresses under the statements that GetLimiter makes.
use mathlib.Core.Option.{some-injective}
use agent_comm_platform.Base.{
  ◌≤◌, ◌≡◌, refl, ap, ◌∙◌, inl, inr, Bool, true, false, Bool-cases, some, List, [], ◌∷◌, ◌++◌,
  length, arith,
}
use agent_comm_platform.Base.Table.{select_row, delete, update}
use agent_comm_platform.Api.Limiter.{Tracked}

module _ {Bucket : Type 0} where
  pub length-delete :
      (q : Tracked Bucket → Bool) (ts : List (Tracked Bucket)) → length (delete q ts) ≤ length ts
  unfolding delete
  length-delete q [] = omega arith
  length-delete q (t ∷ ts) = ground (arith, length-delete q ts)

  pub length-update :
      (q : Tracked Bucket → Bool) (f : Tracked Bucket → Tracked Bucket) (ts : List (Tracked Bucket))
      → length (update q f ts) ≡ length ts
  unfolding update
  length-update q f [] = refl
  length-update q f (t ∷ ts) = ground (arith, length-update q f ts)

  first :
      (p q : Tracked Bucket → Bool) (t u : Tracked Bucket) (ts : List (Tracked Bucket))
      → q t ≡ false
      → p u ≡ true
      → some u ≡ some t
      → select_row p (delete q (u ∷ ts)) ≡ some t
  unfolding select_row delete
  first p q t u ts k here e =
      let same = some-injective u t e in rw (ap q same ∙ k) (rw (here, select_row) e)

  -- A row that a delete leaves is still the first.
  pub select_row-delete_kept :
      (p q : Tracked Bucket → Bool) (t : Tracked Bucket) (ts : List (Tracked Bucket))
      → select_row p ts ≡ some t
      → q t ≡ false
      → select_row p (delete q ts) ≡ some t
  unfolding select_row delete
  select_row-delete_kept p q t [] h k = cc
  select_row-delete_kept p q t (u ∷ ts) h k = elim (Bool-cases (p u)) [
    | inl here ↦ first p q t u ts k here (rw here at h)
    | inr other ↦ ground (arith, select_row-delete_kept p q t ts)
  ]

  pub select_row-append_kept :
      (p : Tracked Bucket → Bool) (t u : Tracked Bucket) (ts : List (Tracked Bucket))
      → select_row p ts ≡ some t
      → select_row p (ts ++ u ∷ []) ≡ some t
  unfolding select_row
  select_row-append_kept p t u [] h = cc
  select_row-append_kept p t u (v ∷ ts) h = ground (arith, select_row-append_kept p t u ts)

  pub select_row-update_self :
      (p : Tracked Bucket → Bool) (f : Tracked Bucket → Tracked Bucket) (t : Tracked Bucket)
      (ts : List (Tracked Bucket))
      → ((u : Tracked Bucket) → p (f u) ≡ p u)
      → select_row p ts ≡ some t
      → select_row p (update p f ts) ≡ some (f t)
  unfolding select_row update
  select_row-update_self p f t [] k h = cc
  select_row-update_self p f t (u ∷ ts) k h = ground (arith, k u, select_row-update_self p f t ts k)

  pub select_row-update_ne :
      (p q : Tracked Bucket → Bool) (f : Tracked Bucket → Tracked Bucket)
      (ts : List (Tracked Bucket))
      → ((u : Tracked Bucket) → q u ≡ true → p u ≡ false)
      → ((u : Tracked Bucket) → p (f u) ≡ p u)
      → select_row p (update q f ts) ≡ select_row p ts
  unfolding select_row update
  select_row-update_ne p q f [] k l = refl
  select_row-update_ne p q f (u ∷ ts) k l =
      ground (arith, k u, l u, select_row-update_ne p q f ts k l)
