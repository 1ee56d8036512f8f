-- ===== src/Registry/Rows.antt =====
-- The registry's table under an upsert, and its primary key.
use agent_comm_platform.Base.{
  ◌≡◌, refl, ◌∙◌, inl, inr, Bool-cases, Bool, true, false, none, some, List, [], ◌∷◌, arith,
}
use agent_comm_platform.Base.Bytes.{eq_refl, eq_iff, eq→≡}
use agent_comm_platform.Base.Table.{select_row, delete}
use agent_comm_platform.Registry.Store.{Row, has_urn, upsert}

module _ (row : Row) (p : Row → Bool) where
  -- A test that only rows of this URN pass finds the new row.
  pub select_row-upsert_self :
      (rows : List Row)
      → p row ≡ true
      → ((r : Row) → p r ≡ true → has_urn row.urn r ≡ true)
      → select_row p (upsert row rows) ≡ some row
  unfolding select_row upsert
  select_row-upsert_self [] h k = rw h
  select_row-upsert_self (r ∷ rows) h k = ground (arith, k r, select_row-upsert_self rows h k)

  -- A test that no row of this URN passes does not see the write.
  pub select_row-upsert_ne :
      (rows : List Row)
      → ((r : Row) → has_urn row.urn r ≡ true → p r ≡ false)
      → select_row p (upsert row rows) ≡ select_row p rows
  unfolding select_row upsert
  select_row-upsert_ne [] k = rw (k row (eq_refl row.urn))
  select_row-upsert_ne (r ∷ rows) k =
      ground (arith, k r, k row (eq_refl row.urn), select_row-upsert_ne rows k)

-- The primary key: a row's URN does not occur again below it.
abbrev pub UniqueUrns : List Row → Type 0
UniqueUrns [] = Unit {0}
UniqueUrns (r ∷ rows) = (select_row (has_urn r.urn) rows ≡ none) × UniqueUrns rows

pub upsert-UniqueUrns :
    (row : Row) (rows : List Row) → UniqueUrns rows → UniqueUrns (upsert row rows)
unfolding upsert select_row
upsert-UniqueUrns row [] u = (refl, tt)
upsert-UniqueUrns row (r ∷ rows) u = elim (Bool-cases (has_urn row.urn r)) [
  | inl same ↦ rw (same, upsert) (rw (eq→≡ r.urn row.urn same) at u.0, u.1)
  | inr other ↦
      rw (other, upsert)
        (
          select_row-upsert_ne row (has_urn r.urn) rows (λ x h.
                ground (arith, eq_iff x.urn row.urn, eq_iff x.urn r.urn, eq_iff r.urn row.urn))
              ∙ u.0,
          upsert-UniqueUrns row rows u.1,
        )
]

-- A delete of rows that a test does not pass is not seen by the test.
pub select_row-delete :
    (p q : Row → Bool) (rows : List Row)
    → ((r : Row) → p r ≡ true → q r ≡ false)
    → select_row p (delete q rows) ≡ select_row p rows
unfolding select_row delete
select_row-delete p q [] k = refl
select_row-delete p q (r ∷ rows) k = ground (arith, k r, select_row-delete p q rows k)

pub select_row-delete-none :
    (p q : Row → Bool) (rows : List Row)
    → select_row p rows ≡ none
    → select_row p (delete q rows) ≡ none
unfolding select_row delete
select_row-delete-none p q [] h = refl
select_row-delete-none p q (r ∷ rows) h = ground (arith, select_row-delete-none p q rows)

pub delete-UniqueUrns :
    (q : Row → Bool) (rows : List Row) → UniqueUrns rows → UniqueUrns (delete q rows)
unfolding delete
delete-UniqueUrns q [] u = tt
delete-UniqueUrns q (r ∷ rows) u = elim (Bool-cases (q r)) [
  | inl gone ↦ rw (gone, delete) (delete-UniqueUrns q rows u.1)
  | inr kept ↦
      rw (kept, delete)
        (select_row-delete-none (has_urn r.urn) q rows u.0, delete-UniqueUrns q rows u.1)
]
