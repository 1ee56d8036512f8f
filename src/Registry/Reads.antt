-- ===== src/Registry/Reads.antt =====
-- What `ResolveEntry` and `ListURNs` serve, and what removals change of it.
use mathlib.Core.Bool.{false≢true}
use agent_comm_platform.Base.{
  ℕ, ◌≤◌, ◌<◌, ◌≡◌, refl, ◌↔◌, Bool, true, false, ◌&&◌, Option, none, some, List, [], ◌∷◌, arith,
  ltb, if◌then◌else◌, Bool-cases, inl, inr,
}
use agent_comm_platform.Base.Bytes.{Bytes, ◌==◌, eq_iff, eq→≡, contains}
use agent_comm_platform.Base.Table.{select, select_row, select-delete, select_row-delete_all}
use agent_comm_platform.Base.Action.{Result, ok}
use agent_comm_platform.Registry.Rows.{UniqueUrns, select_row-delete}
use agent_comm_platform.Registry.Store.{
  Row, Entry, Store, Sdk, Error, has_urn, entry_of_row, is_current, serve, serve_all, urns_of,
  authenticated_entry, resolve_entry, list_entries, list_urns, evict_entry, cleanup,
}

abbrev is_some {ℓ} : {A : Type ℓ} → Option A → Bool
is_some none = false
is_some (some a) = true

some_of :
    (o : Option Entry)
    → is_some o ≡ true
    → (e : Entry) × (◌≡◌ {A = Result Error (Option Entry)} (ok o) (ok (some e)))
some_of none h = absurd (false≢true h)
some_of (some e) h = (e, refl)

module _ (sdk : Sdk) (now : ℕ) (urn : Bytes) where
  serve_row :
      (rows : List Row) (e : Entry)
      → serve sdk (select_row (is_current now urn) rows) ≡ some e
      → (e.urn ≡ urn) × (sdk.verify_registration e.proof ≡ true) × (now < e.expires_at)
  unfolding serve select_row entry_of_row authenticated_entry
  serve_row [] e h = cc
  serve_row (r ∷ rows) e h = ground (arith, eq_iff r.urn urn, serve_row rows e)

  -- A served entry is one of the URN asked for, with a valid proof of its owner, not yet expired.
  pub resolve_sound :
      (fault : Bool) (s : Store) (e : Entry)
      → resolve_entry sdk fault now urn s ≡ ok (some e)
      → (e.urn ≡ urn) × (sdk.verify_registration e.proof ≡ true) × (now < e.expires_at)
  unfolding resolve_entry
  resolve_sound fault s e h = serve_row s.rows e (ground arith)

  abbrev listed : List Row → Bool
  listed rows = contains (urns_of (serve_all sdk (select (λ r. ltb now r.expires_at) rows))) urn

  not_listed : (rows : List Row) → select_row (has_urn urn) rows ≡ none → listed rows ≡ false
  unfolding serve_all urns_of contains select select_row entry_of_row
  not_listed [] h = refl
  not_listed (r ∷ rows) h = ground (arith, eq_iff r.urn urn, eq_iff urn r.urn, not_listed rows)

  none_current :
      (rows : List Row)
      → select_row (has_urn urn) rows ≡ none
      → select_row (is_current now urn) rows ≡ none
  unfolding select_row
  none_current [] h = refl
  none_current (r ∷ rows) h = ground (arith, none_current rows)

  listed-serve :
      (rows : List Row)
      → UniqueUrns rows
      → listed rows ≡ is_some (serve sdk (select_row (is_current now urn) rows))
  unfolding serve serve_all urns_of contains select select_row entry_of_row
  listed-serve [] u = refl
  listed-serve (r ∷ rows) u = elim (Bool-cases (r.urn == urn)) [
    | inl same ↦
        let e = eq→≡ r.urn urn same in
        let below : select_row (has_urn urn) rows ≡ none = rw e at u.0 in
        ground (arith, eq_iff r.urn urn, eq_iff urn r.urn, not_listed rows, none_current rows)
    | inr other ↦ ground (arith, eq_iff r.urn urn, eq_iff urn r.urn, listed-serve rows u.1)
  ]

  -- In a table with its primary key, a URN is listed exactly when it resolves.
  pub list_urns_iff :
      (s : Store) (urns : List Bytes)
      → UniqueUrns s.rows
      → list_urns sdk false now s ≡ ok urns
      → (contains urns urn ≡ true)
        ↔ ((e : Entry) × (resolve_entry sdk false now urn s ≡ ok (some e)))
  unfolding list_urns list_entries resolve_entry
  list_urns_iff s urns u h = (
    λ c.
        some_of (serve sdk (select_row (is_current now urn) s.rows))
          (ground (arith, listed-serve s.rows u)),
    λ r. ground (arith, listed-serve s.rows u, r.1),
  )

module _ (sdk : Sdk) (now later : ℕ) (s : Store) (le : now ≤ later) where
  -- The cleanup at one time changes neither what resolves nor what is listed from then on.
  pub cleanup_unseen :
      ((urn : Bytes)
        → resolve_entry sdk false later urn (cleanup now s) ≡ resolve_entry sdk false later urn s)
      × (list_urns sdk false later (cleanup now s) ≡ list_urns sdk false later s)
  unfolding resolve_entry list_urns list_entries cleanup
  cleanup_unseen = (
    λ urn. rw (
        select_row-delete (is_current later urn) (λ r. ltb 0 r.expires_at && ltb r.expires_at now)
          s.rows (λ r h. ground arith)),
    rw (
        select-delete (λ (r : Row). ltb later r.expires_at)
          (λ (r : Row). ltb 0 r.expires_at && ltb r.expires_at now) s.rows (λ r h. ground arith)),
  )

-- After an eviction the URN does not resolve, and every other one resolves as it did.
pub resolve-evict_entry :
    (sdk : Sdk) (now : ℕ) (evicted urn : Bytes) (s : Store)
    → resolve_entry sdk false now urn (evict_entry false evicted s).1
      ≡ (if evicted == urn then ok none else resolve_entry sdk false now urn s)
unfolding resolve_entry evict_entry serve
resolve-evict_entry sdk now evicted urn s = elim (Bool-cases (evicted == urn)) [
  | inl same ↦ rw (
    same,
    select_row-delete_all (is_current now urn) (has_urn evicted) s.rows
        (λ r h. ground (arith, eq_iff r.urn urn, eq_iff r.urn evicted, eq_iff evicted urn)),
  )
  | inr other ↦ rw (
    other,
    select_row-delete (is_current now urn) (has_urn evicted) s.rows
        (λ r h. ground (arith, eq_iff r.urn urn, eq_iff r.urn evicted, eq_iff evicted urn)),
  )
]
