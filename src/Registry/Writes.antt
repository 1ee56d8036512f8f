-- ===== src/Registry/Writes.antt =====
-- What `RegisterWithSignature` writes, and what it refuses.
use agent_comm_platform.Base.{
  ℕ, ◌+◌, ◌<◌, ◌≡◌, ◌≢◌, Bool, true, false, none, some, List, [], ◌∷◌, arith, All, ◌⊎◌, inl, inr,
}
use agent_comm_platform.Base.Int.{ltb_ℤ}
use agent_comm_platform.Base.Bytes.{Bytes, eq_refl, eq_iff}
use agent_comm_platform.Base.Hex.{IsBytes}
use agent_comm_platform.Base.Table.{select_row}
use agent_comm_platform.Base.Action.{Result, ok, err}
use agent_comm_platform.Registry.Codec.RoundTrip.{decode_string_slice-encode_string_slice}
use agent_comm_platform.Registry.Rows.{
  UniqueUrns, select_row-upsert_self, select_row-upsert_ne, upsert-UniqueUrns,
}
use agent_comm_platform.Registry.Store.{
  Proof, Row, Store, Sdk, Error, has_urn, upsert, entry_of_row, list_check, is_current, serve,
  is_rollback, authenticated_entry, new_row, register_with_signature, resolve_entry,
}

-- Documented of the module: what passes the check of a write also passes that of a read.
abbrev pub ValidatedVerifies : Sdk → Type 0
ValidatedVerifies sdk =
    (now : ℕ) (p : Proof)
    → sdk.validate_registration now p ≡ true
    → sdk.verify_registration p ≡ true

module _ (sdk : Sdk) (fault : ℕ → Bool) (now : ℕ) (p : Proof) (addrs relay_addrs : List Bytes)
    (s : Store) where
  abbrev pub attempt : Result Error Unit × Store
  attempt = register_with_signature sdk fault now p addrs relay_addrs s

  -- Everything that a success tells.
  pub register_ok :
      attempt.0 ≡ ok tt
      → (sdk.validate_registration now p ≡ true)
        × (list_check (addrs ∷ relay_addrs ∷ []) ≡ none)
        × (is_rollback sdk (select_row (has_urn p.urn) s.rows) p.timestamp ≡ false)
        × (attempt.1 ≡ record s { rows = upsert (new_row s now p addrs relay_addrs) s.rows })
  unfolding register_with_signature
  register_ok h = ground arith

  -- A refused or failed registration leaves the table as it was.
  pub register_err : (e : Error) → attempt.0 ≡ err e → attempt.1 ≡ s
  unfolding register_with_signature
  register_err e h = ground arith

  pub register_cases : (attempt.1 ≡ s) ⊎ (attempt.0 ≡ ok tt)
  unfolding register_with_signature
  register_cases = ground arith

  -- The primary key survives every registration, refused or not.
  pub register-UniqueUrns : UniqueUrns s.rows → UniqueUrns attempt.1.rows
  register-UniqueUrns u = elim register_cases [
    | inl e ↦ rw e u
    | inr h ↦ rw (register_ok h).3 (upsert-UniqueUrns (new_row s now p addrs relay_addrs) s.rows u)
  ]

  -- Registering one URN never changes what another one resolves to.
  pub resolve-register_ne :
      (later : ℕ) (urn : Bytes)
      → p.urn ≢ urn
      → resolve_entry sdk false later urn attempt.1 ≡ resolve_entry sdk false later urn s
  unfolding resolve_entry new_row
  resolve-register_ne later urn n = elim register_cases [
    | inl e ↦ rw e
    | inr done ↦ rw (
      (register_ok done).3,
      select_row-upsert_ne (new_row s now p addrs relay_addrs) (is_current later urn) s.rows
          (λ r h. ground (arith, eq_iff r.urn p.urn, eq_iff r.urn urn)),
    )
  ]

  -- After a successful registration the URN resolves, until its lifetime has passed, to exactly
  -- what was registered, if neither address list is the list of one empty address and what passes
  -- the check of a write also passes that of a read.
  pub resolve-register_self :
      (later : ℕ)
      → ValidatedVerifies sdk
      → All IsBytes addrs
      → All IsBytes relay_addrs
      → addrs ≢ [] ∷ []
      → relay_addrs ≢ [] ∷ []
      → attempt.0 ≡ ok tt
      → later < now + s.ttl
      → resolve_entry sdk false later p.urn attempt.1
        ≡ ok (
            some (record {
              proof = p;
              addrs = addrs;
              relay_addrs = relay_addrs;
              expires_at = now + s.ttl;
            }))
  unfolding resolve_entry serve new_row authenticated_entry entry_of_row
  resolve-register_self later law ba br na nr h fresh =
      let done = register_ok h in
      rw (
        done.3,
        select_row-upsert_self (new_row s now p addrs relay_addrs) (is_current later p.urn) s.rows
            (ground (arith, eq_refl p.urn)) (λ r k. ground arith),
        serve,
        law now p done.0,
        (decode_string_slice-encode_string_slice addrs ba).1 na,
        (decode_string_slice-encode_string_slice relay_addrs br).1 nr,
      )

  -- A registration that is older than the authentic record of its URN is refused, and changes
  -- nothing.
  pub register_rollback :
      (old : Row)
      → select_row (has_urn p.urn) s.rows ≡ some old
      → sdk.verify_registration old.proof ≡ true
      → ltb_ℤ p.timestamp old.timestamp ≡ true
      → (attempt.0 ≢ ok tt) × (attempt.1 ≡ s)
  unfolding register_with_signature is_rollback authenticated_entry
  register_rollback old found authentic older = ground arith
