-- ===== src/Registry/History.antt =====
-- Sequences of registrations.
use agent_comm_platform.Base.{
  ℕ, ◌≡◌, ◌∙◌, Bool, true, false, some, List, [], ◌∷◌, arith, Bool-cases, inl, inr,
}
use agent_comm_platform.Base.Int.{ℤ, ltb_ℤ, leb_ℤ}
use agent_comm_platform.Base.Bytes.{Bytes, ◌==◌, eq_iff, eq→≡}
use agent_comm_platform.Base.Table.{select_row}
use agent_comm_platform.Base.Action.{ok}
use agent_comm_platform.Registry.Rows.{select_row-upsert_self, select_row-upsert_ne}
use agent_comm_platform.Registry.Writes.{ValidatedVerifies, register_ok, register_cases}
use agent_comm_platform.Registry.Store.{
  Proof, Row, Store, Sdk, has_urn, is_rollback, authenticated_entry, new_row,
  register_with_signature,
}

-- One call of RegisterWithSignature: its time, the failures of the database, its arguments.
pub record Call : Type 0 where
  pub fault : ℕ → Bool
  pub now : ℕ
  pub proof : Proof
  pub addrs : List Bytes
  pub relay_addrs : List Bytes

module _ (sdk : Sdk) where
  pub call : Call → Store → Store
  call c s = (register_with_signature sdk c.fault c.now c.proof c.addrs c.relay_addrs s).1

  pub run : List Call → Store → Store
  run [] s = s
  run (c ∷ cs) s = run cs (call c s)

  -- There is an authentic record of the URN that is at least as new as `t`.
  pub record IsRecorded (urn : Bytes) (t : ℤ) (s : Store) : Type 0 where
    pub row : Row
    pub found : select_row (has_urn urn) s.rows ≡ some row
    pub authentic : sdk.verify_registration row.proof ≡ true
    pub newer : leb_ℤ t row.timestamp ≡ true

  leb_ltb_trans : (t a b : ℤ) → leb_ℤ t a ≡ true → ltb_ℤ b a ≡ false → leb_ℤ t b ≡ true
  leb_ltb_trans t a b h k = ground arith

  -- The check against a rollback, where the record of the URN is authentic.
  not_rollback :
      (row : Row) (t : ℤ)
      → sdk.verify_registration row.proof ≡ true
      → is_rollback sdk (some row) t ≡ false
      → ltb_ℤ t row.timestamp ≡ false
  unfolding is_rollback authenticated_entry
  not_rollback row t h k = ground arith

  module _ (law : ValidatedVerifies sdk) (urn : Bytes) (t : ℤ) where
    accepted-IsRecorded :
        (c : Call) (s : Store)
        → IsRecorded urn t s
        → (register_with_signature sdk c.fault c.now c.proof c.addrs c.relay_addrs s).0 ≡ ok tt
        → IsRecorded urn t (call c s)
    unfolding call new_row
    accepted-IsRecorded c s h done =
        let facts = register_ok sdk c.fault c.now c.proof c.addrs c.relay_addrs s done in
        let row = new_row s c.now c.proof c.addrs c.relay_addrs in
        rw facts.3 (elim (Bool-cases (c.proof.urn == urn)) [
          | inl same ↦
              let e = eq→≡ c.proof.urn urn same in
              record {
                row = row;
                found =
                    select_row-upsert_self row (has_urn urn) s.rows same
                      (λ r k. ground (arith, eq_iff r.urn urn, eq_iff r.urn c.proof.urn));
                authentic = law c.now c.proof facts.0;
                newer =
                    leb_ltb_trans t h.row.timestamp c.proof.timestamp h.newer (
                      not_rollback h.row c.proof.timestamp h.authentic
                        (rw (e, h.found) at facts.2));
              }
          | inr other ↦ record {
            row = h.row;
            found =
                select_row-upsert_ne row (has_urn urn) s.rows (λ r k.
                  ground
                    (arith, eq_iff r.urn urn, eq_iff r.urn c.proof.urn, eq_iff c.proof.urn urn))
                ∙ h.found;
            authentic = h.authentic;
            newer = h.newer;
          }
        ])

    call-IsRecorded : (c : Call) (s : Store) → IsRecorded urn t s → IsRecorded urn t (call c s)
    unfolding call
    call-IsRecorded c s h =
        elim (register_cases sdk c.fault c.now c.proof c.addrs c.relay_addrs s) [
          | inl same ↦ rw same h
          | inr done ↦ accepted-IsRecorded c s h done
        ]

    -- Whatever registrations are attempted, by anyone, with any failures of the database, an
    -- authentic record of a URN is never lost, nor replaced by an older or an unauthentic one, if
    -- what passes the check of a write also passes that of a read.
    pub run-IsRecorded :
        (cs : List Call) (s : Store) → IsRecorded urn t s → IsRecorded urn t (run cs s)
    unfolding run
    run-IsRecorded [] s h = h
    run-IsRecorded (c ∷ cs) s h = run-IsRecorded cs (call c s) (call-IsRecorded c s h)
