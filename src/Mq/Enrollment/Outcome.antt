-- ===== src/Mq/Enrollment/Outcome.antt =====
-- What a call of `EnrollManaged` or of `RevokeManaged` writes.
use agent_comm_platform.Base.{
  ◌≡◌, refl, ◌⊎◌, inl, inr, Option-cases, Bool, true, false, [], ◌∷◌, ◌++◌, arith, eqb,
  if◌then◌else◌,
}
use agent_comm_platform.Base.Bytes.{Bytes}
use agent_comm_platform.Base.Table.{select_row, count, update}
use agent_comm_platform.Base.Action.{Result, ok, transaction}
use agent_comm_platform.Mq.Tables.{ManagedRow, Db, Store, World, Error, unix}
use agent_comm_platform.Mq.Enrollment.{
  Certificate, Issuer, has_serial, has_serial_grant, is_enrolled, upsert, current_policy,
  is_other_key, enrolled_at, grant_row, enroll_tx, revoke_tx, enroll_parsed, enroll_managed,
  revoke_managed,
}

module _ (w : World) (hash issuer : Bytes) (cert : Certificate) (certificate : Bytes)
    (db : Db) where
  abbrev pub enrolled : Result Error Unit × Db
  enrolled = transaction (enroll_tx w hash issuer cert certificate) db

  abbrev pub granted : ManagedRow
  granted =
      grant_row cert issuer certificate
        (enrolled_at w issuer (select_row (is_enrolled cert.urn) db.managed))

  -- What an enrolment that is not refused has checked and written.
  pub record Granted : Type 0 where
    pub free : count (has_serial cert.serial) db.revocations ≡ 0
    pub same_key :
        is_other_key (select_row (is_enrolled cert.urn) db.managed) cert.identity_public_key ≡ false
    pub result : enrolled.1 ≡ record db { managed = upsert granted db.managed }

  pub enroll_tx_cases : (enrolled.1 ≡ db) ⊎ (enrolled.0 ≡ ok tt)
  unfolding enroll_tx current_policy
  enroll_tx_cases = ground arith

  pub enroll_tx_ok : enrolled.0 ≡ ok tt → Granted
  unfolding enroll_tx current_policy
  enroll_tx_ok h = record { free = ground arith; same_key = ground arith; result = ground arith }

module _ (w : World) (serial : Bytes) (db : Db) where
  abbrev pub revoked : Result Error Unit × Db
  revoked = transaction (revoke_tx w serial) db

  -- The revocation is on the list once, and the grants of the serial are marked.
  pub record Revoked : Type 0 where
    pub listed : revoked.1.revocations ≡ (
        if eqb (count (has_serial serial) db.revocations) 0
        then db.revocations ++ record { serial = serial; revoked_at = unix (w.clock 0) } ∷ []
        else db.revocations)
    pub marked :
        revoked.1.managed
        ≡ update (has_serial_grant serial) (λ r. record r { revoked = true }) db.managed

  pub revoke_tx_cases : (revoked.1 ≡ db) ⊎ (revoked.0 ≡ ok tt)
  unfolding revoke_tx
  revoke_tx_cases = ground arith

  pub revoke_tx_ok : revoked.0 ≡ ok tt → Revoked
  unfolding revoke_tx
  revoke_tx_ok h = record { listed = ground arith; marked = ground arith }

module _ {Env : Type 0} {Policy : Type 0} (issuer : Issuer Policy) (authorize : Bytes → Bool)
    (w : World) (before : Store Env) (policy : Policy) where
  open issuer use {managed_issuer_public_key, policy_hash}

  parsed_cases :
      (certificate : Bytes) (cert : Certificate) (s : Store Env)
      → ((enroll_parsed issuer authorize w before policy certificate cert s).1.db ≡ s.db)
        ⊎ ((enroll_parsed issuer authorize w before policy certificate cert s).1.db
            ≡ (enrolled w
                (policy_hash policy)
                (managed_issuer_public_key policy)
                cert
                certificate
                s.db).1)
  unfolding enroll_parsed
  parsed_cases certificate cert s = ground arith

  -- A call of EnrollManaged writes nothing, or one grant.
  pub enroll_cases :
      (certificate : Bytes) (s : Store Env)
      → ((enroll_managed issuer authorize w before policy certificate s).1.db ≡ s.db)
        ⊎ ((cert : Certificate) × Granted w
              (policy_hash policy)
              (managed_issuer_public_key policy)
              cert
              certificate
              s.db
            × ((enroll_managed issuer authorize w before policy certificate s).1.db
                ≡ (enrolled w
                    (policy_hash policy)
                    (managed_issuer_public_key policy)
                    cert
                    certificate
                    s.db).1))
  unfolding enroll_managed
  enroll_cases certificate s = elim (Option-cases (issuer.parse_managed_certificate certificate)) [
    | inl unparsed ↦ inl (rw (unparsed, enroll_managed) refl)
    | inr (cert, parsed) ↦
        rw (parsed, enroll_managed)
          (elim (parsed_cases certificate cert s) [
            | inl same ↦ inl same
            | inr same ↦
                elim (enroll_tx_cases w (policy_hash policy) (managed_issuer_public_key policy) cert
                  certificate s.db) [
                    | inl kept ↦ inl (cc (same, kept))
                    | inr done ↦ inr (
                      cert,
                      enroll_tx_ok w (policy_hash policy) (managed_issuer_public_key policy) cert
                          certificate s.db done,
                      same,
                    )
                  ]
          ])
  ]

module _ {Env : Type 0} (w : World) (serial : Bytes) (s : Store Env) where
  revoke_written :
      ((revoke_managed w serial s).1.db ≡ s.db)
      ⊎ ((revoke_managed w serial s).1.db ≡ (revoked w serial s.db).1)
  unfolding revoke_managed
  revoke_written = ground arith

  -- A call of RevokeManaged writes nothing, or its revocation.
  pub revoke_cases :
      ((revoke_managed w serial s).1.db ≡ s.db)
      ⊎ (((revoke_managed w serial s).1.db ≡ (revoked w serial s.db).1) × Revoked w serial s.db)
  revoke_cases = elim revoke_written [
    | inl same ↦ inl same
    | inr same ↦ elim (revoke_tx_cases w serial s.db) [
      | inl kept ↦ inl (cc (same, kept))
      | inr done ↦ inr (same, revoke_tx_ok w serial s.db done)
    ]
  ]

  tx_done : (revoke_managed w serial s).0 ≡ ok tt → (revoked w serial s.db).0 ≡ ok tt
  unfolding revoke_managed
  tx_done h = ground arith

  db_done :
      (revoke_managed w serial s).0 ≡ ok tt
      → (revoke_managed w serial s).1.db ≡ (revoked w serial s.db).1
  unfolding revoke_managed
  db_done h = ground arith

  pub revoke_ok :
      (revoke_managed w serial s).0 ≡ ok tt
      → ((revoke_managed w serial s).1.db ≡ (revoked w serial s.db).1) × Revoked w serial s.db
  revoke_ok h = (db_done h, revoke_tx_ok w serial s.db (tx_done h))
