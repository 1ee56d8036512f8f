-- ===== src/Mq/Enrollment.antt =====
-- `EnrollManaged` and `RevokeManaged` of internal/mq/v2_store.go. The issuer in memory is read before
-- the transaction, from a state `before`, as in StoreV1; a revocation holds the mutex.
mod Outcome
pub mod Calls
pub mod Revocation
pub mod Keys
use agent_comm_platform.Base.{
  ℕ, Bool, true, false, not, ◌&&◌, ◌||◌, Option, none, some, List, [], ◌∷◌, ◌++◌, length, ltb, leb,
  eqb, if◌then◌else◌,
}
use agent_comm_platform.Base.Int.{ℤ, pos, ltb_ℤ}
use agent_comm_platform.Base.Bytes.{Bytes, ◌==◌, is_empty}
use agent_comm_platform.Base.Table.{select_row, count, update}
use agent_comm_platform.Base.Action.{
  Result, ok, err, Action, require, transaction, proceed, pure, gets, ◌>>=◌, ◌>>◌,
}
use agent_comm_platform.Mq.Tables.{
  ManagedRow, RevocationRow, PolicyRow, Db, Store, World, Error, invalid_message, v2_policy,
  v2_conflict, unverified, unauthorized, database, unix, query,
}

-- v2.ManagedCertificate, as far as it is read.
pub record Certificate : Type 0 where
  pub urn : Bytes
  pub identity_public_key : Bytes
  pub serial : Bytes
  pub not_before : ℤ
  pub expires_at : ℤ

-- The calls of the module agent-comm/v2; `Policy` is v2.Policy.
pub record Issuer (Policy : Type 0) : Type 0 where
  pub managed_issuer_public_key : Policy → Bytes
  pub policy_hash : Policy → Bytes
  pub parse_managed_certificate : Bytes → Option Certificate
  pub verify_managed_certificate : Certificate → Policy → ℕ → Bool

abbrev pub has_serial : Bytes → RevocationRow → Bool
has_serial serial r = r.serial == serial

abbrev pub has_serial_grant : Bytes → ManagedRow → Bool
has_serial_grant serial r = r.serial == serial

abbrev pub is_enrolled : Bytes → ManagedRow → Bool
is_enrolled urn r = r.urn == urn

-- INSERT … ON CONFLICT(urn) DO UPDATE: every column but the identity key.
unfoldable pub upsert : ManagedRow → List ManagedRow → List ManagedRow
upsert row [] = row ∷ []
upsert row (r ∷ rest) =
    let others = upsert row rest in
    if is_enrolled row.urn r
    then record row { identity_pubkey = r.identity_pubkey } ∷ rest
    else r ∷ others

-- `policyHash != v2.PolicyHash(policy) || now >= policyExpiry`; without a row the query fails.
unfoldable pub current_policy : World → Bytes → Action Db Error Unit
current_policy w hash db = elim db.policy_state [
  | none ↦ (err database, db)
  | some p ↦
      if not (p.policy_hash == hash) || leb p.expires_at (unix (w.clock 1))
      then (err v2_policy, db)
      else (ok tt, db)
]

-- `err == nil && !bytes.Equal(oldPubkey, pubkey)`
unfoldable pub is_other_key : Option ManagedRow → Bytes → Bool
is_other_key none pubkey = false
is_other_key (some old) pubkey = not (old.identity_pubkey == pubkey)

-- A renewal keeps the time of the first enrolment.
unfoldable pub enrolled_at : World → Bytes → Option ManagedRow → ℕ
enrolled_at w issuer none = w.clock 2
enrolled_at w issuer (some old) =
    if not old.revoked
      && ltb_ℤ (pos (unix (w.clock 3))) old.expires_at
      && old.issuer_pubkey == issuer
      && ltb 0 old.enrolled_at_ns
    then old.enrolled_at_ns
    else w.clock 2

unfoldable pub grant_row : Certificate → Bytes → Bytes → ℕ → ManagedRow
grant_row cert issuer certificate enrolled_at_ns = record {
  urn = cert.urn;
  identity_pubkey = cert.identity_public_key;
  issuer_pubkey = issuer;
  serial = cert.serial;
  not_before = cert.not_before;
  expires_at = cert.expires_at;
  enrolled_at_ns = enrolled_at_ns;
  certificate = certificate;
  revoked = false;
}

-- The transaction of EnrollManaged.
unfoldable pub enroll_tx : World → Bytes → Bytes → Certificate → Bytes → Action Db Error Unit
enroll_tx w hash issuer cert certificate = do
  query w 0
  query w 1
  current_policy w hash
  query w 2
  n ← gets (λ db. count (has_serial cert.serial) db.revocations)
  require (eqb n 0) v2_policy
  query w 3
  old ← gets (λ db. select_row (is_enrolled cert.urn) db.managed)
  require (not (is_other_key old cert.identity_public_key)) v2_conflict
  query w 4
  (λ db. (
    ok tt,
    record db {
      managed = upsert (grant_row cert issuer certificate (enrolled_at w issuer old)) db.managed;
    },
  ))
  query w 5

-- The transaction of RevokeManaged.
unfoldable pub revoke_tx : World → Bytes → Action Db Error Unit
revoke_tx w serial = do
  query w 0
  query w 1
  n ← gets (λ db. count (has_serial serial) db.revocations)
  (λ db. (
    ok tt,
    (if eqb n 0
        then record db {
          revocations =
              db.revocations ++ record { serial = serial; revoked_at = unix (w.clock 0) } ∷ [];
        }
        else db),
  ))
  query w 2
  (λ db. (
    ok tt,
    record db {
      managed = update (has_serial_grant serial) (λ r. record r { revoked = true }) db.managed;
    },
  ))
  query w 3

unfoldable pub written :
    {Env : Type 0} → Store Env → Result Error Unit × Db → Result Error Unit × Store Env
written s (r, db) = (r, record s { db = db })

module _ {Env : Type 0} {Policy : Type 0} (issuer : Issuer Policy) (authorize : Bytes → Bool) where
  open issuer use {
    managed_issuer_public_key, policy_hash, parse_managed_certificate, verify_managed_certificate,
  }

  unfoldable pub enroll_parsed :
      World → Store Env → Policy → Bytes → Certificate → Action (Store Env) Error Unit
  unfolding written
  enroll_parsed w before policy certificate cert s =
      if not (verify_managed_certificate cert policy (w.clock 0))
      then (err unverified, s)
      else if not (authorize cert.urn)
      then (err unauthorized, s)
      else if ltb 128 (length cert.serial) || ltb 8192 (length certificate)
      then (err invalid_message, s)
      else if not (eqb (length before.v2_managed_issuer) 32)
          || not (before.v2_managed_issuer == managed_issuer_public_key policy)
      then (err v2_policy, s)
      else written s (
          transaction
            (enroll_tx w (policy_hash policy) (managed_issuer_public_key policy) cert certificate)
            s.db)

  unfoldable pub enroll_managed : World → Store Env → Policy → Bytes → Action (Store Env) Error Unit
  enroll_managed w before policy certificate s = elim (parse_managed_certificate certificate) [
    | none ↦ (err unverified, s)
    | some cert ↦ enroll_parsed w before policy certificate cert s
  ]

unfoldable pub revoke_managed : {Env : Type 0} → World → Bytes → Action (Store Env) Error Unit
unfolding written
revoke_managed w serial s =
    if is_empty serial || ltb 128 (length serial)
    then (err invalid_message, s)
    else written s (transaction (revoke_tx w serial) s.db)
