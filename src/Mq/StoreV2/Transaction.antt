-- ===== src/Mq/StoreV2/Transaction.antt =====
-- The transaction of `storeV2`.
use agent_comm_platform.Base.{
  ℕ, not, ◌||◌, Option, none, some, [], ◌∷◌, ◌++◌, leb, eqb, if◌then◌else◌,
}
use agent_comm_platform.Base.Bytes.{Bytes, ◌==◌}
use agent_comm_platform.Base.Table.{select_row, count}
use agent_comm_platform.Base.Action.{Result, ok, err, Action, require, pure, gets, ◌>>=◌, ◌>>◌}
use agent_comm_platform.Mq.Tables.{
  V2Row, AdmissionRow, ComplianceMessage, Db, World, Error, queue_full, v2_policy, v2_conflict,
  database, unix, query, pending, has_id, has_id_v2, has_id_admission, has_id_compliance,
}

-- Where an ID was admitted before: the receipt for the same recipient and bytes, or a conflict.
unfoldable pub receipt_of_message : Bytes → Bytes → V2Row → Result Error Bytes
receipt_of_message recipient envelope r =
    if not (r.recipient == recipient) || not (r.envelope == envelope)
    then err v2_conflict
    else ok r.receipt

unfoldable pub receipt_of_admission : Bytes → Bytes → AdmissionRow → Result Error Bytes
receipt_of_admission recipient hash r =
    if not (r.recipient == recipient) || not (r.envelope_hash == hash)
    then err v2_conflict
    else ok r.receipt

-- `currentPolicyHash != policyHash || now >= policyExpiry`; without a row the query fails.
unfoldable pub current_policy : World → Bytes → Action Db Error Unit
current_policy w hash db = elim db.policy_state [
  | none ↦ (err database, db)
  | some p ↦
      if not (p.policy_hash == hash) || leb p.expires_at (unix (w.clock 2))
      then (err v2_policy, db)
      else (ok tt, db)
]

-- `if s.complianceRetentionDays > 0`
unfoldable pub retain : World → ℕ → ComplianceMessage → Action Db Error Unit
retain w days body db =
    if eqb days 0
    then (ok tt, db)
    else if w.fault 10
    then (err database, db)
    else (ok tt, record db { compliance = db.compliance ++ body ∷ [] })

-- The admission hash and, if bodies are retained, the plaintext.
unfoldable pub archive : World → ℕ → AdmissionRow → Option ComplianceMessage → Action Db Error Unit
archive w days admission none db = (ok tt, db)
archive w days admission (some body) db =
    if w.fault 9
    then (err database, db)
    else retain w days body (record db { admissions = db.admissions ++ admission ∷ [] })

-- The row is inserted: the quota, the archive, the commit. The result is the receipt.
unfoldable pub publish :
    World → ℕ → ℕ → V2Row → AdmissionRow → Option ComplianceMessage → Action Db Error Bytes
publish w max days row admission body = do
  (λ db. (ok tt, record db { v2_messages = db.v2_messages ++ row ∷ [] }))
  n ← gets (pending row.stored_at row.stored_at row.recipient)
  (if eqb max 0 then pure tt else do query w 8; require (leb n max) queue_full)
  archive w days admission body
  query w 11
  pure row.receipt

-- INSERT OR IGNORE INTO v2_messages, and what follows it.
unfoldable pub insert_or_replay :
    World → ℕ → ℕ → V2Row → AdmissionRow → Option ComplianceMessage → Action Db Error Bytes
insert_or_replay w max days row admission body db =
    elim (select_row (has_id_v2 row.id) db.v2_messages) [
      | some old ↦
          if w.fault 7
          then (err database, db)
          else (receipt_of_message row.recipient row.envelope old, db)
      | none ↦ publish w max days row admission body db
    ]

-- An admission under the ID decides; without one, neither may the archive hold the ID.
unfoldable pub admit_or_replay :
    World → ℕ → ℕ → V2Row → AdmissionRow → Option ComplianceMessage → Action Db Error Bytes
admit_or_replay w max days row admission body db =
    elim (select_row (has_id_admission row.id) db.admissions) [
      | some old ↦ (receipt_of_admission row.recipient admission.envelope_hash old, db)
      | none ↦
          (do
            query w 5
            n ← gets (λ d. count (has_id_compliance row.id) d.compliance)
            require (eqb n 0) v2_conflict
            query w 6
            insert_or_replay w max days row admission body)
            db
    ]

unfoldable pub store_tx :
    World → ℕ → ℕ → V2Row → AdmissionRow → Option ComplianceMessage → Action Db Error Bytes
store_tx w max days row admission body = do
  query w 1
  query w 2
  current_policy w row.policy_hash
  query w 3
  n ← gets (λ db. count (has_id row.id) db.messages)
  require (eqb n 0) v2_conflict
  query w 4
  admit_or_replay w max days row admission body
