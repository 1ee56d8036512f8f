-- ===== src/Mq/StoreV2.antt =====
-- `storeV2` and `ExistingV2Receipt` of internal/mq/v2_store.go. As in StoreV1, `before` is the state in
-- which the fields under the mutex are read. The archive mutex is held throughout, so the retention
-- of plaintext is that of the state of the action.
pub mod Transaction
pub mod Outcome
pub mod Guarantees
pub mod Bounds
use agent_comm_platform.Mq.StoreV2.Transaction.{
  store_tx, archive, receipt_of_message, receipt_of_admission,
}
use agent_comm_platform.Base.{
  ℕ, ◌+◌, Bool, true, false, not, ◌&&◌, ◌||◌, Option, none, some, List, [], ◌∷◌, ◌++◌, length, ltb,
  leb, eqb, if◌then◌else◌,
}
use agent_comm_platform.Base.Int.{ℤ, pos, pos_part, ltb_ℤ, leb_ℤ}
use agent_comm_platform.Base.Bytes.{Bytes, ◌==◌, is_empty}
use agent_comm_platform.Base.Table.{select_row}
use agent_comm_platform.Base.Action.{Result, ok, err, Action, transaction}
use agent_comm_platform.Mq.StoreV1.{allows, forwards}
use agent_comm_platform.Mq.Tables.{
  V2Row, AdmissionRow, ComplianceMessage, Db, Store, World, Error, invalid_message, v2_policy,
  v2_conflict, storage_disabled, recipient_blocked, database, max_envelope_bytes, unix, has_id_v2,
  has_id_admission,
}

-- The parts of an admitted envelope, as the gateway hands them over.
pub record Delivery : Type 0 where
  pub recipient : Bytes
  pub id : Bytes
  pub policy_hash : Bytes
  pub envelope : Bytes
  pub receipt : Bytes
  pub expiry : ℤ

-- The plaintext and its routing data; `stored_at` of ComplianceMessage is set at the insert.
pub record Archive : Type 0 where
  pub id : Bytes
  pub sender : Bytes
  pub recipient : Bytes
  pub expiry : ℤ
  pub policy_hash : Bytes
  pub policy_epoch : ℕ
  pub content_type : Bytes
  pub plaintext : Bytes

unfoldable pub eqb_ℤ : ℤ → ℤ → Bool
eqb_ℤ a b = leb_ℤ a b && leb_ℤ b a

-- `compliance.ID != id || … || len(compliance.Plaintext) > maxEnvelopeBytes`, negated; `json` is
-- v2.ContentTypeAgentJSON.
unfoldable pub agrees : Bytes → Delivery → Option Archive → Bool
unfolding eqb_ℤ
agrees json d none = true
agrees json d (some a) =
    a.id == d.id
    && a.recipient == d.recipient
    && a.policy_hash == d.policy_hash
    && eqb_ℤ a.expiry d.expiry
    && not (is_empty a.sender)
    && not (eqb a.policy_epoch 0)
    && a.content_type == json
    && not (is_empty a.plaintext)
    && leb (length a.plaintext) max_envelope_bytes

unfoldable pub fits : Delivery → Bool
fits d =
    not (is_empty d.id)
    && leb (length d.id) 256
    && not (is_empty d.recipient)
    && not (is_empty d.envelope)
    && leb (length d.envelope) max_envelope_bytes
    && not (is_empty d.receipt)
    && leb (length d.receipt) 8192

unfoldable pub row_of : Delivery → ℕ → V2Row
row_of d now = record {
  id = d.id;
  recipient = d.recipient;
  envelope = d.envelope;
  receipt = d.receipt;
  policy_hash = d.policy_hash;
  expiry = pos_part d.expiry;
  stored_at = now;
  read_at = 0;
}

unfoldable pub admission_of : (Bytes → Bytes) → Delivery → AdmissionRow
admission_of envelope_hash d = record {
  id = d.id;
  recipient = d.recipient;
  envelope_hash = envelope_hash d.envelope;
  receipt = d.receipt;
  expiry = pos_part d.expiry;
}

unfoldable pub body_of : Delivery → ℕ → Option Archive → Option ComplianceMessage
body_of d now none = none
body_of d now (some a) = some (record {
  id = d.id;
  sender = a.sender;
  recipient = d.recipient;
  stored_at = now;
  expiry = pos_part d.expiry;
  policy_hash = d.policy_hash;
  policy_epoch = a.policy_epoch;
  content_type = a.content_type;
  plaintext = a.plaintext;
})

-- The checks before the transaction.
unfoldable pub admit :
    {Env : Type 0} → Bytes → World → Store Env → ℕ → Delivery → Option Archive → Option Error
admit json w before ttl d a =
    if not (agrees json d a) || not (fits d)
    then some invalid_message
    else if is_empty before.v2_policy_hash || not (before.v2_policy_hash == d.policy_hash)
    then some v2_policy
    else if not (allows before.store_allowed)
    then some storage_disabled
    else if not (forwards before.forward_allowed d.recipient)
    then some recipient_blocked
    else if leb_ℤ d.expiry (pos (unix (w.clock 0))) || ltb_ℤ (pos (unix (w.clock 1 + ttl))) d.expiry
    then some invalid_message
    else none

-- `s.complianceRetentionInitialized.Store(true)`, if there is plaintext.
unfoldable pub mark : {Env : Type 0} → Option Archive → Store Env → Store Env
mark none s = s
mark (some a) s = record s { compliance_retention_initialized = true }

unfoldable pub settled :
    {Env : Type 0} → Store Env → Result Error Bytes × Db → Result Error Bytes × Store Env
settled s (r, db) = (r, record s { db = db })

-- `json` and `envelope_hash` are v2.ContentTypeAgentJSON and v2.EnvelopeHash.
unfoldable pub store_v2 :
    {Env : Type 0}
    → Bytes
    → (Bytes → Bytes)
    → World
    → Store Env
    → Delivery
    → Option Archive
    → Action (Store Env) Error Bytes
unfolding mark settled
store_v2 json envelope_hash w before d a s = elim (admit json w before s.default_ttl_ns d a) [
  | some e ↦ (err e, mark a s)
  | none ↦ settled (mark a s) (
      transaction
        (store_tx w s.max_per_urn s.compliance_retention_days (row_of d (unix (w.clock 0)))
          (admission_of envelope_hash d) (body_of d (unix (w.clock 0)) a))
        s.db)
]

unfoldable pub found : Result Error Bytes → Result Error (Option Bytes)
found (err e) = err e
found (ok receipt) = ok (some receipt)

-- `ExistingV2Receipt`: the queries for the message and for the admission may fail.
unfoldable pub existing_v2_receipt :
    (Bytes → Bytes) → World → Bytes → Bytes → Bytes → Db → Result Error (Option Bytes)
existing_v2_receipt envelope_hash w recipient id envelope db =
    if w.fault 0 then err database else elim (select_row (has_id_v2 id) db.v2_messages) [
      | some old ↦ found (receipt_of_message recipient envelope old)
      | none ↦
          if w.fault 1
          then err database
          else elim (select_row (has_id_admission id) db.admissions) [
            | some old ↦ found (receipt_of_admission recipient (envelope_hash envelope) old)
            | none ↦ ok none
          ]
    ]
