-- ===== src/Mq/Tables.antt =====
-- The tables of the message database (`schema`, `v2Schema` and `complianceSchema` of
-- internal/mq/store.go, v2_store.go and compliance_store.go) and the state of `Store`. Times are
-- Unix seconds, and nanoseconds where a name ends in `_ns`. A table is a list of rows in the order
-- of insertion; a flag column with the values 0 and 1 is a Boolean.
use agent_comm_platform.Base.{
  ℕ, ◌+◌, ◌/◌, ◌*◌, ◌^◌, Bool, ◌&&◌, ◌||◌, Option, List, ltb, eqb, if◌then◌else◌,
}
use agent_comm_platform.Base.Int.{ℤ}
use agent_comm_platform.Base.Bytes.{Bytes, ◌==◌}
use agent_comm_platform.Base.Table.{count}
use agent_comm_platform.Base.Action.{ok, err, Action}
use agent_comm_platform.Mq.Hub.{Hub}

pub record V1Row : Type 0 where
  pub id : Bytes
  pub recipient : Bytes
  pub payload : Bytes
  pub expiry : ℕ
  pub stored_at : ℕ
  pub stored_at_ns : ℕ
  pub read_at : ℕ

pub record V2Row : Type 0 where
  pub id : Bytes
  pub recipient : Bytes
  pub envelope : Bytes
  pub receipt : Bytes
  pub policy_hash : Bytes
  pub expiry : ℕ
  pub stored_at : ℕ
  pub read_at : ℕ

pub record FrameRow : Type 0 where
  pub id : Bytes
  pub recipient : Bytes
  pub frame : Bytes
  pub expiry : ℕ
  pub stored_at : ℕ
  pub read_at : ℕ

pub record PolicyRow : Type 0 where
  pub epoch : ℕ
  pub policy_hash : Bytes
  pub expires_at : ℕ
  pub require_v2 : Bool
  pub issuer_pubkey : Bytes

pub record ManagedRow : Type 0 where
  pub urn : Bytes
  pub identity_pubkey : Bytes
  pub issuer_pubkey : Bytes
  pub serial : Bytes
  pub not_before : ℤ
  pub expires_at : ℤ
  pub enrolled_at_ns : ℕ
  pub certificate : Bytes
  pub revoked : Bool

pub record RevocationRow : Type 0 where
  pub serial : Bytes
  pub revoked_at : ℕ

-- `v2_compliance_admissions`
pub record AdmissionRow : Type 0 where
  pub id : Bytes
  pub recipient : Bytes
  pub envelope_hash : Bytes
  pub receipt : Bytes
  pub expiry : ℕ

pub record ComplianceMessage : Type 0 where
  pub id : Bytes
  pub sender : Bytes
  pub recipient : Bytes
  pub stored_at : ℕ
  pub expiry : ℕ
  pub policy_hash : Bytes
  pub policy_epoch : ℕ
  pub content_type : Bytes
  pub plaintext : Bytes

pub record Db : Type 0 where
  pub messages : List V1Row
  pub v2_messages : List V2Row
  pub frames : List FrameRow
  pub policy_state : Option PolicyRow
  pub managed : List ManagedRow
  pub revocations : List RevocationRow
  pub admissions : List AdmissionRow
  pub compliance : List ComplianceMessage

pub record Store (Env : Type 0) : Type 0 where
  pub db : Db
  pub default_ttl_ns : ℕ
  pub max_per_urn : ℕ
  pub history_retention_days : ℤ
  pub compliance_retention_days : ℕ
  pub compliance_retention_initialized : Bool
  pub hub : Hub Env
  pub store_allowed : Option Bool
  pub forward_allowed : Option (Bytes → Bool)
  pub v2_required : Bool
  pub v2_policy_hash : Bytes
  pub v2_policy_expiry : ℕ
  pub v2_managed_issuer : Bytes

pub data Error : Type 0 where
  queue_full subscriber_limit invalid_message v1_policy v2_policy v2_conflict id_conflict : Error
  storage_disabled recipient_blocked unverified unauthorized database : Error

abbrev pub max_envelope_bytes : ℕ
max_envelope_bytes = 2 ^ 20

abbrev pub max_retrieve_bytes : ℕ
max_retrieve_bytes = 4 * 2 ^ 20

abbrev pub max_ack_ids : ℕ
max_ack_ids = 1000

-- What an operation meets of its surroundings: the readings of the clock, in nanoseconds and in the
-- order in which it takes them, and which of its calls of the database fail.
pub record World : Type 0 where
  pub clock : ℕ → ℕ
  pub fault : ℕ → Bool

-- time.Time.Unix
unfoldable pub unix : ℕ → ℕ
unix ns = ns / 10 ^ 9

-- A call of the database, which may fail.
abbrev pub query : World → ℕ → Action Db Error Unit
query w i db = if w.fault i then (err database, db) else (ok tt, db)

-- read_at=0 AND (expiry=0 OR expiry>now)
abbrev pub is_pending_v1 : ℕ → Bytes → V1Row → Bool
is_pending_v1 now recipient r =
    r.recipient == recipient && eqb r.read_at 0 && (eqb r.expiry 0 || ltb now r.expiry)

abbrev pub is_pending_v2 : ℕ → Bytes → V2Row → Bool
is_pending_v2 now recipient r = r.recipient == recipient && eqb r.read_at 0 && ltb now r.expiry

-- The sum of the two counts of the quota check, whose two bounds are read apart in StoreEnvelope.
unfoldable pub pending : ℕ → ℕ → Bytes → Db → ℕ
pending now now' recipient db =
    count (is_pending_v1 now recipient) db.messages
    + count (is_pending_v2 now' recipient) db.v2_messages

abbrev pub has_id : Bytes → V1Row → Bool
has_id id r = r.id == id

abbrev pub has_id_v2 : Bytes → V2Row → Bool
has_id_v2 id r = r.id == id

abbrev pub has_id_admission : Bytes → AdmissionRow → Bool
has_id_admission id r = r.id == id

abbrev pub has_id_compliance : Bytes → ComplianceMessage → Bool
has_id_compliance id r = r.id == id
