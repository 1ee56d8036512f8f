-- ===== src/Mq/Tests.antt =====
-- A small message store, on which the theorems of the mailbox are tried.
mod Mailboxes
mod StoresV1
mod StoresV2
mod Deliveries
mod Retentions
mod Policies
mod Acknowledgements
mod Administration
mod Handshakes
mod Enrollments
mod Gateways
use agent_comm_platform.Base.{
  ℕ, ◌*◌, ◌^◌, Bool, true, false, Option, none, some, List, [], ◌∷◌, length,
}
use agent_comm_platform.Base.Int.{pos}
use agent_comm_platform.Base.Bytes.{Bytes, ◌==◌}
use agent_comm_platform.Mq.Hub.{Hub, Channel}
use agent_comm_platform.Mq.Sdk.{Sdk}
use agent_comm_platform.Mq.Tables.{
  V1Row, V2Row, PolicyRow, ManagedRow, AdmissionRow, ComplianceMessage, Db, Store, World,
}

abbrev pub alice : Bytes
alice = b'a' ∷ []

abbrev pub bob : Bytes
bob = b'b' ∷ []

-- An envelope is its own ID and its own bytes; alice sends it.
abbrev pub sdk : Sdk Bytes
sdk = record {
  message_id = λ env. env;
  sender_urn = λ env. alice;
  sender_ed25519_pubkey = λ env. some (b'k' ∷ []);
  size = length;
  marshal = λ env. some env;
  unmarshal = λ bytes. some bytes;
  verify_envelope = λ env recipient. true;
}

abbrev pub authorize : Bytes → Bool
authorize urn = true

-- The clock stands, and no call of the database fails.
abbrev pub world : ℕ → World
world seconds = record { clock = λ i. seconds * 10 ^ 9; fault = λ i. false }

abbrev pub policy : PolicyRow
policy = record {
  epoch = 3;
  policy_hash = b'h' ∷ [];
  expires_at = 1000;
  require_v2 = true;
  issuer_pubkey = b'i' ∷ [];
}

-- bob's grant.
abbrev pub grant : ManagedRow
grant = record {
  urn = bob;
  identity_pubkey = b'j' ∷ [];
  issuer_pubkey = b'i' ∷ [];
  serial = b'1' ∷ [];
  not_before = pos 0;
  expires_at = pos 900;
  enrolled_at_ns = 1;
  certificate = [];
  revoked = false;
}

abbrev pub v1_row : Bytes → Bytes → V1Row
v1_row id recipient = record {
  id = id;
  recipient = recipient;
  payload = id;
  expiry = 500;
  stored_at = 90;
  stored_at_ns = 90 * 10 ^ 9;
  read_at = 0;
}

abbrev pub v2_row : Bytes → Bytes → V2Row
v2_row id recipient = record {
  id = id;
  recipient = recipient;
  envelope = b'e' ∷ [];
  receipt = b'r' ∷ [];
  policy_hash = b'h' ∷ [];
  expiry = 500;
  stored_at = 90;
  read_at = 0;
}

abbrev pub body_at : Bytes → ℕ → ComplianceMessage
body_at id t = record {
  id = id;
  sender = alice;
  recipient = bob;
  stored_at = t;
  expiry = 500;
  policy_hash = b'h' ∷ [];
  policy_epoch = 3;
  content_type = [];
  plaintext = b'p' ∷ [];
}

-- One message of either version for bob, under the policy; two bodies in the archive.
abbrev pub db : Db
db = record {
  messages = v1_row (b'm' ∷ []) bob ∷ [];
  v2_messages = v2_row (b'n' ∷ []) bob ∷ [];
  frames = [];
  policy_state = some policy;
  managed = grant ∷ [];
  revocations = [];
  admissions = [];
  compliance = body_at (b'c' ∷ []) 10 ∷ body_at (b'd' ∷ []) 90 ∷ [];
}

-- A bound of three messages, a lifetime of an hour, one day of plaintext.
abbrev pub store : Store Bytes
store = record {
  db = db;
  default_ttl_ns = 3600 * 10 ^ 9;
  max_per_urn = 3;
  history_retention_days = pos 7;
  compliance_retention_days = 1;
  compliance_retention_initialized = true;
  hub = record {
    subscribers = (bob, 0 ∷ []) ∷ [];
    subscriber_count = 1;
    channel = λ ch. record { capacity = 1; queue = [] };
  };
  store_allowed = some true;
  forward_allowed = none;
  v2_required = false;
  v2_policy_hash = b'h' ∷ [];
  v2_policy_expiry = 1000;
  v2_managed_issuer = b'i' ∷ [];
}
