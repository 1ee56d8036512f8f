-- ===== src/Mq/Sdk.antt =====
-- What the v1 mailbox calls of the modules agent-comm/crypto, agent-comm/mq and agent-comm/proto.
use agent_comm_platform.Base.{ℕ, Bool, Option}
use agent_comm_platform.Base.Bytes.{Bytes}

-- `Env` is proto.EncryptedEnvelope. `authorize_recipient` is AuthorizeRecipient in the context of the
-- caller, and each test is whether the call returns no error. An empty key in an
-- envelope is nil in Go, here `none`.
pub record Sdk (Env : Type 0) : Type 0 where
  pub message_id : Env → Bytes
  pub sender_urn : Env → Bytes
  pub sender_ed25519_pubkey : Env → Option Bytes
  pub size : Env → ℕ
  pub marshal : Env → Option Bytes
  pub unmarshal : Bytes → Option Env
  pub verify_envelope : Env → Bytes → Bool
