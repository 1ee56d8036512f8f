-- ===== src/Mq/Gateway.antt =====
-- `AdmitV2` and `CheckCurrent` of internal/mq/v2_gateway.go over the store. The module agent-comm/v2
-- is a parameter; the clearing of key material has no effect on what is modelled.
pub mod Loading
pub mod Loaded
pub mod Guarantees
use agent_comm_platform.Base.{
  ℕ, Bool, true, false, not, ◌&&◌, ◌||◌, Option, none, some, List, [], ◌∷◌, length, ltb,
  if◌then◌else◌,
}
use agent_comm_platform.Base.Int.{ℤ, leb_ℤ}
use agent_comm_platform.Base.Bytes.{Bytes, ◌==◌, is_empty}
use agent_comm_platform.Base.Action.{Result, ok, err, Action, and_then, try}
use agent_comm_platform.Mq.Tables.{Store, World, Error, max_envelope_bytes, unix}
use agent_comm_platform.Mq.StoreV2.{Delivery, Archive, eqb_ℤ, store_v2, existing_v2_receipt}

-- The signed header of an envelope.
pub record Header : Type 0 where
  pub message_id : Bytes
  pub sender_urn : Bytes
  pub recipient_urn : Bytes
  pub expiry : ℤ
  pub policy_hash : Bytes
  pub policy_epoch : ℕ
  pub content_type : Bytes

-- The calls of agent-comm/v2, agent-comm/crypto and agent-comm/mq: each that may fail is an Option or
-- a test. `authorize_recipient` is in the context of the caller, `make_receipt` includes Canonical,
-- and its last argument tells whether the body was inspected.
pub record GatewaySdk (Policy Envelope : Type 0) : Type 0 where
  pub verify_envelope_signature : Bytes → Bytes → Option Envelope
  pub header : Envelope → Header
  pub urn_matches_public_key : Bytes → Bytes → Bool
  pub authorize_recipient : Bytes → Bool
  pub verify_policy : Policy → Bytes → ℕ → Bool
  pub verify_envelope : Policy → Bytes → Bytes → ℕ → Option Envelope
  pub is_compliance : Policy → Bool
  pub gateway_open : Policy → Envelope → Bytes → Option (Bytes × Bytes)
  pub validate_body : Bytes → Bool
  pub make_receipt : Policy → Bytes → Bytes → Bytes → ℕ → Bool → Option Bytes
  pub policy_hash : Policy → Bytes
  pub envelope_hash : Bytes → Bytes
  pub content_type_agent_json : Bytes

pub record V2Gateway (Policy : Type 0) : Type 0 where
  pub policy : Policy
  pub raw_policy : Bytes
  pub root : Bytes
  pub gateway_private : Bytes
  pub receipt_private : Bytes

pub data GatewayError : Type 0 where
  too_large bad_signature wrong_sender wrong_header : GatewayError
  policy_lapsed bad_envelope sealed bad_body no_receipt : GatewayError
  in_store : Error → GatewayError

unfoldable pub from_option : {A : Type 0} → GatewayError → Option A → Result GatewayError A
from_option e none = err e
from_option e (some a) = ok a

abbrev pub ensure : Bool → GatewayError → Result GatewayError Unit
ensure true e = ok tt
ensure false e = err e

module _ {Policy Envelope : Type 0} (sdk : GatewaySdk Policy Envelope) where
  open sdk use {
    verify_envelope_signature, header, urn_matches_public_key, authorize_recipient, verify_policy,
    verify_envelope, is_compliance, gateway_open, validate_body, make_receipt, policy_hash,
    envelope_hash, content_type_agent_json,
  }

  -- `CheckCurrent` at a time; the gateway may be absent.
  unfoldable pub check_current : Option (V2Gateway Policy) → ℕ → Bool
  check_current none now = false
  check_current (some g) now = verify_policy g.policy g.root now

  unfoldable pub is_owner : Bytes → Envelope → Bool
  is_owner sender env =
      urn_matches_public_key (header env).sender_urn sender
      && authorize_recipient (header env).sender_urn

  unfoldable pub is_addressed : Bytes → ℤ → Envelope → Bool
  is_addressed recipient expiry env =
      (header env).recipient_urn == recipient && eqb_ℤ (header env).expiry expiry

  -- Everything before the question for an earlier receipt.
  unfoldable pub authenticate : Bytes → Bytes → Bytes → ℤ → Result GatewayError Envelope
  authenticate sender recipient raw expiry =
      and_then (ensure (not (is_empty raw || ltb max_envelope_bytes (length raw))) too_large) (
        try (from_option bad_signature (verify_envelope_signature sender raw)) (λ env.
          and_then (ensure (is_owner sender env) wrong_sender)
            (and_then (ensure (is_addressed recipient expiry env) wrong_header) (ok env))))

  -- The content key and the plaintext, in compliance mode.
  unfoldable pub open_envelope :
      V2Gateway Policy → Envelope → Result GatewayError (Option (Bytes × Bytes))
  open_envelope g env =
      if not (is_compliance g.policy)
      then ok none
      else try (from_option sealed (gateway_open g.policy env g.gateway_private))
          (λ opened. and_then (ensure (validate_body opened.1) bad_body) (ok (some opened)))

  unfoldable pub content_key : Option (Bytes × Bytes) → Bytes
  content_key none = []
  content_key (some opened) = opened.0

  unfoldable pub is_inspected : Option (Bytes × Bytes) → Bool
  is_inspected none = false
  is_inspected (some opened) = true

  unfoldable pub archive_of : Bytes → Envelope → Option (Bytes × Bytes) → Option Archive
  archive_of recipient env none = none
  archive_of recipient env (some opened) = some record {
    id = (header env).message_id;
    sender = (header env).sender_urn;
    recipient = recipient;
    expiry = (header env).expiry;
    policy_hash = (header env).policy_hash;
    policy_epoch = (header env).policy_epoch;
    content_type = (header env).content_type;
    plaintext = opened.1;
  }

  -- What is handed to the store.
  unfoldable pub delivery_of :
      V2Gateway Policy
      → Bytes
      → Bytes
      → Envelope
      → Option (Bytes × Bytes)
      → Bytes
      → Delivery × Option Archive
  delivery_of g recipient raw env opened receipt = (
    record {
      recipient = recipient;
      id = (header env).message_id;
      policy_hash = policy_hash g.policy;
      envelope = raw;
      receipt = receipt;
      expiry = (header env).expiry;
    },
    archive_of recipient env opened,
  )

  -- The receipt is made at the time `now`.
  unfoldable pub sign_receipt :
      ℕ
      → V2Gateway Policy
      → Bytes
      → Bytes
      → Envelope
      → Option (Bytes × Bytes)
      → Result GatewayError (Delivery × Option Archive)
  sign_receipt now g recipient raw env opened =
      try
        (from_option no_receipt (
          make_receipt g.policy raw (content_key opened) g.receipt_private now
            (is_inspected opened)))
        (λ receipt. ok (delivery_of g recipient raw env opened receipt))

  unfoldable pub inspect :
      World
      → V2Gateway Policy
      → Bytes
      → Bytes
      → Envelope
      → Result GatewayError (Delivery × Option Archive)
  inspect w g recipient raw env =
      try (open_envelope g env) (sign_receipt (unix (w.clock 2)) g recipient raw env)

  -- A new admission, up to the store: the clock is read for the policy, the envelope and the receipt.
  unfoldable pub prepare :
      World
      → V2Gateway Policy
      → Bytes
      → Bytes
      → Bytes
      → Result GatewayError (Delivery × Option Archive)
  prepare w g sender recipient raw =
      and_then (ensure (check_current (some g) (w.clock 0)) policy_lapsed) (
        try (from_option bad_envelope (verify_envelope g.policy sender raw (w.clock 1)))
          (inspect w g recipient raw))

  module _ {Env : Type 0} where
    unfoldable pub answered :
        Bytes → Result Error Bytes × Store Env → Result GatewayError (Bytes × Bytes) × Store Env
    answered id (err e, s) = (err (in_store e), s)
    answered id (ok receipt, s) = (ok (id, receipt), s)

    -- `before` is the state in which the store reads its fields in memory.
    unfoldable pub admit_new :
        World
        → World
        → Store Env
        → Result GatewayError (Delivery × Option Archive)
        → Action (Store Env) GatewayError (Bytes × Bytes)
    admit_new w w_store before (err e) s = (err e, s)
    admit_new w w_store before (ok d) s =
        answered d.0.id (store_v2 content_type_agent_json envelope_hash w_store before d.0 d.1 s)

    unfoldable pub admit_or_return :
        World
        → World
        → Store Env
        → V2Gateway Policy
        → Bytes
        → Bytes
        → Bytes
        → Envelope
        → Result Error (Option Bytes)
        → Action (Store Env) GatewayError (Bytes × Bytes)
    admit_or_return w w_store before g sender recipient raw env (err e) s = (err (in_store e), s)
    admit_or_return w w_store before g sender recipient raw env (ok (some receipt)) s =
        (ok ((header env).message_id, receipt), s)
    admit_or_return w w_store before g sender recipient raw env (ok none) s =
        admit_new w w_store before (prepare w g sender recipient raw) s

    unfoldable pub admit_authenticated :
        World
        → World
        → Store Env
        → V2Gateway Policy
        → Bytes
        → Bytes
        → Bytes
        → Result GatewayError Envelope
        → Action (Store Env) GatewayError (Bytes × Bytes)
    admit_authenticated w w_store before g sender recipient raw (err e) s = (err e, s)
    admit_authenticated w w_store before g sender recipient raw (ok env) s =
        admit_or_return w w_store before g sender recipient raw env
          (existing_v2_receipt envelope_hash w recipient (header env).message_id raw s.db) s

    unfoldable pub admit_v2 :
        World
        → World
        → Store Env
        → V2Gateway Policy
        → Bytes
        → Bytes
        → Bytes
        → ℤ
        → Action (Store Env) GatewayError (Bytes × Bytes)
    admit_v2 w w_store before g sender recipient raw expiry s =
        admit_authenticated w w_store before g sender recipient raw
          (authenticate sender recipient raw expiry) s
