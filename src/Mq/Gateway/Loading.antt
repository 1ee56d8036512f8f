-- ===== src/Mq/Gateway/Loading.antt =====
-- `LoadV2Gateway` of internal/mq/v2_gateway.go: the policy and the keys that the gateway starts with.
use agent_comm_platform.Base.{
  ℕ, Bool, true, false, not, ◌&&◌, Option, none, some, [], length, eqb, if◌then◌else◌,
}
use agent_comm_platform.Base.Bytes.{Bytes, ◌==◌, is_empty}
use agent_comm_platform.Base.Hex.{decode_hex}
use agent_comm_platform.Base.Action.{Result, ok, err, and_then, try}
use agent_comm_platform.Mq.Gateway.{V2Gateway}

-- The files, bytes.TrimSpace, and what the loading calls of agent-comm/v2, Ed25519 and X25519.
pub record LoadSdk (Policy : Type 0) : Type 0 where
  pub read_file : Bytes → Option Bytes
  pub trim_space : Bytes → Bytes
  pub parse_policy : Bytes → Option Policy
  pub verify_policy : Policy → Bytes → ℕ → Bool
  pub platform_id : Policy → Bytes
  pub is_compliance : Policy → Bool
  pub allow_v1 : Policy → Bool
  pub receipt_public_key : Policy → Bytes
  pub gateway_public_key : Policy → Bytes
  pub ed25519_public : Bytes → Bytes
  pub x25519_public : Bytes → Option Bytes

pub data LoadError : Type 0 where
  no_policy bad_policy no_root unverified wrong_platform v1_in_compliance : LoadError
  no_receipt_key wrong_receipt_key no_gateway_file no_gateway_key bad_gateway_key : LoadError
  wrong_gateway_key : LoadError

abbrev pub given : {A : Type 0} → LoadError → Option A → Result LoadError A
given e none = err e
given e (some a) = ok a

abbrev pub refuse_if : Bool → LoadError → Result LoadError Unit
refuse_if true e = err e
refuse_if false e = ok tt

-- 32 or 64 bytes, or twice as many hexadecimal digits.
unfoldable pub of_length : ℕ → Option Bytes → Option Bytes
of_length want none = none
of_length want (some decoded) = if eqb (length decoded) want then some decoded else none

module _ {Policy : Type 0} (sdk : LoadSdk Policy) where
  open sdk use {
    read_file, trim_space, parse_policy, verify_policy, platform_id, is_compliance, allow_v1,
    receipt_public_key, gateway_public_key, ed25519_public, x25519_public,
  }

  unfoldable pub key_of : ℕ → Option Bytes → Option Bytes
  key_of want none = none
  key_of want (some raw) =
      if eqb (length raw) want then some raw else of_length want (decode_hex (trim_space raw))

  unfoldable pub read_v2_key : Bytes → ℕ → Option Bytes
  read_v2_key path want = key_of want (read_file path)

  -- In compliance mode, the private key whose public half the policy names.
  unfoldable pub with_gateway_key : Bytes → V2Gateway Policy → Result LoadError (V2Gateway Policy)
  with_gateway_key gateway_file g = and_then (refuse_if (is_empty gateway_file) no_gateway_file) (
      try (given no_gateway_key (read_v2_key gateway_file 32)) (λ key.
        try (given bad_gateway_key (x25519_public key)) (λ public.
          and_then (refuse_if (not (public == gateway_public_key g.policy)) wrong_gateway_key)
            (ok record g { gateway_private = key }))))

  unfoldable pub with_receipt_key :
      Bytes → Bytes → Policy → Bytes → Bytes → Result LoadError (V2Gateway Policy)
  with_receipt_key gateway_file raw policy root receipt_key =
      let g : V2Gateway Policy = record {
        policy = policy;
        raw_policy = raw;
        root = root;
        gateway_private = [];
        receipt_private = receipt_key;
      } in
      and_then
        (refuse_if (not (ed25519_public receipt_key == receipt_public_key policy))
          wrong_receipt_key)
        (if is_compliance policy then with_gateway_key gateway_file g else ok g)

  unfoldable pub with_root :
      Bytes → Bytes → Bytes → ℕ → Bytes → Policy → Bytes → Result LoadError (V2Gateway Policy)
  with_root gateway_file receipt_file id now raw policy root =
      and_then (refuse_if (not (verify_policy policy root now)) unverified) (
        and_then (refuse_if (not (platform_id policy == id)) wrong_platform) (
          and_then (refuse_if (is_compliance policy && allow_v1 policy) v1_in_compliance) (
            try (given no_receipt_key (read_v2_key receipt_file 64))
              (with_receipt_key gateway_file raw policy root))))

  unfoldable pub with_policy :
      Bytes → Bytes → Bytes → Bytes → ℕ → Bytes → Policy → Result LoadError (V2Gateway Policy)
  with_policy root_file gateway_file receipt_file id now raw policy =
      try (given no_root (read_v2_key root_file 32))
        (with_root gateway_file receipt_file id now raw policy)

  unfoldable pub load_v2_gateway :
      Bytes → Bytes → Bytes → Bytes → Bytes → ℕ → Result LoadError (V2Gateway Policy)
  load_v2_gateway policy_file root_file gateway_file receipt_file id now =
      try (given no_policy (read_file policy_file)) (λ raw.
        try (given bad_policy (parse_policy raw))
          (with_policy root_file gateway_file receipt_file id now raw))
