-- ===== src/Api/Host.antt =====
-- What main of cmd/platform/main.go does between the recovery of the registry and the server:
-- the v2 gateway, the platform's own entry in the registry (registerPlatformIdentity, hostAddrs), the
-- relay and the pinned policy. The libp2p host, the identity and Ed25519 are parameters.
use agent_comm_platform.Base.{
  ℕ, Bool, not, ◌&&◌, Option, none, some, List, [], ◌++◌, map, if◌then◌else◌,
}
use agent_comm_platform.Base.Int.{ℤ, pos}
use agent_comm_platform.Base.Bytes.{Bytes, ascii}
use agent_comm_platform.Base.Action.{Result, ok, err, Action}
use agent_comm_platform.Config.Settings.{Config, Error as ConfigError}
use agent_comm_platform.Registry.Store.{
  Sdk as RegistrySdk, Proof, Store as Registry, Error as RegistryError, register_with_signature,
}
use agent_comm_platform.Mq.Tables.{Store as Mailboxes, World, Error as MqError}
use agent_comm_platform.Mq.Policy.{enable_v2_policy}
use agent_comm_platform.Mq.Gateway.{V2Gateway}
use agent_comm_platform.Mq.Gateway.Loading.{LoadSdk, LoadError, load_v2_gateway}

-- The identity of the platform and its libp2p host, and the fields of a v2 policy that main reads.
-- `sign` is ed25519.Sign over BuildSignedMsg, for a storage policy and a time.
pub record Host (Policy : Type 0) : Type 0 where
  pub urn : Bytes
  pub peer_id : Bytes
  pub listen_addrs : List Bytes
  pub x25519_pk : Bytes
  pub ed25519_pk : Bytes
  pub sign : Bool → ℕ → Bytes
  pub registry_sdk : RegistrySdk
  pub load_sdk : LoadSdk Policy
  pub epoch : Policy → ℕ
  pub policy_hash : Policy → Bytes
  pub expires_at : Policy → ℤ
  pub managed_issuer : Policy → Bytes

-- The readings of the clock, and what fails in one start, next to the Faults of its calls.
pub record Start : Type 0 where
  pub gateway_time : ℕ
  pub timestamp : ℕ
  pub registration_time : ℕ
  pub upgrade_time : ℕ
  pub upgrade_fault : Bool
  pub registration : ℕ → Bool
  pub pin : World
  pub identity_loads : Bool
  pub host_starts : Bool
  pub relay_starts : Bool

pub data Failure : Type 0 where
  config : ConfigError → Failure
  identity host_down relay relay_in_compliance : Failure
  registry : RegistryError → Failure
  reset : ConfigError → Failure
  gateway : LoadError → Failure
  self_register : RegistryError → Failure
  policy : MqError → Failure
  retention : MqError → Failure

module _ {Policy : Type 0} (host : Host Policy) (start : Start) where
  -- In compliance mode the relay must be off.
  unfoldable pub check_mode : Config → V2Gateway Policy → Result Failure (Option (V2Gateway Policy))
  check_mode cfg g =
      if host.load_sdk.is_compliance g.policy && cfg.relay.enabled
      then err relay_in_compliance
      else ok (some g)

  unfoldable pub load_gateway : Config → Result Failure (Option (V2Gateway Policy))
  load_gateway cfg =
      if not cfg.v2.enabled
      then ok none
      else elim (load_v2_gateway host.load_sdk cfg.v2.policy_file cfg.v2.policy_root_public_key_file
          cfg.v2.gateway_private_key_file cfg.v2.receipt_private_key_file host.peer_id
          start.gateway_time) [ err e ↦ err (gateway e) | ok g ↦ check_mode cfg g ]

  -- `fmt.Sprintf("%s/p2p/%s", a, h.ID())`
  unfoldable pub host_addrs : List Bytes
  host_addrs = map (λ a. a ++ ascii "/p2p/" ++ host.peer_id) host.listen_addrs

  unfoldable pub platform_proof : Bool → Proof
  platform_proof stores_user_data = record {
    urn = host.urn;
    peer_id = host.peer_id;
    x25519_pubkey = host.x25519_pk;
    ed25519_pubkey = host.ed25519_pk;
    signature = host.sign stores_user_data start.timestamp;
    stores_user_data = stores_user_data;
    timestamp = pos start.timestamp;
  }

  unfoldable pub register_platform_identity : Bool → Action Registry RegistryError Unit
  register_platform_identity stores_user_data r =
      register_with_signature host.registry_sdk start.registration start.registration_time
        (platform_proof stores_user_data) host_addrs [] r

  -- `EnableV2Policy`, where there is a gateway.
  unfoldable pub pin_gateway :
      {Env : Type 0} → Option (V2Gateway Policy) → Action (Mailboxes Env) MqError Unit
  pin_gateway none s = (ok tt, s)
  pin_gateway (some g) s =
      enable_v2_policy start.pin (host.epoch g.policy) (host.policy_hash g.policy)
        (host.expires_at g.policy) (not (host.load_sdk.allow_v1 g.policy))
        (host.managed_issuer g.policy) s
