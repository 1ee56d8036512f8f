-- ===== src/Config/Settings.antt =====
-- The configuration record of internal/config/config.go, the settings that the console manages, and
-- their validation. Of a float64 only the 64 bits are kept.
use agent_comm_platform.Base.{
  ℕ, ◌*◌, Bool, true, false, not, ◌||◌, Option, none, some, List, [], ◌∷◌, if◌then◌else◌,
}
use agent_comm_platform.Base.Int.{ℤ, pos, ltb_ℤ}
use agent_comm_platform.Base.Bytes.{Bytes, ◌==◌, ascii}
use agent_comm_platform.Base.Action.{Result, ok, err}

pub record PlatformConfig : Type 0 where
  pub mode : Bytes
  pub data_dir : Bytes
  pub store_user_data : Bool
  pub forward_to_storage_platforms : Bool
  pub history_retention_days : ℤ
  pub compliance_retention_days : ℤ

pub record Libp2pConfig : Type 0 where
  pub listen_addrs : List Bytes
  pub external_addrs : List Bytes

pub record RegistryConfig : Type 0 where
  pub persist_db : Bytes
  pub ttl_hours : ℤ
  pub http_enabled : Bool

pub record RelayConfig : Type 0 where
  pub enabled : Bool
  pub max_reservations : ℤ
  pub max_circuit_duration : Bytes

pub record MqConfig : Type 0 where
  pub db_path : Bytes
  pub default_ttl_days : ℤ
  pub max_msgs_per_urn : ℤ
  pub http_enabled : Bool

pub record V2Config : Type 0 where
  pub enabled : Bool
  pub policy_file : Bytes
  pub policy_root_public_key_file : Bytes
  pub gateway_private_key_file : Bytes
  pub receipt_private_key_file : Bytes

pub record ApiConfig : Type 0 where
  pub listen_addr : Bytes
  pub tls_cert : Bytes
  pub tls_key : Bytes
  pub admin_token : Bytes
  pub rate_limit_rate : ℕ
  pub rate_limit_burst : ℤ
  pub trusted_proxy_cidrs : List Bytes

pub record Config : Type 0 where
  pub platform : PlatformConfig
  pub keys_dir : Bytes
  pub libp2p : Libp2pConfig
  pub registry : RegistryConfig
  pub relay : RelayConfig
  pub mq : MqConfig
  pub v2 : V2Config
  pub api : ApiConfig
  pub admin_registry_reset_pending : Bool

-- 10.0 has the bits 0x4024000000000000.
unfoldable pub default_config : Config
default_config = record {
  platform = record {
    mode = ascii "privacy";
    data_dir = ascii "./data";
    store_user_data = true;
    forward_to_storage_platforms = true;
    history_retention_days = pos 30;
    compliance_retention_days = pos 30;
  };
  keys_dir = ascii "./data/keys";
  libp2p = record {
    listen_addrs = ascii "/ip4/0.0.0.0/tcp/45041" ∷ ascii "/ip4/0.0.0.0/udp/45041/quic-v1" ∷ [];
    external_addrs = [];
  };
  registry = record {
    persist_db = ascii "./data/registry.db";
    ttl_hours = pos 24;
    http_enabled = true;
  };
  relay = record { enabled = true; max_reservations = pos 1000; max_circuit_duration = ascii "2m" };
  mq = record {
    db_path = ascii "./data/mq.db";
    default_ttl_days = pos 7;
    max_msgs_per_urn = pos 500;
    http_enabled = true;
  };
  v2 = record {
    enabled = false;
    policy_file = [];
    policy_root_public_key_file = [];
    gateway_private_key_file = [];
    receipt_private_key_file = [];
  };
  api = record {
    listen_addr = ascii ":8080";
    tls_cert = [];
    tls_key = [];
    admin_token = [];
    rate_limit_rate = 4621819117588971520;
    rate_limit_burst = pos 20;
    trusted_proxy_cidrs = [];
  };
  admin_registry_reset_pending = false;
}

-- The console-managed settings by their names in the source, and any other name.
pub data Key : Type 0 where
  registry_ttl_hours mq_default_ttl_days mq_max_msgs_per_urn : Key
  relay_enabled relay_max_reservations relay_max_circuit_duration : Key
  other : Bytes → Key

-- The operations of a save that may fail, in their order.
pub data Step : Type 0 where
  marshal create chmod write sync close rename : Step

pub data Error : Type 0 where
  read_config parse_config tls_pair trusted_proxy v2_files : Error
  read_policies parse_policies negative_history compliance_range : Error
  setting_range : Key → Error
  not_managed : Bytes → Error
  failed : Step → Error

unfoldable pub check : Bool → Error → Result Error Unit
check true e = ok tt
check false e = err e

-- Neither under the least nor over the greatest value.
abbrev pub within : ℕ → ℕ → ℤ → Bool
within least greatest v = not (ltb_ℤ v (pos least) || ltb_ℤ (pos greatest) v)

unfoldable pub validate_compliance_retention_days : ℤ → Result Error Unit
unfolding check
validate_compliance_retention_days days = check (within 0 36500 days) compliance_range

-- A scalar of a YAML document: its tag, and its value as an int where it decodes as one.
pub record Scalar : Type 0 where
  pub tag : Bytes
  pub as_int : Option ℤ

-- `strictComplianceRetentionDays.UnmarshalYAML`
unfoldable pub unmarshal_days : Scalar → Result Error ℤ
unfolding validate_compliance_retention_days check
unmarshal_days node =
    if not (node.tag == ascii "!!int") then err compliance_range else elim node.as_int [
      | none ↦ err parse_config
      | some v ↦ elim (validate_compliance_retention_days v) [ ok u ↦ ok v | err e ↦ err e ]
    ]

-- The loop over the names and values of a mapping.
unfoldable pub check_fields : List (Bytes × Scalar) → Result Error Unit
unfolding unmarshal_days
check_fields [] = ok tt
check_fields (field ∷ rest) =
    let others = check_fields rest in
    if field.0 == ascii "compliance_retention_days"
    then elim (unmarshal_days field.1) [ ok v ↦ others | err e ↦ err e ]
    else others

-- `PlatformConfig.UnmarshalYAML`; `decoded` is what the decoder makes of the whole mapping.
unfoldable pub unmarshal_platform :
    List (Bytes × Scalar) → Option PlatformConfig → Result Error PlatformConfig
unfolding check_fields
unmarshal_platform fields decoded = elim (check_fields fields) [
  | err e ↦ err e
  | ok u ↦ elim decoded [ none ↦ err parse_config | some p ↦ ok p ]
]

-- Seconds as a Duration.
abbrev seconds : ℕ → ℕ
seconds n = n * 1000000000

-- time.ParseDuration, in nanoseconds.
module _ (parse_duration : Bytes → Option ℤ) where
  unfoldable pub is_circuit_duration : Bytes → Bool
  is_circuit_duration text = elim (parse_duration text) [
    | none ↦ false
    | some d ↦ within (seconds 10) (seconds (24 * 60 * 60)) d
  ]

  unfoldable pub validate_admin_editable_setting : Config → Key → Result Error Unit
  unfolding check is_circuit_duration
  validate_admin_editable_setting cfg registry_ttl_hours =
      check (within 1 8760 cfg.registry.ttl_hours) (setting_range registry_ttl_hours)
  validate_admin_editable_setting cfg mq_default_ttl_days =
      check (within 1 3650 cfg.mq.default_ttl_days) (setting_range mq_default_ttl_days)
  validate_admin_editable_setting cfg mq_max_msgs_per_urn =
      check (within 1 100000 cfg.mq.max_msgs_per_urn) (setting_range mq_max_msgs_per_urn)
  validate_admin_editable_setting cfg relay_enabled = ok tt
  validate_admin_editable_setting cfg relay_max_reservations =
      check (within 1 100000 cfg.relay.max_reservations) (setting_range relay_max_reservations)
  validate_admin_editable_setting cfg relay_max_circuit_duration =
      check (is_circuit_duration cfg.relay.max_circuit_duration)
        (setting_range relay_max_circuit_duration)
  validate_admin_editable_setting cfg (other name) = err (not_managed name)
