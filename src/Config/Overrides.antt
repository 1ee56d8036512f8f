-- ===== src/Config/Overrides.antt =====
-- The overrides that the console persists: how they are read, laid over a configuration, and
-- saved (internal/config/config.go). The YAML package is a parameter that calls back the
-- unmarshalling of the source.
use agent_comm_platform.Base.{Bool, true, false, Option, none, some, List, [], ◌∷◌, if◌then◌else◌}
use agent_comm_platform.Base.Int.{ℤ, pos, ltb_ℤ}
use agent_comm_platform.Base.Bytes.{Bytes}
use agent_comm_platform.Base.Action.{Result, ok, err, Action, and_then, try}
use agent_comm_platform.Config.Settings.{
  Config, Key, registry_ttl_hours, mq_default_ttl_days, mq_max_msgs_per_urn, relay_enabled,
  relay_max_reservations, relay_max_circuit_duration, other, Error, read_policies, parse_policies,
  negative_history, failed, marshal, Scalar, validate_compliance_retention_days,
  validate_admin_editable_setting, unmarshal_days,
}
use agent_comm_platform.Config.Files.{Disk, Io, replace_file}

pub record Overrides : Type 0 where
  pub store_user_data : Option Bool
  pub forward_to_storage_platforms : Option Bool
  pub history_retention_days : Option ℤ
  pub compliance_retention_days : Option ℤ
  pub registry_reset_pending : Bool
  pub registry_ttl_hours : Option ℤ
  pub mq_default_ttl_days : Option ℤ
  pub mq_max_msgs_per_urn : Option ℤ
  pub relay_enabled : Option Bool
  pub relay_max_reservations : Option ℤ
  pub relay_max_circuit_duration : Option Bytes

unfoldable pub no_overrides : Overrides
no_overrides = record {
  store_user_data = none;
  forward_to_storage_platforms = none;
  history_retention_days = none;
  compliance_retention_days = none;
  registry_reset_pending = false;
  registry_ttl_hours = none;
  mq_default_ttl_days = none;
  mq_max_msgs_per_urn = none;
  relay_enabled = none;
  relay_max_reservations = none;
  relay_max_circuit_duration = none;
}

-- gopkg.in/yaml.v3 on the overrides, with `time.ParseDuration`.
pub record Env : Type 0 where
  pub marshal_overrides : Overrides → Bytes
  pub decode_overrides : (Scalar → Result Error ℤ) → Bytes → Option Overrides
  pub parse_duration : Bytes → Option ℤ

abbrev pub is_set : {A : Type 0} → Option A → Bool
is_set none = false
is_set (some a) = true

-- `if o != nil { cfg = *o }`
abbrev pub or_else : {A : Type 0} → Option A → A → A
or_else none a = a
or_else (some b) a = b

unfoldable pub overlay : Overrides → Config → Config
overlay o cfg = record cfg {
  platform = record cfg.platform {
    compliance_retention_days =
        or_else o.compliance_retention_days cfg.platform.compliance_retention_days;
    store_user_data = or_else o.store_user_data cfg.platform.store_user_data;
    forward_to_storage_platforms =
        or_else o.forward_to_storage_platforms cfg.platform.forward_to_storage_platforms;
    history_retention_days = or_else o.history_retention_days cfg.platform.history_retention_days;
  };
  registry = record cfg.registry {
    ttl_hours = or_else o.registry_ttl_hours cfg.registry.ttl_hours;
  };
  mq = record cfg.mq {
    default_ttl_days = or_else o.mq_default_ttl_days cfg.mq.default_ttl_days;
    max_msgs_per_urn = or_else o.mq_max_msgs_per_urn cfg.mq.max_msgs_per_urn;
  };
  relay = record cfg.relay {
    enabled = or_else o.relay_enabled cfg.relay.enabled;
    max_reservations = or_else o.relay_max_reservations cfg.relay.max_reservations;
    max_circuit_duration = or_else o.relay_max_circuit_duration cfg.relay.max_circuit_duration;
  };
}

-- The two checks before the overlay.
unfoldable pub check_history : Option ℤ → Result Error Unit
check_history none = ok tt
check_history (some days) = if ltb_ℤ days (pos 0) then err negative_history else ok tt

unfoldable pub check_compliance : Option ℤ → Result Error Unit
check_compliance none = ok tt
check_compliance (some days) = validate_compliance_retention_days days

-- The settings that are validated where they are overridden.
unfoldable pub present_keys : Overrides → List (Key × Bool)
present_keys o =
    (registry_ttl_hours, is_set o.registry_ttl_hours)
    ∷ (mq_default_ttl_days, is_set o.mq_default_ttl_days)
    ∷ (mq_max_msgs_per_urn, is_set o.mq_max_msgs_per_urn)
    ∷ (relay_max_reservations, is_set o.relay_max_reservations)
    ∷ (relay_max_circuit_duration, is_set o.relay_max_circuit_duration)
    ∷ []

-- The switch over the key.
unfoldable pub put : Config → Key → Overrides → Overrides
put cfg registry_ttl_hours o = record o { registry_ttl_hours = some cfg.registry.ttl_hours }
put cfg mq_default_ttl_days o = record o { mq_default_ttl_days = some cfg.mq.default_ttl_days }
put cfg mq_max_msgs_per_urn o = record o { mq_max_msgs_per_urn = some cfg.mq.max_msgs_per_urn }
put cfg relay_enabled o = record o { relay_enabled = some cfg.relay.enabled }
put cfg relay_max_reservations o = record o {
  relay_max_reservations = some cfg.relay.max_reservations;
}
put cfg relay_max_circuit_duration o = record o {
  relay_max_circuit_duration = some cfg.relay.max_circuit_duration;
}
put cfg (other name) o = o

-- The live policies and the recovery marker.
unfoldable pub with_live : Config → Overrides → Overrides
with_live cfg o = record o {
  store_user_data = some cfg.platform.store_user_data;
  forward_to_storage_platforms = some cfg.platform.forward_to_storage_platforms;
  history_retention_days = some cfg.platform.history_retention_days;
  compliance_retention_days = some cfg.platform.compliance_retention_days;
  registry_reset_pending = cfg.admin_registry_reset_pending;
}

module _ (env : Env) where
  -- The loop; Go takes the keys in any order, and the order decides only which error is reported.
  unfoldable pub validate_present : Config → List (Key × Bool) → Result Error Unit
  validate_present cfg [] = ok tt
  validate_present cfg (k ∷ rest) =
      let others = validate_present cfg rest in
      if k.1
      then and_then (validate_admin_editable_setting env.parse_duration cfg k.0) others
      else others

  unfoldable pub read_admin_policy_overrides : Bool → Option Bytes → Result Error Overrides
  read_admin_policy_overrides fault none = if fault then err read_policies else ok no_overrides
  read_admin_policy_overrides fault (some content) =
      if fault then err read_policies else elim (env.decode_overrides unmarshal_days content) [
        | none ↦ err parse_policies
        | some o ↦ ok o
      ]

  unfoldable pub apply_overrides : Config → Overrides → Result Error Config
  apply_overrides cfg o = and_then (check_history o.history_retention_days) (
      and_then (check_compliance o.compliance_retention_days) (
        and_then (validate_present (overlay o cfg) (present_keys o))
          (ok record (overlay o cfg) { admin_registry_reset_pending = o.registry_reset_pending })))

  -- The caller drops the configuration when this fails.
  unfoldable pub load_admin_policies : Bool → Disk → Config → Result Error Config
  load_admin_policies fault d cfg =
      try (read_admin_policy_overrides fault d.policies) (apply_overrides cfg)

  unfoldable pub put_keys : Config → List Key → Overrides → Result Error Overrides
  put_keys cfg [] o = ok o
  put_keys cfg (k ∷ ks) o =
      let rest = put_keys cfg ks (put cfg k o) in
      and_then (validate_admin_editable_setting env.parse_duration cfg k) rest

  -- `saveAdminPolicies`
  unfoldable pub save_overrides : Io → Config → Overrides → Action Disk Error Unit
  save_overrides io cfg o d =
      elim (validate_compliance_retention_days cfg.platform.compliance_retention_days) [
        | err e ↦ (err e, d)
        | ok u ↦
            if ltb_ℤ cfg.platform.history_retention_days (pos 0)
            then (err negative_history, d)
            else if io.fault marshal
            then (err (failed marshal), d)
            else replace_file io (env.marshal_overrides (with_live cfg o)) d
      ]

  unfoldable pub save_admin_editable_settings : Io → Config → List Key → Action Disk Error Unit
  save_admin_editable_settings io cfg keys d =
      elim (read_admin_policy_overrides io.read_fault d.policies) [
        | err e ↦ (err e, d)
        | ok o ↦ elim (put_keys cfg keys o) [
          | err e ↦ (err e, d)
          | ok changed ↦ save_overrides io cfg changed d
        ]
      ]

  unfoldable pub save_admin_policies : Io → Config → Action Disk Error Unit
  save_admin_policies io cfg d = elim (read_admin_policy_overrides io.read_fault d.policies) [
    | err e ↦ (err e, d)
    | ok o ↦ save_overrides io cfg o d
  ]
