-- ===== src/Api/Editable.antt =====
-- The console's editor of startup settings: internal/api/admin_config_editable.go. JSON values are
-- taken as decoded, SHA-256 and HMAC with the encoding of their input are parameters, and of the
-- answers the texts for the administrator are left out.
use agent_comm_platform.Base.{
  Bool, true, false, not, ◌&&◌, Option, List, [], ◌∷◌, map, eqb, if◌then◌else◌,
}
use agent_comm_platform.Base.Int.{ℤ, pos, negsuc}
use agent_comm_platform.Base.Bytes.{Bytes, ◌==◌}
use agent_comm_platform.Base.Action.{Result, ok, err, and_then, try}
use agent_comm_platform.Config.Settings.{
  Config, Key, registry_ttl_hours, mq_default_ttl_days, mq_max_msgs_per_urn, relay_enabled,
  relay_max_reservations, relay_max_circuit_duration, other, Error as ConfigError,
  validate_admin_editable_setting,
}
use agent_comm_platform.Api.Updates.{◌==ᵇ◌}

-- A JSON value, as far as the settings tell them apart.
pub data Json : Type 0 where
  integer : ℤ → Json
  boolean : Bool → Json
  string : Bytes → Json
  null : Json
  otherwise : Json

pub data EditError : Type 0 where
  wrong_type : Key → EditError
  not_editable : Bytes → EditError
  invalid_setting : ConfigError → EditError
  compliance_relay : EditError

-- `json.Unmarshal` into an int, a *bool that is not nil, and a string. A null leaves the zero value.
as_int : Key → Json → Result EditError ℤ
as_int k (integer n) = ok n
as_int k null = ok (pos 0)
as_int k _ = err (wrong_type k)

as_bool : Key → Json → Result EditError Bool
as_bool k (boolean b) = ok b
as_bool k _ = err (wrong_type k)

as_string : Key → Json → Result EditError Bytes
as_string k (string t) = ok t
as_string k null = ok []
as_string k _ = err (wrong_type k)

-- One turn of the loop over the changes, which Go runs in any order of the keys.
unfoldable pub set_value : Key → Json → Config → Result EditError Config
unfolding as_int as_bool as_string
set_value registry_ttl_hours v cfg =
    try (as_int registry_ttl_hours v)
      (λ n. ok record cfg { registry = record cfg.registry { ttl_hours = n } })
set_value mq_default_ttl_days v cfg =
    try (as_int mq_default_ttl_days v)
      (λ n. ok record cfg { mq = record cfg.mq { default_ttl_days = n } })
set_value mq_max_msgs_per_urn v cfg =
    try (as_int mq_max_msgs_per_urn v)
      (λ n. ok record cfg { mq = record cfg.mq { max_msgs_per_urn = n } })
set_value relay_enabled v cfg =
    try (as_bool relay_enabled v) (λ b. ok record cfg { relay = record cfg.relay { enabled = b } })
set_value relay_max_reservations v cfg =
    try (as_int relay_max_reservations v)
      (λ n. ok record cfg { relay = record cfg.relay { max_reservations = n } })
set_value relay_max_circuit_duration v cfg =
    try (as_string relay_max_circuit_duration v)
      (λ t. ok record cfg { relay = record cfg.relay { max_circuit_duration = t } })
set_value (other name) v cfg = err (not_editable name)

unfoldable pub set_values : List (Key × Json) → Config → Result EditError Config
set_values [] cfg = ok cfg
set_values (c ∷ rest) cfg = try (set_value c.0 c.1 cfg) (set_values rest)

unfoldable pub wrapped : Result ConfigError Unit → Result EditError Unit
wrapped (ok u) = ok tt
wrapped (err e) = err (invalid_setting e)

module _ (parse_duration : Bytes → Option ℤ) where
  unfoldable pub validate_keys : Config → List Key → Result EditError Unit
  validate_keys cfg [] = ok tt
  validate_keys cfg (k ∷ rest) =
      let others = validate_keys cfg rest in
      and_then (wrapped (validate_admin_editable_setting parse_duration cfg k)) others

  -- The checks that depend on more than one setting; `is_compliance` is the mode of the signed policy.
  unfoldable pub check_relay : Bool → Bool → Config → Result EditError Unit
  check_relay is_compliance was_enabled cfg =
      let limits = validate_keys cfg (relay_max_reservations ∷ relay_max_circuit_duration ∷ []) in
      and_then (if not was_enabled && cfg.relay.enabled then limits else ok tt)
        (if is_compliance && cfg.relay.enabled then err compliance_relay else ok tt)

  unfoldable pub finish_changes : Bool → Bool → List Key → Config → Result EditError Config
  finish_changes is_compliance was_enabled keys cfg =
      and_then (validate_keys cfg keys)
        (and_then (check_relay is_compliance was_enabled cfg) (ok cfg))

  unfoldable pub apply_editable_changes :
      Bool → List (Key × Json) → Config → Result EditError Config
  apply_editable_changes is_compliance changes cfg =
      try (set_values changes cfg)
        (finish_changes is_compliance cfg.relay.enabled (map (λ c. c.0) changes))

-- The values of the editable settings.
pub record Settings : Type 0 where
  pub ttl_hours : ℤ
  pub default_ttl_days : ℤ
  pub max_msgs_per_urn : ℤ
  pub enabled : Bool
  pub max_reservations : ℤ
  pub max_circuit_duration : Bytes

unfoldable pub editable_settings : Config → Settings
editable_settings cfg = record {
  ttl_hours = cfg.registry.ttl_hours;
  default_ttl_days = cfg.mq.default_ttl_days;
  max_msgs_per_urn = cfg.mq.max_msgs_per_urn;
  enabled = cfg.relay.enabled;
  max_reservations = cfg.relay.max_reservations;
  max_circuit_duration = cfg.relay.max_circuit_duration;
}

infix 50 ◌==ℤ◌
unfoldable pub ◌==ℤ◌ : ℤ → ℤ → Bool
pos a ==ℤ pos b = eqb a b
negsuc a ==ℤ negsuc b = eqb a b
_ ==ℤ _ = false

-- Whether a setting is the same in both.
unfoldable pub same_setting : Settings → Settings → Key → Bool
same_setting a b registry_ttl_hours = a.ttl_hours ==ℤ b.ttl_hours
same_setting a b mq_default_ttl_days = a.default_ttl_days ==ℤ b.default_ttl_days
same_setting a b mq_max_msgs_per_urn = a.max_msgs_per_urn ==ℤ b.max_msgs_per_urn
same_setting a b relay_enabled = a.enabled ==ᵇ b.enabled
same_setting a b relay_max_reservations = a.max_reservations ==ℤ b.max_reservations
same_setting a b relay_max_circuit_duration = a.max_circuit_duration == b.max_circuit_duration
same_setting a b (other name) = true

unfoldable pub editable_fields : List Key
editable_fields =
    registry_ttl_hours ∷ mq_default_ttl_days ∷ mq_max_msgs_per_urn ∷ relay_enabled
    ∷ relay_max_reservations ∷ relay_max_circuit_duration ∷ []

-- The keys of `editableChanges`, in the order of the fields.
unfoldable pub changed_keys : Settings → Settings → List Key → List Key
changed_keys a b [] = []
changed_keys a b (k ∷ rest) =
    let others = changed_keys a b rest in if same_setting a b k then others else k ∷ others

unfoldable pub editable_changes : Settings → Settings → List Key
editable_changes current target = changed_keys current target editable_fields
