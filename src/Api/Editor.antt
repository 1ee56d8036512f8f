-- ===== src/Api/Editor.antt =====
-- Preview and save of startup settings: the confirmation token and the handlers of
-- internal/api/admin_config_editable.go. Of the preview, the counts of what is affected are left out.
use agent_comm_platform.Base.{
  ℕ, ◌+◌, ◌*◌, Bool, true, false, not, ◌&&◌, ◌||◌, Option, none, some, List, [], ◌∷◌, ◌++◌, map,
  length, leb, ltb, eqb, if◌then◌else◌,
}
use agent_comm_platform.Base.Int.{ℤ, pos}
use agent_comm_platform.Base.Bytes.{Bytes, ascii, ◌==◌, is_empty, less}
use agent_comm_platform.Base.Sort.{sort}
use agent_comm_platform.Base.Action.{ok, err}
use agent_comm_platform.Config.Settings.{
  Config, Key, registry_ttl_hours, mq_default_ttl_days, mq_max_msgs_per_urn, relay_enabled,
  relay_max_reservations, relay_max_circuit_duration, other, Error as ConfigError,
}
use agent_comm_platform.Config.Overrides.{Env as ConfigEnv, save_admin_editable_settings}
use agent_comm_platform.Api.Policies.{SecurityPolicies, Platform, Faults, live_config}
use agent_comm_platform.Api.Decimal.{atoi, itoa}
use agent_comm_platform.Api.Editable.{
  Json, EditError, Settings, editable_settings, editable_changes, editable_fields,
  apply_editable_changes,
}

-- SHA-256 of the settings in hexadecimal digits, and HMAC-SHA-256, in the same form, of a revision,
-- settings, names and a time.
pub record Crypto : Type 0 where
  pub revision : Settings → Bytes
  pub mac : Bytes → Bytes → Settings → List Bytes → Bytes → Bytes

pub record EditableRequest : Type 0 where
  pub expected_revision : Bytes
  pub changes : List (Key × Json)
  pub confirmation_token : Bytes

unfoldable pub key_name : Key → Bytes
key_name registry_ttl_hours = ascii "registry.ttl_hours"
key_name mq_default_ttl_days = ascii "mq.default_ttl_days"
key_name mq_max_msgs_per_urn = ascii "mq.max_msgs_per_urn"
key_name relay_enabled = ascii "relay.enabled"
key_name relay_max_reservations = ascii "relay.max_reservations"
key_name relay_max_circuit_duration = ascii "relay.max_circuit_duration"
key_name (other name) = name

unfoldable pub editable_request_keys : List (Key × Json) → List Bytes
unfolding key_name
editable_request_keys changes = sort less (map (λ c. key_name c.0) changes)

-- Five minutes.
abbrev pub editable_preview_lifetime : ℕ
editable_preview_lifetime = 5 * 60

-- strings.Cut at the first dot.
unfoldable pub cut : Bytes → Option (Bytes × Bytes)
cut [] = none
cut (c ∷ cs) =
    let rest = cut cs in
    if eqb c b'.'
    then some ([], cs)
    else elim rest [ none ↦ none | some parts ↦ some (c ∷ parts.0, parts.1) ]

-- Neither past nor further ahead than a preview may be.
unfoldable pub is_timely : ℕ → ℕ → Bool
is_timely now expiry = leb now expiry && leb expiry (now + editable_preview_lifetime)

-- `hmac.Equal` and the length of a signature.
unfoldable pub matches_token : Bytes → Bytes → Option Bytes → Bool
matches_token token signature none = false
matches_token token signature (some expected) = token == expected && eqb (length signature) 64

module _ (crypto : Crypto) (key : Bytes) (revision : Bytes) (settings : Settings)
    (changes : List (Key × Json)) where
  unfoldable pub signed_part : Bytes → Bytes
  signed_part expiry = crypto.mac key revision settings (editable_request_keys changes) expiry

  -- A time after the epoch; strconv.FormatInt prints it as `itoa` does.
  unfoldable pub editable_confirmation_token : ℕ → Option Bytes
  editable_confirmation_token expires_at = elim (itoa (pos expires_at)) [
    | none ↦ none
    | some expiry ↦ some (expiry ++ b'.' ∷ signed_part expiry)
  ]

  unfoldable pub valid_at : Bytes → ℕ → Bytes → Option ℤ → Bool
  valid_at token now signature (some (pos expiry)) =
      is_timely now expiry && matches_token token signature (editable_confirmation_token expiry)
  valid_at token now signature _ = false

  unfoldable pub valid_editable_confirmation_token : Bytes → ℕ → Bool
  valid_editable_confirmation_token token now = elim (cut token) [
    | none ↦ false
    | some parts ↦ valid_at token now parts.1 (atoi parts.0)
  ]

pub data EditReply : Type 0 where
  malformed unconfirmed restart_pending : EditReply
  stale : Bytes → EditReply
  refused : EditError → EditReply
  previewed : Option Bytes → List Key → EditReply
  unchanged not_confirmed : EditReply
  unsaved : ConfigError → EditReply
  saved : Settings → EditReply

-- The request, where the body decodes to exactly one object.
unfoldable pub decode_editable_request : Option EditableRequest → Option EditableRequest
decode_editable_request none = none
decode_editable_request (some r) =
    if is_empty r.expected_revision
      || eqb (length r.changes) 0
      || ltb (length editable_fields) (length r.changes)
    then none
    else some r

unfoldable pub editable_restart_pending : SecurityPolicies → Bool
editable_restart_pending policies =
    policies.registry_reset_pending || policies.config_restart_pending

abbrev pub current_revision : Crypto → Config → Bytes
current_revision crypto cfg = crypto.revision (editable_settings cfg)

module _ {Env : Type 0} (config_env : ConfigEnv) (crypto : Crypto) (preview_key : Bytes)
    (is_compliance : Bool) (cfg : Config) where
  -- `now` is the time in seconds.
  unfoldable pub handle_preview : ℕ → Option EditableRequest → Platform Env → EditReply
  handle_preview now body p = elim (decode_editable_request body) [
    | none ↦ malformed
    | some r ↦
        if editable_restart_pending p.policies
        then restart_pending
        else if not (r.expected_revision == (current_revision crypto cfg))
        then stale (current_revision crypto cfg)
        else elim (apply_editable_changes config_env.parse_duration is_compliance r.changes cfg) [
          | err e ↦ refused e
          | ok updated ↦
              previewed
                (editable_confirmation_token crypto preview_key (current_revision crypto cfg)
                  (editable_settings updated) r.changes (now + editable_preview_lifetime))
                (editable_changes (editable_settings cfg) (editable_settings updated))
        ]
  ]

  unfoldable pub save_changes : Faults → Config → List Key → Platform Env → EditReply × Platform Env
  save_changes w updated keys p =
      let s = save_admin_editable_settings config_env w.save (live_config updated p) keys p.disk in
      elim s.0 [
        | err e ↦ (unsaved e, record p { disk = s.1 })
        | ok u ↦ (
          saved (editable_settings updated),
          record p {
            disk = s.1;
            policies = record p.policies { config_restart_pending = true };
            restarting = true;
          },
        )
      ]

  -- After the changes were found to be in order.
  unfoldable pub confirm :
      Faults → ℕ → EditableRequest → Config → Platform Env → EditReply × Platform Env
  confirm w now r updated p =
      let target = editable_settings updated in
      let keys = editable_changes (editable_settings cfg) target in
      if not (
        valid_editable_confirmation_token crypto preview_key (current_revision crypto cfg) target
          r.changes r.confirmation_token now)
      then (not_confirmed, p)
      else if eqb (length keys) 0
      then (unchanged, p)
      else save_changes w updated keys p

  unfoldable pub accept : Faults → ℕ → EditableRequest → Platform Env → EditReply × Platform Env
  accept w now r p =
      if is_empty r.confirmation_token
      then (unconfirmed, p)
      else if editable_restart_pending p.policies
      then (restart_pending, p)
      else if not (r.expected_revision == (current_revision crypto cfg))
      then (stale (current_revision crypto cfg), p)
      else elim (apply_editable_changes config_env.parse_duration is_compliance r.changes cfg) [
        | err e ↦ (refused e, p)
        | ok updated ↦ confirm w now r updated p
      ]

  unfoldable pub handle_save :
      Faults → ℕ → Option EditableRequest → Platform Env → EditReply × Platform Env
  handle_save w now body p = elim (decode_editable_request body) [
    | none ↦ (malformed, p)
    | some r ↦ accept w now r p
  ]
