-- ===== src/Api/Tests.antt =====
-- The theorems of the administration at concrete inputs.
pub mod Limits
use agent_comm_platform.Base.Table.{delete}
use agent_comm_platform.Mq.Retention.{set_compliance_retention_days}
use agent_comm_platform.Base.{
  ℕ, ◌+◌, ◌*◌, ◌^◌, ◌<◌, ◌≡◌, refl, Bool, true, false, not, ◌&&◌, Option, none, some, List, [], ◌∷◌,
  ◌++◌, arith, All, ◌⊎◌, inl, inr,
}
use agent_comm_platform.Base.Int.{pos}
use agent_comm_platform.Base.Bytes.{Bytes, ascii, ◌==◌}
use agent_comm_platform.Base.Action.{Result, ok, err}
use agent_comm_platform.Config.Settings.{
  Config, Step, rename, default_config, registry_ttl_hours, validate_compliance_retention_days,
  unmarshal_days, check, is_circuit_duration, validate_admin_editable_setting,
}
use agent_comm_platform.Config.Files.{
  Disk, Io, replace_file, fill_and_rename, perform, rename_temp, write_temp,
}
use agent_comm_platform.Config.Overrides.{
  load_admin_policies, read_admin_policy_overrides, save_admin_policies, save_overrides, with_live,
  apply_overrides, check_compliance, check_history, no_overrides, overlay, present_keys,
  validate_present, put, put_keys, save_admin_editable_settings,
}
use agent_comm_platform.Config.Tests.Encoding.{env, env-RoundTrips}
use agent_comm_platform.Registry.Store.{
  Row, Entry, Store as Registry, resolve_entry, clear_all_entries,
}
use agent_comm_platform.Registry.Tests.{sdk as registry_sdk, row_at, two}
use agent_comm_platform.Mq.Tables.{Error as MqError}
use agent_comm_platform.Mq.StoreV1.{store_envelope}
use agent_comm_platform.Mq.Tests.{bob, sdk, authorize, world, store}
use agent_comm_platform.Api.Policies.{SecurityPolicies, Platform, Faults, serving, live_config}
use agent_comm_platform.Api.Updates.{
  Body, done, update_storage, change_storage, persist, storage_config, switch_storage, roll_back,
  change_forwarding, desired_of, forwarding_config, handle_set_forwarding, handle_set_storage,
  switch_forwarding, update_forwarding,
}
use agent_comm_platform.Api.Restart.{boot, new_server, recover_pending_registry_reset, serve}
use agent_comm_platform.Api.Host.{
  Host, Start, Failure, host_addrs, platform_proof, load_gateway, pin_gateway,
}
use agent_comm_platform.Registry.Store.{list_check}
use agent_comm_platform.Api.Safety.{Holds, IsSafe, Agrees}
use agent_comm_platform.Api.Requests.{
  Request, toggle_storage, toggle_forwarding, set_retention, set_compliance_retention, run,
}
use agent_comm_platform.Api.Requests.Agreement.{run-Agrees, IsUnrestored}
use agent_comm_platform.Api.Recovery.{boot_ok, IsRegistered}
use agent_comm_platform.Api.Completion.{boot-update_storage}
use agent_comm_platform.Api.Completion.Healthy.{up, healthy, Succeeds}
use agent_comm_platform.Api.Forwarding.{store_envelope_barred}
use agent_comm_platform.Api.Decimal.{atoi, itoa, IsDigit, atoi-itoa, digits, number, itoa_loop}
use agent_comm_platform.Api.Editable.{
  integer, Settings, editable_settings, editable_fields, apply_editable_changes, set_values,
  set_value, finish_changes, validate_keys, wrapped, check_relay, changed_keys, editable_changes,
  same_setting, ◌==ℤ◌,
}
use agent_comm_platform.Api.Editor.{
  Crypto, EditableRequest, saved, editable_confirmation_token, valid_editable_confirmation_token,
  is_timely, handle_save, decode_editable_request, accept, editable_restart_pending, confirm, cut,
  matches_token, save_changes, signed_part, valid_at,
}
use agent_comm_platform.Api.Edits.{IsEdited, handle_save_ok}
use agent_comm_platform.Api.Tokens.{HasMacs, valid-token}

abbrev clock : ℕ → ℕ
clock i = 100 * 10 ^ 9

abbrev is_rename : Step → Bool
is_rename rename = true
is_rename _ = false

-- The registry's database is down, and the save that would take the policy back does not get through.
abbrev broken : Faults
broken = record {
  save = up;
  take_back = record { read_fault = false; fault = is_rename; remove_fault = false; written = 0 };
  registry = true;
  mq = record { clock = clock; fault = λ i. true };
}

abbrev platform : Platform Bytes
platform = record {
  policies = record {
    store_user_data = true;
    forward_to_storage_platforms = true;
    registry_reset_pending = false;
    config_restart_pending = false;
  };
  registry = two;
  mq = store;
  disk = record { policies = none; temp = none; left_over = [] };
  restarting = false;
}

platform_loads : Holds env default_config platform.disk default_config
unfolding load_admin_policies agent_comm_platform.Config.Overrides.read_admin_policy_overrides
    agent_comm_platform.Config.Overrides.apply_overrides
    agent_comm_platform.Config.Overrides.check_history
    agent_comm_platform.Config.Overrides.no_overrides
    agent_comm_platform.Config.Overrides.check_compliance
    agent_comm_platform.Config.Overrides.validate_present
    agent_comm_platform.Config.Overrides.present_keys default_config
    agent_comm_platform.Config.Overrides.overlay
platform_loads = (refl, refl)

abbrev safe_platform : IsSafe env default_config platform
unfolding default_config
safe_platform = (default_config, platform_loads, refl, refl, inl refl)

-- The same with the periods of the configuration.
abbrev agreeing : Platform Bytes
agreeing = record platform {
  mq = record store { history_retention_days = pos 30; compliance_retention_days = 30 };
}

agreeing-Agrees : Agrees ⊥ env default_config agreeing
unfolding default_config
agreeing-Agrees = (default_config, platform_loads, refl, refl, inl refl, refl, inl refl)

-- A change of the storage policy that gets stuck, then the others.
abbrev requests : List (Faults × Request)
requests =
    (broken, toggle_storage)
    ∷ (healthy clock, toggle_forwarding)
    ∷ (broken, set_compliance_retention (ascii "9" ∷ []))
    ∷ (healthy clock, set_retention true (ascii "12"))
    ∷ []

run-Agrees_example :
    Agrees
      (IsUnrestored env env-RoundTrips default_config default_config requests agreeing)
      env
      default_config
      (run env default_config requests agreeing)
run-Agrees_example =
    run-Agrees env env-RoundTrips default_config default_config requests agreeing agreeing-Agrees

-- The platform's own identity and surroundings, without v2.
abbrev host : Host Bytes
host = record {
  urn = ascii "own";
  peer_id = ascii "peer";
  listen_addrs = ascii "/ip4/10.0.0.1/tcp/4001" ∷ [];
  x25519_pk = ascii "x";
  ed25519_pk = ascii "e";
  sign = λ b t. ascii "s";
  registry_sdk = record {
    validate_registration = λ now p. p.signature == ascii "s";
    verify_registration = λ p. true;
  };
  load_sdk = record {
    read_file = λ path. none;
    trim_space = λ b. b;
    parse_policy = λ b. some b;
    verify_policy = λ p root now. true;
    platform_id = λ p. p;
    is_compliance = λ p. false;
    allow_v1 = λ p. true;
    receipt_public_key = λ p. p;
    gateway_public_key = λ p. p;
    ed25519_public = λ b. b;
    x25519_public = λ b. some b;
  };
  epoch = λ p. 1;
  policy_hash = λ p. p;
  expires_at = λ p. pos 1000;
  managed_issuer = λ p. p;
}

abbrev start : Start
start = record {
  gateway_time = 100;
  timestamp = 100;
  registration_time = 100;
  upgrade_time = 100;
  upgrade_fault = false;
  registration = λ i. false;
  pin = record { clock = clock; fault = λ i. false };
  identity_loads = true;
  host_starts = true;
  relay_starts = true;
}

abbrev booted : Result Failure (Platform Bytes) → Platform Bytes
booted (ok p) = p
booted (err e) = platform

abbrev restarted : Platform Bytes
restarted = booted (boot env host start (healthy clock) default_config platform)

restarts : boot env host start (healthy clock) default_config platform ≡ ok restarted
unfolding boot load_admin_policies read_admin_policy_overrides apply_overrides check_history
    no_overrides check_compliance validate_present present_keys serve recover_pending_registry_reset
    new_server set_compliance_retention_days overlay default_config load_gateway
    agent_comm_platform.Api.Restart.register_and_open
    agent_comm_platform.Api.Host.register_platform_identity
    agent_comm_platform.Registry.Store.register_with_signature ◌==◌ platform_proof list_check
    host_addrs agent_comm_platform.Registry.Store.is_rollback
    agent_comm_platform.Base.Table.select_row agent_comm_platform.Api.Restart.open_registry
    agent_comm_platform.Registry.Store.new_row agent_comm_platform.Api.Restart.open_platform
    pin_gateway
restarts = refl

boot_ok_example :
    IsSafe env default_config restarted
    × (restarted.policies.registry_reset_pending ≡ false)
    × ((r : Registry) × IsRegistered host start restarted.policies.store_user_data r
          restarted.registry
        × ((restarted.policies.store_user_data ≡ platform.policies.store_user_data)
              × (r.rows ≡ platform.registry.rows)
            ⊎ (r.rows ≡ [])))
boot_ok_example =
    boot_ok env env-RoundTrips host start default_config (healthy clock) platform restarted
      safe_platform restarts

accepted :
    (update_storage env default_config (healthy clock) (some false) platform).0 ≡ done false true
unfolding update_storage agent_comm_platform.Api.Updates.change_storage
    agent_comm_platform.Api.Updates.persist agent_comm_platform.Config.Overrides.save_admin_policies
    agent_comm_platform.Config.Overrides.read_admin_policy_overrides
    agent_comm_platform.Config.Overrides.save_overrides
    agent_comm_platform.Config.Settings.validate_compliance_retention_days
    agent_comm_platform.Api.Updates.storage_config agent_comm_platform.Api.Policies.live_config
    agent_comm_platform.Config.Files.replace_file agent_comm_platform.Api.Updates.switch_storage
    agent_comm_platform.Registry.Store.clear_all_entries
accepted = refl

succeeds : Succeeds host start false default_config platform.mq
unfolding platform_proof host_addrs list_check load_gateway pin_gateway default_config ◌==◌
succeeds = record {
  loads = refl;
  connects = refl;
  relays = refl;
  valid = refl;
  short = refl;
  stored = λ i. refl;
  gateway = none;
  gateway_loads = refl;
  pinned = refl;
}

boot-update_storage_example :
    (q : Platform Bytes) × (boot env host start
        (healthy clock)
        default_config
        (update_storage env default_config (healthy clock) (some false) platform).1
      ≡ ok q)
    × (q.policies.store_user_data ≡ false)
    × (q.policies.forward_to_storage_platforms ≡ true)
    × (q.policies.registry_reset_pending ≡ false)
    × ((row : Row) × (q.registry.rows ≡ row ∷ []) × (row.proof ≡ platform_proof host start false))
unfolding default_config
boot-update_storage_example =
    boot-update_storage env env-RoundTrips default_config default_config (healthy clock) host start
      clock (some false) false platform (default_config, platform_loads, refl, refl, inl refl)
      accepted succeeds

-- Bob's platform keeps user data, and this one does not forward to such.
abbrev keeping : Row
keeping = record (row_at bob 20) {
  proof = record (row_at bob 20).proof { stores_user_data = true };
}

abbrev closed_platform : Platform Bytes
closed_platform = record platform {
  policies = record platform.policies { forward_to_storage_platforms = false };
  registry = record { rows = keeping ∷ []; ttl = 100 };
}

abbrev entry : Entry
entry = record { proof = keeping.proof; addrs = []; relay_addrs = []; expires_at = 120 }

finds_bob : resolve_entry registry_sdk false 30 bob closed_platform.registry ≡ ok (some entry)
unfolding resolve_entry agent_comm_platform.Registry.Store.serve
    agent_comm_platform.Base.Table.select_row ◌==◌ agent_comm_platform.Registry.Store.new_row
    agent_comm_platform.Registry.Store.authenticated_entry
    agent_comm_platform.Registry.Store.entry_of_row
    agent_comm_platform.Registry.Codec.decode_string_slice
    agent_comm_platform.Registry.Codec.encode_string_slice
finds_bob = refl

store_envelope_barred_example :
    (e : MqError) × (store_envelope sdk authorize
        (world 100)
        (serving registry_sdk false 30 closed_platform)
        bob
        (some (b'e' ∷ []))
        (pos 0)
        store
      ≡ (err e, store))
store_envelope_barred_example =
    store_envelope_barred sdk authorize (world 100) registry_sdk false 30 closed_platform bob
      (some (b'e' ∷ [])) (pos 0) store (inr (refl, (entry, finds_bob, refl)))

atoi-itoa_example :
    (out : Bytes) × (itoa (pos 1234) ≡ some out) × (atoi out ≡ some (pos 1234)) × All IsDigit out
atoi-itoa_example = atoi-itoa 1234 (omega arith)

abbrev mac_text : Bytes
mac_text = ascii "00112233445566778899aabbccddeeff00112233445566778899aabbccddeeff"

abbrev crypto : Crypto
crypto = record { revision = λ s. ascii "r"; mac = λ key revision settings names expiry. mac_text }

crypto-HasMacs : HasMacs crypto
crypto-HasMacs key revision settings names expiry = refl

abbrev request : EditableRequest
request = record {
  expected_revision = ascii "r";
  changes = (registry_ttl_hours, integer (pos 48)) ∷ [];
  confirmation_token = ascii "100." ++ mac_text;
}

abbrev target : Settings
target = record {
  ttl_hours = pos 48;
  default_ttl_days = pos 7;
  max_msgs_per_urn = pos 500;
  enabled = true;
  max_reservations = pos 1000;
  max_circuit_duration = ascii "2m";
}

valid-token_example :
    (token : Bytes) × (editable_confirmation_token crypto
        (ascii "k")
        (ascii "r")
        target
        request.changes
        100
      ≡ some token)
    × (valid_editable_confirmation_token crypto
          (ascii "k")
          (ascii "r")
          target
          request.changes
          token
          50
        ≡ is_timely 50 100)
valid-token_example =
    valid-token crypto crypto-HasMacs (ascii "k") (ascii "r") target request.changes 100 50
      (omega arith)

saves :
    (handle_save env crypto
      (ascii "k")
      false
      default_config
      (healthy clock)
      50
      (some request)
      platform).0
    ≡ saved target
unfolding handle_save decode_editable_request editable_fields accept editable_restart_pending ◌==◌
    apply_editable_changes set_values set_value finish_changes validate_keys wrapped
    validate_admin_editable_setting check_relay default_config confirm
    valid_editable_confirmation_token cut valid_at atoi number digits is_timely matches_token
    editable_confirmation_token itoa itoa_loop signed_part editable_changes changed_keys
    editable_settings same_setting ◌==ℤ◌ save_changes save_admin_editable_settings save_overrides
    read_admin_policy_overrides put_keys put no_overrides check is_circuit_duration
    validate_compliance_retention_days live_config replace_file fill_and_rename perform write_temp
    rename_temp with_live
saves = refl

loads : load_admin_policies env false platform.disk default_config ≡ ok default_config
unfolding load_admin_policies agent_comm_platform.Config.Overrides.read_admin_policy_overrides
    agent_comm_platform.Config.Overrides.apply_overrides
    agent_comm_platform.Config.Overrides.check_history
    agent_comm_platform.Config.Overrides.no_overrides
    agent_comm_platform.Config.Overrides.check_compliance
    agent_comm_platform.Config.Overrides.validate_present
    agent_comm_platform.Config.Overrides.present_keys default_config
    agent_comm_platform.Config.Overrides.overlay
loads = refl

handle_save_ok_example :
    IsEdited env env-RoundTrips crypto
      (ascii "k")
      false
      default_config
      (healthy clock)
      50
      default_config
      target
      platform
      (handle_save env crypto
        (ascii "k")
        false
        default_config
        (healthy clock)
        50
        (some request)
        platform).1
handle_save_ok_example =
    handle_save_ok env env-RoundTrips crypto (ascii "k") false default_config (healthy clock) 50
      default_config default_config (some request) target platform loads refl saves
