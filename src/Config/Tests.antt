-- ===== src/Config/Tests.antt =====
-- The theorems of the configuration at concrete inputs.
pub mod Encoding
use agent_comm_platform.Base.{
  ℕ, zero, suc, sym, ap, ◌∙◌, ◌≡◌, refl, Bool, true, false, Option, none, some, List, [], ◌∷◌,
  arith, if◌then◌else◌,
}
use agent_comm_platform.Base.Int.{ℤ, pos, negsuc}
use agent_comm_platform.Base.Bytes.{Bytes, ascii, ◌==◌}
use agent_comm_platform.Base.Action.{Result, ok, err}
use agent_comm_platform.Config.Settings.{
  Config, Key, Scalar, Error, Step, write, failed, registry_ttl_hours, relay_enabled, check, within,
  default_config, validate_compliance_retention_days, validate_admin_editable_setting,
  unmarshal_days,
}
use agent_comm_platform.Config.Files.{
  Disk, Io, IsLeft, replace_file, fill_and_rename, perform, write_temp, rename_temp,
}
use agent_comm_platform.Config.Overrides.{
  Overrides, Env, no_overrides, overlay, apply_overrides, check_history, check_compliance, put,
  put_keys, present_keys, validate_present, with_live, read_admin_policy_overrides,
  load_admin_policies, save_overrides, save_admin_editable_settings, save_admin_policies,
}
use agent_comm_platform.Config.Startup.{
  Host, load, parse, finish, final_checks, check_cidrs, with_variables,
}
use agent_comm_platform.Config.Writes.{int_node, RoundTrips, save_settings_err}
use agent_comm_platform.Config.Adopted.{adopt_all, with_policies}
use agent_comm_platform.Config.RoundTrip.{load-save_settings}
use agent_comm_platform.Config.Accepted.{IsAccepted, load-IsAccepted}
use agent_comm_platform.Config.Tests.Encoding.{flat, env, env-RoundTrips}

abbrev works : Io
works = record { read_fault = false; fault = λ step. false; remove_fault = false; written = 0 }

abbrev is_write : Step → Bool
is_write write = true
is_write _ = false

-- The disk fills up while the temporary file is written, and the file cannot be removed.
abbrev breaks : Io
breaks = record { read_fault = false; fault = is_write; remove_fault = true; written = 3 }

-- The console has closed the relay.
abbrev earlier : Disk
earlier = record {
  policies = some (flat (record no_overrides { relay_enabled = some false }));
  temp = none;
  left_over = [];
}

abbrev longer : Config
longer = record default_config {
  registry = record default_config.registry { ttl_hours = pos 48 };
  platform = record default_config.platform { history_retention_days = pos 5 };
}

abbrev closed : Config
closed = record default_config { relay = record default_config.relay { enabled = false } }

saves_longer :
    (save_admin_editable_settings env works longer (registry_ttl_hours ∷ []) earlier).0 ≡ ok tt
unfolding save_admin_editable_settings read_admin_policy_overrides put_keys put save_overrides
    no_overrides validate_admin_editable_setting validate_compliance_retention_days default_config
    replace_file
saves_longer = refl

loads_earlier : load_admin_policies env false earlier default_config ≡ ok closed
unfolding load_admin_policies read_admin_policy_overrides no_overrides apply_overrides check_history
    check_compliance validate_present present_keys default_config overlay
loads_earlier = refl

load-save_settings_example :
    load_admin_policies env false
      (save_admin_editable_settings env works longer (registry_ttl_hours ∷ []) earlier).1
      default_config
    ≡ ok (with_policies longer (adopt_all longer (registry_ttl_hours ∷ []) closed))
load-save_settings_example =
    load-save_settings env env-RoundTrips works longer default_config closed
      (registry_ttl_hours ∷ []) earlier saves_longer loads_earlier

fails_to_write :
    (save_admin_editable_settings env breaks longer (registry_ttl_hours ∷ []) earlier).0
    ≡ err (failed write)
unfolding save_admin_editable_settings read_admin_policy_overrides no_overrides put_keys
    validate_admin_editable_setting save_overrides validate_compliance_retention_days default_config
    replace_file
fails_to_write = refl

save_settings_err_example :
    IsLeft breaks earlier
      (save_admin_editable_settings env breaks longer (registry_ttl_hours ∷ []) earlier).1
save_settings_err_example =
    save_settings_err env breaks longer (registry_ttl_hours ∷ []) earlier (failed write) refl
      fails_to_write

abbrev host : Host
host = record {
  config_file = some [];
  api_addr = ascii ":9090";
  data_dir = [];
  admin_token = [];
  unmarshal = λ callback cfg content. some cfg;
  is_cidr = λ c. true;
}

starts : load env host (ascii "c") false earlier ≡ ok (with_variables host closed)
unfolding load parse finish with_variables default_config check_cidrs load_admin_policies
    read_admin_policy_overrides no_overrides apply_overrides check_history check_compliance
    validate_present present_keys final_checks validate_compliance_retention_days overlay
starts = refl

load-IsAccepted_example : IsAccepted host (with_variables host closed)
load-IsAccepted_example =
    load-IsAccepted env host (ascii "c") false earlier (with_variables host closed) starts
