-- ===== src/Config/Startup.antt =====
-- `Load` of internal/config/config.go: the configuration that the platform starts with.
use agent_comm_platform.Base.{
  Bool, not, ◌&&◌, ◌||◌, Option, none, some, List, [], ◌∷◌, if◌then◌else◌,
}
use agent_comm_platform.Base.Bytes.{Bytes, is_empty}
use agent_comm_platform.Base.Action.{Result, ok, err, and_then, try}
use agent_comm_platform.Config.Settings.{
  PlatformConfig, V2Config, ApiConfig, Config, Error, Scalar, default_config, read_config,
  parse_config, tls_pair, trusted_proxy, v2_files, unmarshal_platform,
  validate_compliance_retention_days,
}
use agent_comm_platform.Config.Files.{Disk}
use agent_comm_platform.Config.Overrides.{Env, load_admin_policies}

-- The surroundings of the process: the file of the path, the environment variables, yaml.Unmarshal
-- over the defaults, which calls back the unmarshalling of the platform's part, and net.ParseCIDR.
pub record Host : Type 0 where
  pub config_file : Option Bytes
  pub api_addr : Bytes
  pub data_dir : Bytes
  pub admin_token : Bytes
  pub unmarshal :
      (List (Bytes × Scalar) → Option PlatformConfig → Result Error PlatformConfig)
      → Config
      → Bytes
      → Option Config
  pub is_cidr : Bytes → Bool

abbrev pub from_option : {A : Type 0} → Error → Option A → Result Error A
from_option e none = err e
from_option e (some a) = ok a

abbrev override : Bytes → Bytes → Bytes
override v old = if is_empty v then old else v

unfoldable pub with_variables : Host → Config → Config
with_variables host cfg = record cfg {
  api = record cfg.api {
    listen_addr = override host.api_addr cfg.api.listen_addr;
    admin_token = override host.admin_token cfg.api.admin_token;
  };
  platform = record cfg.platform { data_dir = override host.data_dir cfg.platform.data_dir };
}

-- `(cert == "") != (key == "")`
abbrev pub is_half_pair : ApiConfig → Bool
is_half_pair api =
    is_empty api.tls_cert && not (is_empty api.tls_key)
    || not (is_empty api.tls_cert) && is_empty api.tls_key

unfoldable pub check_cidrs : Host → List Bytes → Result Error Unit
check_cidrs host [] = ok tt
check_cidrs host (c ∷ rest) =
    let others = check_cidrs host rest in if host.is_cidr c then others else err trusted_proxy

abbrev pub lacks_files : V2Config → Bool
lacks_files v2 =
    v2.enabled
    && (is_empty v2.policy_file
        || is_empty v2.policy_root_public_key_file
        || is_empty v2.receipt_private_key_file)

module _ (env : Env) (host : Host) where
  unfoldable pub final_checks : Config → Result Error Config
  final_checks cfg =
      and_then (validate_compliance_retention_days cfg.platform.compliance_retention_days)
        (if lacks_files cfg.v2 then err v2_files else ok cfg)

  unfoldable pub finish : Bool → Disk → Config → Result Error Config
  finish fault d cfg =
      if is_half_pair cfg.api
      then err tls_pair
      else and_then (check_cidrs host cfg.api.trusted_proxy_cidrs)
          (try (load_admin_policies env fault d cfg) final_checks)

  unfoldable pub parse : Bool → Disk → Bytes → Result Error Config
  parse fault d content =
      try (from_option parse_config (host.unmarshal unmarshal_platform default_config content))
        (λ cfg. finish fault d (with_variables host cfg))

  unfoldable pub load : Bytes → Bool → Disk → Result Error Config
  load path fault d =
      if is_empty path
      then ok default_config
      else try (from_option read_config host.config_file) (parse fault d)
