-- ===== src/Api/Policies.antt =====
-- The state that the administration's handlers share, and the policy callbacks that the server
-- gives to the mailboxes: internal/api/server.go.
use agent_comm_platform.Base.{ℕ, Bool, true, not, Option, none, some, if◌then◌else◌}
use agent_comm_platform.Base.Int.{pos}
use agent_comm_platform.Base.Bytes.{Bytes}
use agent_comm_platform.Base.Action.{Result, ok, err}
use agent_comm_platform.Config.Settings.{Config}
use agent_comm_platform.Config.Files.{Disk, Io}
use agent_comm_platform.Registry.Store.{Sdk, Entry, Store as Registry, resolve_entry}
use agent_comm_platform.Mq.Tables.{Store as Mailboxes, World}

-- The flags are atomic, and read by the callbacks without the lock of the policies.
pub record SecurityPolicies : Type 0 where
  pub store_user_data : Bool
  pub forward_to_storage_platforms : Bool
  pub registry_reset_pending : Bool
  pub config_restart_pending : Bool

-- A running platform with its data directory; `restarting` is whether a restart is on its way.
pub record Platform (Env : Type 0) : Type 0 where
  pub policies : SecurityPolicies
  pub registry : Registry
  pub mq : Mailboxes Env
  pub disk : Disk
  pub restarting : Bool

-- What fails in one request: the save, the save that takes it back, the registry, the mailboxes.
pub record Faults : Type 0 where
  pub save : Io
  pub take_back : Io
  pub registry : Bool
  pub mq : World

-- `updated := *cfg` with the live policies of the platform.
unfoldable pub live_config : {Env : Type 0} → Config → Platform Env → Config
live_config cfg p = record cfg {
  platform = record cfg.platform {
    store_user_data = p.policies.store_user_data;
    forward_to_storage_platforms = p.policies.forward_to_storage_platforms;
    history_retention_days = p.mq.history_retention_days;
    compliance_retention_days = pos p.mq.compliance_retention_days;
  };
  admin_registry_reset_pending = p.policies.registry_reset_pending;
}

-- `isForwardAllowedMQ` on what the registry answers.
unfoldable pub allows_entry : {E : Type 0} → Result E (Option Entry) → Bool
allows_entry (ok (some e)) = not e.stores_user_data
allows_entry (ok none) = true
allows_entry (err e) = true

-- `isForwardAllowedMQ` at a call: the time, and whether the registry's query fails.
unfoldable pub is_forward_allowed : {Env : Type 0} → Sdk → Bool → ℕ → Platform Env → Bytes → Bool
is_forward_allowed sdk fault now p urn =
    if p.policies.forward_to_storage_platforms
    then true
    else allows_entry (resolve_entry sdk fault now urn p.registry)

-- The mailboxes with the callbacks that `New` installs, as one call of them sees them.
unfoldable pub serving : {Env : Type 0} → Sdk → Bool → ℕ → Platform Env → Mailboxes Env
serving sdk fault now p = record p.mq {
  store_allowed = some p.policies.store_user_data;
  forward_allowed = some (is_forward_allowed sdk fault now p);
}
