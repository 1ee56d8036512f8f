-- ===== src/Api/Restart.antt =====
-- A start of the platform over its data directory and its databases: main of cmd/platform/main.go with
-- recoverPendingRegistryReset, NewStore of the registry and of the mailboxes, and what New of
-- internal/api/server.go sets. Lifetimes are taken to be neither negative nor beyond an int64.
use agent_comm_platform.Base.{
  ◌*◌, ◌^◌, Bool, false, not, ◌&&◌, Option, none, some, [], eqb, if◌then◌else◌,
}
use agent_comm_platform.Base.Int.{pos, pos_part}
use agent_comm_platform.Base.Action.{Result, ok, err}
use agent_comm_platform.Config.Settings.{Config}
use agent_comm_platform.Config.Files.{Disk, Io}
use agent_comm_platform.Config.Overrides.{
  Env as ConfigEnv, load_admin_policies, save_admin_policies,
}
use agent_comm_platform.Registry.Store.{Store as Registry, clear_all_entries}
use agent_comm_platform.Mq.Tables.{Db, Store as Mailboxes, World, PolicyRow}
use agent_comm_platform.Mq.Gateway.{V2Gateway}
use agent_comm_platform.Base.Table.{update}
use agent_comm_platform.Mq.Retention.{set_history_retention_days, set_compliance_retention_days}
use agent_comm_platform.Api.Policies.{Platform, Faults}
use agent_comm_platform.Api.Host.{
  Host, Start, Failure, config, identity, host_down, relay, registry, reset, self_register, policy,
  retention, load_gateway, register_platform_identity, pin_gateway,
}

-- `NewStore` of the registry, over the rows of its database.
unfoldable pub open_registry : Config → Registry → Registry
open_registry cfg r = record { rows = r.rows; ttl = pos_part cfg.registry.ttl_hours * 3600 }

abbrev pub requires_v2 : Option PolicyRow → Bool
requires_v2 none = false
requires_v2 (some row) = row.require_v2

-- Grants of an early version get a time of enrolment; an error is ignored.
unfoldable pub date_grants : Start → Db → Db
date_grants start db = if start.upgrade_fault then db else record db {
  managed =
      update (λ r. eqb r.enrolled_at_ns 0) (λ r. record r { enrolled_at_ns = start.upgrade_time })
        db.managed;
}

-- `NewStore` of the mailboxes, over their database.
unfoldable pub open_mailboxes : {Env : Type 0} → Start → Config → Mailboxes Env → Mailboxes Env
open_mailboxes start cfg s = record {
  db = date_grants start s.db;
  default_ttl_ns = pos_part cfg.mq.default_ttl_days * 24 * 3600 * 10 ^ 9;
  max_per_urn = pos_part cfg.mq.max_msgs_per_urn;
  history_retention_days = pos 30;
  compliance_retention_days = 30;
  compliance_retention_initialized = false;
  hub = record {
    subscribers = [];
    subscriber_count = 0;
    channel = λ ch. record { capacity = 0; queue = [] };
  };
  store_allowed = none;
  forward_allowed = none;
  v2_required = requires_v2 s.db.policy_state;
  v2_policy_hash = [];
  v2_policy_expiry = 0;
  v2_managed_issuer = [];
}

-- What `New` sets in the policies and in the mailboxes; a failure is a panic.
unfoldable pub new_server :
    {Env : Type 0}
    → World
    → Config
    → Registry
    → Disk
    → Mailboxes Env
    → Result Failure (Platform Env)
new_server w cfg r d s =
    let applied =
      set_compliance_retention_days w cfg.platform.compliance_retention_days
        (set_history_retention_days cfg.platform.history_retention_days s) in
    elim applied.0 [
      | err e ↦ err (retention e)
      | ok u ↦ ok record {
        policies = record {
          store_user_data = cfg.platform.store_user_data;
          forward_to_storage_platforms = cfg.platform.forward_to_storage_platforms;
          registry_reset_pending = cfg.admin_registry_reset_pending;
          config_restart_pending = false;
        };
        registry = r;
        mq = applied.1;
        disk = d;
        restarting = false;
      }
    ]

module _ {Env Policy : Type 0} (host : Host Policy) (start : Start) where
  -- After the platform's own registration: the relay, the mailboxes with the pinned policy, and `New`.
  unfoldable pub open_platform :
      World
      → Mailboxes Env
      → Config
      → Option (V2Gateway Policy)
      → Registry
      → Disk
      → Result Failure (Platform Env)
  open_platform w s cfg g r d =
      let pinned = pin_gateway host start g (open_mailboxes start cfg s) in
      if cfg.relay.enabled && not start.relay_starts
      then err relay
      else elim pinned.0 [ err e ↦ err (policy e) | ok u ↦ new_server w cfg r d pinned.1 ]

  unfoldable pub register_and_open :
      World
      → Mailboxes Env
      → Config
      → Option (V2Gateway Policy)
      → Registry
      → Disk
      → Result Failure (Platform Env)
  register_and_open w s cfg g r d =
      let registered = register_platform_identity host start cfg.platform.store_user_data r in
      elim registered.0 [
        | err e ↦ err (self_register e)
        | ok u ↦ open_platform w s cfg g registered.1 d
      ]

  -- What comes after the recovery.
  unfoldable pub serve :
      World
      → Mailboxes Env
      → Result Failure Config × Registry × Disk
      → Result Failure (Platform Env)
  serve w s recovered = elim recovered.0 [
    | err e ↦ err e
    | ok cfg ↦ if not start.host_starts then err host_down else elim (load_gateway host start cfg) [
      | err e ↦ err e
      | ok g ↦ register_and_open w s cfg g recovered.1 recovered.2
    ]
  ]

module _ (config_env : ConfigEnv) where
  -- The marker was set: the registry is cleared, and then the marker.
  unfoldable pub complete_reset :
      Bool → Io → Config → Registry → Disk → Result Failure Config × Registry × Disk
  complete_reset fault io cfg r d =
      let done = record cfg { admin_registry_reset_pending = false } in
      let cleared = clear_all_entries fault r in
      let saved = save_admin_policies config_env io done d in
      elim cleared.0 [
        | err e ↦ (err (registry e), cleared.1, d)
        | ok u ↦ elim saved.0 [
          | err e ↦ (err (reset e), cleared.1, saved.1)
          | ok u' ↦ (ok done, cleared.1, saved.1)
        ]
      ]

  -- The configuration that is left, the registry and the disk.
  unfoldable pub recover_pending_registry_reset :
      Bool → Io → Config → Registry → Disk → Result Failure Config × Registry × Disk
  recover_pending_registry_reset fault io cfg r d =
      if not cfg.admin_registry_reset_pending
      then (ok cfg, r, d)
      else complete_reset fault io cfg r d

module _ {Env Policy : Type 0} (config_env : ConfigEnv) (host : Host Policy) (start : Start) where
  -- `base` is the configuration before the overrides are laid over it.
  unfoldable pub boot : Faults → Config → Platform Env → Result Failure (Platform Env)
  boot w base p = elim (load_admin_policies config_env w.save.read_fault p.disk base) [
    | err e ↦ err (config e)
    | ok cfg ↦
        if not start.identity_loads
        then err identity
        else serve host start w.mq p.mq (
            recover_pending_registry_reset config_env w.registry w.take_back cfg
              (open_registry cfg p.registry) p.disk)
  ]
