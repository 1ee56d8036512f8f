-- ===== src/Api/Updates.antt =====
-- The switches of the storage and the forwarding policy: internal/api/admin.go. The lock of the
-- policies makes each update one step.
use agent_comm_platform.Base.{ℕ, Bool, true, false, not, Option, none, some, if◌then◌else◌}
use agent_comm_platform.Base.Int.{ℤ}
use agent_comm_platform.Base.Action.{ok, err}
use agent_comm_platform.Config.Settings.{Config, Error as ConfigError}
use agent_comm_platform.Config.Overrides.{Env as ConfigEnv, save_admin_policies}
use agent_comm_platform.Registry.Store.{Error as RegistryError, clear_all_entries}
use agent_comm_platform.Mq.Tables.{Error as MqError}
use agent_comm_platform.Api.Policies.{Platform, Faults, live_config}

pub data Reply : Type 0 where
  bad_request method_not_allowed conflict : Reply
  -- The policy in force, and whether the request changed it.
  done : Bool → Bool → Reply
  retained : ℤ → Reply
  not_saved : ConfigError → Reply
  not_cleared : RegistryError → Reply
  -- The new policy is still on disk.
  recovery_pending : Reply
  -- Whether the period on disk was restored.
  not_applied : Bool → MqError → Reply

unfoldable pub status : Reply → ℕ
status bad_request = 400
status method_not_allowed = 405
status conflict = 409
status (done policy changed) = 200
status (retained days) = 200
status (not_saved e) = 500
status (not_cleared e) = 500
status recovery_pending = 500
status (not_applied restored e) = 500

-- `next := !current; if desired != nil { next = *desired }`
abbrev pub next_policy : Bool → Option Bool → Bool
next_policy current none = not current
next_policy current (some b) = b

infix 50 ◌==ᵇ◌
abbrev pub ◌==ᵇ◌ : Bool → Bool → Bool
true ==ᵇ b = b
false ==ᵇ b = not b

-- The one field of a request's JSON object, where the body decodes strictly, and whether nothing
-- follows the object.
pub record Body : Type 0 where
  pub decoded : Option (Option Bool)
  pub is_last : Bool

unfoldable pub desired_of : Body → Option Bool
desired_of b = elim b.decoded [ none ↦ none | some field ↦ if b.is_last then field else none ]

-- The configuration that a change of the storage policy saves.
unfoldable pub storage_config : {Env : Type 0} → Config → Bool → Platform Env → Config
storage_config cfg next p = record (live_config cfg p) {
  platform = record (live_config cfg p).platform { store_user_data = next };
  admin_registry_reset_pending = true;
}

unfoldable pub forwarding_config : {Env : Type 0} → Config → Bool → Platform Env → Config
forwarding_config cfg next p = record (live_config cfg p) {
  platform = record (live_config cfg p).platform { forward_to_storage_platforms = next };
}

unfoldable pub switch_forwarding : {Env : Type 0} → Bool → Platform Env → Reply × Platform Env
switch_forwarding next p = (
  done next true,
  record p { policies = record p.policies { forward_to_storage_platforms = next } },
)

module _ {Env : Type 0} (config_env : ConfigEnv) (w : Faults) where
  -- The configuration is saved first; what follows it is skipped where that fails.
  unfoldable pub persist :
      Config → (Platform Env → Reply × Platform Env) → Platform Env → Reply × Platform Env
  persist updated follow p =
      let saved = save_admin_policies config_env w.save updated p.disk in
      elim saved.0 [
        | err e ↦ (not_saved e, record p { disk = saved.1 })
        | ok u ↦ follow (record p { disk = saved.1 })
      ]

module _ {Env : Type 0} (config_env : ConfigEnv) (cfg : Config) (w : Faults) where
  -- The registry was not cleared: the old policy is saved again, and where that fails, only a
  -- restart recovers.
  unfoldable pub roll_back : RegistryError → Platform Env → Reply × Platform Env
  roll_back e p =
      let saved = save_admin_policies config_env w.take_back (live_config cfg p) p.disk in
      elim saved.0 [
        | ok u ↦ (not_cleared e, record p { disk = saved.1 })
        | err e' ↦ (
          recovery_pending,
          record p {
            disk = saved.1;
            policies = record p.policies { registry_reset_pending = true };
          },
        )
      ]

  -- The new policy is on disk; it takes force when the registry is empty.
  unfoldable pub switch_storage : Bool → Platform Env → Reply × Platform Env
  switch_storage next p =
      let cleared = clear_all_entries w.registry p.registry in
      elim cleared.0 [
        | err e ↦ roll_back e (record p { registry = cleared.1 })
        | ok u ↦ (
          done next true,
          record p {
            registry = cleared.1;
            policies = record p.policies { store_user_data = next; registry_reset_pending = true };
            restarting = true;
          },
        )
      ]

  unfoldable pub change_storage : Bool → Platform Env → Reply × Platform Env
  change_storage next p = persist config_env w (storage_config cfg next p) (switch_storage next) p

  unfoldable pub update_storage : Option Bool → Platform Env → Reply × Platform Env
  update_storage desired p =
      let next = next_policy p.policies.store_user_data desired in
      if p.policies.registry_reset_pending
      then (conflict, p)
      else if next ==ᵇ p.policies.store_user_data
      then (done p.policies.store_user_data false, p)
      else change_storage next p

  unfoldable pub handle_set_storage : Body → Platform Env → Reply × Platform Env
  handle_set_storage body p = elim (desired_of body) [
    | none ↦ (bad_request, p)
    | some b ↦ update_storage (some b) p
  ]

  unfoldable pub change_forwarding : Bool → Platform Env → Reply × Platform Env
  change_forwarding next p =
      persist config_env w (forwarding_config cfg next p) (switch_forwarding next) p

  unfoldable pub update_forwarding : Option Bool → Platform Env → Reply × Platform Env
  update_forwarding desired p =
      let next = next_policy p.policies.forward_to_storage_platforms desired in
      if next ==ᵇ p.policies.forward_to_storage_platforms
      then (done next false, p)
      else change_forwarding next p

  unfoldable pub handle_set_forwarding : Body → Platform Env → Reply × Platform Env
  handle_set_forwarding body p = elim (desired_of body) [
    | none ↦ (bad_request, p)
    | some b ↦ update_forwarding (some b) p
  ]
