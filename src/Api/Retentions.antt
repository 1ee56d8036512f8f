-- ===== src/Api/Retentions.antt =====
-- The handlers that set the retention of history and of plaintext: internal/api/admin.go and
-- internal/api/admin_compliance.go.
use agent_comm_platform.Base.{
  Bool, true, false, not, ◌||◌, Option, none, some, List, [], ◌∷◌, if◌then◌else◌,
}
use agent_comm_platform.Base.Int.{ℤ}
use agent_comm_platform.Base.Bytes.{Bytes, is_empty}
use agent_comm_platform.Base.Action.{ok, err}
use agent_comm_platform.Config.Settings.{Config, within}
use agent_comm_platform.Config.Overrides.{Env as ConfigEnv, save_admin_policies}
use agent_comm_platform.Mq.Retention.{set_history_retention_days, set_compliance_retention_days}
use agent_comm_platform.Api.Decimal.{atoi}
use agent_comm_platform.Api.Policies.{Platform, Faults, live_config}
use agent_comm_platform.Api.Updates.{
  Reply, bad_request, method_not_allowed, conflict, retained, not_applied, persist,
}

-- The period that a request names, in range.
unfoldable pub period : Bytes → Option ℤ
period text = elim (atoi text) [
  | none ↦ none
  | some days ↦ if within 0 36500 days then some days else none
]

unfoldable pub history_config : {Env : Type 0} → Config → ℤ → Platform Env → Config
history_config cfg days p = record (live_config cfg p) {
  platform = record (live_config cfg p).platform { history_retention_days = days };
}

unfoldable pub compliance_config : {Env : Type 0} → Config → ℤ → Platform Env → Config
compliance_config cfg days p = record (live_config cfg p) {
  platform = record (live_config cfg p).platform { compliance_retention_days = days };
}

-- What follows a period that is in range.
unfoldable pub with_period :
    {Env : Type 0}
    → Option ℤ
    → (ℤ → Platform Env → Reply × Platform Env)
    → Platform Env
    → Reply × Platform Env
with_period none follow p = (bad_request, p)
with_period (some days) follow p = follow days p

unfoldable pub retain_history : {Env : Type 0} → ℤ → Platform Env → Reply × Platform Env
retain_history days p = (retained days, record p { mq = set_history_retention_days days p.mq })

module _ {Env : Type 0} (config_env : ConfigEnv) (cfg : Config) (w : Faults) where
  unfoldable pub change_history : ℤ → Platform Env → Reply × Platform Env
  change_history days p =
      if p.policies.registry_reset_pending
      then (conflict, p)
      else persist config_env w (history_config cfg days p) (retain_history days) p

  -- `text` is the parameter of the query, or else of the form.
  unfoldable pub handle_set_retention : Bool → Bytes → Platform Env → Reply × Platform Env
  handle_set_retention is_post text p =
      if not is_post
      then (method_not_allowed, p)
      else if is_empty text
      then (bad_request, p)
      else with_period (period text) change_history p

  -- The period is on disk; where the mailboxes do not take it, the old one is saved again.
  unfoldable pub apply_compliance : ℤ → Platform Env → Reply × Platform Env
  apply_compliance days p =
      let applied = set_compliance_retention_days w.mq days p.mq in
      let saved = save_admin_policies config_env w.take_back (live_config cfg p) p.disk in
      elim applied.0 [
        | ok u ↦ (retained days, record p { mq = applied.1 })
        | err e ↦ elim saved.0 [
          | ok u ↦ (not_applied true e, record p { mq = applied.1; disk = saved.1 })
          | err e' ↦ (not_applied false e, record p { mq = applied.1; disk = saved.1 })
        ]
      ]

  unfoldable pub change_compliance : ℤ → Platform Env → Reply × Platform Env
  change_compliance days p =
      if p.policies.registry_reset_pending || p.policies.config_restart_pending
      then (conflict, p)
      else persist config_env w (compliance_config cfg days p) (apply_compliance days) p

  -- `values` are the values of the parameter in the form.
  unfoldable pub handle_set_compliance_retention : List Bytes → Platform Env → Reply × Platform Env
  handle_set_compliance_retention (text ∷ []) p = with_period (period text) change_compliance p
  handle_set_compliance_retention _ p = (bad_request, p)
