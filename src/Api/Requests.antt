-- ===== src/Api/Requests.antt =====
-- Sequences of the requests that change the live policies, each with its own failures.
pub mod Agreement
use mathlib.Core.Option.{some-injective}
use agent_comm_platform.Base.{
  ◌≤◌, ◌%◌, subst, ◌≡◌, refl, sym, ap, ◌∙◌, ◌⊎◌, Bool, true, false, Bool-cases, arith, not, ◌||◌,
  Option, none, some, List, [], ◌∷◌, inl, inr, Option-cases, if◌then◌else◌,
}
use agent_comm_platform.Base.Int.{ℤ, pos, negsuc, to_int32}
use agent_comm_platform.Base.Bytes.{Bytes, is_empty}
use agent_comm_platform.Base.Action.{ok, err, Result-cases}
use agent_comm_platform.Config.Settings.{Config, within}
use agent_comm_platform.Config.Overrides.{Env as ConfigEnv, save_admin_policies}
use agent_comm_platform.Config.Writes.{RoundTrips}
use agent_comm_platform.Config.Adopted.{with_policies}
use agent_comm_platform.Mq.Tables.{World, Store as Mailboxes, Error as MqError}
use agent_comm_platform.Mq.Retention.{set_compliance_retention_days, set_history_retention_days}
use agent_comm_platform.Api.Decimal.{atoi}
use agent_comm_platform.Api.Policies.{Platform, Faults, live_config}
use agent_comm_platform.Api.Updates.{
  Reply, Body, persist, not_applied, bad_request, method_not_allowed, conflict, update_storage,
  update_forwarding, desired_of, handle_set_storage, handle_set_forwarding,
}
use agent_comm_platform.Api.Retentions.{
  period, with_period, history_config, retain_history, change_history, handle_set_retention,
  compliance_config, apply_compliance, change_compliance, handle_set_compliance_retention,
}
use agent_comm_platform.Api.Safety.{
  Holds, Agrees, persist-Agrees, saved_cases, if-Agrees, update_storage-Agrees,
  update_forwarding-Agrees,
}

pub data Request : Type 0 where
  toggle_storage toggle_forwarding : Request
  set_storage set_forwarding : Body → Request
  set_retention : Bool → Bytes → Request
  set_compliance_retention : List Bytes → Request

module _ {Env : Type 0} (env : ConfigEnv) (cfg : Config) where
  -- The handler of each request.
  unfoldable pub handle : Faults → Request → Platform Env → Reply × Platform Env
  handle w toggle_storage p = update_storage env cfg w none p
  handle w toggle_forwarding p = update_forwarding env cfg w none p
  handle w (set_storage body) p = handle_set_storage env cfg w body p
  handle w (set_forwarding body) p = handle_set_forwarding env cfg w body p
  handle w (set_retention is_post text) p = handle_set_retention env cfg w is_post text p
  handle w (set_compliance_retention values) p = handle_set_compliance_retention env cfg w values p

  abbrev pub run : List (Faults × Request) → Platform Env → Platform Env
  run [] p = p
  run (r ∷ rest) p = run rest (handle r.0 r.1 p).1
