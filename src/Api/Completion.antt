-- ===== src/Api/Completion.antt =====
-- A change of the storage policy that was accepted is completed by the restart that follows.
pub mod Healthy
use agent_comm_platform.Base.{
  ℕ, ◌≡◌, refl, sym, ap, subst, ◌∙◌, Bool, true, false, not, Option, none, List, ◌∷◌, [], arith,
  inl, inr, if◌then◌else◌,
}
use agent_comm_platform.Base.Int.{ℤ, pos, ltb_ℤ}
use agent_comm_platform.Base.Action.{Result, ok, err, try_ok, Result-cases}
use agent_comm_platform.Config.Settings.{
  Config, Error as ConfigError, within, check, validate_compliance_retention_days,
}
use agent_comm_platform.Config.Files.{
  Disk, Io, replace_file, fill_and_rename, perform, write_temp, rename_temp,
}
use agent_comm_platform.Config.Overrides.{
  Env as ConfigEnv, Overrides, load_admin_policies, save_admin_policies, save_overrides,
  apply_overrides, read_admin_policy_overrides, with_live,
}
use agent_comm_platform.Config.Writes.{RoundTrips}
use agent_comm_platform.Config.Adopted.{with_policies}
use agent_comm_platform.Config.RoundTrip.{save_policies_ok, load-save_admin_policies}
use agent_comm_platform.Registry.Store.{
  Row, Store as Registry, Error as RegistryError, clear_all_entries, list_check, new_row,
  register_with_signature, is_rollback, upsert,
}
use agent_comm_platform.Mq.Tables.{Store as Mailboxes}
use agent_comm_platform.Mq.Retention.{set_history_retention_days, set_compliance_retention_days}
use agent_comm_platform.Api.Policies.{Platform, Faults, live_config}
use agent_comm_platform.Api.Updates.{
  Reply, done, persist, storage_config, roll_back, switch_storage, change_storage, update_storage,
  next_policy,
}
use agent_comm_platform.Base.Table.{select_row}
use agent_comm_platform.Mq.Gateway.{V2Gateway}
use agent_comm_platform.Api.Host.{
  Host, Start, Failure, identity, self_register, load_gateway, check_mode, host_addrs,
  platform_proof, register_platform_identity, pin_gateway,
}
use agent_comm_platform.Api.Restart.{
  register_and_open, open_platform, open_registry, open_mailboxes, complete_reset,
  recover_pending_registry_reset, new_server, serve, boot,
}
use agent_comm_platform.Api.Safety.{IsSafe}
use agent_comm_platform.Api.Recovery.{policies_of}
use agent_comm_platform.Api.Completion.Healthy.{up, healthy, Succeeds, boot_pending}

module _ {Env : Type 0} (env : ConfigEnv) (faithful : RoundTrips env) (cfg base : Config)
    (w : Faults) where
  -- What an accepted change has done.
  roll_back_refuses :
      (e : RegistryError) (p : Platform Env) (b : Bool)
      → (roll_back env cfg w e p).0 ≡ done b true
      → ⊥
  unfolding roll_back
  roll_back_refuses e p b h = ground arith

  switch_storage_ok :
      (next b : Bool) (p : Platform Env)
      → (switch_storage env cfg w next p).0 ≡ done b true
      → (b ≡ next)
        × ((clear_all_entries w.registry p.registry).0 ≡ ok tt)
        × ((switch_storage env cfg w next p).1 ≡ record p {
          registry = (clear_all_entries w.registry p.registry).1;
          policies = record p.policies { store_user_data = next; registry_reset_pending = true };
          restarting = true;
        })
  unfolding switch_storage
  switch_storage_ok next b p h = elim (Result-cases (clear_all_entries w.registry p.registry).0) [
    | inl (e, failed) ↦ absurd (
        roll_back_refuses e (record p { registry = (clear_all_entries w.registry p.registry).1 }) b
          (rw (failed, switch_storage) at h))
    | inr (u, cleared) ↦
        let again = rw (cleared, switch_storage) at h in
        (cc again, cleared, rw (cleared, switch_storage))
  ]

  update_storage_ok :
      (desired : Option Bool) (b : Bool) (p : Platform Env)
      → (update_storage env cfg w desired p).0 ≡ done b true
      → update_storage env cfg w desired p
        ≡ change_storage env cfg w (next_policy p.policies.store_user_data desired) p
  unfolding update_storage
  update_storage_ok desired b p h = ground arith

  persist_ok :
      (updated : Config) (follow : Platform Env → Reply × Platform Env) (b : Bool)
      (p : Platform Env)
      → (persist env w updated follow p).0 ≡ done b true
      → ((save_admin_policies env w.save updated p.disk).0 ≡ ok tt)
        × (persist env w updated follow p
            ≡ follow (record p { disk = (save_admin_policies env w.save updated p.disk).1 }))
  unfolding persist
  persist_ok updated follow b p h =
      elim (Result-cases (save_admin_policies env w.save updated p.disk).0) [
        | inl (e, failed) ↦ cc (rw (failed, persist) at h)
        | inr (u, saved) ↦ (saved, rw (saved, persist))
      ]

module _ {Env Policy : Type 0} (env : ConfigEnv) (faithful : RoundTrips env) (cfg base : Config)
    (w : Faults) (host : Host Policy) (start : Start) (clock : ℕ → ℕ) where
  -- A change of the storage policy that is answered as made is completed by the next start at which
  -- nothing fails: there is such a start, and it serves the new policy over a registry that holds
  -- the entry of the platform itself and no other, with the forwarding policy as it was and no
  -- reset pending. Besides, the identity must load, the libp2p host and the relay start, the
  -- registration of the platform be valid, and its v2 gateway, if any, load and be pinned.
  pub boot-update_storage :
      (desired : Option Bool) (b : Bool) (p : Platform Env) (s : IsSafe env base p)
      → (update_storage env cfg w desired p).0 ≡ done b true
      → Succeeds host start b s.0 p.mq
      → (q : Platform Env) × (boot env host start
            (healthy clock)
            base
            (update_storage env cfg w desired p).1
          ≡ ok q)
        × (q.policies.store_user_data ≡ b)
        × (q.policies.forward_to_storage_platforms ≡ p.policies.forward_to_storage_platforms)
        × (q.policies.registry_reset_pending ≡ false)
        × ((row : Row) × (q.registry.rows ≡ row ∷ []) × (row.proof ≡ platform_proof host start b))
  unfolding change_storage storage_config live_config load_gateway check_mode open_mailboxes
  boot-update_storage desired b p s h success =
      let next = next_policy p.policies.store_user_data desired in
      let updated = storage_config cfg next p in
      let changed = update_storage_ok env faithful cfg base w desired b p h in
      let kept =
        persist_ok env faithful cfg base w updated (switch_storage env cfg w next) b p
          (sym (ap (λ r. r.0) changed) ∙ h) in
      let saved = (save_admin_policies env w.save updated p.disk).1 in
      let switched =
        switch_storage_ok env faithful cfg base w next b (record p { disk = saved })
          (sym (ap (λ r. r.0) (changed ∙ kept.1)) ∙ h) in
      let ranges = save_policies_ok env w.save updated p.disk kept.0 in
      let loads =
        load-save_admin_policies env faithful w.save updated base s.0 p.disk kept.0 s.1.1 in
      let left : Platform Env = record p {
        policies = record p.policies { store_user_data = next; registry_reset_pending = true };
        registry = (clear_all_entries w.registry p.registry).1;
        disk = saved;
        restarting = true;
      } in
      let reached : (update_storage env cfg w desired p).1 ≡ left =
        ap (λ r. r.1) (changed ∙ kept.1) ∙ switched.2 in
      let still : Succeeds host start b (with_policies updated s.0) p.mq = record {
        loads = success.loads;
        connects = success.connects;
        relays = success.relays;
        valid = success.valid;
        short = success.short;
        stored = success.stored;
        gateway = success.gateway;
        gateway_loads = success.gateway_loads;
        pinned = success.pinned;
      } in
      let booted =
        boot_pending host start b clock env base (with_policies updated s.0) left still loads refl
          (sym switched.0) ranges.0 ranges.1 in
      (
        booted.0,
        ap (boot env host start (healthy clock) base) reached ∙ booted.1,
        ap (λ x. x.store_user_data) booted.2 ∙ sym switched.0,
        ap (λ x. x.forward_to_storage_platforms) booted.2,
        ap (λ x. x.registry_reset_pending) booted.2,
        booted.3,
      )
