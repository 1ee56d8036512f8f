-- ===== src/Api/Safety.antt =====
-- What the disk holds agrees with the policies in force, whatever is requested and fails.
use agent_comm_platform.Base.{
  ◌≡◌, refl, Bool, true, false, Option, none, ◌⊎◌, inl, inr, if◌then◌else◌,
}
use agent_comm_platform.Base.Int.{pos}
use agent_comm_platform.Base.Action.{ok, err, Result-cases}
use agent_comm_platform.Config.Settings.{Config, Error as ConfigError}
use agent_comm_platform.Config.Files.{Disk, Io}
use agent_comm_platform.Config.Overrides.{
  Env as ConfigEnv, load_admin_policies, save_admin_policies,
}
use agent_comm_platform.Config.Writes.{RoundTrips}
use agent_comm_platform.Config.Adopted.{with_policies}
use agent_comm_platform.Config.RoundTrip.{save_policies-cases}
use agent_comm_platform.Registry.Store.{Error as RegistryError, clear_all_entries}
use agent_comm_platform.Api.Policies.{Platform, Faults, live_config}
use agent_comm_platform.Api.Updates.{
  Reply, conflict, done, storage_config, roll_back, switch_storage, change_storage, update_storage,
  forwarding_config, persist, switch_forwarding, change_forwarding, update_forwarding, next_policy,
  ◌==ᵇ◌,
}

-- The overrides on disk load over `base`, as the configuration `c`.
abbrev pub Holds : ConfigEnv → Config → Disk → Config → Type 0
Holds env base d c = (d.temp ≡ none) × (load_admin_policies env false d base ≡ ok c)

-- A restart would come to the policies in force, but for a storage policy that the marker covers.
abbrev pub IsSafe : {Env : Type 0} → ConfigEnv → Config → Platform Env → Type 0
IsSafe env base p =
    (c : Config) × Holds env base p.disk c
    × (c.platform.forward_to_storage_platforms ≡ p.policies.forward_to_storage_platforms)
    × (c.admin_registry_reset_pending ≡ p.policies.registry_reset_pending)
    × ((c.platform.store_user_data ≡ p.policies.store_user_data)
        ⊎ (p.policies.registry_reset_pending ≡ true))

-- The overrides on disk load to what is in force: the forwarding policy, the marker of a pending
-- reset, the storage policy unless the marker covers it, the period of the history, and the period
-- of the archive unless `X`.
abbrev pub Agrees : {Env : Type 0} → Type 0 → ConfigEnv → Config → Platform Env → Type 0
Agrees X env base p =
    (c : Config) × Holds env base p.disk c
    × (c.platform.forward_to_storage_platforms ≡ p.policies.forward_to_storage_platforms)
    × (c.admin_registry_reset_pending ≡ p.policies.registry_reset_pending)
    × ((c.platform.store_user_data ≡ p.policies.store_user_data)
        ⊎ (p.policies.registry_reset_pending ≡ true))
    × (c.platform.history_retention_days ≡ p.mq.history_retention_days)
    × ((c.platform.compliance_retention_days ≡ pos p.mq.compliance_retention_days) ⊎ X)

module _ (env : ConfigEnv) (faithful : RoundTrips env) (base : Config) where
  -- A save that fails leaves what loads, and one that succeeds replaces the policies.
  pub saved_cases :
      (io : Io) (updated c : Config) (d : Disk)
      → Holds env base d c
      → ((e : ConfigError) × ((save_admin_policies env io updated d).0 ≡ err e)
          × Holds env base (save_admin_policies env io updated d).1 c)
        ⊎ ((save_admin_policies env io updated d).0 ≡ ok tt)
          × Holds env base (save_admin_policies env io updated d).1 (with_policies updated c)
  saved_cases io updated c d h = save_policies-cases env faithful io updated base c d h.0 h.1

module _ {Env : Type 0} (env : ConfigEnv) (faithful : RoundTrips env) (cfg base : Config)
    (w : Faults) (X : Type 0) where
  roll_back-Agrees :
      (e : RegistryError) (p : Platform Env) (c : Config)
      → Holds env base p.disk c
      → c.platform.forward_to_storage_platforms ≡ p.policies.forward_to_storage_platforms
      → c.admin_registry_reset_pending ≡ true
      → c.platform.history_retention_days ≡ p.mq.history_retention_days
      → c.platform.compliance_retention_days ≡ pos p.mq.compliance_retention_days
      → Agrees X env base (roll_back env cfg w e p).1
  unfolding roll_back live_config
  roll_back-Agrees e p c h f q m k =
      elim (saved_cases env faithful base w.take_back (live_config cfg p) c p.disk h) [
        | inl (e', failed, holds) ↦ rw (failed, roll_back) (c, holds, f, q, inr refl, m, inl k)
        | inr (saved, holds) ↦
            rw (saved, roll_back)
              (with_policies (live_config cfg p) c, holds, refl, refl, inl refl, refl, inl refl)
      ]

  switch_storage-Agrees :
      (next : Bool) (p : Platform Env) (c : Config)
      → Holds env base p.disk c
      → c.platform.store_user_data ≡ next
      → c.platform.forward_to_storage_platforms ≡ p.policies.forward_to_storage_platforms
      → c.admin_registry_reset_pending ≡ true
      → c.platform.history_retention_days ≡ p.mq.history_retention_days
      → c.platform.compliance_retention_days ≡ pos p.mq.compliance_retention_days
      → Agrees X env base (switch_storage env cfg w next p).1
  unfolding switch_storage
  switch_storage-Agrees next p c h n f q m k =
      elim (Result-cases (clear_all_entries w.registry p.registry).0) [
        | inl (e, failed) ↦
            rw (failed, switch_storage)
              (roll_back-Agrees e
                (record p { registry = (clear_all_entries w.registry p.registry).1 }) c h f q m k)
        | inr (u, cleared) ↦ rw (cleared, switch_storage) (c, h, f, q, inl n, m, inl k)
      ]

  -- A save whose configuration is safe to go on from.
  pub persist-Agrees :
      (updated : Config) (follow : Platform Env → Reply × Platform Env) (p : Platform Env)
      → ((c : Config) (d : Disk)
          → Holds env base d (with_policies updated c)
          → Agrees X env base (follow (record p { disk = d })).1)
      → Agrees X env base p
      → Agrees X env base (persist env w updated follow p).1
  unfolding persist
  persist-Agrees updated follow p go s =
      elim (saved_cases env faithful base w.save updated s.0 p.disk s.1) [
        | inl (e, failed, holds) ↦ rw (failed, persist) (s.0, holds, s.2, s.3, s.4, s.5, s.6)
        | inr (saved, holds) ↦
            rw (saved, persist) (go s.0 (save_admin_policies env w.save updated p.disk).1 holds)
      ]

  change_storage-Agrees :
      (next : Bool) (p : Platform Env)
      → Agrees X env base p
      → Agrees X env base (change_storage env cfg w next p).1
  unfolding change_storage storage_config live_config
  change_storage-Agrees next p s =
      let updated = storage_config cfg next p in
      persist-Agrees updated (switch_storage env cfg w next) p
        (λ c d h.
          switch_storage-Agrees next (record p { disk = d }) (with_policies updated c) h refl refl
            refl refl refl)
        s

  change_forwarding-Agrees :
      (next : Bool) (p : Platform Env)
      → Agrees X env base p
      → Agrees X env base (change_forwarding env cfg w next p).1
  unfolding change_forwarding switch_forwarding forwarding_config live_config
  change_forwarding-Agrees next p s =
      let updated = forwarding_config cfg next p in
      persist-Agrees updated (switch_forwarding next) p
        (λ c d h. (with_policies updated c, h, refl, refl, inl refl, refl, inl refl)) s

  pub if-Agrees :
      (b : Bool) (x y : Reply × Platform Env)
      → Agrees X env base x.1
      → Agrees X env base y.1
      → Agrees X env base (if b then x else y).1
  if-Agrees true x y h k = h
  if-Agrees false x y h k = k

  pub update_storage-Agrees :
      (desired : Option Bool) (p : Platform Env)
      → Agrees X env base p
      → Agrees X env base (update_storage env cfg w desired p).1
  unfolding update_storage
  update_storage-Agrees desired p s =
      let next = next_policy p.policies.store_user_data desired in
      let changed = change_storage env cfg w next p in
      let current = p.policies.store_user_data in
      if-Agrees p.policies.registry_reset_pending (conflict, p)
        (if next ==ᵇ current then (done current false, p) else changed) s
        (if-Agrees (next ==ᵇ current) (done current false, p) changed s
          (change_storage-Agrees next p s))

  pub update_forwarding-Agrees :
      (desired : Option Bool) (p : Platform Env)
      → Agrees X env base p
      → Agrees X env base (update_forwarding env cfg w desired p).1
  unfolding update_forwarding
  update_forwarding-Agrees desired p s =
      let next = next_policy p.policies.forward_to_storage_platforms desired in
      if-Agrees (next ==ᵇ p.policies.forward_to_storage_platforms) (done next false, p)
        (change_forwarding env cfg w next p) s (change_forwarding-Agrees next p s)
