-- ===== src/Api/Recovery.antt =====
-- A restart over whatever state the requests and their failures have left.
use mathlib.Core.Bool.{false≢true}
use agent_comm_platform.Base.{
  ◌&&◌, Bool-cases, ◌≡◌, refl, sym, ap, subst, ◌∙◌, Bool, true, false, not, Option, none, some, [],
  arith, ◌⊎◌, inl, inr, if◌then◌else◌,
}
use agent_comm_platform.Base.Bytes.{Bytes}
use agent_comm_platform.Base.Action.{Result, ok, err, ok_injective, try, Result-cases}
use agent_comm_platform.Config.Settings.{Config, read_policies, Error as ConfigError}
use agent_comm_platform.Config.Files.{Disk, Io}
use agent_comm_platform.Config.Overrides.{
  Env as ConfigEnv, load_admin_policies, save_admin_policies, apply_overrides,
  read_admin_policy_overrides,
}
use agent_comm_platform.Config.Writes.{RoundTrips}
use agent_comm_platform.Registry.Store.{Store as Registry, clear_all_entries}
use agent_comm_platform.Mq.Tables.{Store as Mailboxes, World}
use agent_comm_platform.Api.Policies.{SecurityPolicies, Platform, Faults}
use agent_comm_platform.Mq.Gateway.{V2Gateway}
use agent_comm_platform.Api.Host.{
  Host, Start, Failure, identity, host_down, load_gateway, register_platform_identity, pin_gateway,
}
use agent_comm_platform.Api.Restart.{
  open_platform, register_and_open, open_registry, open_mailboxes, complete_reset,
  recover_pending_registry_reset, new_server, serve, boot,
}
use agent_comm_platform.Api.Safety.{Holds, IsSafe, saved_cases}

-- The policies that a configuration starts with.
abbrev pub policies_of : Config → SecurityPolicies
policies_of c = record {
  store_user_data = c.platform.store_user_data;
  forward_to_storage_platforms = c.platform.forward_to_storage_platforms;
  registry_reset_pending = c.admin_registry_reset_pending;
  config_restart_pending = false;
}

module _ {Env : Type 0} (w : World) where
  new_server_ok :
      (cfg : Config) (r : Registry) (d : Disk) (s : Mailboxes Env) (q : Platform Env)
      → new_server w cfg r d s ≡ ok q
      → (q.policies ≡ policies_of cfg) × (q.registry ≡ r) × (q.disk ≡ d)
  unfolding new_server
  new_server_ok cfg r d s q h = ground arith

passed :
    {A : Type 0} (b : Bool) (e : Failure) (x : Result Failure A) (a : A)
    → (if not b then err e else x) ≡ ok a
    → x ≡ ok a
passed true e x a h = h
passed false e x a h = cc h

module _ {Policy : Type 0} (host : Host Policy) (start : Start) where
  -- The registry that the platform registers itself in, and the one that is served.
  abbrev pub IsRegistered : Bool → Registry → Registry → Type 0
  IsRegistered stores_user_data r served =
      register_platform_identity host start stores_user_data r ≡ (ok tt, served)

module _ {Env Policy : Type 0} (host : Host Policy) (start : Start) (w : World) where
  open_platform_ok :
      (s : Mailboxes Env) (c : Config) (g : Option (V2Gateway Policy)) (r : Registry) (d : Disk)
      (q : Platform Env)
      → open_platform host start w s c g r d ≡ ok q
      → (q.policies ≡ policies_of c) × (q.registry ≡ r) × (q.disk ≡ d)
  unfolding open_platform
  open_platform_ok s c g r d q h = elim (Bool-cases (c.relay.enabled && not start.relay_starts)) [
    | inl fails ↦ cc (rw (fails, open_platform) at h)
    | inr works ↦ elim (Result-cases (pin_gateway host start g (open_mailboxes start c s)).0) [
      | inl (e, failed) ↦ cc (rw (works, failed, open_platform) at h)
      | inr (u, pinned) ↦
          new_server_ok w c r d (pin_gateway host start g (open_mailboxes start c s)).1 q
            (rw (works, pinned, open_platform) at h)
    ]
  ]

  register_and_open_ok :
      (s : Mailboxes Env) (c : Config) (g : Option (V2Gateway Policy)) (r : Registry) (d : Disk)
      (q : Platform Env)
      → register_and_open host start w s c g r d ≡ ok q
      → (q.policies ≡ policies_of c)
        × IsRegistered host start c.platform.store_user_data r q.registry
        × (q.disk ≡ d)
  unfolding register_and_open
  register_and_open_ok s c g r d q h =
      let registered = register_platform_identity host start c.platform.store_user_data r in
      elim (Result-cases registered.0) [
        | inl (e, failed) ↦ cc (rw (failed, register_and_open) at h)
        | inr (u, done) ↦
            let a = open_platform_ok s c g registered.1 d q (rw (done, register_and_open) at h) in
            (a.0, λ i. (done i, sym a.1 i), a.2)
      ]

  serve_ok :
      (s : Mailboxes Env) (x : Result Failure Config × Registry × Disk) (q : Platform Env)
      → serve host start w s x ≡ ok q
      → (c : Config) × (x.0 ≡ ok c)
        × (q.policies ≡ policies_of c)
        × IsRegistered host start c.platform.store_user_data x.1 q.registry
        × (q.disk ≡ x.2)
  unfolding serve
  serve_ok s (err e, r, d) q h = cc h
  serve_ok s (ok c, r, d) q h =
      let up = passed start.host_starts host_down _ q h in
      elim (Result-cases (load_gateway host start c)) [
        | inl (e, failed) ↦ cc (rw failed at up)
        | inr (g, loaded) ↦
            let a = register_and_open_ok s c g r d q (rw loaded at up) in (c, refl, a.0, a.1, a.2)
      ]

-- After a recovery of `r` under `c`: the disk holds the configuration that is left, and either the
-- registry is as it was and no reset was pending, or it is empty.
abbrev IsRecovered :
    ConfigEnv
    → Config
    → Config
    → Registry
    → Config
    → Result Failure Config × Registry × Disk
    → Type 0
IsRecovered env base c r final x =
    Holds env base x.2 final
    × (final.platform ≡ c.platform)
    × (final.admin_registry_reset_pending ≡ false)
    × ((x.1 ≡ r) × (c.admin_registry_reset_pending ≡ false) ⊎ (x.1.rows ≡ []))

cleared_rows :
    (fault : Bool) (r : Registry) (u : Unit)
    → (clear_all_entries fault r).0 ≡ ok u
    → (clear_all_entries fault r).1.rows ≡ []
unfolding clear_all_entries
cleared_rows true r u h = cc
cleared_rows false r u h = refl

load_fault :
    (env : ConfigEnv) (base : Config) (fault : Bool) (d : Disk) (c : Config)
    → load_admin_policies env false d base ≡ ok c
    → (load_admin_policies env fault d base ≡ ok c)
      ⊎ ((e : ConfigError) × (load_admin_policies env fault d base ≡ err e))
unfolding load_admin_policies read_admin_policy_overrides
load_fault env base false d c h = inl h
load_fault env base true d c h = inr (read_policies, unread d.policies)
  where
    unread :
        (content : Option Bytes)
        → try (read_admin_policy_overrides env true content) (apply_overrides env base)
          ≡ err read_policies
    unread none = refl
    unread (some x) = refl

module _ (env : ConfigEnv) (faithful : RoundTrips env) (base : Config) (fault : Bool) (io : Io)
    (c : Config) (r : Registry) (d : Disk) (holds : Holds env base d c) where
  complete_reset_ok :
      (final : Config)
      → (complete_reset env fault io c r d).0 ≡ ok final
      → IsRecovered env base c r final (complete_reset env fault io c r d)
  unfolding complete_reset
  complete_reset_ok final h =
      let done = record c { admin_registry_reset_pending = false } in
      elim (Result-cases (clear_all_entries fault r).0) [
        | inl (e, failed) ↦ cc (rw (failed, complete_reset) at h)
        | inr (u, cleared) ↦ elim (saved_cases env faithful base io done c d holds) [
          | inl (e, failed, same) ↦ cc (rw (cleared, failed, complete_reset) at h)
          | inr (saved, kept) ↦
              let same : done ≡ final = ok_injective (rw (cleared, saved, complete_reset) at h) in
              rw (cleared, saved, complete_reset)
                (subst
                  (λ f.
                    IsRecovered env base c r f (
                      ok done,
                      (clear_all_entries fault r).1,
                      (save_admin_policies env io done d).1,
                    ))
                  same (kept, refl, refl, inr (cleared_rows fault r u cleared)))
        ]
      ]

  pub recover_ok :
      (final : Config)
      → (recover_pending_registry_reset env fault io c r d).0 ≡ ok final
      → IsRecovered env base c r final (recover_pending_registry_reset env fault io c r d)
  unfolding recover_pending_registry_reset
  recover_ok final = branch c.admin_registry_reset_pending refl
    where
      branch :
          (pending : Bool)
          → c.admin_registry_reset_pending ≡ pending
          → (if not pending then (ok c, r, d) else complete_reset env fault io c r d).0 ≡ ok final
          → IsRecovered env base c r final
              (if not pending then (ok c, r, d) else complete_reset env fault io c r d)
      branch true e h = complete_reset_ok final h
      branch false e h =
          subst (λ f. IsRecovered env base c r f (ok c, r, d)) (ok_injective h)
            (holds, refl, e, inl (refl, e))

module _ {Env Policy : Type 0} (env : ConfigEnv) (faithful : RoundTrips env) (host : Host Policy)
    (start : Start) (base : Config) (w : Faults) where
  abbrev recovered_by : Platform Env → Config → Result Failure Config × Registry × Disk
  recovered_by p c =
      recover_pending_registry_reset env w.registry w.take_back c (open_registry c p.registry)
        p.disk

  -- What the start runs on the configuration that the disk holds.
  boot_steps :
      (p q : Platform Env) (s : IsSafe env base p)
      → boot env host start w base p ≡ ok q
      → (final : Config) × ((recovered_by p s.0).0 ≡ ok final)
        × (q.policies ≡ policies_of final)
        × IsRegistered host start final.platform.store_user_data (recovered_by p s.0).1 q.registry
        × (q.disk ≡ (recovered_by p s.0).2)
  unfolding boot
  boot_steps p q s h = elim (load_fault env base w.save.read_fault p.disk s.0 s.1.1) [
    | inr (e, failed) ↦ cc (rw (failed, boot) at h)
    | inl loaded ↦
        serve_ok host start w.mq p.mq (recovered_by p s.0) q
          (passed start.identity_loads identity _ q (rw (loaded, boot) at h))
  ]

  -- Where the disk agrees with the policies in force but for a storage policy that the marker of a
  -- pending reset covers, a start that succeeds, whatever failed before, agrees with the disk again
  -- and has no reset pending. It serves what the registration of the platform itself makes of a
  -- registry: either of the one that was there, under the storage policy that was in force, or of
  -- an empty one.
  pub boot_ok :
      (p q : Platform Env)
      → IsSafe env base p
      → boot env host start w base p ≡ ok q
      → IsSafe env base q
        × (q.policies.registry_reset_pending ≡ false)
        × ((r : Registry) × IsRegistered host start q.policies.store_user_data r q.registry
            × ((q.policies.store_user_data ≡ p.policies.store_user_data)
                  × (r.rows ≡ p.registry.rows)
                ⊎ (r.rows ≡ [])))
  unfolding open_registry
  boot_ok p q s h =
      let a = boot_steps p q s h in
      let c = s.0 in
      let recovered =
        recover_ok env faithful base w.registry w.take_back c (open_registry c p.registry) p.disk
          s.1 a.0 a.1 in
      let final = a.0 in
      let loads = subst (λ d. Holds env base d final) (sym a.4) recovered.0 in
      let started = ap (λ x. x.store_user_data) a.2 in
      (
        (
          final,
          loads,
          ap (λ x. x.forward_to_storage_platforms) (sym a.2),
          ap (λ x. x.registry_reset_pending) (sym a.2),
          inl (sym started),
        ),
        ap (λ x. x.registry_reset_pending) a.2 ∙ recovered.2,
        (
          (recovered_by p c).1,
          subst (λ b. IsRegistered host start b (recovered_by p c).1 q.registry) (sym started) a.3,
          elim recovered.3 [
            | inl (same, unset) ↦ inl (
              started ∙ ap (λ x. x.store_user_data) recovered.1 ∙ elim s.4 [
                | inl agreed ↦ agreed
                | inr pending ↦ absurd (false≢true (sym unset ∙ s.3 ∙ pending))
              ],
              ap (λ x. x.rows) same,
            )
            | inr empty ↦ inr empty
          ],
        ),
      )
