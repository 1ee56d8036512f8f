-- ===== src/Api/Completion/Healthy.antt =====
-- A start of cmd/platform/main.go at which nothing fails, over a registry that is to be cleared.
use agent_comm_platform.Base.{
  ℕ, ◌≡◌, refl, sym, ap, subst, ◌∙◌, Bool, true, false, not, Option, none, List, ◌∷◌, [], arith,
  if◌then◌else◌,
}
use agent_comm_platform.Base.Int.{ℤ, pos, ltb_ℤ}
use agent_comm_platform.Base.Action.{Result, ok, err, try_ok}
use agent_comm_platform.Config.Settings.{
  Config, Error as ConfigError, within, check, validate_compliance_retention_days,
}
use agent_comm_platform.Config.Files.{
  Disk, Io, replace_file, fill_and_rename, perform, write_temp, rename_temp,
}
use agent_comm_platform.Config.Overrides.{
  Env as ConfigEnv, Overrides, load_admin_policies, save_admin_policies, save_overrides,
  apply_overrides, read_admin_policy_overrides, with_live,
}
use agent_comm_platform.Registry.Store.{
  Row, Store as Registry, clear_all_entries, list_check, new_row, register_with_signature,
  is_rollback, upsert,
}
use agent_comm_platform.Mq.Tables.{Store as Mailboxes}
use agent_comm_platform.Mq.Retention.{set_history_retention_days, set_compliance_retention_days}
use agent_comm_platform.Api.Policies.{Platform, Faults}
use agent_comm_platform.Base.Table.{select_row}
use agent_comm_platform.Mq.Gateway.{V2Gateway}
use agent_comm_platform.Api.Host.{
  Host, Start, Failure, identity, self_register, load_gateway, check_mode, host_addrs,
  platform_proof, register_platform_identity, pin_gateway,
}
use agent_comm_platform.Api.Restart.{
  register_and_open, open_platform, open_registry, open_mailboxes, complete_reset,
  recover_pending_registry_reset, new_server, serve, boot,
}
use agent_comm_platform.Api.Recovery.{policies_of}

abbrev pub up : Io
up = record { read_fault = false; fault = λ step. false; remove_fault = false; written = 0 }

-- A start at which nothing fails.
abbrev pub healthy : (ℕ → ℕ) → Faults
healthy clock = record {
  save = up;
  take_back = up;
  registry = false;
  mq = record { clock = clock; fault = λ i. false };
}

module _ (env : ConfigEnv) where
  replace_file_succeeds : (content : List ℕ) (d : Disk) → (replace_file up content d).0 ≡ ok tt
  unfolding replace_file fill_and_rename perform write_temp rename_temp
  replace_file_succeeds content d = refl

  save_overrides_succeeds :
      (cfg : Config) (o : Overrides) (d : Disk)
      → within 0 36500 cfg.platform.compliance_retention_days ≡ true
      → ltb_ℤ cfg.platform.history_retention_days (pos 0) ≡ false
      → (save_overrides env up cfg o d).0 ≡ ok tt
  unfolding save_overrides validate_compliance_retention_days check
  save_overrides_succeeds cfg o d v n =
      ground (arith, replace_file_succeeds (env.marshal_overrides (with_live cfg o)) d)

  -- What a save does with the overrides that it has read.
  abbrev follow_read : Config → Disk → Result ConfigError Overrides → Result ConfigError Unit × Disk
  follow_read cfg d (err e) = (err e, d)
  follow_read cfg d (ok o) = save_overrides env up cfg o d

  -- Where the values are in range and the file can be read, a save without failures succeeds.
  save_up :
      (cfg base c : Config) (d : Disk)
      → load_admin_policies env false d base ≡ ok c
      → within 0 36500 cfg.platform.compliance_retention_days ≡ true
      → ltb_ℤ cfg.platform.history_retention_days (pos 0) ≡ false
      → (save_admin_policies env up cfg d).0 ≡ ok tt
  unfolding save_admin_policies load_admin_policies
  save_up cfg base c d h v n =
      let found =
        try_ok (read_admin_policy_overrides env false d.policies) (apply_overrides env base) c h in
      ap (λ r. (follow_read cfg d r).0) found.1 ∙ save_overrides_succeeds cfg found.0 d v n

recover_pending :
    (env : ConfigEnv) (fault : Bool) (io : Io) (c : Config) (r : Registry) (d : Disk)
    → c.admin_registry_reset_pending ≡ true
    → recover_pending_registry_reset env fault io c r d ≡ complete_reset env fault io c r d
unfolding recover_pending_registry_reset
recover_pending env fault io c r d h =
    ap (λ b. if not b then (ok c, r, d) else complete_reset env fault io c r d) h

module _ {Env : Type 0} (clock : ℕ → ℕ) where
  set_compliance_up :
      (days : ℤ) (s : Mailboxes Env)
      → within 0 36500 days ≡ true
      → (set_compliance_retention_days (healthy clock).mq days s).0 ≡ ok tt
  unfolding set_compliance_retention_days
  set_compliance_up days s h = ground arith

  new_server_up :
      (c : Config) (r : Registry) (d : Disk) (s : Mailboxes Env)
      → within 0 36500 c.platform.compliance_retention_days ≡ true
      → (q : Platform Env) × (new_server (healthy clock).mq c r d s ≡ ok q)
        × (q.policies ≡ policies_of c)
        × (q.registry ≡ r)
        × (q.restarting ≡ false)
  unfolding new_server
  new_server_up c r d s h =
      let applied =
        set_compliance_up c.platform.compliance_retention_days
          (set_history_retention_days c.platform.history_retention_days s) h in
      let q : Platform Env = record {
        policies = policies_of c;
        registry = r;
        mq =
            (set_compliance_retention_days (healthy clock).mq c.platform.compliance_retention_days
              (set_history_retention_days c.platform.history_retention_days s)).1;
        disk = d;
        restarting = false;
      } in
      (q, rw (applied, new_server), refl, refl, refl)

-- What the start needs of its surroundings: the identity loads, the libp2p host and the relay start,
-- the registry accepts the platform's own registration under the storage policy `b`, and the gateway
-- of the configuration `c`, if it has one, loads and is pinned.
pub record Succeeds {Env Policy : Type 0} (host : Host Policy) (start : Start) (b : Bool)
    (c : Config) (s : Mailboxes Env) : Type 0 where
  pub loads : start.identity_loads ≡ true
  pub connects : start.host_starts ≡ true
  pub relays : start.relay_starts ≡ true
  pub valid :
      host.registry_sdk.validate_registration start.registration_time (platform_proof host start b)
      ≡ true
  pub short : list_check (host_addrs host start ∷ [] ∷ []) ≡ none
  pub stored : (i : ℕ) → start.registration i ≡ false
  pub gateway : Option (V2Gateway Policy)
  pub gateway_loads : load_gateway host start c ≡ ok gateway
  pub pinned : (pin_gateway host start gateway (open_mailboxes start c s)).0 ≡ ok tt

module _ {Policy : Type 0} (host : Host Policy) (start : Start) (b : Bool) (ttl : ℕ) where
  abbrev emptied : Registry
  emptied = record { rows = []; ttl = ttl }

  abbrev own_row : Row
  own_row =
      new_row emptied start.registration_time (platform_proof host start b) (host_addrs host start)
        []

  abbrev with_own_row : Registry
  with_own_row = record { rows = own_row ∷ []; ttl = ttl }

module _ {Env Policy : Type 0} (host : Host Policy) (start : Start) (b : Bool) where
  -- The registration into an empty registry.
  register_first :
      (ttl : ℕ) (c : Config) (s : Mailboxes Env)
      → Succeeds host start b c s
      → register_platform_identity host start b (emptied host start b ttl)
        ≡ (ok tt, with_own_row host start b ttl)
  unfolding register_platform_identity register_with_signature is_rollback select_row upsert
  register_first ttl c s h = simp (h.valid, h.short, h.stored 0, h.stored 1)

  serve_up :
      (clock : ℕ → ℕ) (c : Config) (ttl : ℕ) (d : Disk) (s : Mailboxes Env)
      → Succeeds host start b c s
      → c.platform.store_user_data ≡ b
      → within 0 36500 c.platform.compliance_retention_days ≡ true
      → (q : Platform Env) × (serve host start
            (healthy clock).mq
            s
            (ok c, emptied host start b ttl, d)
          ≡ ok q)
        × (q.policies ≡ policies_of c)
        × (q.registry ≡ with_own_row host start b ttl)
        × (q.restarting ≡ false)
  unfolding serve register_and_open open_platform
  serve_up clock c ttl d s h stores v =
      let r = emptied host start b ttl in
      let m = (pin_gateway host start h.gateway (open_mailboxes start c s)).1 in
      let up = new_server_up clock c (with_own_row host start b ttl) d m v in
      let opened : open_platform host start (healthy clock).mq s c h.gateway
            (with_own_row host start b ttl) d
          ≡ new_server (healthy clock).mq c (with_own_row host start b ttl) d m =
        ground (arith, h.relays, h.pinned) in
      let registered : register_and_open host start (healthy clock).mq s c h.gateway r d
          ≡ open_platform host start (healthy clock).mq s c h.gateway
              (with_own_row host start b ttl) d =
        ap
          (λ x. elim x.0 [
            | err e ↦ err (self_register e)
            | ok u ↦ open_platform host start (healthy clock).mq s c h.gateway x.1 d
          ])
          (subst
            (λ y.
              register_platform_identity host start y r ≡ (ok tt, with_own_row host start b ttl))
            (sym stores) (register_first ttl c s h)) in
      let served : serve host start (healthy clock).mq s (ok c, r, d)
          ≡ register_and_open host start (healthy clock).mq s c h.gateway r d =
        simp (h.connects, h.gateway_loads) in
      (up.0, served ∙ registered ∙ opened ∙ up.1, up.2, up.3, up.4)

  -- A start over a pending reset, without failures.
  pub boot_pending :
      (clock : ℕ → ℕ) (env : ConfigEnv) (base c : Config) (p : Platform Env)
      → Succeeds host start b c p.mq
      → load_admin_policies env false p.disk base ≡ ok c
      → c.admin_registry_reset_pending ≡ true
      → c.platform.store_user_data ≡ b
      → within 0 36500 c.platform.compliance_retention_days ≡ true
      → ltb_ℤ c.platform.history_retention_days (pos 0) ≡ false
      → (q : Platform Env) × (boot env host start (healthy clock) base p ≡ ok q)
        × (q.policies ≡ policies_of (record c { admin_registry_reset_pending = false }))
        × ((row : Row) × (q.registry.rows ≡ row ∷ []) × (row.proof ≡ platform_proof host start b))
        × (q.restarting ≡ false)
  unfolding boot clear_all_entries complete_reset load_gateway check_mode open_mailboxes new_row
  boot_pending clock env base c p h l pending stores v n =
      let done_cfg = record c { admin_registry_reset_pending = false } in
      let r = open_registry c p.registry in
      let saved = save_up env done_cfg base c p.disk l v n in
      let d = (save_admin_policies env up done_cfg p.disk).1 in
      let first = emptied host start b r.ttl in
      let still : Succeeds host start b done_cfg p.mq = record {
        loads = h.loads;
        connects = h.connects;
        relays = h.relays;
        valid = h.valid;
        short = h.short;
        stored = h.stored;
        gateway = h.gateway;
        gateway_loads = h.gateway_loads;
        pinned = h.pinned;
      } in
      let served = serve_up clock done_cfg r.ttl d p.mq still stores v in
      let reset : complete_reset env false up c r p.disk ≡ (ok done_cfg, first, d) =
        rw (saved, complete_reset, clear_all_entries) in
      let recovered : recover_pending_registry_reset env false up c r p.disk
          ≡ (ok done_cfg, first, d) =
        recover_pending env false up c r p.disk pending ∙ reset in
      let follow : Result Failure (Platform Env) =
        serve host start (healthy clock).mq p.mq
          (recover_pending_registry_reset env false up c r p.disk) in
      let loaded : boot env host start (healthy clock) base p
          ≡ (if not start.identity_loads then err identity else follow) =
        rw (l, boot) in
      let started = loaded ∙ ap (λ x. if not x then err identity else follow) h.loads in
      (
        served.0,
        started ∙ ap (serve host start (healthy clock).mq p.mq) recovered ∙ served.1,
        served.2,
        (own_row host start b r.ttl, ap (λ x. x.rows) served.3, refl),
        served.4,
      )
