-- ===== src/Config/Ranges.antt =====
-- The ranges of the overrides: what the loading checks and every save keeps.
use agent_comm_platform.Base.{
  ◌≡◌, refl, ◌↔◌, Bool, true, Option, none, some, List, [], ◌∷◌, arith, subst, if◌then◌else◌,
}
use agent_comm_platform.Base.Action.{Result, ok, and_then, and_then_ok, ok_injective}
use agent_comm_platform.Config.Settings.{
  Config, Key, Error, registry_ttl_hours, mq_default_ttl_days, mq_max_msgs_per_urn, relay_enabled,
  relay_max_reservations, relay_max_circuit_duration, other, check, within, is_circuit_duration,
  setting_range, validate_admin_editable_setting,
}
use agent_comm_platform.Config.Overrides.{
  Overrides, Env, is_set, or_else, overlay, present_keys, validate_present, apply_overrides,
  check_history, check_compliance, put, put_keys,
}

-- A value that is set passes the test.
abbrev pub Fits : {A : Type 0} → (A → Bool) → Option A → Type 0
Fits t none = Unit
Fits t (some a) = t a ≡ true

module _ (env : Env) where
  -- Every override of a setting is in the range of its setting.
  abbrev pub InRange : Overrides → Type 0
  InRange o =
      Fits (within 1 8760) o.registry_ttl_hours
      × (Fits (within 1 3650) o.mq_default_ttl_days
          × (Fits (within 1 100000) o.mq_max_msgs_per_urn
              × (Fits (within 1 100000) o.relay_max_reservations
                  × (Fits (is_circuit_duration env.parse_duration) o.relay_max_circuit_duration
                      × Unit {0}))))

  checked_value :
      {A : Type 0} (t : A → Bool) (o : Option A) (d : A) (e : Error) (r : Result Error Unit)
      → ((if is_set o then and_then (check (t (or_else o d)) e) r else r) ≡ ok tt)
        ↔ (Fits t o × (r ≡ ok tt))
  unfolding check
  checked_value t none d e r = ((λ h. (tt, h)), (λ h. h.1))
  checked_value t (some a) d e r = ground arith

  and_also : {P Q R S : Type 0} → P ↔ (Q × R) → R ↔ S → P ↔ (Q × S)
  and_also f g = ((λ p. ((f.0 p).0, g.0 (f.0 p).1)), (λ q. f.1 (q.0, g.1 q.1)))

  validate_present_iff :
      (o : Overrides) (cfg : Config)
      → (validate_present env (overlay o cfg) (present_keys o) ≡ ok tt) ↔ InRange o
  unfolding validate_present present_keys validate_admin_editable_setting overlay
  validate_present_iff o cfg =
      and_also
        (checked_value (within 1 8760) o.registry_ttl_hours cfg.registry.ttl_hours
          (setting_range registry_ttl_hours) _)
        (and_also
          (checked_value (within 1 3650) o.mq_default_ttl_days cfg.mq.default_ttl_days
            (setting_range mq_default_ttl_days) _)
          (and_also
            (checked_value (within 1 100000) o.mq_max_msgs_per_urn cfg.mq.max_msgs_per_urn
              (setting_range mq_max_msgs_per_urn) _)
            (and_also
              (checked_value (within 1 100000) o.relay_max_reservations cfg.relay.max_reservations
                (setting_range relay_max_reservations) _)
              (and_also
                (checked_value (is_circuit_duration env.parse_duration) o.relay_max_circuit_duration
                  cfg.relay.max_circuit_duration (setting_range relay_max_circuit_duration) (ok tt))
                ((λ h. tt), (λ u. refl))))))

  put-InRange :
      (cfg : Config) (k : Key) (o : Overrides)
      → validate_admin_editable_setting env.parse_duration cfg k ≡ ok tt
      → InRange o
      → InRange (put cfg k o)
  unfolding put validate_admin_editable_setting check
  put-InRange cfg registry_ttl_hours o h r = (ground arith, r.1)
  put-InRange cfg mq_default_ttl_days o h r = (r.0, (ground arith, r.1.1))
  put-InRange cfg mq_max_msgs_per_urn o h r = (r.0, (r.1.0, (ground arith, r.1.1.1)))
  put-InRange cfg relay_enabled o h r = r
  put-InRange cfg relay_max_reservations o h r =
      (r.0, (r.1.0, (r.1.1.0, (ground arith, r.1.1.1.1))))
  put-InRange cfg relay_max_circuit_duration o h r =
      (r.0, (r.1.0, (r.1.1.0, (r.1.1.1.0, (ground arith, tt)))))
  put-InRange cfg (other name) o h r = r

  pub put_keys-InRange :
      (cfg : Config) (ks : List Key) (o changed : Overrides)
      → put_keys env cfg ks o ≡ ok changed
      → InRange o
      → InRange changed
  unfolding put_keys
  put_keys-InRange cfg [] o changed h r = subst InRange (ok_injective h) r
  put_keys-InRange cfg (k ∷ ks) o changed h r =
      let both = and_then_ok _ _ changed h in
      put_keys-InRange cfg ks (put cfg k o) changed both.1 (put-InRange cfg k o both.0 r)

  pub apply_ok :
      (cfg : Config) (o : Overrides) (loaded : Config)
      → apply_overrides env cfg o ≡ ok loaded
      → (check_history o.history_retention_days ≡ ok tt)
        × (check_compliance o.compliance_retention_days ≡ ok tt)
        × InRange o
        × (record (overlay o cfg) { admin_registry_reset_pending = o.registry_reset_pending }
            ≡ loaded)
  unfolding apply_overrides
  apply_ok cfg o loaded h =
      let a = and_then_ok _ _ loaded h in
      let b = and_then_ok _ _ loaded a.1 in
      let c = and_then_ok _ _ loaded b.1 in
      (a.0, b.0, (validate_present_iff o cfg).0 c.0, ok_injective c.1)

  pub apply-InRange :
      (cfg : Config) (o : Overrides)
      → check_history o.history_retention_days ≡ ok tt
      → check_compliance o.compliance_retention_days ≡ ok tt
      → InRange o
      → apply_overrides env cfg o
        ≡ ok record (overlay o cfg) { admin_registry_reset_pending = o.registry_reset_pending }
  unfolding apply_overrides
  apply-InRange cfg o h k r = let v = (validate_present_iff o cfg).1 r in rw (h, k, v)
