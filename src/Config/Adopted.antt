-- ===== src/Config/Adopted.antt =====
-- What an adoption of settings makes of a loaded configuration.
use agent_comm_platform.Base.{◌≡◌, refl, Bool, List, [], ◌∷◌, sym, ◌∙◌, ap}
use agent_comm_platform.Base.Action.{ok, and_then_ok, ok_injective}
use agent_comm_platform.Config.Settings.{
  Config, Key, registry_ttl_hours, mq_default_ttl_days, mq_max_msgs_per_urn, relay_enabled,
  relay_max_reservations, relay_max_circuit_duration, other,
}
use agent_comm_platform.Config.Overrides.{Overrides, Env, overlay, put, put_keys, with_live}

-- The configuration `c` with the setting of the key as `cfg` has it.
abbrev pub adopt : Config → Key → Config → Config
adopt cfg registry_ttl_hours c = record c {
  registry = record c.registry { ttl_hours = cfg.registry.ttl_hours };
}
adopt cfg mq_default_ttl_days c = record c {
  mq = record c.mq { default_ttl_days = cfg.mq.default_ttl_days };
}
adopt cfg mq_max_msgs_per_urn c = record c {
  mq = record c.mq { max_msgs_per_urn = cfg.mq.max_msgs_per_urn };
}
adopt cfg relay_enabled c = record c { relay = record c.relay { enabled = cfg.relay.enabled } }
adopt cfg relay_max_reservations c = record c {
  relay = record c.relay { max_reservations = cfg.relay.max_reservations };
}
adopt cfg relay_max_circuit_duration c = record c {
  relay = record c.relay { max_circuit_duration = cfg.relay.max_circuit_duration };
}
adopt cfg (other name) c = c

abbrev pub adopt_all : Config → List Key → Config → Config
adopt_all cfg [] c = c
adopt_all cfg (k ∷ ks) c = adopt_all cfg ks (adopt cfg k c)

-- The configuration `c` with the live policies and the recovery marker as `cfg` has them.
abbrev pub with_policies : Config → Config → Config
with_policies cfg c = record c {
  platform = record c.platform {
    store_user_data = cfg.platform.store_user_data;
    forward_to_storage_platforms = cfg.platform.forward_to_storage_platforms;
    history_retention_days = cfg.platform.history_retention_days;
    compliance_retention_days = cfg.platform.compliance_retention_days;
  };
  admin_registry_reset_pending = cfg.admin_registry_reset_pending;
}

overlay-put :
    (cfg base : Config) (k : Key) (o : Overrides)
    → overlay (put cfg k o) base ≡ adopt cfg k (overlay o base)
unfolding overlay put
overlay-put cfg base registry_ttl_hours o = refl
overlay-put cfg base mq_default_ttl_days o = refl
overlay-put cfg base mq_max_msgs_per_urn o = refl
overlay-put cfg base relay_enabled o = refl
overlay-put cfg base relay_max_reservations o = refl
overlay-put cfg base relay_max_circuit_duration o = refl
overlay-put cfg base (other name) o = refl

pub overlay-put_keys :
    (env : Env) (cfg base : Config) (ks : List Key) (o changed : Overrides)
    → put_keys env cfg ks o ≡ ok changed
    → overlay changed base ≡ adopt_all cfg ks (overlay o base)
unfolding put_keys
overlay-put_keys env cfg base [] o changed h = ap (λ x. overlay x base) (sym (ok_injective h))
overlay-put_keys env cfg base (k ∷ ks) o changed h =
    overlay-put_keys env cfg base ks (put cfg k o) changed (and_then_ok _ _ changed h).1
    ∙ ap (adopt_all cfg ks) (overlay-put cfg base k o)

pub overlay-with_live :
    (cfg base : Config) (o : Overrides)
    → record (overlay (with_live cfg o) base) {
      admin_registry_reset_pending = cfg.admin_registry_reset_pending;
    }
      ≡ with_policies cfg (overlay o base)
unfolding overlay with_live
overlay-with_live cfg base o = refl

-- The marker of the configuration is overwritten.
pub adopt_all-marker :
    (cfg : Config) (ks : List Key) (c : Config) (pending : Bool)
    → with_policies cfg (adopt_all cfg ks (record c { admin_registry_reset_pending = pending }))
      ≡ with_policies cfg (adopt_all cfg ks c)
adopt_all-marker cfg [] c p = refl
adopt_all-marker cfg (registry_ttl_hours ∷ ks) c p = adopt_all-marker cfg ks _ p
adopt_all-marker cfg (mq_default_ttl_days ∷ ks) c p = adopt_all-marker cfg ks _ p
adopt_all-marker cfg (mq_max_msgs_per_urn ∷ ks) c p = adopt_all-marker cfg ks _ p
adopt_all-marker cfg (relay_enabled ∷ ks) c p = adopt_all-marker cfg ks _ p
adopt_all-marker cfg (relay_max_reservations ∷ ks) c p = adopt_all-marker cfg ks _ p
adopt_all-marker cfg (relay_max_circuit_duration ∷ ks) c p = adopt_all-marker cfg ks _ p
adopt_all-marker cfg (other name ∷ ks) c p = adopt_all-marker cfg ks c p
