-- ===== src/Api/Adoption.antt =====
-- The changed settings of an edit, adopted over the settings that were loaded before.
use agent_comm_platform.Base.{
  ◌≡◌, refl, ap, ◌∙◌, Bool, true, false, List, [], ◌∷◌, arith, inl, inr, Bool-cases, if◌then◌else◌,
}
use agent_comm_platform.Base.Int.{ℤ, pos, negsuc}
use agent_comm_platform.Base.Bytes.{◌==◌, eq→≡}
use agent_comm_platform.Config.Settings.{
  Config, Key, registry_ttl_hours, mq_default_ttl_days, mq_max_msgs_per_urn, relay_enabled,
  relay_max_reservations, relay_max_circuit_duration, other,
}
use agent_comm_platform.Config.Adopted.{adopt, adopt_all, with_policies}
use agent_comm_platform.Api.Updates.{◌==ᵇ◌}
use agent_comm_platform.Api.Editable.{
  Settings, editable_settings, editable_changes, changed_keys, same_setting, ◌==ℤ◌, editable_fields,
}

-- A step of the adoption, on the settings.
abbrev put_setting : Settings → Key → Settings → Settings
put_setting b registry_ttl_hours s = record s { ttl_hours = b.ttl_hours }
put_setting b mq_default_ttl_days s = record s { default_ttl_days = b.default_ttl_days }
put_setting b mq_max_msgs_per_urn s = record s { max_msgs_per_urn = b.max_msgs_per_urn }
put_setting b relay_enabled s = record s { enabled = b.enabled }
put_setting b relay_max_reservations s = record s { max_reservations = b.max_reservations }
put_setting b relay_max_circuit_duration s = record s {
  max_circuit_duration = b.max_circuit_duration;
}
put_setting b (other name) s = s

abbrev put_changed : Settings → Settings → List Key → Settings → Settings
put_changed a b [] s = s
put_changed a b (k ∷ ks) s =
    put_changed a b ks (if same_setting a b k then s else put_setting b k s)

editable_settings-adopt :
    (u c : Config) (k : Key)
    → editable_settings (adopt u k c) ≡ put_setting (editable_settings u) k (editable_settings c)
unfolding editable_settings
editable_settings-adopt u c registry_ttl_hours = refl
editable_settings-adopt u c mq_default_ttl_days = refl
editable_settings-adopt u c mq_max_msgs_per_urn = refl
editable_settings-adopt u c relay_enabled = refl
editable_settings-adopt u c relay_max_reservations = refl
editable_settings-adopt u c relay_max_circuit_duration = refl
editable_settings-adopt u c (other name) = refl

editable_settings-adopt_all :
    (a : Settings) (u c : Config) (ks : List Key)
    → editable_settings (adopt_all u (changed_keys a (editable_settings u) ks) c)
      ≡ put_changed a (editable_settings u) ks (editable_settings c)
unfolding changed_keys
editable_settings-adopt_all a u c [] = refl
editable_settings-adopt_all a u c (k ∷ ks) =
    elim (Bool-cases (same_setting a (editable_settings u) k)) [
      | inl same ↦ rw (same, changed_keys) (editable_settings-adopt_all a u c ks)
      | inr differs ↦
          rw (differs, changed_keys)
            (editable_settings-adopt_all a u (adopt u k c) ks
              ∙ ap (put_changed a (editable_settings u) ks) (editable_settings-adopt u c k))
    ]

equal_ints : (a b : ℤ) → (a ==ℤ b) ≡ true → a ≡ b
unfolding ◌==ℤ◌
equal_ints (pos a) (pos b) h = ap pos (ground arith)
equal_ints (negsuc a) (negsuc b) h = ap negsuc (ground arith)
equal_ints (pos a) (negsuc b) h = cc
equal_ints (negsuc a) (pos b) h = cc

equal_bools : (a b : Bool) → (a ==ᵇ b) ≡ true → a ≡ b
equal_bools true true h = refl
equal_bools false false h = refl
equal_bools true false h = cc
equal_bools false true h = cc

-- Where a test tells that the values are the same, replacing one by the other changes nothing.
kept :
    {A : Type 0} {B : Type 0} (put : A → B) (x y : A) (same : Bool)
    → (same ≡ true → x ≡ y)
    → (if same then put x else put y) ≡ put y
kept put x y true h = ap put (h refl)
kept put x y false h = refl

put_changed-fields : (a b : Settings) → put_changed a b editable_fields a ≡ b
unfolding editable_fields same_setting
put_changed-fields a b =
    let s1 : Settings = record a { ttl_hours = b.ttl_hours } in
    let s2 : Settings = record s1 { default_ttl_days = b.default_ttl_days } in
    let s3 : Settings = record s2 { max_msgs_per_urn = b.max_msgs_per_urn } in
    let s4 : Settings = record s3 { enabled = b.enabled } in
    let s5 : Settings = record s4 { max_reservations = b.max_reservations } in
    let s6 : Settings = record s5 { max_circuit_duration = b.max_circuit_duration } in
    ap
      (put_changed a b (
        mq_default_ttl_days ∷ mq_max_msgs_per_urn ∷ relay_enabled ∷ relay_max_reservations
        ∷ relay_max_circuit_duration ∷ []))
      (kept (λ x. record a { ttl_hours = x }) a.ttl_hours b.ttl_hours (a.ttl_hours ==ℤ b.ttl_hours)
        (equal_ints a.ttl_hours b.ttl_hours))
    ∙ ap
        (put_changed a b (
          mq_max_msgs_per_urn ∷ relay_enabled ∷ relay_max_reservations ∷ relay_max_circuit_duration
          ∷ []))
        (kept (λ x. record s1 { default_ttl_days = x }) a.default_ttl_days b.default_ttl_days
          (a.default_ttl_days ==ℤ b.default_ttl_days)
          (equal_ints a.default_ttl_days b.default_ttl_days))
    ∙ ap
        (put_changed a b (relay_enabled ∷ relay_max_reservations ∷ relay_max_circuit_duration ∷ []))
        (kept (λ x. record s2 { max_msgs_per_urn = x }) a.max_msgs_per_urn b.max_msgs_per_urn
          (a.max_msgs_per_urn ==ℤ b.max_msgs_per_urn)
          (equal_ints a.max_msgs_per_urn b.max_msgs_per_urn))
    ∙ ap (put_changed a b (relay_max_reservations ∷ relay_max_circuit_duration ∷ [])) (
        kept (λ x. record s3 { enabled = x }) a.enabled b.enabled (a.enabled ==ᵇ b.enabled)
          (equal_bools a.enabled b.enabled))
    ∙ ap (put_changed a b (relay_max_circuit_duration ∷ [])) (
        kept (λ x. record s4 { max_reservations = x }) a.max_reservations b.max_reservations
          (a.max_reservations ==ℤ b.max_reservations)
          (equal_ints a.max_reservations b.max_reservations))
    ∙ ap (put_changed a b []) (
        kept (λ x. record s5 { max_circuit_duration = x }) a.max_circuit_duration
          b.max_circuit_duration (a.max_circuit_duration == b.max_circuit_duration)
          (eq→≡ a.max_circuit_duration b.max_circuit_duration))

-- What loads after the changed settings were adopted.
pub adopted_settings :
    (cfg old u : Config)
    → editable_settings old ≡ editable_settings cfg
    → editable_settings (
        with_policies u
          (adopt_all u (editable_changes (editable_settings cfg) (editable_settings u)) old))
      ≡ editable_settings u
unfolding editable_changes editable_settings
adopted_settings cfg old u same =
    editable_settings-adopt_all (editable_settings cfg) u old editable_fields
    ∙ ap (put_changed (editable_settings cfg) (editable_settings u) editable_fields) same
    ∙ put_changed-fields (editable_settings cfg) (editable_settings u)
