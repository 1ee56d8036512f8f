-- ===== src/Config/RoundTrip.antt =====
-- What a later start reads of a save of the console's settings.
use agent_comm_platform.Base.{
  ◌≡◌, refl, true, false, none, some, List, [], ◌⊎◌, inl, inr, sym, ◌∙◌, ap, subst,
}
use agent_comm_platform.Base.Int.{pos, ltb_ℤ}
use agent_comm_platform.Base.Action.{ok, err, ok_injective, try_ok, Result-cases}
use agent_comm_platform.Config.Settings.{
  Config, Key, Error, check, within, validate_compliance_retention_days, unmarshal_days,
}
use agent_comm_platform.Config.Files.{Disk, Io, IsLeft}
use agent_comm_platform.Config.Overrides.{
  Overrides, Env, overlay, apply_overrides, check_history, check_compliance, put_keys, with_live,
  read_admin_policy_overrides, load_admin_policies, save_overrides, save_admin_editable_settings,
  save_admin_policies,
}
use agent_comm_platform.Config.Ranges.{InRange, put_keys-InRange, apply_ok, apply-InRange}
use agent_comm_platform.Config.Adopted.{
  adopt_all, with_policies, overlay-put_keys, adopt_all-marker,
}
use agent_comm_platform.Config.Writes.{
  RoundTrips, check_passed, guard_passed, save_overrides_ok, accepts, save_settings_ok,
  save_settings_err, save_settings_temp,
}

module _ (env : Env) where
  -- The configuration that a load without failures finds.
  load_ok :
      (d : Disk) (base loaded : Config)
      → load_admin_policies env false d base ≡ ok loaded
      → (o : Overrides) × (read_admin_policy_overrides env false d.policies ≡ ok o)
        × (apply_overrides env base o ≡ ok loaded)
  unfolding load_admin_policies
  load_ok d base loaded h =
      try_ok (read_admin_policy_overrides env false d.policies) (apply_overrides env base) loaded h

  -- Saving the policies is saving no settings.
  save_admin_policies_plain :
      (io : Io) (cfg : Config) (d : Disk)
      → save_admin_policies env io cfg d ≡ save_admin_editable_settings env io cfg [] d
  unfolding save_admin_policies save_admin_editable_settings put_keys
  save_admin_policies_plain io cfg d = refl

  module _ (faithful : RoundTrips env) where
    -- The overrides that a save has written load again.
    load-save_overrides :
        (io : Io) (cfg base : Config) (o : Overrides) (d : Disk)
        → (save_overrides env io cfg o d).0 ≡ ok tt
        → InRange env o
        → load_admin_policies env false (save_overrides env io cfg o d).1 base
          ≡ ok (with_policies cfg (overlay o base))
    unfolding with_live overlay read_admin_policy_overrides load_admin_policies
    load-save_overrides io cfg base o d h r =
        let written = save_overrides_ok env io cfg o d h in
        let live = with_live cfg o in
        let decoded =
          faithful unmarshal_days live cfg.platform.compliance_retention_days refl
            (accepts env cfg.platform.compliance_retention_days written.1) in
        let applied = apply-InRange env base live written.0 written.1 r in
        let found : read_admin_policy_overrides env false (some (env.marshal_overrides live))
            ≡ ok live =
          rw (decoded, read_admin_policy_overrides) in
        let loaded : load_admin_policies env false (save_overrides env io cfg o d).1 base
            ≡ apply_overrides env base live =
          rw (written.2, found, load_admin_policies) in
        loaded ∙ applied

    -- After a successful save of settings, a load over the same base configuration has the live
    -- policies and the marker of the saved configuration, the named settings as it has them, and
    -- everything else as a load had it before. The YAML package is assumed to decode what it has
    -- encoded.
    pub load-save_settings :
        (io : Io) (cfg base old : Config) (ks : List Key) (d : Disk)
        → (save_admin_editable_settings env io cfg ks d).0 ≡ ok tt
        → load_admin_policies env false d base ≡ ok old
        → load_admin_policies env false (save_admin_editable_settings env io cfg ks d).1 base
          ≡ ok (with_policies cfg (adopt_all cfg ks old))
    load-save_settings io cfg base old ks d h was =
        let a = save_settings_ok env io cfg ks d h in
        let b = load_ok d base old was in
        let o = a.0 in
        let changed = a.1 in
        let same : b.0 ≡ o = ok_injective (sym b.1 ∙ a.2) in
        let applied =
          apply_ok env base o old (subst (λ x. apply_overrides env base x ≡ ok old) same b.2) in
        let again =
          load-save_overrides io cfg base changed d a.4
            (put_keys-InRange env cfg ks o changed a.3 applied.2) in
        let view : with_policies cfg (overlay changed base)
            ≡ with_policies cfg (adopt_all cfg ks old) =
          ap (with_policies cfg) (overlay-put_keys env cfg base ks o changed a.3)
          ∙ sym (adopt_all-marker cfg ks (overlay o base) o.registry_reset_pending)
          ∙ ap (λ c. with_policies cfg (adopt_all cfg ks c)) applied.3 in
        ap (λ r. load_admin_policies env false r.1 base) a.5 ∙ again ∙ ap ok view

    -- Saving without settings keeps those that are overridden.
    pub load-save_admin_policies :
        (io : Io) (cfg base old : Config) (d : Disk)
        → (save_admin_policies env io cfg d).0 ≡ ok tt
        → load_admin_policies env false d base ≡ ok old
        → load_admin_policies env false (save_admin_policies env io cfg d).1 base
          ≡ ok (with_policies cfg old)
    load-save_admin_policies io cfg base old d h was =
        let plain = save_admin_policies_plain io cfg d in
        ap (λ r. load_admin_policies env false r.1 base) plain
        ∙ load-save_settings io cfg base old [] d (sym (ap (λ r. r.0) plain) ∙ h) was

  -- Files that earlier calls have left behind do not matter to a load.
  load-IsLeft :
      (io : Io) (base old : Config) (d d' : Disk)
      → IsLeft io d d'
      → d.temp ≡ none
      → load_admin_policies env false d base ≡ ok old
      → (d'.temp ≡ none) × (load_admin_policies env false d' base ≡ ok old)
  unfolding load_admin_policies
  load-IsLeft io base old d d' (inl same) t h = rw same (t, h)
  load-IsLeft io base old d d' (inr (fails, (content, same))) t h = rw same (t, h)

  -- A save that fails leaves what loads as it was; one that succeeds replaces what loads.
  pub save_policies-cases :
      RoundTrips env
      → (io : Io) (cfg base old : Config) (d : Disk) → d.temp ≡ none
      → load_admin_policies env false d base ≡ ok old
      → ((e : Error) × ((save_admin_policies env io cfg d).0 ≡ err e)
          × (((save_admin_policies env io cfg d).1.temp ≡ none)
              × (load_admin_policies env false (save_admin_policies env io cfg d).1 base ≡ ok old)))
        ⊎ ((save_admin_policies env io cfg d).0 ≡ ok tt)
          × (((save_admin_policies env io cfg d).1.temp ≡ none)
              × (load_admin_policies env false (save_admin_policies env io cfg d).1 base
                  ≡ ok (with_policies cfg old)))
  save_policies-cases faithful io cfg base old d t h =
      let plain = save_admin_policies_plain io cfg d in
      elim (Result-cases (save_admin_policies env io cfg d).0) [
        | inl (e, failed) ↦ inl (
          e,
          failed,
          load-IsLeft io base old d _
              (subst (λ x. IsLeft io d x) (sym (ap (λ r. r.1) plain))
                (save_settings_err env io cfg [] d e t (sym (ap (λ r. r.0) plain) ∙ failed)))
              t h,
        )
        | inr (u, saved) ↦ inr (
          saved,
          (
            ap (λ r. r.1.temp) plain
                ∙ save_settings_temp env io cfg [] d (sym (ap (λ r. r.0) plain) ∙ saved),
            load-save_admin_policies faithful io cfg base old d saved h,
          ),
        )
      ]

  -- A successful save has checked the periods.
  pub save_policies_ok :
      (io : Io) (cfg : Config) (d : Disk)
      → (save_admin_policies env io cfg d).0 ≡ ok tt
      → (within 0 36500 cfg.platform.compliance_retention_days ≡ true)
        × (ltb_ℤ cfg.platform.history_retention_days (pos 0) ≡ false)
  unfolding check_history check_compliance validate_compliance_retention_days check
  save_policies_ok io cfg d h =
      let a =
        save_settings_ok env io cfg [] d
          (sym (ap (λ r. r.0) (save_admin_policies_plain io cfg d)) ∙ h) in
      let b = save_overrides_ok env io cfg a.1 d a.4 in (check_passed _ _ b.1, guard_passed _ _ b.0)
