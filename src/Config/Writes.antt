-- ===== src/Config/Writes.antt =====
-- What a save of the overrides has checked, written and left.
use agent_comm_platform.Base.{
  Bool-cases, ◌≡◌, refl, Bool, true, false, Option, none, some, List, arith, inl, inr,
  if◌then◌else◌, ◌∙◌, ap, subst,
}
use agent_comm_platform.Base.Int.{ℤ, pos, ltb_ℤ}
use agent_comm_platform.Base.Bytes.{Bytes, ascii, ◌==◌}
use agent_comm_platform.Base.Action.{Result, ok, err, Result-cases}
use agent_comm_platform.Config.Settings.{
  Config, Key, Scalar, marshal, Error, check, validate_compliance_retention_days, unmarshal_days,
}
use agent_comm_platform.Config.Files.{Disk, Io, IsLeft, replace_file_err, replace_file_ok}
use agent_comm_platform.Config.Overrides.{
  Overrides, Env, check_history, check_compliance, put_keys, with_live, read_admin_policy_overrides,
  save_overrides, save_admin_editable_settings,
}

-- The node of an integer in a document.
abbrev pub int_node : ℤ → Scalar
int_node days = record { tag = ascii "!!int"; as_int = some days }

-- Documented of gopkg.in/yaml.v3: what was marshalled decodes to the same, if the callback accepts
-- the integer node of the period where there is one.
abbrev pub RoundTrips : Env → Type 0
RoundTrips env =
    (callback : Scalar → Result Error ℤ) (o : Overrides) (days : ℤ)
    → o.compliance_retention_days ≡ some days
    → callback (int_node days) ≡ ok days
    → env.decode_overrides callback (env.marshal_overrides o) ≡ some o

pub check_passed : (t : Bool) (e : Error) → check t e ≡ ok tt → t ≡ true
unfolding check
check_passed true e h = refl
check_passed false e h = cc

pub guard_passed : (t : Bool) (e : Error) → (if t then err e else ok tt) ≡ ok tt → t ≡ false
guard_passed true e h = cc
guard_passed false e h = refl

module _ (env : Env) where
  -- What a saving has checked, and the file that it leaves.
  pub save_overrides_ok :
      (io : Io) (cfg : Config) (o : Overrides) (d : Disk)
      → (save_overrides env io cfg o d).0 ≡ ok tt
      → (check_history (some cfg.platform.history_retention_days) ≡ ok tt)
        × (check_compliance (some cfg.platform.compliance_retention_days) ≡ ok tt)
        × ((save_overrides env io cfg o d).1 ≡ record {
          policies = some (env.marshal_overrides (with_live cfg o));
          temp = none;
          left_over = d.left_over;
        })
  unfolding save_overrides check_history check_compliance validate_compliance_retention_days check
  save_overrides_ok io cfg o d h =
      ground (arith, replace_file_ok io (env.marshal_overrides (with_live cfg o)) d)

  pub accepts :
      (days : ℤ) → check_compliance (some days) ≡ ok tt → unmarshal_days (int_node days) ≡ ok days
  unfolding check_compliance unmarshal_days ◌==◌
  accepts days h = ground arith

  -- What a read without failures finds is what the save found.
  read_again :
      (fault : Bool) (content : Option Bytes) (o : Overrides)
      → read_admin_policy_overrides env fault content ≡ ok o
      → read_admin_policy_overrides env false content ≡ ok o
  unfolding read_admin_policy_overrides
  read_again false content o h = h
  read_again true none o h = cc
  read_again true (some c) o h = cc

  -- A successful save of settings read the overrides, changed them, and wrote them.
  pub save_settings_ok :
      (io : Io) (cfg : Config) (ks : List Key) (d : Disk)
      → (save_admin_editable_settings env io cfg ks d).0 ≡ ok tt
      → (o : Overrides) × (changed : Overrides) × (read_admin_policy_overrides env false d.policies
          ≡ ok o)
        × (put_keys env cfg ks o ≡ ok changed)
        × ((save_overrides env io cfg changed d).0 ≡ ok tt)
        × (save_admin_editable_settings env io cfg ks d ≡ save_overrides env io cfg changed d)
  unfolding save_admin_editable_settings
  save_settings_ok io cfg ks d h =
      elim (Result-cases (read_admin_policy_overrides env io.read_fault d.policies)) [
        | inl (e, failed) ↦ cc (rw (failed, save_admin_editable_settings) at h)
        | inr (o, found) ↦ elim (Result-cases (put_keys env cfg ks o)) [
          | inl (e, failed) ↦ cc (rw (found, failed, save_admin_editable_settings) at h)
          | inr (changed, valid) ↦
              let same : save_admin_editable_settings env io cfg ks d
                  ≡ save_overrides env io cfg changed d =
                rw (found, valid, save_admin_editable_settings) in
              (
                o,
                changed,
                read_again io.read_fault d.policies o found,
                valid,
                subst (λ r. r.0 ≡ ok tt) same h,
                same,
              )
        ]
      ]

  save_overrides_err :
      (io : Io) (cfg : Config) (o : Overrides) (d : Disk) (e : Error)
      → d.temp ≡ none
      → (save_overrides env io cfg o d).0 ≡ err e
      → IsLeft io d (save_overrides env io cfg o d).1
  unfolding save_overrides
  save_overrides_err io cfg o d e t h =
      let content = env.marshal_overrides (with_live cfg o) in
      elim (Result-cases
        (validate_compliance_retention_days cfg.platform.compliance_retention_days)) [
          | inl (e', failed) ↦ rw (failed, save_overrides) (inl refl)
          | inr (u, valid) ↦ elim (Bool-cases (ltb_ℤ cfg.platform.history_retention_days (pos 0))) [
            | inl negative ↦ rw (valid, negative, save_overrides) (inl refl)
            | inr natural ↦ elim (Bool-cases (io.fault marshal)) [
              | inl fails ↦ rw (valid, natural, fails, save_overrides) (inl refl)
              | inr works ↦
                  rw (valid, natural, works, save_overrides)
                    (replace_file_err io content d e t
                      (rw (valid, natural, works, save_overrides) at h))
            ]
          ]
        ]

  -- A save that fails, whether at the read, at a check or at any step of the replacement of the
  -- file, leaves the overrides as they were, and no temporary file if there was none before, unless
  -- the removal of that file fails as well.
  pub save_settings_err :
      (io : Io) (cfg : Config) (ks : List Key) (d : Disk) (e : Error)
      → d.temp ≡ none
      → (save_admin_editable_settings env io cfg ks d).0 ≡ err e
      → IsLeft io d (save_admin_editable_settings env io cfg ks d).1
  unfolding save_admin_editable_settings
  save_settings_err io cfg ks d e t h =
      elim (Result-cases (read_admin_policy_overrides env io.read_fault d.policies)) [
        | inl (e', failed) ↦ rw (failed, save_admin_editable_settings) (inl refl)
        | inr (o, found) ↦ elim (Result-cases (put_keys env cfg ks o)) [
          | inl (e', failed) ↦ rw (found, failed, save_admin_editable_settings) (inl refl)
          | inr (changed, valid) ↦
              rw (found, valid, save_admin_editable_settings)
                (save_overrides_err io cfg changed d e t
                  (rw (found, valid, save_admin_editable_settings) at h))
        ]
      ]

  pub save_settings_temp :
      (io : Io) (cfg : Config) (ks : List Key) (d : Disk)
      → (save_admin_editable_settings env io cfg ks d).0 ≡ ok tt
      → (save_admin_editable_settings env io cfg ks d).1.temp ≡ none
  save_settings_temp io cfg ks d h =
      let a = save_settings_ok io cfg ks d h in
      ap (λ r. r.1.temp) a.5 ∙ ap (λ x. x.temp) (save_overrides_ok io cfg a.1 d a.4).2
