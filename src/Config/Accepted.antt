-- ===== src/Config/Accepted.antt =====
-- What the configuration that the platform starts with satisfies.
use agent_comm_platform.Base.{
  ◌≡◌, refl, Bool, true, false, List, [], ◌∷◌, arith, inl, inr, Bool-cases, All, ap, sym, ◌∙◌,
  subst,
}
use agent_comm_platform.Base.Bytes.{Bytes, is_empty}
use agent_comm_platform.Base.Action.{ok, and_then_ok, ok_injective, try_ok}
use agent_comm_platform.Config.Settings.{
  Config, read_config, parse_config, check, within, default_config,
  validate_compliance_retention_days, unmarshal_platform,
}
use agent_comm_platform.Config.Files.{Disk}
use agent_comm_platform.Config.Overrides.{Env, load_admin_policies, overlay, apply_overrides}
use agent_comm_platform.Config.Ranges.{apply_ok}
use agent_comm_platform.Config.Startup.{
  Host, is_half_pair, lacks_files, check_cidrs, final_checks, finish, load, parse, from_option,
  with_variables,
}

-- The checks that a configuration has passed when the platform starts with it.
abbrev pub IsAccepted : Host → Config → Type 0
IsAccepted host cfg =
    (within 0 36500 cfg.platform.compliance_retention_days ≡ true)
    × (is_half_pair cfg.api ≡ false)
    × (lacks_files cfg.v2 ≡ false)
    × All (λ c. host.is_cidr c ≡ true) cfg.api.trusted_proxy_cidrs

check_cidrs_ok :
    (host : Host) (cs : List Bytes)
    → check_cidrs host cs ≡ ok tt
    → All (λ c. host.is_cidr c ≡ true) cs
unfolding check_cidrs
check_cidrs_ok host [] h = tt
check_cidrs_ok host (c ∷ rest) h = elim (Bool-cases (host.is_cidr c)) [
  | inl valid ↦ (valid, check_cidrs_ok host rest (rw (valid, check_cidrs) at h))
  | inr invalid ↦ cc (rw (invalid, check_cidrs) at h)
]

-- The overrides touch neither the API's part nor the v2 part.
load_admin_policies_rest :
    (env : Env) (fault : Bool) (d : Disk) (cfg loaded : Config)
    → load_admin_policies env fault d cfg ≡ ok loaded
    → (loaded.api ≡ cfg.api) × (loaded.v2 ≡ cfg.v2)
unfolding load_admin_policies apply_overrides overlay
load_admin_policies_rest env fault d cfg loaded h =
    let a = try_ok _ (apply_overrides env cfg) loaded h in
    let b = (apply_ok env cfg a.0 loaded a.2).3 in (ap (λ c. c.api) (sym b), ap (λ c. c.v2) (sym b))

module _ (env : Env) (host : Host) where
  final_checks_ok :
      (cfg final : Config)
      → final_checks env host cfg ≡ ok final
      → (within 0 36500 cfg.platform.compliance_retention_days ≡ true)
        × (lacks_files cfg.v2 ≡ false)
        × (cfg ≡ final)
  unfolding final_checks validate_compliance_retention_days check
  final_checks_ok cfg final h = ground arith

  finish-IsAccepted :
      (fault : Bool) (d : Disk) (cfg final : Config)
      → finish env host fault d cfg ≡ ok final
      → IsAccepted host final
  unfolding finish
  finish-IsAccepted fault d cfg final h = elim (Bool-cases (is_half_pair cfg.api)) [
    | inl half ↦ cc (rw (half, finish) at h)
    | inr whole ↦
        let a = and_then_ok _ _ final (rw (whole, finish) at h) in
        let b = try_ok _ _ final a.1 in
        let same = load_admin_policies_rest env fault d cfg b.0 b.1 in
        let c = final_checks_ok b.0 final b.2 in
        subst (IsAccepted host) c.2 (
          c.0,
          ap is_half_pair same.0 ∙ whole,
          c.1,
          subst (λ api. All (λ x. host.is_cidr x ≡ true) api.trusted_proxy_cidrs) (sym same.0)
              (check_cidrs_ok host cfg.api.trusted_proxy_cidrs a.0),
        )
  ]

  -- A configuration that the platform starts with has a compliance period of 0 to 36500 days, a TLS
  -- certificate and key together or neither, no proxy range that does not parse, and under v2 its
  -- three files.
  pub load-IsAccepted :
      (path : Bytes) (fault : Bool) (d : Disk) (cfg : Config)
      → load env host path fault d ≡ ok cfg
      → IsAccepted host cfg
  unfolding load parse default_config
  load-IsAccepted path fault d cfg h = elim (Bool-cases (is_empty path)) [
    | inl default ↦
        subst (IsAccepted host) (ok_injective (rw (default, load) at h)) (refl, refl, refl, tt)
    | inr named ↦
        let a =
          try_ok (from_option read_config host.config_file) (parse env host fault d) cfg
            (rw (named, load) at h) in
        let b =
          try_ok (from_option parse_config (host.unmarshal unmarshal_platform default_config a.0))
            (λ c. finish env host fault d (with_variables host c)) cfg a.2 in
        finish-IsAccepted fault d (with_variables host b.0) cfg b.2
  ]
