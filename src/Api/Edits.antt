-- ===== src/Api/Edits.antt =====
-- What a confirmed edit of the startup settings comes to.
use agent_comm_platform.Base.{
  ℕ, ◌≡◌, refl, sym, ap, subst, ◌∙◌, Bool, true, false, ◌&&◌, Option, List, [], ◌∷◌, map, arith,
  All, inl, inr, Option-cases, if◌then◌else◌,
}
use agent_comm_platform.Base.Int.{ℤ}
use agent_comm_platform.Base.Bytes.{Bytes}
use agent_comm_platform.Base.Action.{
  Result, ok, err, and_then, and_then_ok, ok_injective, try_ok, Result-cases,
}
use agent_comm_platform.Config.Settings.{
  Config, Key, Error as ConfigError, validate_admin_editable_setting,
}
use agent_comm_platform.Config.Overrides.{
  Env as ConfigEnv, load_admin_policies, save_admin_editable_settings,
}
use agent_comm_platform.Config.Writes.{RoundTrips}
use agent_comm_platform.Config.Adopted.{adopt_all, with_policies}
use agent_comm_platform.Config.RoundTrip.{load-save_settings}
use agent_comm_platform.Api.Policies.{Platform, Faults, live_config}
use agent_comm_platform.Api.Editable.{
  Json, EditError, Settings, editable_settings, editable_changes, wrapped, validate_keys,
  check_relay, finish_changes, set_values, apply_editable_changes,
}
use agent_comm_platform.Api.Adoption.{adopted_settings}
use agent_comm_platform.Api.Editor.{
  Crypto, EditableRequest, saved, decode_editable_request, save_changes, confirm, accept,
  handle_save,
}

module _ (parse_duration : Bytes → Option ℤ) where
  -- The setting of a key is in its range.
  abbrev pub IsValid : Config → Key → Type 0
  IsValid cfg k = validate_admin_editable_setting parse_duration cfg k ≡ ok tt

  wrapped_ok : (r : Result ConfigError Unit) → wrapped r ≡ ok tt → r ≡ ok tt
  unfolding wrapped
  wrapped_ok (ok tt) h = refl
  wrapped_ok (err e) h = cc

  validate_keys_ok :
      (cfg : Config) (ks : List Key)
      → validate_keys parse_duration cfg ks ≡ ok tt
      → All (IsValid cfg) ks
  unfolding validate_keys
  validate_keys_ok cfg [] h = tt
  validate_keys_ok cfg (k ∷ ks) h =
      let both = and_then_ok _ _ tt h in (wrapped_ok _ both.0, validate_keys_ok cfg ks both.1)

  no_relay :
      (b : Bool) (r : Result EditError Unit) (e : EditError)
      → and_then r (if b then err e else ok tt) ≡ ok tt
      → b ≡ false
  no_relay true (ok u) e h = cc
  no_relay true (err x) e h = cc
  no_relay false r e h = refl

  -- Accepted changes are valid, and in compliance mode the relay is off.
  pub apply_editable_changes_ok :
      (is_compliance : Bool) (changes : List (Key × Json)) (cfg final : Config)
      → apply_editable_changes parse_duration is_compliance changes cfg ≡ ok final
      → All (IsValid final) (map (λ c. c.0) changes)
        × (is_compliance && final.relay.enabled ≡ false)
  unfolding apply_editable_changes finish_changes check_relay
  apply_editable_changes_ok is_compliance changes cfg final h =
      let set =
        try_ok (set_values changes cfg)
          (finish_changes parse_duration is_compliance cfg.relay.enabled (map (λ c. c.0) changes))
          final h in
      let a = and_then_ok _ _ final set.2 in
      let b = and_then_ok _ _ final a.1 in
      subst
        (λ c. All (IsValid c) (map (λ x. x.0) changes) × (is_compliance && c.relay.enabled ≡ false))
        (ok_injective b.1) (validate_keys_ok set.0 _ a.0, no_relay _ _ _ b.0)

module _ {Env : Type 0} (config_env : ConfigEnv) (faithful : RoundTrips config_env)
    (crypto : Crypto) (preview_key : Bytes) (is_compliance : Bool) (cfg : Config) (w : Faults)
    (now : ℕ) where
  save_changes_ok :
      (updated : Config) (keys : List Key) (t : Settings) (p : Platform Env)
      → (save_changes config_env crypto preview_key is_compliance cfg w updated keys p).0 ≡ saved t
      → ((save_admin_editable_settings config_env w.save (live_config updated p) keys p.disk).0
          ≡ ok tt)
        × (t ≡ editable_settings updated)
        × ((save_changes config_env crypto preview_key is_compliance cfg w updated keys p).1
            ≡ record p {
              disk =
                  (save_admin_editable_settings config_env w.save
                    (live_config updated p)
                    keys
                    p.disk).1;
              policies = record p.policies { config_restart_pending = true };
              restarting = true;
            })
  unfolding save_changes
  save_changes_ok updated keys t p h = ground arith

  confirm_ok :
      (r : EditableRequest) (updated : Config) (t : Settings) (p : Platform Env)
      → (confirm config_env crypto preview_key is_compliance cfg w now r updated p).0 ≡ saved t
      → confirm config_env crypto preview_key is_compliance cfg w now r updated p
        ≡ save_changes config_env crypto preview_key is_compliance cfg w updated
            (editable_changes (editable_settings cfg) (editable_settings updated))
            p
  unfolding confirm
  confirm_ok r updated t p h = ground arith

  accept_ok :
      (r : EditableRequest) (t : Settings) (p : Platform Env)
      → (accept config_env crypto preview_key is_compliance cfg w now r p).0 ≡ saved t
      → (updated : Config) × (apply_editable_changes config_env.parse_duration is_compliance
            r.changes cfg
          ≡ ok updated)
        × (accept config_env crypto preview_key is_compliance cfg w now r p
            ≡ confirm config_env crypto preview_key is_compliance cfg w now r updated p)
  unfolding accept
  accept_ok r t p h =
      elim (Result-cases
        (apply_editable_changes config_env.parse_duration is_compliance r.changes cfg)) [
          | inl (e, failed) ↦ ground arith
          | inr (updated, applied) ↦ (updated, applied, ground arith)
        ]

  -- The platform `q` after the edit: a restart comes to the settings `t` under the live policies.
  abbrev pub IsEdited : Config → Settings → Platform Env → Platform Env → Type 0
  IsEdited base t p q =
      (loaded : Config) × (load_admin_policies config_env false q.disk base ≡ ok loaded)
      × (editable_settings loaded ≡ t)
      × (is_compliance && loaded.relay.enabled ≡ false)
      × (loaded.platform.store_user_data ≡ p.policies.store_user_data)
      × (q.policies ≡ record p.policies { config_restart_pending = true })

  accept-IsEdited :
      (base old : Config) (r : EditableRequest) (t : Settings) (p : Platform Env)
      → load_admin_policies config_env false p.disk base ≡ ok old
      → editable_settings old ≡ editable_settings cfg
      → (accept config_env crypto preview_key is_compliance cfg w now r p).0 ≡ saved t
      → IsEdited base t p (accept config_env crypto preview_key is_compliance cfg w now r p).1
  unfolding live_config editable_settings
  accept-IsEdited base old r t p was same h =
      let a = accept_ok r t p h in
      let b = confirm_ok r a.0 t p (sym (ap (λ x. x.0) a.2) ∙ h) in
      let u = live_config a.0 p in
      let keys = editable_changes (editable_settings cfg) (editable_settings u) in
      let c = save_changes_ok a.0 keys t p (sym (ap (λ x. x.0) (a.2 ∙ b)) ∙ h) in
      let approved =
        apply_editable_changes_ok config_env.parse_duration is_compliance r.changes cfg a.0 a.1 in
      let reached = ap (λ x. x.1) (a.2 ∙ b) ∙ c.2 in
      let settings = adopted_settings cfg old u same in
      (
        with_policies u (adopt_all u keys old),
        ap (λ q. load_admin_policies config_env false q.disk base) reached
            ∙ load-save_settings config_env faithful w.save u base old keys p.disk c.0 was,
        settings ∙ sym c.1,
        ap (λ x. is_compliance && x.enabled) settings ∙ approved.1,
        refl,
        ap (λ q. q.policies) reached,
      )

  -- A save of startup settings that is answered as made leaves overrides from which the next load
  -- has exactly the settings of the answer, with the relay off under a compliance policy and the
  -- storage policy that is in force; of the policies it changes the pending restart only. It is
  -- assumed that the running configuration has the settings that the disk held.
  pub handle_save_ok :
      (base old : Config) (body : Option EditableRequest) (t : Settings) (p : Platform Env)
      → load_admin_policies config_env false p.disk base ≡ ok old
      → editable_settings old ≡ editable_settings cfg
      → (handle_save config_env crypto preview_key is_compliance cfg w now body p).0 ≡ saved t
      → IsEdited base t p
          (handle_save config_env crypto preview_key is_compliance cfg w now body p).1
  unfolding handle_save
  handle_save_ok base old body t p was same h = elim (Option-cases (decode_editable_request body)) [
    | inl undecoded ↦ cc (rw (undecoded, handle_save) at h)
    | inr (r, decoded) ↦
        let go : handle_save config_env crypto preview_key is_compliance cfg w now body p
            ≡ accept config_env crypto preview_key is_compliance cfg w now r p =
          rw (decoded, handle_save) in
        subst (λ x. IsEdited base t p x.1) (sym go)
          (accept-IsEdited base old r t p was same (sym (ap (λ x. x.0) go) ∙ h))
  ]
