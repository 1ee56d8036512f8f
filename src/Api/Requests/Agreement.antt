-- ===== src/Api/Requests/Agreement.antt =====
-- The disk after any of the requests of internal/api/admin.go and admin_compliance.go, and after
-- sequences of them.
use mathlib.Core.Option.{some-injective}
use agent_comm_platform.Base.{
  ◌≤◌, ◌%◌, subst, ◌≡◌, refl, sym, ap, ◌∙◌, ◌⊎◌, true, false, Bool-cases, arith, not, ◌||◌, Option,
  none, some, List, [], ◌∷◌, inl, inr, Option-cases, if◌then◌else◌,
}
use agent_comm_platform.Base.Int.{ℤ, pos, negsuc, to_int32}
use agent_comm_platform.Base.Bytes.{Bytes, is_empty}
use agent_comm_platform.Base.Action.{ok, err, Result-cases}
use agent_comm_platform.Config.Settings.{Config, within}
use agent_comm_platform.Config.Overrides.{Env as ConfigEnv, save_admin_policies}
use agent_comm_platform.Config.Writes.{RoundTrips}
use agent_comm_platform.Config.Adopted.{with_policies}
use agent_comm_platform.Mq.Tables.{World, Store as Mailboxes, Error as MqError}
use agent_comm_platform.Mq.Retention.{set_compliance_retention_days, set_history_retention_days}
use agent_comm_platform.Api.Decimal.{atoi}
use agent_comm_platform.Api.Policies.{Platform, Faults, live_config}
use agent_comm_platform.Api.Updates.{
  Reply, persist, not_applied, bad_request, method_not_allowed, conflict, desired_of,
  handle_set_storage, handle_set_forwarding,
}
use agent_comm_platform.Api.Retentions.{
  period, with_period, history_config, retain_history, change_history, handle_set_retention,
  compliance_config, apply_compliance, change_compliance, handle_set_compliance_retention,
}
use agent_comm_platform.Api.Safety.{
  Holds, Agrees, persist-Agrees, saved_cases, if-Agrees, update_storage-Agrees,
  update_forwarding-Agrees,
}
use agent_comm_platform.Api.Requests.{
  Request, toggle_storage, toggle_forwarding, set_storage, set_forwarding, set_retention,
  set_compliance_retention, handle, run,
}

to_int32-within : (days : ℤ) → within 0 36500 days ≡ true → to_int32 days ≡ days
unfolding to_int32
to_int32-within (pos n) h =
    let few : n ≤ 36500 = ground arith in
    let same : n % 4294967296 ≡ n = omega arith in rw (same, to_int32) (ground arith)
to_int32-within (negsuc n) h = ground arith

set_compliance_ok :
    {Env : Type 0} (w : World) (days : ℤ) (s : Mailboxes Env)
    → (set_compliance_retention_days w days s).0 ≡ ok tt
    → ((set_compliance_retention_days w days s).1.history_retention_days ≡ s.history_retention_days)
      × (pos (set_compliance_retention_days w days s).1.compliance_retention_days ≡ days)
unfolding set_compliance_retention_days
set_compliance_ok w (pos n) s h = (ground arith, ground arith)
set_compliance_ok w (negsuc n) s h = (ground arith, ground arith)

set_compliance_err :
    {Env : Type 0} (w : World) (days : ℤ) (s : Mailboxes Env) (e : MqError)
    → (set_compliance_retention_days w days s).0 ≡ err e
    → (set_compliance_retention_days w days s).1 ≡ s
unfolding set_compliance_retention_days
set_compliance_err w days s e h = ground arith

period-within : (text : Bytes) (days : ℤ) → period text ≡ some days → within 0 36500 days ≡ true
unfolding period
period-within text days h = elim (Option-cases (atoi text)) [
  | inl e ↦ cc (rw (e, period) at h)
  | inr (d, e) ↦ elim (Bool-cases (within 0 36500 d)) [
    | inl fits ↦
        subst (λ x. within 0 36500 x ≡ true) (some-injective d days (rw (e, fits, period) at h))
          fits
    | inr out ↦ cc (rw (e, out, period) at h)
  ]
]

module _ {Env : Type 0} (env : ConfigEnv) (faithful : RoundTrips env) (cfg base : Config)
    (w : Faults) (X : Type 0) where
  change_history-Agrees :
      (days : ℤ) (p : Platform Env)
      → within 0 36500 days ≡ true
      → Agrees X env base p
      → Agrees X env base (change_history env cfg w days p).1
  unfolding change_history history_config retain_history set_history_retention_days live_config
  change_history-Agrees days p ranges s =
      let updated = history_config cfg days p in
      if-Agrees env faithful cfg base w X p.policies.registry_reset_pending (conflict, p)
        (persist env w updated (retain_history days) p) s
        (persist-Agrees env faithful cfg base w X updated (retain_history days) p
          (λ c d h. (
            with_policies updated c,
            h,
            refl,
            refl,
            inl refl,
            sym (to_int32-within days ranges),
            inl refl,
          ))
          s)

  -- `X` is what a failed attempt to restore the period tells.
  apply_compliance-Agrees :
      (days : ℤ) (p : Platform Env) (c : Config)
      → ((e : MqError) → (apply_compliance env cfg w days p).0 ≡ not_applied false e → X)
      → within 0 36500 days ≡ true
      → Holds env base p.disk c
      → c.platform.store_user_data ≡ p.policies.store_user_data
      → c.platform.forward_to_storage_platforms ≡ p.policies.forward_to_storage_platforms
      → c.admin_registry_reset_pending ≡ p.policies.registry_reset_pending
      → c.platform.history_retention_days ≡ p.mq.history_retention_days
      → c.platform.compliance_retention_days ≡ days
      → Agrees X env base (apply_compliance env cfg w days p).1
  unfolding apply_compliance live_config
  apply_compliance-Agrees days p c excuse ranges h st f q m k =
      let applied = set_compliance_retention_days w.mq days p.mq in
      let updated = live_config cfg p in
      elim (Result-cases applied.0) [
        | inr (u, fine) ↦
            let set = set_compliance_ok w.mq days p.mq fine in
            rw (fine, apply_compliance) (c, h, f, q, inl st, m ∙ sym set.0, inl (k ∙ sym set.1))
        | inl (e, failed) ↦
            let same = set_compliance_err w.mq days p.mq e failed in
            elim (saved_cases env faithful base w.take_back updated c p.disk h) [
              | inl (e', lost, holds) ↦
                  rw (failed, lost, apply_compliance)
                    (
                      c,
                      holds,
                      f,
                      q,
                      inl st,
                      m ∙ ap (λ x. x.history_retention_days) (sym same),
                      inr (excuse e (rw (failed, lost, apply_compliance))),
                    )
              | inr (saved, holds) ↦
                  rw (failed, saved, apply_compliance)
                    (
                      with_policies updated c,
                      holds,
                      refl,
                      refl,
                      inl refl,
                      ap (λ x. x.history_retention_days) (sym same),
                      inl (ap (λ x. pos x.compliance_retention_days) (sym same)),
                    )
            ]
      ]

  change_compliance-Agrees :
      (days : ℤ) (p : Platform Env)
      → ((e : MqError) → (change_compliance env cfg w days p).0 ≡ not_applied false e → X)
      → within 0 36500 days ≡ true
      → Agrees X env base p
      → Agrees X env base (change_compliance env cfg w days p).1
  unfolding change_compliance compliance_config live_config persist
  change_compliance-Agrees days p excuse ranges s =
      let updated = compliance_config cfg days p in
      let saved_disk = (save_admin_policies env w.save updated p.disk).1 in
      elim (Bool-cases (p.policies.registry_reset_pending || p.policies.config_restart_pending)) [
        | inl pending ↦ rw (pending, change_compliance) s
        | inr free ↦ elim (saved_cases env faithful base w.save updated s.0 p.disk s.1) [
          | inl (e, failed, holds) ↦
              rw (free, failed, change_compliance, persist) (s.0, holds, s.2, s.3, s.4, s.5, s.6)
          | inr (saved, holds) ↦
              rw (free, saved, change_compliance, persist)
                (apply_compliance-Agrees days (record p { disk = saved_disk })
                  (with_policies updated s.0)
                  (λ e k. excuse e (rw (free, saved, change_compliance, persist) k)) ranges holds
                  refl refl refl refl refl)
        ]
      ]

  with_period-Agrees :
      (days : Option ℤ) (follow : ℤ → Platform Env → Reply × Platform Env) (p : Platform Env)
      → ((d : ℤ) → days ≡ some d → Agrees X env base (follow d p).1)
      → Agrees X env base p
      → Agrees X env base (with_period days follow p).1
  unfolding with_period
  with_period-Agrees none follow p h s = s
  with_period-Agrees (some d) follow p h s = h d refl

  handle-Agrees :
      (r : Request) (p : Platform Env)
      → ((e : MqError) → (handle env cfg w r p).0 ≡ not_applied false e → X)
      → Agrees X env base p
      → Agrees X env base (handle env cfg w r p).1
  unfolding handle handle_set_storage handle_set_forwarding handle_set_retention
      handle_set_compliance_retention with_period change_compliance
  handle-Agrees toggle_storage p excuse s = update_storage-Agrees env faithful cfg base w X none p s
  handle-Agrees toggle_forwarding p excuse s =
      update_forwarding-Agrees env faithful cfg base w X none p s
  handle-Agrees (set_storage body) p excuse s = elim (Option-cases (desired_of body)) [
    | inl e ↦ rw (e, handle, handle_set_storage) s
    | inr (b, e) ↦
        rw (e, handle, handle_set_storage)
          (update_storage-Agrees env faithful cfg base w X (some b) p s)
  ]
  handle-Agrees (set_forwarding body) p excuse s = elim (Option-cases (desired_of body)) [
    | inl e ↦ rw (e, handle, handle_set_forwarding) s
    | inr (b, e) ↦
        rw (e, handle, handle_set_forwarding)
          (update_forwarding-Agrees env faithful cfg base w X (some b) p s)
  ]
  handle-Agrees (set_retention is_post text) p excuse s =
      let change = change_history env cfg w in
      let asked = with_period (period text) change p in
      if-Agrees env faithful cfg base w X (not is_post) (method_not_allowed, p)
        (if is_empty text then (bad_request, p) else asked) s
        (if-Agrees env faithful cfg base w X (is_empty text) (bad_request, p) asked s
          (with_period-Agrees (period text) change p
            (λ d e. change_history-Agrees d p (period-within text d e) s) s))
  handle-Agrees (set_compliance_retention []) p excuse s = s
  handle-Agrees (set_compliance_retention (text ∷ [])) p excuse s =
      with_period-Agrees (period text) (change_compliance env cfg w) p
        (λ d e.
          change_compliance-Agrees d p
            (λ x k. excuse x (rw (e, handle, handle_set_compliance_retention, with_period) k))
            (period-within text d e) s)
        s
  handle-Agrees (set_compliance_retention (a ∷ b ∷ rest)) p excuse s = s

module _ {Env : Type 0} (env : ConfigEnv) (faithful : RoundTrips env) (cfg base : Config) where
  -- Some request was told that the period on disk could not be restored.
  abbrev pub IsUnrestored : List (Faults × Request) → Platform Env → Type 0
  IsUnrestored [] p = ⊥
  IsUnrestored (r ∷ rest) p =
      ((e : MqError) × ((handle env cfg r.0 r.1 p).0 ≡ not_applied false e))
      ⊎ IsUnrestored rest (handle env cfg r.0 r.1 p).1

  run_excused :
      (X : Type 0) (rs : List (Faults × Request)) (p : Platform Env)
      → (IsUnrestored rs p → X)
      → Agrees X env base p
      → Agrees X env base (run env cfg rs p)
  run_excused X [] p excuse s = s
  run_excused X (r ∷ rest) p excuse s =
      run_excused X rest (handle env cfg r.0 r.1 p).1 (λ u. excuse (inr u))
        (handle-Agrees env faithful cfg base r.0 X r.1 p (λ e k. excuse (inl (e, k))) s)

  -- Over any sequence of the requests that change the live policies, each with any failures of the
  -- file system, the registry and the mailboxes, the overrides on disk stay loadable and agree with
  -- the policies and both retention periods in force, but for a storage policy that the marker of a
  -- pending reset covers, and for the period of the archive where a request was told that it could
  -- not be restored. The YAML package is assumed to decode what it has encoded.
  pub run-Agrees :
      (rs : List (Faults × Request)) (p : Platform Env)
      → Agrees ⊥ env base p
      → Agrees (IsUnrestored rs p) env base (run env cfg rs p)
  run-Agrees rs p s =
      run_excused (IsUnrestored rs p) rs p (λ u. u)
        (
          s.0,
          s.1,
          s.2,
          s.3,
          s.4,
          s.5,
          elim s.6 [ inl e ↦ inl e | inr impossible ↦ absurd impossible ],
        )
