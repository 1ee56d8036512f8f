-- ===== src/Mq/Retention/Archive.antt =====
-- What the archive shows, and how a change of the retention period bears on it.
use agent_comm_platform.Base.{
  ℕ, ◌+◌, ◌*◌, ◌≤◌, ◌<◌, ◌≡◌, refl, ap, inl, inr, Bool, true, false, Bool-cases, List, [], ◌∷◌,
  arith, All, eqb,
}
use agent_comm_platform.Base.Int.{ℤ, pos, negsuc, pos_part}
use agent_comm_platform.Base.Bytes.{Bytes}
use agent_comm_platform.Base.Table.{select, select-All, select-delete, delete, delete-All}
use agent_comm_platform.Base.Sort.{sort, sort-All}
use agent_comm_platform.Base.Action.{Result, ok, err}
use agent_comm_platform.Mq.Tables.{ComplianceMessage, Db, Store, World, Error, unix}
use agent_comm_platform.Mq.Retention.{
  cutoff, is_out_of_retention, delete_expired_compliance, unless, purge_days,
  set_compliance_retention_days, matches, newer_first, visible, cleanup, drop_history, drop_expired,
}

-- A message is in its retention period: less than `days` days have passed since it was stored.
abbrev pub IsRetained : ℕ → ℕ → ComplianceMessage → Type 0
IsRetained days now m = now < m.stored_at + days * 24 * 3600

matches-IsRetained :
    (days now : ℕ) (sender recipient : Bytes) (m : ComplianceMessage)
    → matches days now sender recipient m ≡ true
    → IsRetained days now m
unfolding matches cutoff
matches-IsRetained days now sender recipient m h = ground arith

All-weaken :
    (P Q : ComplianceMessage → Type 0) (ms : List ComplianceMessage)
    → ((m : ComplianceMessage) → P m → Q m)
    → All P ms
    → All Q ms
All-weaken P Q [] k h = tt
All-weaken P Q (m ∷ ms) k h = (k m h.0, All-weaken P Q ms k h.1)

module _ {Env : Type 0} (now : ℕ) (sender recipient : Bytes) (s : Store Env) where
  -- No list shows a message whose retention period has passed, whether or not the cleanup has run.
  pub visible-IsRetained :
      All (IsRetained s.compliance_retention_days now) (visible now sender recipient s)
  unfolding visible
  visible-IsRetained = elim (Bool-cases (eqb s.compliance_retention_days 0)) [
    | inl zero ↦ rw zero tt
    | inr some_days ↦ rw some_days (
        sort-All newer_first _ _ (
          All-weaken _ _
            (select (matches s.compliance_retention_days now sender recipient) s.db.compliance)
            (matches-IsRetained s.compliance_retention_days now sender recipient)
            (select-All _ s.db.compliance)))
  ]

-- The other cleanups leave the archive alone.
compliance-drop :
    (w : World) (days : ℤ) (now : ℕ) (db : Db)
    → (drop_history w days now (drop_expired w now db)).compliance ≡ db.compliance
unfolding drop_history drop_expired
compliance-drop w (pos days) now db = refl
compliance-drop w (negsuc n) now db = refl

retained_not_out :
    (days now later : ℕ) (sender recipient : Bytes) (m : ComplianceMessage)
    → now ≤ later
    → matches days later sender recipient m ≡ true
    → is_out_of_retention days now m ≡ false
unfolding matches cutoff
retained_not_out days now later sender recipient m le h = ground arith

select-expired :
    (fault : Bool) (days now later : ℕ) (sender recipient : Bytes) (ms : List ComplianceMessage)
    → now ≤ later
    → eqb days 0 ≡ false
    → select
        (matches days later sender recipient)
        (unless fault (delete_expired_compliance days now) ms)
      ≡ select (matches days later sender recipient) ms
unfolding delete_expired_compliance
select-expired true days now later sender recipient ms le nz = refl
select-expired false days now later sender recipient ms le nz = rw nz (
    select-delete (matches days later sender recipient) (is_out_of_retention days now) ms
      (λ m. retained_not_out days now later sender recipient m le))

module _ {Env : Type 0} (w : World) (now later : ℕ) (sender recipient : Bytes) (s : Store Env) where
  -- The cleanup at one time changes nothing that the archive shows from then on.
  pub visible-cleanup :
      now ≤ later
      → visible later sender recipient (cleanup w now s) ≡ visible later sender recipient s
  unfolding visible cleanup
  visible-cleanup le = elim (Bool-cases (eqb s.compliance_retention_days 0)) [
    | inl zero ↦ rw zero
    | inr some_days ↦
        rw (some_days, compliance-drop w s.history_retention_days now s.db)
          (ap (sort newer_first) (
            select-expired (w.fault 7) s.compliance_retention_days now later sender recipient
              s.db.compliance le some_days))
  ]

purge_min :
    {Env : Type 0} (s : Store Env) (days : ℕ)
    → s.compliance_retention_initialized ≡ true
    → (purge_days days s ≤ days) × (purge_days days s ≤ s.compliance_retention_days)
unfolding purge_days
purge_min s days used = (ground arith, ground arith)

not_out-IsRetained :
    (days now : ℕ) (m : ComplianceMessage)
    → is_out_of_retention days now m ≡ false
    → IsRetained days now m
unfolding cutoff
not_out-IsRetained days now m h = ground arith

expired-IsRetained :
    (days now : ℕ) (ms : List ComplianceMessage)
    → All (IsRetained days now) (delete_expired_compliance days now ms)
unfolding delete_expired_compliance
expired-IsRetained days now ms = elim (Bool-cases (eqb days 0)) [
  | inl zero ↦ rw zero tt
  | inr some_days ↦ rw some_days (
      All-weaken _ _ (delete (is_out_of_retention days now) ms) (not_out-IsRetained days now)
        (delete-All (is_out_of_retention days now) ms))
]

module _ {Env : Type 0} (w : World) (days : ℤ) (s : Store Env) where
  abbrev pub changed : Result Error Unit × Store Env
  changed = set_compliance_retention_days w days s

  -- A change of the period that is refused or fails changes nothing.
  pub change_err : (e : Error) → changed.0 ≡ err e → changed.1 ≡ s
  unfolding set_compliance_retention_days
  change_err e h = ground arith

  change_ok :
      changed.0 ≡ ok tt
      → changed.1 ≡ record s {
        db = record s.db {
          compliance =
              delete_expired_compliance
                (purge_days (pos_part days) s)
                (unix (w.clock 0))
                s.db.compliance;
        };
        compliance_retention_days = pos_part days;
        compliance_retention_initialized = true;
      }
  unfolding set_compliance_retention_days
  change_ok h = ground arith

  -- Where the period in force has been used, what remains after a change to any period, longer or
  -- shorter, is within both the old and the new period at the time of the change.
  pub change_revives_nothing :
      changed.0 ≡ ok tt
      → s.compliance_retention_initialized ≡ true
      → All
          (λ m.
            IsRetained s.compliance_retention_days (unix (w.clock 0)) m
            × IsRetained (pos_part days) (unix (w.clock 0)) m)
          changed.1.db.compliance
  change_revives_nothing h used =
      let p = purge_days (pos_part days) s in
      let bounds = purge_min s (pos_part days) used in
      rw (change_ok h) (
        All-weaken (IsRetained p (unix (w.clock 0))) _
          (delete_expired_compliance p (unix (w.clock 0)) s.db.compliance)
          (λ m k. (omega (arith, bounds.1), omega (arith, bounds.0)))
          (expired-IsRetained p (unix (w.clock 0)) s.db.compliance))
