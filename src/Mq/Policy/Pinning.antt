-- ===== src/Mq/Policy/Pinning.antt =====
-- A policy that has been pinned is never rolled back.
use agent_comm_platform.Base.{
  ℕ, ◌≡◌, refl, ◌∙◌, ◌⊎◌, inl, inr, ◌≤◌, ◌<◌, Bool, false, some, List, [], ◌∷◌, arith, length,
}
use agent_comm_platform.Base.Int.{ℤ, pos_part}
use agent_comm_platform.Base.Bytes.{Bytes, eq_iff}
use agent_comm_platform.Base.Action.{Result, ok, err}
use agent_comm_platform.Mq.Tables.{PolicyRow, Store, Error, World, unix}
use agent_comm_platform.Mq.Policy.{is_rollback, pin_policy, enable_v2_policy}

-- The row's epoch is at least that of `old`, and at the same epoch its hash is that of `old`.
pub record Follows (old new : PolicyRow) : Type 0 where
  pub epoch_le : old.epoch ≤ new.epoch
  pub hash_eq : old.epoch ≡ new.epoch → old.policy_hash ≡ new.policy_hash

module _ {Env : Type 0} (w : World) (epoch : ℕ) (hash : Bytes) (expires_at : ℤ) (require_v2 : Bool)
    (issuer : Bytes) (s : Store Env) where
  abbrev enabled : Result Error Unit × Store Env
  enabled = enable_v2_policy w epoch hash expires_at require_v2 issuer s

  pub enable_err : (e : Error) → enabled.0 ≡ err e → enabled.1 ≡ s
  unfolding enable_v2_policy pin_policy
  enable_err e h = ground arith

  abbrev row : PolicyRow
  row = record {
    epoch = epoch;
    policy_hash = hash;
    expires_at = pos_part expires_at;
    require_v2 = require_v2;
    issuer_pubkey = issuer;
  }

  pub enable_cases : (enabled.1 ≡ s) ⊎ (enabled.0 ≡ ok tt)
  unfolding enable_v2_policy pin_policy
  enable_cases = ground arith

  -- A success pins a policy that has not expired, whose hash has 64 digits and which is no
  -- rollback, in the database and in memory alike, and changes nothing else.
  pub enable_ok :
      enabled.0 ≡ ok tt
      → (is_rollback s.db.policy_state epoch hash ≡ false)
        × (unix (w.clock 0) < pos_part expires_at)
        × (length hash ≡ 64)
        × (enabled.1 ≡ record s {
          db = record s.db { policy_state = some row };
          v2_required = require_v2;
          v2_policy_hash = hash;
          v2_policy_expiry = pos_part expires_at;
          v2_managed_issuer = issuer;
        })
  unfolding enable_v2_policy pin_policy
  enable_ok h = ground arith

  not_rollback : (old : PolicyRow) → is_rollback (some old) epoch hash ≡ false → Follows old row
  unfolding is_rollback
  not_rollback old h = record {
    epoch_le = ground arith;
    hash_eq = λ e. ground (arith, eq_iff hash old.policy_hash);
  }

  enable_Follows :
      (old : PolicyRow)
      → s.db.policy_state ≡ some old
      → (new : PolicyRow) × (enabled.1.db.policy_state ≡ some new) × Follows old new
  enable_Follows old found = elim enable_cases [
    | inl same ↦ (old, rw same found, record { epoch_le = omega arith; hash_eq = λ e. refl })
    | inr done ↦
        let facts = enable_ok done in (row, rw facts.3 refl, not_rollback old (rw found at facts.0))
  ]

-- One call of EnableV2Policy.
pub record Call : Type 0 where
  pub world : World
  pub epoch : ℕ
  pub hash : Bytes
  pub expires_at : ℤ
  pub require_v2 : Bool
  pub issuer : Bytes

Follows-trans : (a b c : PolicyRow) → Follows a b → Follows b c → Follows a c
Follows-trans a b c p q = record {
  epoch_le = omega (arith, p.epoch_le, q.epoch_le);
  hash_eq = λ e.
      p.hash_eq (omega (arith, p.epoch_le, q.epoch_le))
      ∙ q.hash_eq (omega (arith, p.epoch_le, q.epoch_le));
}

module _ {Env : Type 0} where
  pub run : List Call → Store Env → Store Env
  run [] s = s
  run (c ∷ cs) s =
      run cs (enable_v2_policy c.world c.epoch c.hash c.expires_at c.require_v2 c.issuer s).1

  -- Over any sequence of calls, with any failures of the database, the pinned epoch never falls,
  -- and no other policy is ever pinned under an epoch that has been seen.
  pub run-Follows :
      (cs : List Call) (s : Store Env) (old : PolicyRow)
      → s.db.policy_state ≡ some old
      → (new : PolicyRow) × ((run cs s).db.policy_state ≡ some new) × Follows old new
  unfolding run
  run-Follows [] s old found = (old, found, record { epoch_le = omega arith; hash_eq = λ e. refl })
  run-Follows (c ∷ cs) s old found =
      let (mid, at_mid, step) =
        enable_Follows c.world c.epoch c.hash c.expires_at c.require_v2 c.issuer s old found in
      let (new, at_new, steps) =
        run-Follows cs
          (enable_v2_policy c.world c.epoch c.hash c.expires_at c.require_v2 c.issuer s).1 mid
          at_mid in
      (new, at_new, Follows-trans old mid new step steps)
