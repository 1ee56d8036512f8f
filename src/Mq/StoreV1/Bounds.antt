-- ===== src/Mq/StoreV1/Bounds.antt =====
-- `StoreEnvelope` keeps the bound on every mailbox.
use agent_comm_platform.Base.{ℕ, ◌≤◌, ◌<◌, inl, inr, Bool, arith}
use agent_comm_platform.Base.Int.{ℤ}
use agent_comm_platform.Base.Bytes.{Bytes}
use agent_comm_platform.Mq.Sdk.{Sdk}
use agent_comm_platform.Mq.Tables.{Store, World, unix}
use agent_comm_platform.Mq.Quota.{IsWithinQuota, IsWithinQuota-write, pending-insert_v1}
use agent_comm_platform.Mq.StoreV1.Guarantees.{Fresh, stored, store_cases}

module _ {Env : Type 0} (sdk : Sdk Env) (authorize : Bytes → Bool) (w : World) (before : Store Env)
    (recipient : Bytes) (env : Env) (expiry : ℤ) (s : Store Env) (t later : ℕ) where
  fresh-IsWithinQuota :
      (f : Fresh sdk authorize w before recipient env expiry s)
      → 0 < s.max_per_urn
      → IsWithinQuota t s.max_per_urn s.db
      → t ≤ later
      → unix (w.clock 11) ≤ later
      → unix (w.clock 12) ≤ later
      → IsWithinQuota later s.max_per_urn
          (stored sdk authorize w before recipient env expiry s).1.db
  fresh-IsWithinQuota f bounded within tl al bl = elim f.quota [
    | inl zero ↦ absurd (omega arith)
    | inr checked ↦ rw f.written (
        IsWithinQuota-write t later (unix (w.clock 11)) (unix (w.clock 12)) s.max_per_urn
          f.row.recipient s.db _ within tl al bl (rw f.written at checked)
          (λ other h u. pending-insert_v1 u u other f.row s.db h))
  ]

  -- If the bound is positive and no mailbox exceeds it from time `t` on, then none does after the
  -- call, from any time on that is before neither `t` nor the two readings of the quota check. A
  -- call that is refused for a full mailbox rolls its insert back.
  pub store-IsWithinQuota :
      0 < s.max_per_urn
      → IsWithinQuota t s.max_per_urn s.db
      → t ≤ later
      → unix (w.clock 11) ≤ later
      → unix (w.clock 12) ≤ later
      → IsWithinQuota later s.max_per_urn
          (stored sdk authorize w before recipient env expiry s).1.db
  store-IsWithinQuota bounded within tl al bl =
      elim (store_cases sdk authorize w before recipient env expiry s) [
        | inl r ↦ rw r.result (λ u other lu. within u other (omega arith))
        | inr (inl r) ↦ rw r.same (λ u other lu. within u other (omega arith))
        | inr (inr f) ↦ fresh-IsWithinQuota f bounded within tl al bl
      ]
