-- ===== src/Mq/StoreV2/Bounds.antt =====
-- `storeV2` keeps the bound on every mailbox.
use agent_comm_platform.Base.{ℕ, ◌≤◌, ◌<◌, ◌≡◌, ◌∙◌, inl, inr, Option, arith}
use agent_comm_platform.Base.Bytes.{Bytes}
use agent_comm_platform.Mq.Quota.{IsWithinQuota, IsWithinQuota-write, pending-insert_v2}
use agent_comm_platform.Mq.Tables.{
  V2Row, AdmissionRow, ComplianceMessage, Db, Store, World, pending, unix,
}
use agent_comm_platform.Mq.StoreV2.{Delivery, Archive, row_of, admission_of, body_of}
use agent_comm_platform.Mq.StoreV2.Outcome
use agent_comm_platform.Mq.StoreV2.Outcome.{archived, archived_messages, queued, store_tx_outcome}
use agent_comm_platform.Mq.StoreV2.Guarantees.{stored, store_v2_cases}

-- The archive counts for no mailbox.
pending-archived :
    (a b : ℕ) (recipient : Bytes) (days : ℕ) (admission : AdmissionRow)
    (body : Option ComplianceMessage) (db : Db)
    → pending a b recipient (archived days admission body db) ≡ pending a b recipient db
unfolding pending
pending-archived a b recipient days admission body db =
    rw ((archived_messages days admission body db).0, (archived_messages days admission body db).1)

module _ {Env : Type 0} (json : Bytes) (envelope_hash : Bytes → Bytes) (w : World)
    (before : Store Env) (d : Delivery) (a : Option Archive) (s : Store Env) (t later : ℕ) where
  abbrev row : V2Row
  row = row_of d (unix (w.clock 0))

  abbrev admission : AdmissionRow
  admission = admission_of envelope_hash d

  abbrev body : Option ComplianceMessage
  body = body_of d (unix (w.clock 0)) a

  fresh-IsWithinQuota :
      Outcome.Fresh w s.max_per_urn s.compliance_retention_days row admission body s.db
      → 0 < s.max_per_urn
      → IsWithinQuota t s.max_per_urn s.db
      → t ≤ later
      → unix (w.clock 0) ≤ later
      → IsWithinQuota later s.max_per_urn
          (Outcome.stored w s.max_per_urn s.compliance_retention_days row admission body s.db).1
  unfolding row_of
  fresh-IsWithinQuota f bounded within tl nl = elim f.quota [
    | inl zero ↦ absurd (omega arith)
    | inr checked ↦
        let new =
          archived s.compliance_retention_days admission body
            (queued w s.max_per_urn s.compliance_retention_days row admission body s.db) in
        rw f.result (
          IsWithinQuota-write t later (unix (w.clock 0)) (unix (w.clock 0)) s.max_per_urn
            d.recipient s.db new within tl nl nl (rw pending-archived checked)
            (λ other h u.
              pending-archived u u other s.compliance_retention_days admission body _
              ∙ pending-insert_v2 u u other row s.db h))
  ]

  -- If the bound is positive and no mailbox exceeds it from time `t` on, then none does after the
  -- call, from any time on that is before neither `t` nor the time of the call.
  pub store_v2-IsWithinQuota :
      0 < s.max_per_urn
      → IsWithinQuota t s.max_per_urn s.db
      → t ≤ later
      → unix (w.clock 0) ≤ later
      → IsWithinQuota later s.max_per_urn (stored json envelope_hash w before d a s).1.db
  store_v2-IsWithinQuota bounded within tl nl =
      elim (store_v2_cases json envelope_hash w before d a s) [
        | inl (e, r, same) ↦ rw same (λ u other lu. within u other (omega arith))
        | inr (r, same) ↦
            rw same
              (elim (store_tx_outcome w s.max_per_urn s.compliance_retention_days row admission body
                s.db) [
                  | Outcome.refused e failed kept ↦
                      rw kept (λ u other lu. within u other (omega arith))
                  | Outcome.replayed_message old e found er ee ↦
                      rw e (λ u other lu. within u other (omega arith))
                  | Outcome.replayed_admission old e found er ee ↦
                      rw e (λ u other lu. within u other (omega arith))
                  | Outcome.fresh f ↦ fresh-IsWithinQuota f bounded within tl nl
                ])
      ]
