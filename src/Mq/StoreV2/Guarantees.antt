-- ===== src/Mq/StoreV2/Guarantees.antt =====
-- What callers of `storeV2` may rely on.
use agent_comm_platform.Base.{◌≡◌, refl, ◌∙◌, ap, ◌⊎◌, inl, inr, Option-cases, Option, none, some}
use agent_comm_platform.Base.Bytes.{Bytes, eq_refl}
use agent_comm_platform.Base.Table.{select_row, select_row-append}
use agent_comm_platform.Base.Action.{Result, ok, err}
use agent_comm_platform.Mq.Tables.{
  V2Row, AdmissionRow, ComplianceMessage, Db, Store, World, Error, has_id_v2, has_id_admission,
  unix,
}
use agent_comm_platform.Mq.StoreV2.{
  Delivery, Archive, admit, mark, row_of, admission_of, body_of, store_v2,
}
use agent_comm_platform.Mq.StoreV2.Outcome
use agent_comm_platform.Mq.StoreV2.Outcome.{
  Fresh, archived, archived_messages, queued, store_tx_outcome,
}

module _ {Env : Type 0} (json : Bytes) (envelope_hash : Bytes → Bytes) (w : World)
    (before : Store Env) (d : Delivery) (a : Option Archive) (s : Store Env) where
  abbrev pub stored : Result Error Bytes × Store Env
  stored = store_v2 json envelope_hash w before d a s

  abbrev pub row : V2Row
  row = row_of d (unix (w.clock 0))

  abbrev pub admission : AdmissionRow
  admission = admission_of envelope_hash d

  abbrev pub body : Option ComplianceMessage
  body = body_of d (unix (w.clock 0)) a

  abbrev pub tx : Result Error Bytes × Db
  tx = Outcome.stored w s.max_per_urn s.compliance_retention_days row admission body s.db

  mark_db : (b : Option Archive) → (mark b s).db ≡ s.db
  unfolding store_v2
  mark_db none = refl
  mark_db (some x) = refl

  -- A call is refused before its transaction, or it is its transaction.
  pub store_v2_cases :
      ((e : Error) × (stored.0 ≡ err e) × (stored.1.db ≡ s.db))
      ⊎ ((stored.0 ≡ tx.0) × (stored.1.db ≡ tx.1))
  unfolding store_v2
  store_v2_cases = elim (Option-cases (admit json w before s.default_ttl_ns d a)) [
    | inl passed ↦ inr (rw (passed, store_v2) refl, rw (passed, store_v2) refl)
    | inr (e, refused) ↦ inl (e, rw (refused, store_v2) refl, rw (refused, store_v2) (mark_db a))
  ]

  abbrev pub written : Db
  written =
      archived s.compliance_retention_days admission body
        (queued w s.max_per_urn s.compliance_retention_days row admission body s.db)

  -- A call admits the envelope with all its writes, the message with its receipt, and in compliance
  -- mode the retry hash and the plaintext that the retention period keeps, and returns that
  -- receipt; or it writes nothing.
  pub store_v2_atomic : (stored.1.db ≡ s.db) ⊎ ((stored.0 ≡ ok d.receipt) × (stored.1.db ≡ written))
  store_v2_atomic = elim store_v2_cases [
    | inl (e, r, same) ↦ inl same
    | inr (r, same) ↦
        elim (store_tx_outcome w s.max_per_urn s.compliance_retention_days row admission body
          s.db) [
            | Outcome.refused e failed kept ↦ inl (same ∙ kept)
            | Outcome.replayed_message old e found er ee ↦ inl (same ∙ ap (λ x. x.1) e)
            | Outcome.replayed_admission old e found er ee ↦ inl (same ∙ ap (λ x. x.1) e)
            | Outcome.fresh f ↦
                inr (unfold row_of in r ∙ ap (λ x. x.0) f.result, same ∙ ap (λ x. x.1) f.result)
          ]
  ]

  -- A call that fails writes nothing.
  pub store_v2_err : (e : Error) → stored.0 ≡ err e → stored.1.db ≡ s.db
  store_v2_err e h = elim store_v2_atomic [ inl same ↦ same | inr (done, changed) ↦ cc (h, done) ]

  -- The receipt `r` is on record for this message: with the message, or with its admission.
  pub data IsReceipted (r : Bytes) (db : Db) : Type 0 where
    by_message :
        (row' : V2Row)
        → select_row (has_id_v2 d.id) db.v2_messages ≡ some row'
        → row'.recipient ≡ d.recipient
        → row'.envelope ≡ d.envelope
        → row'.receipt ≡ r
        → IsReceipted r db
    by_admission :
        (adm : AdmissionRow)
        → select_row (has_id_admission d.id) db.admissions ≡ some adm
        → adm.recipient ≡ d.recipient
        → adm.envelope_hash ≡ envelope_hash d.envelope
        → adm.receipt ≡ r
        → IsReceipted r db

  found_written :
      select_row (has_id_v2 d.id) s.db.v2_messages ≡ none
      → select_row (has_id_v2 d.id) written.v2_messages ≡ some row
  unfolding row_of
  found_written missing =
      rw (archived_messages s.compliance_retention_days admission body _).1
        (select_row-append (has_id_v2 d.id) s.db.v2_messages row missing (eq_refl d.id))

  -- A receipt that a call returns is on record for the very recipient and bytes of that call.
  pub store_v2_ok : (r : Bytes) → stored.0 ≡ ok r → IsReceipted r stored.1.db
  unfolding row_of admission_of
  store_v2_ok r h = elim store_v2_cases [
    | inl (e, failed, same) ↦ cc (h, failed)
    | inr (result, same) ↦
        elim (store_tx_outcome w s.max_per_urn s.compliance_retention_days row admission body
          s.db) [
            | Outcome.refused e failed kept ↦ cc (h, result, failed)
            | Outcome.replayed_message old e found er ee ↦
                by_message old (rw (same, e) found) er ee (cc (h, result, ap (λ x. x.0) e))
            | Outcome.replayed_admission old e found er ee ↦
                by_admission old (rw (same, e) found) er ee (cc (h, result, ap (λ x. x.0) e))
            | Outcome.fresh f ↦
                by_message row (rw (same, f.result) (found_written f.v2_free)) refl refl
                  (cc (h, result, ap (λ x. x.0) f.result))
          ]
  ]

  -- An ID that is on record for this recipient and these bytes is never admitted again: a call with
  -- it writes nothing.
  pub store_v2_again : (r : Bytes) → IsReceipted r s.db → stored.1.db ≡ s.db
  unfolding row_of
  store_v2_again r on_record = elim store_v2_cases [
    | inl (e, failed, same) ↦ same
    | inr (result, same) ↦
        elim (store_tx_outcome w s.max_per_urn s.compliance_retention_days row admission body
          s.db) [
            | Outcome.refused e failed kept ↦ same ∙ kept
            | Outcome.replayed_message old e found er ee ↦ same ∙ ap (λ x. x.1) e
            | Outcome.replayed_admission old e found er ee ↦ same ∙ ap (λ x. x.1) e
            | Outcome.fresh f ↦ elim on_record [
              | by_message row' found er ee rr ↦ cc (found, f.v2_free)
              | by_admission adm found er ee rr ↦ cc (found, f.admission_free)
            ]
          ]
  ]
