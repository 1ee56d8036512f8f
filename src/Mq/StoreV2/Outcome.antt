-- ===== src/Mq/StoreV2/Outcome.antt =====
-- The outcomes of the transaction of `storeV2`.
use agent_comm_platform.Base.{
  ℕ, ◌≤◌, ◌≡◌, refl, ap, ◌∙◌, ◌⊎◌, inl, inr, Option-cases, false, Option, none, some, [], ◌∷◌, ◌++◌,
  arith, leb, eqb, if◌then◌else◌,
}
use agent_comm_platform.Base.Bytes.{Bytes, eq_iff}
use agent_comm_platform.Base.Table.{select_row, count}
use agent_comm_platform.Base.Action.{
  Result, ok, err, transaction, transaction_ok, transaction_err, Result-cases, result_pair,
}
use agent_comm_platform.Mq.Tables.{
  V2Row, AdmissionRow, PolicyRow, ComplianceMessage, Db, World, Error, unix, pending, has_id,
  has_id_v2, has_id_admission, has_id_compliance,
}
use agent_comm_platform.Mq.StoreV2.Transaction.{
  receipt_of_message, receipt_of_admission, current_policy, retain, archive, publish,
  insert_or_replay, admit_or_replay, store_tx,
}

-- The archive's writes: the admission with the body or without it, or nothing.
abbrev pub archived : ℕ → AdmissionRow → Option ComplianceMessage → Db → Db
archived days admission none db = db
archived days admission (some body) db =
    if eqb days 0 then record db { admissions = db.admissions ++ admission ∷ [] } else record db {
      admissions = db.admissions ++ admission ∷ [];
      compliance = db.compliance ++ body ∷ [];
    }

-- The archive leaves the two message tables alone.
pub archived_messages :
    (days : ℕ) (admission : AdmissionRow) (body : Option ComplianceMessage) (db : Db)
    → ((archived days admission body db).messages ≡ db.messages)
      × ((archived days admission body db).v2_messages ≡ db.v2_messages)
archived_messages days admission none db = (refl, refl)
archived_messages days admission (some body) db = (ground arith, ground arith)

module _ (w : World) (max days : ℕ) (row : V2Row) (admission : AdmissionRow)
    (body : Option ComplianceMessage) (db : Db) where
  archive_ok :
      (b : Option ComplianceMessage) (d : Db)
      → (archive w days admission b d).0 ≡ ok tt
      → (archive w days admission b d).1 ≡ archived days admission b d
  unfolding archive retain
  archive_ok b d h = ground arith

  abbrev pub queued : Db
  queued = record db { v2_messages = db.v2_messages ++ row ∷ [] }

  publish_ok :
      (r : Bytes)
      → (publish w max days row admission body db).0 ≡ ok r
      → (r ≡ row.receipt)
        × ((publish w max days row admission body db).1 ≡ archived days admission body queued)
        × ((max ≡ 0) ⊎ (pending row.stored_at row.stored_at row.recipient queued ≤ max))
  unfolding publish
  publish_ok r h = ground (arith, archive_ok body queued)

  current_policy_db : (hash : Bytes) → (current_policy w hash db).1 ≡ db
  unfolding current_policy
  current_policy_db hash = ground arith

  current_policy_ok :
      (current_policy w row.policy_hash db).0 ≡ ok tt
      → (p : PolicyRow) × (db.policy_state ≡ some p)
        × (p.policy_hash ≡ row.policy_hash)
        × (leb p.expires_at (unix (w.clock 2)) ≡ false)
  unfolding current_policy
  current_policy_ok h = elim (Option-cases db.policy_state) [
    | inl none_pinned ↦ cc (rw (none_pinned, current_policy) at h)
    | inr (p, pinned) ↦
        (p, pinned, ground (arith, eq_iff p.policy_hash row.policy_hash), ground arith)
  ]

  store_tx_ok :
      (r : Bytes)
      → (store_tx w max days row admission body db).0 ≡ ok r
      → ((current_policy w row.policy_hash db).0 ≡ ok tt)
        × (count (has_id row.id) db.messages ≡ 0)
        × (store_tx w max days row admission body db
            ≡ admit_or_replay w max days row admission body db)
  unfolding store_tx
  store_tx_ok r h = ground (arith, current_policy_db row.policy_hash)

  admission_missing :
      (r : Bytes)
      → select_row (has_id_admission row.id) db.admissions ≡ none
      → (admit_or_replay w max days row admission body db).0 ≡ ok r
      → (count (has_id_compliance row.id) db.compliance ≡ 0)
        × (admit_or_replay w max days row admission body db
            ≡ insert_or_replay w max days row admission body db)
  unfolding admit_or_replay
  admission_missing r h = rw (h, admit_or_replay) (λ g. ground arith)

  admission_found :
      (old : AdmissionRow)
      → select_row (has_id_admission row.id) db.admissions ≡ some old
      → admit_or_replay w max days row admission body db
        ≡ (receipt_of_admission row.recipient admission.envelope_hash old, db)
  unfolding admit_or_replay
  admission_found old h = rw (h, admit_or_replay)

  insert_missing :
      select_row (has_id_v2 row.id) db.v2_messages ≡ none
      → insert_or_replay w max days row admission body db ≡ publish w max days row admission body db
  unfolding insert_or_replay
  insert_missing h = rw (h, insert_or_replay)

  insert_found :
      (old : V2Row) (r : Bytes)
      → select_row (has_id_v2 row.id) db.v2_messages ≡ some old
      → (insert_or_replay w max days row admission body db).0 ≡ ok r
      → insert_or_replay w max days row admission body db
        ≡ (receipt_of_message row.recipient row.envelope old, db)
  unfolding insert_or_replay
  insert_found old r h = rw (h, insert_or_replay) (λ g. ground arith)

  pub receipt_of_message_ok :
      (old : V2Row) (r : Bytes)
      → receipt_of_message row.recipient row.envelope old ≡ ok r
      → (old.recipient ≡ row.recipient) × (old.envelope ≡ row.envelope) × (r ≡ old.receipt)
  unfolding receipt_of_message
  receipt_of_message_ok old r h =
      ground (arith, eq_iff old.recipient row.recipient, eq_iff old.envelope row.envelope)

  pub receipt_of_admission_ok :
      (old : AdmissionRow) (r : Bytes)
      → receipt_of_admission row.recipient admission.envelope_hash old ≡ ok r
      → (old.recipient ≡ row.recipient)
        × (old.envelope_hash ≡ admission.envelope_hash)
        × (r ≡ old.receipt)
  unfolding receipt_of_admission
  receipt_of_admission_ok old r h =
      ground (
        arith,
        eq_iff old.recipient row.recipient,
        eq_iff old.envelope_hash admission.envelope_hash,
      )

  abbrev pub stored : Result Error Bytes × Db
  stored = transaction (store_tx w max days row admission body) db

  -- What a fresh admission passed, and the four writes that it makes as one.
  pub record Fresh : Type 0 where
    pub result : stored ≡ (ok row.receipt, archived days admission body queued)
    pub policy : PolicyRow
    pub pinned : db.policy_state ≡ some policy
    pub hash : policy.policy_hash ≡ row.policy_hash
    pub current : leb policy.expires_at (unix (w.clock 2)) ≡ false
    pub v1_free : count (has_id row.id) db.messages ≡ 0
    pub admission_free : select_row (has_id_admission row.id) db.admissions ≡ none
    pub archive_free : count (has_id_compliance row.id) db.compliance ≡ 0
    pub v2_free : select_row (has_id_v2 row.id) db.v2_messages ≡ none
    pub quota : (max ≡ 0) ⊎ (pending row.stored_at row.stored_at row.recipient queued ≤ max)

  pub data Outcome : Type 0 where
    refused : (e : Error) → stored.0 ≡ err e → stored.1 ≡ db → Outcome
    replayed_message :
        (old : V2Row)
        → stored ≡ (ok old.receipt, db)
        → select_row (has_id_v2 row.id) db.v2_messages ≡ some old
        → old.recipient ≡ row.recipient
        → old.envelope ≡ row.envelope
        → Outcome
    replayed_admission :
        (old : AdmissionRow)
        → stored ≡ (ok old.receipt, db)
        → select_row (has_id_admission row.id) db.admissions ≡ some old
        → old.recipient ≡ row.recipient
        → old.envelope_hash ≡ admission.envelope_hash
        → Outcome
    fresh : Fresh → Outcome

  ok_without_admission :
      (r : Bytes)
      → stored ≡ store_tx w max days row admission body db
      → (store_tx w max days row admission body db).0 ≡ ok r
      → select_row (has_id_admission row.id) db.admissions ≡ none
      → Outcome
  ok_without_admission r same h missing =
      let facts = store_tx_ok r h in
      let rest = admission_missing r missing (rw facts.2 at h) in
      let at_insert = facts.2 ∙ rest.1 in
      elim (Option-cases (select_row (has_id_v2 row.id) db.v2_messages)) [
        | inl free ↦
            let e = at_insert ∙ insert_missing free in
            let p = publish_ok r (rw e at h) in
            let policy = current_policy_ok facts.0 in
            fresh (record {
              result = same ∙ e ∙ result_pair _ ((rw e at h) ∙ ap ok p.0) p.1;
              policy = policy.0;
              pinned = policy.1;
              hash = policy.2;
              current = policy.3;
              v1_free = facts.1;
              admission_free = missing;
              archive_free = rest.0;
              v2_free = free;
              quota = p.2;
            })
        | inr (old, found) ↦
            let e = at_insert ∙ insert_found old r found (rw at_insert at h) in
            let p = receipt_of_message_ok old r (rw e at h) in
            replayed_message old (same ∙ e ∙ result_pair _ ((rw e at h) ∙ ap ok p.2) refl) found p.0
              p.1
      ]

  ok_outcome : (r : Bytes) → stored.0 ≡ ok r → Outcome
  ok_outcome r h =
      let same = transaction_ok (store_tx w max days row admission body) db r h in
      elim (Option-cases (select_row (has_id_admission row.id) db.admissions)) [
        | inl missing ↦ ok_without_admission r same (rw same at h) missing
        | inr (old, found) ↦
            let e = same ∙ (store_tx_ok r (rw same at h)).2 ∙ admission_found old found in
            let p = receipt_of_admission_ok old r (rw e at h) in
            replayed_admission old (e ∙ result_pair _ ((rw e at h) ∙ ap ok p.2) refl) found p.0 p.1
      ]

  -- Every run of the transaction ends in one of these ways.
  pub store_tx_outcome : Outcome
  store_tx_outcome = elim (Result-cases stored.0) [
    | inl (e, h) ↦ refused e h (transaction_err (store_tx w max days row admission body) db e h)
    | inr (r, h) ↦ ok_outcome r h
  ]
