-- ===== src/Mq/StoreV1/Guarantees.antt =====
-- What callers of `StoreEnvelope` may rely on.
use agent_comm_platform.Base.{
  ◌≤◌, ◌<◌, ◌≡◌, ◌≢◌, ◌∙◌, ap, ◌⊎◌, inl, inr, Bool, true, Option, none, some, arith,
}
use agent_comm_platform.Base.Int.{ℤ}
use agent_comm_platform.Base.Bytes.{Bytes, eq_refl}
use agent_comm_platform.Base.Table.{select_row, count, select_row-append, select_row-ne-none}
use agent_comm_platform.Base.Action.{Result, ok, err, Result-cases}
use agent_comm_platform.Mq.Sdk.{Sdk}
use agent_comm_platform.Mq.Tables.{
  V1Row, PolicyRow, ManagedRow, Store, World, Error, has_id, pending, unix,
}
use agent_comm_platform.Mq.StoreV1.Transaction.{collisions, admits, is_party}
use agent_comm_platform.Mq.StoreV1.{admit, store_row, store_envelope, notify_subscribers}
use agent_comm_platform.Mq.StoreV1.Calls
use agent_comm_platform.Mq.StoreV1.Calls.{inserted, store_row_cases}

module _ {Env : Type 0} (sdk : Sdk Env) (authorize : Bytes → Bool) (w : World) (before : Store Env)
    (recipient : Bytes) (env : Env) (expiry : ℤ) (s : Store Env) where
  open sdk use {message_id, sender_urn, sender_ed25519_pubkey, marshal}

  abbrev pub stored : Result Error Bytes × Store Env
  stored = store_envelope sdk authorize w before recipient (some env) expiry s

  admit_row :
      (row : V1Row)
      → admit sdk authorize w before (some env) recipient expiry ≡ ok row
      → (row.id ≡ message_id env) × (row.recipient ≡ recipient) × (marshal env ≡ some row.payload)
  unfolding admit
  admit_row row h = ground arith

  stored_admitted :
      (row : V1Row)
      → admit sdk authorize w before (some env) recipient expiry ≡ ok row
      → stored ≡ store_row sdk authorize w env row s
  unfolding store_envelope
  stored_admitted row h = rw (h, store_envelope)

  stored_refused :
      (e : Error)
      → admit sdk authorize w before (some env) recipient expiry ≡ err e
      → stored ≡ (err e, s)
  unfolding store_envelope
  stored_refused e h = rw (h, store_envelope)

  notify_db :
      (urn : Bytes) (row : V1Row) (t : Store Env)
      → (notify_subscribers sdk authorize w urn env row.stored_at_ns t).db ≡ t.db
  unfolding notify_subscribers
  notify_db urn row t = ground arith

  -- A row that the call inserted, with what its checks established.
  pub record Fresh : Type 0 where
    pub row : V1Row
    pub row_id : row.id ≡ message_id env
    pub row_recipient : row.recipient ≡ recipient
    pub row_payload : marshal env ≡ some row.payload
    pub result : stored.0 ≡ ok row.id
    pub written : stored.1.db ≡ (inserted sdk authorize w env row s).db
    pub missing : select_row (has_id row.id) s.db.messages ≡ none
    pub free : collisions row.id s.db ≡ 0
    pub allowed :
        (admits w s.db.policy_state
          (sender_urn env)
          (sender_ed25519_pubkey env)
          row.recipient
          s.db).0
        ≡ ok tt
    pub quota :
        (s.max_per_urn ≡ 0)
        ⊎ (pending (unix (w.clock 11)) (unix (w.clock 12)) row.recipient stored.1.db
            ≤ s.max_per_urn)

  pub record Replayed : Type 0 where
    pub old : V1Row
    pub result : stored.0 ≡ ok (message_id env)
    pub same : stored.1 ≡ s
    pub found : select_row (has_id (message_id env)) s.db.messages ≡ some old
    pub old_recipient : old.recipient ≡ recipient
    pub old_payload : marshal env ≡ some old.payload

  pub record Refused : Type 0 where
    pub error : Error
    pub result : stored ≡ (err error, s)

  row_cases :
      (row : V1Row)
      → admit sdk authorize w before (some env) recipient expiry ≡ ok row
      → Refused ⊎ Replayed ⊎ Fresh
  row_cases row h =
      let facts = admit_row row h in
      let same = stored_admitted row h in
      elim (store_row_cases sdk authorize w env row s) [
        | Calls.refused e r ↦ inl (record { error = e; result = same ∙ r })
        | Calls.replayed old r found er ep ↦ inr (
            inl (record {
              old = old;
              result = cc;
              same = cc;
              found = rw facts.0 at found;
              old_recipient = er ∙ facts.1;
              old_payload = cc;
            }))
        | Calls.fresh r missing free allowed quota ↦
            let written = ap (λ x. x.1.db) (same ∙ r) ∙ notify_db row.recipient row _ in
            inr (
              inr (record {
                row = row;
                row_id = facts.0;
                row_recipient = facts.1;
                row_payload = facts.2;
                result = ap (λ x. x.0) (same ∙ r);
                written = written;
                missing = missing;
                free = free;
                allowed = allowed;
                quota = rw written quota;
              }))
      ]

  -- Every call is refused and changes nothing, or finds the same message and changes nothing, or
  -- inserts one row.
  pub store_cases : Refused ⊎ Replayed ⊎ Fresh
  store_cases = elim (Result-cases (admit sdk authorize w before (some env) recipient expiry)) [
    | inl (e, h) ↦ inl (record { error = e; result = stored_refused e h })
    | inr (row, h) ↦ row_cases row h
  ]

  -- A call that fails, for whatever reason, leaves the store as it was.
  pub store_err : (e : Error) → stored.0 ≡ err e → stored.1 ≡ s
  store_err e h = elim store_cases [
    | inl r ↦ ap (λ x. x.1) r.result
    | inr (inl r) ↦ r.same
    | inr (inr f) ↦ cc (h, f.result)
  ]

  -- After a call that succeeds, the mailbox holds this very message for this recipient under its
  -- ID.
  pub store_ok :
      (id : Bytes)
      → stored.0 ≡ ok id
      → (row : V1Row) × (id ≡ message_id env)
        × (select_row (has_id id) stored.1.db.messages ≡ some row)
        × (row.recipient ≡ recipient)
        × (marshal env ≡ some row.payload)
  store_ok id h = elim store_cases [
    | inl r ↦ cc (h, r.result)
    | inr (inl r) ↦
        let e : id ≡ message_id env = cc (h, r.result) in
        (r.old, e, rw (e, r.same) r.found, r.old_recipient, r.old_payload)
    | inr (inr f) ↦
        let e : id ≡ f.row.id = cc (h, f.result) in
        (
          f.row,
          e ∙ f.row_id,
          rw (e, f.written)
              (select_row-append (has_id f.row.id) s.db.messages f.row f.missing
                (eq_refl f.row.id)),
          f.row_recipient,
          f.row_payload,
        )
  ]

  -- Once a message is stored under the envelope's ID, no call with that ID changes anything: it is
  -- neither stored nor announced to subscribers a second time, whatever its content.
  pub store_again :
      (old : V1Row) → select_row (has_id (message_id env)) s.db.messages ≡ some old → stored.1 ≡ s
  store_again old found = elim store_cases [
    | inl r ↦ ap (λ x. x.1) r.result
    | inr (inl r) ↦ r.same
    | inr (inr f) ↦
        let missing : select_row (has_id (message_id env)) s.db.messages ≡ none =
          rw f.row_id at f.missing in
        cc (missing, found)
  ]

  admits_policy :
      (p : PolicyRow) (q : Option PolicyRow) (urn : Bytes)
      → q ≡ some p
      → urn ≡ recipient
      → (admits w q (sender_urn env) (sender_ed25519_pubkey env) urn s.db).0 ≡ ok tt
      → (unix (w.clock 8) < p.expires_at)
        × (p.require_v2 ≡ true
            → 0
              < count
                  (is_party p.issuer_pubkey
                    (unix (w.clock 9))
                    (w.clock 10)
                    (sender_urn env)
                    (sender_ed25519_pubkey env)
                    recipient)
                  s.db.managed)
  unfolding admits
  admits_policy p q urn e u h = (ground arith, λ r. ground arith)

  -- Whatever state the fast check saw, a message that changes the mailbox was let in by the policy
  -- of the database at the transaction: it had not expired, and if it requires v2, then the sender
  -- with its key, or the recipient, has a current grant of its issuer.
  pub store_policy :
      (p : PolicyRow)
      → s.db.policy_state ≡ some p
      → stored.1 ≢ s
      → (unix (w.clock 8) < p.expires_at)
        × (p.require_v2 ≡ true
            → (r : ManagedRow) × (select_row
                  (is_party p.issuer_pubkey
                    (unix (w.clock 9))
                    (w.clock 10)
                    (sender_urn env)
                    (sender_ed25519_pubkey env)
                    recipient)
                  s.db.managed
                ≡ some r))
  store_policy p found changed = elim store_cases [
    | inl r ↦ absurd (changed (ap (λ x. x.1) r.result))
    | inr (inl r) ↦ absurd (changed r.same)
    | inr (inr f) ↦
        let facts =
          admits_policy p s.db.policy_state f.row.recipient found f.row_recipient f.allowed in
        (facts.0, λ required. select_row-ne-none _ s.db.managed (facts.1 required))
  ]
