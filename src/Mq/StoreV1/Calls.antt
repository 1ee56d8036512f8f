-- ===== src/Mq/StoreV1/Calls.antt =====
-- What a call of `StoreEnvelope` does, over the outcomes of its transaction.
use agent_comm_platform.Base.{◌≤◌, ◌≡◌, ◌⊎◌, Bool, true, false, none, some, [], ◌∷◌, ◌++◌}
use agent_comm_platform.Base.Bytes.{Bytes}
use agent_comm_platform.Base.Table.{select_row}
use agent_comm_platform.Base.Action.{Result, ok, err}
use agent_comm_platform.Mq.Sdk.{Sdk}
use agent_comm_platform.Mq.Tables.{V1Row, Db, Store, World, Error, has_id, pending, unix}
use agent_comm_platform.Mq.StoreV1.Transaction.{collisions, admits}
use agent_comm_platform.Mq.StoreV1.{announce, store_row, notify_subscribers}
use agent_comm_platform.Mq.StoreV1.Outcome
use agent_comm_platform.Mq.StoreV1.Outcome.{store_tx_outcome}

module _ {Env : Type 0} (sdk : Sdk Env) (authorize : Bytes → Bool) (w : World) where
  open sdk use {message_id, sender_urn, sender_ed25519_pubkey}

  module _ (env : Env) (row : V1Row) (s : Store Env) where
    announce_refused :
        (r : Result Error Bool) (db : Db) (e : Error)
        → r ≡ err e
        → db ≡ s.db
        → announce sdk authorize w env row s (r, db) ≡ (err e, s)
    unfolding announce
    announce_refused r db e h k = rw (h, k)

    announce_replayed :
        (r : Result Error Bool) (db : Db)
        → r ≡ ok false
        → db ≡ s.db
        → announce sdk authorize w env row s (r, db) ≡ (ok row.id, s)
    unfolding announce
    announce_replayed r db h k = rw (h, k)

    announce_fresh :
        (r : Result Error Bool) (db db' : Db)
        → r ≡ ok true
        → db ≡ db'
        → announce sdk authorize w env row s (r, db) ≡ (
          ok row.id,
          notify_subscribers sdk authorize w row.recipient env row.stored_at_ns
              (record s { db = db' }),
        )
    unfolding announce
    announce_fresh r db db' h k = rw (h, k)

    abbrev pub inserted : Store Env
    inserted = record s { db = record s.db { messages = s.db.messages ++ row ∷ [] } }

    -- The three ways in which a call ends that has passed the checks before its transaction.
    pub data Stored : Type 0 where
      refused : (e : Error) → store_row sdk authorize w env row s ≡ (err e, s) → Stored
      replayed :
          (old : V1Row)
          → store_row sdk authorize w env row s ≡ (ok row.id, s)
          → select_row (has_id row.id) s.db.messages ≡ some old
          → old.recipient ≡ row.recipient
          → old.payload ≡ row.payload
          → Stored
      fresh :
          store_row sdk authorize w env row s ≡ (
            ok row.id,
            notify_subscribers sdk authorize w row.recipient env row.stored_at_ns inserted,
          )
          → select_row (has_id row.id) s.db.messages ≡ none
          → collisions row.id s.db ≡ 0
          → (admits w s.db.policy_state
              (sender_urn env)
              (sender_ed25519_pubkey env)
              row.recipient
              s.db).0
            ≡ ok tt
          → (s.max_per_urn ≡ 0)
            ⊎ (pending (unix (w.clock 11)) (unix (w.clock 12)) row.recipient inserted.db
                ≤ s.max_per_urn)
          → Stored

    pub store_row_cases : Stored
    unfolding store_row
    store_row_cases =
        elim (store_tx_outcome w s.max_per_urn (sender_urn env) (sender_ed25519_pubkey env) row
          s.db) [
            | Outcome.refused e failed same ↦ refused e (announce_refused _ _ e failed same)
            | Outcome.replayed old done same found er ep ↦
                replayed old (announce_replayed _ _ done same) found er ep
            | Outcome.fresh done new missing free allowed quota ↦
                fresh (announce_fresh _ _ _ done new) missing free allowed quota
          ]
