-- ===== src/Mq/StoreV1/Outcome.antt =====
-- The outcomes of the transaction of `StoreEnvelope`.
use agent_comm_platform.Base.{
  ℕ, ◌≤◌, ◌≡◌, ◌∙◌, ◌⊎◌, inl, inr, Option-cases, Bool, true, false, Option, none, some, [], ◌∷◌,
  ◌++◌, arith,
}
use agent_comm_platform.Base.Bytes.{Bytes, eq_iff}
use agent_comm_platform.Base.Table.{select_row}
use agent_comm_platform.Base.Action.{
  Result, ok, err, transaction, transaction_ok, transaction_err, Result-cases,
}
use agent_comm_platform.Mq.Tables.{V1Row, PolicyRow, Db, World, Error, unix, pending, has_id}
use agent_comm_platform.Mq.StoreV1.Transaction.{
  admits, collisions, replay, publish, insert_or_replay, store_tx,
}

module _ (w : World) (max : ℕ) (sender : Bytes) (key : Option Bytes) (row : V1Row) (db : Db) where
  abbrev stored : Result Error Bool × Db
  stored = transaction (store_tx w max sender key row) db

  abbrev inserted : Db
  inserted = record db { messages = db.messages ++ row ∷ [] }

  admits_db : (p : Option PolicyRow) → (admits w p sender key row.recipient db).1 ≡ db
  unfolding admits
  admits_db p = ground arith

  publish_ok :
      (b : Bool)
      → (publish w max row db).0 ≡ ok b
      → (b ≡ true)
        × ((publish w max row db).1 ≡ inserted)
        × ((max ≡ 0)
            ⊎ (pending (unix (w.clock 11)) (unix (w.clock 12)) row.recipient inserted ≤ max))
  unfolding publish
  publish_ok b h = ground arith

  replay_ok :
      (old : V1Row) (b : Bool)
      → (replay w row.recipient row.payload old db).0 ≡ ok b
      → (b ≡ false)
        × ((replay w row.recipient row.payload old db).1 ≡ db)
        × (old.recipient ≡ row.recipient)
        × (old.payload ≡ row.payload)
  unfolding replay
  replay_ok old b h =
      ground (arith, eq_iff old.recipient row.recipient, eq_iff old.payload row.payload)

  -- The steps before the insert only read.
  store_tx_ok :
      (b : Bool)
      → (store_tx w max sender key row db).0 ≡ ok b
      → ((admits w db.policy_state sender key row.recipient db).0 ≡ ok tt)
        × (collisions row.id db ≡ 0)
        × (store_tx w max sender key row db ≡ insert_or_replay w max row db)
  unfolding store_tx
  store_tx_ok b h = ground (arith, admits_db db.policy_state)

  -- A refusal changes nothing; a replay found the very same message; a fresh row passed every check.
  pub data Outcome : Type 0 where
    refused : (e : Error) → stored.0 ≡ err e → stored.1 ≡ db → Outcome
    replayed :
        (old : V1Row)
        → stored.0 ≡ ok false
        → stored.1 ≡ db
        → select_row (has_id row.id) db.messages ≡ some old
        → old.recipient ≡ row.recipient
        → old.payload ≡ row.payload
        → Outcome
    fresh :
        stored.0 ≡ ok true
        → stored.1 ≡ inserted
        → select_row (has_id row.id) db.messages ≡ none
        → collisions row.id db ≡ 0
        → (admits w db.policy_state sender key row.recipient db).0 ≡ ok tt
        → (max ≡ 0) ⊎ (pending (unix (w.clock 11)) (unix (w.clock 12)) row.recipient inserted ≤ max)
        → Outcome

  insert_missing :
      select_row (has_id row.id) db.messages ≡ none
      → insert_or_replay w max row db ≡ publish w max row db
  unfolding insert_or_replay
  insert_missing h = rw (h, insert_or_replay)

  insert_found :
      (old : V1Row)
      → select_row (has_id row.id) db.messages ≡ some old
      → insert_or_replay w max row db ≡ replay w row.recipient row.payload old db
  unfolding insert_or_replay
  insert_found old h = rw (h, insert_or_replay)

  ok_outcome : (b : Bool) → stored.0 ≡ ok b → Outcome
  ok_outcome b h =
      let same = transaction_ok (store_tx w max sender key row) db b h in
      let facts = store_tx_ok b (rw same at h) in
      elim (Option-cases (select_row (has_id row.id) db.messages)) [
        | inl missing ↦
            let e : stored ≡ publish w max row db = same ∙ facts.2 ∙ insert_missing missing in
            let p = publish_ok b (rw e at h) in
            fresh (rw p.0 at h) (rw e p.1) missing facts.1 facts.0 p.2
        | inr (old, found) ↦
            let e : stored ≡ replay w row.recipient row.payload old db =
              same ∙ facts.2 ∙ insert_found old found in
            let p = replay_ok old b (rw e at h) in
            replayed old (rw p.0 at h) (rw e p.1) found p.2 p.3
      ]

  -- Every run of the transaction ends in one of the three ways.
  pub store_tx_outcome : Outcome
  store_tx_outcome = elim (Result-cases stored.0) [
    | inl (e, h) ↦ refused e h (transaction_err (store_tx w max sender key row) db e h)
    | inr (b, h) ↦ ok_outcome b h
  ]
