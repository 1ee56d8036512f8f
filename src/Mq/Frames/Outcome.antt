-- ===== src/Mq/Frames/Outcome.antt =====
-- The outcomes of the transaction of `StoreV2Frame`.
use agent_comm_platform.Base.{
  ◌≤◌, ◌≡◌, ap, ◌∙◌, ◌⊎◌, inl, inr, Option-cases, none, some, [], ◌∷◌, ◌++◌, arith,
}
use agent_comm_platform.Base.Bytes.{Bytes, eq_iff}
use agent_comm_platform.Base.Table.{select_row, count}
use agent_comm_platform.Base.Action.{Result, ok, transaction}
use agent_comm_platform.Mq.Tables.{FrameRow, Db, World, Error, unix}
use agent_comm_platform.Mq.Frames.{
  has_id_frame, is_pending_frame, current_policy, max_pending_frames, publish, insert_or_replay,
  frame_tx,
}

module _ (w : World) (hash : Bytes) (row : FrameRow) (db : Db) where
  abbrev pub tx : Result Error Unit × Db
  tx = transaction (frame_tx w hash row) db

  abbrev pub inserted : Db
  inserted = record db { frames = db.frames ++ row ∷ [] }

  -- The steps before the insert only read.
  tx_insert :
      tx.0 ≡ ok tt
      → ((insert_or_replay w row db).0 ≡ ok tt) × (tx.1 ≡ (insert_or_replay w row db).1)
  unfolding frame_tx current_policy
  tx_insert h = (ground arith, ground arith)

  publish_ok :
      (publish w row db).0 ≡ ok tt
      → ((publish w row db).1 ≡ inserted)
        × (count (is_pending_frame (unix (w.clock 5)) row.recipient) inserted.frames
            ≤ max_pending_frames)
  unfolding publish
  publish_ok h = (ground arith, ground arith)

  pub data Inserted : Type 0 where
    replayed :
        (old : FrameRow)
        → select_row (has_id_frame row.id) db.frames ≡ some old
        → old.recipient ≡ row.recipient
        → old.frame ≡ row.frame
        → tx.1 ≡ db
        → Inserted
    fresh :
        select_row (has_id_frame row.id) db.frames ≡ none
        → tx.1 ≡ inserted
        → count (is_pending_frame (unix (w.clock 5)) row.recipient) inserted.frames
          ≤ max_pending_frames
        → Inserted

  replay_ok :
      (old : FrameRow)
      → select_row (has_id_frame row.id) db.frames ≡ some old
      → (insert_or_replay w row db).0 ≡ ok tt
      → (old.recipient ≡ row.recipient)
        × (old.frame ≡ row.frame)
        × ((insert_or_replay w row db).1 ≡ db)
  unfolding insert_or_replay
  replay_ok old found h = (
    ground (arith, eq_iff old.recipient row.recipient),
    ground (arith, eq_iff old.frame row.frame),
    ground arith,
  )

  fresh_ok :
      select_row (has_id_frame row.id) db.frames ≡ none
      → insert_or_replay w row db ≡ publish w row db
  unfolding insert_or_replay
  fresh_ok missing = rw (missing, insert_or_replay)

  pub tx_err : (tx.1 ≡ db) ⊎ (tx.0 ≡ ok tt)
  unfolding frame_tx current_policy insert_or_replay publish
  tx_err = ground arith

  pub tx_ok : tx.0 ≡ ok tt → Inserted
  tx_ok h =
      let (done, same) = tx_insert h in
      elim (Option-cases (select_row (has_id_frame row.id) db.frames)) [
        | inl missing ↦
            let facts = publish_ok (rw (fresh_ok missing) at done) in
            fresh missing (same ∙ ap (λ x. x.1) (fresh_ok missing) ∙ facts.0) facts.1
        | inr (old, found) ↦
            let facts = replay_ok old found done in
            replayed old found facts.0 facts.1 (same ∙ facts.2)
      ]
