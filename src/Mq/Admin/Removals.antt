-- ===== src/Mq/Admin/Removals.antt =====
-- What `DeleteMessage` and `PurgeQueue` remove.
use agent_comm_platform.Base.{
  ℕ, suc, ◌+◌, ◌≡◌, refl, ◌∙◌, inl, inr, Bool, ◌&&◌, List, [], ◌∷◌, ◌++◌, map, arith, Bool-cases,
}
use agent_comm_platform.Base.Bytes.{Bytes, ◌==◌}
use agent_comm_platform.Base.Table.{count, delete}
use agent_comm_platform.Base.Action.{ok, err}
use agent_comm_platform.Mq.Tables.{V1Row, V2Row, FrameRow, Db, World, Error}
use agent_comm_platform.Mq.Admin.{StoredRow, of_v1, of_v2, all_messages, is_message}
use agent_comm_platform.Mq.Admin.Deletions.{
  Mailbox, v1_mailbox, v2_mailbox, frame_mailbox, delete_rows, delete_loop, delete_all,
  delete_message, purge_queue,
}

-- A deletion from both tables is one from the view.
view-delete :
    (p : StoredRow → Bool) (xs : List V1Row) (ys : List V2Row)
    → map of_v1 (delete (λ r. p (of_v1 r)) xs) ++ map of_v2 (delete (λ r. p (of_v2 r)) ys)
      ≡ delete p (map of_v1 xs ++ map of_v2 ys)
unfolding delete
view-delete p [] [] = refl
view-delete p [] (y ∷ ys) = ground (arith, view-delete p [] ys)
view-delete p (x ∷ xs) ys = ground (arith, view-delete p xs ys)

view-count :
    (p : StoredRow → Bool) (xs : List V1Row) (ys : List V2Row)
    → count (λ r. p (of_v1 r)) xs + count (λ r. p (of_v2 r)) ys
      ≡ count p (map of_v1 xs ++ map of_v2 ys)
unfolding count
view-count p [] [] = refl
view-count p [] (y ∷ ys) = ground (arith, view-count p [] ys)
view-count p (x ∷ xs) ys = ground (arith, view-count p xs ys)

-- The loop without its failures.
all_deleted : (Bytes → Bytes → Bool) → List Mailbox → ℕ → Db → ℕ × Db
all_deleted p [] deleted db = (deleted, db)
all_deleted p (t ∷ ts) deleted db =
    all_deleted p ts (deleted + (delete_rows p t db).0) (delete_rows p t db).1

loop_ok :
    (w : World) (p : Bytes → Bytes → Bool) (i : ℕ) (ts : List Mailbox) (deleted n : ℕ) (db : Db)
    → (delete_loop w p i ts deleted db).0 ≡ ok n
    → (n ≡ (all_deleted p ts deleted db).0)
      × ((delete_loop w p i ts deleted db).1 ≡ (all_deleted p ts deleted db).1)
unfolding delete_loop all_deleted
loop_ok w p i [] deleted n db h = (ground arith, refl)
loop_ok w p i (t ∷ ts) deleted n db h = elim (Bool-cases (w.fault i)) [
  | inl fails ↦ ground arith
  | inr works ↦
      let facts =
        loop_ok w p (suc i) ts (deleted + (delete_rows p t db).0) n (delete_rows p t db).1
          (rw works at h) in
      (facts.0, rw works facts.1)
]

module _ (w : World) (p : Bytes → Bytes → Bool) (ts : List Mailbox) (db : Db) where
  -- A deletion that fails changes nothing.
  pub delete_all_err :
      (e : Error) → (delete_all w p ts db).0 ≡ err e → (delete_all w p ts db).1 ≡ db
  unfolding delete_all
  delete_all_err e h = ground arith

  all_ok :
      (n : ℕ)
      → (delete_all w p ts db).0 ≡ ok n
      → ((delete_loop w p 2 ts 0 db).0 ≡ ok n)
        × ((delete_all w p ts db).1 ≡ (delete_loop w p 2 ts 0 db).1)
  unfolding delete_all
  all_ok n h = (ground arith, ground arith)

  delete_all_ok :
      (n : ℕ)
      → (delete_all w p ts db).0 ≡ ok n
      → (n ≡ (all_deleted p ts 0 db).0) × ((delete_all w p ts db).1 ≡ (all_deleted p ts 0 db).1)
  delete_all_ok n h =
      let (done, same) = all_ok n h in
      let facts = loop_ok w p 2 ts 0 n db done in (facts.0, same ∙ facts.1)

abbrev matches : (Bytes → Bytes → Bool) → StoredRow → Bool
matches p r = p r.recipient r.id

-- A successful deletion removes exactly the messages of either version with this recipient and this
-- ID, its result is their number, and it leaves the frames as they were.
pub delete_message_ok :
    (w : World) (recipient id : Bytes) (db : Db) (n : ℕ)
    → (delete_message w recipient id db).0 ≡ ok n
    → (n ≡ count (is_message recipient id) (all_messages db))
      × (all_messages (delete_message w recipient id db).1
          ≡ delete (is_message recipient id) (all_messages db))
      × ((delete_message w recipient id db).1.frames ≡ db.frames)
unfolding delete_message all_messages all_deleted delete_rows
delete_message_ok w recipient id db n h =
    let facts =
      delete_all_ok w (λ r i. r == recipient && i == id) (v1_mailbox ∷ v2_mailbox ∷ []) db n h in
    (
      omega (arith, facts.0, view-count (is_message recipient id) db.messages db.v2_messages),
      rw facts.1 (view-delete (is_message recipient id) db.messages db.v2_messages),
      rw facts.1 refl,
    )

abbrev pub of_recipient : Bytes → StoredRow → Bool
of_recipient recipient r = r.recipient == recipient

-- A successful purge removes exactly the messages of either version and the frames of the
-- recipient, its result is their number, and it leaves the admissions and the archive as they were.
pub purge_queue_ok :
    (w : World) (recipient : Bytes) (db : Db) (n : ℕ)
    → (purge_queue w recipient db).0 ≡ ok n
    → (n
        ≡ count (of_recipient recipient) (all_messages db)
          + count (λ (r : FrameRow). r.recipient == recipient) db.frames)
      × (all_messages (purge_queue w recipient db).1
          ≡ delete (of_recipient recipient) (all_messages db))
      × ((purge_queue w recipient db).1.frames
          ≡ delete (λ (r : FrameRow). r.recipient == recipient) db.frames)
      × ((purge_queue w recipient db).1.admissions ≡ db.admissions)
      × ((purge_queue w recipient db).1.compliance ≡ db.compliance)
unfolding purge_queue all_messages all_deleted delete_rows
purge_queue_ok w recipient db n h =
    let facts =
      delete_all_ok w (λ r i. r == recipient) (v1_mailbox ∷ v2_mailbox ∷ frame_mailbox ∷ []) db n
        h in
    (
      omega (arith, facts.0, view-count (of_recipient recipient) db.messages db.v2_messages),
      rw facts.1 (view-delete (of_recipient recipient) db.messages db.v2_messages),
      rw facts.1 refl,
      rw facts.1 refl,
      rw facts.1 refl,
    )
