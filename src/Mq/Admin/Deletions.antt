-- ===== src/Mq/Admin/Deletions.antt =====
-- `DeleteMessage` and `PurgeQueue` of internal/mq/store.go.
use agent_comm_platform.Base.{ℕ, suc, ◌+◌, Bool, ◌&&◌, List, [], ◌∷◌, if◌then◌else◌}
use agent_comm_platform.Base.Bytes.{Bytes, ◌==◌}
use agent_comm_platform.Base.Table.{count, delete}
use agent_comm_platform.Base.Action.{ok, err, Action, transaction, pure, ◌>>=◌, ◌>>◌}
use agent_comm_platform.Mq.Tables.{Db, World, Error, database, query}

-- The tables over which the deletions loop.
pub data Mailbox : Type 0 where
  v1_mailbox v2_mailbox frame_mailbox : Mailbox

-- DELETE FROM table WHERE …, a condition on recipient and ID: RowsAffected, and the database after it.
unfoldable pub delete_rows : (Bytes → Bytes → Bool) → Mailbox → Db → ℕ × Db
delete_rows p v1_mailbox db = (
  count (λ r. p r.recipient r.id) db.messages,
  record db { messages = delete (λ r. p r.recipient r.id) db.messages },
)
delete_rows p v2_mailbox db = (
  count (λ r. p r.recipient r.id) db.v2_messages,
  record db { v2_messages = delete (λ r. p r.recipient r.id) db.v2_messages },
)
delete_rows p frame_mailbox db = (
  count (λ r. p r.recipient r.id) db.frames,
  record db { frames = delete (λ r. p r.recipient r.id) db.frames },
)

-- The loop: `i` numbers its statements, `deleted` is the number of rows so far.
unfoldable pub delete_loop :
    World → (Bytes → Bytes → Bool) → ℕ → List Mailbox → ℕ → Action Db Error ℕ
delete_loop w p i [] deleted db = (ok deleted, db)
delete_loop w p i (t ∷ ts) deleted db =
    let rest =
      delete_loop w p (suc i) ts (deleted + (delete_rows p t db).0) (delete_rows p t db).1 in
    if w.fault i then (err database, db) else rest

-- Begin, the loop, and the commit.
unfoldable pub delete_all : World → (Bytes → Bytes → Bool) → List Mailbox → Action Db Error ℕ
delete_all w p ts db =
    if w.fault 0
    then (err database, db)
    else transaction (do n ← delete_loop w p 2 ts 0; query w 1; pure n) db

unfoldable pub delete_message : World → Bytes → Bytes → Action Db Error ℕ
delete_message w recipient id =
    delete_all w (λ r i. r == recipient && i == id) (v1_mailbox ∷ v2_mailbox ∷ [])

unfoldable pub purge_queue : World → Bytes → Action Db Error ℕ
purge_queue w recipient =
    delete_all w (λ r i. r == recipient) (v1_mailbox ∷ v2_mailbox ∷ frame_mailbox ∷ [])
