-- ===== src/Mq/Tests/Administration.antt =====
-- The theorems on the administration of mailboxes at concrete inputs.
use agent_comm_platform.Base.{◌+◌, ◌*◌, ◌^◌, ◌≡◌, refl, [], ◌∷◌}
use agent_comm_platform.Base.Bytes.{◌==◌}
use agent_comm_platform.Base.Table.{count, delete}
use agent_comm_platform.Base.Action.{ok}
use agent_comm_platform.Mq.Tables.{FrameRow, unix}
use agent_comm_platform.Mq.Admin.{
  all_messages, is_pending, is_history, is_expired, bucket, QueueSummary, summarize_messages,
}
use agent_comm_platform.Mq.Admin.Deletions.{
  delete_loop, delete_rows, delete_all, delete_message, purge_queue,
}
use agent_comm_platform.Mq.Admin.Summary.{IsSummary, summarize_messages-IsSummary}
use agent_comm_platform.Mq.Admin.Removals.{of_recipient, purge_queue_ok}
use agent_comm_platform.Mq.Tests.{bob, world, db}

-- At second 600 both messages have expired.
abbrev summary : QueueSummary
summary = record {
  pending = bucket (is_pending (unix (600 * 10 ^ 9))) (all_messages db);
  history = bucket is_history (all_messages db);
  expired = bucket (is_expired (unix (600 * 10 ^ 9))) (all_messages db);
}

summarized : summarize_messages (world 600) db ≡ ok summary
unfolding summarize_messages
summarized = refl

summarize_messages-IsSummary_example : IsSummary (unix (600 * 10 ^ 9)) db summary
summarize_messages-IsSummary_example =
    summarize_messages-IsSummary (world 600) db summary summarized

deletes_one : (delete_message (world 100) bob (b'm' ∷ []) db).0 ≡ ok 1
unfolding delete_message delete_all delete_loop delete_rows count ◌==◌
deletes_one = refl

purges_two : (purge_queue (world 100) bob db).0 ≡ ok 2
unfolding purge_queue delete_all delete_loop delete_rows count delete ◌==◌
purges_two = refl

purge_queue_ok_example :
    (2
      ≡ count (of_recipient bob) (all_messages db)
        + count (λ (r : FrameRow). r.recipient == bob) db.frames)
    × (all_messages (purge_queue (world 100) bob db).1
        ≡ delete (of_recipient bob) (all_messages db))
    × ((purge_queue (world 100) bob db).1.frames
        ≡ delete (λ (r : FrameRow). r.recipient == bob) db.frames)
    × ((purge_queue (world 100) bob db).1.admissions ≡ db.admissions)
    × ((purge_queue (world 100) bob db).1.compliance ≡ db.compliance)
purge_queue_ok_example = purge_queue_ok (world 100) bob db 2 purges_two
