-- ===== src/Mq/Admin/Summary.antt =====
-- The three states of `SummarizeMessages`.
use agent_comm_platform.Base.{ℕ, ◌+◌, ◌≤◌, ◌≡◌, refl, Bool, List, [], ◌∷◌, ◌++◌, map, length, arith}
use agent_comm_platform.Base.Table.{count}
use agent_comm_platform.Base.Action.{ok}
use agent_comm_platform.Mq.Tables.{Db, World, unix}
use agent_comm_platform.Mq.Admin.{
  StoredRow, of_v1, of_v2, all_messages, is_pending, is_history, is_expired, sum_size, count_queues,
  bucket, QueueSummary, summarize_messages,
}

pub total_size : List StoredRow → ℕ
total_size [] = 0
total_size (r ∷ rest) = r.stored_size + total_size rest

count_partition :
    (now : ℕ) (rows : List StoredRow)
    → count (is_pending now) rows + count is_history rows + count (is_expired now) rows
      ≡ length rows
unfolding count
count_partition now [] = refl
count_partition now (r ∷ rows) = ground (arith, count_partition now rows)

size_partition :
    (now : ℕ) (rows : List StoredRow)
    → sum_size (is_pending now) rows + sum_size is_history rows + sum_size (is_expired now) rows
      ≡ total_size rows
unfolding sum_size total_size
size_partition now [] = refl
size_partition now (r ∷ rows) = ground (arith, size_partition now rows)

length-all :
    {A B C : Type 0} (f : A → C) (g : B → C) (xs : List A) (ys : List B)
    → length (map f xs ++ map g ys) ≡ length xs + length ys
length-all f g [] [] = refl
length-all f g [] (y ∷ ys) = ground (arith, length-all f g [] ys)
length-all f g (x ∷ xs) ys = ground (arith, length-all f g xs ys)

-- No state has more recipients than messages.
queues_few : (p : StoredRow → Bool) (rows : List StoredRow) → count_queues p rows ≤ count p rows
unfolding count_queues count
queues_few p [] = omega arith
queues_few p (r ∷ rows) = ground (arith, queues_few p rows)

pub record IsSummary (now : ℕ) (db : Db) (s : QueueSummary) : Type 0 where
  pub messages :
      s.pending.messages + s.history.messages + s.expired.messages
      ≡ length db.messages + length db.v2_messages
  pub bytes : s.pending.bytes + s.history.bytes + s.expired.bytes ≡ total_size (all_messages db)
  pub pending_queues : s.pending.queues ≤ s.pending.messages
  pub history_queues : s.history.queues ≤ s.history.messages
  pub expired_queues : s.expired.queues ≤ s.expired.messages

abbrev summary : ℕ → Db → QueueSummary
summary now db = record {
  pending = bucket (is_pending now) (all_messages db);
  history = bucket is_history (all_messages db);
  expired = bucket (is_expired now) (all_messages db);
}

summary-IsSummary : (now : ℕ) (db : Db) → IsSummary now db (summary now db)
unfolding bucket all_messages
summary-IsSummary now db = record {
  messages = omega (
    arith,
    count_partition now (all_messages db),
    length-all of_v1 of_v2 db.messages db.v2_messages,
  );
  bytes = size_partition now (all_messages db);
  pending_queues = queues_few (is_pending now) (all_messages db);
  history_queues = queues_few is_history (all_messages db);
  expired_queues = queues_few (is_expired now) (all_messages db);
}

-- The three states of a summary divide the stored messages and their bytes, and no state has more
-- recipients than messages.
pub summarize_messages-IsSummary :
    (w : World) (db : Db) (s : QueueSummary)
    → summarize_messages w db ≡ ok s
    → IsSummary (unix (w.clock 0)) db s
unfolding summarize_messages
summarize_messages-IsSummary w db s h =
    let same : summary (unix (w.clock 0)) db ≡ s = ground arith in
    rw same at (summary-IsSummary (unix (w.clock 0)) db)
