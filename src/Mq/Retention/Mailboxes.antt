-- ===== src/Mq/Retention/Mailboxes.antt =====
-- The cleanup and the delivery of mail.
use agent_comm_platform.Base.{ℕ, ◌≤◌, ◌≡◌, refl, ap, ◌∙◌, Bool, true, false, List, arith, take}
use agent_comm_platform.Base.Int.{ℤ, pos, negsuc}
use agent_comm_platform.Base.Bytes.{Bytes}
use agent_comm_platform.Base.Table.{select, select-delete, delete}
use agent_comm_platform.Base.Sort.{sort}
use agent_comm_platform.Mq.Tables.{Db, Store, World, is_pending_v1}
use agent_comm_platform.Mq.DeliveryV2.{is_deliverable, batch, fill, precedes, page_limit}
use agent_comm_platform.Mq.Retention.{cleanup, drop_history, drop_expired, unless}

select-unless :
    {A : Type 0} (p q : A → Bool) (fault : Bool) (xs : List A)
    → ((x : A) → p x ≡ true → q x ≡ false)
    → select p (unless fault (delete q) xs) ≡ select p xs
select-unless p q true xs k = refl
select-unless p q false xs k = select-delete p q xs k

module _ (w : World) (now later : ℕ) (recipient : Bytes) (le : now ≤ later) where
  select-drop_expired_v2 :
      (hash : Bytes) (db : Db)
      → select (is_deliverable later recipient hash) (drop_expired w now db).v2_messages
        ≡ select (is_deliverable later recipient hash) db.v2_messages
  unfolding drop_expired
  select-drop_expired_v2 hash db =
      select-unless (is_deliverable later recipient hash) _ (w.fault 1) db.v2_messages
        (λ r h. ground arith)

  select-drop_history_v2 :
      (hash : Bytes) (days : ℤ) (db : Db)
      → select (is_deliverable later recipient hash) (drop_history w days now db).v2_messages
        ≡ select (is_deliverable later recipient hash) db.v2_messages
  unfolding drop_history
  select-drop_history_v2 hash (negsuc n) db = refl
  select-drop_history_v2 hash (pos days) db =
      select-unless (is_deliverable later recipient hash) _ (w.fault 5) db.v2_messages
        (λ r h. ground arith)

  select-drop_expired_v1 :
      (db : Db)
      → select (is_pending_v1 later recipient) (drop_expired w now db).messages
        ≡ select (is_pending_v1 later recipient) db.messages
  unfolding drop_expired
  select-drop_expired_v1 db =
      select-unless (is_pending_v1 later recipient) _ (w.fault 0) db.messages (λ r h. ground arith)

  select-drop_history_v1 :
      (days : ℤ) (db : Db)
      → select (is_pending_v1 later recipient) (drop_history w days now db).messages
        ≡ select (is_pending_v1 later recipient) db.messages
  unfolding drop_history
  select-drop_history_v1 (negsuc n) db = refl
  select-drop_history_v1 (pos days) db =
      select-unless (is_pending_v1 later recipient) _ (w.fault 4) db.messages (λ r h. ground arith)

  module _ {Env : Type 0} (s : Store Env) where
    -- The cleanup at one time, whichever of its statements fail, takes away no message that is
    -- still to be delivered: from then on the v1 messages pending and the v2 batches are what they
    -- were.
    pub cleanup_keeps_mail :
        (select (is_pending_v1 later recipient) (cleanup w now s).db.messages
          ≡ select (is_pending_v1 later recipient) s.db.messages)
        × ((hash : Bytes)
            → batch later recipient hash (cleanup w now s).db ≡ batch later recipient hash s.db)
    unfolding cleanup batch
    cleanup_keeps_mail = (
      select-drop_history_v1 s.history_retention_days (drop_expired w now s.db)
          ∙ select-drop_expired_v1 s.db,
      λ hash.
          ap (λ rows. fill 0 false (take page_limit (sort precedes rows)))
            (select-drop_history_v2 hash s.history_retention_days (drop_expired w now s.db)
              ∙ select-drop_expired_v2 hash s.db),
    )
